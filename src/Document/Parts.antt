-- ===== src/Document/Parts.antt =====
-- An encoded document cut at the count of each section, and the offsets of the cuts.
use bio_did_registry.Base.{ℕ, ◌+◌, ◌≡◌, [], ◌∷◌, ◌++◌, arith, length, length-append, append_assoc}
use bio_did_registry.Bytes.{Bytes, u32_le, u64_le}
use bio_did_registry.Reader.Laws.{prefixed}
use bio_did_registry.State.Consts.{off_deactivated}
use bio_did_registry.Document.{
  Document, encode_vm, encode_service, encode_all, raw, encode_header, encode_sections, encode,
  IsDocument, layout, from_services, from_methods,
}
use bio_did_registry.Document.Decode.{length-u32, length-header}
use bio_did_registry.Reader.Laws.{length-to_le_bytes}

-- The bytes before the count of the methods.
abbrev pub before_methods : Document → Bytes
before_methods d =
    encode_header d
    ++ (u32_le (length d.native_controllers)
        ++ (encode_all raw d.native_controllers
            ++ (u32_le (length d.other_controllers) ++ encode_all prefixed d.other_controllers)))

-- The bytes before the count of the services.
abbrev pub before_services : Document → Bytes
before_services d =
    before_methods d
    ++ (u32_le (length d.verification_methods) ++ encode_all encode_vm d.verification_methods)

pub length-u32_le : (v : ℕ) → length (u32_le v) ≡ 4
length-u32_le v = length-to_le_bytes 4 _

pub encode-before_methods : (d : Document) → encode d ≡ before_methods d ++ from_methods d
unfolding encode
encode-before_methods d = simp append_assoc

pub encode-before_services : (d : Document) → encode d ≡ before_services d ++ from_services d
unfolding encode
encode-before_services d = simp append_assoc

pub length-before_methods :
    (d : Document) → IsDocument d → length (before_methods d) ≡ (layout d).vm_count_pos
length-before_methods d v = omega (
  arith,
  length-header d v,
  length-append (encode_header d) (
      u32_le (length d.native_controllers)
      ++ (encode_all raw d.native_controllers
          ++ (u32_le (length d.other_controllers) ++ encode_all prefixed d.other_controllers))),
  length-u32 (length d.native_controllers) (
      encode_all raw d.native_controllers
      ++ (u32_le (length d.other_controllers) ++ encode_all prefixed d.other_controllers)),
  length-append (encode_all raw d.native_controllers)
      (u32_le (length d.other_controllers) ++ encode_all prefixed d.other_controllers),
  length-u32 (length d.other_controllers) (encode_all prefixed d.other_controllers),
)

pub length-before_services :
    (d : Document) → IsDocument d → length (before_services d) ≡ (layout d).svc_count_pos
length-before_services d v = omega (
  arith,
  length-before_methods d v,
  length-append (before_methods d)
      (u32_le (length d.verification_methods) ++ encode_all encode_vm d.verification_methods),
  length-u32 (length d.verification_methods) (encode_all encode_vm d.verification_methods),
)

-- An encoded document is as long as its layout says.
pub length-encode : (d : Document) → IsDocument d → length (encode d) ≡ (layout d).end
length-encode d v = rw (encode-before_services d) (
    omega (
      arith,
      length-append (before_services d) (from_services d),
      length-before_services d v,
      length-u32 (length d.services) (encode_all encode_service d.services),
    ))

-- The header cut at each field that an update writes.
abbrev pub before_deactivated : Document → Bytes
before_deactivated d = d.discriminator ++ (u64_le d.version ++ (d.bump ∷ d.subject))

pub encode-at_version :
    (d : Document)
    → encode d
      ≡ d.discriminator
        ++ (u64_le d.version
            ++ (d.bump ∷ d.subject ++ (d.deactivated ∷ u64_le d.updated_at ++ encode_sections d)))
unfolding encode
encode-at_version d = simp append_assoc

pub encode-at_deactivated :
    (d : Document)
    → encode d
      ≡ before_deactivated d ++ ((d.deactivated ∷ []) ++ (u64_le d.updated_at ++ encode_sections d))
unfolding encode
encode-at_deactivated d = simp append_assoc

pub encode-at_updated_at :
    (d : Document)
    → encode d
      ≡ (before_deactivated d ++ (d.deactivated ∷ [])) ++ (u64_le d.updated_at ++ encode_sections d)
unfolding encode
encode-at_updated_at d = simp append_assoc

pub length-before_deactivated :
    (d : Document)
    → length d.discriminator ≡ 8
    → length d.subject ≡ 32
    → length (before_deactivated d) ≡ off_deactivated
length-before_deactivated d p q = omega (
  arith,
  length-append d.discriminator (u64_le d.version ++ (d.bump ∷ d.subject)),
  length-append (u64_le d.version) (d.bump ∷ d.subject),
  length-to_le_bytes 8 d.version,
)

pub length-before_updated_at :
    (d : Document)
    → length d.discriminator ≡ 8
    → length d.subject ≡ 32
    → off_deactivated + 1 ≡ length (before_deactivated d ++ (d.deactivated ∷ []))
length-before_updated_at d p q = omega (
  arith,
  length-append (before_deactivated d) (d.deactivated ∷ []),
  length-before_deactivated d p q,
)
