-- ===== src/Document/Lifecycle.antt =====
-- The first and the last document of an account (program/src/instructions/initialize.rs,
-- deactivate.rs).
use bio_did_registry.Base.{
  ℕ, ◌+◌, ◌-◌, ◌≤◌, ◌≡◌, refl, sym, ap, ◌∙◌, List, [], ◌∷◌, ◌++◌, arith, length, length-append,
  replicate, append_assoc, append-nil, drop, length-drop,
}
use bio_did_registry.Error.{ok}
use bio_did_registry.Bytes.{Bytes, to_le_bytes, u16_le, u32_le, u64_le, copy_from_slice, fill}
use bio_did_registry.Bytes.Slices.{copy_lem, copy_next, drop-length}
use bio_did_registry.State.Consts.{
  off_deactivated, off_sections, tombstone_space, account_discriminator, default_fragment,
  vm_type_ed25519, vm_flags_default, initial_space,
}
use bio_did_registry.Document.{
  Document, encode, encode_sections, encode_header, encode_all, raw, IsDocument,
}
use bio_did_registry.Document.Parts.{
  encode-at_deactivated, before_deactivated, length-before_deactivated, length-encode,
}
use bio_did_registry.Document.Decode.{length-header}
use bio_did_registry.Document.Updates.{writes, writes_lem}
use bio_did_registry.Instructions.Deactivate.{entomb}
use bio_did_registry.Instructions.Initialize.{write_initial}

-- The document that a deactivation leaves: its header, marked, and no entries.
abbrev pub tombstone : Document → Document
tombstone d = record d {
  deactivated = 1;
  native_controllers = [];
  other_controllers = [];
  verification_methods = [];
  services = [];
}

-- The document that an initialization stores.
abbrev pub initial : ℕ → Bytes → Bytes → ℕ → Document
initial bump subject default_key now = record {
  discriminator = account_discriminator;
  version = 1;
  bump = bump;
  subject = subject;
  deactivated = 0;
  updated_at = now;
  native_controllers = [];
  other_controllers = [];
  verification_methods =
      record {
        fragment = default_fragment;
        method_type = vm_type_ed25519;
        flags = vm_flags_default;
        key = default_key;
      }
      ∷ [];
  services = [];
}

-- Copies that fill the bytes from `w` on, to a last one, leave nothing of what was there.
writes_to :
    (ps : List Bytes) (last : Bytes) (w end : ℕ) (a r : Bytes)
    → w ≡ length a
    → end ≡ w + length (encode_all raw ps)
    → length r ≡ length (encode_all raw ps) + length last
    → writes w ps (a ++ r) (copy_from_slice end last) ≡ ok (a ++ (encode_all raw ps ++ last))
writes_to ps last w end a r e at_end size =
    let b = encode_all raw ps in
    let rest : Bytes = drop (length b) r in
    let rest_len = length-drop (length b) r in
    writes_lem ps w a r (copy_from_slice end last) e (omega (arith, size))
    ∙ (ap (copy_from_slice end last) (sym (append_assoc a b rest))
        ∙ (copy_next end last (a ++ b) rest (omega (arith, length-append a b))
              (omega (arith, rest_len, size))
            ∙ rw (drop-length (length last) rest (omega (arith, rest_len, size)))
                (ap ok (simp (append_assoc, append-nil)))))

-- What `write_initial` writes, in order, before the count of the services.
abbrev after_subject : Bytes → ℕ → List Bytes
after_subject default_key now =
    (0 ∷ [])
    ∷ u64_le now
    ∷ u32_le 0
    ∷ u32_le 0
    ∷ u32_le 1
    ∷ u32_le (length default_fragment)
    ∷ default_fragment
    ∷ (vm_type_ed25519 ∷ [])
    ∷ u16_le vm_flags_default
    ∷ u32_le 32
    ∷ default_key
    ∷ []

abbrev initial_parts : ℕ → Bytes → Bytes → ℕ → List Bytes
initial_parts bump subject default_key now =
    account_discriminator ∷ u64_le 1 ∷ (bump ∷ []) ∷ subject ∷ after_subject default_key now

write_initial-writes :
    (bump : ℕ) (subject default_key : Bytes) (now : ℕ) (bytes : Bytes)
    → length subject ≡ 32
    → length default_key ≡ 32
    → length bytes ≡ initial_space
    → writes 0
        (initial_parts bump subject default_key now)
        bytes
        (copy_from_slice (initial_space - 4) (u32_le 0))
      ≡ write_initial bump subject default_key now bytes
unfolding write_initial to_le_bytes copy_from_slice
write_initial-writes bump subject default_key now bytes s_len k_len b_len =
    rw (s_len, k_len, b_len) refl

-- Over an account of `INITIAL_SPACE` bytes, whatever they are, and with a subject and a key of 32
-- bytes, `write_initial` leaves the encoding of the first document: version 1, active, no
-- controllers and no services, and the default key as its only method, with the default flags.
pub write_initial-encode :
    (bump : ℕ) (subject default_key : Bytes) (now : ℕ) (bytes : Bytes)
    → length subject ≡ 32
    → length default_key ≡ 32
    → length bytes ≡ initial_space
    → write_initial bump subject default_key now bytes
      ≡ ok (encode (initial bump subject default_key now))
unfolding encode to_le_bytes
write_initial-encode bump subject default_key now bytes s_len k_len b_len =
    let parts = initial_parts bump subject default_key now in
    let size : length (encode_all raw parts) + 4 ≡ initial_space = omega (
      arith,
      s_len,
      k_len,
      length-append subject (encode_all raw (after_subject default_key now)),
      length-append default_key [],
    ) in
    sym (write_initial-writes bump subject default_key now bytes s_len k_len b_len)
    ∙ writes_to parts (u32_le 0) 0 (initial_space - 4) [] bytes refl (omega (arith, size))
        (omega (arith, b_len, size))
    ∙ ap ok (simp (append_assoc, append-nil, k_len))

abbrev marked : Document → Document
marked d = record d { deactivated = 1 }

marked-IsDocument : (d : Document) → IsDocument d → IsDocument (marked d)
marked-IsDocument d v = ground arith

pub tombstone-IsDocument : (d : Document) → IsDocument d → IsDocument (tombstone d)
tombstone-IsDocument d v = ground arith

-- Four counts at least stand behind the header.
sections_room : (d : Document) → IsDocument d → 16 ≤ length (encode_sections d)
unfolding encode
sections_room d v = omega (
  arith,
  length-encode d v,
  length-header d v,
  length-append (encode_header d) (encode_sections d),
)

tombstone-sections :
    (d : Document) → encode_header (marked d) ++ replicate 16 0 ≡ encode (tombstone d)
unfolding encode to_le_bytes
tombstone-sections d = refl

encode-marked : (d : Document) → encode_header (marked d) ++ encode_sections d ≡ encode (marked d)
unfolding encode
encode-marked d = refl

-- The edit of a deactivation makes the head of a well-formed document's bytes, `TOMBSTONE_SPACE`
-- of them, the encoding of the document marked deactivated, with no controllers, methods or
-- services.
pub entomb-encode :
    (d : Document)
    → IsDocument d
    → (rest : Bytes) × (entomb (encode d) ≡ ok (encode (tombstone d) ++ rest))
      × (length (encode (tombstone d)) ≡ tombstone_space)
unfolding entomb fill
entomb-encode d v =
    let rest : Bytes = drop 16 (encode_sections d) in
    (
      rest,
      rw (encode-at_deactivated d) (
          rw
            (copy_lem off_deactivated (1 ∷ []) (before_deactivated d) (d.deactivated ∷ [])
              (u64_le d.updated_at ++ encode_sections d)
              (sym (length-before_deactivated d v.discriminator_len v.subject_key.0)) refl)
            (ap (copy_from_slice off_sections (replicate 16 0))
                (sym (encode-at_deactivated (marked d)) ∙ sym (encode-marked d))
              ∙ copy_next off_sections (replicate 16 0) (encode_header (marked d))
                  (encode_sections d) (sym (length-header (marked d) (marked-IsDocument d v)))
                  (sections_room d v)
              ∙ ap (λ b. ok (b ++ rest)) (tombstone-sections d))),
      length-encode (tombstone d) (tombstone-IsDocument d v),
    )
