-- ===== src/Document/Decode.antt =====
-- `Sections::parse` on the encoding of a document (program/src/state.rs).
use bio_did_registry.Base.{
  ℕ, suc, ◌+◌, ◌*◌, ◌%◌, ◌^◌, ◌≡◌, refl, sym, ap, List, [], ◌∷◌, ◌++◌, arith, length, length-append,
  All, append_assoc, append-nil, drop-append,
}
use bio_did_registry.Error.{ok}
use bio_did_registry.Bytes.{Bytes, to_le_bytes, u16_le, u32_le, u64_le}
use bio_did_registry.Reader.{Source, account, Reading, at, finish}
use bio_did_registry.Reader.Laws.{
  cursor, bytes_lem, u32_lem, len_prefixed_lem, prefixed, IsShort, length-to_le_bytes,
}
use bio_did_registry.State.Consts.{off_sections}
use bio_did_registry.State.Sections.{repeat, skip_controller, skip_vm, skip_service, walk, parse}
use bio_did_registry.Document.{
  VerificationMethod, Service, Document, encode_vm, encode_service, encode_all, raw, encode_header,
  encode_sections, from_services, from_methods, from_others, encode, IsVm, IsService, IsKey,
  IsDocument, layout,
}

-- A body that skips one entry, repeated, skips a list of them.
repeat_lem :
    {A : Type 0} (enc : A → Bytes) (P : A → Type 0) (body : Reading (Unit {0})) (s : Source)
    (len : ℕ)
    → ((x : A) (b : Bytes) → P x → body (cursor s len (enc x ++ b)) ≡ ok (tt, cursor s len b))
    → (xs : List A) (b : Bytes) → All P xs
    → repeat (length xs) body (cursor s len (encode_all enc xs ++ b)) ≡ ok (tt, cursor s len b)
unfolding repeat
repeat_lem enc P body s len step [] b h = refl
repeat_lem enc P body s len step (x ∷ xs) b h =
    rw (append_assoc (enc x) (encode_all enc xs) b)
      (rw (step x (encode_all enc xs ++ b) h.0) (repeat_lem enc P body s len step xs b h.1))

-- The same where the entries end the input.
repeat_end :
    {A : Type 0} (enc : A → Bytes) (P : A → Type 0) (body : Reading (Unit {0})) (s : Source)
    (len : ℕ)
    → ((x : A) (b : Bytes) → P x → body (cursor s len (enc x ++ b)) ≡ ok (tt, cursor s len b))
    → (xs : List A) → All P xs
    → repeat (length xs) body (cursor s len (encode_all enc xs)) ≡ ok (tt, cursor s len [])
repeat_end enc P body s len step xs h =
    rw (append-nil (encode_all enc xs)) at (repeat_lem enc P body s len step xs [] h)

skip_controller_lem :
    (s : Source) (len : ℕ) (c b : Bytes)
    → IsShort c
    → skip_controller (cursor s len (prefixed c ++ b)) ≡ ok (tt, cursor s len b)
skip_controller_lem s len c b h =
    rw (append_assoc (u32_le (length c)) c b) (rw (len_prefixed_lem s len c b h.0))

skip_vm_lem :
    (s : Source) (len : ℕ) (v : VerificationMethod) (b : Bytes)
    → IsVm v
    → skip_vm (cursor s len (encode_vm v ++ b)) ≡ ok (tt, cursor s len b)
skip_vm_lem s len v b h = simp append_assoc (
    rw (len_prefixed_lem s len v.fragment _ h.0.0) (
      rw
        (bytes_lem s len 3 (v.method_type ∷ u16_le v.flags) _
          (ap suc (sym (length-to_le_bytes 2 v.flags))))
        (rw (len_prefixed_lem s len v.key b h.3.0))))

skip_service_lem :
    (s : Source) (len : ℕ) (v : Service) (b : Bytes)
    → IsService v
    → skip_service (cursor s len (encode_service v ++ b)) ≡ ok (tt, cursor s len b)
skip_service_lem s len v b h = simp append_assoc (
    rw (len_prefixed_lem s len v.fragment _ h.0.0) (
      rw (len_prefixed_lem s len v.service_type _ h.1.0)
        (rw (len_prefixed_lem s len v.endpoint b h.2.0))))

pub length-keys : (ks : List Bytes) → All IsKey ks → length (encode_all raw ks) ≡ length ks * 32
length-keys [] h = omega arith
length-keys (k ∷ ks) h =
    omega (arith, length-append k (encode_all raw ks), length-keys ks h.1, h.0.0)

pub length-header : (d : Document) → IsDocument d → length (encode_header d) ≡ off_sections
unfolding to_le_bytes
length-header d v = omega (
  arith,
  length-append d.discriminator
      (u64_le d.version ++ (d.bump ∷ d.subject ++ (d.deactivated ∷ u64_le d.updated_at))),
  length-append d.subject (d.deactivated ∷ u64_le d.updated_at),
  v.discriminator_len,
  v.subject_key.0,
)

-- What stands before a suffix of `n` bytes less.
pub length-u32 : (v : ℕ) (b : Bytes) → length (u32_le v ++ b) ≡ 4 + length b
length-u32 v b = omega (arith, length-append (u32_le v) b, length-to_le_bytes 4 (v % 2 ^ 32))

-- The walk over the sections of a document finds their layout.
walk-encode :
    (d : Document) (len : ℕ)
    → IsDocument d
    → len ≡ off_sections + length (encode_sections d)
    → walk (cursor account len (encode_sections d)) ≡ ok (layout d, cursor account len [])
unfolding walk finish
walk-encode d len v e = rw (u32_lem account len (length d.native_controllers) _ v.native_count) (
    rw
      (bytes_lem account len (length d.native_controllers * 32)
        (encode_all raw d.native_controllers) _
        (sym (length-keys d.native_controllers v.native_keys)))
      (rw (u32_lem account len (length d.other_controllers) _ v.other_count) (
        rw
          (repeat_lem prefixed IsShort skip_controller account len (skip_controller_lem account len)
            d.other_controllers _ v.other_short)
          (rw (u32_lem account len (length d.verification_methods) _ v.method_count) (
            rw
              (repeat_lem encode_vm IsVm skip_vm account len (skip_vm_lem account len)
                d.verification_methods _ v.method_ranges)
              (rw (u32_lem account len (length d.services) _ v.service_count) (
                rw
                  (repeat_end encode_service IsService skip_service account len
                    (skip_service_lem account len) d.services v.service_ranges)
                  (ground (
                    arith,
                    length-u32 (length d.native_controllers)
                        (encode_all raw d.native_controllers ++ from_others d),
                    length-append (encode_all raw d.native_controllers) (from_others d),
                    length-u32 (length d.other_controllers)
                        (encode_all prefixed d.other_controllers ++ from_methods d),
                    length-append (encode_all prefixed d.other_controllers) (from_methods d),
                    length-u32 (length d.verification_methods)
                        (encode_all encode_vm d.verification_methods ++ from_services d),
                    length-append (encode_all encode_vm d.verification_methods) (from_services d),
                    length-u32 (length d.services) (encode_all encode_service d.services),
                  )))))))))

pub at_lem :
    (s : Source) (n : ℕ) (a b : Bytes)
    → n ≡ length a
    → at s (a ++ b) n ≡ ok (cursor s (length (a ++ b)) b)
unfolding at
at_lem s n a b e = rw e (ground (arith, length-append a b, drop-append a b))

-- Parsing the encoding of a document whose fields fit the layout succeeds, with the offsets of
-- its layout.
pub parse-encode : (d : Document) → IsDocument d → parse (encode d) ≡ ok (layout d)
unfolding parse encode
parse-encode d v =
    rw (at_lem account off_sections (encode_header d) (encode_sections d) (sym (length-header d v)))
      (rw (
        walk-encode d (length (encode_header d ++ encode_sections d)) v
          (omega (arith, length-append (encode_header d) (encode_sections d), length-header d v))))
