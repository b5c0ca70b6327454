-- ===== src/Document/Entries.antt =====
-- The entry iterators over an encoded document (program/src/state.rs, `VmIter` and `SvcIter`).
mod Reads
unfoldable pub use Reads.*
use bio_did_registry.Base.{
  ℕ, zero, suc, ◌+◌, ◌-◌, ◌<◌, ◌≤◌, ◌≡◌, refl, sym, ap, ◌∙◌, List, [], ◌∷◌, ◌++◌, arith, length,
  length-append, All, append_assoc, append-nil, take-append, leb, le→leb, true,
}
use bio_did_registry.Error.{ok}
use bio_did_registry.Bytes.{Bytes, to_le_bytes, u16_le, u32_le}
use bio_did_registry.Reader.{Source, account, Reading}
use bio_did_registry.Reader.Laws.{
  cursor, u8_lem, uint_lem, len_prefixed_lem, prefixed, length-to_le_bytes,
}
use bio_did_registry.State.Consts.{vm_space, service_space}
use bio_did_registry.State.View.{
  DidView, VmRef, SvcRef, section, next, entries, read_vm, read_service, to_option, vms, services,
}
use bio_did_registry.Document.{
  VerificationMethod, Service, Document, encode_vm, encode_service, encode_all, encode, IsVm,
  IsService, IsDocument, layout, from_services,
}
use bio_did_registry.Document.Parts.{
  before_methods, before_services, encode-before_methods, encode-before_services,
  length-before_methods, length-before_services, length-u32_le,
}
use bio_did_registry.Document.Decode.{at_lem, length-u32}

next_lem :
    {R : Type 0} (read : Reading R) (s : Source) (len : ℕ) (rest : Bytes)
    → 0 < length rest
    → next read (cursor s len rest) ≡ to_option (read (cursor s len rest))
unfolding next
next_lem read s len [] h = absurd (omega arith)
next_lem read s len (b ∷ bs) h = refl

-- The loop over entries that are read one by one, each by its own bytes, sees them all.
entries_lem :
    {A R : Type 0} (ref : ℕ → A → R) (enc : A → Bytes) (P : A → Type 0) (read : Reading R) (len : ℕ)
    → ((x : A) → 0 < length (enc x))
    → ((pos : ℕ) (x : A) (b : Bytes)
        → P x
        → pos + length (enc x ++ b) ≡ len
        → read (cursor account len (enc x ++ b)) ≡ ok (ref pos x, cursor account len b))
    → (fuel pos : ℕ) (xs : List A) → All P xs
    → length (encode_all enc xs) ≤ fuel
    → pos + length (encode_all enc xs) ≡ len
    → entries fuel read (cursor account len (encode_all enc xs)) ≡ refs ref enc pos xs
unfolding entries refs
entries_lem ref enc P read len pos_enc step zero pos [] fits f e = refl
entries_lem ref enc P read len pos_enc step zero pos (x ∷ xs) fits f e =
    absurd (omega (arith, length-append (enc x) (encode_all enc xs), pos_enc x))
entries_lem ref enc P read len pos_enc step (suc fuel) pos [] fits f e = unfold next in refl
entries_lem ref enc P read len pos_enc step (suc fuel) pos (x ∷ xs) fits f e =
    let len_eq = length-append (enc x) (encode_all enc xs) in
    rw
      (
        next_lem read account len (enc x ++ encode_all enc xs) (omega (arith, len_eq, pos_enc x)),
        entries,
      )
      (rw (step pos x (encode_all enc xs) fits.0 e) (
        ap (λ t. ref pos x ∷ t)
          (entries_lem ref enc P read len pos_enc step fuel (pos + length (enc x)) xs fits.1
            (omega (arith, len_eq, pos_enc x)) (omega (arith, len_eq)))))

-- The view of an encoded document.
abbrev pub doc_view : Document → DidView
doc_view d = record { bytes = encode d; sections = layout d }

-- A section that lies between `a` and `b` is read from behind `a`, up to `b`.
section_lem :
    (a m b : Bytes) (items end : ℕ)
    → items ≡ length a
    → end ≡ length a + length m
    → section (a ++ (m ++ b)) items end ≡ cursor account end m
unfolding section
section_lem a m b items end p q =
    let fits : leb end (length (a ++ (m ++ b))) ≡ true =
      le→leb _ _ (omega (arith, length-append a (m ++ b), length-append m b)) in
    rw (fits) (
      rw (q ∙ sym (length-append a m), sym (append_assoc a m b))
        (rw (take-append (a ++ m) b) (rw (at_lem account items a m p) refl)))

section_end :
    (a m : Bytes) (items end : ℕ)
    → items ≡ length a
    → end ≡ length a + length m
    → section (a ++ m) items end ≡ cursor account end m
section_end a m items end p q = rw (append-nil m) at (section_lem a m [] items end p q)

vms_section :
    (d : Document)
    → IsDocument d
    → section (encode d) (layout d).vm_items (layout d).svc_count_pos
      ≡ cursor account (layout d).svc_count_pos (encode_all encode_vm d.verification_methods)
vms_section d v =
    rw
      (
        encode-before_methods d,
        sym (
            append_assoc (before_methods d) (u32_le (length d.verification_methods))
              (encode_all encode_vm d.verification_methods ++ from_services d)),
      )
      (section_lem (before_methods d ++ u32_le (length d.verification_methods))
        (encode_all encode_vm d.verification_methods) (from_services d) _ _
        (omega (
          arith,
          length-before_methods d v,
          length-append (before_methods d) (u32_le (length d.verification_methods)),
          length-u32_le (length d.verification_methods),
        ))
        (omega (
          arith,
          length-before_methods d v,
          length-append (before_methods d) (u32_le (length d.verification_methods)),
          length-u32_le (length d.verification_methods),
        )))

services_section :
    (d : Document)
    → IsDocument d
    → section (encode d) (layout d).svc_items (layout d).end
      ≡ cursor account (layout d).end (encode_all encode_service d.services)
services_section d v =
    rw
      (
        encode-before_services d,
        sym (
            append_assoc (before_services d) (u32_le (length d.services))
              (encode_all encode_service d.services)),
      )
      (section_end (before_services d ++ u32_le (length d.services))
        (encode_all encode_service d.services) _ _
        (omega (
          arith,
          length-before_services d v,
          length-append (before_services d) (u32_le (length d.services)),
          length-u32_le (length d.services),
        ))
        (omega (
          arith,
          length-before_services d v,
          length-append (before_services d) (u32_le (length d.services)),
          length-u32_le (length d.services),
        )))

-- In a well-formed document, the method iterator sees every method, in order, each at its place,
-- and no more.
pub vms-encode :
    (d : Document)
    → IsDocument d
    → vms (doc_view d) ≡ refs vm_ref encode_vm (layout d).vm_items d.verification_methods
unfolding vms
vms-encode d v = rw (vms_section d v) (
    entries_lem vm_ref encode_vm IsVm read_vm (layout d).svc_count_pos encode_vm-pos
      (read_vm_at (layout d).svc_count_pos) (length (encode_all encode_vm d.verification_methods))
      (layout d).vm_items d.verification_methods v.method_ranges (omega arith) (omega arith))

-- In a well-formed document, the service iterator sees every service, in order, each at its
-- place, and no more.
pub services-encode :
    (d : Document)
    → IsDocument d
    → services (doc_view d) ≡ refs svc_ref encode_service (layout d).svc_items d.services
unfolding services
services-encode d v = rw (services_section d v) (
    entries_lem svc_ref encode_service IsService read_service (layout d).end encode_service-pos
      (read_service_at (layout d).end) (length (encode_all encode_service d.services))
      (layout d).svc_items d.services v.service_ranges (omega arith) (omega arith))
