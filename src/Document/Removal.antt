-- ===== src/Document/Removal.antt =====
-- Removing entries in place (program/src/instructions/remove_verification_method.rs,
-- remove_service.rs).
use bio_did_registry.Base.{
  ℕ, ◌+◌, ◌-◌, ◌^◌, ◌<◌, ◌≡◌, refl, sym, ap, ◌∙◌, List, [], ◌∷◌, ◌++◌, arith, length, length-append,
  All, append_assoc, append-nil, drop, length-drop,
}
use bio_did_registry.Error.{ok}
use bio_did_registry.Bytes.{Bytes, to_le_bytes, u32_le, copy_from_slice}
use bio_did_registry.Bytes.Slices.{copy_lem, copy_within_lem}
use bio_did_registry.Document.{
  VerificationMethod, Service, Document, encode_vm, encode_service, encode_all, encode, IsDocument,
  IsVm, IsService, layout, from_services,
}
use bio_did_registry.Document.Parts.{
  before_methods, before_services, encode-before_methods, encode-before_services,
  length-before_methods, length-before_services, length-u32_le,
}
use bio_did_registry.Document.Updates.{encode_all-append}
use bio_did_registry.Instructions.RemoveVerificationMethod.{remove_entry}

abbrev pub with_methods : Document → List VerificationMethod → Document
with_methods d vs = record d { verification_methods = vs }

abbrev pub with_services : Document → List Service → Document
with_services d ss = record d { services = ss }

-- `remove_entry` on the bytes before the count, the count, the entries before, the entry, and the
-- bytes behind it. As many bytes as the entry had are left over at the end.
pub remove_entry_parts :
    (q c w x t : Bytes) (start end len pos count : ℕ)
    → pos ≡ length q
    → length c ≡ 4
    → start ≡ length (q ++ (c ++ w))
    → end ≡ start + length x
    → len ≡ end + length t
    → (g : Bytes) × (length g ≡ length x)
      × (remove_entry start end len pos count ((q ++ (c ++ w)) ++ (x ++ (t ++ [])))
          ≡ ok ((q ++ (u32_le (count - 1) ++ (w ++ t))) ++ g))
unfolding remove_entry to_le_bytes
remove_entry_parts q c w x t start end len pos count pos_eq c_len start_eq end_eq len_eq =
    let g : Bytes = drop (0 + length t) (x ++ (t ++ [])) in
    (
      g,
      omega (
        arith,
        length-drop (0 + length t) (x ++ (t ++ [])),
        length-append x (t ++ []),
        length-append t [],
      ),
      rw
          (copy_within_lem end len start 0 (q ++ (c ++ w)) x t [] (omega arith) (omega arith)
            (omega arith) (omega arith))
          (ap (copy_from_slice pos (u32_le (count - 1)))
              (append_assoc q (c ++ w) (t ++ g) ∙ ap (λ b. q ++ b) (append_assoc c w (t ++ g)))
            ∙ (copy_lem pos (u32_le (count - 1)) q c (w ++ (t ++ g)) pos_eq (sym c_len)
                ∙ ap ok (simp append_assoc))),
    )

-- The bytes of a list with an entry `x` between `front` and `back`.
split_entries :
    {A : Type 0} (enc : A → Bytes) (front : List A) (x : A) (back : List A) (r : Bytes)
    → encode_all enc (front ++ (x ∷ back)) ++ r
      ≡ encode_all enc front ++ (enc x ++ (encode_all enc back ++ r))
split_entries enc front x back r = rw (encode_all-append enc front (x ∷ back)) (simp append_assoc)

length-remove :
    {A : Type 0} (front : List A) (x : A) (back : List A)
    → length (front ++ (x ∷ back)) - 1 ≡ length (front ++ back)
length-remove front x back = omega (arith, length-append front (x ∷ back), length-append front back)

-- Where the entries of the methods before `front` end.
abbrev pub method_start : Document → List VerificationMethod → ℕ
method_start d front = (layout d).vm_items + length (encode_all encode_vm front)

abbrev pub service_start : Document → List Service → ℕ
service_start d front = (layout d).svc_items + length (encode_all encode_service front)

-- An encoded document cut around one method.
pub encode-at_method :
    (d : Document) (front : List VerificationMethod) (x : VerificationMethod)
    (back : List VerificationMethod)
    → encode (with_methods d (front ++ (x ∷ back)))
      ≡ (before_methods d ++ (u32_le (length (front ++ (x ∷ back))) ++ encode_all encode_vm front))
        ++ (encode_vm x ++ (encode_all encode_vm back ++ from_services d))
encode-at_method d front x back =
    rw
      (
        encode-before_methods (with_methods d (front ++ (x ∷ back))),
        split_entries encode_vm front x back (from_services d),
      )
      (simp append_assoc)

pub encode-at_service :
    (d : Document) (front : List Service) (x : Service) (back : List Service)
    → encode (with_services d (front ++ (x ∷ back)))
      ≡ (before_services d
          ++ (u32_le (length (front ++ (x ∷ back))) ++ encode_all encode_service front))
        ++ (encode_service x ++ encode_all encode_service back)
encode-at_service d front x back =
    rw
      (
        encode-before_services (with_services d (front ++ (x ∷ back))),
        encode_all-append encode_service front (x ∷ back),
      )
      (simp append_assoc)

pub length-front :
    {A : Type 0} (enc : A → Bytes) (q : Bytes) (n pos : ℕ) (front : List A)
    → pos ≡ length q
    → (pos + 4) + length (encode_all enc front) ≡ length (q ++ (u32_le n ++ encode_all enc front))
length-front enc q n pos front e = omega (
  arith,
  length-append q (u32_le n ++ encode_all enc front),
  length-append (u32_le n) (encode_all enc front),
  length-u32_le n,
)

pub length-split :
    {A : Type 0} (enc : A → Bytes) (front : List A) (x : A) (back : List A)
    → length (encode_all enc (front ++ (x ∷ back)))
      ≡ length (encode_all enc front) + length (enc x) + length (encode_all enc back)
length-split enc front x back = rw (encode_all-append enc front (x ∷ back)) (
    omega (
      arith,
      length-append (encode_all enc front) (encode_all enc (x ∷ back)),
      length-append (enc x) (encode_all enc back),
    ))

-- Removing the bytes of a method leaves the encoding of the document without it, and as many bytes
-- as the method had behind it.
pub remove_method-encode :
    (d : Document) (front : List VerificationMethod) (x : VerificationMethod)
    (back : List VerificationMethod)
    → let before = with_methods d (front ++ (x ∷ back)) in
      IsDocument before
      → (g : Bytes) × (length g ≡ length (encode_vm x))
        × (remove_entry
              (method_start d front)
              (method_start d front + length (encode_vm x))
              (layout before).end
              (layout before).vm_count_pos
              (layout before).vm_count
              (encode before)
            ≡ ok (encode (with_methods d (front ++ back)) ++ g))
remove_method-encode d front x back v =
    let before = with_methods d (front ++ (x ∷ back)) in
    let after = with_methods d (front ++ back) in
    let t = encode_all encode_vm back ++ from_services d in
    let start = method_start d front in
    let pos = length-before_methods before v in
    let (g, size, run) =
      remove_entry_parts (before_methods d) (u32_le (layout before).vm_count)
        (encode_all encode_vm front) (encode_vm x) t start (start + length (encode_vm x))
        (layout before).end (layout before).vm_count_pos (layout before).vm_count (sym pos)
        (length-u32_le (layout before).vm_count)
        (length-front encode_vm (before_methods d) (layout before).vm_count (layout d).vm_count_pos
          front (sym pos))
        refl
        (omega (
          arith,
          length-split encode_vm front x back,
          length-append (encode_all encode_vm back) (from_services d),
          length-u32_le (length d.services),
          length-append (u32_le (length d.services)) (encode_all encode_service d.services),
        )) in
    (
      g,
      size,
      rw (encode-at_method d front x back, ← append-nil t)
          (run
            ∙ ap (λ b. ok (b ++ g))
                (rw
                  (
                    encode-before_methods after,
                    length-remove front x back,
                    encode_all-append encode_vm front back,
                  )
                  (simp append_assoc))),
    )

-- Removing the bytes of a service of a well-formed document leaves the encoding of the document
-- without it, and behind it as many bytes as the service took.
pub remove_service-encode :
    (d : Document) (front : List Service) (x : Service) (back : List Service)
    → let before = with_services d (front ++ (x ∷ back)) in
      IsDocument before
      → (g : Bytes) × (length g ≡ length (encode_service x))
        × (remove_entry
              (service_start d front)
              (service_start d front + length (encode_service x))
              (layout before).end
              (layout before).svc_count_pos
              (layout before).svc_count
              (encode before)
            ≡ ok (encode (with_services d (front ++ back)) ++ g))
remove_service-encode d front x back v =
    let before = with_services d (front ++ (x ∷ back)) in
    let after = with_services d (front ++ back) in
    let t = encode_all encode_service back in
    let start = service_start d front in
    let pos = length-before_services before v in
    let (g, size, run) =
      remove_entry_parts (before_services d) (u32_le (layout before).svc_count)
        (encode_all encode_service front) (encode_service x) t start
        (start + length (encode_service x)) (layout before).end (layout before).svc_count_pos
        (layout before).svc_count (sym pos) (length-u32_le (layout before).svc_count)
        (length-front encode_service (before_services d) (layout before).svc_count
          (layout d).svc_count_pos front (sym pos))
        refl (omega (arith, length-split encode_service front x back)) in
    (
      g,
      size,
      rw (encode-at_service d front x back, ← append-nil t)
          (run
            ∙ ap (λ b. ok (b ++ g))
                (rw
                  (
                    encode-before_services after,
                    length-remove front x back,
                    encode_all-append encode_service front back,
                  )
                  (simp append_assoc))),
    )

pub with_methods-IsDocument :
    (d : Document) (vs : List VerificationMethod)
    → IsDocument d
    → length vs < 2 ^ 32
    → All IsVm vs
    → IsDocument (with_methods d vs)
with_methods-IsDocument d vs v n ranges = ground arith

pub with_services-IsDocument :
    (d : Document) (ss : List Service)
    → IsDocument d
    → length ss < 2 ^ 32
    → All IsService ss
    → IsDocument (with_services d ss)
with_services-IsDocument d ss v n ranges = ground arith
