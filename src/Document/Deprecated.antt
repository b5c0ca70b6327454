-- ===== src/Document/Deprecated.antt =====
-- The closure forms of the lookups over an encoded document (program/src/state.rs).
use bio_did_registry.Base.{
  ℕ, ◌+◌, ◌≡◌, refl, sym, ap, ◌∙◌, Bool, true, false, not, ◌&&◌, ◌||◌, Bool-cases, inl, inr, List,
  [], ◌∷◌, ◌++◌, ◌==◌, if◌then◌else◌, bytes_eq, arith, length, length-append, append_assoc,
  append-nil, All,
}
use bio_did_registry.Error.{
  Result, ok, err, panic, require, did_deactivated, unauthorized, fragment_already_in_use,
  invalid_fragment, ◌>>=◌, ◌>>◌,
}
use bio_did_registry.Bytes.{Bytes, u32_le}
use bio_did_registry.Reader.{account, Reading}
use bio_did_registry.Reader.Laws.{cursor}
use bio_did_registry.State.Consts.{off_deactivated, default_fragment}
use bio_did_registry.State.View.{
  VmRef, SvcRef, find, any, count_if, is_some, read_vm, read_service, vms, services, find_vm,
  find_service, get_byte, is_deactivated, is_authority,
}
use bio_did_registry.State.View
use bio_did_registry.State.Deprecated.{each, for_each_vm, for_each_service, noting, may_update}
use bio_did_registry.State.Deprecated
use bio_did_registry.Document.{
  Document, encode_vm, encode_service, encode_all, encode, IsVm, IsService, IsDocument, layout,
  from_services,
}
use bio_did_registry.Document.Parts.{
  before_methods, before_services, encode-before_methods, encode-before_services,
  length-before_methods, length-before_services, length-u32_le,
}
use bio_did_registry.Document.Decode.{at_lem}
use bio_did_registry.Document.Entries.{
  doc_view, vm_ref, svc_ref, refs, read_vm_at, read_service_at, vms-encode, services-encode,
}

-- A closure over a list of entries.
unfoldable visit : {A S : Type 0} → (A → S → Result (S × Bool)) → List A → S → Result S
visit f [] state = ok state
visit f (x ∷ xs) state = f x state >>= λ q. elim q.1 [ true ↦ visit f xs q.0 | false ↦ ok q.0 ]

each_lem :
    {A R S : Type 0} (ref : ℕ → A → R) (enc : A → Bytes) (P : A → Type 0) (read : Reading R)
    (len : ℕ) (f : R → S → Result (S × Bool)) (b : Bytes)
    → ((pos : ℕ) (x : A) (b : Bytes)
        → P x
        → pos + length (enc x ++ b) ≡ len
        → read (cursor account len (enc x ++ b)) ≡ ok (ref pos x, cursor account len b))
    → (pos : ℕ) (xs : List A) (state : S) → All P xs
    → pos + length (encode_all enc xs ++ b) ≡ len
    → each (length xs) read f (cursor account len (encode_all enc xs ++ b)) state
      ≡ visit f (refs ref enc pos xs) state
unfolding each visit refs
each_lem ref enc P read len f b step pos [] state fits e = refl
each_lem {S = S} ref enc P read len f b step pos (x ∷ xs) state fits e =
    rw (append_assoc (enc x) (encode_all enc xs) b) (
      rw
        (step pos x (encode_all enc xs ++ b) fits.0
          (omega (arith, e, ap length (append_assoc (enc x) (encode_all enc xs) b))))
        (ap (λ k. f (ref pos x) state >>= k)
          (λ i q.
            ap (λ z. elim q.1 as (λ _. Result S) [ true ↦ z | false ↦ ok q.0 ])
              (each_lem ref enc P read len f b step (pos + length (enc x)) xs q.0 fits.1 (
                omega (
                  arith,
                  e,
                  ap length (append_assoc (enc x) (encode_all enc xs) b),
                  length-append (enc x) (encode_all enc xs ++ b),
                )))
              i)))

-- What the closures come to.
noting_lem : {A : Type 0} (p : A → Bool) (xs : List A) → visit (noting p) xs false ≡ ok (any p xs)
unfolding visit
noting_lem p [] = refl
noting_lem p (x ∷ xs) = elim (Bool-cases (p x)) [
  | inl hit ↦ rw hit refl
  | inr miss ↦ rw miss (noting_lem p xs)
]

counting_lem :
    {A : Type 0} (p : A → Bool) (xs : List A) (n : ℕ)
    → visit (λ x n. ok (if p x then n + 1 else n, true)) xs n ≡ ok (n + count_if p xs)
unfolding visit
counting_lem p [] n = ap ok (omega arith)
counting_lem p (x ∷ xs) n =
    counting_lem p xs (if p x then n + 1 else n)
    ∙ ap ok (elim (Bool-cases (p x)) [
      | inl hit ↦ rw hit (omega arith)
      | inr miss ↦ rw miss (omega arith)
    ])

is_some-find : {A : Type 0} (p : A → Bool) (xs : List A) → is_some (find p xs) ≡ any p xs
is_some-find p [] = refl
is_some-find p (x ∷ xs) = elim (Bool-cases (p x)) [
  | inl hit ↦ rw hit refl
  | inr miss ↦ rw miss (is_some-find p xs)
]

for_each_vm_lem :
    {S : Type 0} (d : Document) (f : VmRef → S → Result (S × Bool)) (state : S)
    → IsDocument d
    → for_each_vm (encode d) (layout d) f state ≡ visit f (vms (doc_view d)) state
unfolding for_each_vm
for_each_vm_lem d f state v =
    let head = before_methods d ++ u32_le (length d.verification_methods) in
    let items = encode_all encode_vm d.verification_methods ++ from_services d in
    let whole : encode d ≡ head ++ items =
      encode-before_methods d
      ∙ sym (append_assoc (before_methods d) (u32_le (length d.verification_methods)) items) in
    let pos : (layout d).vm_items ≡ length head = omega (
      arith,
      length-before_methods d v,
      length-append (before_methods d) (u32_le (length d.verification_methods)),
      length-u32_le (length d.verification_methods),
    ) in
    rw (vms-encode d v, whole)
      (rw (at_lem account (layout d).vm_items head items pos) (
        each_lem vm_ref encode_vm IsVm read_vm (length (head ++ items)) f (from_services d)
          (read_vm_at (length (head ++ items))) (layout d).vm_items d.verification_methods state
          v.method_ranges (omega (arith, pos, length-append head items))))

for_each_service_lem :
    {S : Type 0} (d : Document) (f : SvcRef → S → Result (S × Bool)) (state : S)
    → IsDocument d
    → for_each_service (encode d) (layout d) f state ≡ visit f (services (doc_view d)) state
unfolding for_each_service
for_each_service_lem d f state v =
    let head = before_services d ++ u32_le (length d.services) in
    let items = encode_all encode_service d.services in
    let whole : encode d ≡ head ++ (items ++ []) =
      encode-before_services d
      ∙ (sym (append_assoc (before_services d) (u32_le (length d.services)) items)
          ∙ ap (λ b. head ++ b) (sym (append-nil items))) in
    let pos : (layout d).svc_items ≡ length head = omega (
      arith,
      length-before_services d v,
      length-append (before_services d) (u32_le (length d.services)),
      length-u32_le (length d.services),
    ) in
    rw (services-encode d v, whole)
      (rw (at_lem account (layout d).svc_items head (items ++ []) pos) (
        each_lem svc_ref encode_service IsService read_service (length (head ++ (items ++ []))) f []
          (read_service_at (length (head ++ (items ++ [])))) (layout d).svc_items d.services state
          v.service_ranges (omega (arith, pos, length-append head (items ++ [])))))

involutive : (b : Bool) → b ≡ not (not b)
involutive true = refl
involutive false = refl

flag_read :
    (m : Result ℕ) (k : Result (Unit {0}))
    → (m >>= λ b. require (b == 0) did_deactivated >> k)
      ≡ ((m >>= λ b. ok (not (b == 0))) >>= λ dead. require (not dead) did_deactivated >> k)
flag_read (ok b) k = ap (λ t. require t did_deactivated >> k) (involutive (b == 0))
flag_read (err e) k = refl
flag_read panic k = refl

either : (p q : Bool) → (if p then ok true else ok q) ≡ ok (p || q)
either true q = refl
either false q = refl

-- On a well-formed document, the closure forms of `require_authority`, `authority_count` and
-- `require_fragment_free` give what the methods of `DidView` give.
pub forms_agree :
    (d : Document) (signer fragment : Bytes)
    → IsDocument d
    → (Deprecated.require_authority (encode d) (layout d) signer
        ≡ View.require_authority (doc_view d) signer)
      × (Deprecated.authority_count (encode d) (layout d) ≡ ok (View.authority_count (doc_view d)))
      × (Deprecated.require_fragment_free (encode d) (layout d) fragment
          ≡ View.require_fragment_free (doc_view d) fragment)
unfolding Deprecated.require_authority Deprecated.authority_count Deprecated.require_fragment_free
    View.require_authority View.authority_count View.require_fragment_free is_deactivated
    is_authority find_vm find_service
forms_agree d signer fragment v =
    let signs = λ (vm : VmRef). may_update vm && bytes_eq vm.key signer in
    let named = λ (vm : VmRef). bytes_eq vm.fragment fragment in
    let called = λ (svc : SvcRef). bytes_eq svc.fragment fragment in
    let ms = vms (doc_view d) in
    let ss = services (doc_view d) in
    let signing = for_each_vm_lem d (noting signs) false v ∙ noting_lem signs ms in
    let in_methods = for_each_vm_lem d (noting named) false v ∙ noting_lem named ms in
    let in_services = for_each_service_lem d (noting called) false v ∙ noting_lem called ss in
    let decide : Result Bool → Result (Unit {0}) = λ m. m >>= λ taken.
    require (not taken) fragment_already_in_use
    >> require (not (bytes_eq fragment default_fragment)) invalid_fragment in
    (
      ap
            (λ m. get_byte (encode d) off_deactivated >>= λ b.
              require (b == 0) did_deactivated >> (m >>= λ found. require found unauthorized))
            signing
          ∙ flag_read (get_byte (encode d) off_deactivated) (require (any signs ms) unauthorized),
      for_each_vm_lem d (λ vm n. ok (if may_update vm then n + 1 else n, true)) 0 v
          ∙ (counting_lem may_update ms 0 ∙ ap ok (omega arith)),
      ap
            (λ m. m >>= λ taken. decide (
              if taken
              then ok true
              else for_each_service (encode d) (layout d) (noting called) false))
            in_methods
          ∙ (ap (λ m. decide (if any named ms then ok true else m)) in_services
              ∙ (ap decide (either (any named ms) (any called ss))
                  ∙ rw (is_some-find named ms, is_some-find called ss) refl)),
    )
