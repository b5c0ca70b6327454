-- ===== src/Rules/Uniqueness.antt =====
-- Additions of methods and services, on whole documents
-- (program/src/state.rs: `check_new_method`, `insert_vm`; program/src/instructions/add_service.rs).
use bio_did_registry.Base.{
  ◌≡◌, ◌≤◌, refl, List, [], ◌∷◌, ◌++◌, map, arith, length, length-append, All-append, append_assoc,
  append-nil, ltb, ltb→lt, subst,
}
use bio_did_registry.Error.{
  Result, ok, require, ◌>>◌, invalid_fragment, too_many_services, invalid_service_value,
}
use bio_did_registry.Bytes.{Bytes}
use bio_did_registry.State.Consts.{
  max_verification_methods, max_services, vm_space, max_service_type_len, max_endpoint_len,
  service_space,
}
use bio_did_registry.State.View.{require_fragment_free}
use bio_did_registry.State.Checks.{NewMethod, check_new_method, valid_fragment, valid_uri_ascii}
use bio_did_registry.State.Edits.{insert_vm}
use bio_did_registry.Document.{
  Document, VerificationMethod, Service, IsDocument, IsVm, IsService, encode, layout,
}
use bio_did_registry.Document.Entries.{doc_view}
use bio_did_registry.Document.Updates.{add_method, method_of, insert_vm-encode}
use bio_did_registry.Document.Removal.{
  with_services, with_methods-IsDocument, with_services-IsDocument,
}
use bio_did_registry.Document.Services.{append_service-encode}
use bio_did_registry.Instructions.AddService.{check_new_service, append_service}
use bio_did_registry.Rules.{require_ok, then_inv}
use bio_did_registry.Rules.Additions.{
  names, IsUnique, insert-IsUnique, free_name, check_new_method-Admits,
}

map-append : {A : Type 0} (f : A → Bytes) (xs ys : List A) → map f (xs ++ ys) ≡ map f xs ++ map f ys
map-append f [] ys = refl
map-append f (x ∷ xs) ys = rw (map-append f xs ys) refl

-- The new method's name comes behind the methods' and before the services'.
names-add_method :
    (d : Document) (m : VerificationMethod)
    → map (λ v. v.fragment) d.verification_methods
        ++ (m.fragment ∷ map (λ s. s.fragment) d.services)
      ≡ names (add_method d m)
names-add_method d m =
    rw (map-append (λ v. v.fragment) d.verification_methods (m ∷ [])) (simp append_assoc)

names-add_service :
    (d : Document) (s : Service)
    → names d ++ (s.fragment ∷ []) ≡ names (with_services d (d.services ++ (s ∷ [])))
names-add_service d s = rw (map-append (λ s. s.fragment) d.services (s ∷ [])) (simp append_assoc)

-- On a well-formed document whose names are unique, where the new method with its key fits the
-- layout, the rules allow it, and the account has grown by the entry's size, the edit leaves the
-- encoding of the document with that method behind the others: it is well formed, its names are
-- unique, and it has no more than 16 methods.
pub add_method-keeps_IsUnique :
    (d : Document) (m : NewMethod) (key grown : Bytes)
    → IsDocument d
    → IsUnique (names d)
    → IsVm (method_of m key)
    → length grown ≡ vm_space (length m.fragment) (length key)
    → check_new_method (doc_view d) m ≡ ok tt
    → let after = add_method d (method_of m key) in
      (insert_vm (encode d ++ grown) (layout d) m key ≡ ok (encode after))
      × IsDocument after
      × IsUnique (names after)
      × (length after.verification_methods ≤ max_verification_methods)
add_method-keeps_IsUnique d m key grown v unique fits e h =
    let (room, name, fresh, other, key_fits, flags) = check_new_method-Admits d m v h in
    let one_more = length-append d.verification_methods (method_of m key ∷ []) in
    (
      insert_vm-encode d m key grown v e,
      with_methods-IsDocument d (d.verification_methods ++ (method_of m key ∷ [])) v
          (omega (arith, room, one_more))
          (All-append IsVm d.verification_methods (method_of m key ∷ []) v.method_ranges
            (fits, tt)),
      subst IsUnique (names-add_method d (method_of m key)) (
          insert-IsUnique (map (λ v. v.fragment) d.verification_methods) m.fragment
            (map (λ s. s.fragment) d.services) unique fresh),
      omega (arith, room, one_more),
    )

-- On a well-formed document whose names are unique, where the new service fits the layout, the
-- rules allow it, and the account has grown by the entry's size, the edit leaves the encoding of
-- the document with that service behind the others: it is well formed, its names are unique, and
-- it has no more than 16 services.
pub add_service-keeps_IsUnique :
    (d : Document) (s : Service) (grown : Bytes)
    → IsDocument d
    → IsUnique (names d)
    → IsService s
    → length grown ≡ service_space (length s.fragment) (length s.service_type) (length s.endpoint)
    → check_new_service (doc_view d) s ≡ ok tt
    → let after = with_services d (d.services ++ (s ∷ [])) in
      (append_service (layout d) s (encode d ++ grown) ≡ ok (encode after))
      × IsDocument after
      × IsUnique (names after)
      × (length after.services ≤ max_services)
unfolding check_new_service
add_service-keeps_IsUnique d s grown v unique fits e h =
    let doc = doc_view d in
    let values : Result (Unit {0}) =
      require (valid_uri_ascii s.service_type max_service_type_len) invalid_service_value
      >> require (valid_uri_ascii s.endpoint max_endpoint_len) invalid_service_value in
    let named : Result (Unit {0}) = require (valid_fragment s.fragment) invalid_fragment in
    let free : Result (Unit {0}) = require_fragment_free doc s.fragment in
    let (room, rest) =
      then_inv (require (ltb (length d.services) max_services) too_many_services)
        (named >> (free >> values)) tt h in
    let (name, rest) = then_inv named (free >> values) tt rest in
    let (is_free, value) = then_inv free values tt rest in
    let (fresh, other) = free_name d s.fragment v is_free in
    let few = ltb→lt (length d.services) max_services (require_ok _ too_many_services room) in
    let one_more = length-append d.services (s ∷ []) in
    (
      append_service-encode d s grown v e,
      with_services-IsDocument d (d.services ++ (s ∷ [])) v (omega (arith, few, one_more))
          (All-append IsService d.services (s ∷ []) v.service_ranges (fits, tt)),
      subst IsUnique (names-add_service d s) (
          insert-IsUnique (names d) s.fragment [] (rw (append-nil (names d)) unique)
            (rw (append-nil (names d)) fresh)),
      omega (arith, few, one_more),
    )
