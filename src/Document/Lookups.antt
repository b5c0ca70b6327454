-- ===== src/Document/Lookups.antt =====
-- The lookups of a view, as questions about the document (program/src/state.rs, `DidView`).
use bio_did_registry.Base.{
  ℕ, ◌+◌, ◌*◌, ◌/◌, ◌≡◌, refl, sym, ap, ◌∙◌, List, [], ◌∷◌, ◌++◌, arith, length, length-append, All,
  append_assoc, take-append, drop-append, none, some, Bool, true, false, not, ◌&&◌, ◌||◌, ◌==◌, inl,
  inr, Bool-cases, bytes_eq, if◌then◌else◌, get_elem?,
}
use bio_did_registry.Error.{
  ok, err, from_did_error, require, fragment_already_in_use, invalid_fragment,
}
use bio_did_registry.Bytes.{Bytes, u32_le, u64_le}
use bio_did_registry.Bytes.Slices.{slice_lem}
use bio_did_registry.State.Consts.{vm_type_ed25519, vm_flag_capability_invocation, default_fragment}
use bio_did_registry.State.View.{
  VmRef, SvcRef, any, find, count_if, has_flag, is_authority, authority_count, find_vm,
  find_service, is_native_controller, is_deactivated, is_some, require_fragment_free, get_byte,
  as_chunks,
}
use bio_did_registry.Document.{
  VerificationMethod, Document, encode_vm, encode_service, encode_all, raw, encode, encode_header,
  encode_sections, from_others, IsDocument, IsKey, layout,
}
use bio_did_registry.Document.Parts.{
  encode-at_deactivated, before_deactivated, length-before_deactivated, length-u32_le,
}
use bio_did_registry.Document.Decode.{length-header, length-keys}
use bio_did_registry.Document.Entries.{vm_ref, svc_ref, refs, doc_view, vms-encode, services-encode}

-- An Ed25519 method with capabilityInvocation: the kind that may sign updates.
abbrev pub is_signing : VerificationMethod → Bool
is_signing v = v.method_type == vm_type_ed25519 && has_flag v.flags vm_flag_capability_invocation

-- `signer` is the key of such a method of the document.
abbrev pub holds_authority : Document → Bytes → Bool
holds_authority d signer = any (λ v. is_signing v && bytes_eq v.key signer) d.verification_methods

abbrev pub signing_count : Document → ℕ
signing_count d = count_if is_signing d.verification_methods

abbrev pub names_method : Document → Bytes → Bool
names_method d fragment = any (λ v. bytes_eq v.fragment fragment) d.verification_methods

abbrev pub names_service : Document → Bytes → Bool
names_service d fragment = any (λ v. bytes_eq v.fragment fragment) d.services

-- A test that does not look at the position gives the same over the entries and over the list.
any-refs :
    {A R : Type 0} (ref : ℕ → A → R) (enc : A → Bytes) (p : R → Bool) (q : A → Bool)
    → ((pos : ℕ) (x : A) → p (ref pos x) ≡ q x)
    → (pos : ℕ) (xs : List A) → any p (refs ref enc pos xs) ≡ any q xs
unfolding refs
any-refs ref enc p q same pos [] = refl
any-refs ref enc p q same pos (x ∷ xs) =
    rw (same pos x, any-refs ref enc p q same (pos + length (enc x)) xs)

count-refs :
    {A R : Type 0} (ref : ℕ → A → R) (enc : A → Bytes) (p : R → Bool) (q : A → Bool)
    → ((pos : ℕ) (x : A) → p (ref pos x) ≡ q x)
    → (pos : ℕ) (xs : List A) → count_if p (refs ref enc pos xs) ≡ count_if q xs
unfolding refs
count-refs ref enc p q same pos [] = refl
count-refs ref enc p q same pos (x ∷ xs) =
    rw (same pos x, count-refs ref enc p q same (pos + length (enc x)) xs)

is_some-find : {A : Type 0} (p : A → Bool) (xs : List A) → is_some (find p xs) ≡ any p xs
is_some-find p [] = refl
is_some-find p (x ∷ xs) = ground (arith, is_some-find p xs)

-- In a well-formed document, a signer is an authority of the view exactly when it is the key of
-- an Ed25519 method with the capability-invocation flag.
pub is_authority-encode :
    (d : Document) (signer : Bytes)
    → IsDocument d
    → is_authority (doc_view d) signer ≡ holds_authority d signer
unfolding is_authority
is_authority-encode d signer v =
    rw (vms-encode d v) (any-refs vm_ref encode_vm _ _ (λ pos x. refl) _ d.verification_methods)

-- In a well-formed document, the count of authorities is that of the Ed25519 methods with the
-- capability-invocation flag.
pub authority_count-encode :
    (d : Document) → IsDocument d → authority_count (doc_view d) ≡ signing_count d
unfolding authority_count
authority_count-encode d v =
    rw (vms-encode d v) (count-refs vm_ref encode_vm _ _ (λ pos x. refl) _ d.verification_methods)

-- What a search over the entries finds: the first entry of that name, at its place.
abbrev pub Found : {A R : Type 0} → (ℕ → A → R) → (A → Bytes) → (A → Bool) → ℕ → List A → R → Type 0
Found {A} ref enc q pos xs r =
    (front : List A) × (x : A) × (back : List A) × (xs ≡ front ++ (x ∷ back))
    × (r ≡ ref (pos + length (encode_all enc front)) x)
    × (q x ≡ true)
    × (any q front ≡ false)

find-refs :
    {A R : Type 0} (ref : ℕ → A → R) (enc : A → Bytes) (p : R → Bool) (q : A → Bool)
    → ((pos : ℕ) (x : A) → p (ref pos x) ≡ q x)
    → (pos : ℕ) (xs : List A) (r : R) → find p (refs ref enc pos xs) ≡ some r
    → Found ref enc q pos xs r
unfolding refs
find-refs ref enc p q same pos [] r h = cc
find-refs ref enc p q same pos (x ∷ xs) r h = elim (Bool-cases (q x)) [
  | inl hit ↦ ([], x, xs, refl, same_entry hit, hit, refl)
  | inr miss ↦
      let (front, y, back, e, r_eq, hit, first) =
        find-refs ref enc p q same (pos + length (enc x)) xs r (rest_of miss) in
      (
        x ∷ front,
        y,
        back,
        ap (λ t. x ∷ t) e,
        r_eq ∙ ap (λ n. ref n y) (omega (arith, length-append (enc x) (encode_all enc front))),
        hit,
        rw miss first,
      )
]
  where
    same_entry : q x ≡ true → r ≡ ref (pos + 0) x
    same_entry hit = ground (arith, same pos x)

    rest_of : q x ≡ false → find p (refs ref enc (pos + length (enc x)) xs) ≡ some r
    rest_of miss = ground (arith, same pos x)

find-none : {A : Type 0} (p : A → Bool) (xs : List A) → any p xs ≡ false → find p xs ≡ none
find-none p [] h = refl
find-none p (x ∷ xs) h = ground (arith, find-none p xs)

-- A method that is found is the document's first of that name, at its place.
pub find_vm-encode :
    (d : Document) (fragment : Bytes) (r : VmRef)
    → IsDocument d
    → find_vm (doc_view d) fragment ≡ some r
    → Found vm_ref encode_vm
        (λ v. bytes_eq v.fragment fragment)
        (layout d).vm_items
        d.verification_methods
        r
unfolding find_vm
find_vm-encode d fragment r v h =
    find-refs vm_ref encode_vm (λ vm. bytes_eq vm.fragment fragment)
      (λ v. bytes_eq v.fragment fragment) (λ pos x. refl) _ d.verification_methods r
      (rw (vms-encode d v) at h)

pub find_service-encode :
    (d : Document) (fragment : Bytes) (r : SvcRef)
    → IsDocument d
    → find_service (doc_view d) fragment ≡ some r
    → Found svc_ref encode_service
        (λ v. bytes_eq v.fragment fragment)
        (layout d).svc_items
        d.services
        r
unfolding find_service
find_service-encode d fragment r v h =
    find-refs svc_ref encode_service (λ svc. bytes_eq svc.fragment fragment)
      (λ v. bytes_eq v.fragment fragment) (λ pos x. refl) _ d.services r
      (rw (services-encode d v) at h)

-- Whether a name is taken by a method, and by a service.
pub is_some-find_vm :
    (d : Document) (fragment : Bytes)
    → IsDocument d
    → is_some (find_vm (doc_view d) fragment) ≡ names_method d fragment
unfolding find_vm
is_some-find_vm d fragment v = rw (vms-encode d v) (
    is_some-find (λ vm. bytes_eq vm.fragment fragment) _
    ∙ any-refs vm_ref encode_vm (λ vm. bytes_eq vm.fragment fragment) _ (λ pos x. refl) _
        d.verification_methods)

pub is_some-find_service :
    (d : Document) (fragment : Bytes)
    → IsDocument d
    → is_some (find_service (doc_view d) fragment) ≡ names_service d fragment
unfolding find_service
is_some-find_service d fragment v = rw (services-encode d v) (
    is_some-find (λ svc. bytes_eq svc.fragment fragment) _
    ∙ any-refs svc_ref encode_service (λ svc. bytes_eq svc.fragment fragment) _ (λ pos x. refl) _
        d.services)

get_elem?-append : (a b : Bytes) (x : ℕ) → get_elem? (a ++ (x ∷ b)) (length a) ≡ some x
get_elem?-append [] b x = refl
get_elem?-append (y ∷ a) b x = get_elem?-append a b x

-- In a well-formed document, the flag that the view reads is the document's.
pub is_deactivated-encode :
    (d : Document) → IsDocument d → is_deactivated (doc_view d) ≡ ok (not (d.deactivated == 0))
unfolding is_deactivated
is_deactivated-encode d v =
    rw (encode-at_deactivated d, ← length-before_deactivated d v.discriminator_len v.subject_key.0)
      (rw (
        get_elem?-append (before_deactivated d) (u64_le d.updated_at ++ encode_sections d)
            d.deactivated,
        get_byte,
      ))

as_chunks-keys : (ks : List Bytes) → All IsKey ks → as_chunks (length ks) (encode_all raw ks) ≡ ks
unfolding as_chunks
as_chunks-keys [] h = refl
as_chunks-keys (k ∷ ks) h = rw (
  ← h.0.0,
  take-append k (encode_all raw ks),
  drop-append k (encode_all raw ks),
  as_chunks-keys ks h.1,
)

-- In a well-formed document, a key is a native controller of the view exactly when the document
-- lists it.
pub is_native_controller-encode :
    (d : Document) (key : Bytes)
    → IsDocument d
    → is_native_controller (doc_view d) key ≡ ok (any (λ c. bytes_eq c key) d.native_controllers)
unfolding is_native_controller encode
is_native_controller-encode d key v =
    let keys = encode_all raw d.native_controllers in
    let front = encode_header d ++ u32_le (length d.native_controllers) in
    let front_len : length front ≡ (layout d).nc_items = omega (
      arith,
      length-append (encode_header d) (u32_le (length d.native_controllers)),
      length-header d v,
      length-u32_le (length d.native_controllers),
    ) in
    let keys_len : length keys ≡ length d.native_controllers * 32 =
      length-keys d.native_controllers v.native_keys in
    let chunks : length keys / 32 ≡ length d.native_controllers = omega arith in
    rw
      (sym (
        append_assoc (encode_header d) (u32_le (length d.native_controllers))
          (keys ++ from_others d)))
      (rw
        (slice_lem (layout d).nc_items ((layout d).nc_items + 32 * length d.native_controllers)
          front keys (from_others d) (sym front_len) (omega arith))
        (rw (chunks, as_chunks-keys d.native_controllers v.native_keys)))

-- In a well-formed document, a name that a method or a service has is refused as in use, the name
-- of the founding method as invalid, and any other is free.
pub require_fragment_free-encode :
    (d : Document) (fragment : Bytes)
    → IsDocument d
    → require_fragment_free (doc_view d) fragment ≡ (
        if names_method d fragment || names_service d fragment
        then err (from_did_error fragment_already_in_use)
        else if bytes_eq fragment default_fragment
        then err (from_did_error invalid_fragment)
        else ok tt)
unfolding require_fragment_free require
require_fragment_free-encode d fragment v =
    rw (is_some-find_vm d fragment v, is_some-find_service d fragment v) (ground arith)
