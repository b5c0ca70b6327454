-- ===== src/Rules/Removal.antt =====
-- The rules of `remove_verification_method` (program/src/instructions/remove_verification_method.rs)
-- on a stored document.
use bio_did_registry.Base.{
  ◌≡◌, ◌<◌, ℕ, true, Bool, refl, List, [], ◌∷◌, ◌++◌, ◌+◌, sym, ap, subst, ◌∙◌, Bool-cases, inl,
  inr, if◌then◌else◌, arith, bytes_eq, bytes_eq_sound, ltb, ltb→lt, length, length-append,
  All-append, All-prefix, All-suffix,
}
use bio_did_registry.Error.{
  ok, from_did_error, verification_method_not_found, protected_verification_method, last_authority,
}
use bio_did_registry.Bytes.{Bytes}
use bio_did_registry.State.Consts.{vm_flag_protected}
use bio_did_registry.State.View.{
  VmRef, find_vm, has_flag, is_authority_method, authority_count, count_if,
}
use bio_did_registry.Document.{
  Document, VerificationMethod, IsDocument, IsVm, encode, encode_vm, layout,
}
use bio_did_registry.Document.Entries.{doc_view, vm_ref, length-encode_vm}
use bio_did_registry.Document.Lookups.{
  Found, find_vm-encode, authority_count-encode, signing_count, is_signing,
}
use bio_did_registry.Document.Removal.{
  with_methods, with_methods-IsDocument, remove_method-encode, method_start,
}
use bio_did_registry.Instructions.RemoveVerificationMethod.{check_removal, remove_entry}
use bio_did_registry.Rules.{guarded_inv}

-- On a well-formed document, a removal that the rules allow names a method of the document, the
-- first of that name; if it is protected then its key is the signer, and if it may sign updates
-- then the document has more than one that may.
pub check_removal_inv :
    (d : Document) (fragment signer : Bytes) (r : VmRef)
    → IsDocument d
    → check_removal (doc_view d) fragment signer ≡ ok r
    → Found vm_ref encode_vm
        (λ v. bytes_eq v.fragment fragment)
        (layout d).vm_items
        d.verification_methods
        r
      × (has_flag r.flags vm_flag_protected ≡ true → r.key ≡ signer)
      × (is_authority_method r ≡ true → 1 < signing_count d)
unfolding check_removal
check_removal_inv d fragment signer r v h =
    let doc = doc_view d in
    let (found, protected, last) =
      guarded_inv (find_vm doc fragment) (from_did_error verification_method_not_found)
        (λ vm. has_flag vm.flags vm_flag_protected) (λ vm. bytes_eq vm.key signer)
        is_authority_method (λ _. ltb 1 (authority_count doc)) protected_verification_method
        last_authority r h in
    (
      find_vm-encode d fragment r v found,
      λ flag. bytes_eq_sound r.key signer (protected flag),
      λ signs. rw (← authority_count-encode d v) (ltb→lt 1 (authority_count doc) (last signs)),
    )

pub count_if-append :
    {A : Type 0} (p : A → Bool) (xs ys : List A)
    → count_if p (xs ++ ys) ≡ count_if p xs + count_if p ys
count_if-append p [] ys = omega arith
count_if-append p (x ∷ xs) ys = omega (arith, count_if-append p xs ys)

-- A document without one of its methods is well formed.
pub removed-IsDocument :
    (d : Document) (front : List VerificationMethod) (x : VerificationMethod)
    (back : List VerificationMethod)
    → IsDocument (with_methods d (front ++ (x ∷ back)))
    → IsDocument (with_methods d (front ++ back))
removed-IsDocument d front x back v =
    with_methods-IsDocument (with_methods d (front ++ (x ∷ back))) (front ++ back) v
      (omega (arith, v.method_count, length-append front (x ∷ back), length-append front back))
      (All-append IsVm front back (All-prefix IsVm front (x ∷ back) v.method_ranges)
        (All-suffix IsVm front (x ∷ back) v.method_ranges).1)

-- What a removal that the rules allow does to the bytes: it leaves the encoding of the document
-- without the method, which is well formed and still has an authority, and as many bytes behind it
-- as the method had.
abbrev pub Removes : Document → VmRef → Type 0
Removes d r =
    (front : List VerificationMethod) × (x : VerificationMethod) × (back : List VerificationMethod)
    × (g : Bytes) × (d.verification_methods ≡ front ++ (x ∷ back))
    × (r.fragment ≡ x.fragment)
    × (r.end ≡ r.start + length g)
    × (remove_entry r.start r.end (layout d).end (layout d).vm_count_pos (layout d).vm_count
          (encode d)
        ≡ ok (encode (with_methods d (front ++ back)) ++ g))
    × IsDocument (with_methods d (front ++ back))
    × (0 < signing_count (with_methods d (front ++ back)))

Removes_lem :
    (d : Document) (front : List VerificationMethod) (x : VerificationMethod)
    (back : List VerificationMethod)
    → let before = with_methods d (front ++ (x ∷ back)) in
      IsDocument before
      → 0 < signing_count before
      → (is_signing x ≡ true → 1 < signing_count before)
      → Removes before (vm_ref (method_start d front) x)
Removes_lem d front x back v some_authority last =
    let before = with_methods d (front ++ (x ∷ back)) in
    let (g, size, run) = remove_method-encode d front x back v in
    let total = count_if-append is_signing front (x ∷ back) in
    let rest = count_if-append is_signing front back in
    (
      front,
      x,
      back,
      g,
      refl,
      refl,
      ap (λ n. method_start d front + n) (sym (length-encode_vm x) ∙ sym size),
      ap
            (λ n.
              remove_entry (method_start d front) (method_start d front + n) (layout before).end
                (layout before).vm_count_pos (layout before).vm_count (encode before))
            (sym (length-encode_vm x))
          ∙ run,
      removed-IsDocument d front x back v,
      elim (Bool-cases (is_signing x)) [
        | inl signs ↦
            omega (arith, total, rest, last signs, ap {B = ℕ} (λ b. if b then 1 else 0) signs)
        | inr not ↦ omega (arith, total, rest, ap {B = ℕ} (λ b. if b then 1 else 0) not)
      ],
    )

found-Removes :
    (d : Document) (front : List VerificationMethod) (x : VerificationMethod)
    (back : List VerificationMethod) (r : VmRef)
    → d.verification_methods ≡ front ++ (x ∷ back)
    → r ≡ vm_ref (method_start d front) x
    → IsDocument d
    → 0 < signing_count d
    → (is_authority_method r ≡ true → 1 < signing_count d)
    → Removes d r
found-Removes d front x back r e r_eq v some_authority last = rw r_eq (
    subst
      (λ b.
        IsDocument b
        → 0 < signing_count b
        → (is_signing x ≡ true → 1 < signing_count b)
        → Removes b (vm_ref (method_start d front) x))
      (ap (with_methods d) (sym e)) (Removes_lem d front x back) v some_authority
      (λ signs. last (rw r_eq signs)))

-- On a well-formed document with an authority, a removal that the rules allow is of a method of
-- the document: the edit leaves the encoding of the document without it, which is well formed and
-- has an authority, and behind it as many bytes as the method took.
pub removal-keeps_authority :
    (d : Document) (fragment signer : Bytes) (r : VmRef)
    → IsDocument d
    → 0 < signing_count d
    → check_removal (doc_view d) fragment signer ≡ ok r
    → Removes d r
removal-keeps_authority d fragment signer r v some_authority h =
    let ((front, x, back, e, r_eq, named, first), protected, last) =
      check_removal_inv d fragment signer r v h in
    found-Removes d front x back r e r_eq v some_authority last
