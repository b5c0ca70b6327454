-- ===== src/Rules/Flags.antt =====
-- The rules of `set_verification_method_flags`
-- (program/src/instructions/set_verification_method_flags.rs) on a stored document.
use bio_did_registry.Base.{
  ◌≡◌, ◌<◌, ◌^◌, ℕ, true, false, Bool, not, ◌&&◌, refl, List, [], ◌∷◌, ◌++◌, ◌+◌, sym, ap, subst,
  ◌∙◌, if◌then◌else◌, arith, bytes_eq, bytes_eq_sound, ltb, ltb→lt, ◌==◌, length, length-append,
  length-swap, All-append, All-prefix, All-suffix, bit_or, append_assoc,
}
use bio_did_registry.Error.{
  ok, from_did_error, verification_method_not_found, protected_verification_method, last_authority,
}
use bio_did_registry.Bytes.{Bytes, u16_le, u32_le, copy_from_slice}
use bio_did_registry.Bytes.Slices.{copy_lem}
use bio_did_registry.Reader.Laws.{length-to_le_bytes}
use bio_did_registry.State.Consts.{
  vm_type_ed25519, vm_flag_protected, vm_flag_capability_invocation,
}
use bio_did_registry.Rules.Roles.{SuitFlags}
use bio_did_registry.Rules.Roles.Validation.{validate_vm_flags_iff}
use bio_did_registry.State.View.{
  VmRef, find_vm, has_flag, is_authority_method, authority_count, count_if,
}
use bio_did_registry.State.Checks.{validate_vm_flags}
use bio_did_registry.Document.{
  Document, VerificationMethod, IsDocument, IsVm, encode, encode_vm, encode_all, layout,
  from_services,
}
use bio_did_registry.Document.Parts.{before_methods, length-before_methods, length-u32_le}
use bio_did_registry.Document.Entries.{doc_view, vm_ref}
use bio_did_registry.Document.Lookups.{
  find_vm-encode, authority_count-encode, signing_count, is_signing,
}
use bio_did_registry.Document.Removal.{
  with_methods, with_methods-IsDocument, method_start, encode-at_method, length-front,
}
use bio_did_registry.Instructions.SetVerificationMethodFlags.{check_flags}
use bio_did_registry.Rules.{guarded_between_inv}
use bio_did_registry.Rules.Removal.{count_if-append}

abbrev pub reflag : VerificationMethod → ℕ → VerificationMethod
reflag x f = record x { flags = f }

-- Overwriting the flags of a method gives the encoding of the document with the method re-flagged.
pub reflag-encode :
    (d : Document) (front : List VerificationMethod) (x : VerificationMethod)
    (back : List VerificationMethod) (f : ℕ)
    → IsDocument (with_methods d (front ++ (x ∷ back)))
    → copy_from_slice
        (vm_ref (method_start d front) x).flags_pos
        (u16_le f)
        (encode (with_methods d (front ++ (x ∷ back))))
      ≡ ok (encode (with_methods d (front ++ (reflag x f ∷ back))))
reflag-encode d front x back f v =
    let q =
      before_methods d ++ (u32_le (length (front ++ (x ∷ back))) ++ encode_all encode_vm front) in
    let a = u32_le (length x.fragment) ++ (x.fragment ++ (x.method_type ∷ [])) in
    let b = (u32_le (length x.key) ++ x.key) ++ (encode_all encode_vm back ++ from_services d) in
    let cut : (g : ℕ)
        → q ++ (encode_vm (reflag x g) ++ (encode_all encode_vm back ++ from_services d))
          ≡ (q ++ a) ++ (u16_le g ++ b) =
      λ g. simp append_assoc in
    let pos = length-before_methods (with_methods d (front ++ (x ∷ back))) v in
    rw (encode-at_method d front x back) (
      ap (copy_from_slice (vm_ref (method_start d front) x).flags_pos (u16_le f)) (cut x.flags)
      ∙ copy_lem _ (u16_le f) (q ++ a) (u16_le x.flags) b
          (omega (
            arith,
            pos,
            length-front encode_vm (before_methods d) (length (front ++ (x ∷ back)))
                (layout d).vm_count_pos front (sym pos),
            length-append q a,
            length-append (u32_le (length x.fragment)) (x.fragment ++ (x.method_type ∷ [])),
            length-u32_le (length x.fragment),
            length-append x.fragment (x.method_type ∷ []),
          ))
          (length-to_le_bytes 2 _ ∙ sym (length-to_le_bytes 2 _))
      ∙ ap ok (
          sym (cut f)
          ∙ rw (length-swap front x (reflag x f) back)
              (sym (encode-at_method d front (reflag x f) back))))

-- What a change of flags that the rules allow does to the bytes: it leaves the encoding of the
-- document with the method re-flagged, which is well formed and still has an authority.
abbrev pub Reflags : Document → VmRef → ℕ → Type 0
Reflags d r f =
    (front : List VerificationMethod) × (x : VerificationMethod) × (back : List VerificationMethod)
    × (d.verification_methods ≡ front ++ (x ∷ back))
    × (r.fragment ≡ x.fragment)
    × (copy_from_slice r.flags_pos (u16_le f) (encode d)
        ≡ ok (encode (with_methods d (front ++ (reflag x f ∷ back)))))
    × IsDocument (with_methods d (front ++ (reflag x f ∷ back)))
    × (0 < signing_count (with_methods d (front ++ (reflag x f ∷ back))))

reflagged-IsDocument :
    (d : Document) (front : List VerificationMethod) (x : VerificationMethod)
    (back : List VerificationMethod) (f : ℕ)
    → f < 2 ^ 16
    → IsDocument (with_methods d (front ++ (x ∷ back)))
    → IsDocument (with_methods d (front ++ (reflag x f ∷ back)))
reflagged-IsDocument d front x back f h v =
    let (short, byte, _, key) = (All-suffix IsVm front (x ∷ back) v.method_ranges).0 in
    with_methods-IsDocument (with_methods d (front ++ (x ∷ back))) (front ++ (reflag x f ∷ back)) v
      (omega (arith, v.method_count, length-swap front x (reflag x f) back))
      (All-append IsVm front (reflag x f ∷ back) (All-prefix IsVm front (x ∷ back) v.method_ranges)
        ((short, byte, h, key), (All-suffix IsVm front (x ∷ back) v.method_ranges).1))

one_less :
    (t g h : Bool) (m n : ℕ)
    → 0 < m + ((if t && g then 1 else 0) + n)
    → (((t && g) && not h) ≡ true → 1 < m + ((if t && g then 1 else 0) + n))
    → 0 < m + ((if t && h then 1 else 0) + n)
one_less true true true m n p q = p
one_less true true false m n p q = omega (arith, q refl)
one_less true false h m n p q = omega (arith, p)
one_less false g h m n p q = p

-- A method that stops signing leaves one signer less; any other change leaves as many at least.
reflag_count :
    (d : Document) (front : List VerificationMethod) (x : VerificationMethod)
    (back : List VerificationMethod) (f : ℕ)
    → let before = with_methods d (front ++ (x ∷ back)) in
      0 < signing_count before
      → ((is_signing x && not (has_flag f vm_flag_capability_invocation)) ≡ true
          → 1 < signing_count before)
      → 0 < signing_count (with_methods d (front ++ (reflag x f ∷ back)))
reflag_count d front x back f some_authority last =
    let total = count_if-append is_signing front (x ∷ back) in
    let rest = count_if-append is_signing front (reflag x f ∷ back) in
    rw rest (
      one_less (x.method_type == vm_type_ed25519) (has_flag x.flags vm_flag_capability_invocation)
        (has_flag f vm_flag_capability_invocation) (count_if is_signing front)
        (count_if is_signing back) (rw (← total) some_authority)
        (λ stops. rw (← total) (last stops)))

Reflags_lem :
    (d : Document) (front : List VerificationMethod) (x : VerificationMethod)
    (back : List VerificationMethod) (f : ℕ)
    → f < 2 ^ 16
    → let before = with_methods d (front ++ (x ∷ back)) in
      IsDocument before
      → 0 < signing_count before
      → ((is_signing x && not (has_flag f vm_flag_capability_invocation)) ≡ true
          → 1 < signing_count before)
      → Reflags before (vm_ref (method_start d front) x) f
Reflags_lem d front x back f h v some_authority last = (
  front,
  x,
  back,
  refl,
  refl,
  reflag-encode d front x back f v,
  reflagged-IsDocument d front x back f h v,
  reflag_count d front x back f some_authority last,
)

found-Reflags :
    (d : Document) (front : List VerificationMethod) (x : VerificationMethod)
    (back : List VerificationMethod) (f : ℕ) (r : VmRef)
    → d.verification_methods ≡ front ++ (x ∷ back)
    → r ≡ vm_ref (method_start d front) x
    → f < 2 ^ 16
    → IsDocument d
    → 0 < signing_count d
    → ((is_authority_method r && not (has_flag f vm_flag_capability_invocation)) ≡ true
        → 1 < signing_count d)
    → Reflags d r f
found-Reflags d front x back f r e r_eq h v some_authority last = rw r_eq (
    subst
      (λ b.
        IsDocument b
        → 0 < signing_count b
        → ((is_signing x && not (has_flag f vm_flag_capability_invocation)) ≡ true
            → 1 < signing_count b)
        → Reflags b (vm_ref (method_start d front) x) f)
      (ap (with_methods d) (sym e)) (Reflags_lem d front x back f h) v some_authority
      (λ stops. last (rw r_eq stops)))

-- On a well-formed document with an authority, and for flags of 16 bits, a change of flags that
-- the rules allow is of a method of the document: where that is protected or becomes so its key
-- is the signer, and the new flags are those of roles that suit its type. The edit leaves the
-- encoding of the document with the method re-flagged, which is well formed and has an authority.
pub reflag-keeps_authority :
    (d : Document) (fragment : Bytes) (f : ℕ) (signer : Bytes) (r : VmRef)
    → f < 2 ^ 16
    → IsDocument d
    → 0 < signing_count d
    → check_flags (doc_view d) fragment f signer ≡ ok r
    → (has_flag (bit_or r.flags f) vm_flag_protected ≡ true → r.key ≡ signer)
      × SuitFlags r.method_type f
      × Reflags d r f
unfolding check_flags
reflag-keeps_authority d fragment f signer r bound v some_authority h =
    let doc = doc_view d in
    let (found, protected, valid, last) =
      guarded_between_inv (find_vm doc fragment) (from_did_error verification_method_not_found)
        (λ vm. has_flag (bit_or vm.flags f) vm_flag_protected) (λ vm. bytes_eq vm.key signer)
        (λ vm. is_authority_method vm && not (has_flag f vm_flag_capability_invocation))
        (λ _. ltb 1 (authority_count doc)) (λ vm. validate_vm_flags vm.method_type f)
        protected_verification_method last_authority r h in
    let (front, x, back, e, r_eq, named, first) = find_vm-encode d fragment r v found in
    (
      λ flag. bytes_eq_sound r.key signer (protected flag),
      (validate_vm_flags_iff r.method_type f bound).0 valid,
      found-Reflags d front x back f r e r_eq bound v some_authority (λ stops.
          rw (← authority_count-encode d v) (ltb→lt 1 (authority_count doc) (last stops))),
    )
