-- ===== src/Rules/Whole/Methods.antt =====
-- Whole runs of the instructions on methods, over the store
-- (program/src/instructions/remove_verification_method.rs and add_verification_method.rs).
use bio_did_registry.Base.{
  ℕ, ◌+◌, ◌-◌, ◌<◌, ◌≤◌, ◌≡◌, refl, ap, subst, ◌∙◌, List, [], ◌∷◌, ◌++◌, length, length-append,
  arith, All, replicate, length-replicate,
}
use bio_did_registry.Error.{Result, ok, ok_or, >>=-eq-ok, invalid_instruction_data}
use bio_did_registry.Bytes.{Bytes, IsByte, u32_le, copy_within}
use bio_did_registry.Bytes.Frame.{copy-length, copy_within-length}
use bio_did_registry.Document.{Document, VerificationMethod, IsDocument, encode, layout}
use bio_did_registry.Document.Parts.{length-encode}
use bio_did_registry.Document.Entries.{doc_view}
use bio_did_registry.Document.Lookups.{signing_count, is_signing}
use bio_did_registry.Document.Removal.{with_methods}
use bio_did_registry.Runtime.{Runtime, Store}
use bio_did_registry.Events.{did_modified}
use bio_did_registry.Instructions.Shared.{first}
use bio_did_registry.Instructions.Args.{parse_args, fragment_args, method_args}
use bio_did_registry.Instructions.AddVerificationMethod.{method_head}
use bio_did_registry.Instructions.AddVerificationMethod
use bio_did_registry.State.Consts.{vm_space, expected_key_len, max_verification_methods}
use bio_did_registry.State.Checks.{check_new_method, check_new_key}
use bio_did_registry.State.Edits.{insert_vm}
use bio_did_registry.Document.Updates.{add_method}
use bio_did_registry.Instructions.RemoveVerificationMethod.{check_removal, remove_entry}
use bio_did_registry.Instructions.RemoveVerificationMethod
use bio_did_registry.Rules.Authorization.{lift_then}
use bio_did_registry.Rules.Controllers.{MayUpdate}
use bio_did_registry.Rules.Uniqueness.{add_method-keeps_IsUnique}
use bio_did_registry.Rules.Whole.Values.{method_args-IsVm}
use bio_did_registry.Rules.Removal.{removal-keeps_authority, count_if-append}
use bio_did_registry.Rules.Storage.{RuntimeLaws}
use bio_did_registry.Rules.Runs.{update_on, authorize_on}
use bio_did_registry.Rules.Finish.{shrink-Holds, grow-Holds}
use bio_did_registry.Rules.Additions.{names, IsUnique}
use bio_did_registry.Rules.Health.{IsHealthy, Continues, stamped-Continues, remove-IsUnique}

pub remove_entry-length :
    (start end old_len pos count : ℕ) (b c : Bytes)
    → remove_entry start end old_len pos count b ≡ ok c
    → length c ≡ length b
unfolding remove_entry
remove_entry-length start end old_len pos count b c h =
    let (moved, e, g) = >>=-eq-ok (copy_within end old_len start b) _ h in
    copy-length pos (u32_le (count - 1)) moved c g ∙ copy_within-length end old_len start b moved e

removed-IsHealthy :
    (d : Document) (front : List VerificationMethod) (x : VerificationMethod)
    (back : List VerificationMethod)
    → IsHealthy d
    → d.verification_methods ≡ front ++ (x ∷ back)
    → IsDocument (with_methods d (front ++ back))
    → 0 < signing_count (with_methods d (front ++ back))
    → IsHealthy (with_methods d (front ++ back))
removed-IsHealthy d front x back healthy e fits governed = record {
  fits = fits;
  governed = governed;
  unique =
      remove-IsUnique d front x back
        (subst (λ vs. IsUnique (names (with_methods d vs))) e healthy.unique);
  few_methods = omega (
    arith,
    healthy.few_methods,
    ap length e,
    length-append front (x ∷ back),
    length-append front back,
  );
  few_services = healthy.few_services;
}

pub added-IsHealthy :
    (d : Document) (m : VerificationMethod)
    → IsHealthy d
    → IsDocument (add_method d m)
    → IsUnique (names (add_method d m))
    → length (add_method d m).verification_methods ≤ max_verification_methods
    → IsHealthy (add_method d m)
added-IsHealthy d m healthy fits unique few = record {
  fits = fits;
  governed =
      omega (arith, healthy.governed, count_if-append is_signing d.verification_methods (m ∷ []));
  unique = unique;
  few_methods = few;
  few_services = healthy.few_services;
}

module _ (rt : Runtime) (laws : RuntimeLaws rt) (payer authority a sys : Bytes) (rest : List Bytes)
    (args : Bytes) (s : Store) (d : Document) (r : Unit {0} × Store)
    (are_bytes : (c : Bytes) → All IsByte (s.accounts c).content) (healthy : IsHealthy d)
    (holds : (s.accounts a).content ≡ encode d) where
  pub remove_method-Continues :
      RemoveVerificationMethod.process rt (payer ∷ authority ∷ a ∷ sys ∷ rest) args s ≡ ok r
      → MayUpdate rt s d authority (first rest) × Continues r.1 a d
  unfolding RemoveVerificationMethod.process
  remove_method-Continues h =
      let (subject, h₁) = update_on rt payer authority a sys rest s r _ h in
      let (name, parsed, h₂) = lift_then (parse_args fragment_args args) _ s r h₁ in
      let (living, may, h₃) =
        authorize_on rt s r authority a (first rest) _ d are_bytes healthy.fits holds h₂ in
      let (vm, checked, h₄) = lift_then (check_removal (doc_view d) name authority) _ s r h₃ in
      let (front, x, back, g, e, named, end, run, fits, governed) =
        removal-keeps_authority d name authority vm healthy.fits healthy.governed checked in
      let after = with_methods d (front ++ back) in
      let y = layout d in
      let removal : Bytes → Result Bytes =
        remove_entry vm.start vm.end y.end y.vm_count_pos y.vm_count in
      let size : y.end - (vm.end - vm.start) ≡ length (encode after) = omega (
        arith,
        end,
        remove_entry-length vm.start vm.end y.end y.vm_count_pos y.vm_count (encode d)
            (encode after ++ g) run,
        length-append (encode after) g,
        length-encode d healthy.fits,
      ) in
      (
        may,
        stamped-Continues r.1 a d after (removed-IsHealthy d front x back healthy e fits governed)
            refl
            (shrink-Holds rt laws a payer did_modified subject removal (y.end - (vm.end - vm.start))
              after fits s r g (ap removal holds ∙ run) size h₄),
      )

  pub add_method-Continues :
      All IsByte args
      → AddVerificationMethod.process rt (payer ∷ authority ∷ a ∷ sys ∷ rest) args s ≡ ok r
      → MayUpdate rt s d authority (first rest) × Continues r.1 a d
  unfolding AddVerificationMethod.process
  add_method-Continues args_bytes h =
      let (subject, h₁) = update_on rt payer authority a sys rest s r _ h in
      let (m, parsed, h₂) = lift_then (parse_args method_args args) _ s r h₁ in
      let (n, known, h₃) =
        lift_then (ok_or (expected_key_len m.method_type) invalid_instruction_data) _ s r h₂ in
      let (living, may, h₄) =
        authorize_on rt s r authority a (first rest) _ d are_bytes healthy.fits holds h₃ in
      let (u, checked, h₅) = lift_then (check_new_method (doc_view d) (method_head m)) _ s r h₄ in
      let (w, key_fits, h₆) =
        lift_then (check_new_key rt.bytes_are_curve_point (method_head m) m.key authority) _ s r
          h₅ in
      let is_vm = method_args-IsVm args m args_bytes parsed in
      let entry = vm_space (length m.fragment) (length m.key) in
      let edited = λ (grown : Bytes) (e : length grown ≡ entry).
        add_method-keeps_IsUnique d (method_head m) m.key grown healthy.fits healthy.unique is_vm e
          checked in
      let (run, fits, unique, few) = edited (replicate entry 0) (length-replicate entry 0) in
      let stored = length-encode d healthy.fits in
      (
        may,
        stamped-Continues r.1 a d (add_method d m) (added-IsHealthy d m healthy fits unique few)
            refl
            (grow-Holds rt laws a payer did_modified subject
              (λ b. insert_vm b (layout d) (method_head m) m.key) ((layout d).end + entry)
              (add_method d m) fits s r (omega (arith, ap length holds, stored))
              (λ g size.
                ap (λ b. insert_vm (b ++ g) (layout d) (method_head m) m.key) holds
                ∙ (edited g (omega (arith, size, ap length holds, stored))).0)
              h₆),
      )
