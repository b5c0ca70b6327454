-- ===== src/Rules/Whole/Flags.antt =====
-- Whole runs of `set_verification_method_flags`, over the store
-- (program/src/instructions/set_verification_method_flags.rs).
use bio_did_registry.Base.{
  ℕ, ◌^◌, ◌<◌, ◌≡◌, refl, sym, ap, subst, ◌∙◌, List, [], ◌∷◌, ◌++◌, append-nil, length, length-swap,
  arith, All,
}
use bio_did_registry.Error.{ok}
use bio_did_registry.Bytes.{Bytes, IsByte, u16_le, copy_from_slice}
use bio_did_registry.State.View.{VmRef}
use bio_did_registry.Document.{Document, VerificationMethod, IsDocument, encode}
use bio_did_registry.Document.Lookups.{signing_count}
use bio_did_registry.Document.Removal.{with_methods}
use bio_did_registry.Document.Updates.{touched}
use bio_did_registry.Runtime.{Runtime, Store}
use bio_did_registry.Instructions.Shared.{first}
use bio_did_registry.Instructions.SetVerificationMethodFlags.{process}
use bio_did_registry.Rules.Controllers.{MayUpdate, authorize-MayUpdate}
use bio_did_registry.Rules.Flags.{Reflags, reflag, reflag-keeps_authority}
use bio_did_registry.Rules.FlagsHandler.{patch, ran}
use bio_did_registry.Rules.Whole.Values.{flags_bound}
use bio_did_registry.Rules.Storage.{RuntimeLaws}
use bio_did_registry.Rules.Additions.{names, IsUnique}
use bio_did_registry.Rules.Finish.{stamped-encode}
use bio_did_registry.Rules.Health.{IsHealthy, Continues, stamped-Continues, rename-IsUnique}

reflagged-IsHealthy :
    (d : Document) (front : List VerificationMethod) (x : VerificationMethod)
    (back : List VerificationMethod) (f : ℕ)
    → IsHealthy d
    → d.verification_methods ≡ front ++ (x ∷ back)
    → IsDocument (with_methods d (front ++ (reflag x f ∷ back)))
    → 0 < signing_count (with_methods d (front ++ (reflag x f ∷ back)))
    → IsHealthy (with_methods d (front ++ (reflag x f ∷ back)))
reflagged-IsHealthy d front x back f healthy e fits governed = record {
  fits = fits;
  governed = governed;
  unique =
      rename-IsUnique d front x (reflag x f) back refl
        (subst (λ vs. IsUnique (names (with_methods d vs))) e healthy.unique);
  few_methods =
      omega (arith, healthy.few_methods, ap length e, length-swap front (reflag x f) x back);
  few_services = healthy.few_services;
}

patched-Continues :
    (d : Document) (vm : VmRef) (f now : ℕ) (a : Bytes) (s t : Store) (p : Bytes × ℕ)
    → now < 2 ^ 64
    → IsHealthy d
    → Reflags d vm f
    → (s.accounts a).content ≡ encode d
    → patch vm f now (s.accounts a).content ≡ ok p
    → (t.accounts a).content ≡ p.0
    → Continues t a d
patched-Continues d vm f now a s t p range healthy (front, x, back, e, named, run, fits, governed)
      holds made left =
    let after = with_methods d (front ++ (reflag x f ∷ back)) in
    stamped-Continues t a d after (reflagged-IsHealthy d front x back f healthy e fits governed)
      refl
      (
        now,
        range,
        left
            ∙ (stamped-encode (copy_from_slice vm.flags_pos (u16_le f)) after fits now
                  (s.accounts a).content [] p range
                  (ap (copy_from_slice vm.flags_pos (u16_le f)) holds
                    ∙ (run ∙ ap ok (sym (append-nil (encode after)))))
                  made
                ∙ append-nil (encode (touched after now))),
      )

module _ (rt : Runtime) (laws : RuntimeLaws rt) (authority a : Bytes) (rest : List Bytes)
    (args : Bytes) (s : Store) (d : Document) (r : Unit {0} × Store)
    (are_bytes : (c : Bytes) → All IsByte (s.accounts c).content) (healthy : IsHealthy d)
    (holds : (s.accounts a).content ≡ encode d) where
  pub set_flags-Continues :
      All IsByte args
      → process rt (authority ∷ a ∷ rest) args s ≡ ok r
      → MayUpdate rt s d authority (first rest) × Continues r.1 a d
  unfolding process
  set_flags-Continues args_bytes h =
      let ((name, f), vm, now, p, t, signed, parsed, passed, checked, clock, made, left) =
        ran rt authority a (first rest) args s d r healthy.fits holds h in
      let (living, may) =
        authorize-MayUpdate rt d authority (first rest) s t healthy.fits are_bytes passed in
      let (protected, valid, reflags) =
        reflag-keeps_authority d name f authority vm (flags_bound args name f args_bytes parsed)
          healthy.fits healthy.governed checked in
      (
        may,
        patched-Continues d vm f now a s r.1 p (laws.clock_range now clock) healthy reflags holds
            made left,
      )
