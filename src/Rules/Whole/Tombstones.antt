-- ===== src/Rules/Whole/Tombstones.antt =====
-- Whole runs of `deactivate`, over the store (program/src/instructions/deactivate.rs).
use bio_did_registry.Base.{◌≡◌, sym, ap, ◌∙◌, List, ◌∷◌, All}
use bio_did_registry.Error.{ok}
use bio_did_registry.Bytes.{Bytes, IsByte}
use bio_did_registry.State.Consts.{tombstone_space}
use bio_did_registry.Document.{Document, encode}
use bio_did_registry.Document.Lifecycle.{tombstone, tombstone-IsDocument, entomb-encode}
use bio_did_registry.Runtime.{Runtime, Store}
use bio_did_registry.Events.{did_deactivated}
use bio_did_registry.Instructions.Shared.{first}
use bio_did_registry.Instructions.Args.{parse_args, no_args}
use bio_did_registry.Instructions.Deactivate.{entomb, process}
use bio_did_registry.Rules.Authorization.{lift_then}
use bio_did_registry.Rules.Controllers.{MayUpdate}
use bio_did_registry.Rules.Storage.{RuntimeLaws}
use bio_did_registry.Rules.Runs.{update_on, authorize_on}
use bio_did_registry.Rules.Finish.{Holds, shrink-Holds}
use bio_did_registry.Rules.Health.{IsHealthy}

module _ (rt : Runtime) (laws : RuntimeLaws rt) (payer authority a sys : Bytes) (rest : List Bytes)
    (args : Bytes) (s : Store) (d : Document) (r : Unit {0} × Store)
    (are_bytes : (c : Bytes) → All IsByte (s.accounts c).content) (healthy : IsHealthy d)
    (holds : (s.accounts a).content ≡ encode d) where
  pub deactivate-Holds :
      process rt (payer ∷ authority ∷ a ∷ sys ∷ rest) args s ≡ ok r
      → MayUpdate rt s d authority (first rest) × Holds r.1 a (tombstone d)
  unfolding process
  deactivate-Holds h =
      let (subject, h₁) = update_on rt payer authority a sys rest s r _ h in
      let (u, parsed, h₂) = lift_then (parse_args no_args args) _ s r h₁ in
      let (living, may, h₃) =
        authorize_on rt s r authority a (first rest) _ d are_bytes healthy.fits holds h₂ in
      let (g, run, size) = entomb-encode d healthy.fits in
      (
        may,
        shrink-Holds rt laws a payer did_deactivated subject entomb tombstone_space (tombstone d)
            (tombstone-IsDocument d healthy.fits) s r g (ap entomb holds ∙ run) (sym size) h₃,
      )
