-- ===== src/Rules/History.antt =====
-- The life of a document over a sequence of instructions (program/src/lib.rs).
pub mod Events
pub mod Burial
pub mod Finality
use bio_did_registry.Base.{
  ℕ, bytes_eq, false, ◌^◌, ◌<◌, ◌≤◌, ◌≡◌, refl, sym, ap, subst, ◌∙◌, ◌⊎◌, inl, inr, Option, none,
  some, List, ◌∷◌, ◌++◌, not, ◌==◌, arith, All,
}
use bio_did_registry.Error.{ok, ok_injective}
use bio_did_registry.Bytes.{Bytes, IsByte}
use bio_did_registry.State.View.{view, is_deactivated}
use bio_did_registry.State.Edits.{saturating_suc}
use bio_did_registry.Document.{Document, IsDocument, encode}
use bio_did_registry.Document.Entries.{doc_view}
use bio_did_registry.Document.Lookups.{is_deactivated-encode}
use bio_did_registry.Document.Updates.{touched, touched-IsDocument}
use bio_did_registry.Document.Lifecycle.{tombstone, tombstone-IsDocument}
use bio_did_registry.Runtime.{Runtime, Store}
use bio_did_registry.Program.{Instruction, discriminator, handle, process_instruction}
use bio_did_registry.Program
use bio_did_registry.Program.Entry.{entered}
use bio_did_registry.Rules.Permits.{handled}
use bio_did_registry.Rules.Runs.{Authorized, view-encode}
use bio_did_registry.Rules.Updates.{IsAuthorized}
use bio_did_registry.Rules.Handlers.{MayFlag, MayAdd}
use bio_did_registry.Rules.Storage.{RuntimeLaws}
use bio_did_registry.Rules.Finish.{Holds}
use bio_did_registry.Rules.Health.{IsHealthy, Continues}
use bio_did_registry.Rules.Whole.Entry
use bio_did_registry.Rules.Controllers.{MayUpdate}
use bio_did_registry.Instructions.Shared.{first}
use bio_did_registry.Rules.Whole.Entry.{Edits, accounts_of, handle-Continues}
use bio_did_registry.Rules.Whole.FromBuffer.{from_buffer-Continues}
use bio_did_registry.Rules.Whole.Tombstones.{deactivate-Holds}
use bio_did_registry.Rules.History.Events.{
  Parties, listed, with_buffer, AreBytes, Runs, IsAlive, IsBuried, done, edited, deactivated, added,
  elsewhere,
}
use bio_did_registry.Rules.History.Burial.{IsBuried-Runs}

suc_more : (v w : ℕ) → v ≤ w → w < 2 ^ 64 → v ≤ saturating_suc w
suc_more v w h range = ground arith

module _ (rt : Runtime) (laws : RuntimeLaws rt) (a : Bytes) where
  deactivate_run :
      (p : Parties) (args : Bytes) (s : Store) (d : Document) (r : Unit {0} × Store)
      → AreBytes s
      → IsHealthy d
      → (s.accounts a).content ≡ encode d
      → handle rt Program.deactivate (listed Program.deactivate p a) args s ≡ ok r
      → MayUpdate rt s d p.authority (first p.rest) × Holds r.1 a (tombstone d)
  unfolding handle
  deactivate_run p args s d r stored healthy holds h =
      deactivate-Holds rt laws p.payer p.authority a p.sys p.rest args s d r stored healthy holds h

  added_run :
      (p : Parties) (buffer args : Bytes) (s : Store) (d : Document) (r : Unit {0} × Store)
      → bytes_eq a buffer ≡ false
      → AreBytes s
      → IsHealthy d
      → (s.accounts a).content ≡ encode d
      → handle rt Program.add_verification_method_from_buffer (with_buffer p a buffer) args s ≡ ok r
      → MayUpdate rt s d p.authority (first p.rest) × Continues r.1 a d
  unfolding handle
  added_run p buffer args s d r apart stored healthy holds h =
      from_buffer-Continues rt laws p.payer p.authority a buffer p.sys p.rest args s d r stored
        healthy holds apart h

  -- With a runtime that keeps its laws: where a document account holds a well-formed document
  -- with an authority, unique names and no more methods and services than allowed, of version `v`
  -- or later, and then any of the seven editing instructions, an addition from a key buffer in
  -- another account, and the deactivation succeed on it through the entry point, in any order, in
  -- stores and with arguments of bytes, and anything else happens that leaves its bytes as they
  -- are, it holds at the end such a document still, or a tombstone.
  pub IsAlive-Runs :
      (s t : Store) (v : ℕ) → Runs rt a s t → IsAlive s a v → IsAlive t a v ⊎ IsBuried t a
  IsAlive-Runs s _ v done alive = inl alive
  IsAlive-Runs s t v (edited i p args r edits stored given h runs) (d, holds, healthy, later) =
      let (may, (after, held, healthy', next)) =
        handle-Continues rt i p.payer p.authority a p.sys p.rest args s d r laws edits stored given
          healthy holds (ap (λ f. f s) (sym (entered rt i (listed i p a) args)) ∙ h) in
      IsAlive-Runs r.1 t v runs (
        after,
        held,
        healthy',
        subst (λ n. v ≤ n) (sym next) (suc_more v d.version later healthy.fits.version_range),
      )
  IsAlive-Runs s t v (added p buffer args r apart stored h runs) (d, holds, healthy, later) =
      let (may, (after, held, healthy', next)) =
        added_run p buffer args s d r apart stored healthy holds (
          ap (λ f. f s)
            (sym (
              entered rt Program.add_verification_method_from_buffer (with_buffer p a buffer) args))
          ∙ h) in
      IsAlive-Runs r.1 t v runs (
        after,
        held,
        healthy',
        subst (λ n. v ≤ n) (sym next) (suc_more v d.version later healthy.fits.version_range),
      )
  IsAlive-Runs s t v (deactivated p args r stored h runs) (d, holds, healthy, later) =
      let (may, buried) = deactivate_run p args s d r stored healthy holds (
        ap (λ f. f s) (sym (entered rt Program.deactivate (listed Program.deactivate p a) args))
        ∙ h) in
      let (now, range, held) = buried in
      inr (
        d,
        healthy.fits,
        (now, range, IsBuried-Runs rt a r.1 t runs (d, healthy.fits, buried) ∙ held),
      )
  IsAlive-Runs s t v (elsewhere {u = u} same runs) (d, holds, healthy, later) =
      IsAlive-Runs u t v runs (d, same ∙ holds, healthy, later)
