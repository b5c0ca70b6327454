-- ===== src/Rules/History/Burial.antt =====
-- The tombstone of a document, over a sequence of instructions (program/src/lib.rs).
use bio_did_registry.Base.{◌≡◌, refl, ◌∙◌, some, ◌++◌, List, arith}
use bio_did_registry.Error.{ok}
use bio_did_registry.Bytes.{Bytes}
use bio_did_registry.Document.Updates.{touched, touched-IsDocument}
use bio_did_registry.Document.Lifecycle.{tombstone, tombstone-IsDocument}
use bio_did_registry.Runtime.{Runtime, Store}
use bio_did_registry.Program.{Instruction, discriminator, process_instruction}
use bio_did_registry.Program
use bio_did_registry.Rules.Whole.Entry
use bio_did_registry.Rules.Whole.Entry.{Edits}
use bio_did_registry.Rules.History.Finality.{
  document_account, process_instruction-refuses_deactivated,
}
use bio_did_registry.Rules.History.Events.{
  Parties, listed, AreBytes, Runs, IsBuried, done, edited, deactivated, added, elsewhere,
}

listed-document :
    (i : Instruction) (p : Parties) (a : Bytes)
    → Edits i
    → document_account i (listed i p a) ≡ some a
listed-document _ p a Entry.adds_method = refl
listed-document _ p a Entry.removes_method = refl
listed-document _ p a Entry.sets_flags = refl
listed-document _ p a Entry.adds_service = refl
listed-document _ p a Entry.updates_service = refl
listed-document _ p a Entry.removes_service = refl
listed-document _ p a Entry.sets_controllers = refl

module _ (rt : Runtime) (a : Bytes) where
  -- No instruction on the document passes over a tombstone.
  refused :
      (s : Store) (i : Instruction) (accounts : List Bytes) (args : Bytes) (r : Unit {0} × Store)
      → AreBytes s
      → IsBuried s a
      → document_account i accounts ≡ some a
      → ¬ (process_instruction rt rt.program_id accounts (discriminator i ++ args) s ≡ ok r)
  refused s i accounts args r stored (d, v, (now, range, holds)) at =
      process_instruction-refuses_deactivated rt rt.program_id i accounts args s r a
        (touched (tombstone d) now) stored at
        (touched-IsDocument (tombstone d) now range (tombstone-IsDocument d v)) holds
        (λ e. omega (arith, e))

  -- Where a document account holds a tombstone, its bytes stay the same over any sequence of
  -- editing instructions, additions from a key buffer and deactivations that succeed on it
  -- through the entry point, in stores and with arguments of bytes, and of anything else that
  -- leaves its bytes as they are.
  pub IsBuried-Runs :
      (s t : Store) → Runs rt a s t → IsBuried s a → (t.accounts a).content ≡ (s.accounts a).content
  IsBuried-Runs s _ done buried = refl
  IsBuried-Runs s t (edited i p args r edits stored given h runs) buried =
      absurd (refused s i _ args r stored buried (listed-document i p a edits) h)
  IsBuried-Runs s t (deactivated p args r stored h runs) buried =
      absurd (refused s Program.deactivate _ args r stored buried refl h)
  IsBuried-Runs s t (added p buffer args r apart stored h runs) buried =
      absurd (refused s Program.add_verification_method_from_buffer _ args r stored buried refl h)
  IsBuried-Runs s t (elsewhere {u = u} same runs) (d, v, (now, range, holds)) =
      IsBuried-Runs u t runs (d, v, (now, range, same ∙ holds)) ∙ same
