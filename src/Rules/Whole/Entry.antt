-- ===== src/Rules/Whole/Entry.antt =====
-- The instructions that edit a document, as the entry point dispatches them (program/src/lib.rs).
use bio_did_registry.Base.{◌≡◌, List, ◌∷◌, All}
use bio_did_registry.Error.{ok}
use bio_did_registry.Bytes.{Bytes, IsByte}
use bio_did_registry.Document.{Document, encode}
use bio_did_registry.Runtime.{Runtime, Store}
use bio_did_registry.Instructions.Shared.{first}
use bio_did_registry.Program.{Instruction, handle}
use bio_did_registry.Program
use bio_did_registry.Rules.Controllers.{MayUpdate}
use bio_did_registry.Rules.Storage.{RuntimeLaws}
use bio_did_registry.Rules.Health.{IsHealthy, Continues}
use bio_did_registry.Rules.Whole.Methods.{add_method-Continues, remove_method-Continues}
use bio_did_registry.Rules.Whole.Services.{add_service-Continues, remove_service-Continues}
use bio_did_registry.Rules.Whole.Replacements.{update_service-Continues}
use bio_did_registry.Rules.Whole.Flags.{set_flags-Continues}
use bio_did_registry.Rules.Whole.ControllerSets.{set_controllers-Continues}

-- The instructions that leave the next version of the document.
pub data Edits : Instruction → Type 0 where
  adds_method : Edits Program.add_verification_method
  removes_method : Edits Program.remove_verification_method
  sets_flags : Edits Program.set_verification_method_flags
  adds_service : Edits Program.add_service
  updates_service : Edits Program.update_service
  removes_service : Edits Program.remove_service
  sets_controllers : Edits Program.set_controllers

-- The account list: a change of flags costs nothing, and has no payer.
abbrev pub accounts_of : Instruction → Bytes → Bytes → Bytes → Bytes → List Bytes → List Bytes
accounts_of Program.set_verification_method_flags payer authority a sys rest = authority ∷ a ∷ rest
accounts_of _ payer authority a sys rest = payer ∷ authority ∷ a ∷ sys ∷ rest

-- With a runtime that keeps its laws, where one of the seven editing instructions succeeds, in a
-- store and with arguments of bytes, on an account that holds a well-formed document with an
-- authority, unique names and no more methods and services than allowed, the signer may update
-- the document, and the account then holds such a document of the next version.
pub handle-Continues :
    (rt : Runtime) (i : Instruction) (payer authority a sys : Bytes) (rest : List Bytes)
    (args : Bytes) (s : Store) (d : Document) (r : Unit {0} × Store)
    → RuntimeLaws rt
    → Edits i
    → ((c : Bytes) → All IsByte (s.accounts c).content)
    → All IsByte args
    → IsHealthy d
    → (s.accounts a).content ≡ encode d
    → handle rt i (accounts_of i payer authority a sys rest) args s ≡ ok r
    → MayUpdate rt s d authority (first rest) × Continues r.1 a d
unfolding handle
handle-Continues rt _ payer authority a sys rest args s d r laws adds_method stored given healthy
      holds h =
    add_method-Continues rt laws payer authority a sys rest args s d r stored healthy holds given h
handle-Continues rt _ payer authority a sys rest args s d r laws removes_method stored given healthy
      holds h =
    remove_method-Continues rt laws payer authority a sys rest args s d r stored healthy holds h
handle-Continues rt _ payer authority a sys rest args s d r laws sets_flags stored given healthy
      holds h =
    set_flags-Continues rt laws authority a rest args s d r stored healthy holds given h
handle-Continues rt _ payer authority a sys rest args s d r laws adds_service stored given healthy
      holds h =
    add_service-Continues rt laws payer authority a sys rest args s d r stored healthy holds given h
handle-Continues rt _ payer authority a sys rest args s d r laws updates_service stored given
      healthy holds h =
    update_service-Continues rt laws payer authority a sys rest args s d r stored healthy holds
      given h
handle-Continues rt _ payer authority a sys rest args s d r laws removes_service stored given
      healthy holds h =
    remove_service-Continues rt laws payer authority a sys rest args s d r stored healthy holds h
handle-Continues rt _ payer authority a sys rest args s d r laws sets_controllers stored given
      healthy holds h =
    set_controllers-Continues rt laws payer authority a sys rest args s d r stored healthy holds
      given h
