-- ===== src/Rules/History/Events.antt =====
-- The instructions on a document account, in sequence (program/src/lib.rs).
use bio_did_registry.Base.{ℕ, bytes_eq, false, ◌≤◌, ◌≡◌, List, ◌∷◌, ◌++◌, All}
use bio_did_registry.Error.{ok}
use bio_did_registry.Bytes.{Bytes, IsByte}
use bio_did_registry.Document.{Document, IsDocument, encode}
use bio_did_registry.Document.Lifecycle.{tombstone}
use bio_did_registry.Runtime.{Runtime, Store}
use bio_did_registry.Program.{Instruction, discriminator, handle, process_instruction}
use bio_did_registry.Program
use bio_did_registry.Rules.Finish.{Holds}
use bio_did_registry.Rules.Health.{IsHealthy}
use bio_did_registry.Rules.Whole.Entry.{Edits, accounts_of}

-- The accounts of an instruction on the document account `a`.
pub record Parties : Type 0 where
  pub payer : Bytes
  pub authority : Bytes
  pub sys : Bytes
  pub rest : List Bytes

abbrev pub listed : Instruction → Parties → Bytes → List Bytes
listed i p a = accounts_of i p.payer p.authority a p.sys p.rest

-- The account list of an addition from a key buffer.
abbrev pub with_buffer : Parties → Bytes → Bytes → List Bytes
with_buffer p a buffer = p.payer ∷ p.authority ∷ a ∷ buffer ∷ p.sys ∷ p.rest

-- Every account holds bytes.
abbrev pub AreBytes : Store → Type 0
AreBytes s = (c : Bytes) → All IsByte (s.accounts c).content

-- What happens to the document account `a`: instructions that edit the document, the addition of a
-- method from a key buffer in another account, the deactivation, and anything else that leaves the
-- account's bytes as they are.
pub data Runs (rt : Runtime) (a : Bytes) : Store → Store → Type 0 where
  done : {s : Store} → Runs rt a s s
  edited :
      {s t : Store} (i : Instruction) (p : Parties) (args : Bytes) (r : Unit {0} × Store)
      → Edits i
      → AreBytes s
      → All IsByte args
      → process_instruction rt rt.program_id (listed i p a) (discriminator i ++ args) s ≡ ok r
      → Runs rt a r.1 t
      → Runs rt a s t
  deactivated :
      {s t : Store} (p : Parties) (args : Bytes) (r : Unit {0} × Store)
      → AreBytes s
      → process_instruction rt rt.program_id
          (listed Program.deactivate p a)
          (discriminator Program.deactivate ++ args)
          s
        ≡ ok r
      → Runs rt a r.1 t
      → Runs rt a s t
  added :
      {s t : Store} (p : Parties) (buffer args : Bytes) (r : Unit {0} × Store)
      → bytes_eq a buffer ≡ false
      → AreBytes s
      → process_instruction rt rt.program_id
          (with_buffer p a buffer)
          (discriminator Program.add_verification_method_from_buffer ++ args)
          s
        ≡ ok r
      → Runs rt a r.1 t
      → Runs rt a s t
  elsewhere :
      {s u t : Store}
      → (u.accounts a).content ≡ (s.accounts a).content
      → Runs rt a u t
      → Runs rt a s t

-- The account holds a document in use, of version `v` or a later one.
abbrev pub IsAlive : Store → Bytes → ℕ → Type 0
IsAlive s a v = (d : Document) × ((s.accounts a).content ≡ encode d) × IsHealthy d × (v ≤ d.version)

-- The account holds the tombstone of a document, stamped with some time.
abbrev pub IsBuried : Store → Bytes → Type 0
IsBuried s a = (d : Document) × IsDocument d × Holds s a (tombstone d)
