-- ===== src/Instructions/Create.antt =====
-- The creation of a program account, which `materialize` and `create_key_buffer` share as text (program/src/instructions/initialize.rs, create_key_buffer.rs).
use bio_did_registry.Base.{ℕ, ◌-◌, List, ltb, ◌==◌, if◌then◌else◌}
use bio_did_registry.Bytes.{Bytes}
use bio_did_registry.Runtime.{Runtime, Act, ◌>>=◌, ◌>>◌, when, account, invoke}

-- The branch of a pre-funded address.
unfoldable pub create_funded : Runtime → List Bytes → Bytes → Bytes → ℕ → ℕ → ℕ → Act (Unit {0})
create_funded rt seeds payer target rent_min space lamports = do
  let deficit = rent_min - lamports
  when (ltb 0 deficit) (invoke (rt.transfer payer target deficit))
  invoke (rt.allocate seeds target space)
  invoke (rt.assign seeds target rt.program_id)

-- An account is created, or topped up, allocated and assigned where the address was pre-funded.
-- `seeds` are those that sign for the address.
unfoldable pub create : Runtime → List Bytes → Bytes → Bytes → ℕ → ℕ → Act (Unit {0})
unfolding create_funded
create rt seeds payer target rent_min space = do
  v ← account target
  if v.lamports == 0
      then invoke (rt.create_account seeds payer target rent_min space rt.program_id)
      else create_funded rt seeds payer target rent_min space v.lamports
