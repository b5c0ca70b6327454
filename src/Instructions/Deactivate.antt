-- ===== src/Instructions/Deactivate.antt =====
-- `deactivate` (program/src/instructions/deactivate.rs).
use bio_did_registry.Base.{List}
use bio_did_registry.Error.{ProgramError, Result, ok, err, ok_or, require, from_did_error}
use bio_did_registry.Error
use bio_did_registry.Bytes.{Bytes, set_byte, fill}
use bio_did_registry.State.Consts.{off_sections, off_deactivated, tombstone_space}
use bio_did_registry.State.View.{view}
use bio_did_registry.State.Edits.{stamp}
use bio_did_registry.Runtime.{Runtime, Act, ◌>>=◌, ◌>>◌, lift, borrow, edit}
use bio_did_registry.Events.{did_deactivated, emit}
use bio_did_registry.Instructions.Shared.{update_from, authorize, shrink}
use bio_did_registry.Instructions.Args.{parse_args, no_args}

-- The flag is set, and the four counts become zero.
unfoldable pub entomb : Bytes → Result Bytes
entomb bytes = Error.◌>>=◌ (set_byte off_deactivated 1 bytes) (fill off_sections tombstone_space 0)

unfoldable pub process : Runtime → List Bytes → Bytes → Act (Unit {0})
unfolding update_from authorize shrink emit entomb
process rt accounts args = do
  u ← update_from rt accounts
  lift (parse_args no_args args)
  bytes ← borrow u.did_account
  doc ← lift (view bytes)
  authorize rt doc u.authority u.controller
  now ← lift rt.unix_timestamp
  new_version ← edit u.did_account (λ b. Error.◌>>=◌ (entomb b) (stamp now))
  shrink rt u.did_account u.payer tombstone_space
  emit did_deactivated u.did_account u.subject new_version
