-- ===== src/Instructions/RemoveService.antt =====
-- `remove_service` (program/src/instructions/remove_service.rs).
use bio_did_registry.Base.{◌-◌, List}
use bio_did_registry.Error.{
  ProgramError, Result, ok, err, ok_or, require, from_did_error, service_not_found,
}
use bio_did_registry.Error
use bio_did_registry.Bytes.{Bytes}
use bio_did_registry.State.View.{view, find_service}
use bio_did_registry.State.Edits.{stamp}
use bio_did_registry.Runtime.{Runtime, Act, ◌>>=◌, ◌>>◌, lift, borrow, edit}
use bio_did_registry.Events.{did_modified, emit}
use bio_did_registry.Instructions.Shared.{update_from, authorize, shrink}
use bio_did_registry.Instructions.Args.{parse_args, fragment_args}
use bio_did_registry.Instructions.RemoveVerificationMethod.{remove_entry}

unfoldable pub process : Runtime → List Bytes → Bytes → Act (Unit {0})
unfolding update_from authorize shrink emit remove_entry
process rt accounts args = do
  u ← update_from rt accounts
  fragment ← lift (parse_args fragment_args args)
  bytes ← borrow u.did_account
  doc ← lift (view bytes)
  authorize rt doc u.authority u.controller
  svc ← lift (ok_or (find_service doc fragment) (from_did_error service_not_found))
  let s = doc.sections
  let entry_len = svc.end - svc.start
  now ← lift rt.unix_timestamp
  new_version ← edit u.did_account (λ b.
      Error.◌>>=◌ (remove_entry svc.start svc.end s.end s.svc_count_pos s.svc_count b) (stamp now))
  shrink rt u.did_account u.payer (s.end - entry_len)
  emit did_modified u.did_account u.subject new_version
