-- ===== src/Instructions/UpdateService.antt =====
-- `update_service` (program/src/instructions/update_service.rs).
use bio_did_registry.Base.{ℕ, ◌+◌, ◌-◌, List, length, ltb}
use bio_did_registry.Error.{
  ProgramError, Result, ok, err, ok_or, require, from_did_error, service_not_found,
  invalid_service_value,
}
use bio_did_registry.Error
use bio_did_registry.Bytes.{Bytes, copy_within}
use bio_did_registry.State.Consts.{max_service_type_len, max_endpoint_len, service_space}
use bio_did_registry.State.View.{DidView, SvcRef, view, find_service}
use bio_did_registry.State.Checks.{valid_uri_ascii}
use bio_did_registry.State.Edits.{write_service, stamp}
use bio_did_registry.Document.{Service}
use bio_did_registry.Runtime.{Runtime, Act, ◌>>=◌, ◌>>◌, lift, when, borrow, edit}
use bio_did_registry.Events.{did_modified, emit}
use bio_did_registry.Instructions.Shared.{update_from, authorize, grow, shrink}
use bio_did_registry.Instructions.Args.{parse_args, service_args}

-- The service to replace, once the new values are valid.
unfoldable pub check_update : DidView → Service → Result SvcRef
check_update doc new =
    Error.◌>>=◌ (ok_or (find_service doc new.fragment) (from_did_error service_not_found)) (λ svc.
      Error.◌>>◌
        (require (valid_uri_ascii new.service_type max_service_type_len) invalid_service_value)
        (Error.◌>>◌ (require (valid_uri_ascii new.endpoint max_endpoint_len) invalid_service_value)
          (ok svc)))

-- The services behind the entry move, and the new entry is written in its place.
unfoldable pub replace_entry : ℕ → ℕ → ℕ → Service → Bytes → Result Bytes
replace_entry start end old_len new bytes =
    let entry_end =
      start + service_space (length new.fragment) (length new.service_type) (length new.endpoint) in
    Error.◌>>=◌ (copy_within end old_len entry_end bytes) (λ b.
      Error.◌>>=◌ (write_service b start new.fragment new.service_type new.endpoint) (λ p. ok p.0))

unfoldable pub process : Runtime → List Bytes → Bytes → Act (Unit {0})
unfolding update_from authorize grow shrink emit check_update replace_entry
process rt accounts args = do
  u ← update_from rt accounts
  new ← lift (parse_args service_args args)
  bytes ← borrow u.did_account
  doc ← lift (view bytes)
  authorize rt doc u.authority u.controller
  svc ← lift (check_update doc new)
  let old_len = doc.sections.end
  let entry_end =
      svc.start
      + service_space (length new.fragment) (length new.service_type) (length new.endpoint)
  let new_len = old_len - svc.end + entry_end
  when (ltb old_len new_len) (grow rt u.did_account u.payer new_len)
  now ← lift rt.unix_timestamp
  new_version ←
      edit u.did_account
        (λ b. Error.◌>>=◌ (replace_entry svc.start svc.end old_len new b) (stamp now))
  when (ltb new_len old_len) (shrink rt u.did_account u.payer new_len)
  emit did_modified u.did_account u.subject new_version
