-- ===== src/Instructions/AddService.antt =====
-- `add_service` (program/src/instructions/add_service.rs).
use bio_did_registry.Base.{◌+◌, List, length, ltb}
use bio_did_registry.Error.{
  ProgramError, Result, ok, err, ok_or, require, from_did_error, too_many_services,
  invalid_fragment, invalid_service_value,
}
use bio_did_registry.Error
use bio_did_registry.Bytes.{Bytes, u32_le, copy_from_slice}
use bio_did_registry.State.Consts.{
  max_services, max_service_type_len, max_endpoint_len, service_space,
}
use bio_did_registry.State.Sections.{Sections}
use bio_did_registry.State.View.{DidView, view, require_fragment_free}
use bio_did_registry.State.Checks.{valid_fragment, valid_uri_ascii}
use bio_did_registry.State.Edits.{write_service, stamp}
use bio_did_registry.Document.{Service}
use bio_did_registry.Runtime.{Runtime, Act, ◌>>=◌, ◌>>◌, lift, borrow, edit}
use bio_did_registry.Events.{did_modified, emit}
use bio_did_registry.Instructions.Shared.{update_from, authorize, grow}
use bio_did_registry.Instructions.Args.{parse_args, service_args}

-- The rules on a new service, in the order that they are reported.
unfoldable pub check_new_service : DidView → Service → Result (Unit {0})
check_new_service doc svc =
    Error.◌>>◌ (require (ltb doc.sections.svc_count max_services) too_many_services) (
      Error.◌>>◌ (require (valid_fragment svc.fragment) invalid_fragment) (
        Error.◌>>◌ (require_fragment_free doc svc.fragment) (
          Error.◌>>◌
            (require (valid_uri_ascii svc.service_type max_service_type_len) invalid_service_value)
            (require (valid_uri_ascii svc.endpoint max_endpoint_len) invalid_service_value))))

-- The entry is written behind the last one, and the count goes up by one.
unfoldable pub append_service : Sections → Service → Bytes → Result Bytes
append_service s svc bytes =
    Error.◌>>=◌ (write_service bytes s.end svc.fragment svc.service_type svc.endpoint)
      (λ p. copy_from_slice s.svc_count_pos (u32_le (s.svc_count + 1)) p.0)

unfoldable pub process : Runtime → List Bytes → Bytes → Act (Unit {0})
unfolding update_from authorize grow emit check_new_service append_service
process rt accounts args = do
  u ← update_from rt accounts
  svc ← lift (parse_args service_args args)
  let entry_len =
      service_space (length svc.fragment) (length svc.service_type) (length svc.endpoint)
  bytes ← borrow u.did_account
  doc ← lift (view bytes)
  authorize rt doc u.authority u.controller
  lift (check_new_service doc svc)
  let s = doc.sections
  grow rt u.did_account u.payer (s.end + entry_len)
  now ← lift rt.unix_timestamp
  new_version ← edit u.did_account (λ b. Error.◌>>=◌ (append_service s svc b) (stamp now))
  emit did_modified u.did_account u.subject new_version
