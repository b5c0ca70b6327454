-- ===== src/Instructions/AddVerificationMethod.antt =====
-- `add_verification_method` (program/src/instructions/add_verification_method.rs).
use bio_did_registry.Base.{◌+◌, List, length}
use bio_did_registry.Error.{
  ProgramError, Result, ok, err, ok_or, require, from_did_error, invalid_instruction_data,
}
use bio_did_registry.Error
use bio_did_registry.Bytes.{Bytes}
use bio_did_registry.State.Consts.{vm_space, expected_key_len}
use bio_did_registry.State.View.{view}
use bio_did_registry.State.Checks.{NewMethod, check_new_method, check_new_key}
use bio_did_registry.State.Edits.{insert_vm, stamp}
use bio_did_registry.Document.{VerificationMethod}
use bio_did_registry.Runtime.{Runtime, Act, ◌>>=◌, ◌>>◌, lift, borrow, edit}
use bio_did_registry.Events.{did_modified, emit}
use bio_did_registry.Instructions.Shared.{update_from, authorize, grow}
use bio_did_registry.Instructions.Args.{parse_args, method_args}

abbrev pub method_head : VerificationMethod → NewMethod
method_head m = record {
  fragment = m.fragment;
  method_type = m.method_type;
  flags = m.flags;
  key_len = length m.key;
}

unfoldable pub process : Runtime → List Bytes → Bytes → Act (Unit {0})
unfolding update_from authorize grow emit
process rt accounts args = do
  u ← update_from rt accounts
  m ← lift (parse_args method_args args)
  lift (ok_or (expected_key_len m.method_type) invalid_instruction_data)
  bytes ← borrow u.did_account
  doc ← lift (view bytes)
  authorize rt doc u.authority u.controller
  lift (check_new_method doc (method_head m))
  lift (check_new_key rt.bytes_are_curve_point (method_head m) m.key u.authority)
  let s = doc.sections
  grow rt u.did_account u.payer (s.end + vm_space (length m.fragment) (length m.key))
  now ← lift rt.unix_timestamp
  new_version ←
      edit u.did_account (λ b. Error.◌>>=◌ (insert_vm b s (method_head m) m.key) (stamp now))
  emit did_modified u.did_account u.subject new_version
