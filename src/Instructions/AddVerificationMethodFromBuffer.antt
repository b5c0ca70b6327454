-- ===== src/Instructions/AddVerificationMethodFromBuffer.antt =====
-- `add_verification_method_from_buffer` (program/src/instructions/add_verification_method_from_buffer.rs).
use bio_did_registry.Base.{◌+◌, Option, some, List, ◌∷◌, length, ◌==◌}
use bio_did_registry.Error.{
  ProgramError, Result, ok, err, ok_or, require, from_did_error, not_enough_account_keys,
  invalid_instruction_data, key_buffer_incomplete,
}
use bio_did_registry.Error
use bio_did_registry.Bytes.{Bytes, slice}
use bio_did_registry.State.Consts.{vm_space, expected_key_len, kb_off_key}
use bio_did_registry.State.View.{view}
use bio_did_registry.State.Checks.{NewMethod, check_new_method, check_new_key}
use bio_did_registry.State.Edits.{insert_vm, stamp}
use bio_did_registry.State.KeyBuffer.{KeyBufferRef}
use bio_did_registry.State.KeyBuffer
use bio_did_registry.Runtime.{Runtime, Act, ◌>>=◌, ◌>>◌, lift, fail, borrow, edit}
use bio_did_registry.Events.{did_modified, emit}
use bio_did_registry.Instructions.Shared.{
  authorize, check_payer, check_authority_signer, check_system_program, first, verify_did_account,
  verify_key_buffer, close_to, grow,
}
use bio_did_registry.Instructions.Args.{parse_args, no_args}

-- The method that a key buffer stages.
abbrev pub staged : KeyBufferRef → NewMethod
staged kb = record {
  fragment = kb.fragment;
  method_type = kb.method_type;
  flags = kb.flags;
  key_len = kb.key_len;
}

-- The instruction behind the account list.
unfoldable pub process_accounts :
    Runtime → Bytes → Bytes → Bytes → Bytes → Bytes → Option Bytes → Bytes → Act (Unit {0})
unfolding check_payer check_authority_signer check_system_program verify_did_account
    verify_key_buffer authorize grow close_to emit
process_accounts rt payer authority did_account key_buffer system_program controller args = do
  lift (parse_args no_args args)
  check_payer payer
  check_authority_signer authority
  check_system_program rt system_program
  subject ← verify_did_account rt did_account
  verify_key_buffer rt key_buffer authority (some did_account)
  buf ← borrow key_buffer
  kb ← lift (KeyBuffer.parse buf)
  lift (require (kb.written == kb.key_len) key_buffer_incomplete)
  lift (ok_or (expected_key_len kb.method_type) invalid_instruction_data)
  bytes ← borrow did_account
  doc ← lift (view bytes)
  authorize rt doc authority controller
  lift (check_new_method doc (staged kb))
  key ← lift (KeyBuffer.key kb buf)
  lift (check_new_key rt.bytes_are_curve_point (staged kb) key authority)
  let s = doc.sections
  grow rt did_account payer (s.end + vm_space (length kb.fragment) kb.key_len)
  now ← lift rt.unix_timestamp
  buf ← borrow key_buffer
  new_version ← edit did_account (λ b.
      Error.◌>>=◌ (slice kb_off_key (kb_off_key + kb.key_len) buf)
        (λ key. Error.◌>>=◌ (insert_vm b s (staged kb) key) (stamp now)))
  close_to rt key_buffer payer
  emit did_modified did_account subject new_version

unfoldable pub process : Runtime → List Bytes → Bytes → Act (Unit {0})
unfolding process_accounts
process rt (payer ∷ authority ∷ did_account ∷ key_buffer ∷ system_program ∷ rest) args =
    process_accounts rt payer authority did_account key_buffer system_program (first rest) args
process rt _ args = fail not_enough_account_keys
