-- ===== src/Instructions/CreateKeyBuffer.antt =====
-- `create_key_buffer` (program/src/instructions/create_key_buffer.rs).
use bio_did_registry.Base.{
  ℕ, ◌+◌, not, ◌&&◌, Option, List, [], ◌∷◌, length, ◌==◌, if◌then◌else◌, bytes_eq,
}
use bio_did_registry.Error.{
  ProgramError, Result, ok, err, ok_or, require, from_did_error, not_enough_account_keys,
  invalid_instruction_data, immutable, invalid_seeds, account_already_initialized,
  account_data_too_small,
}
use bio_did_registry.Error
use bio_did_registry.Bytes.{Bytes, u16_le, u32_le, copy_from_slice, set_byte}
use bio_did_registry.State.Consts.{
  expected_key_len, key_buffer_discriminator, key_buffer_seed, key_buffer_header,
  kb_off_did_account, kb_off_authority, kb_off_bump, kb_off_method_type, kb_off_flags,
  kb_off_key_len, kb_off_written, kb_off_fragment_len, kb_off_fragment,
}
use bio_did_registry.State.View.{view}
use bio_did_registry.State.Checks.{NewMethod, check_new_method}
use bio_did_registry.Runtime.{Runtime, Act, ◌>>=◌, ◌>>◌, lift, fail, ensure, account, borrow, edit}
use bio_did_registry.Instructions.Shared.{
  authorize, check_payer, check_authority_signer, check_system_program, find_pda, first,
  load_did_account, rent_minimum_balance,
}
use bio_did_registry.Instructions.Args.{parse_args, buffer_args}
use bio_did_registry.Instructions.Create.{create}

-- The writes of the header, over an account of `KEY_BUFFER_HEADER + key_len` bytes.
unfoldable pub write_header : Bytes → Bytes → ℕ → NewMethod → Bytes → Result Bytes
write_header did_account signer bump m bytes =
    if not (length bytes == key_buffer_header + m.key_len)
    then err account_data_too_small
    else Error.◌>>=◌ (copy_from_slice 0 key_buffer_discriminator bytes) (λ b.
      Error.◌>>=◌ (copy_from_slice kb_off_did_account did_account b) (λ b.
        Error.◌>>=◌ (copy_from_slice kb_off_authority signer b) (λ b.
          Error.◌>>=◌ (set_byte kb_off_bump bump b) (λ b.
            Error.◌>>=◌ (set_byte kb_off_method_type m.method_type b) (λ b.
              Error.◌>>=◌ (copy_from_slice kb_off_flags (u16_le m.flags) b) (λ b.
                Error.◌>>=◌ (copy_from_slice kb_off_key_len (u32_le m.key_len) b) (λ b.
                  Error.◌>>=◌ (copy_from_slice kb_off_written (u32_le 0) b) (λ b.
                    Error.◌>>=◌ (copy_from_slice kb_off_fragment_len (u32_le (length m.fragment)) b)
                      (λ b. copy_from_slice kb_off_fragment m.fragment b)))))))))

-- The instruction behind the account list.
unfoldable pub process_accounts :
    Runtime → Bytes → Bytes → Bytes → Bytes → Bytes → Option Bytes → Bytes → Act (Unit {0})
unfolding check_payer check_authority_signer check_system_program load_did_account authorize
    find_pda rent_minimum_balance create write_header
process_accounts rt payer authority did_account key_buffer system_program controller args = do
  check_payer payer
  check_authority_signer authority
  check_system_program rt system_program
  load_did_account rt did_account
  v ← account key_buffer
  ensure v.is_writable immutable
  m ← lift (parse_args buffer_args args)
  lift (ok_or (expected_key_len m.method_type) invalid_instruction_data)
  bytes ← borrow did_account
  doc ← lift (view bytes)
  authorize rt doc authority controller
  lift (check_new_method doc m)
  (pda, bump) ← lift (find_pda rt (key_buffer_seed ∷ did_account ∷ authority ∷ []))
  ensure (bytes_eq key_buffer pda) invalid_seeds
  ensure (bytes_eq v.owner rt.system_program_id && length v.content == 0)
      account_already_initialized
  let space = key_buffer_header + m.key_len
  rent_min ← lift (rent_minimum_balance rt space)
  create rt (key_buffer_seed ∷ did_account ∷ authority ∷ (bump ∷ []) ∷ []) payer key_buffer rent_min
      space
  edit key_buffer (λ b. Error.◌>>=◌ (write_header did_account authority bump m b) (λ b. ok (b, tt)))

unfoldable pub process : Runtime → List Bytes → Bytes → Act (Unit {0})
unfolding process_accounts
process rt (payer ∷ authority ∷ did_account ∷ key_buffer ∷ system_program ∷ rest) args =
    process_accounts rt payer authority did_account key_buffer system_program (first rest) args
process rt _ args = fail not_enough_account_keys
