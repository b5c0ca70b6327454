-- ===== src/Instructions/Initialize.antt =====
-- `initialize` and `materialize` (program/src/instructions/initialize.rs).
use bio_did_registry.Base.{ℕ, ◌+◌, not, ◌&&◌, List, [], ◌∷◌, length, ◌==◌, if◌then◌else◌, bytes_eq}
use bio_did_registry.Error.{
  ProgramError, Result, ok, err, ok_or, require, from_did_error, not_enough_account_keys,
  invalid_instruction_data, invalid_argument, immutable, invalid_seeds, account_already_initialized,
  account_data_too_small,
}
use bio_did_registry.Error
use bio_did_registry.Bytes.{Bytes, u16_le, u32_le, u64_le, copy_from_slice, set_byte}
use bio_did_registry.State.Consts.{
  off_sections, off_deactivated, off_version, off_bump, off_subject, off_updated_at, initial_space,
  account_discriminator, default_fragment, vm_type_ed25519, vm_flags_default, did_seed,
}
use bio_did_registry.Runtime.{Runtime, Act, ◌>>=◌, ◌>>◌, lift, fail, ensure, account, edit}
use bio_did_registry.Events.{did_initialized, emit}
use bio_did_registry.Instructions.Shared.{
  check_payer, check_system_program, find_pda, rent_minimum_balance,
}
use bio_did_registry.Instructions.Create.{create}

-- The writes of the initial document, over an account of `INITIAL_SPACE` bytes.
unfoldable pub write_initial : ℕ → Bytes → Bytes → ℕ → Bytes → Result Bytes
write_initial bump subject default_key now bytes =
    if not (length bytes == initial_space)
    then err account_data_too_small
    else Error.◌>>=◌ (copy_from_slice 0 account_discriminator bytes) (λ b.
      Error.◌>>=◌ (copy_from_slice off_version (u64_le 1) b) (λ b.
        Error.◌>>=◌ (set_byte off_bump bump b) (λ b.
          Error.◌>>=◌ (copy_from_slice off_subject subject b) (λ b.
            Error.◌>>=◌ (set_byte off_deactivated 0 b) (λ b.
              Error.◌>>=◌ (copy_from_slice off_updated_at (u64_le now) b) (λ b.
                let off = off_sections in
                Error.◌>>=◌ (copy_from_slice off (u32_le 0) b) (λ b.
                  let off = off + 4 in
                  Error.◌>>=◌ (copy_from_slice off (u32_le 0) b) (λ b.
                    let off = off + 4 in
                    Error.◌>>=◌ (copy_from_slice off (u32_le 1) b) (λ b.
                      let off = off + 4 in
                      Error.◌>>=◌ (copy_from_slice off (u32_le (length default_fragment)) b) (λ b.
                        let off = off + 4 in
                        Error.◌>>=◌ (copy_from_slice off default_fragment b) (λ b.
                          let off = off + length default_fragment in
                          Error.◌>>=◌ (set_byte off vm_type_ed25519 b) (λ b.
                            let off = off + 1 in
                            Error.◌>>=◌ (copy_from_slice off (u16_le vm_flags_default) b) (λ b.
                              let off = off + 2 in
                              Error.◌>>=◌ (copy_from_slice off (u32_le 32) b) (λ b.
                                let off = off + 4 in
                                Error.◌>>=◌ (copy_from_slice off default_key b) (λ b.
                                  let off = off + 32 in
                                  copy_from_slice off (u32_le 0) b)))))))))))))))

unfoldable pub materialize : Runtime → Bytes → Bytes → Bytes → Bytes → Bytes → Act (Unit {0})
unfolding check_payer check_system_program find_pda rent_minimum_balance create write_initial emit
materialize rt payer did_account system_program subject default_key = do
  check_payer payer
  check_system_program rt system_program
  v ← account did_account
  ensure v.is_writable immutable
  (pda, bump) ← lift (find_pda rt (did_seed ∷ subject ∷ []))
  ensure (bytes_eq did_account pda) invalid_seeds
  ensure (bytes_eq v.owner rt.system_program_id && length v.content == 0)
      account_already_initialized
  rent_min ← lift (rent_minimum_balance rt initial_space)
  create rt (did_seed ∷ subject ∷ (bump ∷ []) ∷ []) payer did_account rent_min initial_space
  now ← lift rt.unix_timestamp
  edit did_account
      (λ b. Error.◌>>=◌ (write_initial bump subject default_key now b) (λ b. ok (b, tt)))
  emit did_initialized did_account subject 1

-- `initialize` behind the account list.
unfoldable pub process_accounts : Runtime → Bytes → Bytes → Bytes → Bytes → Act (Unit {0})
unfolding materialize
process_accounts rt payer did_account system_program args = do
  ensure (length args == 32) invalid_instruction_data
  ensure (rt.bytes_are_curve_point args) invalid_argument
  materialize rt payer did_account system_program args args

unfoldable pub process : Runtime → List Bytes → Bytes → Act (Unit {0})
unfolding process_accounts
process rt (payer ∷ did_account ∷ system_program ∷ _) args =
    process_accounts rt payer did_account system_program args
process rt _ args = fail not_enough_account_keys
