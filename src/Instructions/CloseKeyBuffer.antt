-- ===== src/Instructions/CloseKeyBuffer.antt =====
-- `close_key_buffer` (program/src/instructions/close_key_buffer.rs).
use bio_did_registry.Base.{none, List, ◌∷◌}
use bio_did_registry.Error.{not_enough_account_keys}
use bio_did_registry.Bytes.{Bytes}
use bio_did_registry.Runtime.{Runtime, Act, ◌>>◌, lift, fail}
use bio_did_registry.Instructions.Shared.{
  check_payer, check_authority_signer, verify_key_buffer, close_to,
}
use bio_did_registry.Instructions.Args.{parse_args, no_args}

unfoldable pub process_accounts : Runtime → Bytes → Bytes → Bytes → Bytes → Act (Unit {0})
unfolding check_payer check_authority_signer verify_key_buffer close_to
process_accounts rt payer authority key_buffer args = do
  lift (parse_args no_args args)
  check_payer payer
  check_authority_signer authority
  verify_key_buffer rt key_buffer authority none
  close_to rt key_buffer payer

unfoldable pub process : Runtime → List Bytes → Bytes → Act (Unit {0})
unfolding process_accounts
process rt (payer ∷ authority ∷ key_buffer ∷ _) args =
    process_accounts rt payer authority key_buffer args
process rt _ args = fail not_enough_account_keys
