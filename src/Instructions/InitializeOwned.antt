-- ===== src/Instructions/InitializeOwned.antt =====
-- `initialize_owned` (program/src/instructions/initialize_owned.rs).
use bio_did_registry.Base.{List, ◌∷◌, length, ◌==◌}
use bio_did_registry.Error.{not_enough_account_keys, invalid_instruction_data}
use bio_did_registry.Bytes.{Bytes}
use bio_did_registry.State.Consts.{owned_subject_seeds}
use bio_did_registry.Runtime.{Runtime, Act, ◌>>=◌, ◌>>◌, lift, fail, ensure}
use bio_did_registry.Instructions.Shared.{check_authority_signer, find_pda}
use bio_did_registry.Instructions.Initialize.{materialize}

unfoldable pub process_accounts : Runtime → Bytes → Bytes → Bytes → Bytes → Bytes → Act (Unit {0})
unfolding check_authority_signer find_pda materialize
process_accounts rt payer authority did_account system_program args = do
  check_authority_signer authority
  ensure (length args == 8) invalid_instruction_data
  (subject, _) ← lift (find_pda rt (owned_subject_seeds authority args))
  materialize rt payer did_account system_program subject authority

unfoldable pub process : Runtime → List Bytes → Bytes → Act (Unit {0})
unfolding process_accounts
process rt (payer ∷ authority ∷ did_account ∷ system_program ∷ _) args =
    process_accounts rt payer authority did_account system_program args
process rt _ args = fail not_enough_account_keys
