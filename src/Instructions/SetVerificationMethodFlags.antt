-- ===== src/Instructions/SetVerificationMethodFlags.antt =====
-- `set_verification_method_flags` (program/src/instructions/set_verification_method_flags.rs).
use bio_did_registry.Base.{ℕ, not, ◌&&◌, Option, List, ◌∷◌, ltb, bytes_eq, bit_or}
use bio_did_registry.Error.{
  ProgramError, Result, ok, err, ok_or, require, from_did_error, protected_verification_method,
  last_authority, verification_method_not_found, not_enough_account_keys,
}
use bio_did_registry.Error
use bio_did_registry.Bytes.{Bytes, u16_le, copy_from_slice}
use bio_did_registry.State.Consts.{vm_flag_protected, vm_flag_capability_invocation}
use bio_did_registry.State.View.{
  DidView, VmRef, view, find_vm, authority_count, is_authority_method, has_flag,
}
use bio_did_registry.State.Checks.{validate_vm_flags}
use bio_did_registry.State.Edits.{stamp}
use bio_did_registry.Runtime.{Runtime, Act, ◌>>=◌, ◌>>◌, lift, fail, borrow, edit}
use bio_did_registry.Events.{did_modified, emit}
use bio_did_registry.Instructions.Shared.{
  authorize, check_authority_signer, first, verify_did_account,
}
use bio_did_registry.Instructions.Args.{parse_args, flags_args}

-- The method to change, once the rules on protection, flags and the last authority hold.
unfoldable pub check_flags : DidView → Bytes → ℕ → Bytes → Result VmRef
check_flags doc fragment new_flags signer =
    Error.◌>>=◌ (ok_or (find_vm doc fragment) (from_did_error verification_method_not_found)) (λ vm.
      Error.◌>>◌
        (Error.when (has_flag (bit_or vm.flags new_flags) vm_flag_protected)
          (require (bytes_eq vm.key signer) protected_verification_method))
        (Error.◌>>◌ (validate_vm_flags vm.method_type new_flags) (
          Error.◌>>◌
            (Error.when
              (is_authority_method vm && not (has_flag new_flags vm_flag_capability_invocation))
              (require (ltb 1 (authority_count doc)) last_authority))
            (ok vm))))

-- The update behind the account list.
unfoldable pub process_accounts : Runtime → Bytes → Bytes → Option Bytes → Bytes → Act (Unit {0})
unfolding check_authority_signer verify_did_account authorize emit check_flags
process_accounts rt authority did_account controller args = do
  check_authority_signer authority
  subject ← verify_did_account rt did_account
  (fragment, new_flags) ← lift (parse_args flags_args args)
  bytes ← borrow did_account
  doc ← lift (view bytes)
  authorize rt doc authority controller
  vm ← lift (check_flags doc fragment new_flags authority)
  now ← lift rt.unix_timestamp
  new_version ←
      edit did_account
        (λ b. Error.◌>>=◌ (copy_from_slice vm.flags_pos (u16_le new_flags) b) (stamp now))
  emit did_modified did_account subject new_version

unfoldable pub process : Runtime → List Bytes → Bytes → Act (Unit {0})
unfolding process_accounts
process rt (authority ∷ did_account ∷ rest) args =
    process_accounts rt authority did_account (first rest) args
process rt _ args = fail not_enough_account_keys
