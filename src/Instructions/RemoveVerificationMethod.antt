-- ===== src/Instructions/RemoveVerificationMethod.antt =====
-- `remove_verification_method` (program/src/instructions/remove_verification_method.rs).
use bio_did_registry.Base.{ℕ, ◌-◌, List, ltb, bytes_eq}
use bio_did_registry.Error.{
  ProgramError, Result, ok, err, ok_or, require, from_did_error, protected_verification_method,
  last_authority, verification_method_not_found,
}
use bio_did_registry.Error
use bio_did_registry.Bytes.{Bytes, u32_le, copy_from_slice, copy_within}
use bio_did_registry.State.Consts.{vm_flag_protected}
use bio_did_registry.State.View.{
  DidView, VmRef, view, find_vm, authority_count, is_authority_method, has_flag,
}
use bio_did_registry.State.Edits.{stamp}
use bio_did_registry.Runtime.{Runtime, Act, ◌>>=◌, ◌>>◌, lift, borrow, edit}
use bio_did_registry.Events.{did_modified, emit}
use bio_did_registry.Instructions.Shared.{update_from, authorize, shrink}
use bio_did_registry.Instructions.Args.{parse_args, fragment_args}

-- The method to remove, once the rules on protection and on the last authority hold.
unfoldable pub check_removal : DidView → Bytes → Bytes → Result VmRef
check_removal doc fragment signer =
    Error.◌>>=◌ (ok_or (find_vm doc fragment) (from_did_error verification_method_not_found)) (λ vm.
      Error.◌>>◌
        (Error.when (has_flag vm.flags vm_flag_protected)
          (require (bytes_eq vm.key signer) protected_verification_method))
        (Error.◌>>◌
          (Error.when (is_authority_method vm)
            (require (ltb 1 (authority_count doc)) last_authority))
          (ok vm)))

-- The bytes behind the entry move over it, and the count goes down by one.
unfoldable pub remove_entry : ℕ → ℕ → ℕ → ℕ → ℕ → Bytes → Result Bytes
remove_entry span_start span_end old_len count_pos count bytes =
    Error.◌>>=◌ (copy_within span_end old_len span_start bytes)
      (copy_from_slice count_pos (u32_le (count - 1)))

unfoldable pub process : Runtime → List Bytes → Bytes → Act (Unit {0})
unfolding update_from authorize shrink emit check_removal remove_entry
process rt accounts args = do
  u ← update_from rt accounts
  fragment ← lift (parse_args fragment_args args)
  bytes ← borrow u.did_account
  doc ← lift (view bytes)
  authorize rt doc u.authority u.controller
  vm ← lift (check_removal doc fragment u.authority)
  let s = doc.sections
  let entry_len = vm.end - vm.start
  now ← lift rt.unix_timestamp
  new_version ← edit u.did_account (λ b.
      Error.◌>>=◌ (remove_entry vm.start vm.end s.end s.vm_count_pos s.vm_count b) (stamp now))
  shrink rt u.did_account u.payer (s.end - entry_len)
  emit did_modified u.did_account u.subject new_version
