-- ===== src/Instructions/WriteKeyBuffer.antt =====
-- `write_key_buffer` (program/src/instructions/write_key_buffer.rs).
use bio_did_registry.Base.{ℕ, ◌+◌, not, ◌&&◌, none, List, ◌∷◌, length, leb, ◌==◌}
use bio_did_registry.Error.{
  ProgramError, Result, ok, err, ok_or, require, from_did_error, not_enough_account_keys,
  arithmetic_overflow, invalid_key_chunk,
}
use bio_did_registry.Error
use bio_did_registry.Bytes.{Bytes, u32_le, copy_from_slice}
use bio_did_registry.State.Consts.{kb_off_written, kb_off_key}
use bio_did_registry.Runtime.{Runtime, Act, ◌>>=◌, ◌>>◌, lift, fail, edit}
use bio_did_registry.Instructions.Shared.{check_authority_signer, check_key_buffer}
use bio_did_registry.Instructions.Args.{parse_args, chunk_args}
use bio_did_registry.State.Checks.{is_empty}
use bio_did_registry.Runtime.{checked_u64}

-- The checks on a chunk, and the two writes: the chunk, and how far the upload has come.
unfoldable pub write_chunk : ℕ → ℕ → ℕ → Bytes → Bytes → Result Bytes
write_chunk written key_len offset chunk bytes =
    Error.◌>>◌ (require (not (is_empty chunk) && offset == written) invalid_key_chunk) (
      Error.◌>>=◌ (ok_or (checked_u64 (offset + length chunk)) arithmetic_overflow) (λ end.
        Error.◌>>◌ (require (leb end key_len) invalid_key_chunk) (
          Error.◌>>=◌ (copy_from_slice (kb_off_key + offset) chunk bytes)
            (copy_from_slice kb_off_written (u32_le end)))))

unfoldable pub process_accounts : Runtime → Bytes → Bytes → Bytes → Act (Unit {0})
unfolding check_authority_signer check_key_buffer write_chunk
process_accounts rt authority key_buffer args = do
  check_authority_signer authority
  (written, key_len) ← check_key_buffer rt key_buffer authority none
  (offset, chunk) ← lift (parse_args chunk_args args)
  edit key_buffer (λ b. Error.◌>>=◌ (write_chunk written key_len offset chunk b) (λ b. ok (b, tt)))

unfoldable pub process : Runtime → List Bytes → Bytes → Act (Unit {0})
unfolding process_accounts
process rt (authority ∷ key_buffer ∷ _) args = process_accounts rt authority key_buffer args
process rt _ args = fail not_enough_account_keys
