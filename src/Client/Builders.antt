-- ===== src/Client/Builders.antt =====
-- One builder for each instruction (program/src/client.rs).
use bio_did_registry.Base.{ℕ, true, false, List, [], ◌∷◌, length}
use bio_did_registry.Error.{Result, ok, ◌>>=◌}
use bio_did_registry.Bytes.{Bytes, u16_le, u32_le, u64_le}
use bio_did_registry.Runtime.{Runtime}
use bio_did_registry.State.Checks.{NewMethod}
use bio_did_registry.Document.{VerificationMethod, Service}
use bio_did_registry.Client.{
  Instruction, writable, readonly, new, raw, bytes, str, system_program, did_account, key_buffer,
  owned_subject, update_accounts, buffer_accounts,
}
use bio_did_registry.Program
use bio_did_registry.Program.{discriminator}

-- An instruction over the accounts of an update.
abbrev update : Runtime → Bytes → Bytes → Bytes → Program.Instruction → Result Instruction
update rt payer authority subject i = update_accounts rt payer authority subject >>= λ accounts.
    ok (new rt (discriminator i) accounts)

abbrev over_buffer : Runtime → Bytes → Bytes → Bytes → Program.Instruction → Result Instruction
over_buffer rt payer authority subject i =
    buffer_accounts rt payer authority subject >>= λ accounts.
    ok (new rt (discriminator i) accounts)

unfoldable pub initialize : Runtime → Bytes → Bytes → Result Instruction
unfolding did_account discriminator
initialize rt payer subject = did_account rt subject >>= λ did. ok (
    raw
      (new rt (discriminator Program.initialize)
        (writable payer true ∷ writable did false ∷ readonly system_program false ∷ []))
      subject)

unfoldable pub initialize_owned : Runtime → Bytes → Bytes → ℕ → Result Instruction
unfolding owned_subject update_accounts discriminator
initialize_owned rt payer authority nonce = owned_subject rt authority nonce >>= λ subject.
    update rt payer authority subject Program.initialize_owned >>= λ ix. ok (raw ix (u64_le nonce))

unfoldable pub add_verification_method :
    Runtime → Bytes → Bytes → Bytes → VerificationMethod → Result Instruction
unfolding update_accounts discriminator
add_verification_method rt payer authority subject m =
    update rt payer authority subject Program.add_verification_method >>= λ ix.
    ok (bytes (raw (raw (str ix m.fragment) (m.method_type ∷ [])) (u16_le m.flags)) m.key)

unfoldable pub remove_verification_method :
    Runtime → Bytes → Bytes → Bytes → Bytes → Result Instruction
unfolding update_accounts discriminator
remove_verification_method rt payer authority subject fragment =
    update rt payer authority subject Program.remove_verification_method >>= λ ix.
    ok (str ix fragment)

unfoldable pub set_verification_method_flags :
    Runtime → Bytes → Bytes → Bytes → ℕ → Result Instruction
unfolding did_account discriminator
set_verification_method_flags rt authority subject fragment flags =
    did_account rt subject >>= λ did. ok (
      raw
        (str
          (new rt (discriminator Program.set_verification_method_flags)
            (readonly authority true ∷ writable did false ∷ []))
          fragment)
        (u16_le flags))

unfoldable pub add_service : Runtime → Bytes → Bytes → Bytes → Service → Result Instruction
unfolding update_accounts discriminator
add_service rt payer authority subject svc =
    update rt payer authority subject Program.add_service >>= λ ix.
    ok (str (str (str ix svc.fragment) svc.service_type) svc.endpoint)

unfoldable pub update_service : Runtime → Bytes → Bytes → Bytes → Service → Result Instruction
unfolding update_accounts discriminator
update_service rt payer authority subject svc =
    update rt payer authority subject Program.update_service >>= λ ix.
    ok (str (str (str ix svc.fragment) svc.service_type) svc.endpoint)

unfoldable pub remove_service : Runtime → Bytes → Bytes → Bytes → Bytes → Result Instruction
unfolding update_accounts discriminator
remove_service rt payer authority subject fragment =
    update rt payer authority subject Program.remove_service >>= λ ix. ok (str ix fragment)

-- The two loops of `set_controllers`.
unfoldable pub raw_all : Instruction → List Bytes → Instruction
raw_all ix [] = ix
raw_all ix (key ∷ keys) = raw_all (raw ix key) keys

unfoldable pub str_all : Instruction → List Bytes → Instruction
str_all ix [] = ix
str_all ix (did ∷ dids) = str_all (str ix did) dids

unfoldable pub set_controllers :
    Runtime → Bytes → Bytes → Bytes → List Bytes → List Bytes → Result Instruction
unfolding update_accounts discriminator raw_all str_all
set_controllers rt payer authority subject natives externals =
    update rt payer authority subject Program.set_controllers >>= λ ix. ok (
      str_all (raw (raw_all (raw ix (u32_le (length natives))) natives) (u32_le (length externals)))
        externals)

unfoldable pub deactivate : Runtime → Bytes → Bytes → Bytes → Result Instruction
unfolding update_accounts discriminator
deactivate rt payer authority subject = update rt payer authority subject Program.deactivate

-- The arguments `fragment`, `method_type`, `flags` and `key_len` are the fields of `m`.
unfoldable pub create_key_buffer : Runtime → Bytes → Bytes → Bytes → NewMethod → Result Instruction
unfolding buffer_accounts discriminator
create_key_buffer rt payer authority subject m =
    over_buffer rt payer authority subject Program.create_key_buffer >>= λ ix.
    ok
      (raw (raw (raw (str ix m.fragment) (m.method_type ∷ [])) (u16_le m.flags)) (u32_le m.key_len))

unfoldable pub write_key_buffer : Runtime → Bytes → Bytes → ℕ → Bytes → Result Instruction
unfolding key_buffer discriminator
write_key_buffer rt authority subject offset chunk = key_buffer rt subject authority >>= λ buffer.
    ok (
      bytes
        (raw
          (new rt (discriminator Program.write_key_buffer)
            (readonly authority true ∷ writable buffer false ∷ []))
          (u32_le offset))
        chunk)

unfoldable pub add_verification_method_from_buffer :
    Runtime → Bytes → Bytes → Bytes → Result Instruction
unfolding buffer_accounts discriminator
add_verification_method_from_buffer rt payer authority subject =
    over_buffer rt payer authority subject Program.add_verification_method_from_buffer

unfoldable pub close_key_buffer : Runtime → Bytes → Bytes → Bytes → Result Instruction
unfolding key_buffer discriminator
close_key_buffer rt payer authority subject = key_buffer rt subject authority >>= λ buffer. ok (
    new rt (discriminator Program.close_key_buffer)
      (writable payer true ∷ readonly authority true ∷ writable buffer false ∷ []))
