-- ===== src/Client.antt =====
-- Instructions as clients put them together (program/src/client.rs): accounts, data, addresses.
pub mod Builders
pub mod Upload
pub mod Arguments
pub mod Calls
pub mod Delivery
pub mod Chunks
pub mod Staged
use bio_did_registry.Base.{ℕ, Bool, true, false, List, [], ◌∷◌, ◌++◌, length, replicate}
use bio_did_registry.Error.{Result, ok, ◌>>=◌}
use bio_did_registry.Bytes.{Bytes, u32_le, u64_le}
use bio_did_registry.State.Consts.{did_seed, key_buffer_seed, owned_subject_seeds}
use bio_did_registry.Runtime.{Runtime}

-- `SYSTEM_PROGRAM`
abbrev pub system_program : Bytes
system_program = replicate 32 0

-- `KEY_CHUNK_LEN`
abbrev pub key_chunk_len : ℕ
key_chunk_len = 900

pub record AccountMeta : Type 0 where
  pub address : Bytes
  pub is_signer : Bool
  pub is_writable : Bool

abbrev pub writable : Bytes → Bool → AccountMeta
writable address is_signer = record { address = address; is_signer = is_signer; is_writable = true }

abbrev pub readonly : Bytes → Bool → AccountMeta
readonly address is_signer = record {
  address = address;
  is_signer = is_signer;
  is_writable = false;
}

-- `content` is the field `data`.
pub record Instruction : Type 0 where
  pub program_id : Bytes
  pub accounts : List AccountMeta
  pub content : Bytes

-- `Instruction::new`
abbrev pub new : Runtime → Bytes → List AccountMeta → Instruction
new rt discriminator accounts = record {
  program_id = rt.program_id;
  accounts = accounts;
  content = discriminator;
}

-- `Instruction::raw`
abbrev pub raw : Instruction → Bytes → Instruction
raw ix value = record ix { content = ix.content ++ value }

-- `Instruction::bytes`, and `Instruction::str` of the bytes of a text.
abbrev pub bytes : Instruction → Bytes → Instruction
bytes ix value = raw (raw ix (u32_le (length value))) value

abbrev pub str : Instruction → Bytes → Instruction
str = bytes

unfoldable pub did_account : Runtime → Bytes → Result Bytes
did_account rt subject = rt.find_program_address (did_seed ∷ subject ∷ []) >>= λ p. ok p.0

unfoldable pub key_buffer : Runtime → Bytes → Bytes → Result Bytes
unfolding did_account
key_buffer rt subject authority = did_account rt subject >>= λ did.
    rt.find_program_address (key_buffer_seed ∷ did ∷ authority ∷ []) >>= λ p. ok p.0

-- `owned_subject` (program/src/state.rs)
unfoldable pub owned_subject : Runtime → Bytes → ℕ → Result Bytes
owned_subject rt authority nonce =
    rt.find_program_address (owned_subject_seeds authority (u64_le nonce)) >>= λ p. ok p.0

-- `Instruction::via_controller`
unfoldable pub via_controller : Runtime → Instruction → Bytes → Result Instruction
unfolding did_account
via_controller rt ix controller = did_account rt controller >>= λ a.
    ok (record ix { accounts = ix.accounts ++ (readonly a false ∷ []) })

unfoldable pub update_accounts : Runtime → Bytes → Bytes → Bytes → Result (List AccountMeta)
unfolding did_account
update_accounts rt payer authority subject = did_account rt subject >>= λ did. ok (
    writable payer true
    ∷ readonly authority true
    ∷ writable did false
    ∷ readonly system_program false
    ∷ [])

unfoldable pub buffer_accounts : Runtime → Bytes → Bytes → Bytes → Result (List AccountMeta)
unfolding did_account key_buffer
buffer_accounts rt payer authority subject = did_account rt subject >>= λ did.
    key_buffer rt subject authority >>= λ buffer. ok (
      writable payer true
      ∷ readonly authority true
      ∷ writable did false
      ∷ writable buffer false
      ∷ readonly system_program false
      ∷ [])
