-- ===== src/Staging.antt =====
-- The content of a key buffer as data, and its layout in bytes (program/src/state.rs,
-- `KeyBufferHeader`): the specification that the buffer instructions are measured by.
pub mod Upload
pub mod Header
pub mod Sequence
pub mod Creation
use bio_did_registry.Base.{ℕ, ◌≡◌, ◌+◌, ◌<◌, ◌≤◌, ◌^◌, List, [], ◌∷◌, ◌++◌, length, All}
use bio_did_registry.Bytes.{Bytes, IsByte, u16_le, u32_le}
use bio_did_registry.State.Consts.{max_fragment_len}
use bio_did_registry.State.KeyBuffer.{KeyBufferRef}

-- `done` is the part of the key that is uploaded, `todo` what the rest of the account holds.
pub record Staging : Type 0 where
  pub discriminator : Bytes
  pub did_account : Bytes
  pub authority : Bytes
  pub bump : ℕ
  pub method_type : ℕ
  pub flags : ℕ
  pub fragment : Bytes
  pub padding : Bytes
  pub done : Bytes
  pub todo : Bytes

abbrev pub key_len : Staging → ℕ
key_len s = length s.done + length s.todo

abbrev pub before_written : Staging → Bytes
before_written s =
    s.discriminator
    ++ (s.did_account
        ++ (s.authority ++ (s.bump ∷ s.method_type ∷ u16_le s.flags ++ u32_le (key_len s))))

abbrev pub after_written : Staging → Bytes
after_written s = u32_le (length s.fragment) ++ (s.fragment ++ s.padding)

unfoldable pub encode : Staging → Bytes
encode s = before_written s ++ (u32_le (length s.done) ++ (after_written s ++ (s.done ++ s.todo)))

-- Every field fits its place in the layout.
pub record IsStaging (s : Staging) : Type 0 where
  pub discriminator_len : length s.discriminator ≡ 8
  pub did_account_len : length s.did_account ≡ 32
  pub authority_len : length s.authority ≡ 32
  pub bump_range : IsByte s.bump
  pub method_type_range : IsByte s.method_type
  pub flags_range : s.flags < 2 ^ 16
  pub key_len_range : key_len s < 2 ^ 32
  pub fragment_len : length s.fragment + length s.padding ≡ max_fragment_len

-- What the header of a staged key says.
abbrev pub ref : Staging → KeyBufferRef
ref s = record {
  did_account = s.did_account;
  authority = s.authority;
  bump = s.bump;
  method_type = s.method_type;
  flags = s.flags;
  key_len = key_len s;
  written = length s.done;
  fragment = s.fragment;
}
