-- ===== src/State/KeyBuffer.antt =====
-- The header of a key buffer (program/src/state.rs, `KeyBufferRef`).
use bio_did_registry.Base.{ℕ, ◌+◌, ◌||◌, not, take, length, ltb, ◌==◌, if◌then◌else◌, none, some}
use bio_did_registry.Error.{Result, ok, err, invalid_account_data}
use bio_did_registry.Error
use bio_did_registry.Bytes.{Bytes, split_at_checked, slice}
use bio_did_registry.Reader.{Reading, ◌>>=◌, account, at, array, u8, u16, u32}
use bio_did_registry.State.Consts.{
  kb_off_did_account, kb_off_key, key_buffer_header, max_fragment_len,
}

pub record KeyBufferRef : Type 0 where
  pub did_account : Bytes
  pub authority : Bytes
  pub bump : ℕ
  pub method_type : ℕ
  pub flags : ℕ
  pub key_len : ℕ
  pub written : ℕ
  pub fragment : Bytes

-- The reads of the header, with the check on the lengths. `stored` is the number of key bytes.
unfoldable pub read_header : ℕ → Reading KeyBufferRef
read_header stored = do
  did_account ← array 32
  authority ← array 32
  bump ← u8
  method_type ← u8
  flags ← u16
  key_len ← u32
  written ← u32
  fragment_len ← u32
  fragment ← array max_fragment_len
  λ r.
      if not (stored == key_len) || ltb key_len written || ltb max_fragment_len fragment_len
      then err invalid_account_data
      else ok (
        record {
          did_account = did_account;
          authority = authority;
          bump = bump;
          method_type = method_type;
          flags = flags;
          key_len = key_len;
          written = written;
          fragment = take fragment_len fragment;
        },
        r,
      )

-- `KeyBufferRef::parse`
unfoldable pub parse : Bytes → Result KeyBufferRef
unfolding read_header
parse bytes = elim (split_at_checked key_buffer_header bytes) [
  | none ↦ err invalid_account_data
  | some (header, key) ↦
      Error.◌>>=◌ (at account header kb_off_did_account)
        (λ r. Error.◌>>=◌ (read_header (length key) r) (λ p. ok p.0))
]

-- `KeyBufferRef::key`
unfoldable pub key : KeyBufferRef → Bytes → Result Bytes
key kb bytes = slice kb_off_key (kb_off_key + kb.written) bytes
