-- ===== src/Reader.antt =====
-- The cursor over account data and instruction arguments (program/src/reader.rs).
pub mod Laws
pub mod Offsets
use bio_did_registry.Base.{
  ℕ, ◌+◌, ◌-◌, ◌≤◌, Bool, true, false, Option, none, some, List, [], ◌∷◌, length, drop, leb,
  if◌then◌else◌,
}
use bio_did_registry.Error.{
  ProgramError, invalid_account_data, invalid_instruction_data, Result, ok, err, panic,
}
use bio_did_registry.Error
use bio_did_registry.Bytes.{Bytes, from_le_bytes, split_at_checked}
use bio_did_registry.Utf8.{from_utf8}

-- The two implementations of the trait `Source`.
pub data Source : Type 0 where
  account args : Source

-- `Source::ERROR`
abbrev pub error : Source → ProgramError
error account = invalid_account_data
error args = invalid_instruction_data

pub record Reader : Type 0 where
  pub source : Source
  pub rest : Bytes
  pub len : ℕ

-- `Reader::new`
abbrev pub new : Source → Bytes → Reader
new s bytes = record { source = s; rest = bytes; len = length bytes }

-- `data.get(offset..)`
abbrev pub get_from : Bytes → ℕ → Option Bytes
get_from bytes offset = if leb offset (length bytes) then some (drop offset bytes) else none

-- `Reader::at`
unfoldable pub at : Source → Bytes → ℕ → Result Reader
at s bytes offset = elim (get_from bytes offset) [
  | none ↦ err (error s)
  | some rest ↦ ok (record { source = s; rest = rest; len = length bytes })
]

-- `Reader::offset`
abbrev pub offset : Reader → ℕ
offset r = r.len - length r.rest

-- `Reader::remaining`
abbrev pub remaining : Reader → Bytes
remaining r = r.rest

-- What a read makes of the cursor: the value and the cursor behind it, or an error.
abbrev pub Reading : Type 0 → Type 0
Reading A = Reader → Result (A × Reader)

abbrev pub pure : {A : Type 0} → A → Reading A
pure a r = ok (a, r)

infixl 5 ◌>>=◌ ◌>>◌
abbrev pub ◌>>=◌ : {A B : Type 0} → Reading A → (A → Reading B) → Reading B
◌>>=◌ m f r = Error.◌>>=◌ (m r) (λ p. f p.0 p.1)

abbrev pub ◌>>◌ : {A B : Type 0} → Reading A → Reading B → Reading B
m >> k = m >>= λ _. k

-- The cursor's offset, between two reads.
abbrev pub here : Reading ℕ
here r = ok (offset r, r)

-- `Reader::bytes`, and `Reader::array` at a fixed length.
unfoldable pub bytes : ℕ → Reading Bytes
bytes n r = elim (split_at_checked n r.rest) [
  | none ↦ err (error r.source)
  | some (head, rest) ↦ ok (head, record r { rest = rest })
]

abbrev pub array : ℕ → Reading Bytes
array = bytes

-- `Reader::u8`, `u16`, `u32` and `u64`
abbrev pub uint : ℕ → Reading ℕ
uint n = array n >>= λ b. pure (from_le_bytes b)

abbrev pub u8 : Reading ℕ
u8 = uint 1

abbrev pub u16 : Reading ℕ
u16 = uint 2

abbrev pub u32 : Reading ℕ
u32 = uint 4

abbrev pub u64 : Reading ℕ
u64 = uint 8

-- `Reader::len_prefixed`
unfoldable pub len_prefixed : Reading Bytes
len_prefixed = do len ← u32; bytes len

-- `Reader::str`
unfoldable pub str : Reading Bytes
unfolding len_prefixed
str = do
  payload ← len_prefixed
  λ r. if from_utf8 payload then ok (payload, r) else err invalid_instruction_data

-- `Reader::finish`
unfoldable pub finish : Reading (Unit {0})
finish r = elim r.rest [ [] ↦ ok (tt, r) | b ∷ bs ↦ err (error r.source) ]
