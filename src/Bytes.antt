-- ===== src/Bytes.antt =====
-- Byte strings: little-endian integers, and the slice operations of the language that edit account
-- data in place. A slice index out of range panics.
pub mod Slices
pub mod Frame
use bio_did_registry.Base.{
  ℕ, zero, suc, ◌+◌, ◌-◌, ◌*◌, ◌/◌, ◌%◌, ◌^◌, ◌<◌, ◌&&◌, Option, none, some, List, [], ◌∷◌, ◌++◌,
  length, take, drop, replicate, leb, if◌then◌else◌,
}
use bio_did_registry.Error.{Result, ok, panic}

abbrev pub Bytes : Type 0
Bytes = List ℕ

abbrev pub IsByte : ℕ → Type 0
IsByte b = b < 256

-- `uN::from_le_bytes`
unfoldable pub from_le_bytes : Bytes → ℕ
from_le_bytes [] = 0
from_le_bytes (b ∷ bs) = b + 256 * from_le_bytes bs

-- `to_le_bytes` of an integer of `n` bytes.
unfoldable pub to_le_bytes : ℕ → ℕ → Bytes
to_le_bytes zero v = []
to_le_bytes (suc n) v = v % 256 ∷ to_le_bytes n (v / 256)

-- `(v as u32).to_le_bytes()` and `v.to_le_bytes()` for a `u16` and a `u64`.
abbrev pub u32_le : ℕ → Bytes
u32_le v = to_le_bytes 4 (v % 2 ^ 32)

abbrev pub u16_le : ℕ → Bytes
u16_le v = to_le_bytes 2 v

abbrev pub u64_le : ℕ → Bytes
u64_le v = to_le_bytes 8 v

-- `split_at_checked`
unfoldable pub split_at_checked : ℕ → Bytes → Option (Bytes × Bytes)
split_at_checked zero xs = some ([], xs)
split_at_checked (suc n) [] = none
split_at_checked (suc n) (x ∷ xs) = elim (split_at_checked n xs) [
  | none ↦ none
  | some (a, b) ↦ some (x ∷ a, b)
]

-- `data[at..at + src.len()].copy_from_slice(src)`
unfoldable pub copy_from_slice : ℕ → Bytes → Bytes → Result Bytes
copy_from_slice at src bytes =
    if leb (at + length src) (length bytes)
    then ok (take at bytes ++ (src ++ drop (at + length src) bytes))
    else panic

-- `data.copy_within(from..to, dest)`
unfoldable pub copy_within : ℕ → ℕ → ℕ → Bytes → Result Bytes
copy_within from to dest bytes =
    if leb from to && leb to (length bytes) && leb (dest + (to - from)) (length bytes)
    then ok
        (take dest bytes ++ (take (to - from) (drop from bytes) ++ drop (dest + (to - from)) bytes))
    else panic

-- `&data[from..to]`
unfoldable pub slice : ℕ → ℕ → Bytes → Result Bytes
slice from to bytes =
    if leb from to && leb to (length bytes) then ok (take (to - from) (drop from bytes)) else panic

-- `data[at] = v`
abbrev pub set_byte : ℕ → ℕ → Bytes → Result Bytes
set_byte at v = copy_from_slice at (v ∷ [])

-- `data[from..to].fill(v)`
unfoldable pub fill : ℕ → ℕ → ℕ → Bytes → Result Bytes
fill from to v bytes =
    if leb from to then copy_from_slice from (replicate (to - from) v) bytes else panic
