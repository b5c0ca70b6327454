-- ===== src/Utf8.antt =====
-- `core::str::from_utf8`, which `Reader::str` calls: the well-formed byte sequences of UTF-8.
use bio_did_registry.Base.{
  ℕ, ◌-◌, ◌≡◌, ◌<◌, Bool, true, false, ◌&&◌, Option, none, some, [], ◌∷◌, arith, leb, ltb, ◌==◌,
  if◌then◌else◌, All,
}
use bio_did_registry.Bytes.{Bytes}

-- Between two bytes: how many continuation bytes are still due, and the range of the next one.
record Utf8 : Type 0 where
  due : ℕ
  lo : ℕ
  hi : ℕ

abbrev due_bytes : ℕ → ℕ → ℕ → Option Utf8
due_bytes due lo hi = some (record { due = due; lo = lo; hi = hi })

abbrev first_byte : ℕ → Option Utf8
first_byte b =
    if ltb b 0x80
    then due_bytes 0 0 0
    else if leb 0xc2 b && leb b 0xdf
    then due_bytes 1 0x80 0xbf
    else if b == 0xe0
    then due_bytes 2 0xa0 0xbf
    else if b == 0xed
    then due_bytes 2 0x80 0x9f
    else if leb 0xe1 b && leb b 0xef
    then due_bytes 2 0x80 0xbf
    else if b == 0xf0
    then due_bytes 3 0x90 0xbf
    else if leb 0xf1 b && leb b 0xf3
    then due_bytes 3 0x80 0xbf
    else if b == 0xf4
    then due_bytes 3 0x80 0x8f
    else none

abbrev next_byte : Utf8 → ℕ → Option Utf8
next_byte s b =
    if s.due == 0
    then first_byte b
    else if leb s.lo b && leb b s.hi
    then due_bytes (s.due - 1) 0x80 0xbf
    else none

valid_from : Utf8 → Bytes → Bool
valid_from s [] = s.due == 0
valid_from s (b ∷ bs) = elim (next_byte s b) [ none ↦ false | some t ↦ valid_from t bs ]

unfoldable pub from_utf8 : Bytes → Bool
unfolding valid_from
from_utf8 bs = valid_from (record { due = 0; lo = 0; hi = 0 }) bs

valid_from-ascii :
    (bs : Bytes) (s : Utf8) → s.due ≡ 0 → All (λ b. b < 0x80) bs → valid_from s bs ≡ true
unfolding valid_from
valid_from-ascii [] s h a = ground arith
valid_from-ascii (b ∷ bs) s h a =
    ground (arith, valid_from-ascii bs (record { due = 0; lo = 0; hi = 0 }) (omega arith) a.1)

-- Every ASCII text is valid.
pub from_utf8-ascii : (bs : Bytes) → All (λ b. b < 0x80) bs → from_utf8 bs ≡ true
unfolding from_utf8
from_utf8-ascii bs a = valid_from-ascii bs (record { due = 0; lo = 0; hi = 0 }) (omega arith) a
