-- ===== src/Reader/Laws.antt =====
-- What the cursor reads from bytes that were written, and what a successful read says of the bytes
-- (program/src/reader.rs).
use bio_did_registry.Base.{
  ℕ, zero, suc, ◌/◌, ◌%◌, ◌^◌, ◌<◌, ◌≡◌, refl, sym, ap, none, some, [], ◌∷◌, ◌++◌, arith, length,
  All, inl, inr, Option-cases, All-prefix, All-suffix,
}
use mathlib.Core.Path.{subst}
use native.Mathlib.Nat.{pow-suc}
use bio_did_registry.Error.{ok, >>=-eq-ok}
use bio_did_registry.Bytes.{Bytes, IsByte, from_le_bytes, to_le_bytes, u32_le, split_at_checked}
use bio_did_registry.Reader.{
  Source, Reader, Reading, ◌>>=◌, pure, bytes, uint, u8, u32, len_prefixed, finish,
}

-- A cursor in front of `rest`, in an input of `len` bytes.
abbrev pub cursor : Source → ℕ → Bytes → Reader
cursor s len rest = record { source = s; rest = rest; len = len }

pub split-append : (a b : Bytes) → split_at_checked (length a) (a ++ b) ≡ some (a, b)
unfolding split_at_checked
split-append [] b = refl
split-append (x ∷ a) b = rw (split-append a b)

pub split_sound :
    (n : ℕ) (xs a b : Bytes) → split_at_checked n xs ≡ some (a, b) → (xs ≡ a ++ b) × (length a ≡ n)
unfolding split_at_checked
split_sound zero xs a b h = ground arith
split_sound (suc n) [] a b h = cc
split_sound (suc n) (x ∷ xs) a b h =
    elim (split_at_checked n xs)
        as (λ o. split_at_checked n xs ≡ o → (x ∷ xs ≡ a ++ b) × (length a ≡ suc n)) [
          | none ↦ λ e. ground (arith, e)
          | some (c, d) ↦ λ e. ground (arith, e, split_sound n xs c d e)
        ]
      refl

-- The bytes that `bytes` returns are those in front, and the cursor moves behind them.
pub bytes_lem :
    (s : Source) (len n : ℕ) (a b : Bytes)
    → n ≡ length a
    → bytes n (cursor s len (a ++ b)) ≡ ok (a, cursor s len b)
unfolding bytes
bytes_lem s len n a b e = rw e (ground (arith, split-append a b))

pub bytes_inv :
    (s : Source) (len n : ℕ) (rest a : Bytes) (r : Reader)
    → bytes n (cursor s len rest) ≡ ok (a, r)
    → (r ≡ cursor s len r.rest) × (rest ≡ a ++ r.rest) × (length a ≡ n)
unfolding bytes
bytes_inv s len n rest a r h = elim (Option-cases (split_at_checked n rest)) [
  | inl e ↦ ground arith
  | inr ((c, d), e) ↦ ground (arith, split_sound n rest c d e)
]

pub from-to_le_bytes : (n v : ℕ) → v < 256 ^ n → from_le_bytes (to_le_bytes n v) ≡ v
unfolding from_le_bytes to_le_bytes
from-to_le_bytes zero v h = omega arith
from-to_le_bytes (suc n) v h =
    omega (arith, from-to_le_bytes n (v / 256) (omega (arith, pow-suc 256 n)))

pub to-from_le_bytes :
    (bs : Bytes) → All IsByte bs → to_le_bytes (length bs) (from_le_bytes bs) ≡ bs
unfolding from_le_bytes to_le_bytes
to-from_le_bytes [] h = refl
to-from_le_bytes (b ∷ bs) h = ground (arith, to-from_le_bytes bs h.1)

pub from_le_bytes-lt : (bs : Bytes) → All IsByte bs → from_le_bytes bs < 256 ^ length bs
unfolding from_le_bytes
from_le_bytes-lt [] h = omega arith
from_le_bytes-lt (b ∷ bs) h = omega (arith, pow-suc 256 (length bs), from_le_bytes-lt bs h.1)

pub length-to_le_bytes : (n v : ℕ) → length (to_le_bytes n v) ≡ n
unfolding to_le_bytes
length-to_le_bytes zero v = refl
length-to_le_bytes (suc n) v = ap suc (length-to_le_bytes n (v / 256))

pub to_le_bytes-IsByte : (n v : ℕ) → All IsByte (to_le_bytes n v)
unfolding to_le_bytes
to_le_bytes-IsByte zero v = tt
to_le_bytes-IsByte (suc n) v = (omega arith, to_le_bytes-IsByte n (v / 256))

-- A successful bind is two successful reads.
pub bind_inv :
    {A B : Type 0} (m : Reading A) (f : A → Reading B) (r : Reader) {y : B} {t : Reader}
    → (m >>= f) r ≡ ok (y, t)
    → (x : A) × (u : Reader) × (m r ≡ ok (x, u)) × (f x u ≡ ok (y, t))
bind_inv m f r h = let ((x, u), e, g) = >>=-eq-ok (m r) (λ p. f p.0 p.1) h in (x, u, e, g)

-- Reading back an integer of `n` bytes that fits.
pub uint_lem :
    (s : Source) (len n v : ℕ) (b : Bytes)
    → v < 256 ^ n
    → uint n (cursor s len (to_le_bytes n v ++ b)) ≡ ok (v, cursor s len b)
uint_lem s len n v b h =
    rw (bytes_lem s len n (to_le_bytes n v) b (sym (length-to_le_bytes n v)))
      (rw (from-to_le_bytes n v h))

pub uint_inv :
    (s : Source) (len n v : ℕ) (rest : Bytes) (r : Reader)
    → All IsByte rest
    → uint n (cursor s len rest) ≡ ok (v, r)
    → (r ≡ cursor s len r.rest)
      × (rest ≡ to_le_bytes n v ++ r.rest)
      × (v < 256 ^ n)
      × All IsByte r.rest
uint_inv s len n v rest r are_bytes h =
    let (bs, t, e, g) = bind_inv (bytes n) (λ b. pure (from_le_bytes b)) (cursor s len rest) h in
    let (at_t, split, n_bytes) = bytes_inv s len n rest bs t e in
    let whole : All IsByte (bs ++ t.rest) = subst (All IsByte) split are_bytes in
    let front : All IsByte bs = All-prefix IsByte bs t.rest whole in
    let back : All IsByte t.rest = All-suffix IsByte bs t.rest whole in
    let v_eq : from_le_bytes bs ≡ v = cc in
    let r_eq : t ≡ r = cc in
    (
      rw (← r_eq) at_t,
      rw (← r_eq, ← n_bytes, ← v_eq, to-from_le_bytes bs front) split,
      rw (← n_bytes, ← v_eq) (from_le_bytes-lt bs front),
      rw (← r_eq) back,
    )

-- A borsh `Vec<u8>` or `String` on the wire: its length in four bytes, then its bytes.
abbrev pub prefixed : Bytes → Bytes
prefixed b = u32_le (length b) ++ b

-- A length that four bytes can hold.
abbrev pub IsShort : Bytes → Type 0
IsShort b = (length b < 2 ^ 32) × All IsByte b

u32_le-id : (v : ℕ) → v < 2 ^ 32 → to_le_bytes 4 (v % 2 ^ 32) ≡ to_le_bytes 4 v
u32_le-id v h = ap (to_le_bytes 4) (omega arith)

pub u8_lem :
    (s : Source) (len x : ℕ) (b : Bytes) → u8 (cursor s len (x ∷ b)) ≡ ok (x, cursor s len b)
unfolding bytes split_at_checked from_le_bytes
u8_lem s len x b = ground arith

pub u32_lem :
    (s : Source) (len v : ℕ) (b : Bytes)
    → v < 2 ^ 32
    → u32 (cursor s len (u32_le v ++ b)) ≡ ok (v, cursor s len b)
u32_lem s len v b h = rw (u32_le-id v h) (uint_lem s len 4 v b h)

pub u32_inv :
    (s : Source) (len v : ℕ) (rest : Bytes) (r : Reader)
    → All IsByte rest
    → u32 (cursor s len rest) ≡ ok (v, r)
    → (r ≡ cursor s len r.rest) × (rest ≡ u32_le v ++ r.rest) × (v < 2 ^ 32) × All IsByte r.rest
u32_inv s len v rest r are_bytes h =
    let (at_r, split, small, back) = uint_inv s len 4 v rest r are_bytes h in
    (at_r, rw (u32_le-id v small) split, small, back)

-- A length-prefixed string that was written is read back.
pub len_prefixed_lem :
    (s : Source) (len : ℕ) (a b : Bytes)
    → length a < 2 ^ 32
    → len_prefixed (cursor s len (u32_le (length a) ++ (a ++ b))) ≡ ok (a, cursor s len b)
unfolding len_prefixed
len_prefixed_lem s len a b h =
    rw (u32_lem s len (length a) (a ++ b) h) (bytes_lem s len (length a) a b refl)

pub len_prefixed_inv :
    (s : Source) (len : ℕ) (a rest : Bytes) (r : Reader)
    → All IsByte rest
    → len_prefixed (cursor s len rest) ≡ ok (a, r)
    → (r ≡ cursor s len r.rest)
      × (rest ≡ u32_le (length a) ++ (a ++ r.rest))
      × IsShort a
      × All IsByte r.rest
unfolding len_prefixed
len_prefixed_inv s len a rest r are_bytes h =
    let (n, t, e, g) = bind_inv u32 (λ n. bytes n) (cursor s len rest) h in
    let (at_t, split, small, back) = u32_inv s len n rest t are_bytes e in
    let (at_r, split', n_bytes) = bytes_inv s len n t.rest a r (rw at_t at g) in
    let whole : All IsByte (a ++ r.rest) = subst (All IsByte) split' back in
    (
      at_r,
      rw (n_bytes, ← split') split,
      (rw n_bytes small, All-prefix IsByte a r.rest whole),
      All-suffix IsByte a r.rest whole,
    )

-- Nothing is left where the reads are finished.
pub finish_inv :
    (s : Source) (len : ℕ) (rest : Bytes) (r : Reader)
    → finish (cursor s len rest) ≡ ok (tt, r)
    → rest ≡ []
unfolding finish
finish_inv s len [] r h = refl
finish_inv s len (b ∷ bs) r h = cc
