-- ===== src/Document/Sound/Lists.antt =====
-- What a successful read of a section says of the bytes (program/src/state.rs, `Sections::parse`).
use bio_did_registry.Base.{
  ℕ, zero, suc, ◌-◌, ◌*◌, ◌^◌, ◌<◌, ◌≡◌, refl, sym, ap, ◌∙◌, List, [], ◌∷◌, ◌++◌, arith, length,
  All, take, drop, take-append-drop, length-take, length-drop, All-prefix, All-suffix,
}
use mathlib.Core.Path.{subst}
use bio_did_registry.Error.{ok}
use bio_did_registry.Bytes.{Bytes, IsByte, u32_le}
use bio_did_registry.Reader.{Source, Reader, Reading, ◌>>=◌, ◌>>◌, here, bytes, u32}
use bio_did_registry.Reader.Laws.{cursor, bytes_inv, u32_inv, bind_inv}
use bio_did_registry.State.Sections.{repeat}
use bio_did_registry.Document.{encode_all, raw, IsKey}
use bio_did_registry.Document.Sound.Entries.{Consumes, repeat_inv}

-- A string of `n` keys, one behind the other.
pub split_keys :
    (n : ℕ) (a : Bytes)
    → length a ≡ n * 32
    → All IsByte a
    → (ks : List Bytes) × (length ks ≡ n) × (a ≡ encode_all raw ks) × All IsKey ks
split_keys zero [] e h = ([], refl, refl, tt)
split_keys zero (x ∷ a) e h = absurd (omega arith)
split_keys (suc n) a e h =
    let front : All IsByte (take 32 a ++ drop 32 a) =
      subst (All IsByte) (sym (take-append-drop 32 a)) h in
    let (ks, n_eq, a_eq, keys) =
      split_keys n (drop 32 a) (omega (arith, length-drop 32 a))
        (All-suffix IsByte (take 32 a) (drop 32 a) front) in
    (
      take 32 a ∷ ks,
      ap suc n_eq,
      sym (take-append-drop 32 a) ∙ ap (λ b. take 32 a ++ b) a_eq,
      ((length-take 32 a (omega arith), All-prefix IsByte (take 32 a) (drop 32 a) front), keys),
    )

-- One section read back: its count, its entries, and what the rest of the walk sees.
pub section_inv :
    {A B : Type 0} (enc : A → Bytes) (P : A → Type 0) (body : Reading (Unit {0})) (s : Source)
    (len : ℕ) (k : ℕ → ℕ → Reading B) (rest : Bytes) (y : B) (r : Reader)
    → ((rest' : Bytes) (r' : Reader)
        → All IsByte rest'
        → body (cursor s len rest') ≡ ok (tt, r')
        → (x : A) × Consumes enc P s len rest' r' x)
    → All IsByte rest
    → (u32 >>= λ n. here >>= λ i. repeat n body >> k n i) (cursor s len rest) ≡ ok (y, r)
    → (xs : List A) × (b : Bytes) × (rest ≡ u32_le (length xs) ++ (encode_all enc xs ++ b))
      × (length xs < 2 ^ 32)
      × All P xs
      × All IsByte b
      × (k (length xs) (len - length (encode_all enc xs ++ b)) (cursor s len b) ≡ ok (y, r))
section_inv enc P body s len k rest y r step are_bytes h =
    let (n, t, e, g) =
      bind_inv u32 (λ n. here >>= λ i. repeat n body >> k n i) (cursor s len rest) h in
    let (at_t, split, small, back) = u32_inv s len n rest t are_bytes e in
    let (_, t₂, e₂, g₂) =
      bind_inv (repeat n body) (λ _. k n (len - length t.rest)) (cursor s len t.rest)
        (rw at_t at g) in
    let (xs, n_eq, (at_t₂, split₂, fits, back₂)) =
      repeat_inv enc P body s len step n t.rest t₂ back e₂ in
    (
      xs,
      t₂.rest,
      rw (n_eq, ← split₂) split,
      rw n_eq small,
      fits,
      back₂,
      rw (n_eq, ← split₂, ← at_t₂) g₂,
    )

-- The native controllers, which the walk skips as one block.
pub natives_inv :
    {B : Type 0} (s : Source) (len : ℕ) (k : ℕ → ℕ → Reading B) (rest : Bytes) (y : B) (r : Reader)
    → All IsByte rest
    → (u32 >>= λ n. here >>= λ i. bytes (n * 32) >> k n i) (cursor s len rest) ≡ ok (y, r)
    → (ks : List Bytes) × (b : Bytes) × (rest ≡ u32_le (length ks) ++ (encode_all raw ks ++ b))
      × (length ks < 2 ^ 32)
      × All IsKey ks
      × All IsByte b
      × (k (length ks) (len - length (encode_all raw ks ++ b)) (cursor s len b) ≡ ok (y, r))
natives_inv s len k rest y r are_bytes h =
    let (n, t, e, g) =
      bind_inv u32 (λ n. here >>= λ i. bytes (n * 32) >> k n i) (cursor s len rest) h in
    let (at_t, split, small, back) = u32_inv s len n rest t are_bytes e in
    let (a, t₂, e₂, g₂) =
      bind_inv (bytes (n * 32)) (λ _. k n (len - length t.rest)) (cursor s len t.rest)
        (rw at_t at g) in
    let (at_t₂, split₂, a_len) = bytes_inv s len (n * 32) t.rest a t₂ e₂ in
    let whole : All IsByte (a ++ t₂.rest) = subst (All IsByte) split₂ back in
    let (ks, n_eq, a_eq, keys) = split_keys n a a_len (All-prefix IsByte a t₂.rest whole) in
    (
      ks,
      t₂.rest,
      rw (n_eq, ← a_eq, ← split₂) split,
      rw n_eq small,
      keys,
      All-suffix IsByte a t₂.rest whole,
      rw (n_eq, ← a_eq, ← split₂, ← at_t₂) g₂,
    )
