-- ===== src/Document/Sound/Entries.antt =====
-- What a successful read of an entry says of the bytes (program/src/state.rs, `Sections::parse`).
use bio_did_registry.Base.{
  ℕ, zero, suc, ◌+◌, ◌^◌, ◌<◌, ◌≡◌, refl, sym, ap, ◌∙◌, List, [], ◌∷◌, ◌++◌, arith, length, All,
  append_assoc, All-prefix, All-suffix,
}
use mathlib.Core.Path.{subst}
use bio_did_registry.Error.{ok}
use bio_did_registry.Bytes.{Bytes, IsByte, from_le_bytes, u16_le, u32_le}
use bio_did_registry.Reader.{Source, Reader, Reading, ◌>>◌, pure, bytes, len_prefixed}
use bio_did_registry.Reader.Laws.{
  cursor, bytes_inv, len_prefixed_inv, prefixed, IsShort, bind_inv, to-from_le_bytes,
  from_le_bytes-lt,
}
use bio_did_registry.State.Sections.{repeat, skip_controller, skip_vm, skip_service}
use bio_did_registry.Document.{
  VerificationMethod, Service, encode_vm, encode_service, encode_all, IsVm, IsService,
}

-- What a successful read of `x` says: the input was `enc x`, `x` fits, and the cursor is behind it.
abbrev pub Consumes :
    {A : Type 0} → (A → Bytes) → (A → Type 0) → Source → ℕ → Bytes → Reader → A → Type 0
Consumes enc P s len rest r x =
    (r ≡ cursor s len r.rest) × (rest ≡ enc x ++ r.rest) × P x × All IsByte r.rest

-- The cursor that a read returns is the one that it moved.
pub Consumes-along :
    {A : Type 0} (enc : A → Bytes) (P : A → Type 0) (s : Source) (len : ℕ) (rest : Bytes)
    {t r : Reader} {x : A}
    → t ≡ r
    → Consumes enc P s len rest t x
    → Consumes enc P s len rest r x
Consumes-along enc P s len rest {x} e c = subst (λ q. Consumes enc P s len rest q x) e c

pub repeat_inv :
    {A : Type 0} (enc : A → Bytes) (P : A → Type 0) (body : Reading (Unit {0})) (s : Source)
    (len : ℕ)
    → ((rest : Bytes) (r : Reader)
        → All IsByte rest
        → body (cursor s len rest) ≡ ok (tt, r)
        → (x : A) × Consumes enc P s len rest r x)
    → (n : ℕ) (rest : Bytes) (r : Reader) → All IsByte rest
    → repeat n body (cursor s len rest) ≡ ok (tt, r)
    → (xs : List A) × (length xs ≡ n) × Consumes (encode_all enc) (All P) s len rest r xs
unfolding repeat
repeat_inv enc P body s len step zero rest r are_bytes h =
    let same : cursor s len rest ≡ r = cc in ([], refl, rw (← same) (refl, refl, tt, are_bytes))
repeat_inv enc P body s len step (suc n) rest r are_bytes h =
    let (_, t, e, g) = bind_inv body (λ _. repeat n body) (cursor s len rest) h in
    let (x, (at_t, split, fits, back)) = step rest t are_bytes e in
    let (xs, n_eq, (at_r, split', fits', back')) =
      repeat_inv enc P body s len step n t.rest r back (rw at_t at g) in
    (
      x ∷ xs,
      ap suc n_eq,
      (
        at_r,
        split
            ∙ (ap (λ b. enc x ++ b) split' ∙ sym (append_assoc (enc x) (encode_all enc xs) r.rest)),
        (fits, fits'),
        back',
      ),
    )

pub skip_controller_inv :
    (s : Source) (len : ℕ) (rest : Bytes) (r : Reader)
    → All IsByte rest
    → skip_controller (cursor s len rest) ≡ ok (tt, r)
    → (c : Bytes) × Consumes prefixed IsShort s len rest r c
skip_controller_inv s len rest r are_bytes h =
    let (c, t, e, g) = bind_inv len_prefixed (λ _. pure tt) (cursor s len rest) h in
    let (at_t, split, short, back) = len_prefixed_inv s len c rest t are_bytes e in
    let same : t ≡ r = cc in
    (
      c,
      Consumes-along prefixed IsShort s len rest same
          (at_t, split ∙ sym (append_assoc (u32_le (length c)) c t.rest), short, back),
    )

-- The type tag and the flags, as the three bytes that the walk skips.
pub three_bytes :
    (a : Bytes)
    → length a ≡ 3
    → All IsByte a
    → (t f : ℕ) × (a ≡ t ∷ u16_le f) × IsByte t × (f < 2 ^ 16)
three_bytes [] e h = absurd (omega arith)
three_bytes (x ∷ []) e h = absurd (omega arith)
three_bytes (x ∷ y ∷ []) e h = absurd (omega arith)
three_bytes (x ∷ y ∷ z ∷ []) e h = (
  x,
  from_le_bytes (y ∷ z ∷ []),
  ap (λ b. x ∷ b) (sym (to-from_le_bytes (y ∷ z ∷ []) h.1)),
  h.0,
  from_le_bytes-lt (y ∷ z ∷ []) h.1,
)
three_bytes (x ∷ y ∷ z ∷ u ∷ w) e h = absurd (omega arith)

pub join_vm :
    (v : VerificationMethod) (rest b a c e : Bytes)
    → rest ≡ u32_le (length v.fragment) ++ (v.fragment ++ b)
    → b ≡ a ++ c
    → a ≡ v.method_type ∷ u16_le v.flags
    → c ≡ u32_le (length v.key) ++ (v.key ++ e)
    → rest ≡ encode_vm v ++ e
join_vm v rest b a c e p q f g = rw (p, q, f, g) (simp append_assoc)

pub join_service :
    (v : Service) (rest b c e : Bytes)
    → rest ≡ u32_le (length v.fragment) ++ (v.fragment ++ b)
    → b ≡ u32_le (length v.service_type) ++ (v.service_type ++ c)
    → c ≡ u32_le (length v.endpoint) ++ (v.endpoint ++ e)
    → rest ≡ encode_service v ++ e
join_service v rest b c e p q g = rw (p, q, g) (simp append_assoc)

pub skip_vm_inv :
    (s : Source) (len : ℕ) (rest : Bytes) (r : Reader)
    → All IsByte rest
    → skip_vm (cursor s len rest) ≡ ok (tt, r)
    → (v : VerificationMethod) × Consumes encode_vm IsVm s len rest r v
skip_vm_inv s len rest r are_bytes h =
    let (f, t, e, g) =
      bind_inv len_prefixed (λ _. bytes (1 + 2) >> (len_prefixed >> pure tt)) (cursor s len rest)
        h in
    let (at_t, split, f_short, back) = len_prefixed_inv s len f rest t are_bytes e in
    let (a, t₂, e₂, g₂) =
      bind_inv (bytes (1 + 2)) (λ _. len_prefixed >> pure tt) (cursor s len t.rest)
        (rw at_t at g) in
    let (at_t₂, split₂, three) = bytes_inv s len 3 t.rest a t₂ e₂ in
    let whole : All IsByte (a ++ t₂.rest) = subst (All IsByte) split₂ back in
    let (m, fl, a_eq, m_byte, fl_fits) = three_bytes a three (All-prefix IsByte a t₂.rest whole) in
    let (k, t₃, e₃, g₃) =
      bind_inv len_prefixed (λ _. pure tt) (cursor s len t₂.rest) (rw at_t₂ at g₂) in
    let (at_t₃, split₃, k_short, back₃) =
      len_prefixed_inv s len k t₂.rest t₃ (All-suffix IsByte a t₂.rest whole) e₃ in
    let same : t₃ ≡ r = cc in
    let v : VerificationMethod = record { fragment = f; method_type = m; flags = fl; key = k } in
    (
      v,
      Consumes-along encode_vm IsVm s len rest same (
        at_t₃,
        join_vm v rest t.rest a t₂.rest t₃.rest split split₂ a_eq split₃,
        (f_short, m_byte, fl_fits, k_short),
        back₃,
      ),
    )

pub skip_service_inv :
    (s : Source) (len : ℕ) (rest : Bytes) (r : Reader)
    → All IsByte rest
    → skip_service (cursor s len rest) ≡ ok (tt, r)
    → (v : Service) × Consumes encode_service IsService s len rest r v
skip_service_inv s len rest r are_bytes h =
    let (f, t, e, g) =
      bind_inv len_prefixed (λ _. len_prefixed >> (len_prefixed >> pure tt)) (cursor s len rest)
        h in
    let (at_t, split, f_short, back) = len_prefixed_inv s len f rest t are_bytes e in
    let (y, t₂, e₂, g₂) =
      bind_inv len_prefixed (λ _. len_prefixed >> pure tt) (cursor s len t.rest) (rw at_t at g) in
    let (at_t₂, split₂, y_short, back₂) = len_prefixed_inv s len y t.rest t₂ back e₂ in
    let (p, t₃, e₃, g₃) =
      bind_inv len_prefixed (λ _. pure tt) (cursor s len t₂.rest) (rw at_t₂ at g₂) in
    let (at_t₃, split₃, p_short, back₃) = len_prefixed_inv s len p t₂.rest t₃ back₂ e₃ in
    let same : t₃ ≡ r = cc in
    let v : Service = record { fragment = f; service_type = y; endpoint = p } in
    (
      v,
      Consumes-along encode_service IsService s len rest same (
        at_t₃,
        join_service v rest t.rest t₂.rest t₃.rest split split₂ split₃,
        (f_short, y_short, p_short),
        back₃,
      ),
    )
