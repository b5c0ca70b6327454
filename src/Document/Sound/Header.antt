-- ===== src/Document/Sound/Header.antt =====
-- Any bytes of the length of a header are one (program/src/state.rs, `DidAccountHeader`).
use bio_did_registry.Base.{
  ℕ, ◌+◌, ◌^◌, ◌<◌, ◌≡◌, refl, sym, ap, ◌∙◌, [], ◌∷◌, ◌++◌, arith, length, All, take, drop,
  take-append-drop, length-take, length-drop, All-prefix, All-suffix,
}
use mathlib.Core.Path.{subst}
use bio_did_registry.Bytes.{Bytes, IsByte, from_le_bytes, u64_le}
use bio_did_registry.Reader.Laws.{to-from_le_bytes, from_le_bytes-lt}
use bio_did_registry.State.Consts.{off_sections}
use bio_did_registry.Document.{Document, encode_header, IsKey}

-- The first `n` bytes of a string of `n + m`, and the rest.
pub cut :
    (n m : ℕ) (a : Bytes)
    → length a ≡ n + m
    → All IsByte a
    → (b c : Bytes) × (a ≡ b ++ c) × (length b ≡ n) × (length c ≡ m) × All IsByte b × All IsByte c
cut n m a h are_bytes =
    let whole : All IsByte (take n a ++ drop n a) =
      subst (All IsByte) (sym (take-append-drop n a)) are_bytes in
    (
      take n a,
      drop n a,
      sym (take-append-drop n a),
      length-take n a (omega arith),
      omega (arith, length-drop n a),
      All-prefix IsByte (take n a) (drop n a) whole,
      All-suffix IsByte (take n a) (drop n a) whole,
    )

pub record FitHeader (d : Document) : Type 0 where
  pub discriminator_len : length d.discriminator ≡ 8
  pub discriminator_bytes : All IsByte d.discriminator
  pub version_range : d.version < 2 ^ 64
  pub bump_range : IsByte d.bump
  pub subject_key : IsKey d.subject
  pub deactivated_range : IsByte d.deactivated
  pub updated_at_range : d.updated_at < 2 ^ 64

pub u64_bytes :
    (b : Bytes)
    → length b ≡ 8
    → All IsByte b
    → (u64_le (from_le_bytes b) ≡ b) × (from_le_bytes b < 2 ^ 64)
u64_bytes b e h = (rw e at (to-from_le_bytes b h), rw e at (from_le_bytes-lt b h))

pub join_header :
    (d : Document) (a b c e g i j k : Bytes)
    → a ≡ d.discriminator ++ b
    → b ≡ k ++ c
    → u64_le d.version ≡ k
    → c ≡ (d.bump ∷ []) ++ e
    → e ≡ d.subject ++ g
    → g ≡ (d.deactivated ∷ []) ++ i
    → u64_le d.updated_at ≡ i
    → a ≡ encode_header d
join_header d a b c e g i j k p q f l m n o = rw (p, q, l, m, n) (rw (← f, ← o))

pub singleton-IsByte : (b : Bytes) → length b ≡ 1 → All IsByte b → (x : ℕ) × (b ≡ x ∷ []) × IsByte x
singleton-IsByte [] e h = absurd (omega arith)
singleton-IsByte (x ∷ []) e h = (x, refl, h.0)
singleton-IsByte (x ∷ y ∷ b) e h = absurd (omega arith)

pub split_header :
    (a : Bytes)
    → length a ≡ off_sections
    → All IsByte a
    → (d : Document) × FitHeader d × (a ≡ encode_header d)
split_header a h are_bytes =
    let (disc, b, p, disc_len, b_len, disc_bytes, b_bytes) = cut 8 50 a h are_bytes in
    let (k, c, q, k_len, c_len, k_bytes, c_bytes) = cut 8 42 b b_len b_bytes in
    let (u, e, l, u_len, e_len, u_bytes, e_bytes) = cut 1 41 c c_len c_bytes in
    let (bump, u_eq, bump_byte) = singleton-IsByte u u_len u_bytes in
    let (subject, g, m, subject_len, g_len, subject_bytes, g_bytes) = cut 32 9 e e_len e_bytes in
    let (w, i, n, w_len, i_len, w_bytes, i_bytes) = cut 1 8 g g_len g_bytes in
    let (deactivated, w_eq, deactivated_byte) = singleton-IsByte w w_len w_bytes in
    let (k_eq, k_small) = u64_bytes k k_len k_bytes in
    let (i_eq, i_small) = u64_bytes i i_len i_bytes in
    let d : Document = record {
      discriminator = disc;
      version = from_le_bytes k;
      bump = bump;
      subject = subject;
      deactivated = deactivated;
      updated_at = from_le_bytes i;
      native_controllers = [];
      other_controllers = [];
      verification_methods = [];
      services = [];
    } in
    (
      d,
      record {
        discriminator_len = disc_len;
        discriminator_bytes = disc_bytes;
        version_range = k_small;
        bump_range = bump_byte;
        subject_key = (subject_len, subject_bytes);
        deactivated_range = deactivated_byte;
        updated_at_range = i_small;
      },
      join_header d a b c e g i [] k p q k_eq (l ∙ ap (λ t. t ++ e) u_eq) m
          (n ∙ ap (λ t. t ++ i) w_eq) i_eq,
    )
