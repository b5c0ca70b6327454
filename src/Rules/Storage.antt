-- ===== src/Rules/Storage.antt =====
-- What the moves of lamports, the resizes and the log leave of the accounts' bytes
-- (program/src/instructions/shared.rs and program/src/events.rs).
use bio_did_registry.Base.{
  ℕ, ◌+◌, ◌-◌, ◌^◌, ◌<◌, ◌≤◌, ◌≡◌, refl, sym, ap, subst, ◌∙◌, Bool-cases, inl, inr, ◌++◌, length,
  take, ltb, bytes_eq, bytes_eq_sound, bytes_eq_refl,
}
use bio_did_registry.Error.{Result, ok, ok_or, ok_injective, >>=-eq-ok, arithmetic_overflow}
use bio_did_registry.Bytes.{Bytes}
use bio_did_registry.Runtime.{
  Runtime, AccountView, Store, Act, ◌>>=◌, ◌>>◌, pure, lift, account, put, edit, set_lamports,
  resize_account, checked_u64, log_data,
}
use bio_did_registry.Events.{emit, event_bytes}
use bio_did_registry.Instructions.Shared.{
  rent_minimum_balance, settle_to, settle_rent, grow, shrink,
}
use bio_did_registry.Rules.Authorization.{lift_then}

-- What the program relies on of the calls that it does not implement.
pub record RuntimeLaws (rt : Runtime) : Type 0 where
  -- `resize` keeps what fits, and grows at the end.
  pub shrinks :
      (n : ℕ) (v w : AccountView)
      → n ≤ length v.content
      → rt.resize n v ≡ ok w
      → w.content ≡ take n v.content
  pub grows :
      (n : ℕ) (v w : AccountView)
      → length v.content ≤ n
      → rt.resize n v ≡ ok w
      → (g : Bytes) × (w.content ≡ v.content ++ g) × (length v.content + length g ≡ n)
  -- A transfer of lamports does not touch the bytes of any account.
  pub transfers :
      (from to : Bytes) (n : ℕ) (s t : Store) (c : Bytes)
      → rt.transfer from to n s ≡ ok t
      → (t.accounts c).content ≡ (s.accounts c).content
  -- The clock is an `i64`.
  pub clock_range : (now : ℕ) → rt.unix_timestamp ≡ ok now → now < 2 ^ 64

-- The bytes of every account are the same.
abbrev pub SameContent : Store → Store → Type 0
SameContent s t = (c : Bytes) → (t.accounts c).content ≡ (s.accounts c).content

pub set_lamports-SameContent :
    (a : Bytes) (n : ℕ) (s : Store) (r : Unit {0} × Store)
    → set_lamports a n s ≡ ok r
    → SameContent s r.1
set_lamports-SameContent a n s r h c =
    let v = record (s.accounts a) { lamports = n } in
    ap (λ p. (p.1.accounts c).content) (sym (ok_injective h)) ∙ elim (Bool-cases (bytes_eq a c)) [
      | inl same ↦ rw same (ap (λ b. (s.accounts b).content) (bytes_eq_sound a c same))
      | inr other ↦ rw other refl
    ]

bind-SameContent :
    {A B : Type 0} (m : Act A) (k : A → Act B) (s : Store) (r : B × Store)
    → ((q : A × Store) → m s ≡ ok q → SameContent s q.1)
    → ((x : A) (t : Store) → k x t ≡ ok r → SameContent t r.1)
    → (m >>= k) s ≡ ok r
    → SameContent s r.1
bind-SameContent m k s r first second h c =
    let ((x, t), e, g) = >>=-eq-ok (m s) (λ p. k p.0 p.1) h in second x t g c ∙ first (x, t) e c

refund-SameContent :
    (a payer : Bytes) (new_min refund : ℕ) (s : Store) (r : Unit {0} × Store)
    → (set_lamports a new_min
          >> (account payer >>= λ p.
              lift (ok_or (checked_u64 (p.lamports + refund)) arithmetic_overflow) >>= λ credited.
              set_lamports payer credited))
        s
      ≡ ok r
    → SameContent s r.1
refund-SameContent a payer new_min refund s r h =
    let sum : ℕ → Result ℕ = λ n. ok_or (checked_u64 (n + refund)) arithmetic_overflow in
    let credit : Act (Unit {0}) =
      account payer >>= λ p. lift (sum p.lamports) >>= λ credited. set_lamports payer credited in
    bind-SameContent (set_lamports a new_min) (λ _. credit) s r
      (set_lamports-SameContent a new_min s)
      (λ u t h₁.
        let (credited, in_range, h₂) =
          lift_then (sum (t.accounts payer).lamports) (λ credited. set_lamports payer credited) t r
            h₁ in
        set_lamports-SameContent payer credited t r h₂)
      h

module _ (rt : Runtime) (laws : RuntimeLaws rt) where
  settle_to-SameContent :
      (a payer : Bytes) (new_min current : ℕ) (s : Store) (r : Unit {0} × Store)
      → settle_to rt a payer new_min current s ≡ ok r
      → SameContent s r.1
  unfolding settle_to
  settle_to-SameContent a payer new_min current s r h c = elim (Bool-cases (ltb current new_min)) [
    | inl more ↦
        let (t, paid, ended) =
          >>=-eq-ok (rt.transfer payer a (new_min - current) s) (λ t. ok (tt, t)) (rw more at h) in
        ap (λ p. (p.1.accounts c).content) (sym (ok_injective ended))
        ∙ laws.transfers payer a (new_min - current) s t c paid
    | inr enough ↦ elim (Bool-cases (ltb new_min current)) [
      | inl less ↦
          refund-SameContent a payer new_min (current - new_min) s r (rw less at (rw enough at h)) c
      | inr equal ↦
          ap (λ p. (p.1.accounts c).content) (sym (ok_injective (rw equal at (rw enough at h))))
    ]
  ]

  pub settle_rent-SameContent :
      (a payer : Bytes) (n : ℕ) (s : Store) (r : Unit {0} × Store)
      → settle_rent rt a payer n s ≡ ok r
      → SameContent s r.1
  unfolding settle_rent
  settle_rent-SameContent a payer n s r h =
      let (new_min, priced, h₁) =
        lift_then (rent_minimum_balance rt n)
          (λ m. account a >>= λ v. settle_to rt a payer m v.lamports) s r h in
      settle_to-SameContent a payer new_min (s.accounts a).lamports s r h₁

  -- The account that is resized, then settled, holds what the resize left.
  pub shrink-content :
      (a payer : Bytes) (n : ℕ) (s : Store) (r : Unit {0} × Store)
      → n ≤ length (s.accounts a).content
      → shrink rt a payer n s ≡ ok r
      → (r.1.accounts a).content ≡ take n (s.accounts a).content
  unfolding shrink
  shrink-content a payer n s r fits h =
      let ((u, t), resized, h₁) =
        >>=-eq-ok (resize_account rt a n s) (λ p. settle_rent rt a payer n p.1) h in
      let (w, made, h₂) = lift_then (rt.resize n (s.accounts a)) (λ w. put a w) s (u, t) resized in
      let stored : (t.accounts a).content ≡ w.content =
        ap (λ q. (q.1.accounts a).content) (sym (ok_injective h₂)) ∙ rw (bytes_eq_refl a) refl in
      settle_rent-SameContent a payer n t r h₁ a
      ∙ (stored ∙ laws.shrinks n (s.accounts a) w fits made)

  pub grow-content :
      (a payer : Bytes) (n : ℕ) (s : Store) (r : Unit {0} × Store)
      → length (s.accounts a).content ≤ n
      → grow rt a payer n s ≡ ok r
      → (g : Bytes) × ((r.1.accounts a).content ≡ (s.accounts a).content ++ g)
        × (length (s.accounts a).content + length g ≡ n)
  unfolding grow
  grow-content a payer n s r fits h =
      let ((u, t), settled, h₁) =
        >>=-eq-ok (settle_rent rt a payer n s) (λ p. resize_account rt a n p.1) h in
      let same = settle_rent-SameContent a payer n s (u, t) settled a in
      let (w, made, h₂) = lift_then (rt.resize n (t.accounts a)) (λ w. put a w) t r h₁ in
      let (g, larger, size) =
        laws.grows n (t.accounts a) w (subst (λ b. length b ≤ n) (sym same) fits) made in
      let stored : (r.1.accounts a).content ≡ w.content =
        ap (λ q. (q.1.accounts a).content) (sym (ok_injective h₂)) ∙ rw (bytes_eq_refl a) refl in
      (g, stored ∙ (larger ∙ ap (λ b. b ++ g) same), subst (λ b. length b + length g ≡ n) same size)

-- The edit of an account's bytes, and what runs behind it.
pub edit_then :
    {A B : Type 0} (a : Bytes) (f : Bytes → Result (Bytes × A)) (k : A → Act B) (s : Store)
    (r : B × Store)
    → (edit a f >>= k) s ≡ ok r
    → (p : Bytes × A) × (t : Store) × (f (s.accounts a).content ≡ ok p)
      × ((t.accounts a).content ≡ p.0)
      × (k p.1 t ≡ ok r)
edit_then a f k s r h =
    let ((x, t), edited, h₁) = >>=-eq-ok (edit a f s) (λ p. k p.0 p.1) h in
    let (p, made, h₂) =
      lift_then (f (s.accounts a).content)
        (λ p. put a (record (s.accounts a) { content = p.0 }) >> pure p.1) s (x, t) edited in
    let value : p.1 ≡ x = ap (λ q. q.0) (ok_injective h₂) in
    (
      p,
      t,
      made,
      ap (λ q. (q.1.accounts a).content) (sym (ok_injective h₂)) ∙ rw (bytes_eq_refl a) refl,
      subst (λ y. k y t ≡ ok r) (sym value) h₁,
    )

pub emit-SameContent :
    (event a subject : Bytes) (version : ℕ) (s : Store) (r : Unit {0} × Store)
    → emit event a subject version s ≡ ok r
    → SameContent s r.1
unfolding emit
emit-SameContent event a subject version s r h c =
    let (buf, filled, h₁) =
      lift_then (event_bytes event a subject version) (λ buf. log_data buf) s r h in
    ap (λ q. (q.1.accounts c).content) (sym (ok_injective h₁))
