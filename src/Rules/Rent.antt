-- ===== src/Rules/Rent.antt =====
-- What the rent settlement does to the lamports (program/src/instructions/shared.rs).
use bio_did_registry.Base.{
  ℕ, ◌+◌, ◌-◌, ◌≡◌, refl, sym, ap, ◌∙◌, false, Bool-cases, inl, inr, ltb, bytes_eq, bytes_eq_refl,
  arith, ◌^◌,
}
use bio_did_registry.Error.{Result, ok, err, ok_or, ok_injective, >>=-eq-ok, arithmetic_overflow}
use bio_did_registry.Bytes.{Bytes}
use bio_did_registry.Runtime.{
  Runtime, Store, Act, ◌>>=◌, ◌>>◌, lift, account, set_lamports, checked_u64,
}
use bio_did_registry.Instructions.Shared.{rent_minimum_balance, settle_to, settle_rent}
use bio_did_registry.Rules.Authorization.{lift_then}
use bio_did_registry.Rules.Additions.{bytes_eq_sym}

-- A transfer of the system program takes from one account what it gives to the other.
abbrev pub MovesLamports : Runtime → Type 0
MovesLamports rt =
    (from to : Bytes) (n : ℕ) (s t : Store)
    → bytes_eq from to ≡ false
    → rt.transfer from to n s ≡ ok t
    → ((t.accounts to).lamports ≡ (s.accounts to).lamports + n)
      × ((t.accounts from).lamports + n ≡ (s.accounts from).lamports)

-- The account has `m` lamports, and the two of them as many as before.
abbrev pub Settled : Bytes → Bytes → ℕ → Store → Store → Type 0
Settled a payer m s t =
    ((t.accounts a).lamports ≡ m)
    × ((t.accounts a).lamports + (t.accounts payer).lamports
        ≡ (s.accounts a).lamports + (s.accounts payer).lamports)

lamports_set :
    (x : Bytes) (n : ℕ) (s : Store) (q : Unit {0} × Store)
    → set_lamports x n s ≡ ok q
    → ((q.1.accounts x).lamports ≡ n)
      × ((c : Bytes) → bytes_eq x c ≡ false → (q.1.accounts c).lamports ≡ (s.accounts c).lamports)
lamports_set x n s q h = (
  ap (λ p. (p.1.accounts x).lamports) (sym (ok_injective h)) ∙ rw (bytes_eq_refl x) refl,
  λ c other. ap (λ p. (p.1.accounts c).lamports) (sym (ok_injective h)) ∙ rw other refl,
)

checked_sum : (m n : ℕ) → ok_or (checked_u64 m) arithmetic_overflow ≡ ok n → n ≡ m
checked_sum m n h = elim (Bool-cases (ltb m (2 ^ 64))) [
  | inl fits ↦ sym (ok_injective (rw fits at h))
  | inr over ↦ absurd (refused (sym (rw over at h)))
]
  where
    refused : {n : ℕ} → ok n ≡ err arithmetic_overflow → ⊥
    refused e = cc

refunded :
    (a payer : Bytes) (m refund : ℕ) (s : Store) (r : Unit {0} × Store)
    → bytes_eq payer a ≡ false
    → (s.accounts a).lamports ≡ m + refund
    → (set_lamports a m
          >> (account payer >>= λ p.
              lift (ok_or (checked_u64 (p.lamports + refund)) arithmetic_overflow) >>= λ credited.
              set_lamports payer credited))
        s
      ≡ ok r
    → Settled a payer m s r.1
refunded a payer m refund s r apart e h =
    let sum : ℕ → Result ℕ = λ n. ok_or (checked_u64 (n + refund)) arithmetic_overflow in
    let credit : Act (Unit {0}) =
      account payer >>= λ p. lift (sum p.lamports) >>= λ credited. set_lamports payer credited in
    let ((u, t), taken, h₁) = >>=-eq-ok (set_lamports a m s) (λ p. credit p.1) h in
    let (credited, in_range, h₂) =
      lift_then (sum (t.accounts payer).lamports) (λ credited. set_lamports payer credited) t r
        h₁ in
    let (left, others) = lamports_set a m s (u, t) taken in
    let (given, others') = lamports_set payer credited t r h₂ in
    let exact = checked_sum _ credited in_range in
    let at_a : (r.1.accounts a).lamports ≡ m = others' a apart ∙ left in
    (at_a, omega (arith, at_a, given, exact, e, others payer (bytes_eq_sym a payer ∙ apart)))

module _ (rt : Runtime) (moves : MovesLamports rt) where
  settle_to-Settled :
      (a payer : Bytes) (m : ℕ) (s : Store) (r : Unit {0} × Store)
      → bytes_eq payer a ≡ false
      → settle_to rt a payer m (s.accounts a).lamports s ≡ ok r
      → Settled a payer m s r.1
  unfolding settle_to
  settle_to-Settled a payer m s r apart h =
      let current = (s.accounts a).lamports in
      elim (Bool-cases (ltb current m)) [
        | inl more ↦
            let (t, paid, ended) =
              >>=-eq-ok (rt.transfer payer a (m - current) s) (λ t. ok (tt, t)) (rw more at h) in
            let (got, gave) = moves payer a (m - current) s t apart paid in
            let same : t ≡ r.1 = ap (λ p. p.1) (ok_injective ended) in
            rw (← same) (ground (arith, more, got, gave))
        | inr enough ↦ elim (Bool-cases (ltb m current)) [
          | inl less ↦
              refunded a payer m (current - m) s r apart (ground (arith, less))
                (rw less at (rw enough at h))
          | inr equal ↦
              let same : s ≡ r.1 = ap (λ p. p.1) (ok_injective (rw equal at (rw enough at h))) in
              rw (← same) (ground (arith, enough, equal))
        ]
      ]

  -- Where transfers take from one account what they give to the other, and the settlement
  -- succeeds for a payer that is another account, the account has exactly the minimum for `n`
  -- bytes, and it and the payer have together as many lamports as before.
  pub settle_rent-Settled :
      (a payer : Bytes) (n : ℕ) (s : Store) (r : Unit {0} × Store)
      → bytes_eq payer a ≡ false
      → settle_rent rt a payer n s ≡ ok r
      → (m : ℕ) × (rent_minimum_balance rt n ≡ ok m) × Settled a payer m s r.1
  unfolding settle_rent
  settle_rent-Settled a payer n s r apart h =
      let (m, priced, h₁) =
        lift_then (rent_minimum_balance rt n)
          (λ m. account a >>= λ v. settle_to rt a payer m v.lamports) s r h in
      (m, priced, settle_to-Settled a payer m s r apart h₁)
