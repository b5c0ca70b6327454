-- ===== src/Rules/Roles.antt =====
-- The flags of a method as the roles that they stand for (program/src/state.rs, the `VM_FLAG_`
-- constants).
pub mod Validation
use bio_did_registry.Base.{
  ℕ, zero, suc, ◌≡◌, ◌≤◌, ◌<◌, ◌+◌, ◌^◌, ◌==◌, ==_iff, ◌&&◌, ◌||◌, ◌∙◌, sym, ap, subst, refl, Bool,
  true, false, bit_and, bit_or, if◌then◌else◌, arith, inl, inr, ◌↔◌, not, Bool-cases, ltb, ltb→lt,
}
use native.Mathlib.Nat.{pow-suc}
use bio_did_registry.Error.{Result, ok, require, when, ◌>>◌, invalid_flags}
use bio_did_registry.Rules.{then_inv, require_ok}
use bio_did_registry.State.Consts.{
  vm_valid_mask, vm_relationship_mask, vm_flag_capability_invocation, vm_flag_protected,
  vm_flag_key_agreement,
}
use bio_did_registry.State.View.{has_flag}
use bio_did_registry.State.Checks.{validate_vm_flags, not_u16}

pub record Roles : Type 0 where
  pub authentication : Bool
  pub assertion : Bool
  pub key_agreement : Bool
  pub capability_invocation : Bool
  pub capability_delegation : Bool
  pub protected : Bool

abbrev bit : Bool → ℕ → ℕ
bit b n = if b then n else 0

abbrev pub flags_of : Roles → ℕ
flags_of ρ =
    bit ρ.authentication 0x1
    + (bit ρ.assertion 0x2
        + (bit ρ.key_agreement 0x4
            + (bit ρ.capability_invocation 0x8
                + (bit ρ.capability_delegation 0x10 + bit ρ.protected 0x100))))

-- What a method of a type may be used for. Types: Ed25519 0, X25519 1, secp256k1 2, Dilithium5 3.
pub record Suits (method_type : ℕ) (ρ : Roles) : Type 0 where
  -- Only an Ed25519 key invokes capabilities, or is protected.
  pub invokes : ρ.capability_invocation ≡ true → method_type ≡ 0
  pub protects : ρ.protected ≡ true → method_type ≡ 0
  -- What is protected invokes capabilities.
  pub governs : ρ.protected ≡ true → ρ.capability_invocation ≡ true
  -- An X25519 key does nothing but agree on keys.
  pub agrees :
      method_type ≡ 1
      → (ρ.authentication ≡ false)
        × (ρ.assertion ≡ false)
        × (ρ.capability_invocation ≡ false)
        × (ρ.capability_delegation ≡ false)
  -- And a Dilithium5 key does not.
  pub signs : method_type ≡ 3 → ρ.key_agreement ≡ false

-- The flags are those of roles that suit the type, without a bit of another meaning.
abbrev pub SuitFlags : ℕ → ℕ → Type 0
SuitFlags t f = (ρ : Roles) × (f ≡ flags_of ρ) × Suits t ρ

abbrev pub roles_of : ℕ → Roles
roles_of f = record {
  authentication = has_flag f 0x1;
  assertion = has_flag f 0x2;
  key_agreement = has_flag f 0x4;
  capability_invocation = has_flag f 0x8;
  capability_delegation = has_flag f 0x10;
  protected = has_flag f 0x100;
}

-- A test on the `2 ^ k` numbers from `n` on.
abbrev all_from : ℕ → (ℕ → Bool) → ℕ → Bool
all_from zero p n = p n
all_from (suc k) p n = all_from k p n && all_from k p (n + 2 ^ k)

both : (p q : Bool) → (p && q) ≡ true → (p ≡ true) × (q ≡ true)
both true q h = (refl, h)
both false q h = cc

all_from_sound :
    (k : ℕ) (p : ℕ → Bool) (n f : ℕ) → all_from k p n ≡ true → n ≤ f → f < n + 2 ^ k → p f ≡ true
all_from_sound zero p n f h low high =
    let same : n ≡ f = omega (arith, low, high) in subst (λ m. p m ≡ true) same h
all_from_sound (suc k) p n f h low high =
    let (front, back) = both (all_from k p n) (all_from k p (n + 2 ^ k)) h in
    elim (Bool-cases (ltb f (n + 2 ^ k))) [
      | inl less ↦ all_from_sound k p n f front low (ltb→lt _ _ less)
      | inr more ↦
          all_from_sound k p (n + 2 ^ k) f back (ground arith) (omega (arith, high, pow-suc 2 k))
    ]

-- The flags without an unknown bit are those of their roles.
abbrev reads_back : ℕ → Bool
reads_back f = has_flag f (not_u16 vm_valid_mask) || f == flags_of (roles_of f)

all_read_back : all_from 16 reads_back 0 ≡ true
all_read_back = refl

-- The relationships but key agreement.
abbrev pub other_roles : Roles → Bool
other_roles ρ =
    ρ.authentication || (ρ.assertion || (ρ.capability_invocation || ρ.capability_delegation))

abbrev same : Bool → Bool → Bool
same p q = if p then q else not q

same_sound : (p q : Bool) → same p q ≡ true → p ≡ q
same_sound true q h = sym h
same_sound false true h = cc
same_sound false false h = refl

-- A test on both Booleans.
abbrev every : (Bool → Bool) → Bool
every p = p true && p false

every_sound : (p : Bool → Bool) → every p ≡ true → (b : Bool) → p b ≡ true
every_sound p h true = (both (p true) (p false) h).0
every_sound p h false = (both (p true) (p false) h).1

-- What the masks of `validate_vm_flags` read of the flags of given roles.
abbrev Masked : Roles → Type 0
Masked ρ =
    let f = flags_of ρ in
    (has_flag f (not_u16 vm_valid_mask) ≡ false)
    × (has_flag f (bit_or vm_flag_capability_invocation vm_flag_protected)
        ≡ (ρ.capability_invocation || ρ.protected))
    × (has_flag f vm_flag_capability_invocation ≡ ρ.capability_invocation)
    × (has_flag f vm_flag_protected ≡ ρ.protected)
    × (has_flag f vm_flag_key_agreement ≡ ρ.key_agreement)
    × ((bit_and (bit_and f vm_relationship_mask) (not_u16 vm_flag_key_agreement) == 0)
        ≡ not (other_roles ρ))

abbrev is_masked : Roles → Bool
is_masked ρ =
    let f = flags_of ρ in
    same (has_flag f (not_u16 vm_valid_mask)) false
    && (same (has_flag f (bit_or vm_flag_capability_invocation vm_flag_protected))
          (ρ.capability_invocation || ρ.protected)
        && (same (has_flag f vm_flag_capability_invocation) ρ.capability_invocation
            && (same (has_flag f vm_flag_protected) ρ.protected
                && (same (has_flag f vm_flag_key_agreement) ρ.key_agreement
                    && same
                        (bit_and (bit_and f vm_relationship_mask) (not_u16 vm_flag_key_agreement)
                          == 0)
                        (not (other_roles ρ))))))

abbrev roles : Bool → Bool → Bool → Bool → Bool → Bool → Roles
roles a s k i d p = record {
  authentication = a;
  assertion = s;
  key_agreement = k;
  capability_invocation = i;
  capability_delegation = d;
  protected = p;
}

abbrev every_roles : (Roles → Bool) → Bool
every_roles q =
    every
      (λ a. every (λ s. every (λ k. every (λ i. every (λ d. every (λ p. q (roles a s k i d p)))))))

every_roles_sound : (q : Roles → Bool) → every_roles q ≡ true → (ρ : Roles) → q ρ ≡ true
every_roles_sound q h ρ =
    let record {
      authentication = a;
      assertion = s;
      key_agreement = k;
      capability_invocation = i;
      capability_delegation = d;
      protected = p;
    } =
      ρ in
    every_sound (λ p. q (roles a s k i d p))
      (every_sound (λ d. every (λ p. q (roles a s k i d p)))
        (every_sound (λ i. every (λ d. every (λ p. q (roles a s k i d p))))
          (every_sound (λ k. every (λ i. every (λ d. every (λ p. q (roles a s k i d p)))))
            (every_sound
              (λ s. every (λ k. every (λ i. every (λ d. every (λ p. q (roles a s k i d p))))))
              (every_sound
                (λ a.
                  every (λ s.
                    every (λ k. every (λ i. every (λ d. every (λ p. q (roles a s k i d p)))))))
                h a)
              s)
            k)
          i)
        d)
      p

all_masked : every_roles is_masked ≡ true
all_masked = refl

pub masked : (ρ : Roles) → Masked ρ
masked ρ =
    let (unknown, rest) = both _ _ (every_roles_sound is_masked all_masked ρ) in
    let (governing, rest) = both _ _ rest in
    let (invocation, rest) = both _ _ rest in
    let (kept, rest) = both _ _ rest in
    let (agreement, others) = both _ _ rest in
    (
      same_sound _ false unknown,
      same_sound _ _ governing,
      same_sound _ _ invocation,
      same_sound _ _ kept,
      same_sound _ _ agreement,
      same_sound _ _ others,
    )

-- Flags of 16 bits with no unknown one are those of their roles.
pub roles_of-flags :
    (f : ℕ) → f < 2 ^ 16 → has_flag f (not_u16 vm_valid_mask) ≡ false → f ≡ flags_of (roles_of f)
roles_of-flags f range none_unknown = (==_iff f (flags_of (roles_of f))).0 (
    second_of (has_flag f (not_u16 vm_valid_mask)) (f == flags_of (roles_of f)) none_unknown
      (all_from_sound 16 reads_back 0 f all_read_back (omega arith) (omega (arith, range))))
  where
    second_of : (p q : Bool) → p ≡ false → (p || q) ≡ true → q ≡ true
    second_of true q n h = cc
    second_of false q n h = h
