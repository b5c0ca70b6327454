-- ===== src/Rules/Roles/Validation.antt =====
-- The flags that a method of a type may have (program/src/state.rs, `validate_vm_flags`).
use bio_did_registry.Base.{
  ℕ, ◌≡◌, ◌<◌, ◌^◌, ◌==◌, ◌||◌, ◌∙◌, sym, ap, subst, refl, Bool, true, false, arith, ◌↔◌, not,
}
use bio_did_registry.Error.{Result, ok, require, when, ◌>>◌, invalid_flags}
use bio_did_registry.Rules.{then_inv, require_ok}
use bio_did_registry.State.Consts.{vm_valid_mask}
use bio_did_registry.State.View.{has_flag}
use bio_did_registry.State.Checks.{validate_vm_flags, not_u16}
use bio_did_registry.Rules.Roles.{
  Roles, flags_of, Suits, SuitFlags, roles_of, roles_of-flags, other_roles, masked,
}

abbrev rules : ℕ → Bool → Bool → Bool → Bool → Result (Unit {0})
rules t i p o k = do
  when (i || p) (require (t == 0) invalid_flags)
  when p (require i invalid_flags)
  when (t == 1) (require (not o) invalid_flags)
  when (t == 3) (require (not k) invalid_flags)
  ok tt

rules_iff :
    (t : ℕ) (i p o k : Bool)
    → (rules t i p o k ≡ ok tt) ↔ (
        (i ≡ true → t ≡ 0)
        × (p ≡ true → t ≡ 0)
        × (p ≡ true → i ≡ true)
        × (t ≡ 1 → o ≡ false)
        × (t ≡ 3 → k ≡ false))
unfolding require
rules_iff t i p o k = ground arith

validate-rules :
    (t : ℕ) (ρ : Roles)
    → validate_vm_flags t (flags_of ρ)
      ≡ rules t ρ.capability_invocation ρ.protected (other_roles ρ) ρ.key_agreement
unfolding validate_vm_flags require
validate-rules t ρ =
    let (unknown, governing, invocation, kept, agreement, others) = masked ρ in
    rw (unknown, governing, kept, invocation, others, agreement) refl

none_of_four :
    (a b c d : Bool)
    → ((a || (b || (c || d))) ≡ false) ↔ ((a ≡ false) × (b ≡ false) × (c ≡ false) × (d ≡ false))
none_of_four a b c d = ground arith

validated_roles_iff : (t : ℕ) (ρ : Roles) → (validate_vm_flags t (flags_of ρ) ≡ ok tt) ↔ Suits t ρ
validated_roles_iff t ρ =
    let rules_of =
      rules_iff t ρ.capability_invocation ρ.protected (other_roles ρ) ρ.key_agreement in
    let four =
      none_of_four ρ.authentication ρ.assertion ρ.capability_invocation ρ.capability_delegation in
    (
      λ h.
          let (invokes, protects, governs, agrees, signs) =
            rules_of.0 (sym (validate-rules t ρ) ∙ h) in
          record {
            invokes = invokes;
            protects = protects;
            governs = governs;
            agrees = λ e. four.0 (agrees e);
            signs = signs;
          },
      λ v.
          validate-rules t ρ
          ∙ rules_of.1 (v.invokes, v.protects, v.governs, λ e. four.1 (v.agrees e), v.signs),
    )

-- Flags that are accepted have no unknown bit, so they are those of their roles.
known : (t f : ℕ) → f < 2 ^ 16 → validate_vm_flags t f ≡ ok tt → f ≡ flags_of (roles_of f)
unfolding validate_vm_flags
known t f range h =
    let (none_unknown, rest) =
      then_inv (require (not (has_flag f (not_u16 vm_valid_mask))) invalid_flags) _ tt h in
    roles_of-flags f range
      (is_set (has_flag f (not_u16 vm_valid_mask)) (require_ok _ invalid_flags none_unknown))
  where
    is_set : (p : Bool) → not p ≡ true → p ≡ false
    is_set true h = cc
    is_set false h = refl

-- Flags of 16 bits are accepted exactly when they are those of roles that suit the type.
pub validate_vm_flags_iff : (t f : ℕ) → f < 2 ^ 16 → (validate_vm_flags t f ≡ ok tt) ↔ SuitFlags t f
validate_vm_flags_iff t f range = (
  λ h.
      let e = known t f range h in
      (
        roles_of f,
        e,
        (validated_roles_iff t (roles_of f)).0 (subst (λ g. validate_vm_flags t g ≡ ok tt) e h),
      ),
  λ (ρ, e, v). ap (validate_vm_flags t) e ∙ (validated_roles_iff t ρ).1 v,
)
