-- ===== src/Rules/Bystanders.antt =====
-- What a resize and a close leave of the other accounts' bytes
-- (program/src/instructions/shared.rs).
use bio_did_registry.Base.{ℕ, ◌+◌, ◌≡◌, refl, sym, ap, ◌∙◌, false, bytes_eq}
use bio_did_registry.Error.{ok, ok_or, ok_injective, >>=-eq-ok, arithmetic_overflow}
use bio_did_registry.Bytes.{Bytes}
use bio_did_registry.Runtime.{
  Runtime, AccountView, Store, Act, ◌>>◌, put, set_lamports, resize_account, close_account,
  checked_u64,
}
use bio_did_registry.Instructions.Shared.{settle_rent, grow, close_to}
use bio_did_registry.Rules.Authorization.{lift_then}
use bio_did_registry.Rules.Storage.{RuntimeLaws, set_lamports-SameContent, settle_rent-SameContent}

put-other :
    (a c : Bytes) (w : AccountView) (s : Store) (r : Unit {0} × Store)
    → bytes_eq a c ≡ false
    → put a w s ≡ ok r
    → (r.1.accounts c).content ≡ (s.accounts c).content
put-other a c w s r other h =
    ap (λ p. (p.1.accounts c).content) (sym (ok_injective h)) ∙ rw other refl

pub grow-other :
    (rt : Runtime) (laws : RuntimeLaws rt) (a payer : Bytes) (n : ℕ) (c : Bytes) (s : Store)
    (r : Unit {0} × Store)
    → bytes_eq a c ≡ false
    → grow rt a payer n s ≡ ok r
    → (r.1.accounts c).content ≡ (s.accounts c).content
unfolding grow
grow-other rt laws a payer n c s r other h =
    let ((u, t), settled, h₁) =
      >>=-eq-ok (settle_rent rt a payer n s) (λ p. resize_account rt a n p.1) h in
    let (w, made, h₂) = lift_then (rt.resize n (t.accounts a)) (λ w. put a w) t r h₁ in
    put-other a c w t r other h₂ ∙ settle_rent-SameContent rt laws a payer n s (u, t) settled c

pub close_to-other :
    (rt : Runtime) (closing payer c : Bytes) (s : Store) (r : Unit {0} × Store)
    → bytes_eq closing c ≡ false
    → close_to rt closing payer s ≡ ok r
    → (r.1.accounts c).content ≡ (s.accounts c).content
unfolding close_to
close_to-other rt closing payer c s r other h =
    let sum = (s.accounts payer).lamports + (s.accounts closing).lamports in
    let finally : Act (Unit {0}) = set_lamports closing 0 >> close_account rt closing in
    let (credited, in_range, h₁) =
      lift_then (ok_or (checked_u64 sum) arithmetic_overflow)
        (λ credited. set_lamports payer credited >> finally) s r h in
    let ((u, t), paid, h₂) = >>=-eq-ok (set_lamports payer credited s) (λ p. finally p.1) h₁ in
    let ((u', t'), emptied, h₃) =
      >>=-eq-ok (set_lamports closing 0 t) (λ p. close_account rt closing p.1) h₂ in
    let (w, closed, h₄) = lift_then (rt.close (t'.accounts closing)) (λ w. put closing w) t' r h₃ in
    put-other closing c w t' r other h₄
    ∙ (set_lamports-SameContent closing 0 t (u', t') emptied c
        ∙ set_lamports-SameContent payer credited s (u, t) paid c)
