-- ===== src/Error/Codes.antt =====
-- Decoding the codes of the errors (program/src/error.rs).
use bio_did_registry.Base.{
  ℕ, ◌≡◌, ◌↔◌, refl, ap, ◌∙◌, ◌==◌, ==_iff, some, Bool-cases, inl, inr, List, [], ◌∷◌, arith,
}
use bio_did_registry.Error.{DidError, code, from_code, find_code, all}

-- Decoding the code of an error gives that error back.
pub from_code-code : (e : DidError) → from_code (code e) ≡ some e
unfolding code from_code
from_code-code DidError.unauthorized = refl
from_code-code _ = refl

find_code_inv : (es : List DidError) (c : ℕ) (e : DidError) → find_code es c ≡ some e → c ≡ code e
unfolding find_code
find_code_inv [] c e h = cc
find_code_inv (x ∷ es) c e h = elim (Bool-cases (code x == c)) [
  | inl hit ↦ ground (arith, (==_iff (code x) c).0 hit)
  | inr miss ↦ find_code_inv es c e (rw miss at h)
]

-- A code decodes to an error exactly when it is that error's code.
pub from_code_iff : (c : ℕ) (e : DidError) → (from_code c ≡ some e) ↔ (c ≡ code e)
unfolding from_code
from_code_iff c e = (find_code_inv all c e, λ h. ap from_code h ∙ from_code-code e)
