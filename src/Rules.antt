-- ===== src/Rules.antt =====
-- What the update instructions check of the document they change
-- (program/src/instructions/*.rs and the domain checks of program/src/state.rs).
pub mod ExternalDids
pub mod Roles
pub mod Acceptance
pub mod Removal
pub mod Flags
pub mod Rent
pub mod Storage
pub mod Bystanders
pub mod Runs
pub mod Finish
pub mod Resize
pub mod Health
pub mod History
pub mod Whole
pub mod Updates
pub mod Buffers
pub mod Handlers
pub mod Permits
pub mod Additions
pub mod Uniqueness
pub mod ControllerLists
pub mod Authorization
pub mod Controllers
pub mod Reads
pub mod FlagsHandler
use bio_did_registry.Base.{◌≡◌, Bool, true, false, Option, none, some, refl}
use bio_did_registry.Error.{
  Result, ok, err, require, when, ok_or, DidError, ProgramError, ◌>>◌, ◌>>=◌, ok_injective,
}

-- A requirement that passes holds.
pub require_inv : (b : Bool) (e : DidError) (u : Unit {0}) → require b e ≡ ok u → b ≡ true
unfolding require
require_inv true e u h = refl
require_inv false e u h = cc

-- A conditional check that passes holds where its condition does.
pub when_inv :
    (c b : Bool) (e : DidError) (u : Unit {0}) → when c (require b e) ≡ ok u → c ≡ true → b ≡ true
when_inv true b e u h _ = require_inv b e u h
when_inv false b e u h c = cc

-- Two checks in a row that pass both pass.
pub then_inv :
    {A : Type 0} (m : Result (Unit {0})) (n : Result A) (a : A)
    → (m >> n) ≡ ok a
    → (m ≡ ok tt) × (n ≡ ok a)
then_inv (ok tt) n a h = (refl, h)
then_inv (err e) n a h = cc
then_inv Result.panic n a h = cc

pub ok_or_inv :
    {A B : Type 0} (o : Option A) (e : ProgramError) (k : A → Result B) (b : B)
    → (ok_or o e >>= k) ≡ ok b
    → (a : A) × (o ≡ some a) × (k a ≡ ok b)
ok_or_inv none e k b h = cc
ok_or_inv (some a) e k b h = (a, refl, h)

-- Two conditional checks on what a lookup finds, and then that.
pub guarded_inv :
    {A : Type 0} (o : Option A) (e : ProgramError) (c p c' p' : A → Bool) (e₁ e₂ : DidError) (r : A)
    → (ok_or o e >>= λ a.
        when (c a) (require (p a) e₁) >> (when (c' a) (require (p' a) e₂) >> ok a))
      ≡ ok r
    → (o ≡ some r) × (c r ≡ true → p r ≡ true) × (c' r ≡ true → p' r ≡ true)
guarded_inv none e c p c' p' e₁ e₂ r h = cc
guarded_inv (some a) e c p c' p' e₁ e₂ r h =
    let (first, rest) =
      then_inv (when (c a) (require (p a) e₁)) (when (c' a) (require (p' a) e₂) >> ok a) r h in
    let (second, same) = then_inv (when (c' a) (require (p' a) e₂)) (ok a) r rest in
    rw (← ok_injective same)
      (refl, when_inv (c a) (p a) e₁ tt first, when_inv (c' a) (p' a) e₂ tt second)

-- The same with a check in between.
pub guarded_between_inv :
    {A : Type 0} (o : Option A) (e : ProgramError) (c p c' p' : A → Bool)
    (m : A → Result (Unit {0})) (e₁ e₂ : DidError) (r : A)
    → (ok_or o e >>= λ a.
        when (c a) (require (p a) e₁) >> (m a >> (when (c' a) (require (p' a) e₂) >> ok a)))
      ≡ ok r
    → (o ≡ some r) × (c r ≡ true → p r ≡ true) × (m r ≡ ok tt) × (c' r ≡ true → p' r ≡ true)
guarded_between_inv none e c p c' p' m e₁ e₂ r h = cc
guarded_between_inv (some a) e c p c' p' m e₁ e₂ r h =
    let (first, rest) =
      then_inv (when (c a) (require (p a) e₁)) (m a >> (when (c' a) (require (p' a) e₂) >> ok a)) r
        h in
    let (between, rest) = then_inv (m a) (when (c' a) (require (p' a) e₂) >> ok a) r rest in
    let (second, same) = then_inv (when (c' a) (require (p' a) e₂)) (ok a) r rest in
    rw (← ok_injective same)
      (refl, when_inv (c a) (p a) e₁ tt first, between, when_inv (c' a) (p' a) e₂ tt second)

-- The same where the check stands alone.
pub require_ok : (b : Bool) (e : DidError) → require b e ≡ ok tt → b ≡ true
require_ok b e h = require_inv b e tt h
