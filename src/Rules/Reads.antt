-- ===== src/Rules/Reads.antt =====
-- Steps that only read the store (the account checks of program/src/instructions/shared.rs).
use bio_did_registry.Base.{◌≡◌, sym, ap, ◌∙◌, Bool, true, false, not, ◌&&◌, Option, none, some}
use bio_did_registry.Error.{
  ProgramError, Result, ok, err, panic, require, unauthorized, did_deactivated, ok_injective,
  >>=-eq-ok,
}
use bio_did_registry.Bytes.{Bytes}
use bio_did_registry.State.View.{DidView, view, is_deactivated, is_native_controller, is_authority}
use bio_did_registry.Runtime.{Runtime, Store, Act, ◌>>=◌, ◌>>◌, lift, borrow, when}
use bio_did_registry.Instructions.Shared.{
  load_did_account, verify_did_account, authorize, authorize_controller,
}
use bio_did_registry.Rules.Authorization.{load_inv, ensure_then}

-- Where the step succeeds, the store is as it was.
abbrev pub IsRead : {A : Type 0} → Act A → Type 0
IsRead {A} m = (s : Store) (r : A × Store) → m s ≡ ok r → r.1 ≡ s

pub lift-IsRead : {A : Type 0} (m : Result A) → IsRead (lift m)
lift-IsRead (ok a) s r h = ap (λ q. q.1) (sym (ok_injective h))
lift-IsRead (err e) s r h = cc
lift-IsRead panic s r h = cc

pub borrow-IsRead : (a : Bytes) → IsRead (borrow a)
borrow-IsRead a s r h = ap (λ q. q.1) (sym (ok_injective h))

pub bind-IsRead :
    {A B : Type 0} (m : Act A) (k : A → Act B)
    → IsRead m
    → ((a : A) → IsRead (k a))
    → IsRead (m >>= k)
bind-IsRead m k reads rest s r h =
    let ((a, t), e, g) = >>=-eq-ok (m s) (λ p. k p.0 p.1) h in rest a t r g ∙ reads s (a, t) e

pub load-IsRead : (rt : Runtime) (c : Bytes) → IsRead (load_did_account rt c)
load-IsRead rt c s r h = let (bump, own, at_head, placed, same) = load_inv rt c s r h in same

pub verify-IsRead : (rt : Runtime) (c : Bytes) → IsRead (verify_did_account rt c)
unfolding verify_did_account
verify-IsRead rt c s r h =
    let (writable, rest) =
      ensure_then (s.accounts c).is_writable ProgramError.immutable (load_did_account rt c) s r h in
    load-IsRead rt c s r rest

controller-IsRead :
    (rt : Runtime) (doc : DidView) (signer : Bytes) (controller : Option Bytes)
    → IsRead (authorize_controller rt doc signer controller)
unfolding authorize_controller
controller-IsRead rt doc signer none = λ s r h. cc
controller-IsRead rt doc signer (some c) =
    bind-IsRead (load_did_account rt c)
      (λ subject. lift (is_native_controller doc subject) >>= λ listed.
        lift (require listed unauthorized)
        >> (borrow c >>= λ bytes. lift (view bytes) >>= λ parent.
            lift (is_deactivated parent) >>= λ dead.
            lift (require (not dead && is_authority parent signer) unauthorized)))
      (load-IsRead rt c)
      (λ subject.
        bind-IsRead (lift (is_native_controller doc subject)) _
          (lift-IsRead (is_native_controller doc subject))
          (λ listed.
            bind-IsRead (lift (require listed unauthorized)) _
              (lift-IsRead (require listed unauthorized))
              (λ _. bind-IsRead (borrow c) _ (borrow-IsRead c) (λ bytes.
                bind-IsRead (lift (view bytes)) _ (lift-IsRead (view bytes)) (λ parent.
                  bind-IsRead (lift (is_deactivated parent)) _ (lift-IsRead (is_deactivated parent))
                    (λ dead.
                      lift-IsRead
                        (require (not dead && is_authority parent signer) unauthorized)))))))

when-IsRead : (b : Bool) (m : Act (Unit {0})) → IsRead m → IsRead (when b m)
when-IsRead true m reads = reads
when-IsRead false m reads = λ s r h. ap (λ q. q.1) (sym (ok_injective h))

pub authorize-IsRead :
    (rt : Runtime) (doc : DidView) (signer : Bytes) (controller : Option Bytes)
    → IsRead (authorize rt doc signer controller)
unfolding authorize
authorize-IsRead rt doc signer controller =
    let by_controller : Act (Unit {0}) =
      when (not (is_authority doc signer)) (authorize_controller rt doc signer controller) in
    bind-IsRead (lift (is_deactivated doc))
      (λ dead. lift (require (not dead) did_deactivated) >> by_controller)
      (lift-IsRead (is_deactivated doc))
      (λ dead.
        bind-IsRead (lift (require (not dead) did_deactivated)) (λ _. by_controller)
          (lift-IsRead (require (not dead) did_deactivated))
          (λ _.
            when-IsRead (not (is_authority doc signer))
              (authorize_controller rt doc signer controller)
              (controller-IsRead rt doc signer controller)))
