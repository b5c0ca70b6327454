-- ===== src/Rules/Controllers.antt =====
-- Who passes `authorize` (program/src/instructions/shared.rs), as a question about documents.
use bio_did_registry.Base.{
  ℕ, ◌≡◌, ◌⊎◌, inl, inr, refl, sym, ap, ◌∙◌, Bool, true, false, not, ◌&&◌, Bool-cases, Option, none,
  some, [], ◌∷◌, bytes_eq, ◌==◌, All, arith,
}
use bio_did_registry.Error.{
  Result, ok, err, require, unauthorized, did_deactivated, ok_injective, >>=-eq-ok,
}
use bio_did_registry.Bytes.{Bytes, IsByte}
use bio_did_registry.State.Consts.{did_seed}
use bio_did_registry.State.View.{
  DidView, view, any, is_deactivated, is_native_controller, is_authority,
}
use bio_did_registry.State.Sections.{Sections}
use bio_did_registry.State.Sections
use bio_did_registry.Document.{Document, IsDocument, encode}
use bio_did_registry.Document.Sound.{parse_sound}
use bio_did_registry.Document.Entries.{doc_view}
use bio_did_registry.Document.Lookups.{
  holds_authority, is_authority-encode, is_deactivated-encode, is_native_controller-encode,
}
use bio_did_registry.Runtime.{Runtime, Store, Act, ◌>>=◌, ◌>>◌, lift, borrow, when}
use bio_did_registry.Instructions.Shared.{
  load_did_account, authorize, authorize_controller, head_of,
}
use bio_did_registry.Rules.{require_inv}
use bio_did_registry.Rules.Authorization.{lift_then, load_inv, head-encode}

-- A view of bytes is the view of the document that they encode.
pub view_sound :
    (b : Bytes) (p : DidView)
    → All IsByte b
    → view b ≡ ok p
    → (d : Document) × IsDocument d × (b ≡ encode d) × (p ≡ doc_view d)
unfolding view
view_sound b p are_bytes h =
    let (s, parsed, e) =
      >>=-eq-ok (Sections.parse b) (λ s. ok (record { bytes = b; sections = s })) h in
    let (d, v, b_eq, s_eq) = parse_sound b s are_bytes parsed in
    let made : (record { bytes = b; sections = s }) ≡ p = ok_injective e in
    (
      d,
      v,
      b_eq,
      sym made
          ∙ (ap (λ x. record { bytes = x; sections = s }) b_eq
              ∙ ap (λ x. record { bytes = encode d; sections = x }) s_eq),
    )

-- The account `c` holds the document of a native controller of `d`, and `signer` is one of its
-- authorities: it is the program's account, at the address of its subject, and not deactivated.
abbrev pub Controls : Runtime → Store → Document → Bytes → Bytes → Type 0
Controls rt s d signer c =
    (parent : Document) × IsDocument parent
    × ((s.accounts c).content ≡ encode parent)
    × ((s.accounts c).owner ≡ rt.program_id)
    × (c ≡ rt.derive_address (did_seed ∷ parent.subject ∷ []) parent.bump)
    × (any (λ k. bytes_eq k parent.subject) d.native_controllers ≡ true)
    × (parent.deactivated ≡ 0)
    × (holds_authority parent signer ≡ true)

-- `signer` may update `d`: by itself, or through the controller that is passed.
abbrev pub MayUpdate : Runtime → Store → Document → Bytes → Option Bytes → Type 0
MayUpdate rt s d signer controller =
    (holds_authority d signer ≡ true)
    ⊎ ((c : Bytes) × (controller ≡ some c) × Controls rt s d signer c)

lift_end : {A : Type 0} (m : Result A) (s : Store) (r : A × Store) → lift m s ≡ ok r → m ≡ ok r.0
lift_end (ok a) s r h = ap (λ q. ok q.0) (ok_injective h)
lift_end (err e) s r h = cc
lift_end Result.panic s r h = cc

both : (p q : Bool) → (not p && q) ≡ true → (p ≡ false) × (q ≡ true)
both true q h = cc
both false q h = (refl, h)

alive : (n : ℕ) → not (n == 0) ≡ false → n ≡ 0
alive n h = ground arith

-- The checks of `authorize_controller`, read on the document that the controller's account holds.
Controls_lem :
    (rt : Runtime) (s : Store) (d : Document) (signer c subject : Bytes) (bump : ℕ)
    (parent_view : DidView) (dead listed : Bool)
    → IsDocument d
    → All IsByte (s.accounts c).content
    → (s.accounts c).owner ≡ rt.program_id
    → head_of (s.accounts c).content ≡ ok (bump, subject)
    → c ≡ rt.derive_address (did_seed ∷ subject ∷ []) bump
    → is_native_controller (doc_view d) subject ≡ ok listed
    → listed ≡ true
    → view (s.accounts c).content ≡ ok parent_view
    → is_deactivated parent_view ≡ ok dead
    → dead ≡ false
    → is_authority parent_view signer ≡ true
    → Controls rt s d signer c
Controls_lem rt s d signer c subject bump parent_view dead listed v are_bytes own at_head placed
      is_listed found viewed read living signs =
    let (parent, fit, b_eq, p_eq) =
      view_sound (s.accounts c).content parent_view are_bytes viewed in
    let head_eq : (bump, subject) ≡ (parent.bump, parent.subject) =
      ok_injective (sym at_head ∙ (ap head_of b_eq ∙ head-encode parent fit)) in
    let flag : not (parent.deactivated == 0) ≡ dead =
      ok_injective
        (sym (is_deactivated-encode parent fit) ∙ (ap is_deactivated (sym p_eq) ∙ read)) in
    let known : any (λ k. bytes_eq k subject) d.native_controllers ≡ true =
      ok_injective (sym (is_native_controller-encode d subject v) ∙ is_listed) ∙ found in
    (
      parent,
      fit,
      b_eq,
      own,
      placed ∙ ap (λ q. rt.derive_address (did_seed ∷ q.1 ∷ []) q.0) head_eq,
      ap (λ q. any (λ k. bytes_eq k q.1) d.native_controllers) (sym head_eq) ∙ known,
      alive parent.deactivated (flag ∙ living),
      sym (is_authority-encode parent signer fit)
          ∙ (ap (λ p. is_authority p signer) (sym p_eq) ∙ signs),
    )

controller_inv :
    (rt : Runtime) (d : Document) (signer c : Bytes) (s : Store) (r : Unit {0} × Store)
    → IsDocument d
    → All IsByte (s.accounts c).content
    → authorize_controller rt (doc_view d) signer (some c) s ≡ ok r
    → Controls rt s d signer c
unfolding authorize_controller
controller_inv rt d signer c s r v are_bytes h =
    let check : DidView → Bool → Act (Unit {0}) =
      λ parent dead. lift (require (not dead && is_authority parent signer) unauthorized) in
    let on_parent : DidView → Act (Unit {0}) =
      λ parent. lift (is_deactivated parent) >>= check parent in
    let on_bytes : Act (Unit {0}) = borrow c >>= λ bytes. lift (view bytes) >>= on_parent in
    let on_subject : Bytes → Act (Unit {0}) = λ subject.
      lift (is_native_controller (doc_view d) subject) >>= λ listed.
      lift (require listed unauthorized) >> on_bytes in
    let ((subject, t), loaded, h₁) =
      >>=-eq-ok (load_did_account rt c s) (λ p. on_subject p.0 p.1) h in
    let (bump, own, at_head, placed, same) = load_inv rt c s (subject, t) loaded in
    let (listed, is_listed, h₂) =
      lift_then (is_native_controller (doc_view d) subject)
        (λ listed. lift (require listed unauthorized) >> on_bytes) t r h₁ in
    let (u, required, h₃) = lift_then (require listed unauthorized) (λ _. on_bytes) t r h₂ in
    let (parent_view, viewed, h₄) =
      lift_then (view (s.accounts c).content) on_parent s r (rw same at h₃) in
    let (dead, read, h₅) = lift_then (is_deactivated parent_view) (check parent_view) s r h₄ in
    let checked =
      require_inv _ unauthorized r.0
        (lift_end (require (not dead && is_authority parent_view signer) unauthorized) s r h₅) in
    let (living, signs) = both dead (is_authority parent_view signer) checked in
    Controls_lem rt s d signer c subject bump parent_view dead listed v are_bytes own at_head placed
      is_listed (require_inv listed unauthorized u required) viewed read living signs

passed :
    (rt : Runtime) (d : Document) (signer : Bytes) (controller : Option Bytes) (s : Store)
    (r : Unit {0} × Store)
    → IsDocument d
    → ((c : Bytes) → All IsByte (s.accounts c).content)
    → authorize_controller rt (doc_view d) signer controller s ≡ ok r
    → (c : Bytes) × (controller ≡ some c) × Controls rt s d signer c
unfolding authorize_controller
passed rt d signer none s r v are_bytes h = cc
passed rt d signer (some c) s r v are_bytes h =
    (c, refl, controller_inv rt d signer c s r v (are_bytes c) h)

not-true : (b : Bool) → not b ≡ true → b ≡ false
not-true true h = cc
not-true false h = refl

-- Where `authorize` passes on a well-formed document, in a store of bytes, the document is not
-- deactivated, and the signer is one of its authorities or one of those of the controller that is
-- passed: an account of the program, at the address of the subject and the bump it stores, whose
-- document is not deactivated and whose subject the document lists as a native controller.
pub authorize-MayUpdate :
    (rt : Runtime) (d : Document) (signer : Bytes) (controller : Option Bytes) (s : Store)
    (r : Unit {0} × Store)
    → IsDocument d
    → ((c : Bytes) → All IsByte (s.accounts c).content)
    → authorize rt (doc_view d) signer controller s ≡ ok r
    → (d.deactivated ≡ 0) × MayUpdate rt s d signer controller
unfolding authorize
authorize-MayUpdate rt d signer controller s r v are_bytes h =
    let by_controller : Act (Unit {0}) =
      when (not (is_authority (doc_view d) signer))
        (authorize_controller rt (doc_view d) signer controller) in
    let (dead, read, h₁) =
      lift_then (is_deactivated (doc_view d))
        (λ dead. lift (require (not dead) did_deactivated) >> by_controller) s r h in
    let (u, required, h₂) =
      lift_then (require (not dead) did_deactivated) (λ _. by_controller) s r h₁ in
    let living = not-true dead (require_inv (not dead) did_deactivated u required) in
    let flag : not (d.deactivated == 0) ≡ dead =
      ok_injective (sym (is_deactivated-encode d v) ∙ read) in
    (
      alive d.deactivated (flag ∙ living),
      elim (Bool-cases (is_authority (doc_view d) signer)) [
        | inl own ↦ inl (sym (is_authority-encode d signer v) ∙ own)
        | inr other ↦ inr (passed rt d signer controller s r v are_bytes (rw other at h₂))
      ],
    )
