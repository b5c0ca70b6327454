-- ===== src/Rules/Runs.antt =====
-- The head of the handlers that change a document: the checks on the accounts, and `authorize`
-- (program/src/instructions/shared.rs).
use bio_did_registry.Base.{
  ℕ, ◌≡◌, refl, sym, ap, subst, ◌∙◌, Bool, true, false, bytes_eq, Option, List, [], ◌∷◌, All,
}
use bio_did_registry.Error.{ProgramError, ok, ok_injective, >>=-eq-ok}
use bio_did_registry.Bytes.{Bytes, IsByte}
use bio_did_registry.State.Consts.{did_seed}
use bio_did_registry.State.View.{DidView, view}
use bio_did_registry.Document.{Document, IsDocument, encode}
use bio_did_registry.Document.Decode.{parse-encode}
use bio_did_registry.Document.Entries.{doc_view}
use bio_did_registry.Runtime.{Runtime, Store, Act, ◌>>=◌, ◌>>◌, pure, lift, ensure, borrow}
use bio_did_registry.Instructions.Shared.{
  Update, first, head_of, check_payer, check_authority_signer, check_system_program,
  load_did_account, verify_did_account, authorize, update_from,
}
use bio_did_registry.Rules.Authorization.{ensure_then, lift_then, load_inv, head-encode}
use bio_did_registry.Rules.Controllers.{MayUpdate, view_sound, authorize-MayUpdate}
use bio_did_registry.Rules.Reads.{authorize-IsRead}

-- The account `a` holds the document `d` of the program, which is not deactivated, at the address
-- of the subject and the bump in it; `signer` signed, and may update it, by itself or by the
-- controller.
abbrev pub Authorized : Runtime → Store → Bytes → Bytes → Option Bytes → Document → Type 0
Authorized rt s signer a controller d =
    IsDocument d
    × ((s.accounts a).content ≡ encode d)
    × ((s.accounts a).owner ≡ rt.program_id)
    × (a ≡ rt.derive_address (did_seed ∷ d.subject ∷ []) d.bump)
    × ((s.accounts signer).is_signer ≡ true)
    × (d.deactivated ≡ 0)
    × MayUpdate rt s d signer controller

-- An account that `load_did_account` accepts, and its subject.
abbrev pub IsLoaded : Runtime → Store → Bytes → Bytes → Type 0
IsLoaded rt s a subject =
    (bump : ℕ) × ((s.accounts a).owner ≡ rt.program_id)
    × (head_of (s.accounts a).content ≡ ok (bump, subject))
    × (a ≡ rt.derive_address (did_seed ∷ subject ∷ []) bump)

pub view-encode : (d : Document) → IsDocument d → view (encode d) ≡ ok (doc_view d)
unfolding view
view-encode d v = rw (parse-encode d v) refl

two_checks :
    {B : Type 0} (b c : Bool) (e f : ProgramError) (k : Act B) (s : Store) (r : B × Store)
    → ((ensure b e >> ensure c f) >> k) s ≡ ok r
    → k s ≡ ok r
two_checks true true e f k s r h = h
two_checks true false e f k s r h = cc
two_checks false c e f k s r h = cc

-- Each step that only checks passes, and the rest runs on the same store.
module _ {B : Type 0} (rt : Runtime) (s : Store) (r : B × Store) where
  pub signer_then :
      (signer : Bytes) (k : Act B)
      → (check_authority_signer signer >> k) s ≡ ok r
      → ((s.accounts signer).is_signer ≡ true) × (k s ≡ ok r)
  unfolding check_authority_signer
  signer_then signer k h =
      ensure_then (s.accounts signer).is_signer ProgramError.missing_required_signature k s r h

  pub load_then :
      (a : Bytes) (k : Bytes → Act B)
      → (load_did_account rt a >>= k) s ≡ ok r
      → (subject : Bytes) × IsLoaded rt s a subject × (k subject s ≡ ok r)
  load_then a k h =
      let ((subject, t), loaded, g) = >>=-eq-ok (load_did_account rt a s) (λ p. k p.0 p.1) h in
      let (bump, own, at_head, placed, same) = load_inv rt a s (subject, t) loaded in
      (subject, (bump, own, at_head, placed), subst (λ u. k subject u ≡ ok r) same g)

  pub verify_then :
      (a : Bytes) (k : Bytes → Act B)
      → (verify_did_account rt a >>= k) s ≡ ok r
      → (subject : Bytes) × IsLoaded rt s a subject × (k subject s ≡ ok r)
  unfolding verify_did_account
  verify_then a k h =
      let ((subject, t), verified, g) = >>=-eq-ok (verify_did_account rt a s) (λ p. k p.0 p.1) h in
      let (writable, loaded) =
        ensure_then (s.accounts a).is_writable ProgramError.immutable (load_did_account rt a) s
          (subject, t) verified in
      let (bump, own, at_head, placed, same) = load_inv rt a s (subject, t) loaded in
      (subject, (bump, own, at_head, placed), subst (λ u. k subject u ≡ ok r) same g)

  pub payer_then : (payer : Bytes) (k : Act B) → (check_payer payer >> k) s ≡ ok r → k s ≡ ok r
  unfolding check_payer
  payer_then payer k h =
      two_checks (s.accounts payer).is_signer (s.accounts payer).is_writable
        ProgramError.missing_required_signature ProgramError.immutable k s r h

  pub system_then : (a : Bytes) (k : Act B) → (check_system_program rt a >> k) s ≡ ok r → k s ≡ ok r
  unfolding check_system_program
  system_then a k h =
      (ensure_then (bytes_eq a rt.system_program_id) ProgramError.incorrect_program_id k s r h).1

  -- The document in view, and the part behind `authorize`.
  pub authorize_then :
      (signer a subject : Bytes) (controller : Option Bytes) (rest : DidView → Act B)
      → ((c : Bytes) → All IsByte (s.accounts c).content)
      → ((s.accounts signer).is_signer ≡ true)
      → IsLoaded rt s a subject
      → (borrow a >>= λ bytes.
            lift (view bytes) >>= λ doc. authorize rt doc signer controller >> rest doc)
          s
        ≡ ok r
      → (d : Document) × Authorized rt s signer a controller d × (rest (doc_view d) s ≡ ok r)
  authorize_then signer a subject controller rest are_bytes signed (bump, own, at_head, placed) h =
      let next : DidView → Act B = λ doc. authorize rt doc signer controller >> rest doc in
      let (doc, viewed, h₁) = lift_then (view (s.accounts a).content) next s r h in
      let (d, v, holds, same) = view_sound (s.accounts a).content doc (are_bytes a) viewed in
      let ((u, t), passed, h₂) =
        >>=-eq-ok (authorize rt (doc_view d) signer controller s) (λ p. rest (doc_view d) p.1)
          (subst (λ x. next x s ≡ ok r) same h₁) in
      let head : (bump, subject) ≡ (d.bump, d.subject) =
        ok_injective (sym at_head ∙ (ap head_of holds ∙ head-encode d v)) in
      let (living, may) = authorize-MayUpdate rt d signer controller s (u, t) v are_bytes passed in
      (
        d,
        (
          v,
          holds,
          own,
          placed ∙ ap (λ p. rt.derive_address (did_seed ∷ p.1 ∷ []) p.0) head,
          signed,
          living,
          may,
        ),
        subst (λ x. rest (doc_view d) x ≡ ok r)
            (authorize-IsRead rt (doc_view d) signer controller s (u, t) passed) h₂,
      )

  -- The same, where it is known which document is stored.
  pub authorize_on :
      (signer a : Bytes) (controller : Option Bytes) (rest : DidView → Act B) (d : Document)
      → ((c : Bytes) → All IsByte (s.accounts c).content)
      → IsDocument d
      → (s.accounts a).content ≡ encode d
      → (borrow a >>= λ bytes.
            lift (view bytes) >>= λ doc. authorize rt doc signer controller >> rest doc)
          s
        ≡ ok r
      → (d.deactivated ≡ 0) × MayUpdate rt s d signer controller × (rest (doc_view d) s ≡ ok r)
  authorize_on signer a controller rest d are_bytes v holds h =
      let next : DidView → Act B = λ doc. authorize rt doc signer controller >> rest doc in
      let (doc, viewed, h₁) = lift_then (view (s.accounts a).content) next s r h in
      let same : doc ≡ doc_view d = ok_injective (sym viewed ∙ (ap view holds ∙ view-encode d v)) in
      let ((u, t), passed, h₂) =
        >>=-eq-ok (authorize rt (doc_view d) signer controller s) (λ p. rest (doc_view d) p.1)
          (subst (λ x. next x s ≡ ok r) same h₁) in
      let (living, may) = authorize-MayUpdate rt d signer controller s (u, t) v are_bytes passed in
      (
        living,
        may,
        subst (λ x. rest (doc_view d) x ≡ ok r)
            (authorize-IsRead rt (doc_view d) signer controller s (u, t) passed) h₂,
      )

-- The update that `Update::try_from` makes of the accounts.
abbrev pub IsUpdate : Runtime → Store → List Bytes → Update → Type 0
IsUpdate rt s accounts u =
    (system_program : Bytes) × (rest : List Bytes) × (accounts
      ≡ u.payer ∷ u.authority ∷ u.did_account ∷ system_program ∷ rest)
    × (u.controller ≡ first rest)
    × ((s.accounts u.authority).is_signer ≡ true)
    × IsLoaded rt s u.did_account u.subject

abbrev pub update_of : Bytes → Bytes → Bytes → List Bytes → Bytes → Update
update_of payer authority a rest subject = record {
  payer = payer;
  authority = authority;
  did_account = a;
  controller = first rest;
  subject = subject;
}

update_checks :
    (rt : Runtime) (payer authority a sys : Bytes) (rest : List Bytes) (s : Store)
    (q : Update × Store)
    → update_from rt (payer ∷ authority ∷ a ∷ sys ∷ rest) s ≡ ok q
    → (subject : Bytes) × ((s.accounts authority).is_signer ≡ true)
      × IsLoaded rt s a subject
      × ((update_of payer authority a rest subject, s) ≡ q)
unfolding update_from
update_checks rt payer authority a sys rest s q h =
    let verifying : Act Update =
      verify_did_account rt a >>= λ subject. pure (update_of payer authority a rest subject) in
    let h₁ =
      payer_then rt s q payer
        (check_authority_signer authority >> (check_system_program rt sys >> verifying)) h in
    let (signed, h₂) = signer_then rt s q authority (check_system_program rt sys >> verifying) h₁ in
    let h₃ = system_then rt s q sys verifying h₂ in
    let (subject, loaded, h₄) =
      verify_then rt s q a (λ subject. pure (update_of payer authority a rest subject)) h₃ in
    (subject, signed, loaded, ok_injective h₄)

update_inv :
    (rt : Runtime) (accounts : List Bytes) (s : Store) (q : Update × Store)
    → update_from rt accounts s ≡ ok q
    → IsUpdate rt s accounts q.0 × (q.1 ≡ s)
unfolding update_from
update_inv rt [] s q h = cc
update_inv rt (payer ∷ []) s q h = cc
update_inv rt (payer ∷ authority ∷ []) s q h = cc
update_inv rt (payer ∷ authority ∷ a ∷ []) s q h = cc
update_inv rt (payer ∷ authority ∷ a ∷ sys ∷ rest) s q h =
    let (subject, signed, loaded, same) = update_checks rt payer authority a sys rest s q h in
    subst (λ p. IsUpdate rt s (payer ∷ authority ∷ a ∷ sys ∷ rest) p.0 × (p.1 ≡ s)) same
      ((sys, rest, refl, refl, signed, loaded), refl)

-- The same where the accounts are named.
pub update_on :
    (rt : Runtime) (payer authority a sys : Bytes) (rest : List Bytes) (s : Store)
    (r : Unit {0} × Store) (k : Update → Act (Unit {0}))
    → (update_from rt (payer ∷ authority ∷ a ∷ sys ∷ rest) >>= k) s ≡ ok r
    → (subject : Bytes) × (k (update_of payer authority a rest subject) s ≡ ok r)
update_on rt payer authority a sys rest s r k h =
    let (q, made, g) =
      >>=-eq-ok (update_from rt (payer ∷ authority ∷ a ∷ sys ∷ rest) s) (λ p. k p.0 p.1) h in
    let (subject, signed, loaded, same) = update_checks rt payer authority a sys rest s q made in
    (subject, subst (λ p. k p.0 p.1 ≡ ok r) (sym same) g)

pub update_then :
    (rt : Runtime) (accounts : List Bytes) (s : Store) (r : Unit {0} × Store)
    (k : Update → Act (Unit {0}))
    → (update_from rt accounts >>= k) s ≡ ok r
    → (u : Update) × IsUpdate rt s accounts u × (k u s ≡ ok r)
update_then rt accounts s r k h =
    let ((u, t), made, g) = >>=-eq-ok (update_from rt accounts s) (λ p. k p.0 p.1) h in
    let (fits, same) = update_inv rt accounts s (u, t) made in
    (u, fits, subst (λ x. k u x ≡ ok r) same g)
