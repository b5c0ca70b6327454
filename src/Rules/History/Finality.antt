-- ===== src/Rules/History/Finality.antt =====
-- Instructions on a deactivated document (program/src/lib.rs, program/src/instructions/).
use bio_did_registry.Base.{
  ◌≡◌, sym, ap, subst, ◌∙◌, Bool, true, false, Option, none, some, List, [], ◌∷◌, ◌++◌, not, ◌&&◌,
  ◌==◌, ==_iff, arith, length, length-append, bytes_eq,
}
use bio_did_registry.Error.{
  ok, ok_injective, immutable, invalid_seeds, account_already_initialized, invalid_argument,
  invalid_instruction_data,
}
use bio_did_registry.Bytes.{Bytes}
use bio_did_registry.State.Consts.{did_seed, owned_subject_seeds}
use bio_did_registry.State.View.{view, is_deactivated}
use bio_did_registry.Document.{Document, IsDocument, encode, encode_header, encode_sections}
use bio_did_registry.Document.Decode.{length-header}
use bio_did_registry.Document.Entries.{doc_view}
use bio_did_registry.Document.Lookups.{is_deactivated-encode}
use bio_did_registry.Runtime.{Runtime, Store}
use bio_did_registry.Instructions.Shared.{find_pda}
use bio_did_registry.Instructions.Initialize
use bio_did_registry.Instructions.Initialize.{materialize}
use bio_did_registry.Instructions.InitializeOwned
use bio_did_registry.Program.{Instruction, discriminator, handle, process_instruction}
use bio_did_registry.Program
use bio_did_registry.Program.Entry.{entered}
use bio_did_registry.Rules.Authorization.{ensure_then, lift_then}
use bio_did_registry.Rules.Permits.{handled, process_instruction-Permits}
use bio_did_registry.Rules.Runs.{Authorized, view-encode, payer_then, signer_then, system_then}
use bio_did_registry.Rules.Updates.{IsAuthorized}
use bio_did_registry.Rules.Handlers.{MayFlag, MayOpen, MayAdd}
use bio_did_registry.Rules.History.Events.{AreBytes}

abbrev third : List Bytes → Option Bytes
third (x ∷ y ∷ z ∷ rest) = some z
third _ = none

abbrev second : List Bytes → Option Bytes
second (x ∷ y ∷ rest) = some y
second _ = none

-- The account that an instruction takes for the document: `did_account` of its account list. The
-- write and the close of a key buffer take none.
abbrev pub document_account : Instruction → List Bytes → Option Bytes
document_account Program.initialize = second
document_account Program.set_verification_method_flags = second
document_account Program.write_key_buffer = λ _. none
document_account Program.close_key_buffer = λ _. none
document_account _ = third

some_same : {x y : Bytes} → some x ≡ some y → x ≡ y
some_same h = cc

-- An account does not hold both a document in use and one that is not.
not_both :
    (d e : Document)
    → IsDocument d
    → IsDocument e
    → encode d ≡ encode e
    → ¬ (d.deactivated ≡ 0)
    → ¬ (e.deactivated ≡ 0)
not_both d e v w same dead living =
    let views : doc_view d ≡ doc_view e =
      ok_injective (sym (view-encode d v) ∙ (ap view same ∙ view-encode e w)) in
    let flags : not (d.deactivated == 0) ≡ not (e.deactivated == 0) =
      ok_injective
        (sym (is_deactivated-encode d v) ∙ (ap is_deactivated views ∙ is_deactivated-encode e w)) in
    dead (ground (arith, flags, living))

-- A document is not empty.
encode_nonempty : (d : Document) → IsDocument d → ¬ (length (encode d) ≡ 0)
unfolding encode
encode_nonempty d v h =
    omega (arith, h, length-append (encode_header d) (encode_sections d), length-header d v)

both_true : (p q : Bool) → (p && q) ≡ true → q ≡ true
both_true true q h = h
both_true false q h = cc

module _ (rt : Runtime) (a : Bytes) (s : Store) (d : Document) (v : IsDocument d)
    (holds : (s.accounts a).content ≡ encode d) where
  -- A document is created only in an empty account.
  created_on :
      (payer sys subject key : Bytes) (r : Unit {0} × Store)
      → ¬ (materialize rt payer a sys subject key s ≡ ok r)
  unfolding materialize
  created_on payer sys subject key r h =
      let h₁ = payer_then rt s r payer _ h in
      let h₂ = system_then rt s r sys _ h₁ in
      let (writable, h₃) = ensure_then (s.accounts a).is_writable immutable _ s r h₂ in
      let ((pda, bump), derived, h₄) = lift_then (find_pda rt (did_seed ∷ subject ∷ [])) _ s r h₃ in
      let (same, h₅) = ensure_then (bytes_eq a pda) invalid_seeds _ s r h₄ in
      let (empty, h₆) =
        ensure_then
          (bytes_eq (s.accounts a).owner rt.system_program_id && length (s.accounts a).content == 0)
          account_already_initialized _ s r h₅ in
      encode_nonempty d v (sym (ap length holds) ∙ (==_iff _ 0).0 (both_true _ _ empty))

  initialized_on :
      (accounts : List Bytes) (args : Bytes) (r : Unit {0} × Store)
      → second accounts ≡ some a
      → ¬ (Initialize.process rt accounts args s ≡ ok r)
  unfolding Initialize.process Initialize.process_accounts
  initialized_on [] args r at h = cc
  initialized_on (payer ∷ []) args r at h = cc
  initialized_on (payer ∷ b ∷ []) args r at h = cc
  initialized_on (payer ∷ b ∷ sys ∷ rest) args r at h =
      let (size, h₁) = ensure_then (length args == 32) invalid_instruction_data _ s r h in
      let (on_curve, h₂) = ensure_then (rt.bytes_are_curve_point args) invalid_argument _ s r h₁ in
      created_on payer sys args args r
        (subst (λ c. materialize rt payer c sys args args s ≡ ok r) (some_same at) h₂)

  owned_on :
      (accounts : List Bytes) (args : Bytes) (r : Unit {0} × Store)
      → third accounts ≡ some a
      → ¬ (InitializeOwned.process rt accounts args s ≡ ok r)
  unfolding InitializeOwned.process InitializeOwned.process_accounts
  owned_on [] args r at h = cc
  owned_on (payer ∷ []) args r at h = cc
  owned_on (payer ∷ authority ∷ []) args r at h = cc
  owned_on (payer ∷ authority ∷ b ∷ []) args r at h = cc
  owned_on (payer ∷ authority ∷ b ∷ sys ∷ rest) args r at h =
      let (signed, h₁) = signer_then rt s r authority _ h in
      let (size, h₂) = ensure_then (length args == 8) invalid_instruction_data _ s r h₁ in
      let ((subject, bump), derived, h₃) =
        lift_then (find_pda rt (owned_subject_seeds authority args)) _ s r h₂ in
      created_on payer sys subject authority r
        (subst (λ c. materialize rt payer c sys subject authority s ≡ ok r) (some_same at) h₃)

  module _ (dead : ¬ (d.deactivated ≡ 0)) where
    -- Nobody is authorized on a document that is deactivated.
    none-Authorized :
        (signer b : Bytes) (control : Option Bytes) (e : Document)
        → b ≡ a
        → ¬ Authorized rt s signer b control e
    none-Authorized signer b control e same (w, held, own, placed, signed, living, may) =
        not_both d e v w (sym holds ∙ (ap (λ c. (s.accounts c).content) (sym same) ∙ held)) dead
          living

    refused : (accounts : List Bytes) → third accounts ≡ some a → ¬ IsAuthorized rt s accounts
    refused accounts at (u, (sys, rest, split, control, signed, loaded), e, ok_for) =
        none-Authorized u.authority u.did_account u.controller e
          (some_same (sym (ap third split) ∙ at)) ok_for

    flags_refused : (accounts : List Bytes) → second accounts ≡ some a → ¬ MayFlag rt s accounts
    flags_refused accounts at (authority, b, rest, split, e, ok_for) =
        none-Authorized authority b _ e (some_same (sym (ap second split) ∙ at)) ok_for

    opening_refused : (accounts : List Bytes) → third accounts ≡ some a → ¬ MayOpen rt s accounts
    opening_refused accounts at (payer, authority, b, buffer, sys, rest, split, e, ok_for) =
        none-Authorized authority b _ e (some_same (sym (ap third split) ∙ at)) ok_for

    addition_refused : (accounts : List Bytes) → third accounts ≡ some a → ¬ MayAdd rt s accounts
    addition_refused accounts at (payer, authority, b, buffer, sys, rest, split, owned, e, ok_for) =
        none-Authorized authority b _ e (some_same (sym (ap third split) ∙ at)) ok_for

    not_handled :
        (i : Instruction) (accounts : List Bytes) (args : Bytes) (r : Unit {0} × Store)
        → AreBytes s
        → document_account i accounts ≡ some a
        → ¬ (handle rt i accounts args s ≡ ok r)
    unfolding handle
    not_handled Program.initialize accounts args r stored at h = initialized_on accounts args r at h
    not_handled Program.initialize_owned accounts args r stored at h = owned_on accounts args r at h
    not_handled Program.set_verification_method_flags accounts args r stored at h =
        flags_refused accounts at
          (handled rt accounts s r stored Program.set_verification_method_flags args h)
    not_handled Program.create_key_buffer accounts args r stored at h =
        opening_refused accounts at
          (handled rt accounts s r stored Program.create_key_buffer args h)
    not_handled Program.add_verification_method_from_buffer accounts args r stored at h =
        addition_refused accounts at
          (handled rt accounts s r stored Program.add_verification_method_from_buffer args h)
    not_handled Program.write_key_buffer accounts args r stored at h = cc
    not_handled Program.close_key_buffer accounts args r stored at h = cc
    not_handled Program.add_verification_method accounts args r stored at h =
        refused accounts at (handled rt accounts s r stored Program.add_verification_method args h)
    not_handled Program.remove_verification_method accounts args r stored at h =
        refused accounts at
          (handled rt accounts s r stored Program.remove_verification_method args h)
    not_handled Program.add_service accounts args r stored at h =
        refused accounts at (handled rt accounts s r stored Program.add_service args h)
    not_handled Program.update_service accounts args r stored at h =
        refused accounts at (handled rt accounts s r stored Program.update_service args h)
    not_handled Program.remove_service accounts args r stored at h =
        refused accounts at (handled rt accounts s r stored Program.remove_service args h)
    not_handled Program.set_controllers accounts args r stored at h =
        refused accounts at (handled rt accounts s r stored Program.set_controllers args h)
    not_handled Program.deactivate accounts args r stored at h =
        refused accounts at (handled rt accounts s r stored Program.deactivate args h)

-- In a store of bytes, where an account holds a well-formed document whose flag of deactivation
-- is not zero, no instruction whose account list has it at the place of the document account
-- succeeds through the entry point, for any program id and any arguments. That place is the
-- second for `initialize` and `set_verification_method_flags` and the third for the others, but
-- for `write_key_buffer` and `close_key_buffer`, which have none.
pub process_instruction-refuses_deactivated :
    (rt : Runtime) (program_id : Bytes) (i : Instruction) (accounts : List Bytes) (args : Bytes)
    (s : Store) (r : Unit {0} × Store) (a : Bytes) (d : Document)
    → AreBytes s
    → document_account i accounts ≡ some a
    → IsDocument d
    → (s.accounts a).content ≡ encode d
    → ¬ (d.deactivated ≡ 0)
    → ¬ (process_instruction rt program_id accounts (discriminator i ++ args) s ≡ ok r)
process_instruction-refuses_deactivated rt program_id i accounts args s r a d stored at v holds dead
      h =
    let (j, args', own, split, run, permits) =
      process_instruction-Permits rt program_id accounts (discriminator i ++ args) s r stored h in
    not_handled rt a s d v holds dead i accounts args r stored at (
      ap (λ f. f s) (sym (entered rt i accounts args))
      ∙ subst (λ p. process_instruction rt p accounts (discriminator i ++ args) s ≡ ok r) own h)
