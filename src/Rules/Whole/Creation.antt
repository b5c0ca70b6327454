-- ===== src/Rules/Whole/Creation.antt =====
-- Whole runs of `initialize` and `initialize_owned`, over the store
-- (program/src/instructions/initialize.rs, initialize_owned.rs).
use bio_did_registry.Base.{
  ℕ, ◌^◌, ◌<◌, ◌≡◌, refl, sym, ap, subst, ◌∙◌, true, Bool-cases, inl, inr, ◌==◌, ==_iff, List, [],
  ◌∷◌, length, arith, All, ◌&&◌, bytes_eq, bytes_eq_sound,
}
use bio_did_registry.Error.{
  ProgramError, Result, ok, err, ok_injective, >>=-eq-ok, account_data_too_small, immutable,
  invalid_seeds, account_already_initialized, invalid_instruction_data, invalid_argument,
}
use bio_did_registry.Error
use bio_did_registry.Bytes.{Bytes, IsByte}
use bio_did_registry.State.Consts.{initial_space, did_seed, owned_subject_seeds}
use bio_did_registry.Document.{IsKey, encode}
use bio_did_registry.Document.Lifecycle.{initial, write_initial-encode}
use bio_did_registry.Runtime.{Runtime, Store, Act, ◌>>=◌, ◌>>◌, lift, edit}
use bio_did_registry.Events.{did_initialized, emit}
use bio_did_registry.Instructions.Shared.{find_pda, rent_minimum_balance}
use bio_did_registry.Instructions.Create.{create}
use bio_did_registry.Instructions.Initialize.{write_initial, materialize, process_accounts, process}
use bio_did_registry.Instructions.InitializeOwned
use bio_did_registry.Rules.Authorization.{lift_then, ensure_then}
use bio_did_registry.Rules.Storage.{RuntimeLaws, edit_then, emit-SameContent}
use bio_did_registry.Rules.Runs.{payer_then, signer_then, system_then}
use bio_did_registry.Rules.Health.{IsHealthy}

-- The bump of a derived address is a byte.
abbrev pub BumpsAreBytes : Runtime → Type 0
BumpsAreBytes rt =
    (seeds : List Bytes) (pda : Bytes) (bump : ℕ) → find_pda rt seeds ≡ ok (pda, bump) → bump < 256

-- The account holds the first document of the subject, at the subject's address.
abbrev pub Created : Runtime → Store → Bytes → Bytes → Bytes → Type 0
Created rt t a subject key =
    (bump : ℕ) × (now : ℕ) × (find_pda rt (did_seed ∷ subject ∷ []) ≡ ok (a, bump))
    × ((t.accounts a).content ≡ encode (initial bump subject key now))
    × IsHealthy (initial bump subject key now)

initial-IsHealthy :
    (bump : ℕ) (subject key : Bytes) (now : ℕ)
    → bump < 256
    → IsKey subject
    → IsKey key
    → now < 2 ^ 64
    → IsHealthy (initial bump subject key now)
unfolding bytes_eq
initial-IsHealthy bump subject key now byte own own' range = record {
  fits = record {
    discriminator_len = refl;
    discriminator_bytes = ground arith;
    version_range = omega arith;
    bump_range = byte;
    subject_key = own;
    deactivated_range = omega arith;
    updated_at_range = range;
    native_count = omega arith;
    native_keys = tt;
    other_count = omega arith;
    other_short = tt;
    method_count = omega arith;
    method_ranges = (
      ((omega arith, ground arith), omega arith, omega arith, (omega (arith, own'.0), own'.1)),
      tt,
    );
    service_count = omega arith;
    service_ranges = tt;
  };
  governed = omega arith;
  unique = (refl, tt);
  few_methods = omega arith;
  few_services = omega arith;
}

-- The writes demand an account of the right size.
write_initial_inv :
    (bump : ℕ) (subject key : Bytes) (now : ℕ) (bytes result : Bytes)
    → IsKey subject
    → IsKey key
    → write_initial bump subject key now bytes ≡ ok result
    → result ≡ encode (initial bump subject key now)
unfolding write_initial
write_initial_inv bump subject key now bytes result own own' h =
    elim (Bool-cases (length bytes == initial_space)) [
      | inl fits ↦ ok_injective (
          sym h
          ∙ write_initial-encode bump subject key now bytes own.0 own'.0 ((==_iff _ _).0 fits))
      | inr other ↦ absurd (refused (rw (other, write_initial) at h))
    ]
  where
    refused : err account_data_too_small ≡ ok result → ⊥
    refused e = cc

module _ (rt : Runtime) (laws : RuntimeLaws rt) (bumps : BumpsAreBytes rt) (payer a sys : Bytes)
    (s : Store) (r : Unit {0} × Store) where
  materialize-Created :
      (subject key : Bytes)
      → IsKey subject
      → IsKey key
      → materialize rt payer a sys subject key s ≡ ok r
      → Created rt r.1 a subject key
  unfolding materialize
  materialize-Created subject key own own' h =
      let h₁ = payer_then rt s r payer _ h in
      let h₂ = system_then rt s r sys _ h₁ in
      let (writable, h₃) = ensure_then (s.accounts a).is_writable immutable _ s r h₂ in
      let ((pda, bump), derived, h₄) = lift_then (find_pda rt (did_seed ∷ subject ∷ [])) _ s r h₃ in
      let (same, h₅) = ensure_then (bytes_eq a pda) invalid_seeds _ s r h₄ in
      let (empty, h₆) =
        ensure_then
          (bytes_eq (s.accounts a).owner rt.system_program_id && length (s.accounts a).content == 0)
          account_already_initialized _ s r h₅ in
      let (rent_min, priced, h₇) = lift_then (rent_minimum_balance rt initial_space) _ s r h₆ in
      let write : ℕ → Bytes → Result (Bytes × Unit {0}) =
        λ now b. Error.◌>>=◌ (write_initial bump subject key now b) (λ b. ok (b, tt)) in
      let tail : ℕ → Act (Unit {0}) =
        λ now. edit a (write now) >> emit did_initialized a subject 1 in
      let ((u, t), created, h₈) =
        >>=-eq-ok
          (create rt (did_seed ∷ subject ∷ (bump ∷ []) ∷ []) payer a rent_min initial_space s)
          (λ p. (lift rt.unix_timestamp >>= tail) p.1) h₇ in
      let (now, clock, h₉) = lift_then rt.unix_timestamp tail t r h₈ in
      let (p, t', made, stored, h₁₀) =
        edit_then a (write now) (λ _. emit did_initialized a subject 1) t r h₉ in
      let (bytes, written, ended) =
        >>=-eq-ok (write_initial bump subject key now (t.accounts a).content) (λ b. ok (b, tt))
          made in
      let at_address : pda ≡ a = sym (bytes_eq_sound a pda same) in
      (
        bump,
        now,
        subst (λ x. find_pda rt (did_seed ∷ subject ∷ []) ≡ ok (x, bump)) at_address derived,
        emit-SameContent did_initialized a subject 1 t' r h₁₀ a
            ∙ (stored
                ∙ (ap (λ q. q.0) (sym (ok_injective ended))
                    ∙ write_initial_inv bump subject key now (t.accounts a).content bytes own own'
                        written)),
        initial-IsHealthy bump subject key now (bumps _ pda bump derived) own own'
            (laws.clock_range now clock),
      )

  -- With a runtime that keeps its laws and whose bumps are bytes, where `initialize` succeeds on
  -- arguments of bytes, the document account is the address that the arguments as a subject
  -- derive, and holds the first document of that subject with its key, which is well formed and
  -- has an authority, unique names, and no more methods and services than allowed.
  pub initialize-Created :
      (rest : List Bytes) (args : Bytes)
      → All IsByte args
      → process rt (payer ∷ a ∷ sys ∷ rest) args s ≡ ok r
      → Created rt r.1 a args args
  unfolding process process_accounts
  initialize-Created rest args args_bytes h =
      let (size, h₁) = ensure_then (length args == 32) invalid_instruction_data _ s r h in
      let (on_curve, h₂) = ensure_then (rt.bytes_are_curve_point args) invalid_argument _ s r h₁ in
      let own : IsKey args = ((==_iff _ _).0 size, args_bytes) in
      materialize-Created args args own own h₂

  -- The subject of `initialize_owned` is an address that its authority's key derives.
  pub initialize_owned-Created :
      (authority : Bytes) (rest : List Bytes) (args : Bytes)
      → IsKey authority
      → ((seeds : List Bytes) (pda : Bytes) (bump : ℕ)
          → find_pda rt seeds ≡ ok (pda, bump)
          → IsKey pda)
      → InitializeOwned.process rt (payer ∷ authority ∷ a ∷ sys ∷ rest) args s ≡ ok r
      → (subject : Bytes) × (bump : ℕ) × ((s.accounts authority).is_signer ≡ true)
        × (find_pda rt (owned_subject_seeds authority args) ≡ ok (subject, bump))
        × Created rt r.1 a subject authority
  unfolding InitializeOwned.process InitializeOwned.process_accounts
  initialize_owned-Created authority rest args own addresses h =
      let (signed, h₁) = signer_then rt s r authority _ h in
      let (size, h₂) = ensure_then (length args == 8) invalid_instruction_data _ s r h₁ in
      let ((subject, bump), derived, h₃) =
        lift_then (find_pda rt (owned_subject_seeds authority args)) _ s r h₂ in
      (
        subject,
        bump,
        signed,
        derived,
        materialize-Created subject authority (addresses _ subject bump derived) own h₃,
      )
