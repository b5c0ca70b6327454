-- ===== src/Rules/Handlers.antt =====
-- Who passes the handlers that take their own account lists (program/src/instructions/).
use bio_did_registry.Base.{◌≡◌, refl, true, none, some, List, [], ◌∷◌, All, ◌==◌}
use bio_did_registry.Error.{ok, ok_or, require, invalid_instruction_data, key_buffer_incomplete}
use bio_did_registry.Bytes.{Bytes, IsByte}
use bio_did_registry.Document.{Document}
use bio_did_registry.Runtime.{Runtime, Store}
use bio_did_registry.State.Consts.{expected_key_len}
use bio_did_registry.State.KeyBuffer
use bio_did_registry.Instructions.Shared.{first}
use bio_did_registry.Instructions.Args.{parse_args, flags_args, buffer_args, no_args}
use bio_did_registry.Instructions.SetVerificationMethodFlags
use bio_did_registry.Instructions.CreateKeyBuffer
use bio_did_registry.Instructions.WriteKeyBuffer
use bio_did_registry.Instructions.CloseKeyBuffer
use bio_did_registry.Instructions.AddVerificationMethodFromBuffer
use bio_did_registry.Instructions.InitializeOwned
use bio_did_registry.Rules.Authorization.{ensure_then, lift_then}
use bio_did_registry.Rules.Runs.{
  Authorized, payer_then, signer_then, system_then, load_then, verify_then, authorize_then,
}
use bio_did_registry.Rules.Buffers.{IsBuffer, check_then, owning_then}

-- The account signed the transaction.
abbrev pub Signed : Store → Bytes → Type 0
Signed s a = (s.accounts a).is_signer ≡ true

-- `set_verification_method_flags`: `[authority, did_account, controller?]`
abbrev pub MayFlag : Runtime → Store → List Bytes → Type 0
MayFlag rt s accounts =
    (authority : Bytes) × (a : Bytes) × (rest : List Bytes) × (accounts ≡ authority ∷ a ∷ rest)
    × (d : Document) × Authorized rt s authority a (first rest) d

-- `create_key_buffer`: `[payer, authority, did_account, key_buffer, system_program, controller?]`
abbrev pub MayOpen : Runtime → Store → List Bytes → Type 0
MayOpen rt s accounts =
    (payer : Bytes) × (authority : Bytes) × (a : Bytes) × (buffer : Bytes) × (sys : Bytes)
    × (rest : List Bytes) × (accounts ≡ payer ∷ authority ∷ a ∷ buffer ∷ sys ∷ rest)
    × (d : Document) × Authorized rt s authority a (first rest) d

-- `add_verification_method_from_buffer`: the same accounts, and the buffer is the signer's, for
-- that document.
abbrev pub MayAdd : Runtime → Store → List Bytes → Type 0
MayAdd rt s accounts =
    (payer : Bytes) × (authority : Bytes) × (a : Bytes) × (buffer : Bytes) × (sys : Bytes)
    × (rest : List Bytes) × (accounts ≡ payer ∷ authority ∷ a ∷ buffer ∷ sys ∷ rest)
    × IsBuffer rt s buffer authority (some a)
    × (d : Document) × Authorized rt s authority a (first rest) d

-- `write_key_buffer`: `[authority, key_buffer]`, where the buffer is the signer's.
abbrev pub MayWrite : Runtime → Store → List Bytes → Type 0
MayWrite rt s accounts =
    (authority : Bytes) × (buffer : Bytes) × (rest : List Bytes) × (accounts
      ≡ authority ∷ buffer ∷ rest)
    × Signed s authority
    × IsBuffer rt s buffer authority none

-- `close_key_buffer`: `[payer, authority, key_buffer]`, where the buffer is the signer's.
abbrev pub MayClose : Runtime → Store → List Bytes → Type 0
MayClose rt s accounts =
    (payer : Bytes) × (authority : Bytes) × (buffer : Bytes) × (rest : List Bytes) × (accounts
      ≡ payer ∷ authority ∷ buffer ∷ rest)
    × Signed s authority
    × IsBuffer rt s buffer authority none

-- `initialize_owned`: `[payer, authority, did_account, system_program]`
abbrev pub MayCreate : Store → List Bytes → Type 0
MayCreate s accounts =
    (payer : Bytes) × (authority : Bytes) × (a : Bytes) × (sys : Bytes) × (rest : List Bytes)
    × (accounts ≡ payer ∷ authority ∷ a ∷ sys ∷ rest)
    × Signed s authority

module _ (rt : Runtime) (args : Bytes) (s : Store) (r : Unit {0} × Store)
    (are_bytes : (c : Bytes) → All IsByte (s.accounts c).content) where
  pub flags-MayFlag :
      (accounts : List Bytes)
      → SetVerificationMethodFlags.process rt accounts args s ≡ ok r
      → MayFlag rt s accounts
  unfolding SetVerificationMethodFlags.process SetVerificationMethodFlags.process_accounts
  flags-MayFlag [] h = cc
  flags-MayFlag (authority ∷ []) h = cc
  flags-MayFlag (authority ∷ a ∷ rest) h =
      let (signed, h₁) = signer_then rt s r authority _ h in
      let (subject, loaded, h₂) = verify_then rt s r a _ h₁ in
      let (values, parsed, h₃) = lift_then (parse_args flags_args args) _ s r h₂ in
      let (d, authorized, h₄) =
        authorize_then rt s r authority a subject (first rest) _ are_bytes signed loaded h₃ in
      (authority, a, rest, refl, d, authorized)

  pub create-MayOpen :
      (accounts : List Bytes)
      → CreateKeyBuffer.process rt accounts args s ≡ ok r
      → MayOpen rt s accounts
  unfolding CreateKeyBuffer.process CreateKeyBuffer.process_accounts
  create-MayOpen [] h = cc
  create-MayOpen (payer ∷ []) h = cc
  create-MayOpen (payer ∷ authority ∷ []) h = cc
  create-MayOpen (payer ∷ authority ∷ a ∷ []) h = cc
  create-MayOpen (payer ∷ authority ∷ a ∷ buffer ∷ []) h = cc
  create-MayOpen (payer ∷ authority ∷ a ∷ buffer ∷ sys ∷ rest) h =
      let h₁ = payer_then rt s r payer _ h in
      let (signed, h₂) = signer_then rt s r authority _ h₁ in
      let h₃ = system_then rt s r sys _ h₂ in
      let (subject, loaded, h₄) = load_then rt s r a _ h₃ in
      let (writable, h₅) = ensure_then (s.accounts buffer).is_writable _ _ s r h₄ in
      let (m, parsed, h₆) = lift_then (parse_args buffer_args args) _ s r h₅ in
      let (n, known, h₇) =
        lift_then (ok_or (expected_key_len m.method_type) invalid_instruction_data) _ s r h₆ in
      let (d, authorized, h₈) =
        authorize_then rt s r authority a subject (first rest) _ are_bytes signed loaded h₇ in
      (payer, authority, a, buffer, sys, rest, refl, d, authorized)

  pub add-MayAdd :
      (accounts : List Bytes)
      → AddVerificationMethodFromBuffer.process rt accounts args s ≡ ok r
      → MayAdd rt s accounts
  unfolding AddVerificationMethodFromBuffer.process AddVerificationMethodFromBuffer.process_accounts
  add-MayAdd [] h = cc
  add-MayAdd (payer ∷ []) h = cc
  add-MayAdd (payer ∷ authority ∷ []) h = cc
  add-MayAdd (payer ∷ authority ∷ a ∷ []) h = cc
  add-MayAdd (payer ∷ authority ∷ a ∷ buffer ∷ []) h = cc
  add-MayAdd (payer ∷ authority ∷ a ∷ buffer ∷ sys ∷ rest) h =
      let (u, parsed, h₁) = lift_then (parse_args no_args args) _ s r h in
      let h₂ = payer_then rt s r payer _ h₁ in
      let (signed, h₃) = signer_then rt s r authority _ h₂ in
      let h₄ = system_then rt s r sys _ h₃ in
      let (subject, loaded, h₅) = verify_then rt s r a _ h₄ in
      let (owned, h₆) = owning_then rt s r buffer authority (some a) _ h₅ in
      let (kb, read, h₇) = lift_then (KeyBuffer.parse (s.accounts buffer).content) _ s r h₆ in
      let (u, complete, h₈) =
        lift_then (require (kb.written == kb.key_len) key_buffer_incomplete) _ s r h₇ in
      let (n, known, h₉) =
        lift_then (ok_or (expected_key_len kb.method_type) invalid_instruction_data) _ s r h₈ in
      let (d, authorized, rest_of) =
        authorize_then rt s r authority a subject (first rest) _ are_bytes signed loaded h₉ in
      (payer, authority, a, buffer, sys, rest, refl, owned, d, authorized)

  pub write-MayWrite :
      (accounts : List Bytes)
      → WriteKeyBuffer.process rt accounts args s ≡ ok r
      → MayWrite rt s accounts
  unfolding WriteKeyBuffer.process WriteKeyBuffer.process_accounts
  write-MayWrite [] h = cc
  write-MayWrite (authority ∷ []) h = cc
  write-MayWrite (authority ∷ buffer ∷ rest) h =
      let (signed, h₁) = signer_then rt s r authority _ h in
      let (owned, q, lengths, h₂) = check_then rt s r buffer authority none _ h₁ in
      (authority, buffer, rest, refl, signed, owned)

  pub close-MayClose :
      (accounts : List Bytes)
      → CloseKeyBuffer.process rt accounts args s ≡ ok r
      → MayClose rt s accounts
  unfolding CloseKeyBuffer.process CloseKeyBuffer.process_accounts
  close-MayClose [] h = cc
  close-MayClose (payer ∷ []) h = cc
  close-MayClose (payer ∷ authority ∷ []) h = cc
  close-MayClose (payer ∷ authority ∷ buffer ∷ rest) h =
      let (u, parsed, h₁) = lift_then (parse_args no_args args) _ s r h in
      let h₂ = payer_then rt s r payer _ h₁ in
      let (signed, h₃) = signer_then rt s r authority _ h₂ in
      let (owned, h₄) = owning_then rt s r buffer authority none _ h₃ in
      (payer, authority, buffer, rest, refl, signed, owned)

  pub owned-MayCreate :
      (accounts : List Bytes)
      → InitializeOwned.process rt accounts args s ≡ ok r
      → MayCreate s accounts
  unfolding InitializeOwned.process InitializeOwned.process_accounts
  owned-MayCreate [] h = cc
  owned-MayCreate (payer ∷ []) h = cc
  owned-MayCreate (payer ∷ authority ∷ []) h = cc
  owned-MayCreate (payer ∷ authority ∷ a ∷ []) h = cc
  owned-MayCreate (payer ∷ authority ∷ a ∷ sys ∷ rest) h =
      let (signed, h₁) = signer_then rt s r authority _ h in
      (payer, authority, a, sys, rest, refl, signed)
