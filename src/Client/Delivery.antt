-- ===== src/Client/Delivery.antt =====
-- Instructions as the builders put them together, at the entry point of the program
-- (program/src/client.rs and program/src/lib.rs).
use bio_did_registry.Base.{
  ◌≡◌, refl, sym, ap, ◌∙◌, List, [], ◌∷◌, ◌++◌, append-nil, append_assoc, length,
}
use bio_did_registry.Error.{Result, ok, ◌>>=◌, >>=-eq-ok, ok_injective}
use bio_did_registry.Bytes.{Bytes, u32_le, u64_le}
use bio_did_registry.Reader
use bio_did_registry.Reader.Laws.{prefixed}
use bio_did_registry.Runtime.{Runtime}
use bio_did_registry.Document.{VerificationMethod, Service}
use bio_did_registry.Document
use bio_did_registry.Program.Entry.{entered}
use bio_did_registry.Program
use bio_did_registry.Program.{
  discriminator, instructions, find_instruction, find-discriminator, handle, dispatch,
  process_instruction,
}
use bio_did_registry.Client
use bio_did_registry.Client.Builders
use bio_did_registry.Client.{Instruction, AccountMeta, new, raw}
use bio_did_registry.Client.Calls.{Call, build, called, Fits, Reads, arguments}
use bio_did_registry.Client.Builders.{raw_all, str_all}
use bio_did_registry.Client.Arguments.{
  service_bytes, controller_bytes, method_args_lem, service_args_lem, fragment_args_lem,
  flags_args_lem, buffer_args_lem, chunk_args_lem, controller_args_lem,
}

-- The instruction is for the program, and carries these arguments behind the discriminator.
abbrev pub Carries : Runtime → Program.Instruction → Bytes → Instruction → Type 0
Carries rt i args ix = (ix.program_id ≡ rt.program_id) × (ix.content ≡ discriminator i ++ args)

-- An instruction over some accounts, completed by `f`.
built :
    {A : Type 0} (rt : Runtime) (i : Program.Instruction) (args : Bytes) (m : Result A)
    (f : A → Instruction) (ix : Instruction)
    → ((a : A) → Carries rt i args (f a))
    → (m >>= λ a. ok (f a)) ≡ ok ix
    → Carries rt i args ix
built rt i args m f ix carries h =
    let (a, e, g) = >>=-eq-ok m (λ a. ok (f a)) h in
    let same : f a ≡ ix = ok_injective g in rw (← same) (carries a)

-- The same over the accounts of an update or of a buffer.
over :
    (rt : Runtime) (i : Program.Instruction) (args : Bytes) (m : Result (List AccountMeta))
    (f : Instruction → Instruction) (ix : Instruction)
    → ((accounts : List AccountMeta) → Carries rt i args (f (new rt (discriminator i) accounts)))
    → (m >>= (λ accounts. ok (new rt (discriminator i) accounts)) >>= λ x. ok (f x)) ≡ ok ix
    → Carries rt i args ix
over rt i args m f ix carries h =
    let base : List AccountMeta → Result Instruction =
      λ accounts. ok (new rt (discriminator i) accounts) in
    let (x, e, g) = >>=-eq-ok (m >>= base) (λ x. ok (f x)) h in
    let (accounts, e', g') = >>=-eq-ok m base e in
    rw (← ok_injective g, ← ok_injective g') (carries accounts)

raw_all_lem :
    (ix : Instruction) (keys : List Bytes)
    → raw_all ix keys ≡ raw ix (Document.encode_all Document.raw keys)
unfolding raw_all
raw_all_lem ix [] = ap (λ b. record ix { content = b }) (sym (append-nil ix.content))
raw_all_lem ix (key ∷ keys) =
    raw_all_lem (raw ix key) keys
    ∙ ap (λ b. record ix { content = b })
        (append_assoc ix.content key (Document.encode_all Document.raw keys))

str_all_lem :
    (ix : Instruction) (dids : List Bytes)
    → str_all ix dids ≡ raw ix (Document.encode_all prefixed dids)
unfolding str_all
str_all_lem ix [] = ap (λ b. record ix { content = b }) (sym (append-nil ix.content))
str_all_lem ix (did ∷ dids) =
    str_all_lem (raw (raw ix (u32_le (length did))) did) dids
    ∙ ap (λ b. record ix { content = b }) (simp append_assoc)

-- The lists of `set_controllers` behind the head of an instruction.
set_controllers-Carries :
    (rt : Runtime) (natives others : List Bytes) (ix : Instruction)
    → Carries rt Program.set_controllers [] ix
    → Carries rt Program.set_controllers (controller_bytes natives others) (
        str_all
          (raw (raw_all (raw ix (u32_le (length natives))) natives) (u32_le (length others)))
          others)
set_controllers-Carries rt natives others ix (own, head) =
    rw
      (
        str_all_lem
            (raw (raw_all (raw ix (u32_le (length natives))) natives) (u32_le (length others)))
            others,
        raw_all_lem (raw ix (u32_le (length natives))) natives,
      )
      (own, rw head (simp (append_assoc, append-nil)))

-- The accounts do not matter to what is carried.
module _ (rt : Runtime) (payer authority subject : Bytes) where
  updated :
      (i : Program.Instruction) (args : Bytes) (f : Instruction → Instruction) (ix : Instruction)
      → ((accounts : List AccountMeta) → Carries rt i args (f (new rt (discriminator i) accounts)))
      → (Client.update_accounts rt payer authority subject
          >>= (λ accounts. ok (new rt (discriminator i) accounts))
          >>= λ x. ok (f x))
        ≡ ok ix
      → Carries rt i args ix
  updated i args f ix carries h =
      over rt i args (Client.update_accounts rt payer authority subject) f ix carries h

  -- What a builder returns carries the arguments of its call.
  pub carried :
      (c : Call) (ix : Instruction)
      → build rt payer authority subject c ≡ ok ix
      → Carries rt (called c) (arguments subject c) ix
  unfolding Builders.initialize Builders.initialize_owned Builders.deactivate
      Builders.add_verification_method_from_buffer Builders.close_key_buffer
      Builders.add_verification_method Builders.remove_verification_method
      Builders.set_verification_method_flags Builders.add_service Builders.update_service
      Builders.remove_service Builders.set_controllers Builders.create_key_buffer
      Builders.write_key_buffer
  carried Call.initialize ix h =
      built rt Program.initialize subject (Client.did_account rt subject) _ ix (λ a. (refl, refl)) h
  carried Call.deactivate ix h =
      built rt Program.deactivate [] (Client.update_accounts rt payer authority subject) _ ix
        (λ accounts. (refl, sym (append-nil _))) h
  carried Call.add_from_buffer ix h =
      built rt Program.add_verification_method_from_buffer []
        (Client.buffer_accounts rt payer authority subject) _ ix
        (λ accounts. (refl, sym (append-nil _))) h
  carried Call.close_buffer ix h =
      built rt Program.close_key_buffer [] (Client.key_buffer rt subject authority) _ ix
        (λ a. (refl, sym (append-nil _))) h
  carried (Call.initialize_owned nonce) ix h =
      let base : Bytes → Result Instruction = λ owned.
        Client.update_accounts rt payer authority owned
        >>= (λ accounts. ok (new rt (discriminator Program.initialize_owned) accounts))
        >>= λ x. ok (raw x (u64_le nonce)) in
      let (owned, e, g) = >>=-eq-ok (Client.owned_subject rt authority nonce) base h in
      over rt Program.initialize_owned (u64_le nonce)
        (Client.update_accounts rt payer authority owned) (λ x. raw x (u64_le nonce)) ix
        (λ accounts. (refl, refl)) g
  carried (Call.add_method m) ix h =
      updated Program.add_verification_method (Document.encode_vm m) _ ix
        (λ accounts. (refl, simp append_assoc)) h
  carried (Call.remove_method name) ix h =
      updated Program.remove_verification_method (prefixed name) _ ix
        (λ accounts. (refl, simp append_assoc)) h
  carried (Call.set_flags name flags) ix h =
      built rt Program.set_verification_method_flags (arguments subject (Call.set_flags name flags))
        (Client.did_account rt subject) _ ix (λ a. (refl, simp append_assoc)) h
  carried (Call.add_service s) ix h =
      updated Program.add_service (service_bytes s) _ ix (λ accounts. (refl, simp append_assoc)) h
  carried (Call.update_service s) ix h =
      updated Program.update_service (service_bytes s) _ ix (λ accounts. (refl, simp append_assoc))
        h
  carried (Call.remove_service name) ix h =
      updated Program.remove_service (prefixed name) _ ix (λ accounts. (refl, simp append_assoc)) h
  carried (Call.set_controllers natives others) ix h =
      updated Program.set_controllers (controller_bytes natives others) _ ix
        (λ accounts.
          set_controllers-Carries rt natives others
            (new rt (discriminator Program.set_controllers) accounts) (refl, sym (append-nil _)))
        h
  carried (Call.create_buffer m) ix h =
      over rt Program.create_key_buffer (arguments subject (Call.create_buffer m))
        (Client.buffer_accounts rt payer authority subject) _ ix
        (λ accounts. (refl, simp append_assoc)) h
  carried (Call.write_buffer offset chunk) ix h =
      built rt Program.write_key_buffer (u32_le offset ++ prefixed chunk)
        (Client.key_buffer rt subject authority) _ ix (λ a. (refl, simp append_assoc)) h

-- The arguments of a call are read back as its values.
read_back : (subject : Bytes) (c : Call) → Fits c → Reads subject c (arguments subject c)
unfolding Reader.finish
read_back subject Call.initialize h = refl
read_back subject Call.deactivate h = refl
read_back subject Call.add_from_buffer h = refl
read_back subject Call.close_buffer h = refl
read_back subject (Call.initialize_owned nonce) h = refl
read_back subject (Call.add_method m) (text, small, short) = method_args_lem m text small short
read_back subject (Call.remove_method name) h = fragment_args_lem name h
read_back subject (Call.set_flags name flags) h = flags_args_lem name flags h.0 h.1
read_back subject (Call.add_service s) h = service_args_lem s h.0 h.1 h.2
read_back subject (Call.update_service s) h = service_args_lem s h.0 h.1 h.2
read_back subject (Call.remove_service name) h = fragment_args_lem name h
read_back subject (Call.set_controllers natives others) (few, addresses, few', texts) =
    controller_args_lem natives others few addresses few' texts
read_back subject (Call.create_buffer m) (text, small, short) = buffer_args_lem m text small short
read_back subject (Call.write_buffer offset chunk) h = chunk_args_lem offset chunk h.0 h.1

-- Where a builder returns an instruction for a call whose values fit their types, the entry point
-- runs the handler of that instruction, and the handler reads the values of the call from its
-- arguments.
pub build-Reads :
    (rt : Runtime) (payer authority subject : Bytes) (c : Call) (ix : Instruction)
    (accounts : List Bytes)
    → Fits c
    → build rt payer authority subject c ≡ ok ix
    → (args : Bytes) × (process_instruction rt ix.program_id accounts ix.content
        ≡ handle rt (called c) accounts args)
      × Reads subject c args
build-Reads rt payer authority subject c ix accounts fits h =
    let (own, content) = carried rt payer authority subject c ix h in
    (
      arguments subject c,
      rw (own, content) (entered rt (called c) accounts (arguments subject c)),
      read_back subject c fits,
    )
