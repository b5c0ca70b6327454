-- ===== src/Rules/Permits.antt =====
-- Who passes the entry point (program/src/lib.rs), for every instruction.
use bio_did_registry.Base.{
  ◌≡◌, sym, ap, subst, ◌∙◌, true, some, List, [], ◌∷◌, ◌++◌, All, bytes_eq, bytes_eq_sound,
  Bool-cases, Option-cases, inl, inr,
}
use bio_did_registry.Error.{ok, invalid_instruction_data, incorrect_program_id}
use bio_did_registry.Bytes.{Bytes, IsByte, split_at_checked}
use bio_did_registry.Reader.Laws.{split_sound}
use bio_did_registry.Runtime.{Runtime, Store, fail}
use bio_did_registry.Program.{
  Instruction, discriminator, instructions, find_instruction, handle, dispatch, process_instruction,
}
use bio_did_registry.Program
use bio_did_registry.Rules.Updates.{
  IsAuthorized, add_method-IsAuthorized, remove_method-IsAuthorized, add_service-IsAuthorized,
  update_service-IsAuthorized, remove_service-IsAuthorized, set_controllers-IsAuthorized,
  deactivate-IsAuthorized,
}
use bio_did_registry.Rules.Handlers.{
  MayFlag, MayOpen, MayAdd, MayWrite, MayClose, MayCreate, flags-MayFlag, create-MayOpen,
  add-MayAdd, write-MayWrite, close-MayClose, owned-MayCreate,
}

-- What each instruction asks of its accounts. Anyone may sponsor `initialize`.
abbrev pub Permits : Runtime → Store → List Bytes → Instruction → Type 0
Permits rt s accounts Program.initialize = Unit {0}
Permits rt s accounts Program.initialize_owned = MayCreate s accounts
Permits rt s accounts Program.set_verification_method_flags = MayFlag rt s accounts
Permits rt s accounts Program.create_key_buffer = MayOpen rt s accounts
Permits rt s accounts Program.write_key_buffer = MayWrite rt s accounts
Permits rt s accounts Program.add_verification_method_from_buffer = MayAdd rt s accounts
Permits rt s accounts Program.close_key_buffer = MayClose rt s accounts
Permits rt s accounts _ = IsAuthorized rt s accounts

module _ (rt : Runtime) (accounts : List Bytes) (s : Store) (r : Unit {0} × Store)
    (are_bytes : (c : Bytes) → All IsByte (s.accounts c).content) where
  pub handled :
      (i : Instruction) (args : Bytes)
      → handle rt i accounts args s ≡ ok r
      → Permits rt s accounts i
  unfolding handle
  handled Program.initialize args h = tt
  handled Program.add_verification_method args h =
      add_method-IsAuthorized rt accounts args s r are_bytes h
  handled Program.remove_verification_method args h =
      remove_method-IsAuthorized rt accounts args s r are_bytes h
  handled Program.set_verification_method_flags args h =
      flags-MayFlag rt args s r are_bytes accounts h
  handled Program.add_service args h = add_service-IsAuthorized rt accounts args s r are_bytes h
  handled Program.remove_service args h =
      remove_service-IsAuthorized rt accounts args s r are_bytes h
  handled Program.set_controllers args h =
      set_controllers-IsAuthorized rt accounts args s r are_bytes h
  handled Program.deactivate args h = deactivate-IsAuthorized rt accounts args s r are_bytes h
  handled Program.create_key_buffer args h = create-MayOpen rt args s r are_bytes accounts h
  handled Program.write_key_buffer args h = write-MayWrite rt args s r are_bytes accounts h
  handled Program.add_verification_method_from_buffer args h =
      add-MayAdd rt args s r are_bytes accounts h
  handled Program.close_key_buffer args h = close-MayClose rt args s r are_bytes accounts h
  handled Program.initialize_owned args h = owned-MayCreate rt args s r are_bytes accounts h
  handled Program.update_service args h =
      update_service-IsAuthorized rt accounts args s r are_bytes h

-- The instruction that is found has the discriminator that was looked for.
found :
    (j i : Instruction) (disc : Bytes)
    → bytes_eq (discriminator j) disc ≡ true
    → some j ≡ some i
    → discriminator i ≡ disc
found j i disc same h = subst (λ k. discriminator k ≡ disc) (cc) (bytes_eq_sound _ _ same)

find_sound :
    (is : List Instruction) (disc : Bytes) (i : Instruction)
    → find_instruction is disc ≡ some i
    → discriminator i ≡ disc
unfolding find_instruction
find_sound [] disc i h = cc
find_sound (j ∷ is) disc i h = elim (Bool-cases (bytes_eq (discriminator j) disc)) [
  | inl same ↦ found j i disc same (rw same at h)
  | inr other ↦ find_sound is disc i (rw other at h)
]

dispatch_inv :
    (rt : Runtime) (accounts : List Bytes) (input : Bytes) (s : Store) (r : Unit {0} × Store)
    → dispatch rt accounts input s ≡ ok r
    → (i : Instruction) × (args : Bytes) × (input ≡ discriminator i ++ args)
      × (handle rt i accounts args s ≡ ok r)
unfolding dispatch
dispatch_inv rt accounts input s r h = elim (Option-cases (split_at_checked 8 input)) [
  | inl short ↦ absurd (failed s r (rw (short, dispatch) at h))
  | inr ((disc, args), cut) ↦ elim (Option-cases (find_instruction instructions disc)) [
    | inl unknown ↦ absurd (failed s r (rw (unknown, dispatch) at (rw (cut, dispatch) at h)))
    | inr (i, known) ↦ (
      i,
      args,
      (split_sound 8 input disc args cut).0
          ∙ ap (λ d. d ++ args) (sym (find_sound instructions disc i known)),
      rw (known, dispatch) at (rw (cut, dispatch) at h),
    )
  ]
]
  where
    failed :
        (s : Store) (r : Unit {0} × Store)
        → fail {A = Unit {0}} invalid_instruction_data s ≡ ok r
        → ⊥
    failed s r e = cc

-- Where the entry point succeeds, in a store of bytes, it was called for this program, on the
-- discriminator of an instruction and its arguments, the handler ran to success, and the accounts
-- are what the instruction asks for. An update: a signer, and the program's account of a live
-- document that the signer may update. A key buffer's write or close: a signer, and a buffer that
-- it opened. An addition from a buffer: both, and the buffer is for that document.
-- `initialize_owned`: a signer. `initialize`: nothing.
pub process_instruction-Permits :
    (rt : Runtime) (program_id : Bytes) (accounts : List Bytes) (input : Bytes) (s : Store)
    (r : Unit {0} × Store)
    → ((c : Bytes) → All IsByte (s.accounts c).content)
    → process_instruction rt program_id accounts input s ≡ ok r
    → (i : Instruction) × (args : Bytes) × (program_id ≡ rt.program_id)
      × (input ≡ discriminator i ++ args)
      × (handle rt i accounts args s ≡ ok r)
      × Permits rt s accounts i
unfolding process_instruction
process_instruction-Permits rt program_id accounts input s r are_bytes h =
    elim (Bool-cases (bytes_eq program_id rt.program_id)) [
      | inl own ↦
          let (i, args, split, run) = dispatch_inv rt accounts input s r (rw own at h) in
          (
            i,
            args,
            bytes_eq_sound _ _ own,
            split,
            run,
            handled rt accounts s r are_bytes i args run,
          )
      | inr other ↦ absurd (failed s r (rw other at h))
    ]
  where
    failed :
        (s : Store) (r : Unit {0} × Store) → fail {A = Unit {0}} incorrect_program_id s ≡ ok r → ⊥
    failed s r e = cc
