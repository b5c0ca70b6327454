-- ===== src/Tests/Handlers.antt =====
-- The theorems on whole handlers, at a run that changes the flags of the sample's second method.
use bio_did_registry.Base.{ℕ, ◌≡◌, ◌<◌, ◌^◌, refl, true, none, [], ◌∷◌, ◌++◌, All, arith, bytes_eq}
use bio_did_registry.Error.{Result, ok, err, panic, require, ok_injective}
use bio_did_registry.Bytes.{
  Bytes, IsByte, u16_le, to_le_bytes, from_le_bytes, split_at_checked, slice, copy_from_slice,
}
use bio_did_registry.Utf8.{from_utf8}
use bio_did_registry.Reader.{at, len_prefixed, bytes, finish, str}
use bio_did_registry.Reader.Laws.{prefixed}
use bio_did_registry.State.Sections.{parse}
use bio_did_registry.State.View.{view, find_vm, vms, is_authority, is_deactivated, authority_count}
use bio_did_registry.State.Checks.{validate_vm_flags}
use bio_did_registry.State.Edits.{stamp, touch, version}
use bio_did_registry.Document.{encode}
use bio_did_registry.Runtime.{Store}
use bio_did_registry.Events.{event_bytes}
use bio_did_registry.Instructions.Args.{flags_args}
use bio_did_registry.Instructions.SetVerificationMethodFlags.{process, process_accounts}
use bio_did_registry.Program
use bio_did_registry.Program.{
  discriminator, find_instruction, handle, dispatch, process_instruction,
}
use bio_did_registry.Rules.Permits.{Permits, process_instruction-Permits}
use bio_did_registry.Rules.Controllers.{MayUpdate}
use bio_did_registry.Rules.FlagsHandler.{Updated, process_accounts-keeps_authority}
use bio_did_registry.Tests.Samples.{sample, sample-IsDocument, owner, second_name, all-IsByte}
use bio_did_registry.Tests.Authority.{program, runtime, controller_address}

-- Every account holds the sample.
abbrev store : Store
store = record {
  accounts = λ _. record {
    owner = program;
    lamports = 1;
    content = encode sample;
    is_signer = true;
    is_writable = true;
  };
  logs = [];
}

abbrev args : Bytes
args = prefixed second_name ++ u16_le 0x9

abbrev outcome : Result (Unit {0} × Store) → Unit {0} × Store
outcome (ok r) = r
outcome (err e) = (tt, store)
outcome panic = (tt, store)

abbrev final : Unit {0} × Store
final = outcome (process_accounts runtime owner controller_address none args store)

sample-IsByte : All IsByte (encode sample)
unfolding encode to_le_bytes
sample-IsByte = all-IsByte (encode sample) refl

args-IsByte : All IsByte args
unfolding to_le_bytes
args-IsByte = all-IsByte args refl

clock_range : (now : ℕ) → runtime.unix_timestamp ≡ ok now → now < 2 ^ 64
clock_range now h = omega (arith, ok_injective h)

succeeds : process_accounts runtime owner controller_address none args store ≡ ok final
unfolding process_accounts bytes_eq encode to_le_bytes vms at len_prefixed bytes split_at_checked
    from_le_bytes require is_authority is_deactivated view parse slice finish str from_utf8 find_vm
    authority_count validate_vm_flags stamp touch version copy_from_slice event_bytes flags_args
succeeds = refl

process_accounts-keeps_authority_example :
    ((store.accounts owner).is_signer ≡ true)
    × (sample.deactivated ≡ 0)
    × MayUpdate runtime store sample owner none
    × Updated final.1 controller_address sample
process_accounts-keeps_authority_example =
    process_accounts-keeps_authority runtime owner controller_address none args store sample final
      clock_range (λ _. sample-IsByte) args-IsByte sample-IsDocument (omega arith) refl succeeds

abbrev input : Bytes
input = discriminator Program.set_verification_method_flags ++ args

entered :
    process_instruction runtime program (owner ∷ controller_address ∷ []) input store ≡ ok final
unfolding process_instruction dispatch handle find_instruction discriminator process
    process_accounts bytes_eq encode to_le_bytes vms at len_prefixed bytes split_at_checked
    from_le_bytes require is_authority is_deactivated view parse slice finish str from_utf8 find_vm
    authority_count validate_vm_flags stamp touch version copy_from_slice event_bytes flags_args
entered = refl

process_instruction-Permits_example :
    (i : Program.Instruction) × (args : Bytes) × (program ≡ runtime.program_id)
    × (input ≡ discriminator i ++ args)
    × (handle runtime i (owner ∷ controller_address ∷ []) args store ≡ ok final)
    × Permits runtime store (owner ∷ controller_address ∷ []) i
process_instruction-Permits_example =
    process_instruction-Permits runtime program (owner ∷ controller_address ∷ []) input store final
      (λ _. sample-IsByte) entered
