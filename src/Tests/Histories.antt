-- ===== src/Tests/Histories.antt =====
-- The theorems on the life of a document, where instructions run on the sample.
use bio_did_registry.Base.{
  ◌≡◌, ◌⊎◌, refl, true, none, [], ◌∷◌, ◌++◌, List, All, arith, bytes_eq, replicate,
}
use bio_did_registry.Error.{Result, ok, err, panic, require}
use bio_did_registry.Bytes.{
  Bytes, IsByte, to_le_bytes, from_le_bytes, split_at_checked, slice, copy_from_slice, copy_within,
  fill,
}
use bio_did_registry.Utf8.{from_utf8}
use bio_did_registry.Reader.Laws.{prefixed}
use bio_did_registry.Document.{Document, IsDocument, encode}
use bio_did_registry.Document.Controllers.{encode_controllers}
use bio_did_registry.Reader.{at, bytes, finish, str}
use bio_did_registry.State.Checks.{valid_external_controller}
use bio_did_registry.State.Edits.{stamp}
use bio_did_registry.State.Sections.{parse}
use bio_did_registry.State.View.{authority_count, find_vm, is_authority, is_deactivated, view, vms}
use bio_did_registry.Instructions.Args.{fragment_args}
use bio_did_registry.Instructions.Deactivate
use bio_did_registry.Instructions.RemoveVerificationMethod
use bio_did_registry.Instructions.SetControllers
use bio_did_registry.Runtime.{Store}
use bio_did_registry.Program
use bio_did_registry.Program.{handle, process_instruction, discriminator}
use bio_did_registry.Rules.Controllers.{MayUpdate}
use bio_did_registry.Rules.Health.{Continues}
use bio_did_registry.Rules.History.{IsAlive-Runs}
use bio_did_registry.Rules.History.Finality.{process_instruction-refuses_deactivated}
use bio_did_registry.Rules.History.Events.{Parties, Runs, IsAlive, IsBuried}
use bio_did_registry.Rules.Whole.Entry.{Edits, handle-Continues}
use bio_did_registry.Rules.Whole.Entry
use bio_did_registry.Tests.Samples.{
  sample, sample-IsDocument, owner, guardian, second_name, web_controller, all-IsByte,
}
use bio_did_registry.Tests.Authority.{program, controller_address}
use bio_did_registry.Tests.Worlds.{world, world-RuntimeLaws, sample-IsHealthy}

-- Every account holds the sample.
abbrev store : Store
store = record {
  accounts = λ _. record {
    owner = program;
    lamports = 1000000;
    content = encode sample;
    is_signer = true;
    is_writable = true;
  };
  logs = [];
}

store-IsByte : All IsByte (encode sample)
unfolding encode to_le_bytes
store-IsByte = all-IsByte (encode sample) refl

abbrev system : Bytes
system = replicate 32 0

abbrev outcome : Result (Unit {0} × Store) → Unit {0} × Store
outcome (ok r) = r
outcome (err e) = (tt, store)
outcome panic = (tt, store)

-- One controller more.
abbrev lists : Bytes
lists = encode_controllers (guardian ∷ replicate 32 4 ∷ []) (web_controller ∷ [])

abbrev accounts : List Bytes
accounts = guardian ∷ owner ∷ controller_address ∷ system ∷ []

abbrev widened : Unit {0} × Store
widened = outcome (handle world Program.set_controllers accounts lists store)

lists-IsByte : All IsByte lists
unfolding to_le_bytes
lists-IsByte = all-IsByte lists refl

widens : handle world Program.set_controllers accounts lists store ≡ ok widened
unfolding bytes_eq from_le_bytes to_le_bytes split_at_checked copy_from_slice copy_within slice
    encode require SetControllers.process process_instruction at bytes str finish
    valid_external_controller stamp parse view is_deactivated vms is_authority from_utf8
widens = refl

handle-Continues_example :
    MayUpdate world store sample owner none × Continues widened.1 controller_address sample
handle-Continues_example =
    handle-Continues world Program.set_controllers guardian owner controller_address system [] lists
      store sample widened world-RuntimeLaws Entry.sets_controllers (λ _. store-IsByte) lists-IsByte
      sample-IsHealthy refl widens

-- The second method is removed, and the document deactivated.
abbrev parties : Parties
parties = record { payer = guardian; authority = owner; sys = system; rest = [] }

abbrev smaller : Unit {0} × Store
smaller =
    outcome (handle world Program.remove_verification_method accounts (prefixed second_name) store)

-- Afterwards the other accounts are made copies of that account.
abbrev copied : Store
copied = record store { accounts = λ _. smaller.1.accounts controller_address }

abbrev final : Unit {0} × Store
final = outcome (handle world Program.deactivate accounts [] copied)

name-IsByte : All IsByte (prefixed second_name)
unfolding to_le_bytes
name-IsByte = all-IsByte (prefixed second_name) refl

copied-IsByte : All IsByte (smaller.1.accounts controller_address).content
unfolding bytes_eq from_le_bytes to_le_bytes split_at_checked copy_from_slice copy_within slice
    encode require fragment_args RemoveVerificationMethod.process process_instruction at bytes str
    finish stamp parse view is_deactivated vms find_vm is_authority authority_count from_utf8
copied-IsByte = all-IsByte (smaller.1.accounts controller_address).content refl

removes :
    process_instruction world world.program_id accounts
      (discriminator Program.remove_verification_method ++ prefixed second_name)
      store
    ≡ ok smaller
unfolding bytes_eq from_le_bytes to_le_bytes split_at_checked copy_from_slice copy_within slice
    encode require fragment_args RemoveVerificationMethod.process process_instruction at bytes str
    finish stamp parse view is_deactivated vms find_vm is_authority authority_count from_utf8
removes = refl

deactivates :
    process_instruction world world.program_id accounts
      (discriminator Program.deactivate ++ [])
      copied
    ≡ ok final
unfolding bytes_eq from_le_bytes to_le_bytes split_at_checked copy_from_slice copy_within slice fill
    encode require fragment_args Deactivate.process RemoveVerificationMethod.process
    process_instruction at bytes str finish stamp parse view is_deactivated vms find_vm is_authority
    authority_count from_utf8
deactivates = refl

run : Runs world controller_address store final.1
run =
    Runs.edited Program.remove_verification_method parties (prefixed second_name) smaller
      Entry.removes_method (λ _. store-IsByte) name-IsByte removes
      (Runs.elsewhere refl
        (Runs.deactivated parties [] final (λ _. copied-IsByte) deactivates Runs.done))

IsAlive-Runs_example : IsAlive final.1 controller_address 3 ⊎ IsBuried final.1 controller_address
IsAlive-Runs_example =
    IsAlive-Runs world world-RuntimeLaws controller_address store final.1 3 run
      (sample, refl, sample-IsHealthy, omega arith)

-- The sample with its methods and its flag of deactivation set.
abbrev dead : Document
dead = record sample { deactivated = 1 }

dead-IsDocument : IsDocument dead
dead-IsDocument = record {
  discriminator_len = sample-IsDocument.discriminator_len;
  discriminator_bytes = sample-IsDocument.discriminator_bytes;
  version_range = sample-IsDocument.version_range;
  bump_range = sample-IsDocument.bump_range;
  subject_key = sample-IsDocument.subject_key;
  deactivated_range = omega arith;
  updated_at_range = sample-IsDocument.updated_at_range;
  native_count = sample-IsDocument.native_count;
  native_keys = sample-IsDocument.native_keys;
  other_count = sample-IsDocument.other_count;
  other_short = sample-IsDocument.other_short;
  method_count = sample-IsDocument.method_count;
  method_ranges = sample-IsDocument.method_ranges;
  service_count = sample-IsDocument.service_count;
  service_ranges = sample-IsDocument.service_ranges;
}

abbrev dead_store : Store
dead_store = record store { accounts = λ c. record (store.accounts c) { content = encode dead } }

dead-IsByte : All IsByte (encode dead)
unfolding encode to_le_bytes
dead-IsByte = all-IsByte (encode dead) refl

-- A removal that succeeds on the sample does not where the document is deactivated.
process_instruction-refuses_deactivated_example : ¬ (
    process_instruction world program accounts
      (discriminator Program.remove_verification_method ++ prefixed second_name)
      dead_store
    ≡ ok smaller)
process_instruction-refuses_deactivated_example =
    process_instruction-refuses_deactivated world program Program.remove_verification_method
      accounts (prefixed second_name) dead_store smaller controller_address dead (λ _. dead-IsByte)
      refl dead-IsDocument refl (λ e. omega (arith, e))
