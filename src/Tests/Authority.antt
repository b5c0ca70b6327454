-- ===== src/Tests/Authority.antt =====
-- The theorem on authorization, where a native controller's document signs for the sample.
use bio_did_registry.Base.{◌≡◌, refl, true, none, some, [], ◌∷◌, replicate, All, bytes_eq}
use bio_did_registry.Error.{ok, require}
use bio_did_registry.Bytes.{Bytes, IsByte, to_le_bytes, from_le_bytes, split_at_checked, slice}
use bio_did_registry.Reader.{at, len_prefixed, bytes, finish}
use bio_did_registry.State.Sections.{parse}
use bio_did_registry.State.View.{view, vms, is_authority, is_deactivated, is_native_controller}
use bio_did_registry.Document.{Document, encode}
use bio_did_registry.Document.Entries.{doc_view}
use bio_did_registry.Runtime.{Runtime, Store}
use bio_did_registry.Instructions.Shared.{authorize}
use bio_did_registry.Rules.Controllers.{MayUpdate, authorize-MayUpdate}
use bio_did_registry.Tests.Samples.{sample, sample-IsDocument, first_method, guardian, all-IsByte}

abbrev stranger : Bytes
stranger = replicate 32 4

abbrev pub program : Bytes
program = replicate 32 2

abbrev pub controller_address : Bytes
controller_address = replicate 32 1

-- The controller's document.
abbrev parent : Document
parent = record sample {
  subject = guardian;
  verification_methods = record first_method { key = stranger } ∷ [];
}

-- A runtime that derives one address, and does nothing else.
abbrev pub runtime : Runtime
runtime = record {
  program_id = program;
  system_program_id = replicate 32 0;
  derive_program_address = λ _. none;
  find_program_address = λ _. ok (controller_address, 255);
  derive_address = λ _ _. controller_address;
  bytes_are_curve_point = λ _. true;
  unix_timestamp = ok 1000;
  get_rent_sysvar = λ n. ok (replicate n 0);
  is_finite_nonneg = λ _. true;
  scale_f64 = λ n _. n;
  resize = λ _ v. ok v;
  close = λ v. ok v;
  transfer = λ _ _ _ s. ok s;
  create_account = λ _ _ _ _ _ _ s. ok s;
  allocate = λ _ _ _ s. ok s;
  assign = λ _ _ _ s. ok s;
}

-- Every account holds the controller's document.
abbrev store : Store
store = record {
  accounts = λ _. record {
    owner = program;
    lamports = 1;
    content = encode parent;
    is_signer = true;
    is_writable = true;
  };
  logs = [];
}

parent-IsByte : All IsByte (encode parent)
unfolding encode to_le_bytes
parent-IsByte = all-IsByte (encode parent) refl

authorized :
    authorize runtime (doc_view sample) stranger (some controller_address) store ≡ ok (tt, store)
unfolding authorize bytes_eq encode to_le_bytes vms at len_prefixed bytes split_at_checked
    from_le_bytes require is_authority is_deactivated is_native_controller view parse slice finish
authorized = refl

authorize-MayUpdate_example :
    (sample.deactivated ≡ 0) × MayUpdate runtime store sample stranger (some controller_address)
authorize-MayUpdate_example =
    authorize-MayUpdate runtime sample stranger (some controller_address) store (tt, store)
      sample-IsDocument (λ _. parent-IsByte) authorized
