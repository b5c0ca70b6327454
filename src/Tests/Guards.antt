-- ===== src/Tests/Guards.antt =====
-- The theorems on the rules, at the sample document.
use bio_did_registry.Base.{
  ◌≡◌, ◌↔◌, ◌≤◌, ◌<◌, refl, [], ◌∷◌, ◌++◌, length, replicate, arith, bytes_eq, true, bit_or,
}
use bio_did_registry.Error.{ok, require}
use bio_did_registry.Bytes.{Bytes, to_le_bytes, from_le_bytes, split_at_checked}
use bio_did_registry.State.Consts.{
  expected_key_len, max_verification_methods, max_services, vm_flag_protected,
}
use bio_did_registry.State.View.{
  VmRef, has_flag, is_authority_method, find_vm, find_service, vms, services, authority_count,
  require_fragment_free,
}
use bio_did_registry.Reader.{at, len_prefixed, bytes}
use bio_did_registry.State.Checks.{
  NewMethod, check_new_method, validate_vm_flags, valid_fragment, valid_uri_ascii,
}
use bio_did_registry.State.Edits.{insert_vm}
use bio_did_registry.Document.{IsDocument, Service, encode, encode_vm, layout}
use bio_did_registry.Document.Entries.{doc_view, vm_ref}
use bio_did_registry.Document.Lookups.{Found, signing_count}
use bio_did_registry.Document.Removal.{with_services, method_start}
use bio_did_registry.Document.Updates.{add_method, method_of}
use bio_did_registry.Instructions.RemoveVerificationMethod.{check_removal}
use bio_did_registry.Instructions.SetVerificationMethodFlags.{check_flags}
use bio_did_registry.Instructions.AddService.{check_new_service, append_service}
use bio_did_registry.Rules.Removal.{Removes, check_removal_inv, removal-keeps_authority}
use bio_did_registry.Rules.Roles.{SuitFlags}
use bio_did_registry.Rules.Flags.{Reflags, reflag-keeps_authority}
use bio_did_registry.Rules.Additions.{is_among, IsUnique, names}
use bio_did_registry.Rules.Acceptance.{Fits, check_new_method_iff}
use bio_did_registry.Instructions.SetControllers.{Controllers, check_controllers}
use bio_did_registry.Rules.ExternalDids.{IsExternalDid}
use bio_did_registry.Rules.ControllerLists.{check_controllers_inv}
use bio_did_registry.State.Consts.{max_native_controllers, max_other_controllers}
use bio_did_registry.State.Checks.{valid_external_controller}
use bio_did_registry.Base.{All, false}
use bio_did_registry.Tests.Samples.{web_controller, guardian}
use bio_did_registry.Rules.Uniqueness.{add_method-keeps_IsUnique, add_service-keeps_IsUnique}
use bio_did_registry.Tests.Samples.{
  sample, sample-IsDocument, first_method, second_method, second_name, owner, all-IsByte,
}

abbrev second_ref : VmRef
second_ref = vm_ref (method_start sample (first_method ∷ [])) second_method

removal_allowed : check_removal (doc_view sample) second_name owner ≡ ok second_ref
unfolding check_removal bytes_eq encode to_le_bytes find_vm vms at len_prefixed bytes
    split_at_checked from_le_bytes require authority_count
removal_allowed = refl

removal-keeps_authority_example : Removes sample second_ref
removal-keeps_authority_example =
    removal-keeps_authority sample second_name owner second_ref sample-IsDocument (omega arith)
      removal_allowed

check_removal_inv_example :
    Found vm_ref encode_vm
      (λ v. bytes_eq v.fragment second_name)
      (layout sample).vm_items
      sample.verification_methods
      second_ref
    × (has_flag second_ref.flags vm_flag_protected ≡ true → second_ref.key ≡ owner)
    × (is_authority_method second_ref ≡ true → 1 < signing_count sample)
check_removal_inv_example =
    check_removal_inv sample second_name owner second_ref sample-IsDocument removal_allowed

reflag_allowed : check_flags (doc_view sample) second_name 0x9 owner ≡ ok second_ref
unfolding check_flags bytes_eq encode to_le_bytes find_vm vms at len_prefixed bytes split_at_checked
    from_le_bytes require authority_count validate_vm_flags
reflag_allowed = refl

reflag-keeps_authority_example :
    (has_flag (bit_or second_ref.flags 0x9) vm_flag_protected ≡ true → second_ref.key ≡ owner)
    × SuitFlags second_ref.method_type 0x9
    × Reflags sample second_ref 0x9
reflag-keeps_authority_example =
    reflag-keeps_authority sample second_name 0x9 owner second_ref (omega arith) sample-IsDocument
      (omega arith) reflag_allowed

-- "k2", an X25519 key for key agreement
abbrev new_method : NewMethod
new_method = record { fragment = b'k' ∷ b'2' ∷ []; method_type = 1; flags = 0x4; key_len = 32 }

abbrev new_key : Bytes
new_key = replicate 32 3

method_allowed : check_new_method (doc_view sample) new_method ≡ ok tt
unfolding check_new_method bytes_eq encode to_le_bytes find_vm vms at len_prefixed bytes
    split_at_checked from_le_bytes require valid_fragment require_fragment_free find_service
    services expected_key_len validate_vm_flags
method_allowed = refl

check_new_method_iff_example :
    (check_new_method (doc_view sample) new_method ≡ ok tt) ↔ Fits sample new_method
check_new_method_iff_example =
    check_new_method_iff sample new_method sample-IsDocument (omega arith)

sample-IsUnique : IsUnique (names sample)
unfolding bytes_eq
sample-IsUnique = (refl, (refl, (refl, tt)))

add_method-keeps_IsUnique_example :
    let after = add_method sample (method_of new_method new_key) in
    (insert_vm (encode sample ++ replicate 45 0) (layout sample) new_method new_key
      ≡ ok (encode after))
    × IsDocument after
    × IsUnique (names after)
    × (length after.verification_methods ≤ max_verification_methods)
add_method-keeps_IsUnique_example =
    add_method-keeps_IsUnique sample new_method new_key (replicate 45 0) sample-IsDocument
      sample-IsUnique
      (
        (omega arith, ground arith),
        omega arith,
        omega arith,
        (omega arith, all-IsByte new_key refl),
      )
      refl method_allowed

-- "s2", "T", "b"
abbrev new_service : Service
new_service = record { fragment = b's' ∷ b'2' ∷ []; service_type = b'T' ∷ []; endpoint = b'b' ∷ [] }

service_allowed : check_new_service (doc_view sample) new_service ≡ ok tt
unfolding check_new_service bytes_eq encode to_le_bytes find_vm vms at len_prefixed bytes
    split_at_checked from_le_bytes require valid_fragment require_fragment_free find_service
    services valid_uri_ascii
service_allowed = refl

add_service-keeps_IsUnique_example :
    let after = with_services sample (sample.services ++ (new_service ∷ [])) in
    (append_service (layout sample) new_service (encode sample ++ replicate 16 0)
      ≡ ok (encode after))
    × IsDocument after
    × IsUnique (names after)
    × (length after.services ≤ max_services)
add_service-keeps_IsUnique_example =
    add_service-keeps_IsUnique sample new_service (replicate 16 0) sample-IsDocument sample-IsUnique
      ((omega arith, ground arith), (omega arith, ground arith), (omega arith, ground arith)) refl
      service_allowed

-- A native controller and an external one, for the subject `owner`
abbrev new_controllers : Controllers
new_controllers = record {
  natives = guardian ∷ [];
  others = web_controller ∷ [];
  sections_len = 53;
}

controllers_allowed : check_controllers owner new_controllers ≡ ok tt
unfolding check_controllers bytes_eq require valid_external_controller
controllers_allowed = refl

check_controllers_inv_example :
    (length new_controllers.natives ≤ max_native_controllers)
    × (length new_controllers.others ≤ max_other_controllers)
    × IsUnique new_controllers.natives
    × (is_among owner new_controllers.natives ≡ false)
    × IsUnique new_controllers.others
    × All
        (λ value. (valid_external_controller value ≡ true) × IsExternalDid value)
        new_controllers.others
check_controllers_inv_example = check_controllers_inv owner new_controllers controllers_allowed
