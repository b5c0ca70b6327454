-- ===== src/State/Consts.antt =====
-- The constants of program/src/state.rs: discriminators, seeds, limits, flags, offsets, sizes.
use bio_did_registry.Base.{
  ℕ, ◌+◌, ◌*◌, ◌==◌, if◌then◌else◌, Option, none, some, List, [], ◌∷◌, ◌||◌, bit_or, length,
}
use bio_did_registry.Bytes.{Bytes}

abbrev pub account_discriminator : Bytes
account_discriminator = 77 ∷ 88 ∷ 239 ∷ 141 ∷ 251 ∷ 29 ∷ 237 ∷ 243 ∷ []

abbrev pub key_buffer_discriminator : Bytes
key_buffer_discriminator = 150 ∷ 138 ∷ 44 ∷ 35 ∷ 255 ∷ 159 ∷ 45 ∷ 0 ∷ []

-- "bio-did"
abbrev pub did_seed : Bytes
did_seed = b'b' ∷ b'i' ∷ b'o' ∷ b'-' ∷ b'd' ∷ b'i' ∷ b'd' ∷ []

-- "bio-did-owned"
abbrev pub owned_subject_seed : Bytes
owned_subject_seed =
    b'b' ∷ b'i' ∷ b'o' ∷ b'-' ∷ b'd' ∷ b'i' ∷ b'd' ∷ b'-' ∷ b'o' ∷ b'w' ∷ b'n' ∷ b'e' ∷ b'd' ∷ []

-- "bio-did-key"
abbrev pub key_buffer_seed : Bytes
key_buffer_seed = b'b' ∷ b'i' ∷ b'o' ∷ b'-' ∷ b'd' ∷ b'i' ∷ b'd' ∷ b'-' ∷ b'k' ∷ b'e' ∷ b'y' ∷ []

abbrev pub owned_subject_seeds : Bytes → Bytes → List Bytes
owned_subject_seeds authority nonce = owned_subject_seed ∷ authority ∷ nonce ∷ []

-- "default"
abbrev pub default_fragment : Bytes
default_fragment = b'd' ∷ b'e' ∷ b'f' ∷ b'a' ∷ b'u' ∷ b'l' ∷ b't' ∷ []

abbrev pub max_verification_methods : ℕ
max_verification_methods = 16

abbrev pub max_services : ℕ
max_services = 16

abbrev pub max_native_controllers : ℕ
max_native_controllers = 8

abbrev pub max_other_controllers : ℕ
max_other_controllers = 8

abbrev pub max_fragment_len : ℕ
max_fragment_len = 32

abbrev pub max_service_type_len : ℕ
max_service_type_len = 64

abbrev pub max_endpoint_len : ℕ
max_endpoint_len = 512

abbrev pub max_controller_len : ℕ
max_controller_len = 128

abbrev pub vm_flag_authentication : ℕ
vm_flag_authentication = 0x1

abbrev pub vm_flag_assertion : ℕ
vm_flag_assertion = 0x2

abbrev pub vm_flag_key_agreement : ℕ
vm_flag_key_agreement = 0x4

abbrev pub vm_flag_capability_invocation : ℕ
vm_flag_capability_invocation = 0x8

abbrev pub vm_flag_capability_delegation : ℕ
vm_flag_capability_delegation = 0x10

abbrev pub vm_flag_protected : ℕ
vm_flag_protected = 0x100

abbrev pub vm_relationship_mask : ℕ
vm_relationship_mask =
    bit_or
      (bit_or (bit_or (bit_or vm_flag_authentication vm_flag_assertion) vm_flag_key_agreement)
        vm_flag_capability_invocation)
      vm_flag_capability_delegation

abbrev pub vm_valid_mask : ℕ
vm_valid_mask = bit_or vm_relationship_mask vm_flag_protected

abbrev pub vm_flags_default : ℕ
vm_flags_default = bit_or vm_relationship_mask vm_flag_protected

abbrev pub vm_type_ed25519 : ℕ
vm_type_ed25519 = 0

abbrev pub vm_type_x25519 : ℕ
vm_type_x25519 = 1

abbrev pub vm_type_secp256k1 : ℕ
vm_type_secp256k1 = 2

abbrev pub vm_type_dilithium5 : ℕ
vm_type_dilithium5 = 3

unfoldable pub expected_key_len : ℕ → Option ℕ
expected_key_len method_type =
    if method_type == vm_type_ed25519 || method_type == vm_type_x25519
    then some 32
    else if method_type == vm_type_secp256k1
    then some 33
    else if method_type == vm_type_dilithium5
    then some 2592
    else none

-- The fields of `DidAccountHeader`, one behind the other with no padding.
abbrev pub off_version : ℕ
off_version = 8

abbrev pub off_bump : ℕ
off_bump = off_version + 8

abbrev pub off_subject : ℕ
off_subject = off_bump + 1

abbrev pub off_deactivated : ℕ
off_deactivated = off_subject + 32

abbrev pub off_updated_at : ℕ
off_updated_at = off_deactivated + 1

abbrev pub off_sections : ℕ
off_sections = off_updated_at + 8

abbrev pub base_space : ℕ
base_space = off_sections + 4 * 4

abbrev pub tombstone_space : ℕ
tombstone_space = base_space

abbrev pub vm_space : ℕ → ℕ → ℕ
vm_space fragment_len key_len = 4 + fragment_len + 1 + 2 + 4 + key_len

abbrev pub service_space : ℕ → ℕ → ℕ → ℕ
service_space fragment_len type_len endpoint_len =
    4 + fragment_len + 4 + type_len + 4 + endpoint_len

abbrev pub initial_space : ℕ
initial_space = base_space + vm_space (length default_fragment) 32

-- The fields of `KeyBufferHeader`.
abbrev pub kb_off_did_account : ℕ
kb_off_did_account = 8

abbrev pub kb_off_authority : ℕ
kb_off_authority = kb_off_did_account + 32

abbrev pub kb_off_bump : ℕ
kb_off_bump = kb_off_authority + 32

abbrev pub kb_off_method_type : ℕ
kb_off_method_type = kb_off_bump + 1

abbrev pub kb_off_flags : ℕ
kb_off_flags = kb_off_method_type + 1

abbrev pub kb_off_key_len : ℕ
kb_off_key_len = kb_off_flags + 2

abbrev pub kb_off_written : ℕ
kb_off_written = kb_off_key_len + 4

abbrev pub kb_off_fragment_len : ℕ
kb_off_fragment_len = kb_off_written + 4

abbrev pub kb_off_fragment : ℕ
kb_off_fragment = kb_off_fragment_len + 4

abbrev pub kb_off_key : ℕ
kb_off_key = kb_off_fragment + max_fragment_len

abbrev pub key_buffer_header : ℕ
key_buffer_header = kb_off_key
