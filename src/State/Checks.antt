-- ===== src/State/Checks.antt =====
-- The rules on fragments, flags, keys and service values (program/src/state.rs, domain checks).
use bio_did_registry.Base.{
  ℕ, suc, ◌-◌, Bool, true, false, not, ◌&&◌, ◌||◌, Option, none, some, List, [], ◌∷◌, length, take,
  drop, leb, ltb, ◌==◌, if◌then◌else◌, bytes_eq, bit_and, bit_or,
}
use bio_did_registry.Error.{
  Result, ok, require, when, too_many_verification_methods, invalid_fragment, invalid_key_length,
  invalid_flags, protected_verification_method, invalid_key, ◌>>◌,
}
use bio_did_registry.Bytes.{Bytes}
use bio_did_registry.State.Consts.{
  max_verification_methods, max_fragment_len, max_controller_len, expected_key_len, vm_valid_mask,
  vm_relationship_mask, vm_flag_capability_invocation, vm_flag_protected, vm_flag_key_agreement,
  vm_type_ed25519, vm_type_x25519, vm_type_secp256k1, vm_type_dilithium5,
}
use bio_did_registry.State.View.{DidView, require_fragment_free, has_flag}

-- `!mask` on a `u16`
abbrev pub not_u16 : ℕ → ℕ
not_u16 mask = 0xffff - mask

unfoldable pub validate_vm_flags : ℕ → ℕ → Result (Unit {0})
validate_vm_flags method_type flags = do
  require (not (has_flag flags (not_u16 vm_valid_mask))) invalid_flags
  when (has_flag flags (bit_or vm_flag_capability_invocation vm_flag_protected))
      (require (method_type == vm_type_ed25519) invalid_flags)
  when (has_flag flags vm_flag_protected)
      (require (has_flag flags vm_flag_capability_invocation) invalid_flags)
  when (method_type == vm_type_x25519) (
      require (bit_and (bit_and flags vm_relationship_mask) (not_u16 vm_flag_key_agreement) == 0)
        invalid_flags)
  when (method_type == vm_type_dilithium5)
      (require (not (has_flag flags vm_flag_key_agreement)) invalid_flags)
  ok tt

abbrev pub all {ℓ} : {A : Type ℓ} → (A → Bool) → List A → Bool
all p [] = true
all p (x ∷ xs) = p x && all p xs

abbrev pub is_empty : Bytes → Bool
is_empty [] = true
is_empty (b ∷ bs) = false

abbrev pub is_ascii_digit : ℕ → Bool
is_ascii_digit b = leb b'0' b && leb b b'9'

abbrev pub is_ascii_lowercase : ℕ → Bool
is_ascii_lowercase b = leb b'a' b && leb b b'z'

abbrev pub is_ascii_alphanumeric : ℕ → Bool
is_ascii_alphanumeric b = is_ascii_lowercase b || (leb b'A' b && leb b b'Z') || is_ascii_digit b

abbrev pub is_fragment_byte : ℕ → Bool
is_fragment_byte b = is_ascii_alphanumeric b || b == b'_' || b == b'-'

unfoldable pub valid_fragment : Bytes → Bool
valid_fragment fragment =
    not (is_empty fragment)
    && leb (length fragment) max_fragment_len
    && all is_fragment_byte fragment

unfoldable pub valid_uri_ascii : Bytes → ℕ → Bool
valid_uri_ascii value max_len =
    not (is_empty value) && leb (length value) max_len && all (λ b. leb 0x21 b && leb b 0x7e) value

-- `strip_prefix`
unfoldable pub strip_prefix : Bytes → Bytes → Option Bytes
strip_prefix [] value = some value
strip_prefix (p ∷ ps) [] = none
strip_prefix (p ∷ ps) (b ∷ bs) = if p == b then strip_prefix ps bs else none

-- `iter().position(|&b| b == wanted)`
unfoldable pub position : ℕ → Bytes → Option ℕ
position wanted [] = none
position wanted (b ∷ bs) =
    if b == wanted
    then some 0
    else elim (position wanted bs) [ none ↦ none | some i ↦ some (suc i) ]

-- "did:"
abbrev pub did_prefix : Bytes
did_prefix = b'd' ∷ b'i' ∷ b'd' ∷ b':' ∷ []

-- "bio"
abbrev pub bio_method : Bytes
bio_method = b'b' ∷ b'i' ∷ b'o' ∷ []

-- The last test of `valid_external_controller`, on the two sides of the colon.
abbrev pub valid_method_and_id : Bytes → Bytes → Bool
valid_method_and_id method id =
    not (is_empty method)
    && not (bytes_eq method bio_method)
    && all (λ b. is_ascii_lowercase b || is_ascii_digit b) method
    && not (is_empty id)

unfoldable pub valid_external_controller : Bytes → Bool
unfolding valid_uri_ascii strip_prefix position
valid_external_controller value =
    if not (valid_uri_ascii value max_controller_len)
    then false
    else elim (strip_prefix did_prefix value) [
      | none ↦ false
      | some rest ↦ elim (position b':' rest) [
        | none ↦ false
        | some colon ↦ valid_method_and_id (take colon rest) (drop (suc colon) rest)
      ]
    ]

pub record NewMethod : Type 0 where
  pub fragment : Bytes
  pub method_type : ℕ
  pub flags : ℕ
  pub key_len : ℕ

-- `expected_key_len(m.method_type) == Some(m.key_len)`
abbrev pub is_some_of : Option ℕ → ℕ → Bool
is_some_of none n = false
is_some_of (some k) n = k == n

-- `DidView::check_new_method`
unfoldable pub check_new_method : DidView → NewMethod → Result (Unit {0})
check_new_method v m = do
  require (ltb v.sections.vm_count max_verification_methods) too_many_verification_methods
  require (valid_fragment m.fragment) invalid_fragment
  require_fragment_free v m.fragment
  require (is_some_of (expected_key_len m.method_type) m.key_len) invalid_key_length
  validate_vm_flags m.method_type m.flags

-- `matches!(key.first(), Some(0x02 | 0x03))`
abbrev pub is_compressed_point : Bytes → Bool
is_compressed_point [] = false
is_compressed_point (b ∷ bs) = b == 0x02 || b == 0x03

-- The `match` on the type in `check_new_key`.
unfoldable pub check_key_type : (Bytes → Bool) → ℕ → Bytes → Bytes → Result (Unit {0})
check_key_type bytes_are_curve_point method_type key signer =
    if method_type == vm_type_ed25519
    then require (bytes_eq key signer || bytes_are_curve_point key) invalid_key
    else if method_type == vm_type_secp256k1
    then require (is_compressed_point key) invalid_key
    else ok tt

-- `check_new_key`, over the curve check of the SDK.
unfoldable pub check_new_key : (Bytes → Bool) → NewMethod → Bytes → Bytes → Result (Unit {0})
unfolding check_key_type
check_new_key bytes_are_curve_point m key signer = do
  when (has_flag m.flags vm_flag_protected)
      (require (bytes_eq key signer) protected_verification_method)
  check_key_type bytes_are_curve_point m.method_type key signer
