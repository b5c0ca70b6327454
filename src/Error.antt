-- ===== src/Error.antt =====
-- The domain errors and their codes (program/src/error.rs), and the outcome of a fallible call.
pub mod Codes
use bio_did_registry.Base.{
  ℕ, ◌+◌, ◌≡◌, refl, Bool, true, false, Option, none, some, List, [], ◌∷◌, ◌==◌, if◌then◌else◌,
}

pub data DidError : Type 0 where
  unauthorized did_deactivated invalid_fragment fragment_already_in_use : DidError
  verification_method_not_found service_not_found too_many_verification_methods : DidError
  too_many_services too_many_controllers invalid_key_length invalid_flags : DidError
  protected_verification_method last_authority invalid_controller invalid_service_value : DidError
  invalid_key_buffer invalid_key_chunk key_buffer_incomplete invalid_key : DidError

-- The SDK's error type: the constructors that the program names, `custom` for a program's own
-- codes, and `other` for those that only the runtime returns.
pub data ProgramError : Type 0 where
  invalid_account_data invalid_instruction_data invalid_argument : ProgramError
  missing_required_signature immutable incorrect_program_id : ProgramError
  invalid_account_owner invalid_seeds account_already_initialized : ProgramError
  account_data_too_small not_enough_account_keys arithmetic_overflow : ProgramError
  custom other : ℕ → ProgramError

-- A Rust `Result<A, ProgramError>`, or the panic of a slice index that is out of range.
pub data Result {ℓ} (A : Type ℓ) : Type ℓ where
  ok : A → Result A
  err : ProgramError → Result A
  panic : Result A

infixl 5 ◌>>=◌ ◌>>◌
abbrev pub ◌>>=◌ {ℓ κ} : {A : Type ℓ} {B : Type κ} → Result A → (A → Result B) → Result B
panic >>= next = panic
err error >>= next = err error
ok value >>= next = next value

abbrev pub ◌>>◌ {ℓ κ} : {A : Type ℓ} {B : Type κ} → Result A → Result B → Result B
first >> second = first >>= λ _. second

-- A successful chain is two successful steps.
pub >>=-eq-ok {ℓ κ} :
    {A : Type ℓ} {B : Type κ} {result : B} (first : Result A) (next : A → Result B)
    → first >>= next ≡ ok result
    → (value : A) × (first ≡ ok value) × (next value ≡ ok result)
>>=-eq-ok panic next h = cc
>>=-eq-ok (err error) next h = cc
>>=-eq-ok (ok value) next h = (value, refl, h)

pub ok_injective {ℓ} : {A : Type ℓ} {a b : A} → ok a ≡ ok b → a ≡ b
ok_injective h = cc

-- `Option::ok_or`
abbrev pub ok_or {ℓ} : {A : Type ℓ} → Option A → ProgramError → Result A
ok_or none e = err e
ok_or (some a) e = ok a

pub code : DidError → ℕ
code unauthorized = 6000
code did_deactivated = 6001
code invalid_fragment = 6002
code fragment_already_in_use = 6003
code verification_method_not_found = 6004
code service_not_found = 6005
code too_many_verification_methods = 6006
code too_many_services = 6007
code too_many_controllers = 6008
code invalid_key_length = 6009
code invalid_flags = 6010
code protected_verification_method = 6011
code last_authority = 6012
code invalid_controller = 6013
code invalid_service_value = 6014
code invalid_key_buffer = 6015
code invalid_key_chunk = 6016
code key_buffer_incomplete = 6017
code invalid_key = 6018

-- `DidError::ALL`
abbrev pub all : List DidError
all =
    unauthorized ∷ did_deactivated ∷ invalid_fragment ∷ fragment_already_in_use
    ∷ verification_method_not_found ∷ service_not_found ∷ too_many_verification_methods
    ∷ too_many_services ∷ too_many_controllers ∷ invalid_key_length ∷ invalid_flags
    ∷ protected_verification_method ∷ last_authority ∷ invalid_controller ∷ invalid_service_value
    ∷ invalid_key_buffer ∷ invalid_key_chunk ∷ key_buffer_incomplete ∷ invalid_key ∷ []

-- `iter().find(|e| e.code() == code)`
pub find_code : List DidError → ℕ → Option DidError
unfolding code
find_code [] c = none
find_code (e ∷ es) c = if code e == c then some e else find_code es c

pub from_code : ℕ → Option DidError
unfolding find_code
from_code c = find_code all c

-- `TryFrom<u32>`: the code itself when it is not one of the program's.
pub data Converted : Type 0 where
  known : DidError → Converted
  unknown : ℕ → Converted

pub try_from : ℕ → Converted
unfolding from_code
try_from c = elim (from_code c) [ none ↦ unknown c | some e ↦ known e ]

-- `From<DidError> for ProgramError`
abbrev pub from_did_error : DidError → ProgramError
from_did_error e = custom (code e)

unfoldable pub require : Bool → DidError → Result (Unit {0})
require true e = ok tt
require false e = err (from_did_error e)

-- `if c { m?; }`
abbrev pub when : Bool → Result (Unit {0}) → Result (Unit {0})
when true m = m
when false m = ok tt
