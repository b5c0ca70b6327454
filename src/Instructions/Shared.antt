-- ===== src/Instructions/Shared.antt =====
-- Account validation and rent (program/src/instructions/shared.rs).
use bio_did_registry.Base.{
  ℕ, ◌+◌, ◌-◌, ◌*◌, Bool, not, ◌&&◌, ◌||◌, Option, none, some, List, [], ◌∷◌, length, take, ltb,
  if◌then◌else◌, bytes_eq,
}
use bio_did_registry.Error.{
  ProgramError, invalid_argument, missing_required_signature, immutable, incorrect_program_id,
  invalid_account_owner, invalid_account_data, invalid_seeds, not_enough_account_keys,
  arithmetic_overflow, Result, ok, err, panic, ok_or, require, from_did_error, did_deactivated,
  unauthorized, invalid_key_buffer,
}
use bio_did_registry.Error
use bio_did_registry.Bytes.{Bytes, from_le_bytes}
use bio_did_registry.Reader
use bio_did_registry.Reader.{Reading}
use bio_did_registry.State.Consts.{
  account_discriminator, key_buffer_discriminator, base_space, did_seed, key_buffer_seed,
  key_buffer_header, off_bump,
}
use bio_did_registry.State.View.{DidView, view, is_deactivated, is_authority, is_native_controller}
use bio_did_registry.State.KeyBuffer.{KeyBufferRef}
use bio_did_registry.State.KeyBuffer
use bio_did_registry.Runtime.{
  Runtime, Act, ◌>>=◌, ◌>>◌, pure, lift, fail, ensure, when, account, borrow, set_lamports, invoke,
  resize_account, close_account, checked_u64,
}

unfoldable pub check_payer : Bytes → Act (Unit {0})
check_payer payer = do
  v ← account payer
  ensure v.is_signer missing_required_signature
  ensure v.is_writable immutable

unfoldable pub check_authority_signer : Bytes → Act (Unit {0})
check_authority_signer authority = do
  v ← account authority
  ensure v.is_signer missing_required_signature

unfoldable pub check_system_program : Runtime → Bytes → Act (Unit {0})
check_system_program rt system_program =
    ensure (bytes_eq system_program rt.system_program_id) incorrect_program_id

-- The two fields that `load_did_account` reads behind the version.
abbrev pub read_bump_and_subject : Reading (ℕ × Bytes)
read_bump_and_subject =
    Reader.◌>>=◌ Reader.u8
      (λ bump. Reader.◌>>=◌ (Reader.array 32) (λ subject. Reader.pure (bump, subject)))

abbrev pub head_of : Bytes → Result (ℕ × Bytes)
head_of bytes =
    Error.◌>>=◌ (Reader.at Reader.account bytes off_bump)
      (λ r. Error.◌>>=◌ (read_bump_and_subject r) (λ p. ok p.0))

-- `data.len() < space || data[0..8] != discriminator`
abbrev pub is_foreign : ℕ → Bytes → Bytes → Bool
is_foreign space discriminator bytes =
    ltb (length bytes) space || not (bytes_eq (take 8 bytes) discriminator)

unfoldable pub load_did_account : Runtime → Bytes → Act Bytes
load_did_account rt did_account = do
  v ← account did_account
  ensure (bytes_eq v.owner rt.program_id) invalid_account_owner
  bytes ← borrow did_account
  ensure (not (is_foreign base_space account_discriminator bytes)) invalid_account_data
  (bump, subject) ← lift (head_of bytes)
  let expected = rt.derive_address (did_seed ∷ subject ∷ []) bump
  ensure (bytes_eq did_account expected) invalid_seeds
  pure subject

unfoldable pub verify_did_account : Runtime → Bytes → Act Bytes
unfolding load_did_account
verify_did_account rt did_account = do
  v ← account did_account
  ensure v.is_writable immutable
  load_did_account rt did_account

-- The part of `authorize` behind the DID's own authorities.
unfoldable pub authorize_controller : Runtime → DidView → Bytes → Option Bytes → Act (Unit {0})
unfolding load_did_account
authorize_controller rt doc signer none = fail (from_did_error unauthorized)
authorize_controller rt doc signer (some controller) = do
  subject ← load_did_account rt controller
  listed ← lift (is_native_controller doc subject)
  lift (require listed unauthorized)
  bytes ← borrow controller
  parent ← lift (view bytes)
  deactivated ← lift (is_deactivated parent)
  lift (require (not deactivated && is_authority parent signer) unauthorized)

unfoldable pub authorize : Runtime → DidView → Bytes → Option Bytes → Act (Unit {0})
unfolding authorize_controller
authorize rt doc signer controller = do
  deactivated ← lift (is_deactivated doc)
  lift (require (not deactivated) did_deactivated)
  when (not (is_authority doc signer)) (authorize_controller rt doc signer controller)

-- `find_pda`
unfoldable pub find_pda : Runtime → List Bytes → Result (Bytes × ℕ)
find_pda rt seeds = ok_or (rt.derive_program_address seeds) invalid_seeds

-- The accounts of an update that may resize the document.
pub record Update : Type 0 where
  pub payer : Bytes
  pub authority : Bytes
  pub did_account : Bytes
  pub controller : Option Bytes
  pub subject : Bytes

abbrev pub first : List Bytes → Option Bytes
first [] = none
first (a ∷ as') = some a

-- `Update::try_from`
unfoldable pub update_from : Runtime → List Bytes → Act Update
unfolding check_payer check_authority_signer check_system_program verify_did_account
update_from rt (payer ∷ authority ∷ did_account ∷ system_program ∷ rest) = do
  check_payer payer
  check_authority_signer authority
  check_system_program rt system_program
  subject ← verify_did_account rt did_account
  pure (record {
    payer = payer;
    authority = authority;
    did_account = did_account;
    controller = first rest;
    subject = subject;
  })
update_from rt _ = fail not_enough_account_keys

unfoldable pub check_key_buffer : Runtime → Bytes → Bytes → Option Bytes → Act (ℕ × ℕ)
check_key_buffer rt key_buffer authority did_account = do
  v ← account key_buffer
  ensure v.is_writable immutable
  ensure (bytes_eq v.owner rt.program_id) invalid_account_owner
  bytes ← borrow key_buffer
  ensure (not (is_foreign key_buffer_header key_buffer_discriminator bytes)) invalid_account_data
  kb ← lift (KeyBuffer.parse bytes)
  lift (require (bytes_eq kb.authority authority) invalid_key_buffer)
  lift (elim did_account [
    | none ↦ ok tt
    | some did ↦ require (bytes_eq kb.did_account did) invalid_key_buffer
  ])
  let expected = rt.derive_address (key_buffer_seed ∷ kb.did_account ∷ kb.authority ∷ []) kb.bump
  ensure (bytes_eq key_buffer expected) invalid_seeds
  pure (kb.written, kb.key_len)

unfoldable pub verify_key_buffer : Runtime → Bytes → Bytes → Option Bytes → Act (Unit {0})
unfolding check_key_buffer
verify_key_buffer rt key_buffer authority did_account =
    check_key_buffer rt key_buffer authority did_account >> pure tt

unfoldable pub close_to : Runtime → Bytes → Bytes → Act (Unit {0})
close_to rt closing payer = do
  p ← account payer
  v ← account closing
  credited ← lift (ok_or (checked_u64 (p.lamports + v.lamports)) arithmetic_overflow)
  set_lamports payer credited
  set_lamports closing 0
  close_account rt closing

abbrev pub account_storage_overhead : ℕ
account_storage_overhead = 128

-- 1.0 and 2.0 as little-endian IEEE-754
abbrev pub one_f64_le : Bytes
one_f64_le = 0 ∷ 0 ∷ 0 ∷ 0 ∷ 0 ∷ 0 ∷ 0xf0 ∷ 0x3f ∷ []

abbrev pub two_f64_le : Bytes
two_f64_le = 0 ∷ 0 ∷ 0 ∷ 0 ∷ 0 ∷ 0 ∷ 0 ∷ 0x40 ∷ []

-- The two fields of the classic rent sysvar.
abbrev pub read_rent : Reading (ℕ × Bytes)
read_rent = Reader.◌>>=◌ Reader.u64 (λ lamports_per_byte_year.
    Reader.◌>>=◌ (Reader.array 8) (λ threshold. Reader.pure (lamports_per_byte_year, threshold)))

-- The branch of the classic layout.
unfoldable pub classic_rent : Runtime → ℕ → Bytes → Result ℕ
classic_rent rt bytes classic = Error.◌>>=◌ (read_rent (Reader.new Reader.account classic)) (λ p.
    Error.◌>>=◌ (ok_or (checked_u64 (bytes * p.0.0)) arithmetic_overflow) (λ base.
      if bytes_eq p.0.1 one_f64_le
      then ok base
      else if bytes_eq p.0.1 two_f64_le
      then ok_or (checked_u64 (base * 2)) arithmetic_overflow
      else if not (rt.is_finite_nonneg p.0.1)
      then err invalid_argument
      else ok (rt.scale_f64 base p.0.1)))

-- The branch of the condensed layout.
unfoldable pub condensed_rent : Runtime → ℕ → Result ℕ
condensed_rent rt bytes =
    Error.◌>>=◌ (rt.get_rent_sysvar 8)
      (λ condensed. ok_or (checked_u64 (bytes * from_le_bytes condensed)) arithmetic_overflow)

-- The match on the first read of the sysvar.
unfoldable pub rent_by_layout : Runtime → ℕ → Result Bytes → Result ℕ
unfolding classic_rent condensed_rent
rent_by_layout rt bytes (ok classic) = classic_rent rt bytes classic
rent_by_layout rt bytes (err invalid_argument) = condensed_rent rt bytes
rent_by_layout rt bytes (err e) = err e
rent_by_layout rt bytes panic = panic

unfoldable pub rent_minimum_balance : Runtime → ℕ → Result ℕ
unfolding rent_by_layout
rent_minimum_balance rt data_len =
    Error.◌>>=◌ (ok_or (checked_u64 (account_storage_overhead + data_len)) arithmetic_overflow)
      (λ bytes. rent_by_layout rt bytes (rt.get_rent_sysvar 17))

-- The two branches of `settle_rent` behind the new minimum.
unfoldable pub settle_to : Runtime → Bytes → Bytes → ℕ → ℕ → Act (Unit {0})
settle_to rt did_account payer new_min current =
    if ltb current new_min
    then invoke (rt.transfer payer did_account (new_min - current))
    else when (ltb new_min current) (do
      let refund = current - new_min
      set_lamports did_account new_min
      p ← account payer
      credited ← lift (ok_or (checked_u64 (p.lamports + refund)) arithmetic_overflow)
      set_lamports payer credited)

unfoldable pub settle_rent : Runtime → Bytes → Bytes → ℕ → Act (Unit {0})
unfolding rent_minimum_balance settle_to
settle_rent rt did_account payer new_len = do
  new_min ← lift (rent_minimum_balance rt new_len)
  v ← account did_account
  settle_to rt did_account payer new_min v.lamports

unfoldable pub grow : Runtime → Bytes → Bytes → ℕ → Act (Unit {0})
unfolding settle_rent
grow rt did_account payer new_len = do
  settle_rent rt did_account payer new_len
  resize_account rt did_account new_len

unfoldable pub shrink : Runtime → Bytes → Bytes → ℕ → Act (Unit {0})
unfolding settle_rent
shrink rt did_account payer new_len = do
  resize_account rt did_account new_len
  settle_rent rt did_account payer new_len
