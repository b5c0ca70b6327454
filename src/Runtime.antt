-- ===== src/Runtime.antt =====
-- What the program runs on: accounts, the store they live in, and the calls of the SDK and of the
-- system program, which are parameters (the crates pinocchio and pinocchio_system).
use bio_did_registry.Base.{
  ℕ, ◌^◌, Bool, true, false, Option, none, some, List, [], ◌∷◌, ◌++◌, ltb, if◌then◌else◌, bytes_eq,
}
use bio_did_registry.Error.{ProgramError, Result, ok, err, panic}
use bio_did_registry.Error
use bio_did_registry.Bytes.{Bytes}

-- An account as the program sees it. Accounts that are passed twice are one account, so the store
-- is keyed by address and an instruction's accounts are a list of addresses.
pub record AccountView : Type 0 where
  pub owner : Bytes
  pub lamports : ℕ
  pub content : Bytes
  pub is_signer : Bool
  pub is_writable : Bool

pub record Store : Type 0 where
  pub accounts : Bytes → AccountView
  pub logs : List Bytes

-- An instruction step. An error leaves no store: the runtime rolls a failed transaction back.
abbrev pub Act : Type 0 → Type 0
Act A = Store → Result (A × Store)

abbrev pub pure : {A : Type 0} → A → Act A
pure a s = ok (a, s)

infixl 5 ◌>>=◌ ◌>>◌
abbrev pub ◌>>=◌ : {A B : Type 0} → Act A → (A → Act B) → Act B
◌>>=◌ m f s = Error.◌>>=◌ (m s) (λ p. f p.0 p.1)

abbrev pub ◌>>◌ : {A B : Type 0} → Act A → Act B → Act B
m >> k = m >>= λ _. k

abbrev pub lift : {A : Type 0} → Result A → Act A
lift r s = Error.◌>>=◌ r (λ a. ok (a, s))

abbrev pub fail : {A : Type 0} → ProgramError → Act A
fail e s = err e

-- `if !c { return Err(e); }`
abbrev pub ensure : Bool → ProgramError → Act (Unit {0})
ensure true e s = ok (tt, s)
ensure false e s = err e

-- `if c { m?; }`
abbrev pub when : Bool → Act (Unit {0}) → Act (Unit {0})
when true m = m
when false m = pure tt

abbrev pub account : Bytes → Act AccountView
account a s = ok (s.accounts a, s)

abbrev pub update : (Bytes → AccountView) → Bytes → AccountView → Bytes → AccountView
update f a v b = if bytes_eq a b then v else f b

abbrev pub put : Bytes → AccountView → Act (Unit {0})
put a v s = ok (tt, record s { accounts = update s.accounts a v })

-- `try_borrow`: no borrow of the same account is alive where the program takes one.
abbrev pub borrow : Bytes → Act Bytes
borrow a s = ok ((s.accounts a).content, s)

-- `try_borrow_mut`, an edit of the bytes in place that may return a value, and the end of the borrow.
abbrev pub edit : {A : Type 0} → Bytes → (Bytes → Result (Bytes × A)) → Act A
edit a f = do v ← account a; p ← lift (f v.content); put a (record v { content = p.0 }); pure p.1

abbrev pub set_lamports : Bytes → ℕ → Act (Unit {0})
set_lamports a n = do v ← account a; put a (record v { lamports = n })

abbrev pub log_data : Bytes → Act (Unit {0})
log_data b s = ok (tt, record s { logs = s.logs ++ (b ∷ []) })

-- The calls that leave the program. `seeds` are the seeds of a program address that signs.
pub record Runtime : Type 0 where
  pub program_id : Bytes
  pub system_program_id : Bytes
  -- `Address::derive_program_address(seeds, &ID)` and `Address::derive_address(seeds, bump, &ID)`
  pub derive_program_address : List Bytes → Option (Bytes × ℕ)
  -- `Address::find_program_address(seeds, &ID)`, which panics where there is no address
  pub find_program_address : List Bytes → Result (Bytes × ℕ)
  pub derive_address : List Bytes → ℕ → Bytes
  -- `bytes_are_curve_point`, and `is_on_curve` of an address
  pub bytes_are_curve_point : Bytes → Bool
  -- `Clock::get()?.unix_timestamp`, as the bit pattern of the `i64`
  pub unix_timestamp : Result ℕ
  -- `get_sysvar` of the rent sysvar into a buffer of that many bytes
  pub get_rent_sysvar : ℕ → Result Bytes
  -- `threshold.is_finite() && threshold >= 0.0`, and `(base as f64 * threshold) as u64`
  pub is_finite_nonneg : Bytes → Bool
  pub scale_f64 : ℕ → Bytes → ℕ
  -- `AccountView::resize` and `AccountView::close`
  pub resize : ℕ → AccountView → Result AccountView
  pub close : AccountView → Result AccountView
  -- the system program's instructions
  pub transfer : Bytes → Bytes → ℕ → Store → Result Store
  pub create_account : List Bytes → Bytes → Bytes → ℕ → ℕ → Bytes → Store → Result Store
  pub allocate : List Bytes → Bytes → ℕ → Store → Result Store
  pub assign : List Bytes → Bytes → Bytes → Store → Result Store

abbrev pub invoke : (Store → Result Store) → Act (Unit {0})
invoke f s = Error.◌>>=◌ (f s) (λ t. ok (tt, t))

-- `account.resize(len)` and `account.close()`
abbrev pub resize_account : Runtime → Bytes → ℕ → Act (Unit {0})
resize_account rt a len = do v ← account a; w ← lift (rt.resize len v); put a w

abbrev pub close_account : Runtime → Bytes → Act (Unit {0})
close_account rt a = do v ← account a; w ← lift (rt.close v); put a w

-- `u64::checked_add` and `u64::checked_mul`
abbrev pub checked_u64 : ℕ → Option ℕ
checked_u64 n = if ltb n (2 ^ 64) then some n else none
