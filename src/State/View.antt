-- ===== src/State/View.antt =====
-- The read side of a parsed account: entry iterators and lookups (program/src/state.rs, `DidView`,
-- `VmIter`, `SvcIter`, `VmRef`, `SvcRef`).
use bio_did_registry.Base.{
  ℕ, zero, suc, ◌+◌, ◌*◌, ◌/◌, Bool, true, false, not, ◌&&◌, ◌||◌, Option, none, some, List, [],
  ◌∷◌, length, take, drop, leb, ◌==◌, if◌then◌else◌, bytes_eq, get_elem?, bit_and,
}
use bio_did_registry.Error.{
  Result, ok, err, panic, require, did_deactivated, unauthorized, fragment_already_in_use,
  invalid_fragment, ◌>>=◌, ◌>>◌,
}
use bio_did_registry.Bytes.{Bytes, slice}
use bio_did_registry.Reader.{
  account, Reader, Reading, at, new, offset, remaining, len_prefixed, u8, u16, here, pure,
}
use bio_did_registry.Reader
use bio_did_registry.State.Consts.{
  off_deactivated, vm_type_ed25519, vm_flag_capability_invocation, default_fragment,
}
use bio_did_registry.State.Sections.{Sections}
use bio_did_registry.State.Sections

pub record DidView : Type 0 where
  pub bytes : Bytes
  pub sections : Sections

pub record VmRef : Type 0 where
  pub fragment : Bytes
  pub method_type : ℕ
  pub flags : ℕ
  pub key : Bytes
  pub start : ℕ
  pub end : ℕ
  pub flags_pos : ℕ

pub record SvcRef : Type 0 where
  pub fragment : Bytes
  pub start : ℕ
  pub end : ℕ

-- `DidView::parse`
unfoldable pub view : Bytes → Result DidView
view bytes = do s ← Sections.parse bytes; ok (record { bytes = bytes; sections = s })

-- `data[at]`
unfoldable pub get_byte : Bytes → ℕ → Result ℕ
get_byte bytes i = elim (get_elem? bytes i) [ none ↦ panic | some b ↦ ok b ]

-- `DidView::is_deactivated`
unfoldable pub is_deactivated : DidView → Result Bool
unfolding get_byte
is_deactivated v = do b ← get_byte v.bytes off_deactivated; ok (not (b == 0))

-- `section`
unfoldable pub section : Bytes → ℕ → ℕ → Reader
section bytes items end =
    if leb end (length bytes)
    then elim (at account (take end bytes) items) [
      | ok r ↦ r
      | err _ ↦ new account []
      | panic ↦ new account []
    ]
    else new account []

-- `Result::ok`
abbrev pub to_option : {A : Type 0} → Result A → Option A
to_option (ok a) = some a
to_option (err e) = none
to_option panic = none

-- The reads of `VmIter::next`.
unfoldable pub read_vm : Reading VmRef
read_vm = Reader.◌>>=◌ here (λ start. Reader.◌>>=◌ len_prefixed (λ fragment.
    Reader.◌>>=◌ u8 (λ method_type. Reader.◌>>=◌ here (λ flags_pos. Reader.◌>>=◌ u16 (λ flags.
      Reader.◌>>=◌ len_prefixed (λ key. Reader.◌>>=◌ here (λ end. pure (record {
        fragment = fragment;
        method_type = method_type;
        flags = flags;
        key = key;
        start = start;
        end = end;
        flags_pos = flags_pos;
      }))))))))

-- The reads of `SvcIter::next`.
unfoldable pub read_service : Reading SvcRef
read_service = Reader.◌>>=◌ here (λ start. Reader.◌>>=◌ len_prefixed (λ fragment.
    Reader.◌>>=◌ len_prefixed (λ _. Reader.◌>>=◌ len_prefixed (λ _.
      Reader.◌>>=◌ here (λ end. pure (record { fragment = fragment; start = start; end = end }))))))

-- `Iterator::next` over one kind of entry.
unfoldable pub next : {A : Type 0} → Reading A → Reader → Option (A × Reader)
next read r = elim (remaining r) [ [] ↦ none | b ∷ bs ↦ to_option (read r) ]

-- The entries that a `for` loop sees. Every entry takes a byte at least, so as many rounds as
-- there are bytes left are enough.
unfoldable pub entries : {A : Type 0} → ℕ → Reading A → Reader → List A
entries zero read r = []
entries (suc fuel) read r = elim (next read r) [
  | none ↦ []
  | some (a, r') ↦ a ∷ entries fuel read r'
]

-- `DidView::vms`
unfoldable pub vms : DidView → List VmRef
unfolding section entries next read_vm
vms v =
    let r = section v.bytes v.sections.vm_items v.sections.svc_count_pos in
    entries (length r.rest) read_vm r

-- `DidView::services`
unfoldable pub services : DidView → List SvcRef
unfolding section entries next read_service
services v =
    let r = section v.bytes v.sections.svc_items v.sections.end in
    entries (length r.rest) read_service r

-- A loop that returns the first entry that passes a test.
abbrev pub find {ℓ} : {A : Type ℓ} → (A → Bool) → List A → Option A
find p [] = none
find p (x ∷ xs) = if p x then some x else find p xs

abbrev pub any {ℓ} : {A : Type ℓ} → (A → Bool) → List A → Bool
any p [] = false
any p (x ∷ xs) = p x || any p xs

-- `DidView::find_vm`
unfoldable pub find_vm : DidView → Bytes → Option VmRef
find_vm v fragment = find (λ vm. bytes_eq vm.fragment fragment) (vms v)

-- `DidView::find_service`
unfoldable pub find_service : DidView → Bytes → Option SvcRef
find_service v fragment = find (λ svc. bytes_eq svc.fragment fragment) (services v)

-- `as_chunks::<32>().0`
unfoldable pub as_chunks : ℕ → Bytes → List Bytes
as_chunks zero b = []
as_chunks (suc n) b = take 32 b ∷ as_chunks n (drop 32 b)

-- `DidView::is_native_controller`
unfoldable pub is_native_controller : DidView → Bytes → Result Bool
unfolding as_chunks
is_native_controller v key = do
  keys ← slice v.sections.nc_items (v.sections.nc_items + 32 * v.sections.nc_count) v.bytes
  ok (any (λ controller. bytes_eq controller key) (as_chunks (length keys / 32) keys))

-- `flags & mask != 0`
abbrev pub has_flag : ℕ → ℕ → Bool
has_flag flags mask = not (bit_and flags mask == 0)

-- `VmRef::is_authority`
abbrev pub is_authority_method : VmRef → Bool
is_authority_method vm =
    vm.method_type == vm_type_ed25519 && has_flag vm.flags vm_flag_capability_invocation

-- `DidView::is_authority`
unfoldable pub is_authority : DidView → Bytes → Bool
is_authority v signer = any (λ vm. is_authority_method vm && bytes_eq vm.key signer) (vms v)

-- `DidView::require_authority`
unfoldable pub require_authority : DidView → Bytes → Result (Unit {0})
require_authority v signer = do
  deactivated ← is_deactivated v
  require (not deactivated) did_deactivated
  require (is_authority v signer) unauthorized

abbrev pub count_if {ℓ} : {A : Type ℓ} → (A → Bool) → List A → ℕ
count_if p [] = 0
count_if p (x ∷ xs) = (if p x then 1 else 0) + count_if p xs

-- `DidView::authority_count`
unfoldable pub authority_count : DidView → ℕ
authority_count v = count_if is_authority_method (vms v)

abbrev pub is_some {ℓ} : {A : Type ℓ} → Option A → Bool
is_some none = false
is_some (some _) = true

-- `DidView::require_fragment_free`
unfoldable pub require_fragment_free : DidView → Bytes → Result (Unit {0})
require_fragment_free v fragment = do
  let taken = is_some (find_vm v fragment) || is_some (find_service v fragment)
  require (not taken) fragment_already_in_use
  require (not (bytes_eq fragment default_fragment)) invalid_fragment
