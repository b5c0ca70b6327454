-- ===== src/State/Deprecated.antt =====
-- The forms that callers of earlier releases use: reads at an offset, and loops that take a closure
-- (program/src/state.rs).
use bio_did_registry.Base.{
  ℕ, zero, suc, ◌+◌, Bool, true, false, not, ◌&&◌, if◌then◌else◌, ◌==◌, bytes_eq,
}
use bio_did_registry.Error.{
  Result, ok, require, did_deactivated, unauthorized, fragment_already_in_use, invalid_fragment,
  ◌>>=◌, ◌>>◌,
}
use bio_did_registry.Bytes.{Bytes}
use bio_did_registry.Reader
use bio_did_registry.Reader.{Source, account, Reader, Reading, at, offset}
use bio_did_registry.State.Consts.{
  off_deactivated, vm_type_ed25519, vm_flag_capability_invocation, default_fragment,
}
use bio_did_registry.State.Sections.{Sections}
use bio_did_registry.State.View.{VmRef, SvcRef, get_byte, has_flag, read_vm, read_service}

-- A read at `off`, and where it ends.
unfoldable pub read_at : {A : Type 0} → Source → Reading A → Bytes → ℕ → Result (A × ℕ)
read_at source read bytes off = do
  r ← at source bytes off
  (value, r') ← read r
  ok (value, offset r')

abbrev pub read_u32 : Bytes → ℕ → Result (ℕ × ℕ)
read_u32 = read_at account Reader.u32

abbrev pub read_bytes : Bytes → ℕ → ℕ → Result (Bytes × ℕ)
read_bytes bytes off len = read_at account (Reader.bytes len) bytes off

abbrev pub read_len_prefixed : Bytes → ℕ → Result (Bytes × ℕ)
read_len_prefixed = read_at account Reader.len_prefixed

-- The loops: the closure changes what it has captured, and says whether to go on.
unfoldable pub each :
    {A S : Type 0} → ℕ → Reading A → (A → S → Result (S × Bool)) → Reader → S → Result S
each zero read f r state = ok state
each (suc n) read f r state = do
  (entry, r') ← read r
  (state', keep_going) ← f entry state
  elim keep_going [ true ↦ each n read f r' state' | false ↦ ok state' ]

unfoldable pub for_each_vm :
    {S : Type 0} → Bytes → Sections → (VmRef → S → Result (S × Bool)) → S → Result S
unfolding each read_vm
for_each_vm bytes s f state = do r ← at account bytes s.vm_items; each s.vm_count read_vm f r state

unfoldable pub for_each_service :
    {S : Type 0} → Bytes → Sections → (SvcRef → S → Result (S × Bool)) → S → Result S
unfolding each read_service
for_each_service bytes s f state = do
  r ← at account bytes s.svc_items
  each s.svc_count read_service f r state

-- A closure that looks for an entry: it notes that there is one, and stops.
abbrev pub noting : {A : Type 0} → (A → Bool) → A → Bool → Result (Bool × Bool)
noting p entry noted = ok (if p entry then (true, false) else (noted, true))

-- `vm.method_type == VM_TYPE_ED25519 && vm.flags & VM_FLAG_CAPABILITY_INVOCATION != 0`
abbrev pub may_update : VmRef → Bool
may_update vm = vm.method_type == vm_type_ed25519 && has_flag vm.flags vm_flag_capability_invocation

unfoldable pub require_authority : Bytes → Sections → Bytes → Result (Unit {0})
unfolding for_each_vm get_byte
require_authority bytes s signer = do
  deactivated ← get_byte bytes off_deactivated
  require (deactivated == 0) did_deactivated
  authorized ← for_each_vm bytes s (noting (λ vm. may_update vm && bytes_eq vm.key signer)) false
  require authorized unauthorized

unfoldable pub authority_count : Bytes → Sections → Result ℕ
unfolding for_each_vm
authority_count bytes s =
    for_each_vm bytes s (λ vm n. ok (if may_update vm then n + 1 else n, true)) 0

unfoldable pub require_fragment_free : Bytes → Sections → Bytes → Result (Unit {0})
unfolding for_each_vm for_each_service
require_fragment_free bytes s fragment = do
  taken ← for_each_vm bytes s (noting (λ vm. bytes_eq vm.fragment fragment)) false
  taken ←
      if taken
      then ok true
      else for_each_service bytes s (noting (λ svc. bytes_eq svc.fragment fragment)) false
  require (not taken) fragment_already_in_use
  require (not (bytes_eq fragment default_fragment)) invalid_fragment
