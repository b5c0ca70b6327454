-- ===== src/State/Sections.antt =====
-- The section map of a `DidAccount` (program/src/state.rs, `Sections` and `Sections::parse`).
use bio_did_registry.Base.{ℕ, zero, suc, ◌+◌, ◌*◌}
use bio_did_registry.Error.{Result, ok}
use bio_did_registry.Error
use bio_did_registry.Bytes.{Bytes}
use bio_did_registry.Reader.{
  account, at, Reading, ◌>>=◌, ◌>>◌, pure, here, bytes, u32, len_prefixed, finish,
}
use bio_did_registry.State.Consts.{off_sections}

pub record Sections : Type 0 where
  pub nc_count : ℕ
  pub nc_items : ℕ
  pub oc_count : ℕ
  pub oc_count_pos : ℕ
  pub oc_items : ℕ
  pub vm_count : ℕ
  pub vm_count_pos : ℕ
  pub vm_items : ℕ
  pub svc_count : ℕ
  pub svc_count_pos : ℕ
  pub svc_items : ℕ
  pub end : ℕ

-- `for _ in 0..n { body }`
unfoldable pub repeat : ℕ → Reading (Unit {0}) → Reading (Unit {0})
repeat zero body = pure tt
repeat (suc n) body = body >> repeat n body

abbrev pub skip_controller : Reading (Unit {0})
skip_controller = len_prefixed >> pure tt

abbrev pub skip_vm : Reading (Unit {0})
skip_vm = do len_prefixed; bytes (1 + 2); len_prefixed; pure tt

abbrev pub skip_service : Reading (Unit {0})
skip_service = do len_prefixed; len_prefixed; len_prefixed; pure tt

-- The walk of `Sections::parse`, from the cursor at `OFF_SECTIONS` on.
unfoldable pub walk : Reading Sections
unfolding repeat
walk = do
  nc_count ← u32
  nc_items ← here
  bytes (nc_count * 32)
  oc_count_pos ← here
  oc_count ← u32
  oc_items ← here
  repeat oc_count skip_controller
  vm_count_pos ← here
  vm_count ← u32
  vm_items ← here
  repeat vm_count skip_vm
  svc_count_pos ← here
  svc_count ← u32
  svc_items ← here
  repeat svc_count skip_service
  end ← here
  finish
  pure (record {
    nc_count = nc_count;
    nc_items = nc_items;
    oc_count = oc_count;
    oc_count_pos = oc_count_pos;
    oc_items = oc_items;
    vm_count = vm_count;
    vm_count_pos = vm_count_pos;
    vm_items = vm_items;
    svc_count = svc_count;
    svc_count_pos = svc_count_pos;
    svc_items = svc_items;
    end = end;
  })

-- `Sections::parse`
unfoldable pub parse : Bytes → Result Sections
unfolding walk
parse bytes = Error.◌>>=◌ (at account bytes off_sections) (λ r. Error.◌>>=◌ (walk r) (λ p. ok p.0))
