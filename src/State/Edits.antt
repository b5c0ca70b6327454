-- ===== src/State/Edits.antt =====
-- The in-place edits of an account (program/src/state.rs: `write_service`, `insert_vm`, `touch`,
-- `version`).
use bio_did_registry.Base.{ℕ, ◌+◌, ◌-◌, ◌^◌, List, [], ◌∷◌, length, ltb, if◌then◌else◌}
use bio_did_registry.Error.{Result, ok, ◌>>=◌}
use bio_did_registry.Bytes.{
  Bytes, from_le_bytes, u16_le, u32_le, u64_le, slice, copy_from_slice, copy_within, set_byte,
}
use bio_did_registry.State.Consts.{off_version, off_updated_at, vm_space}
use bio_did_registry.State.Sections.{Sections}
use bio_did_registry.State.Checks.{NewMethod}

-- The loop of `write_service` over its three parts.
unfoldable pub write_parts : Bytes → ℕ → List Bytes → Result (Bytes × ℕ)
write_parts bytes w [] = ok (bytes, w)
write_parts bytes w (part ∷ parts) = do
  bytes ← copy_from_slice w (u32_le (length part)) bytes
  bytes ← copy_from_slice (w + 4) part bytes
  write_parts bytes (w + 4 + length part) parts

-- `write_service`: the bytes and the offset behind the entry.
unfoldable pub write_service : Bytes → ℕ → Bytes → Bytes → Bytes → Result (Bytes × ℕ)
unfolding write_parts
write_service bytes at fragment service_type endpoint =
    write_parts bytes at (fragment ∷ service_type ∷ endpoint ∷ [])

-- `insert_vm`
unfoldable pub insert_vm : Bytes → Sections → NewMethod → Bytes → Result Bytes
insert_vm bytes s m key = do
  let at = s.svc_count_pos
  let entry_len = vm_space (length m.fragment) (length key)
  bytes ← copy_within at s.end (at + entry_len) bytes
  bytes ← copy_from_slice at (u32_le (length m.fragment)) bytes
  let w = at + 4
  bytes ← copy_from_slice w m.fragment bytes
  let w = w + length m.fragment
  bytes ← set_byte w m.method_type bytes
  let w = w + 1
  bytes ← copy_from_slice w (u16_le m.flags) bytes
  let w = w + 2
  bytes ← copy_from_slice w (u32_le (length key)) bytes
  let w = w + 4
  bytes ← copy_from_slice w key bytes
  copy_from_slice s.vm_count_pos (u32_le (s.vm_count + 1)) bytes

-- `version`
unfoldable pub version : Bytes → Result ℕ
version bytes = do field ← slice off_version (off_version + 8) bytes; ok (from_le_bytes field)

-- `u64::saturating_add(1)`
abbrev pub saturating_suc : ℕ → ℕ
saturating_suc v = if ltb v (2 ^ 64 - 1) then v + 1 else 2 ^ 64 - 1

-- `touch`: `now` is the bit pattern of an `i64`.
unfoldable pub touch : Bytes → ℕ → Result Bytes
unfolding version
touch bytes now = do
  v ← version bytes
  bytes ← copy_from_slice off_version (u64_le (saturating_suc v)) bytes
  copy_from_slice off_updated_at (u64_le now) bytes

-- `touch(&mut data, now); version(&data)`, with which every update ends its edit.
unfoldable pub stamp : ℕ → Bytes → Result (Bytes × ℕ)
unfolding touch
stamp now bytes = do bytes ← touch bytes now; v ← version bytes; ok (bytes, v)
