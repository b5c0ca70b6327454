-- ===== src/Events.antt =====
-- The events, and their bytes in the log (program/src/events.rs).
use bio_did_registry.Base.{ℕ, [], ◌∷◌, replicate}
use bio_did_registry.Error.{Result, ◌>>=◌}
use bio_did_registry.Bytes.{Bytes, u64_le, copy_from_slice}
use bio_did_registry.Runtime.{Act, lift, log_data}
use bio_did_registry.Runtime

abbrev pub did_initialized : Bytes
did_initialized = 125 ∷ 40 ∷ 26 ∷ 220 ∷ 241 ∷ 180 ∷ 151 ∷ 84 ∷ []

abbrev pub did_modified : Bytes
did_modified = 127 ∷ 241 ∷ 158 ∷ 225 ∷ 33 ∷ 224 ∷ 88 ∷ 208 ∷ []

abbrev pub did_deactivated : Bytes
did_deactivated = 6 ∷ 124 ∷ 31 ∷ 30 ∷ 191 ∷ 92 ∷ 197 ∷ 57 ∷ []

-- The buffer of 80 bytes that `emit` fills.
unfoldable pub event_bytes : Bytes → Bytes → Bytes → ℕ → Result Bytes
event_bytes discriminator did_account subject version = do
  buf ← copy_from_slice 0 discriminator (replicate 80 0)
  buf ← copy_from_slice 8 did_account buf
  buf ← copy_from_slice 40 subject buf
  copy_from_slice 72 (u64_le version) buf

-- `emit`
unfoldable pub emit : Bytes → Bytes → Bytes → ℕ → Act (Unit {0})
unfolding event_bytes
emit discriminator did_account subject version =
    Runtime.◌>>=◌ (lift (event_bytes discriminator did_account subject version))
      (λ buf. log_data buf)
