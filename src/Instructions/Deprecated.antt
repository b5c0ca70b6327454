-- ===== src/Instructions/Deprecated.antt =====
-- The reads of the arguments that callers of earlier releases use
-- (program/src/instructions/shared.rs).
use bio_did_registry.Base.{ℕ}
use bio_did_registry.Error.{Result, ◌>>=◌, ok}
use bio_did_registry.Bytes.{Bytes}
use bio_did_registry.Reader
use bio_did_registry.Reader.{args, at}
use bio_did_registry.State.Deprecated.{read_at}

abbrev pub ix_read_u32 : Bytes → ℕ → Result (ℕ × ℕ)
ix_read_u32 = read_at args Reader.u32

abbrev pub ix_read_u16 : Bytes → ℕ → Result (ℕ × ℕ)
ix_read_u16 = read_at args Reader.u16

abbrev pub ix_read_u8 : Bytes → ℕ → Result (ℕ × ℕ)
ix_read_u8 = read_at args Reader.u8

abbrev pub ix_read_len_prefixed : Bytes → ℕ → Result (Bytes × ℕ)
ix_read_len_prefixed = read_at args Reader.len_prefixed

abbrev pub ix_read_str : Bytes → ℕ → Result (Bytes × ℕ)
ix_read_str = read_at args Reader.str

unfoldable pub ix_finish : Bytes → ℕ → Result (Unit {0})
ix_finish bytes off = do r ← at args bytes off; (ended, r') ← Reader.finish r; ok ended
