-- ===== src/Reader/Offsets.antt =====
-- The reads at an offset that callers of earlier releases use (program/src/state.rs,
-- program/src/instructions/shared.rs).
use bio_did_registry.Base.{
  ℕ, ◌+◌, ◌^◌, ◌<◌, ◌≡◌, refl, ap, ◌∙◌, [], ◌∷◌, ◌++◌, append-nil, append_assoc, Bool-cases, inl,
  inr, arith, length, length-append, if◌then◌else◌,
}
use bio_did_registry.Error.{ok, err, invalid_instruction_data}
use bio_did_registry.Bytes.{Bytes, u16_le, u32_le}
use bio_did_registry.Utf8.{from_utf8}
use bio_did_registry.Reader
use bio_did_registry.Reader.{Source, Reading}
use bio_did_registry.Reader.Laws.{
  cursor, prefixed, bytes_lem, u8_lem, u32_lem, uint_lem, len_prefixed_lem, length-to_le_bytes,
}
use bio_did_registry.Document.Decode.{at_lem}
use bio_did_registry.State.Deprecated.{read_at, read_u32, read_bytes, read_len_prefixed}
use bio_did_registry.Instructions.Deprecated.{
  ix_read_u32, ix_read_u16, ix_read_u8, ix_read_len_prefixed, ix_read_str, ix_finish,
}

-- A read of what stands at the offset ends behind it.
read_at_lem :
    {A : Type 0} (s : Source) (read : Reading A) (a field c : Bytes) (v : A) (n : ℕ)
    → length field ≡ n
    → ((len : ℕ) → read (cursor s len (field ++ c)) ≡ ok (v, cursor s len c))
    → read_at s read (a ++ (field ++ c)) (length a) ≡ ok (v, length a + n)
unfolding read_at
read_at_lem s read a field c v n size step = rw (at_lem s (length a) a (field ++ c) refl) (
    rw (step (length (a ++ (field ++ c)))) (
      ap (λ n. ok (v, n))
        (omega (arith, size, length-append a (field ++ c), length-append field c))))

prefixed_lem :
    (s : Source) (b c : Bytes) (len : ℕ)
    → length b < 2 ^ 32
    → Reader.len_prefixed (cursor s len (prefixed b ++ c)) ≡ ok (b, cursor s len c)
prefixed_lem s b c len h =
    ap (λ t. Reader.len_prefixed (cursor s len t)) (append_assoc (u32_le (length b)) b c)
    ∙ len_prefixed_lem s len b c h

length-prefixed : (b : Bytes) → length (prefixed b) ≡ 4 + length b
length-prefixed b =
    length-append (u32_le (length b)) b ∙ ap (λ n. n + length b) (length-to_le_bytes 4 _)

-- A string is refused where its bytes are no UTF-8.
text_lem :
    (a b c : Bytes)
    → length b < 2 ^ 32
    → ix_read_str (a ++ (prefixed b ++ c)) (length a)
      ≡ (if from_utf8 b then ok (b, length a + (4 + length b)) else err invalid_instruction_data)
unfolding read_at Reader.str
text_lem a b c h = elim (Bool-cases (from_utf8 b)) [
  | inl valid ↦ rw valid (
      read_at_lem Reader.args Reader.str a (prefixed b) c b (4 + length b) (length-prefixed b)
        (λ len. rw (prefixed_lem Reader.args b c len h) (rw valid refl)))
  | inr broken ↦ rw broken (
      rw (at_lem Reader.args (length a) a (prefixed b ++ c) refl)
        (rw (prefixed_lem Reader.args b c (length (a ++ (prefixed b ++ c))) h) (rw broken refl)))
]

finish_lem : (a : Bytes) → ix_finish a (length a) ≡ ok tt
unfolding ix_finish Reader.finish
finish_lem a =
    rw (← append-nil a)
      (rw (at_lem Reader.args (length (a ++ [])) a [] (ap length (append-nil a))) refl)

unfinished :
    (a c : Bytes) (x : ℕ) → ix_finish (a ++ (x ∷ c)) (length a) ≡ err invalid_instruction_data
unfolding ix_finish Reader.finish
unfinished a c x = rw (at_lem Reader.args (length a) a (x ∷ c) refl) refl

-- Where a number that fits its width, bytes, or bytes behind their length in four bytes stand at
-- the offset, the read there returns them and the offset behind them, and a read of a string does
-- so if the bytes are UTF-8 and fails as invalid instruction data if not. `ix_finish` succeeds at
-- the end of the arguments, and fails so where a byte stands at the offset.
pub read_at-fields :
    (a b c : Bytes) (v w x : ℕ)
    → v < 2 ^ 32
    → w < 2 ^ 16
    → length b < 2 ^ 32
    → (read_u32 (a ++ (u32_le v ++ c)) (length a) ≡ ok (v, length a + 4))
      × (ix_read_u32 (a ++ (u32_le v ++ c)) (length a) ≡ ok (v, length a + 4))
      × (ix_read_u16 (a ++ (u16_le w ++ c)) (length a) ≡ ok (w, length a + 2))
      × (ix_read_u8 (a ++ (x ∷ c)) (length a) ≡ ok (x, length a + 1))
      × (read_bytes (a ++ (b ++ c)) (length a) (length b) ≡ ok (b, length a + length b))
      × (read_len_prefixed (a ++ (prefixed b ++ c)) (length a) ≡ ok (b, length a + (4 + length b)))
      × (ix_read_len_prefixed (a ++ (prefixed b ++ c)) (length a)
          ≡ ok (b, length a + (4 + length b)))
      × (ix_read_str (a ++ (prefixed b ++ c)) (length a) ≡ (
          if from_utf8 b then ok (b, length a + (4 + length b)) else err invalid_instruction_data))
      × (ix_finish a (length a) ≡ ok tt)
      × (ix_finish (a ++ (x ∷ c)) (length a) ≡ err invalid_instruction_data)
read_at-fields a b c v w x v_fits w_fits b_fits = (
  read_at_lem Reader.account Reader.u32 a (u32_le v) c v 4 (length-to_le_bytes 4 _)
      (λ len. u32_lem Reader.account len v c v_fits),
  read_at_lem Reader.args Reader.u32 a (u32_le v) c v 4 (length-to_le_bytes 4 _)
      (λ len. u32_lem Reader.args len v c v_fits),
  read_at_lem Reader.args Reader.u16 a (u16_le w) c w 2 (length-to_le_bytes 2 _)
      (λ len. uint_lem Reader.args len 2 w c w_fits),
  read_at_lem Reader.args Reader.u8 a (x ∷ []) c x 1 refl (λ len. u8_lem Reader.args len x c),
  read_at_lem Reader.account (Reader.bytes (length b)) a b c b (length b) refl
      (λ len. bytes_lem Reader.account len (length b) b c refl),
  read_at_lem Reader.account Reader.len_prefixed a (prefixed b) c b (4 + length b)
      (length-prefixed b) (λ len. prefixed_lem Reader.account b c len b_fits),
  read_at_lem Reader.args Reader.len_prefixed a (prefixed b) c b (4 + length b) (length-prefixed b)
      (λ len. prefixed_lem Reader.args b c len b_fits),
  text_lem a b c b_fits,
  finish_lem a,
  unfinished a c x,
)
