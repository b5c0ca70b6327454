-- ===== src/Staging/Upload.antt =====
-- Uploading a key chunk by chunk (program/src/instructions/write_key_buffer.rs).
use bio_did_registry.Base.{
  ◌≡◌, ◌+◌, ◌≤◌, ◌^◌, ◌==◌, ==_iff, leb, le→leb, refl, sym, ap, ◌∙◌, true, false, ◌∷◌, ◌++◌, length,
  length-append, append_assoc, arith, ltb, lt→ltb,
}
use bio_did_registry.Error.{ok, require, ◌>>=◌}
use bio_did_registry.Bytes.{Bytes, u16_le, u32_le, copy_from_slice}
use bio_did_registry.Bytes.Slices.{copy_lem}
use bio_did_registry.Reader.Laws.{length-to_le_bytes}
use bio_did_registry.State.Consts.{kb_off_key, kb_off_written}
use bio_did_registry.State.Checks.{is_empty}
use bio_did_registry.Document.Parts.{length-u32_le}
use bio_did_registry.Staging.{Staging, IsStaging, key_len, before_written, after_written, encode}
use bio_did_registry.Instructions.WriteKeyBuffer.{write_chunk}

-- The upload after one more chunk, with `rest` left to do.
abbrev pub advanced : Staging → Bytes → Bytes → Staging
advanced s chunk rest = record s { done = s.done ++ chunk; todo = rest }

pub length-before_written : (s : Staging) → IsStaging s → length (before_written s) ≡ kb_off_written
length-before_written s v = omega (
  arith,
  v.discriminator_len,
  v.did_account_len,
  v.authority_len,
  length-append s.discriminator (
      s.did_account
      ++ (s.authority ++ (s.bump ∷ s.method_type ∷ u16_le s.flags ++ u32_le (key_len s)))),
  length-append s.did_account
      (s.authority ++ (s.bump ∷ s.method_type ∷ u16_le s.flags ++ u32_le (key_len s))),
  length-append s.authority (s.bump ∷ s.method_type ∷ u16_le s.flags ++ u32_le (key_len s)),
  length-append (u16_le s.flags) (u32_le (key_len s)),
  length-to_le_bytes 2 s.flags,
  length-u32_le (key_len s),
)

pub length-after_written : (s : Staging) → IsStaging s → length (after_written s) ≡ 36
length-after_written s v = omega (
  arith,
  v.fragment_len,
  length-append (u32_le (length s.fragment)) (s.fragment ++ s.padding),
  length-append s.fragment s.padding,
  length-u32_le (length s.fragment),
)

-- The two copies of `write_chunk`, over the part `old` of what was to do.
chunk_copies :
    (s : Staging) (chunk old rest : Bytes)
    → IsStaging s
    → s.todo ≡ old ++ rest
    → length chunk ≡ length old
    → (copy_from_slice (kb_off_key + length s.done) chunk (encode s)
        >>= copy_from_slice kb_off_written (u32_le (length s.done + length chunk)))
      ≡ ok (encode (advanced s chunk rest))
unfolding encode
chunk_copies s chunk old rest v e same =
    let a = before_written s in
    let c = u32_le (length s.done) in
    let b = after_written s in
    let front = a ++ (c ++ (b ++ s.done)) in
    let total = length-append old rest in
    let more = length-append s.done chunk in
    let n = length s.done + length chunk in
    let front_len : kb_off_key + length s.done ≡ length front = omega (
      arith,
      length-before_written s v,
      length-after_written s v,
      length-append a (c ++ (b ++ s.done)),
      length-append c (b ++ s.done),
      length-append b s.done,
      length-u32_le (length s.done),
    ) in
    let cut : encode s ≡ front ++ (old ++ rest) = rw e (simp append_assoc) in
    let join : front ++ (chunk ++ rest) ≡ a ++ (c ++ (b ++ ((s.done ++ chunk) ++ rest))) =
      simp append_assoc in
    let all_len : length s.done + length s.todo ≡ length (s.done ++ chunk) + length rest =
      omega (arith, more, total, same, ap length e) in
    rw (cut, copy_lem (kb_off_key + length s.done) chunk front old rest front_len same)
      (ap (copy_from_slice kb_off_written (u32_le n)) join
        ∙ (copy_lem kb_off_written (u32_le n) a c (b ++ ((s.done ++ chunk) ++ rest))
              (sym (length-before_written s v))
              (length-u32_le n ∙ sym (length-u32_le (length s.done)))
            ∙ rw (all_len, more) refl))

-- A chunk that starts where the upload has come to, and that the key has room for, is put behind
-- what is uploaded; what is left to do shrinks by as much, and the rest of the buffer stays.
pub write_chunk-encode :
    (s : Staging) (chunk old rest : Bytes)
    → IsStaging s
    → is_empty chunk ≡ false
    → s.todo ≡ old ++ rest
    → length chunk ≡ length old
    → write_chunk (length s.done) (key_len s) (length s.done) chunk (encode s)
      ≡ ok (encode (advanced s chunk rest))
unfolding write_chunk require
write_chunk-encode s chunk old rest v nonempty e same =
    let here : (length s.done == length s.done) ≡ true =
      (==_iff (length s.done) (length s.done)).1 refl in
    let fits : length s.done + length chunk ≤ key_len s =
      omega (arith, length-append old rest, ap length e, same) in
    let in_range : ltb (length s.done + length chunk) (2 ^ 64) ≡ true =
      lt→ltb _ _ (omega (arith, v.key_len_range, fits)) in
    let room : leb (length s.done + length chunk) (key_len s) ≡ true = le→leb _ _ fits in
    rw (nonempty, here) (rw in_range (rw room (chunk_copies s chunk old rest v e same)))
