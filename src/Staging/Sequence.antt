-- ===== src/Staging/Sequence.antt =====
-- A key uploaded in a sequence of chunks, and read back (program/src/instructions/write_key_buffer.rs,
-- add_verification_method_from_buffer.rs; program/src/state.rs, `KeyBufferRef`).
use bio_did_registry.Base.{
  ℕ, ◌≡◌, ◌+◌, ◌<◌, ◌≤◌, ◌^◌, ◌==◌, ==_iff, leb, leb→le, refl, sym, ap, ◌∙◌, not, true, false, Bool,
  ◌&&◌, List, [], ◌∷◌, ◌++◌, length, length-append, append_assoc, append-nil, arith, take, drop,
  take-append-drop, length-take, length-drop, All, some,
}
use bio_did_registry.Error.{
  Result, ok, ◌>>=◌, ◌>>◌, require, invalid_key_chunk, ok_or, arithmetic_overflow,
}
use bio_did_registry.Bytes.{Bytes, u32_le, copy_from_slice}
use bio_did_registry.Bytes.Slices.{slice_lem}
use bio_did_registry.State.Checks.{is_empty}
use bio_did_registry.State.Consts.{kb_off_key, kb_off_written}
use bio_did_registry.State.KeyBuffer.{parse, key}
use bio_did_registry.Document.{encode_all, raw}
use bio_did_registry.Staging.{Staging, IsStaging, encode, ref}
use bio_did_registry.Staging.Upload.{advanced, write_chunk-encode}
use bio_did_registry.Staging.Header.{header, length-header, encode-header, parse-encode_buffer}
use bio_did_registry.Instructions.WriteKeyBuffer.{write_chunk}
use bio_did_registry.Runtime.{checked_u64}
use bio_did_registry.Rules.{require_ok, then_inv, ok_or_inv}

pub none_left : (b : Bytes) → length b ≡ 0 → b ≡ []
none_left [] e = refl
none_left (x ∷ b) e = absurd (omega (arith, e))

-- One more chunk, where the header says that the upload has come to.
unfoldable pub write_next : Bytes → Bytes → Result Bytes
write_next chunk bytes =
    parse bytes >>= λ kb. write_chunk kb.written kb.key_len kb.written chunk bytes

unfoldable pub upload : List Bytes → Bytes → Result Bytes
unfolding write_next
upload [] bytes = ok bytes
upload (chunk ∷ chunks) bytes = write_next chunk bytes >>= upload chunks

abbrev pub IsChunk : Bytes → Type 0
IsChunk chunk = is_empty chunk ≡ false

pub write_next-encode :
    (s : Staging) (chunk old rest : Bytes)
    → IsStaging s
    → IsChunk chunk
    → s.todo ≡ old ++ rest
    → length chunk ≡ length old
    → write_next chunk (encode s) ≡ ok (encode (advanced s chunk rest))
unfolding write_next
write_next-encode s chunk old rest v nonempty e same =
    rw (parse-encode_buffer s v) (write_chunk-encode s chunk old rest v nonempty e same)

pub advanced-IsStaging :
    (s : Staging) (chunk rest : Bytes)
    → IsStaging s
    → length s.todo ≡ length chunk + length rest
    → IsStaging (advanced s chunk rest)
advanced-IsStaging s chunk rest v e =
    let range : length (s.done ++ chunk) + length rest < 2 ^ 32 =
      omega (arith, v.key_len_range, length-append s.done chunk, e) in
    ground arith

-- On a well-formed buffer, non-empty chunks that are together as long as what is left to do
-- complete the upload: each is written where the one before ended, and the buffer then holds what
-- was done and the chunks in order.
pub upload-encode :
    (chunks : List Bytes) (s : Staging)
    → IsStaging s
    → All IsChunk chunks
    → length s.todo ≡ length (encode_all raw chunks)
    → upload chunks (encode s) ≡ ok (encode (advanced s (encode_all raw chunks) []))
unfolding upload
upload-encode [] s v all e =
    ap (λ b. ok (encode b))
      (ap (λ b. record s { todo = b }) (none_left s.todo e)
        ∙ ap (λ b. record s { done = b; todo = [] }) (sym (append-nil s.done)))
upload-encode (chunk ∷ chunks) s v all e =
    let total = length-append chunk (encode_all raw chunks) in
    let old = take (length chunk) s.todo in
    let rest = drop (length chunk) s.todo in
    let rest_len = length-drop (length chunk) s.todo in
    let next = advanced s chunk rest in
    rw
      (write_next-encode s chunk old rest v all.0 (sym (take-append-drop (length chunk) s.todo))
        (sym (length-take (length chunk) s.todo (omega (arith, e, total)))))
      (upload-encode chunks next
          (advanced-IsStaging s chunk rest v (omega (arith, rest_len, e, total))) all.1
          (omega (arith, rest_len, e, total))
        ∙ ap (λ b. ok (encode (record s { done = b; todo = [] })))
            (append_assoc s.done chunk (encode_all raw chunks)))

-- The key that a well-formed buffer gives is the part that is uploaded.
pub key-encode : (s : Staging) → IsStaging s → key (ref s) (encode s) ≡ ok s.done
unfolding key
key-encode s v = rw (encode-header s) (
    slice_lem kb_off_key (kb_off_key + length s.done) (header s) s.done s.todo
      (sym (length-header s v)) (omega (arith, length-header s v)))

first_and : (p q : Bool) → (not p && q) ≡ true → (p ≡ false) × (q ≡ true)
first_and true q h = cc
first_and false q h = (refl, h)

checked_inv : (n end : ℕ) → checked_u64 n ≡ some end → end ≡ n
checked_inv n end h = ground arith

-- Where a chunk is written, it starts where the upload has come to, is not empty, and ends within
-- the key.
pub write_chunk_inv :
    (written len offset : ℕ) (chunk bytes result : Bytes)
    → write_chunk written len offset chunk bytes ≡ ok result
    → (offset ≡ written) × (is_empty chunk ≡ false) × (written + length chunk ≤ len)
unfolding write_chunk
write_chunk_inv written len offset chunk bytes result h =
    let after_end : ℕ → Result Bytes = λ end.
      require (leb end len) invalid_key_chunk
      >> (copy_from_slice (kb_off_key + offset) chunk bytes
          >>= copy_from_slice kb_off_written (u32_le end)) in
    let (starts, rest) =
      then_inv (require (not (is_empty chunk) && offset == written) invalid_key_chunk)
        (ok_or (checked_u64 (offset + length chunk)) arithmetic_overflow >>= after_end) result h in
    let (end, in_range, rest) =
      ok_or_inv (checked_u64 (offset + length chunk)) arithmetic_overflow after_end result rest in
    let (room, copied) = then_inv (require (leb end len) invalid_key_chunk) _ result rest in
    let (nonempty, same) =
      first_and (is_empty chunk) (offset == written) (require_ok _ invalid_key_chunk starts) in
    let at_written = (==_iff offset written).0 same in
    let reached = checked_inv (offset + length chunk) end in_range in
    let inside = leb→le end len (require_ok (leb end len) invalid_key_chunk room) in
    (at_written, nonempty, omega (arith, at_written, reached, inside))
