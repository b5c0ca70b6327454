-- ===== src/Client/Chunks.antt =====
-- The chunks of an uploaded key, written to its buffer (program/src/client.rs, `upload_key`;
-- program/src/instructions/write_key_buffer.rs).
use bio_did_registry.Base.{
  ℕ, zero, suc, ◌+◌, ◌*◌, ◌%◌, ◌^◌, ◌≡◌, ◌<◌, ◌≤◌, refl, sym, ap, ◌∙◌, false, List, [], ◌∷◌, ◌++◌,
  append-nil, append_assoc, length, length-append, length-take, length-drop, take, drop,
  take-append-drop, arith,
}
use bio_did_registry.Error.{Result, ok, ◌>>=◌, >>=-eq-ok, ok_injective}
use bio_did_registry.Bytes.{Bytes}
use bio_did_registry.Runtime.{Runtime}
use bio_did_registry.State.Checks.{is_empty}
use bio_did_registry.State.KeyBuffer.{parse}
use bio_did_registry.Staging.{Staging, IsStaging, encode}
use bio_did_registry.Staging.Upload.{advanced, write_chunk-encode}
use bio_did_registry.Staging.Header.{parse-encode_buffer}
use bio_did_registry.Staging.Sequence.{none_left, advanced-IsStaging}
use bio_did_registry.Instructions.Args.{parse_args, chunk_args}
use bio_did_registry.Instructions.WriteKeyBuffer.{write_chunk}
use bio_did_registry.Program.{discriminator}
use bio_did_registry.Client.{Instruction, key_chunk_len}
use bio_did_registry.Client.Arguments.{chunk_args_lem}
use bio_did_registry.Client.Builders.{write_key_buffer}
use bio_did_registry.Client.Upload.{chunks, write_chunks}
use bio_did_registry.Client.Calls.{Call}
use bio_did_registry.Client.Delivery.{carried}

-- What a `write_key_buffer` instruction does to the bytes of the buffer that it is for.
unfoldable pub deliver_one : Instruction → Bytes → Result Bytes
deliver_one ix bytes = parse_args chunk_args (drop 8 ix.content) >>= λ q.
    parse bytes >>= λ kb. write_chunk kb.written kb.key_len q.0 q.1 bytes

unfoldable pub deliver : List Instruction → Bytes → Result Bytes
unfolding deliver_one
deliver [] bytes = ok bytes
deliver (ix ∷ ixs) bytes = deliver_one ix bytes >>= deliver ixs

-- The next chunk, at the offset where the upload has come to.
deliver_one-encode :
    (rt : Runtime) (authority subject : Bytes) (offset : ℕ) (chunk old rest : Bytes) (s : Staging)
    (ix : Instruction)
    → IsStaging s
    → is_empty chunk ≡ false
    → offset ≡ length s.done
    → s.todo ≡ old ++ rest
    → length chunk ≡ length old
    → write_key_buffer rt authority subject offset chunk ≡ ok ix
    → deliver_one ix (encode s) ≡ ok (encode (advanced s chunk rest))
unfolding deliver_one discriminator
deliver_one-encode rt authority subject offset chunk old rest s ix v nonempty at_end e same h =
    let (own, content) = carried rt [] authority subject (Call.write_buffer offset chunk) ix h in
    let total : length s.todo ≡ length old + length rest = ap length e ∙ length-append old rest in
    rw (content, at_end)
      (rw
        (chunk_args_lem (length s.done) chunk (omega (arith, v.key_len_range))
          (omega (arith, v.key_len_range, total, same)))
        (rw (parse-encode_buffer s v) (write_chunk-encode s chunk old rest v nonempty e same)))

-- The rest of a key `xs`, in chunks from the chunk `i` on, completes the buffer.
pub deliver-chunks :
    (rt : Runtime) (authority subject : Bytes) (rounds i : ℕ) (xs : Bytes) (s : Staging)
    (ixs : List Instruction)
    → IsStaging s
    → (0 < length xs → length s.done ≡ i * key_chunk_len)
    → length s.todo ≡ length xs
    → length xs ≤ rounds
    → write_chunks rt authority subject i (chunks rounds key_chunk_len xs) ≡ ok ixs
    → deliver ixs (encode s) ≡ ok (encode (advanced s xs []))
unfolding deliver write_chunks chunks
deliver-chunks rt authority subject rounds i [] s ixs v starts e enough h =
    let none_ready : deliver [] (encode s) ≡ ok (encode (advanced s [] [])) =
      ap (λ b. ok (encode b))
        (ap (λ b. record s { todo = b }) (none_left s.todo e)
          ∙ ap (λ b. record s { done = b; todo = [] }) (sym (append-nil s.done))) in
    rw (← ok_injective h) none_ready
deliver-chunks rt authority subject zero i (x ∷ xs) s ixs v starts e enough h =
    absurd (omega (arith, enough))
deliver-chunks rt authority subject (suc rounds) i (x ∷ xs) s ixs v starts e enough h =
    let chunk = take key_chunk_len (x ∷ xs) in
    let rest = drop key_chunk_len (x ∷ xs) in
    let later = write_chunks rt authority subject (i + 1) (chunks rounds key_chunk_len rest) in
    let offset = i * key_chunk_len % 2 ^ 32 in
    let (ix, first, g) =
      >>=-eq-ok (write_key_buffer rt authority subject offset chunk)
        (λ ix. later >>= λ ixs. ok (ix ∷ ixs)) h in
    let (ixs', others, g') = >>=-eq-ok later (λ ixs. ok (ix ∷ ixs)) g in
    let cut = take-append-drop key_chunk_len (x ∷ xs) in
    let sizes : length chunk + length rest ≡ length (x ∷ xs) =
      sym (length-append chunk rest) ∙ ap length cut in
    let behind = length-drop key_chunk_len (x ∷ xs) in
    let old = take (length chunk) s.todo in
    let left = drop (length chunk) s.todo in
    let left_len = length-drop (length chunk) s.todo in
    let at_start : length s.done ≡ i * key_chunk_len = starts (omega arith) in
    let one : deliver_one ix (encode s) ≡ ok (encode (advanced s chunk left)) =
      deliver_one-encode rt authority subject offset chunk old left s ix v refl
        (omega (arith, at_start, v.key_len_range)) (sym (take-append-drop (length chunk) s.todo))
        (sym (length-take (length chunk) s.todo (omega (arith, e, sizes)))) first in
    let rest_of : deliver ixs' (encode (advanced s chunk left))
        ≡ ok (encode (advanced (advanced s chunk left) rest [])) =
      deliver-chunks rt authority subject rounds (i + 1) rest (advanced s chunk left) ixs'
        (advanced-IsStaging s chunk left v (omega (arith, left_len, e, sizes)))
        (λ more. omega (arith, length-append s.done chunk, at_start, sizes, behind))
        (omega (arith, left_len, e, sizes)) (omega (arith, behind, enough)) others in
    rw (← ok_injective g') (
      rw one (
        rest_of
        ∙ ap (λ b. ok (encode (record s { done = b; todo = [] })))
            (append_assoc s.done chunk rest ∙ ap (λ b. s.done ++ b) cut)))
