-- ===== src/Rules/Whole/Chunks.antt =====
-- Whole runs of `write_key_buffer`, over the store (program/src/instructions/write_key_buffer.rs).
use bio_did_registry.Base.{
  ℕ, ◌≡◌, ◌≤◌, refl, sym, ap, subst, ◌∙◌, true, false, none, List, [], ◌∷◌, ◌++◌, append-nil,
  length, take, drop, take-append-drop, length-take, length-drop, arith, All, bytes_eq,
  bytes_eq_refl,
}
use bio_did_registry.Error.{Result, ok, ok_injective, >>=-eq-ok}
use bio_did_registry.Error
use bio_did_registry.Bytes.{Bytes, IsByte, u32_le}
use bio_did_registry.Reader
use bio_did_registry.Reader.{Reading}
use bio_did_registry.Reader.Laws.{cursor, bind_inv, u32_inv, len_prefixed_inv, finish_inv, prefixed}
use bio_did_registry.State.Checks.{is_empty}
use bio_did_registry.State.KeyBuffer.{parse}
use bio_did_registry.Staging.{Staging, IsStaging, key_len, encode, ref}
use bio_did_registry.Staging.Upload.{advanced, write_chunk-encode}
use bio_did_registry.Staging.Header.{parse-encode_buffer}
use bio_did_registry.Staging.Sequence.{write_chunk_inv, advanced-IsStaging}
use bio_did_registry.Runtime.{Runtime, Store, ◌>>◌, pure, put, edit}
use bio_did_registry.Instructions.Args.{parse_args, chunk_args}
use bio_did_registry.Instructions.WriteKeyBuffer.{write_chunk, process_accounts, process}
use bio_did_registry.Rules.Authorization.{lift_then}
use bio_did_registry.Rules.Runs.{signer_then}
use bio_did_registry.Rules.Buffers.{check_then}

-- The arguments are an offset and a chunk with its length, and nothing more.
chunk_args_inv :
    (args chunk : Bytes) (offset : ℕ)
    → All IsByte args
    → parse_args chunk_args args ≡ ok (offset, chunk)
    → args ≡ u32_le offset ++ prefixed chunk
unfolding chunk_args
chunk_args_inv args chunk offset are_bytes h =
    let len = length args in
    let end : ℕ → Bytes → Reading (ℕ × Bytes) =
      λ n c. Reader.◌>>=◌ Reader.finish (λ _. Reader.pure (n, c)) in
    let ((q, t), e, g) = >>=-eq-ok (chunk_args (cursor Reader.args len args)) (λ p. ok p.0) h in
    let (n, u₁, e₁, g₁) =
      bind_inv Reader.u32 (λ n. Reader.◌>>=◌ Reader.len_prefixed (end n))
        (cursor Reader.args len args) e in
    let (at₁, split₁, small, back₁) = u32_inv Reader.args len n args u₁ are_bytes e₁ in
    let (c, u₂, e₂, g₂) = bind_inv Reader.len_prefixed (end n) u₁ g₁ in
    let (at₂, split₂, short, back₂) =
      len_prefixed_inv Reader.args len c u₁.rest u₂ back₁ (rw at₁ at e₂) in
    let (w, u₃, e₃, g₃) = bind_inv Reader.finish (λ _. Reader.pure (n, c)) u₂ g₂ in
    let done : u₂.rest ≡ [] = finish_inv Reader.args len u₂.rest u₃ (rw at₂ at e₃) in
    let same : (n, c) ≡ (offset, chunk) = ap (λ p. p.0) (ok_injective g₃) ∙ ok_injective g in
    let whole : args ≡ u32_le n ++ prefixed c =
      split₁
      ∙ ap (λ b. u32_le n ++ b)
          (split₂ ∙ ap (λ b. u32_le (length c) ++ b) (ap (λ b. c ++ b) done ∙ append-nil c)) in
    subst (λ p. args ≡ u32_le p.0 ++ prefixed p.1) same whole

-- An edit as the last step: the account holds what it made, and the others what they held.
edit_inv :
    (a : Bytes) (f : Bytes → Result Bytes) (s : Store) (r : Unit {0} × Store)
    → edit a (λ b. Error.◌>>=◌ (f b) (λ b. ok (b, tt))) s ≡ ok r
    → (b : Bytes) × (f (s.accounts a).content ≡ ok b)
      × ((r.1.accounts a).content ≡ b)
      × ((c : Bytes) → bytes_eq a c ≡ false → (r.1.accounts c).content ≡ (s.accounts c).content)
edit_inv a f s r h =
    let (p, made, h₁) =
      lift_then (Error.◌>>=◌ (f (s.accounts a).content) (λ b. ok (b, tt)))
        (λ p. put a (record (s.accounts a) { content = p.0 }) >> pure p.1) s r h in
    let (b, written, ended) = >>=-eq-ok (f (s.accounts a).content) (λ b. ok (b, tt)) made in
    (
      b,
      written,
      ap (λ q. (q.1.accounts a).content) (sym (ok_injective h₁))
          ∙ (rw (bytes_eq_refl a) (ap (λ q. q.0) (sym (ok_injective ended)))),
      λ c other. ap (λ q. (q.1.accounts c).content) (sym (ok_injective h₁)) ∙ rw other refl,
    )

-- The upload `st` in the account `a` goes on by the chunk of the arguments, over the part `old`
-- of what was to do, with `rest` left.
abbrev pub Extends : Store → Store → Bytes → Staging → Bytes → Type 0
Extends s t a st args =
    (chunk : Bytes) × (old : Bytes) × (rest : Bytes) × (args
      ≡ u32_le (length st.done) ++ prefixed chunk)
    × (is_empty chunk ≡ false)
    × (st.todo ≡ old ++ rest)
    × (length chunk ≡ length old)
    × IsStaging (advanced st chunk rest)
    × ((t.accounts a).content ≡ encode (advanced st chunk rest))
    × ((c : Bytes) → bytes_eq a c ≡ false → (t.accounts c).content ≡ (s.accounts c).content)

module _ (rt : Runtime) (authority a : Bytes) (args : Bytes) (st : Staging) (s : Store)
    (r : Unit {0} × Store) where
  extended :
      (offset : ℕ) (chunk : Bytes)
      → IsStaging st
      → (s.accounts a).content ≡ encode st
      → args ≡ u32_le offset ++ prefixed chunk
      → edit a
          (λ b.
            Error.◌>>=◌
              (write_chunk (length st.done) (key_len st) offset chunk b)
              (λ b. ok (b, tt)))
          s
        ≡ ok r
      → Extends s r.1 a st args
  extended offset chunk v holds split h =
      let (b, written, stored, others) =
        edit_inv a (write_chunk (length st.done) (key_len st) offset chunk) s r h in
      let (here, nonempty, fits) =
        write_chunk_inv (length st.done) (key_len st) offset chunk (s.accounts a).content b
          written in
      let n = length chunk in
      let old = take n st.todo in
      let rest = drop n st.todo in
      let cut : st.todo ≡ old ++ rest = sym (take-append-drop n st.todo) in
      let enough : n ≤ length st.todo = omega (arith, fits) in
      let size : length chunk ≡ length old = sym (length-take n st.todo enough) in
      let made : write_chunk (length st.done) (key_len st) (length st.done) chunk (encode st)
          ≡ ok b =
        subst (λ o. write_chunk (length st.done) (key_len st) o chunk (encode st) ≡ ok b) here
          (subst (λ x. write_chunk (length st.done) (key_len st) offset chunk x ≡ ok b) holds
            written) in
      (
        chunk,
        old,
        rest,
        subst (λ o. args ≡ u32_le o ++ prefixed chunk) here split,
        nonempty,
        cut,
        size,
        advanced-IsStaging st chunk rest v (omega (arith, enough, length-drop n st.todo)),
        stored ∙ ok_injective (sym made ∙ write_chunk-encode st chunk old rest v nonempty cut size),
        others,
      )

  -- Where `write_key_buffer` succeeds, with arguments of bytes, on an account that holds a
  -- well-formed buffer, the authority signed and is the buffer's, and the program owns the
  -- account. The arguments are the length of what is uploaded and a chunk, which is not empty and
  -- no longer than what is left to do. The account then holds the buffer with the chunk behind
  -- what was uploaded and the rest left to do, which is well formed, and the other accounts hold
  -- the bytes they held.
  pub process-Extends :
      (rest : List Bytes)
      → All IsByte args
      → IsStaging st
      → (s.accounts a).content ≡ encode st
      → process rt (authority ∷ a ∷ rest) args s ≡ ok r
      → ((s.accounts authority).is_signer ≡ true)
        × (st.authority ≡ authority)
        × ((s.accounts a).owner ≡ rt.program_id)
        × Extends s r.1 a st args
  unfolding process process_accounts
  process-Extends rest are_bytes v holds h =
      let (signed, h₁) = signer_then rt s r authority _ h in
      let ((kb, parsed, own, opened, any_document, placed), n, (kb', read, lengths), h₂) =
        check_then rt s r a authority none _ h₁ in
      let ((offset, chunk), given, h₃) = lift_then (parse_args chunk_args args) _ s r h₂ in
      let header : parse (s.accounts a).content ≡ ok (ref st) =
        ap parse holds ∙ parse-encode_buffer st v in
      let at : (length st.done, key_len st) ≡ n =
        ap (λ k. (k.written, k.key_len)) (ok_injective (sym header ∙ read)) ∙ lengths in
      (
        signed,
        ap (λ k. k.authority) (ok_injective (sym header ∙ parsed)) ∙ opened,
        own,
        extended offset chunk v holds (chunk_args_inv args chunk offset are_bytes given) (
            subst
              (λ m.
                edit a (λ b. Error.◌>>=◌ (write_chunk m.0 m.1 offset chunk b) (λ b. ok (b, tt))) s
                ≡ ok r)
              (sym at) h₃),
      )
