-- ===== src/Client/Upload.antt =====
-- The instructions that register a large key (program/src/client.rs, `upload_key`).
use bio_did_registry.Base.{
  ℕ, zero, suc, ◌+◌, ◌*◌, ◌%◌, ◌^◌, List, [], ◌∷◌, ◌++◌, length, take, drop,
}
use bio_did_registry.Error.{Result, ok, ◌>>=◌}
use bio_did_registry.Bytes.{Bytes}
use bio_did_registry.Runtime.{Runtime}
use bio_did_registry.State.Checks.{NewMethod}
use bio_did_registry.Document.{VerificationMethod}
use bio_did_registry.Client.{Instruction, key_chunk_len}
use bio_did_registry.Client.Builders.{
  create_key_buffer, write_key_buffer, add_verification_method_from_buffer,
}

-- `slice::chunks(n)`, in as many rounds as there are bytes; each round takes `n` of them.
unfoldable pub chunks : ℕ → ℕ → Bytes → List Bytes
chunks rounds n [] = []
chunks zero n (x ∷ xs) = []
chunks (suc rounds) n (x ∷ xs) = take n (x ∷ xs) ∷ chunks rounds n (drop n (x ∷ xs))

-- The loop over the chunks, from the chunk `i` on.
unfoldable pub write_chunks : Runtime → Bytes → Bytes → ℕ → List Bytes → Result (List Instruction)
unfolding write_key_buffer
write_chunks rt authority subject i [] = ok []
write_chunks rt authority subject i (chunk ∷ rest) =
    write_key_buffer rt authority subject (i * key_chunk_len % 2 ^ 32) chunk >>= λ ix.
    write_chunks rt authority subject (i + 1) rest >>= λ ixs. ok (ix ∷ ixs)

-- `NewMethod` of the arguments, with `key.len() as u32`
abbrev pub head_of : VerificationMethod → NewMethod
head_of m = record {
  fragment = m.fragment;
  method_type = m.method_type;
  flags = m.flags;
  key_len = length m.key % 2 ^ 32;
}

unfoldable pub upload_key :
    Runtime → Bytes → Bytes → Bytes → VerificationMethod → Result (List Instruction)
unfolding create_key_buffer write_chunks add_verification_method_from_buffer chunks
upload_key rt payer authority subject m =
    create_key_buffer rt payer authority subject (head_of m) >>= λ first.
    write_chunks rt authority subject 0 (chunks (length m.key) key_chunk_len m.key) >>= λ writes.
    add_verification_method_from_buffer rt payer authority subject >>= λ last.
    ok (first ∷ (writes ++ (last ∷ [])))
