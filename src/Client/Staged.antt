-- ===== src/Client/Staged.antt =====
-- A whole upload, from the builders' instructions to the method that the buffer stages
-- (program/src/client.rs, `upload_key`; program/src/instructions/create_key_buffer.rs).
use bio_did_registry.Base.{
  ℕ, ◌+◌, ◌^◌, ◌≡◌, ◌<◌, ◌≤◌, refl, sym, ap, subst, ◌∙◌, List, [], ◌∷◌, ◌++◌, length, arith,
}
use bio_did_registry.Error.{Result, ok, ◌>>=◌, >>=-eq-ok, ok_injective}
use bio_did_registry.Bytes.{Bytes, IsByte}
use bio_did_registry.Runtime.{Runtime}
use bio_did_registry.State.Consts.{key_buffer_header, max_fragment_len}
use bio_did_registry.State.Checks.{NewMethod}
use bio_did_registry.State.KeyBuffer.{KeyBufferRef, parse, key}
use bio_did_registry.Document.{VerificationMethod}
use bio_did_registry.Staging.{Staging, IsStaging, encode, ref}
use bio_did_registry.Staging.Upload.{advanced}
use bio_did_registry.Staging.Header.{parse-encode_buffer}
use bio_did_registry.Staging.Sequence.{key-encode}
use bio_did_registry.Staging.Creation.{created, write_header-encode}
use bio_did_registry.Instructions.AddVerificationMethod.{method_head}
use bio_did_registry.Instructions.CreateKeyBuffer.{write_header}
use bio_did_registry.Instructions.AddVerificationMethodFromBuffer.{staged}
use bio_did_registry.Client.{Instruction, key_chunk_len}
use bio_did_registry.Client.Builders.{create_key_buffer, add_verification_method_from_buffer}
use bio_did_registry.Client.Upload.{chunks, write_chunks, head_of, upload_key}
use bio_did_registry.Client.Calls.{Call, build}
use bio_did_registry.Client.Chunks.{deliver, deliver-chunks}

-- The buffer stages the method `m`: its key is complete, and is the one to add.
abbrev pub Stages : Bytes → VerificationMethod → Type 0
Stages b m =
    (kb : KeyBufferRef) × (parse b ≡ ok kb)
    × (staged kb ≡ method_head m)
    × (kb.written ≡ kb.key_len)
    × (key kb b ≡ ok m.key)

-- The method fits its types, and its name fits the header of a buffer.
abbrev pub IsUploadable : VerificationMethod → Type 0
IsUploadable m =
    IsByte m.method_type
    × (m.flags < 2 ^ 16)
    × (length m.fragment ≤ max_fragment_len)
    × (length m.key < 2 ^ 32)

abbrev with_len : VerificationMethod → ℕ → NewMethod
with_len m n = record (method_head m) { key_len = n }

complete-Stages :
    (s : Staging) (m : VerificationMethod)
    → IsStaging s
    → s.todo ≡ []
    → staged (ref s) ≡ method_head m
    → s.done ≡ m.key
    → Stages (encode s) m
complete-Stages s m v finished same whole = (
  ref s,
  parse-encode_buffer s v,
  same,
  omega (arith, ap length finished),
  key-encode s v ∙ ap ok whole,
)

-- The writes of an upload, over the buffer that its first instruction makes.
module _ (rt : Runtime) (payer authority subject did_account : Bytes) (bump : ℕ)
    (m : VerificationMethod) (bytes : Bytes) (d_len : length did_account ≡ 32)
    (s_len : length authority ≡ 32) (bump_range : IsByte bump) (fits : IsUploadable m)
    (room : length bytes ≡ key_buffer_header + length m.key) where
  writes-Stages :
      (writes : List Instruction)
      → write_chunks rt authority subject 0 (chunks (length m.key) key_chunk_len m.key) ≡ ok writes
      → (b : Bytes) × ((write_header did_account authority bump (method_head m) bytes
            >>= deliver writes)
          ≡ ok b)
        × Stages b m
  writes-Stages writes h =
      let (type_range, flags_range, name_len, short) = fits in
      let (padding, todo, padded, size, made) =
        write_header-encode did_account authority bump (method_head m) bytes d_len s_len name_len
          room in
      let start = created did_account authority bump (method_head m) padding todo in
      let v : IsStaging start = record {
        discriminator_len = refl;
        did_account_len = d_len;
        authority_len = s_len;
        bump_range = bump_range;
        method_type_range = type_range;
        flags_range = flags_range;
        key_len_range = omega (arith, size, short);
        fragment_len = padded;
      } in
      let filled = advanced start m.key [] in
      let v' : IsStaging filled = record {
        discriminator_len = refl;
        did_account_len = d_len;
        authority_len = s_len;
        bump_range = bump_range;
        method_type_range = type_range;
        flags_range = flags_range;
        key_len_range = omega (arith, short);
        fragment_len = padded;
      } in
      let run : deliver writes (encode start) ≡ ok (encode filled) =
        deliver-chunks rt authority subject (length m.key) 0 m.key start writes v
          (λ more. omega arith) size (omega arith) h in
      (
        encode filled,
        rw made run,
        complete-Stages filled m v' refl (ap (with_len m) (omega arith)) refl,
      )

  -- On a method that fits its types, with addresses of 32 bytes and an account of the header's
  -- size and the key's, the instructions of `upload_key` are those that create the buffer, write
  -- the chunks and add the method; the header and the chunks, written in this order, succeed and
  -- leave a buffer that stages the method with its whole key.
  pub upload_key-Stages :
      (ixs : List Instruction)
      → upload_key rt payer authority subject m ≡ ok ixs
      → (first : Instruction) × (writes : List Instruction) × (last : Instruction) × (ixs
          ≡ first ∷ (writes ++ (last ∷ [])))
        × (build rt payer authority subject (Call.create_buffer (method_head m)) ≡ ok first)
        × (build rt payer authority subject Call.add_from_buffer ≡ ok last)
        × (b : Bytes) × ((write_header did_account authority bump (method_head m) bytes
              >>= deliver writes)
            ≡ ok b)
        × Stages b m
  unfolding upload_key
  upload_key-Stages ixs h =
      let writing =
        write_chunks rt authority subject 0 (chunks (length m.key) key_chunk_len m.key) in
      let adding = add_verification_method_from_buffer rt payer authority subject in
      let finish : Instruction → List Instruction → Result (List Instruction) =
        λ first writes. adding >>= λ last. ok (first ∷ (writes ++ (last ∷ []))) in
      let (first, created_by, g) =
        >>=-eq-ok (create_key_buffer rt payer authority subject (head_of m))
          (λ first. writing >>= finish first) h in
      let (writes, written_by, g') = >>=-eq-ok writing (finish first) g in
      let (last, added_by, g'') =
        >>=-eq-ok adding (λ last. ok (first ∷ (writes ++ (last ∷ [])))) g' in
      let same_head : head_of m ≡ method_head m = ap (with_len m) (omega (arith, fits.3)) in
      let (b, made, stages) = writes-Stages writes written_by in
      (
        first,
        writes,
        last,
        sym (ok_injective g''),
        subst (λ n. create_key_buffer rt payer authority subject n ≡ ok first) same_head created_by,
        added_by,
        b,
        made,
        stages,
      )
