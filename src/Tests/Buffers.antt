-- ===== src/Tests/Buffers.antt =====
-- The theorems on key buffers, at a sample upload.
use bio_did_registry.Base.{
  ◌≡◌, ◌+◌, refl, [], ◌∷◌, replicate, length, arith, All, ◌++◌, true, bytes_eq,
}
use bio_did_registry.Error.{Result, ok, err, panic, require}
use bio_did_registry.Bytes.{
  Bytes, IsByte, u32_le, to_le_bytes, from_le_bytes, split_at_checked, copy_from_slice,
}
use bio_did_registry.Reader.Laws.{prefixed}
use bio_did_registry.Reader.{at, bytes, finish, len_prefixed}
use bio_did_registry.Runtime.{Store}
use bio_did_registry.Instructions.Args.{chunk_args}
use bio_did_registry.Instructions.WriteKeyBuffer
use bio_did_registry.Rules.Whole.Chunks.{Extends, process-Extends}
use bio_did_registry.Tests.Authority.{program, controller_address}
use bio_did_registry.Tests.Worlds.{world}
use bio_did_registry.State.Consts.{key_buffer_discriminator}
use bio_did_registry.State.KeyBuffer.{parse, key, read_header}
use bio_did_registry.Staging.{Staging, IsStaging, encode, ref}
use bio_did_registry.Staging.Upload.{advanced, write_chunk-encode}
use bio_did_registry.Staging.Header.{parse-encode_buffer}
use bio_did_registry.Staging.Sequence.{upload, upload-encode, key-encode}
use bio_did_registry.State.Checks.{NewMethod}
use bio_did_registry.State.Consts.{max_fragment_len}
use bio_did_registry.Staging.Creation.{created, write_header-encode}
use bio_did_registry.Instructions.CreateKeyBuffer.{write_header}
use bio_did_registry.Instructions.WriteKeyBuffer.{write_chunk}
use bio_did_registry.Tests.Samples.{owner, guardian, all-IsByte}

-- A buffer with two bytes of four uploaded.
abbrev buffer : Staging
buffer = record {
  discriminator = key_buffer_discriminator;
  did_account = guardian;
  authority = owner;
  bump = 253;
  method_type = 3;
  flags = 0x2;
  fragment = b'k' ∷ b'3' ∷ [];
  padding = replicate 30 0;
  done = 1 ∷ 2 ∷ [];
  todo = 0 ∷ 0 ∷ [];
}

buffer-IsStaging : IsStaging buffer
buffer-IsStaging = record {
  discriminator_len = refl;
  did_account_len = refl;
  authority_len = refl;
  bump_range = omega arith;
  method_type_range = omega arith;
  flags_range = omega arith;
  key_len_range = omega arith;
  fragment_len = refl;
}

parse-encode_buffer_example : parse (encode buffer) ≡ ok (ref buffer)
parse-encode_buffer_example = parse-encode_buffer buffer buffer-IsStaging

key-encode_example : key (ref buffer) (encode buffer) ≡ ok (1 ∷ 2 ∷ [])
key-encode_example = key-encode buffer buffer-IsStaging

write_chunk-encode_example :
    write_chunk 2 4 2 (3 ∷ []) (encode buffer) ≡ ok (encode (advanced buffer (3 ∷ []) (0 ∷ [])))
write_chunk-encode_example =
    write_chunk-encode buffer (3 ∷ []) (0 ∷ []) (0 ∷ []) buffer-IsStaging refl refl refl

upload-encode_example :
    upload ((3 ∷ []) ∷ (4 ∷ []) ∷ []) (encode buffer)
    ≡ ok (encode (advanced buffer (3 ∷ 4 ∷ []) []))
upload-encode_example =
    upload-encode ((3 ∷ []) ∷ (4 ∷ []) ∷ []) buffer buffer-IsStaging (refl, (refl, tt)) refl

abbrev chunk : Bytes
chunk = 3 ∷ []

abbrev args : Bytes
args = u32_le 2 ++ prefixed chunk

-- Every account holds the buffer.
abbrev store : Store
store = record {
  accounts = λ _. record {
    owner = program;
    lamports = 1000000;
    content = encode buffer;
    is_signer = true;
    is_writable = true;
  };
  logs = [];
}

abbrev outcome : Result (Unit {0} × Store) → Unit {0} × Store
outcome (ok r) = r
outcome (err e) = (tt, store)
outcome panic = (tt, store)

abbrev written : Unit {0} × Store
written = outcome (WriteKeyBuffer.process world (owner ∷ controller_address ∷ []) args store)

writes : WriteKeyBuffer.process world (owner ∷ controller_address ∷ []) args store ≡ ok written
unfolding bytes_eq from_le_bytes to_le_bytes split_at_checked copy_from_slice encode require at
    bytes finish len_prefixed parse read_header chunk_args write_chunk WriteKeyBuffer.process
writes = refl

args-IsByte : All IsByte args
unfolding to_le_bytes
args-IsByte = all-IsByte args refl

process-Extends_example :
    ((store.accounts owner).is_signer ≡ true)
    × (buffer.authority ≡ owner)
    × ((store.accounts controller_address).owner ≡ program)
    × Extends store written.1 controller_address buffer args
process-Extends_example =
    process-Extends world owner controller_address args buffer store written [] args-IsByte
      buffer-IsStaging refl writes

-- "k3", a Dilithium5 key
abbrev large_key : NewMethod
large_key = record { fragment = b'k' ∷ b'3' ∷ []; method_type = 3; flags = 0x2; key_len = 4 }

write_header-encode_example :
    (padding : Bytes) × (todo : Bytes) × (length large_key.fragment + length padding
      ≡ max_fragment_len)
    × (length todo ≡ large_key.key_len)
    × (write_header guardian owner 253 large_key (replicate 124 0)
        ≡ ok (encode (created guardian owner 253 large_key padding todo)))
write_header-encode_example =
    write_header-encode guardian owner 253 large_key (replicate 124 0) refl refl (omega arith) refl
