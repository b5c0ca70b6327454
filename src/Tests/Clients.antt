-- ===== src/Tests/Clients.antt =====
-- The theorems on the builders, at the controllers of the sample and at a small upload.
use bio_did_registry.Base.{◌≡◌, refl, [], ◌∷◌, ◌++◌, List, replicate, arith}
use bio_did_registry.Error.{Result, ok, err, panic, ◌>>=◌}
use bio_did_registry.Bytes.{Bytes}
use bio_did_registry.Utf8.{from_utf8}
use bio_did_registry.Document.{VerificationMethod}
use bio_did_registry.Instructions.AddVerificationMethod.{method_head}
use bio_did_registry.Instructions.CreateKeyBuffer.{write_header}
use bio_did_registry.Program.{handle, process_instruction}
use bio_did_registry.Client.{Instruction, did_account, key_buffer, update_accounts, buffer_accounts}
use bio_did_registry.Client.Builders.{
  raw_all, str_all, set_controllers, create_key_buffer, write_key_buffer,
  add_verification_method_from_buffer,
}
use bio_did_registry.Client.Upload.{upload_key, chunks, write_chunks}
use bio_did_registry.Client.Calls.{Call, build, called, Fits, Reads}
use bio_did_registry.Client.Delivery.{build-Reads}
use bio_did_registry.Client.Chunks.{deliver}
use bio_did_registry.Client.Staged.{Stages, upload_key-Stages}
use bio_did_registry.Tests.Samples.{owner, guardian, web_controller}
use bio_did_registry.Tests.Authority.{runtime}

abbrev call : Call
call = Call.set_controllers (guardian ∷ []) (web_controller ∷ [])

abbrev returned : {A : Type 0} → A → Result A → A
returned other (ok a) = a
returned other (err e) = other
returned other panic = other

abbrev empty : Instruction
empty = record { program_id = []; accounts = []; content = [] }

abbrev request : Instruction
request = returned empty (build runtime owner owner owner call)

built : build runtime owner owner owner call ≡ ok request
unfolding set_controllers update_accounts did_account raw_all str_all
built = refl

fits : Fits call
unfolding from_utf8
fits = (omega arith, (refl, tt), omega arith, ((omega arith, refl), tt))

build-Reads_example :
    (args : Bytes) × (process_instruction runtime request.program_id (owner ∷ []) request.content
      ≡ handle runtime (called call) (owner ∷ []) args)
    × Reads owner call args
build-Reads_example = build-Reads runtime owner owner owner call request (owner ∷ []) fits built

-- "k3", a Dilithium5 key
abbrev large : VerificationMethod
large = record { fragment = b'k' ∷ b'3' ∷ []; method_type = 3; flags = 0x2; key = 7 ∷ 8 ∷ 9 ∷ [] }

abbrev requests : List Instruction
requests = returned [] (upload_key runtime owner owner owner large)

uploaded : upload_key runtime owner owner owner large ≡ ok requests
unfolding upload_key create_key_buffer write_key_buffer add_verification_method_from_buffer chunks
    write_chunks buffer_accounts key_buffer did_account
uploaded = refl

upload_key-Stages_example :
    (first : Instruction) × (writes : List Instruction) × (last : Instruction) × (requests
      ≡ first ∷ (writes ++ (last ∷ [])))
    × (build runtime owner owner owner (Call.create_buffer (method_head large)) ≡ ok first)
    × (build runtime owner owner owner Call.add_from_buffer ≡ ok last)
    × (b : Bytes) × ((write_header guardian owner 253 (method_head large) (replicate 123 0)
          >>= deliver writes)
        ≡ ok b)
    × Stages b large
upload_key-Stages_example =
    upload_key-Stages runtime owner owner owner guardian 253 large (replicate 123 0) refl refl
      (omega arith) (omega arith, omega arith, omega arith, omega arith) refl requests uploaded
