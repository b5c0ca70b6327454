-- ===== src/Instructions/Args.antt =====
-- The readers of the instruction arguments (program/src/instructions/, the head of each handler).
use bio_did_registry.Base.{ℕ}
use bio_did_registry.Error.{ProgramError, Result, ok, err, ok_or, require, from_did_error}
use bio_did_registry.Error
use bio_did_registry.Bytes.{Bytes}
use bio_did_registry.Reader
use bio_did_registry.Reader.{Reading}
use bio_did_registry.State.Checks.{NewMethod}
use bio_did_registry.Document.{VerificationMethod, Service}

-- `Reader::<Args>::new(args)` and the reads that follow.
abbrev pub parse_args : {A : Type 0} → Reading A → Bytes → Result A
parse_args m args = Error.◌>>=◌ (m (Reader.new Reader.args args)) (λ p. ok p.0)

-- VerificationMethod { fragment, method_type, flags, key_data }
unfoldable pub method_args : Reading VerificationMethod
method_args = Reader.◌>>=◌ Reader.str (λ fragment. Reader.◌>>=◌ Reader.u8 (λ method_type.
    Reader.◌>>=◌ Reader.u16 (λ flags. Reader.◌>>=◌ Reader.len_prefixed (λ key.
      Reader.◌>>=◌ Reader.finish (λ _.
        Reader.pure
          (record { fragment = fragment; method_type = method_type; flags = flags; key = key }))))))

-- Service { fragment, service_type, endpoint }
unfoldable pub service_args : Reading Service
service_args = Reader.◌>>=◌ Reader.str (λ fragment. Reader.◌>>=◌ Reader.str (λ service_type.
    Reader.◌>>=◌ Reader.str (λ endpoint. Reader.◌>>=◌ Reader.finish (λ _.
      Reader.pure
        (record { fragment = fragment; service_type = service_type; endpoint = endpoint })))))

-- The fragment of a method or service to remove.
unfoldable pub fragment_args : Reading Bytes
fragment_args =
    Reader.◌>>=◌ Reader.str (λ fragment. Reader.◌>>=◌ Reader.finish (λ _. Reader.pure fragment))

-- fragment: String, flags: u16
unfoldable pub flags_args : Reading (Bytes × ℕ)
flags_args = Reader.◌>>=◌ Reader.str (λ fragment.
    Reader.◌>>=◌ Reader.u16
      (λ flags. Reader.◌>>=◌ Reader.finish (λ _. Reader.pure (fragment, flags))))

-- fragment: String, method_type: u8, flags: u16, key_len: u32
unfoldable pub buffer_args : Reading NewMethod
buffer_args = Reader.◌>>=◌ Reader.str (λ fragment. Reader.◌>>=◌ Reader.u8 (λ method_type.
    Reader.◌>>=◌ Reader.u16 (λ flags. Reader.◌>>=◌ Reader.u32 (λ key_len.
      Reader.◌>>=◌ Reader.finish (λ _. Reader.pure (record {
        fragment = fragment;
        method_type = method_type;
        flags = flags;
        key_len = key_len;
      }))))))

-- offset: u32, chunk: Vec<u8>
unfoldable pub chunk_args : Reading (ℕ × Bytes)
chunk_args = Reader.◌>>=◌ Reader.u32 (λ offset.
    Reader.◌>>=◌ Reader.len_prefixed
      (λ chunk. Reader.◌>>=◌ Reader.finish (λ _. Reader.pure (offset, chunk))))

-- No arguments.
abbrev pub no_args : Reading (Unit {0})
no_args = Reader.finish
