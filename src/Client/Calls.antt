-- ===== src/Client/Calls.antt =====
-- The calls of a client as data: what is built, for which instruction, and what its handler reads
-- (program/src/client.rs).
use bio_did_registry.Base.{ℕ, ◌≡◌, ◌<◌, ◌^◌, List, [], ◌∷◌, ◌++◌, length, All}
use bio_did_registry.Error.{Result, ok}
use bio_did_registry.Bytes.{Bytes, u16_le, u32_le, u64_le}
use bio_did_registry.Reader.Laws.{prefixed}
use bio_did_registry.Runtime.{Runtime}
use bio_did_registry.State.Checks.{NewMethod}
use bio_did_registry.Document.{VerificationMethod, Service}
use bio_did_registry.Document
use bio_did_registry.Instructions.Args.{
  parse_args, method_args, service_args, fragment_args, flags_args, buffer_args, chunk_args,
  no_args,
}
use bio_did_registry.Instructions.SetControllers.{controller_args}
use bio_did_registry.Program
use bio_did_registry.Program.{
  discriminator, instructions, find_instruction, find-discriminator, handle, dispatch,
  process_instruction,
}
use bio_did_registry.Client.{Instruction}
use bio_did_registry.Client.Builders
use bio_did_registry.Client.Builders.{raw_all, str_all}
use bio_did_registry.Client.Arguments.{IsText, IsAddress, service_bytes, controller_bytes}

-- What a client asks for.
pub data Call : Type 0 where
  initialize deactivate add_from_buffer close_buffer : Call
  initialize_owned : ℕ → Call
  add_method : VerificationMethod → Call
  remove_method : Bytes → Call
  set_flags : Bytes → ℕ → Call
  add_service update_service : Service → Call
  remove_service : Bytes → Call
  set_controllers : List Bytes → List Bytes → Call
  create_buffer : NewMethod → Call
  write_buffer : ℕ → Bytes → Call

-- The builder of a call.
abbrev pub build : Runtime → Bytes → Bytes → Bytes → Call → Result Instruction
build rt payer authority subject initialize = Builders.initialize rt payer subject
build rt payer authority subject deactivate = Builders.deactivate rt payer authority subject
build rt payer authority subject add_from_buffer =
    Builders.add_verification_method_from_buffer rt payer authority subject
build rt payer authority subject close_buffer = Builders.close_key_buffer rt payer authority subject
build rt payer authority subject (initialize_owned nonce) =
    Builders.initialize_owned rt payer authority nonce
build rt payer authority subject (add_method m) =
    Builders.add_verification_method rt payer authority subject m
build rt payer authority subject (remove_method name) =
    Builders.remove_verification_method rt payer authority subject name
build rt payer authority subject (set_flags name flags) =
    Builders.set_verification_method_flags rt authority subject name flags
build rt payer authority subject (add_service s) = Builders.add_service rt payer authority subject s
build rt payer authority subject (update_service s) =
    Builders.update_service rt payer authority subject s
build rt payer authority subject (remove_service name) =
    Builders.remove_service rt payer authority subject name
build rt payer authority subject (set_controllers natives others) =
    Builders.set_controllers rt payer authority subject natives others
build rt payer authority subject (create_buffer m) =
    Builders.create_key_buffer rt payer authority subject m
build rt payer authority subject (write_buffer offset chunk) =
    Builders.write_key_buffer rt authority subject offset chunk

-- The instruction that a call is for.
abbrev pub called : Call → Program.Instruction
called initialize = Program.initialize
called deactivate = Program.deactivate
called add_from_buffer = Program.add_verification_method_from_buffer
called close_buffer = Program.close_key_buffer
called (initialize_owned nonce) = Program.initialize_owned
called (add_method m) = Program.add_verification_method
called (remove_method name) = Program.remove_verification_method
called (set_flags name flags) = Program.set_verification_method_flags
called (add_service s) = Program.add_service
called (update_service s) = Program.update_service
called (remove_service name) = Program.remove_service
called (set_controllers natives others) = Program.set_controllers
called (create_buffer m) = Program.create_key_buffer
called (write_buffer offset chunk) = Program.write_key_buffer

-- The values fit their types: texts are UTF-8, integers and lengths are in range.
abbrev pub Fits : Call → Type 0
Fits (add_method m) = IsText m.fragment × (m.flags < 2 ^ 16) × (length m.key < 2 ^ 32)
Fits (remove_method name) = IsText name
Fits (set_flags name flags) = IsText name × (flags < 2 ^ 16)
Fits (add_service s) = IsText s.fragment × IsText s.service_type × IsText s.endpoint
Fits (update_service s) = IsText s.fragment × IsText s.service_type × IsText s.endpoint
Fits (remove_service name) = IsText name
Fits (set_controllers natives others) =
    (length natives < 2 ^ 32) × All IsAddress natives × (length others < 2 ^ 32) × All IsText others
Fits (create_buffer m) = IsText m.fragment × (m.flags < 2 ^ 16) × (m.key_len < 2 ^ 32)
Fits (write_buffer offset chunk) = (offset < 2 ^ 32) × (length chunk < 2 ^ 32)
Fits _ = Unit {0}

-- What the handler reads from the arguments: the values of the call.
abbrev pub Reads : Bytes → Call → Bytes → Type 0
Reads subject initialize args = args ≡ subject
Reads subject (initialize_owned nonce) args = args ≡ u64_le nonce
Reads subject (add_method m) args = parse_args method_args args ≡ ok m
Reads subject (remove_method name) args = parse_args fragment_args args ≡ ok name
Reads subject (set_flags name flags) args = parse_args flags_args args ≡ ok (name, flags)
Reads subject (add_service s) args = parse_args service_args args ≡ ok s
Reads subject (update_service s) args = parse_args service_args args ≡ ok s
Reads subject (remove_service name) args = parse_args fragment_args args ≡ ok name
Reads subject (set_controllers natives others) args =
    parse_args controller_args args
    ≡ ok (record { natives = natives; others = others; sections_len = length args })
Reads subject (create_buffer m) args = parse_args buffer_args args ≡ ok m
Reads subject (write_buffer offset chunk) args = parse_args chunk_args args ≡ ok (offset, chunk)
Reads subject _ args = parse_args no_args args ≡ ok tt

-- The arguments of a call on the wire.
abbrev pub arguments : Bytes → Call → Bytes
arguments subject initialize = subject
arguments subject (initialize_owned nonce) = u64_le nonce
arguments subject (add_method m) = Document.encode_vm m
arguments subject (remove_method name) = prefixed name
arguments subject (set_flags name flags) = u32_le (length name) ++ (name ++ u16_le flags)
arguments subject (add_service s) = service_bytes s
arguments subject (update_service s) = service_bytes s
arguments subject (remove_service name) = prefixed name
arguments subject (set_controllers natives others) = controller_bytes natives others
arguments subject (create_buffer m) =
    u32_le (length m.fragment)
    ++ (m.fragment ++ (m.method_type ∷ u16_le m.flags ++ u32_le m.key_len))
arguments subject (write_buffer offset chunk) = u32_le offset ++ prefixed chunk
arguments subject _ = []
