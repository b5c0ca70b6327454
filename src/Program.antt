-- ===== src/Program.antt =====
-- The entrypoint's dispatch on the instruction discriminator (program/src/lib.rs).
pub mod Entry
use bio_did_registry.Base.{◌≡◌, refl, List, [], ◌∷◌, Option, none, some, bytes_eq, if◌then◌else◌}
use bio_did_registry.Error.{incorrect_program_id, invalid_instruction_data}
use bio_did_registry.Bytes.{Bytes, split_at_checked}
use bio_did_registry.Runtime.{Runtime, Act, fail}
use bio_did_registry.Instructions.Initialize
use bio_did_registry.Instructions.InitializeOwned
use bio_did_registry.Instructions.AddVerificationMethod
use bio_did_registry.Instructions.RemoveVerificationMethod
use bio_did_registry.Instructions.SetVerificationMethodFlags
use bio_did_registry.Instructions.AddService
use bio_did_registry.Instructions.UpdateService
use bio_did_registry.Instructions.RemoveService
use bio_did_registry.Instructions.SetControllers
use bio_did_registry.Instructions.Deactivate
use bio_did_registry.Instructions.CreateKeyBuffer
use bio_did_registry.Instructions.WriteKeyBuffer
use bio_did_registry.Instructions.AddVerificationMethodFromBuffer
use bio_did_registry.Instructions.CloseKeyBuffer

-- The instructions, and `ix`, their discriminators.
pub data Instruction : Type 0 where
  initialize add_verification_method remove_verification_method : Instruction
  set_verification_method_flags add_service remove_service set_controllers : Instruction
  deactivate create_key_buffer write_key_buffer : Instruction
  add_verification_method_from_buffer close_key_buffer initialize_owned : Instruction
  update_service : Instruction

unfoldable pub discriminator : Instruction → Bytes
discriminator initialize = 175 ∷ 175 ∷ 109 ∷ 31 ∷ 13 ∷ 152 ∷ 155 ∷ 237 ∷ []
discriminator add_verification_method = 213 ∷ 200 ∷ 190 ∷ 61 ∷ 28 ∷ 104 ∷ 245 ∷ 25 ∷ []
discriminator remove_verification_method = 33 ∷ 238 ∷ 66 ∷ 183 ∷ 62 ∷ 210 ∷ 133 ∷ 150 ∷ []
discriminator set_verification_method_flags = 16 ∷ 188 ∷ 26 ∷ 223 ∷ 241 ∷ 131 ∷ 192 ∷ 223 ∷ []
discriminator add_service = 133 ∷ 207 ∷ 106 ∷ 32 ∷ 91 ∷ 111 ∷ 153 ∷ 30 ∷ []
discriminator remove_service = 19 ∷ 102 ∷ 8 ∷ 231 ∷ 40 ∷ 141 ∷ 9 ∷ 110 ∷ []
discriminator set_controllers = 65 ∷ 40 ∷ 24 ∷ 8 ∷ 30 ∷ 81 ∷ 20 ∷ 179 ∷ []
discriminator deactivate = 44 ∷ 112 ∷ 33 ∷ 172 ∷ 113 ∷ 28 ∷ 142 ∷ 13 ∷ []
discriminator create_key_buffer = 138 ∷ 70 ∷ 101 ∷ 189 ∷ 154 ∷ 98 ∷ 203 ∷ 23 ∷ []
discriminator write_key_buffer = 61 ∷ 88 ∷ 82 ∷ 10 ∷ 227 ∷ 249 ∷ 18 ∷ 117 ∷ []
discriminator add_verification_method_from_buffer = 111 ∷ 184 ∷ 129 ∷ 9 ∷ 216 ∷ 207 ∷ 122 ∷ 90 ∷ []
discriminator close_key_buffer = 6 ∷ 209 ∷ 103 ∷ 32 ∷ 78 ∷ 18 ∷ 70 ∷ 184 ∷ []
discriminator initialize_owned = 51 ∷ 133 ∷ 240 ∷ 229 ∷ 41 ∷ 137 ∷ 108 ∷ 91 ∷ []
discriminator update_service = 46 ∷ 169 ∷ 26 ∷ 33 ∷ 191 ∷ 78 ∷ 40 ∷ 221 ∷ []

-- The arms of the `match`, in its order.
abbrev pub instructions : List Instruction
instructions =
    initialize ∷ add_verification_method ∷ remove_verification_method
    ∷ set_verification_method_flags ∷ add_service ∷ remove_service ∷ set_controllers ∷ deactivate
    ∷ create_key_buffer ∷ write_key_buffer ∷ add_verification_method_from_buffer ∷ close_key_buffer
    ∷ initialize_owned ∷ update_service ∷ []

unfoldable pub find_instruction : List Instruction → Bytes → Option Instruction
unfolding discriminator
find_instruction [] disc = none
find_instruction (i ∷ is) disc =
    if bytes_eq (discriminator i) disc then some i else find_instruction is disc

unfoldable pub handle : Runtime → Instruction → List Bytes → Bytes → Act (Unit {0})
handle rt initialize = Initialize.process rt
handle rt add_verification_method = AddVerificationMethod.process rt
handle rt remove_verification_method = RemoveVerificationMethod.process rt
handle rt set_verification_method_flags = SetVerificationMethodFlags.process rt
handle rt add_service = AddService.process rt
handle rt remove_service = RemoveService.process rt
handle rt set_controllers = SetControllers.process rt
handle rt deactivate = Deactivate.process rt
handle rt create_key_buffer = CreateKeyBuffer.process rt
handle rt write_key_buffer = WriteKeyBuffer.process rt
handle rt add_verification_method_from_buffer = AddVerificationMethodFromBuffer.process rt
handle rt close_key_buffer = CloseKeyBuffer.process rt
handle rt initialize_owned = InitializeOwned.process rt
handle rt update_service = UpdateService.process rt

-- `process_instruction` behind the check on the program id.
unfoldable pub dispatch : Runtime → List Bytes → Bytes → Act (Unit {0})
unfolding find_instruction handle
dispatch rt accounts instruction_data = elim (split_at_checked 8 instruction_data) [
  | none ↦ fail invalid_instruction_data
  | some (disc, args) ↦ elim (find_instruction instructions disc) [
    | none ↦ fail invalid_instruction_data
    | some i ↦ handle rt i accounts args
  ]
]

unfoldable pub process_instruction : Runtime → Bytes → List Bytes → Bytes → Act (Unit {0})
unfolding dispatch
process_instruction rt program_id accounts instruction_data =
    if bytes_eq program_id rt.program_id
    then dispatch rt accounts instruction_data
    else fail incorrect_program_id

-- Every instruction is found by its own discriminator: no two share one.
pub find-discriminator :
    (i : Instruction) → find_instruction instructions (discriminator i) ≡ some i
unfolding find_instruction bytes_eq
find-discriminator initialize = refl
find-discriminator _ = refl
