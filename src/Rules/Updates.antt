-- ===== src/Rules/Updates.antt =====
-- The updates of a document that may resize it, up to `authorize` (program/src/instructions/).
use bio_did_registry.Base.{◌≡◌, List, All}
use bio_did_registry.Error.{ok, ok_or, invalid_instruction_data}
use bio_did_registry.Bytes.{Bytes, IsByte}
use bio_did_registry.Document.{Document}
use bio_did_registry.Runtime.{Runtime, Store, Act, ◌>>=◌, ◌>>◌, lift, borrow}
use bio_did_registry.State.Consts.{expected_key_len}
use bio_did_registry.State.View.{DidView, view}
use bio_did_registry.Instructions.Shared.{Update, authorize}
use bio_did_registry.Instructions.Args.{
  parse_args, method_args, service_args, fragment_args, no_args,
}
use bio_did_registry.Instructions.SetControllers.{controller_args}
use bio_did_registry.Instructions.AddVerificationMethod
use bio_did_registry.Instructions.RemoveVerificationMethod
use bio_did_registry.Instructions.AddService
use bio_did_registry.Instructions.UpdateService
use bio_did_registry.Instructions.RemoveService
use bio_did_registry.Instructions.SetControllers
use bio_did_registry.Instructions.Deactivate
use bio_did_registry.Rules.Authorization.{lift_then}
use bio_did_registry.Rules.Runs.{Authorized, IsUpdate, update_then, authorize_then}

-- The accounts are those of an update that is authorized.
abbrev pub IsAuthorized : Runtime → Store → List Bytes → Type 0
IsAuthorized rt s accounts =
    (u : Update) × IsUpdate rt s accounts u
    × (d : Document) × Authorized rt s u.authority u.did_account u.controller d

module _ (rt : Runtime) (accounts : List Bytes) (args : Bytes) (s : Store) (r : Unit {0} × Store)
    (are_bytes : (c : Bytes) → All IsByte (s.accounts c).content) where
  -- The part of a handler from the look at the document on.
  looks :
      (u : Update) (rest : DidView → Act (Unit {0}))
      → IsUpdate rt s accounts u
      → (borrow u.did_account >>= λ bytes.
            lift (view bytes) >>= λ doc. authorize rt doc u.authority u.controller >> rest doc)
          s
        ≡ ok r
      → IsAuthorized rt s accounts
  looks u rest (sys, others, split, control, signed, loaded) h =
      let (d, authorized, h₁) =
        authorize_then rt s r u.authority u.did_account u.subject u.controller rest are_bytes signed
          loaded h in
      (u, (sys, others, split, control, signed, loaded), d, authorized)

  pub add_method-IsAuthorized :
      AddVerificationMethod.process rt accounts args s ≡ ok r → IsAuthorized rt s accounts
  unfolding AddVerificationMethod.process
  add_method-IsAuthorized h =
      let (u, fits, h₁) = update_then rt accounts s r _ h in
      let (m, parsed, h₂) = lift_then (parse_args method_args args) _ s r h₁ in
      let (n, known, h₃) =
        lift_then (ok_or (expected_key_len m.method_type) invalid_instruction_data) _ s r h₂ in
      looks u _ fits h₃

  pub remove_method-IsAuthorized :
      RemoveVerificationMethod.process rt accounts args s ≡ ok r → IsAuthorized rt s accounts
  unfolding RemoveVerificationMethod.process
  remove_method-IsAuthorized h =
      let (u, fits, h₁) = update_then rt accounts s r _ h in
      let (values, parsed, h₂) = lift_then (parse_args fragment_args args) _ s r h₁ in
      looks u _ fits h₂

  pub add_service-IsAuthorized :
      AddService.process rt accounts args s ≡ ok r → IsAuthorized rt s accounts
  unfolding AddService.process
  add_service-IsAuthorized h =
      let (u, fits, h₁) = update_then rt accounts s r _ h in
      let (values, parsed, h₂) = lift_then (parse_args service_args args) _ s r h₁ in
      looks u _ fits h₂

  pub update_service-IsAuthorized :
      UpdateService.process rt accounts args s ≡ ok r → IsAuthorized rt s accounts
  unfolding UpdateService.process
  update_service-IsAuthorized h =
      let (u, fits, h₁) = update_then rt accounts s r _ h in
      let (values, parsed, h₂) = lift_then (parse_args service_args args) _ s r h₁ in
      looks u _ fits h₂

  pub remove_service-IsAuthorized :
      RemoveService.process rt accounts args s ≡ ok r → IsAuthorized rt s accounts
  unfolding RemoveService.process
  remove_service-IsAuthorized h =
      let (u, fits, h₁) = update_then rt accounts s r _ h in
      let (values, parsed, h₂) = lift_then (parse_args fragment_args args) _ s r h₁ in
      looks u _ fits h₂

  pub set_controllers-IsAuthorized :
      SetControllers.process rt accounts args s ≡ ok r → IsAuthorized rt s accounts
  unfolding SetControllers.process
  set_controllers-IsAuthorized h =
      let (u, fits, h₁) = update_then rt accounts s r _ h in
      let (values, parsed, h₂) = lift_then (parse_args controller_args args) _ s r h₁ in
      looks u _ fits h₂

  pub deactivate-IsAuthorized :
      Deactivate.process rt accounts args s ≡ ok r → IsAuthorized rt s accounts
  unfolding Deactivate.process
  deactivate-IsAuthorized h =
      let (u, fits, h₁) = update_then rt accounts s r _ h in
      let (values, parsed, h₂) = lift_then (parse_args no_args args) _ s r h₁ in looks u _ fits h₂
