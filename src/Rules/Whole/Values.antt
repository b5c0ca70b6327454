-- ===== src/Rules/Whole/Values.antt =====
-- The values that the handlers read from arguments of bytes, and their ranges
-- (program/src/reader.rs).
use bio_did_registry.Base.{
  ℕ, ◌≡◌, ◌<◌, ◌^◌, ap, subst, ◌∙◌, Bool, true, false, ◌++◌, if◌then◌else◌, All, length,
}
use bio_did_registry.Error.{Result, ok, err, ok_injective, >>=-eq-ok, invalid_instruction_data}
use bio_did_registry.Bytes.{Bytes, IsByte, u32_le}
use bio_did_registry.Utf8.{from_utf8}
use bio_did_registry.Reader
use bio_did_registry.Reader.{Reader, Reading}
use bio_did_registry.Reader.Laws.{cursor, bind_inv, uint_inv, len_prefixed_inv, IsShort}
use bio_did_registry.Document.{VerificationMethod, Service, IsVm, IsService}
use bio_did_registry.Instructions.Args.{parse_args, flags_args, method_args, service_args}

passed :
    (b : Bool) (p q : Bytes × Reader)
    → (if b then ok p else err invalid_instruction_data) ≡ ok q
    → p ≡ q
passed true p q h = ok_injective h
passed false p q h = cc

-- A string that is read is short, and leaves bytes behind it.
pub str_inv :
    (rest a : Bytes) (len : ℕ) (u : Reader)
    → All IsByte rest
    → Reader.str (cursor Reader.args len rest) ≡ ok (a, u)
    → (u ≡ cursor Reader.args len u.rest)
      × (rest ≡ u32_le (length a) ++ (a ++ u.rest))
      × IsShort a
      × All IsByte u.rest
unfolding Reader.str
str_inv rest a len u are_bytes h =
    let checked : Bytes → Reader → Result (Bytes × Reader) =
      λ payload r. if from_utf8 payload then ok (payload, r) else err invalid_instruction_data in
    let (payload, t, e, g) = bind_inv Reader.len_prefixed checked (cursor Reader.args len rest) h in
    let (at_t, split, short, back) = len_prefixed_inv Reader.args len payload rest t are_bytes e in
    subst
      (λ q.
        (q.1 ≡ cursor Reader.args len q.1.rest)
        × (rest ≡ u32_le (length q.0) ++ (q.0 ++ q.1.rest))
        × IsShort q.0
        × All IsByte q.1.rest)
      (passed (from_utf8 payload) (payload, t) (a, u) g) (at_t, split, short, back)

-- The flags that the arguments hold have 16 bits.
pub flags_bound :
    (args fragment : Bytes) (f : ℕ)
    → All IsByte args
    → parse_args flags_args args ≡ ok (fragment, f)
    → f < 2 ^ 16
unfolding flags_args
flags_bound args fragment f are_bytes h =
    let end : Bytes → ℕ → Reading (Bytes × ℕ) =
      λ name g. Reader.◌>>=◌ Reader.finish (λ _. Reader.pure (name, g)) in
    let ((q, t), e, g) =
      >>=-eq-ok (flags_args (cursor Reader.args (length args) args)) (λ p. ok p.0) h in
    let (name, u, e₁, g₁) =
      bind_inv Reader.str (λ name. Reader.◌>>=◌ Reader.u16 (end name))
        (cursor Reader.args (length args) args) e in
    let (at_u, cut, short, back) = str_inv args name (length args) u are_bytes e₁ in
    let (v, w, e₂, g₂) = bind_inv Reader.u16 (end name) u g₁ in
    let (at_w, split, small, rest) =
      uint_inv Reader.args (length args) 2 v u.rest w back (rw at_u at e₂) in
    let (x, y, e₃, g₃) = bind_inv Reader.finish (λ _. Reader.pure (name, v)) w g₂ in
    let same : v ≡ f = ap (λ p. p.0.1) (ok_injective g₃) ∙ ap (λ p. p.1) (ok_injective g) in
    subst (λ n. n < 2 ^ 16) same small

-- The method that the arguments of `add_verification_method` hold fits the layout.
pub method_args-IsVm :
    (args : Bytes) (m : VerificationMethod)
    → All IsByte args
    → parse_args method_args args ≡ ok m
    → IsVm m
unfolding method_args
method_args-IsVm args m are_bytes h =
    let len = length args in
    let ((q, t), e, g) = >>=-eq-ok (method_args (cursor Reader.args len args)) (λ p. ok p.0) h in
    let (name, u₁, e₁, g₁) = bind_inv Reader.str _ (cursor Reader.args len args) e in
    let (at₁, cut, short, back₁) = str_inv args name len u₁ are_bytes e₁ in
    let (kind, u₂, e₂, g₂) = bind_inv Reader.u8 _ u₁ g₁ in
    let (at₂, split₂, small₂, back₂) =
      uint_inv Reader.args len 1 kind u₁.rest u₂ back₁ (rw at₁ at e₂) in
    let (flags, u₃, e₃, g₃) = bind_inv Reader.u16 _ u₂ g₂ in
    let (at₃, split₃, small₃, back₃) =
      uint_inv Reader.args len 2 flags u₂.rest u₃ back₂ (rw at₂ at e₃) in
    let (key, u₄, e₄, g₄) = bind_inv Reader.len_prefixed _ u₃ g₃ in
    let (at₄, split₄, short', back₄) =
      len_prefixed_inv Reader.args len key u₃.rest u₄ back₃ (rw at₃ at e₄) in
    let (w, u₅, e₅, g₅) = bind_inv Reader.finish _ u₄ g₄ in
    let made : VerificationMethod = record {
      fragment = name;
      method_type = kind;
      flags = flags;
      key = key;
    } in
    let same : made ≡ m = ap (λ p. p.0) (ok_injective g₅) ∙ ok_injective g in
    subst IsVm same (short, small₂, small₃, short')

-- And the service that those of `add_service` and `update_service` hold.
pub service_args-IsService :
    (args : Bytes) (svc : Service)
    → All IsByte args
    → parse_args service_args args ≡ ok svc
    → IsService svc
unfolding service_args
service_args-IsService args svc are_bytes h =
    let len = length args in
    let ((q, t), e, g) = >>=-eq-ok (service_args (cursor Reader.args len args)) (λ p. ok p.0) h in
    let (name, u₁, e₁, g₁) = bind_inv Reader.str _ (cursor Reader.args len args) e in
    let (at₁, cut, short₁, back₁) = str_inv args name len u₁ are_bytes e₁ in
    let (kind, u₂, e₂, g₂) = bind_inv Reader.str _ u₁ g₁ in
    let (at₂, cut, short₂, back₂) = str_inv u₁.rest kind len u₂ back₁ (rw at₁ at e₂) in
    let (endpoint, u₃, e₃, g₃) = bind_inv Reader.str _ u₂ g₂ in
    let (at₃, cut, short₃, back₃) = str_inv u₂.rest endpoint len u₃ back₂ (rw at₂ at e₃) in
    let (w, u₄, e₄, g₄) = bind_inv Reader.finish _ u₃ g₃ in
    let made : Service = record { fragment = name; service_type = kind; endpoint = endpoint } in
    let same : made ≡ svc = ap (λ p. p.0) (ok_injective g₄) ∙ ok_injective g in
    subst IsService same (short₁, short₂, short₃)
