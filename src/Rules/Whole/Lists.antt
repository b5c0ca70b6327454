-- ===== src/Rules/Whole/Lists.antt =====
-- The controller lists that the arguments of `set_controllers` hold
-- (program/src/instructions/set_controllers.rs).
use bio_did_registry.Base.{
  ℕ, zero, suc, ◌≡◌, ◌<◌, ◌^◌, refl, sym, ap, subst, ◌∙◌, List, [], ◌∷◌, ◌++◌, append-nil,
  append_assoc, All, length, arith,
}
use bio_did_registry.Error.{ok, ok_injective, >>=-eq-ok}
use bio_did_registry.Bytes.{Bytes, IsByte, u32_le}
use bio_did_registry.Reader
use bio_did_registry.Reader.{Reader, Reading}
use bio_did_registry.Reader.Laws.{cursor, prefixed, bind_inv, bytes_inv, u32_inv, IsShort}
use bio_did_registry.Document.{encode_all, raw, IsKey}
use bio_did_registry.Document.Controllers.{encode_controllers}
use bio_did_registry.Instructions.Args.{parse_args}
use bio_did_registry.Instructions.SetControllers.{Controllers, read_list, controller_args}
use bio_did_registry.Rules.Whole.Values.{str_inv}
use bio_did_registry.Base.{All-prefix, All-suffix}

-- What a read of one value says of the bytes in front of the cursor.
abbrev Took : (Bytes → Bytes) → (Bytes → Type 0) → ℕ → Bytes → Bytes → Reader → Type 0
Took enc P len rest a u =
    (u ≡ cursor Reader.args len u.rest) × (rest ≡ enc a ++ u.rest) × P a × All IsByte u.rest

bytes-Took :
    (len : ℕ) (rest a : Bytes) (u : Reader)
    → All IsByte rest
    → Reader.bytes 32 (cursor Reader.args len rest) ≡ ok (a, u)
    → Took raw IsKey len rest a u
bytes-Took len rest a u are_bytes h =
    let (at_u, split, size) = bytes_inv Reader.args len 32 rest a u h in
    let whole : All IsByte (a ++ u.rest) = subst (All IsByte) split are_bytes in
    (at_u, split, (size, All-prefix IsByte a u.rest whole), All-suffix IsByte a u.rest whole)

text-Took :
    (len : ℕ) (rest a : Bytes) (u : Reader)
    → All IsByte rest
    → Reader.str (cursor Reader.args len rest) ≡ ok (a, u)
    → Took prefixed IsShort len rest a u
text-Took len rest a u are_bytes h =
    let (at_u, split, short, back) = str_inv rest a len u are_bytes h in
    (at_u, split ∙ sym (append_assoc (u32_le (length a)) a u.rest), short, back)

list_inv :
    (item : Reading Bytes) (enc : Bytes → Bytes) (P : Bytes → Type 0) (len : ℕ)
    → ((rest a : Bytes) (u : Reader)
        → All IsByte rest
        → item (cursor Reader.args len rest) ≡ ok (a, u)
        → Took enc P len rest a u)
    → (n : ℕ) (rest : Bytes) (xs : List Bytes) (u : Reader) → All IsByte rest
    → read_list n item (cursor Reader.args len rest) ≡ ok (xs, u)
    → (u ≡ cursor Reader.args len u.rest)
      × (rest ≡ encode_all enc xs ++ u.rest)
      × (length xs ≡ n)
      × All P xs
      × All IsByte u.rest
unfolding read_list
list_inv item enc P len one zero rest xs u are_bytes h =
    subst
      (λ q.
        (q.1 ≡ cursor Reader.args len q.1.rest)
        × (rest ≡ encode_all enc q.0 ++ q.1.rest)
        × (length q.0 ≡ 0)
        × All P q.0
        × All IsByte q.1.rest)
      (ok_injective h) (refl, refl, refl, tt, are_bytes)
list_inv item enc P len one (suc n) rest xs u are_bytes h =
    let (x, t, e, g) = bind_inv item _ (cursor Reader.args len rest) h in
    let (at_t, split, fits, back) = one rest x t are_bytes e in
    let (ys, w, e', g') = bind_inv (read_list n item) (λ ys. Reader.pure (x ∷ ys)) t g in
    let (at_w, split', size, all_fit, back') =
      list_inv item enc P len one n t.rest ys w back (rw at_t at e') in
    subst
      (λ q.
        (q.1 ≡ cursor Reader.args len q.1.rest)
        × (rest ≡ encode_all enc q.0 ++ q.1.rest)
        × (length q.0 ≡ suc n)
        × All P q.0
        × All IsByte q.1.rest)
      (ok_injective g')
      (
        at_w,
        split
            ∙ (ap (λ b. enc x ++ b) split' ∙ sym (append_assoc (enc x) (encode_all enc ys) w.rest)),
        ap suc size,
        (fits, all_fit),
        back',
      )

here_inv :
    (len pos : ℕ) (rest : Bytes) (x : Unit {0}) (u t : Reader)
    → Reader.here (cursor Reader.args len rest) ≡ ok (pos, u)
    → Reader.finish u ≡ ok (x, t)
    → (rest ≡ []) × (pos ≡ len)
unfolding Reader.finish
here_inv len pos [] x u t h e = (refl, omega (arith, ap (λ p. p.0) (ok_injective h)))
here_inv len pos (b ∷ bs) x u t h e =
    absurd
      (refused (subst (λ r. Reader.finish r ≡ ok (x, t)) (sym (ap (λ p. p.1) (ok_injective h))) e))
  where
    refused : Reader.finish (cursor Reader.args len (b ∷ bs)) ≡ ok (x, t) → ⊥
    refused e = cc

-- The four parts of the arguments in a row.
joined :
    (args r₁ r₂ r₃ r₄ : Bytes) (n k : ℕ) (natives others : List Bytes)
    → args ≡ u32_le n ++ r₁
    → r₁ ≡ encode_all raw natives ++ r₂
    → r₂ ≡ u32_le k ++ r₃
    → r₃ ≡ encode_all prefixed others ++ r₄
    → r₄ ≡ []
    → length natives ≡ n
    → length others ≡ k
    → args ≡ encode_controllers natives others
joined args r₁ r₂ r₃ r₄ n k natives others e₁ e₂ e₃ e₄ e₅ size₁ size₂ =
    rw (size₁, size₂)
      (e₁
        ∙ ap (λ b. u32_le n ++ b)
            (e₂
              ∙ ap (λ b. encode_all raw natives ++ b)
                  (e₃
                    ∙ ap (λ b. u32_le k ++ b)
                        (e₄ ∙ (ap (λ b. encode_all prefixed others ++ b) e₅ ∙ append-nil _)))))

-- Arguments that are read are the encoding of the lists, whole, and these fit the layout.
pub controller_args_inv :
    (args : Bytes) (c : Controllers)
    → All IsByte args
    → parse_args controller_args args ≡ ok c
    → (args ≡ encode_controllers c.natives c.others)
      × (c.sections_len ≡ length args)
      × (length c.natives < 2 ^ 32)
      × All IsKey c.natives
      × (length c.others < 2 ^ 32)
      × All IsShort c.others
unfolding controller_args
controller_args_inv args c are_bytes h =
    let len = length args in
    let ((q, t), e, g) =
      >>=-eq-ok (controller_args (cursor Reader.args len args)) (λ p. ok p.0) h in
    let (n, u₁, e₁, g₁) = bind_inv Reader.u32 _ (cursor Reader.args len args) e in
    let (at₁, split₁, small₁, back₁) = u32_inv Reader.args len n args u₁ are_bytes e₁ in
    let (natives, u₂, e₂, g₂) = bind_inv (read_list n (Reader.bytes 32)) _ u₁ g₁ in
    let (at₂, split₂, size₂, keys, back₂) =
      list_inv (Reader.bytes 32) raw IsKey len (bytes-Took len) n u₁.rest natives u₂ back₁
        (rw at₁ at e₂) in
    let (k, u₃, e₃, g₃) = bind_inv Reader.u32 _ u₂ g₂ in
    let (at₃, split₃, small₃, back₃) = u32_inv Reader.args len k u₂.rest u₃ back₂ (rw at₂ at e₃) in
    let (others, u₄, e₄, g₄) = bind_inv (read_list k Reader.str) _ u₃ g₃ in
    let (at₄, split₄, size₄, short, back₄) =
      list_inv Reader.str prefixed IsShort len (text-Took len) k u₃.rest others u₄ back₃
        (rw at₃ at e₄) in
    let made : ℕ → Controllers =
      λ pos. record { natives = natives; others = others; sections_len = pos } in
    let end : ℕ → Reading Controllers =
      λ pos. Reader.◌>>=◌ Reader.finish (λ _. Reader.pure (made pos)) in
    let (pos, u₅, e₅, g₅) = bind_inv Reader.here end u₄ g₄ in
    let (x, u₆, e₆, g₆) = bind_inv Reader.finish (λ _. Reader.pure (made pos)) u₅ g₅ in
    let (ended, at_end) =
      here_inv len pos u₄.rest x u₅ u₆ (subst (λ r. Reader.here r ≡ ok (pos, u₅)) at₄ e₅) e₆ in
    let same : made pos ≡ c = ap (λ p. p.0) (ok_injective g₆) ∙ ok_injective g in
    let whole : args ≡ encode_controllers natives others =
      joined args u₁.rest u₂.rest u₃.rest u₄.rest n k natives others split₁ split₂ split₃ split₄
        ended size₂ size₄ in
    subst
      (λ m.
        (args ≡ encode_controllers m.natives m.others)
        × (m.sections_len ≡ length args)
        × (length m.natives < 2 ^ 32)
        × All IsKey m.natives
        × (length m.others < 2 ^ 32)
        × All IsShort m.others)
      same
      (
        whole,
        at_end,
        subst (λ i. i < 2 ^ 32) (sym size₂) small₁,
        keys,
        subst (λ i. i < 2 ^ 32) (sym size₄) small₃,
        short,
      )
