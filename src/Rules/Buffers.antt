-- ===== src/Rules/Buffers.antt =====
-- The checks on a key buffer's account (program/src/instructions/shared.rs, `check_key_buffer`).
use bio_did_registry.Base.{
  ℕ, ◌≡◌, sym, ap, subst, ◌∙◌, not, Option, none, some, [], ◌∷◌, bytes_eq, bytes_eq_sound,
}
use bio_did_registry.Error.{
  Result, ok, require, ok_injective, >>=-eq-ok, invalid_key_buffer, invalid_account_owner,
  invalid_account_data, invalid_seeds, immutable,
}
use bio_did_registry.Bytes.{Bytes}
use bio_did_registry.State.Consts.{key_buffer_header, key_buffer_discriminator, key_buffer_seed}
use bio_did_registry.State.KeyBuffer.{KeyBufferRef, parse}
use bio_did_registry.Runtime.{Runtime, Store, Act, ◌>>=◌, ◌>>◌, pure}
use bio_did_registry.Instructions.Shared.{is_foreign, check_key_buffer, verify_key_buffer}
use bio_did_registry.Rules.{require_inv}
use bio_did_registry.Rules.Authorization.{ensure_then, lift_then}

-- The buffer is for that document, where one is given.
abbrev pub IsFor : KeyBufferRef → Option Bytes → Type 0
IsFor kb none = Unit {0}
IsFor kb (some did) = kb.did_account ≡ did

-- The account `a` is a key buffer of the program that `signer` opened, at the address of the
-- document and the authority in it.
abbrev pub IsBuffer : Runtime → Store → Bytes → Bytes → Option Bytes → Type 0
IsBuffer rt s a signer did =
    (kb : KeyBufferRef) × (parse (s.accounts a).content ≡ ok kb)
    × ((s.accounts a).owner ≡ rt.program_id)
    × (kb.authority ≡ signer)
    × IsFor kb did
    × (a ≡ rt.derive_address (key_buffer_seed ∷ kb.did_account ∷ kb.authority ∷ []) kb.bump)

abbrev for_document : KeyBufferRef → Option Bytes → Result (Unit {0})
for_document kb did = elim did [
  | none ↦ ok tt
  | some a ↦ require (bytes_eq kb.did_account a) invalid_key_buffer
]

for_document_inv :
    (kb : KeyBufferRef) (did : Option Bytes) (u : Unit {0})
    → for_document kb did ≡ ok u
    → IsFor kb did
for_document_inv kb none u h = tt
for_document_inv kb (some a) u h = bytes_eq_sound _ _ (require_inv _ invalid_key_buffer u h)

-- The two lengths are those in the buffer's header: what is written, and the key's.
abbrev pub HasLengths : Store → Bytes → ℕ × ℕ → Type 0
HasLengths s a n =
    (kb : KeyBufferRef) × (parse (s.accounts a).content ≡ ok kb) × ((kb.written, kb.key_len) ≡ n)

check_inv :
    (rt : Runtime) (s : Store) (a signer : Bytes) (did : Option Bytes) (q : (ℕ × ℕ) × Store)
    → check_key_buffer rt a signer did s ≡ ok q
    → IsBuffer rt s a signer did × HasLengths s a q.0 × (q.1 ≡ s)
unfolding check_key_buffer
check_inv rt s a signer did q h =
    let (writable, h₁) = ensure_then (s.accounts a).is_writable immutable _ s q h in
    let (own, h₂) =
      ensure_then (bytes_eq (s.accounts a).owner rt.program_id) invalid_account_owner _ s q h₁ in
    let (known, h₃) =
      ensure_then
        (not (is_foreign key_buffer_header key_buffer_discriminator (s.accounts a).content))
        invalid_account_data _ s q h₂ in
    let (kb, parsed, h₄) = lift_then (parse (s.accounts a).content) _ s q h₃ in
    let (u, opened, h₅) =
      lift_then (require (bytes_eq kb.authority signer) invalid_key_buffer) _ s q h₄ in
    let (w, bound, h₆) = lift_then (for_document kb did) _ s q h₅ in
    let (placed, h₇) =
      ensure_then
        (bytes_eq a
          (rt.derive_address (key_buffer_seed ∷ kb.did_account ∷ kb.authority ∷ []) kb.bump))
        invalid_seeds (pure (kb.written, kb.key_len)) s q h₆ in
    (
      (
        kb,
        parsed,
        bytes_eq_sound _ _ own,
        bytes_eq_sound _ _ (require_inv _ invalid_key_buffer u opened),
        for_document_inv kb did w bound,
        bytes_eq_sound _ _ placed,
      ),
      (kb, parsed, ap (λ p. p.0) (ok_injective h₇)),
      ap (λ p. p.1) (sym (ok_injective h₇)),
    )

module _ {B : Type 0} (rt : Runtime) (s : Store) (r : B × Store) (a signer : Bytes) where
  pub check_then :
      (did : Option Bytes) (k : ℕ × ℕ → Act B)
      → (check_key_buffer rt a signer did >>= k) s ≡ ok r
      → IsBuffer rt s a signer did × (q : ℕ × ℕ) × HasLengths s a q × (k q s ≡ ok r)
  check_then did k h =
      let ((q, t), made, g) = >>=-eq-ok (check_key_buffer rt a signer did s) (λ p. k p.0 p.1) h in
      let (fits, lengths, same) = check_inv rt s a signer did (q, t) made in
      (fits, q, lengths, subst (λ x. k q x ≡ ok r) same g)

  pub owning_then :
      (did : Option Bytes) (k : Act B)
      → (verify_key_buffer rt a signer did >> k) s ≡ ok r
      → IsBuffer rt s a signer did × (k s ≡ ok r)
  unfolding verify_key_buffer
  owning_then did k h =
      let ((u, t), made, g) = >>=-eq-ok (verify_key_buffer rt a signer did s) (λ p. k p.1) h in
      let ((q, t'), checked, ended) =
        >>=-eq-ok (check_key_buffer rt a signer did s) (λ p. ok (tt, p.1)) made in
      let (fits, lengths, same) = check_inv rt s a signer did (q, t') checked in
      let kept : t' ≡ t = ap (λ p. p.1) (ok_injective ended) in
      (fits, subst (λ x. k x ≡ ok r) (sym kept ∙ same) g)
