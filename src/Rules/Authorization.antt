-- ===== src/Rules/Authorization.antt =====
-- Who may update a document (program/src/instructions/shared.rs: `authorize`, `load_did_account`).
use bio_did_registry.Base.{
  ℕ, ◌≡◌, refl, sym, ◌∙◌, Bool, true, false, not, [], ◌∷◌, ◌++◌, bytes_eq, bytes_eq_sound, arith,
  append_assoc, length, length-append,
}
use bio_did_registry.Error.{
  ProgramError, Result, ok, err, panic, invalid_account_owner, invalid_account_data, invalid_seeds,
  ok_injective,
}
use bio_did_registry.Bytes.{Bytes, u64_le}
use bio_did_registry.Reader
use bio_did_registry.Reader.Laws.{u8_lem, bytes_lem, length-to_le_bytes}
use bio_did_registry.State.Consts.{off_bump, did_seed, base_space, account_discriminator}
use bio_did_registry.Document.{Document, IsDocument, encode, encode_sections}
use bio_did_registry.Document.Decode.{at_lem}
use bio_did_registry.Document.Parts.{encode-at_version}
use bio_did_registry.Runtime.{Runtime, Store, Act, ◌>>=◌, ◌>>◌, pure, lift, ensure, borrow}
use bio_did_registry.Instructions.Shared.{load_did_account, head_of, is_foreign}

pub ensure_then :
    {A : Type 0} (b : Bool) (e : ProgramError) (k : Act A) (s : Store) (r : A × Store)
    → (ensure b e >> k) s ≡ ok r
    → (b ≡ true) × (k s ≡ ok r)
ensure_then true e k s r h = (refl, h)
ensure_then false e k s r h = cc

pub lift_then :
    {A B : Type 0} (m : Result A) (k : A → Act B) (s : Store) (r : B × Store)
    → (lift m >>= k) s ≡ ok r
    → (a : A) × (m ≡ ok a) × (k a s ≡ ok r)
lift_then (ok a) k s r h = (a, refl, h)
lift_then (err e) k s r h = cc
lift_then panic k s r h = cc

-- What `load_did_account` checks: the account is the program's, and stands at the address of the
-- subject and the bump that it stores.
pub load_inv :
    (rt : Runtime) (c : Bytes) (s : Store) (r : Bytes × Store)
    → load_did_account rt c s ≡ ok r
    → (bump : ℕ) × ((s.accounts c).owner ≡ rt.program_id)
      × (head_of (s.accounts c).content ≡ ok (bump, r.0))
      × (c ≡ rt.derive_address (did_seed ∷ r.0 ∷ []) bump)
      × (r.1 ≡ s)
unfolding load_did_account
load_inv rt c s r h =
    let bytes = (s.accounts c).content in
    let at_address : ℕ × Bytes → Act Bytes = λ q.
      ensure (bytes_eq c (rt.derive_address (did_seed ∷ q.1 ∷ []) q.0)) invalid_seeds >> pure q.1 in
    let read : Act Bytes = lift (head_of bytes) >>= at_address in
    let (owned, h₁) =
      ensure_then (bytes_eq (s.accounts c).owner rt.program_id) invalid_account_owner
        (borrow c >>= λ b.
          ensure (not (is_foreign base_space account_discriminator b)) invalid_account_data
          >> (lift (head_of b) >>= at_address))
        s r h in
    let (own, h₂) =
      ensure_then (not (is_foreign base_space account_discriminator bytes)) invalid_account_data
        read s r h₁ in
    let (q, at_head, h₃) = lift_then (head_of bytes) at_address s r h₂ in
    let (placed, h₄) =
      ensure_then (bytes_eq c (rt.derive_address (did_seed ∷ q.1 ∷ []) q.0)) invalid_seeds
        (pure q.1) s r h₃ in
    let same : (q.1, s) ≡ r = ok_injective h₄ in
    rw (← same) (q.0, bytes_eq_sound _ _ owned, at_head, bytes_eq_sound _ _ placed, refl)

-- The head of an encoded document gives its bump and its subject.
pub head-encode : (d : Document) → IsDocument d → head_of (encode d) ≡ ok (d.bump, d.subject)
head-encode d v =
    let front = d.discriminator ++ u64_le d.version in
    let back = d.subject ++ (d.deactivated ∷ u64_le d.updated_at ++ encode_sections d) in
    let cut : encode d ≡ front ++ (d.bump ∷ back) = encode-at_version d ∙ simp append_assoc in
    rw cut (
      rw
        (at_lem Reader.account off_bump front (d.bump ∷ back) (
          omega (
            arith,
            v.discriminator_len,
            length-append d.discriminator (u64_le d.version),
            length-to_le_bytes 8 d.version,
          )))
        (rw (u8_lem Reader.account (length (front ++ (d.bump ∷ back))) d.bump back) (
          rw
            (bytes_lem Reader.account (length (front ++ (d.bump ∷ back))) 32 d.subject
              (d.deactivated ∷ u64_le d.updated_at ++ encode_sections d) (sym v.subject_key.0))
            refl)))
