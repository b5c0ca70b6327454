-- ===== src/Rules/Acceptance.antt =====
-- Which new methods a document takes (program/src/state.rs, `check_new_method`).
use bio_did_registry.Base.{
  ℕ, ◌≡◌, ◌<◌, ◌≤◌, ◌^◌, refl, sym, ap, ◌∙◌, true, false, ◌||◌, ◌⊎◌, inl, inr, ◌↔◌, List, [], ◌∷◌,
  length, ltb, lt→ltb, All, arith, bytes_eq, bytes_eq_sound, bytes_eq_refl, Bool-cases,
}
use bio_did_registry.Error.{ok, require}
use bio_did_registry.Bytes.{Bytes}
use bio_did_registry.State.Consts.{max_verification_methods, expected_key_len, default_fragment}
use bio_did_registry.State.View.{require_fragment_free}
use bio_did_registry.State.Checks.{
  NewMethod, check_new_method, valid_fragment, is_some_of, is_fragment_byte, all,
}
use bio_did_registry.Document.{Document, IsDocument}
use bio_did_registry.Document.Entries.{doc_view}
use bio_did_registry.Document.Lookups.{names_method, names_service, require_fragment_free-encode}
use bio_did_registry.Rules.Additions.{
  Admits, names, is_among, is_among-names, check_new_method-Admits,
}
use bio_did_registry.Rules.Roles.{SuitFlags}
use bio_did_registry.Rules.Roles.Validation.{validate_vm_flags_iff}

-- A letter, a digit, `_` or `-`.
abbrev pub IsNameByte : ℕ → Type 0
IsNameByte b =
    ((97 ≤ b) × (b ≤ 122))
    ⊎ (((65 ≤ b) × (b ≤ 90)) ⊎ (((48 ≤ b) × (b ≤ 57)) ⊎ ((b ≡ 95) ⊎ (b ≡ 45))))

-- A name has 1 to 32 such bytes.
abbrev pub IsName : Bytes → Type 0
IsName n = (1 ≤ length n) × (length n ≤ 32) × All IsNameByte n

-- The types of method, and the length of their keys: Ed25519, X25519, secp256k1, Dilithium5.
abbrev pub IsKeyOf : ℕ → ℕ → Type 0
IsKeyOf t n =
    ((t ≡ 0) × (n ≡ 32)) ⊎ (((t ≡ 1) × (n ≡ 32)) ⊎ (((t ≡ 2) × (n ≡ 33)) ⊎ ((t ≡ 3) × (n ≡ 2592))))

-- A method that a document may take.
pub record Fits (d : Document) (m : NewMethod) : Type 0 where
  pub room : length d.verification_methods < 16
  pub named : IsName m.fragment
  -- No method and no service has the name, and it is not "default".
  pub fresh : All (λ n. ¬ (n ≡ m.fragment)) (names d)
  pub own : ¬ (m.fragment ≡ b'd' ∷ b'e' ∷ b'f' ∷ b'a' ∷ b'u' ∷ b'l' ∷ b't' ∷ [])
  pub keyed : IsKeyOf m.method_type m.key_len
  pub suited : SuitFlags m.method_type m.flags

is_fragment_byte_iff : (b : ℕ) → (is_fragment_byte b ≡ true) ↔ IsNameByte b
is_fragment_byte_iff b = ground arith

all_fragment_bytes : (n : Bytes) → (all is_fragment_byte n ≡ true) ↔ All IsNameByte n
all_fragment_bytes [] = (λ _. tt, λ _. refl)
all_fragment_bytes (b ∷ n) = ground (arith, is_fragment_byte_iff b, all_fragment_bytes n)

valid_fragment_iff : (n : Bytes) → (valid_fragment n ≡ true) ↔ IsName n
unfolding valid_fragment
valid_fragment_iff [] = (λ h. cc, λ h. absurd (omega (arith, h.0)))
valid_fragment_iff (b ∷ n) = ground (arith, all_fragment_bytes (b ∷ n))

bytes_eq_iff : (m n : Bytes) → (bytes_eq m n ≡ false) ↔ (¬ (m ≡ n))
bytes_eq_iff m n = (
  λ h e. differ (sym (bytes_eq_refl n) ∙ (ap (λ x. bytes_eq x n) (sym e) ∙ h)),
  λ h. elim (Bool-cases (bytes_eq m n)) [
    | inl equal ↦ absurd (h (bytes_eq_sound m n equal))
    | inr other ↦ other
  ],
)
  where
    differ : true ≡ false → ⊥
    differ e = cc

is_among_iff : (n : Bytes) (ns : List Bytes) → (is_among n ns ≡ false) ↔ All (λ m. ¬ (m ≡ n)) ns
is_among_iff n [] = (λ _. tt, λ _. refl)
is_among_iff n (m ∷ ns) = ground (arith, is_among_iff n ns, bytes_eq_iff m n)

expected_key_len_iff : (t n : ℕ) → (is_some_of (expected_key_len t) n ≡ true) ↔ IsKeyOf t n
unfolding expected_key_len
expected_key_len_iff t n = ground arith

-- The rules that `check_new_method` goes through are enough.
admitted :
    (d : Document) (m : NewMethod)
    → IsDocument d
    → Admits d m
    → check_new_method (doc_view d) m ≡ ok tt
unfolding check_new_method require
admitted d m v (room, name, fresh, other, key, flags) =
    let free : (names_method d m.fragment || names_service d m.fragment) ≡ false =
      sym (is_among-names d m.fragment) ∙ fresh in
    let here : require_fragment_free (doc_view d) m.fragment ≡ ok tt =
      require_fragment_free-encode d m.fragment v ∙ rw (free, other) refl in
    let space : ltb (length d.verification_methods) max_verification_methods ≡ true =
      lt→ltb _ _ room in
    rw space (rw name (rw here (rw key flags)))

-- On a well-formed document, and for flags of 16 bits, `check_new_method` accepts a method
-- exactly when the document has fewer than 16 methods; the name has 1 to 32 letters, digits, `_`
-- and `-`, is that of no method and no service and not "default"; the key has the length of its
-- type; and the flags are those of roles that suit the type. Only an Ed25519 key invokes
-- capabilities or is protected, what is protected invokes capabilities, an X25519 key only agrees
-- on keys, and a Dilithium5 key does not.
pub check_new_method_iff :
    (d : Document) (m : NewMethod)
    → IsDocument d
    → m.flags < 2 ^ 16
    → (check_new_method (doc_view d) m ≡ ok tt) ↔ Fits d m
check_new_method_iff d m v range = (
  λ h.
      let (room, name, fresh, other, key, flags) = check_new_method-Admits d m v h in
      record {
        room = room;
        named = (valid_fragment_iff m.fragment).0 name;
        fresh = (is_among_iff m.fragment (names d)).0 fresh;
        own = (bytes_eq_iff m.fragment default_fragment).0 other;
        keyed = (expected_key_len_iff m.method_type m.key_len).0 key;
        suited = (validate_vm_flags_iff m.method_type m.flags range).0 flags;
      },
  λ f. admitted d m v (
    f.room,
    (valid_fragment_iff m.fragment).1 f.named,
    (is_among_iff m.fragment (names d)).1 f.fresh,
    (bytes_eq_iff m.fragment default_fragment).1 f.own,
    (expected_key_len_iff m.method_type m.key_len).1 f.keyed,
    (validate_vm_flags_iff m.method_type m.flags range).1 f.suited,
  ),
)
