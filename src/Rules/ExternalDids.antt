-- ===== src/Rules/ExternalDids.antt =====
-- External controllers as DIDs of other methods (program/src/state.rs, `valid_external_controller`).
use bio_did_registry.Base.{
  ℕ, suc, ◌≡◌, ◌≤◌, refl, sym, ap, ◌∙◌, Bool, true, false, not, ◌&&◌, ◌||◌, none, some, Bool-cases,
  Option-cases, inl, inr, ◌⊎◌, ◌==◌, ==_iff, [], ◌∷◌, ◌++◌, length, leb, leb→le, take, drop, All,
  arith, bytes_eq, bytes_eq_refl,
}
use bio_did_registry.Bytes.{Bytes}
use bio_did_registry.State.Checks.{
  all, is_empty, valid_uri_ascii, strip_prefix, position, valid_method_and_id,
  valid_external_controller, is_ascii_lowercase, is_ascii_digit, did_prefix, bio_method,
}
use bio_did_registry.State.Consts.{max_controller_len}

-- A printable character that is no blank.
abbrev IsVisible : ℕ → Type 0
IsVisible b = (33 ≤ b) × (b ≤ 126)

-- A lowercase letter or a digit.
abbrev IsMethodByte : ℕ → Type 0
IsMethodByte b = ((97 ≤ b) × (b ≤ 122)) ⊎ ((48 ≤ b) × (b ≤ 57))

-- "did:", a method that is not "bio", ":" and an identifier, of 128 bytes at most.
pub record IsExternalDid (value : Bytes) : Type 0 where
  pub method : Bytes
  pub id : Bytes
  pub written : value ≡ b'd' ∷ b'i' ∷ b'd' ∷ b':' ∷ (method ++ (b':' ∷ id))
  pub short : length value ≤ 128
  pub visible : All IsVisible value
  pub named : 1 ≤ length method
  pub plain : All IsMethodByte method
  pub foreign_method : ¬ (method ≡ b'b' ∷ b'i' ∷ b'o' ∷ [])
  pub identified : 1 ≤ length id

both : (p q : Bool) → (p && q) ≡ true → (p ≡ true) × (q ≡ true)
both true q h = (refl, h)
both false q h = cc

all_inv :
    (p : ℕ → Bool) (P : ℕ → Type 0)
    → ((b : ℕ) → p b ≡ true → P b)
    → (bs : Bytes) → all p bs ≡ true
    → All P bs
all_inv p P each [] h = tt
all_inv p P each (b ∷ bs) h =
    let (first, rest) = both (p b) (all p bs) h in (each b first, all_inv p P each bs rest)

strip_prefix_sound :
    (ps value rest : Bytes) → strip_prefix ps value ≡ some rest → value ≡ ps ++ rest
unfolding strip_prefix
strip_prefix_sound [] value rest h = cc
strip_prefix_sound (p ∷ ps) [] rest h = cc
strip_prefix_sound (p ∷ ps) (b ∷ bs) rest h = ground (arith, strip_prefix_sound ps bs rest)

position_sound :
    (c : ℕ) (bs : Bytes) (i : ℕ) → position c bs ≡ some i → bs ≡ take i bs ++ (c ∷ drop (suc i) bs)
unfolding position
position_sound c [] i h = cc
position_sound c (b ∷ bs) i h = elim (Bool-cases (b == c)) [
  | inl here ↦ first b bs i ((==_iff b c).0 here) (some_same (rw here at h))
  | inr other ↦ elim (Option-cases (position c bs)) [
    | inl missing ↦ absurd (none_some i (rw missing at (rw other at h)))
    | inr (j, found) ↦
        later j i (some_same (rw found at (rw other at h))) (position_sound c bs j found)
  ]
]
  where
    some_same : {x y : ℕ} → some x ≡ some y → x ≡ y
    some_same e = cc

    none_some : (x : ℕ) → none ≡ some x → ⊥
    none_some x e = cc

    first :
        (b : ℕ) (bs : Bytes) (i : ℕ) → b ≡ c → 0 ≡ i → b ∷ bs ≡ take i (b ∷ bs) ++ (c ∷ drop i bs)
    first b bs i same at = rw (← at) (ap (λ x. x ∷ bs) same)

    later :
        (j i : ℕ)
        → suc j ≡ i
        → bs ≡ take j bs ++ (c ∷ drop (suc j) bs)
        → b ∷ bs ≡ take i (b ∷ bs) ++ (c ∷ drop i bs)
    later j i at e = rw (← at) (ap (λ x. b ∷ x) e)

nonempty : (b : Bytes) → not (is_empty b) ≡ true → 1 ≤ length b
nonempty [] h = cc
nonempty (x ∷ b) h = omega arith

-- What the last test asks of the two sides of the colon.
sides_inv :
    (method id : Bytes)
    → valid_method_and_id method id ≡ true
    → (1 ≤ length method)
      × All IsMethodByte method
      × (¬ (method ≡ b'b' ∷ b'i' ∷ b'o' ∷ []))
      × (1 ≤ length id)
sides_inv method id h =
    let bytes_ok = all (λ b. is_ascii_lowercase b || is_ascii_digit b) method in
    let foreign_to = not (bytes_eq method bio_method) in
    let (front, identified) =
      both ((not (is_empty method) && foreign_to) && bytes_ok) (not (is_empty id)) h in
    let (front, plain) = both (not (is_empty method) && foreign_to) bytes_ok front in
    let (named, foreign) = both (not (is_empty method)) foreign_to front in
    (
      nonempty method named,
      all_inv _ IsMethodByte (λ b ok. ground (arith, ok)) method plain,
      λ same.
          equal (
            sym foreign ∙ ap not (ap (λ m. bytes_eq m bio_method) same ∙ bytes_eq_refl bio_method)),
      nonempty id identified,
    )
  where
    equal : true ≡ false → ⊥
    equal e = cc

uri_inv :
    (value : Bytes) (n : ℕ)
    → valid_uri_ascii value n ≡ true
    → (length value ≤ n) × All IsVisible value
unfolding valid_uri_ascii
uri_inv value n h =
    let visible = all (λ b. leb 0x21 b && leb b 0x7e) value in
    let (front, plain) = both (not (is_empty value) && leb (length value) n) visible h in
    let (some_byte, short) = both (not (is_empty value)) (leb (length value) n) front in
    (leb→le _ _ short, all_inv _ IsVisible (λ b ok. ground (arith, ok)) value plain)

pub valid-IsExternalDid :
    (value : Bytes) → valid_external_controller value ≡ true → IsExternalDid value
unfolding valid_external_controller
valid-IsExternalDid value h = elim (Bool-cases (valid_uri_ascii value max_controller_len)) [
  | inr bad ↦ absurd (refused (rw bad at h))
  | inl good ↦ elim (Option-cases (strip_prefix did_prefix value)) [
    | inl other ↦ absurd (refused (rw other at (rw good at h)))
    | inr (rest, cut) ↦ elim (Option-cases (position b':' rest)) [
      | inl none_found ↦ absurd (refused (rw none_found at (rw cut at (rw good at h))))
      | inr (colon, found) ↦
          let (short, visible) = uri_inv value max_controller_len good in
          let (named, plain, foreign, identified) =
            sides_inv (take colon rest) (drop (suc colon) rest)
              (rw found at (rw cut at (rw good at h))) in
          record {
            method = take colon rest;
            id = drop (suc colon) rest;
            written =
                strip_prefix_sound did_prefix value rest cut
                ∙ ap (λ b. did_prefix ++ b) (position_sound b':' rest colon found);
            short = short;
            visible = visible;
            named = named;
            plain = plain;
            foreign_method = foreign;
            identified = identified;
          }
    ]
  ]
]
  where
    refused : false ≡ true → ⊥
    refused e = cc
