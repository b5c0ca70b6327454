-- ===== src/Rules/ControllerLists.antt =====
-- The rules on new controller lists (program/src/instructions/set_controllers.rs).
use bio_did_registry.Base.{
  ◌≡◌, ◌≤◌, refl, subst, Bool, true, false, not, ◌&&◌, List, [], ◌∷◌, ◌++◌, append-nil,
  append_assoc, bytes_eq, leb, leb→le, length, All,
}
use bio_did_registry.Error.{Result, ok, require, ◌>>◌, invalid_controller, too_many_controllers}
use bio_did_registry.Bytes.{Bytes}
use bio_did_registry.State.Consts.{max_native_controllers, max_other_controllers}
use bio_did_registry.State.Checks.{valid_external_controller}
use bio_did_registry.Instructions.SetControllers.{
  Controllers, contains, check_natives, check_others, check_controllers,
}
use bio_did_registry.Rules.ExternalDids.{IsExternalDid, valid-IsExternalDid}
use bio_did_registry.Rules.{require_ok, then_inv}
use bio_did_registry.Rules.Additions.{is_among, IsUnique, insert-IsUnique}

is_false : (b : Bool) → not b ≡ true → b ≡ false
is_false true h = cc
is_false false h = refl

-- An entry that is not among those before it keeps them unique.
extend-IsUnique :
    (seen : List Bytes) (key : Bytes)
    → IsUnique seen
    → is_among key seen ≡ false
    → IsUnique (seen ++ (key ∷ []))
extend-IsUnique seen key unique fresh =
    insert-IsUnique seen key [] (rw (append-nil seen) unique) (rw (append-nil seen) fresh)

check_natives_inv :
    (subject : Bytes) (seen keys : List Bytes)
    → IsUnique seen
    → check_natives subject seen keys ≡ ok tt
    → IsUnique (seen ++ keys) × (is_among subject keys ≡ false)
unfolding check_natives
check_natives_inv subject seen [] unique h = (rw (append-nil seen) unique, refl)
check_natives_inv subject seen (key ∷ keys) unique h =
    let rest : Result (Unit {0}) = check_natives subject (seen ++ (key ∷ [])) keys in
    let (other, h₁) =
      then_inv (require (not (bytes_eq key subject)) invalid_controller)
        (require (not (contains seen key)) invalid_controller >> rest) tt h in
    let (fresh, h₂) = then_inv (require (not (contains seen key)) invalid_controller) rest tt h₁ in
    let distinct = is_false (contains seen key) (require_ok _ invalid_controller fresh) in
    let (all_unique, absent) =
      check_natives_inv subject (seen ++ (key ∷ [])) keys (extend-IsUnique seen key unique distinct)
        h₂ in
    (
      subst IsUnique (append_assoc seen (key ∷ []) keys) all_unique,
      rw (is_false (bytes_eq key subject) (require_ok _ invalid_controller other)) absent,
    )

check_others_inv :
    (seen others : List Bytes)
    → IsUnique seen
    → check_others seen others ≡ ok tt
    → IsUnique (seen ++ others) × All (λ c. valid_external_controller c ≡ true) others
unfolding check_others
check_others_inv seen [] unique h = (rw (append-nil seen) unique, tt)
check_others_inv seen (c ∷ others) unique h =
    let rest : Result (Unit {0}) = check_others (seen ++ (c ∷ [])) others in
    let (valid, h₁) =
      then_inv (require (valid_external_controller c) invalid_controller)
        (require (not (contains seen c)) invalid_controller >> rest) tt h in
    let (fresh, h₂) = then_inv (require (not (contains seen c)) invalid_controller) rest tt h₁ in
    let distinct = is_false (contains seen c) (require_ok _ invalid_controller fresh) in
    let (all_unique, all_valid) =
      check_others_inv (seen ++ (c ∷ [])) others (extend-IsUnique seen c unique distinct) h₂ in
    (
      subst IsUnique (append_assoc seen (c ∷ []) others) all_unique,
      (require_ok _ invalid_controller valid, all_valid),
    )

with_dids :
    (others : List Bytes)
    → All (λ value. valid_external_controller value ≡ true) others
    → All (λ value. (valid_external_controller value ≡ true) × IsExternalDid value) others
with_dids [] h = tt
with_dids (c ∷ others) h = ((h.0, valid-IsExternalDid c h.0), with_dids others h.1)

both_hold : (p q : Bool) → (p && q) ≡ true → (p ≡ true) × (q ≡ true)
both_hold true q h = (refl, h)
both_hold false q h = cc

-- Where the rules allow new controller lists, there are no more than 8 of each kind, no native
-- and no external controller is listed twice, the subject is not its own controller, and every
-- external controller is valid: it is "did:", a method of lowercase letters and digits that is
-- not "bio", ":" and an identifier, neither of them empty, together 128 printable characters at
-- most and no blank.
pub check_controllers_inv :
    (subject : Bytes) (c : Controllers)
    → check_controllers subject c ≡ ok tt
    → (length c.natives ≤ max_native_controllers)
      × (length c.others ≤ max_other_controllers)
      × IsUnique c.natives
      × (is_among subject c.natives ≡ false)
      × IsUnique c.others
      × All (λ value. (valid_external_controller value ≡ true) × IsExternalDid value) c.others
unfolding check_controllers
check_controllers_inv subject c h =
    let natives : Result (Unit {0}) = check_natives subject [] c.natives in
    let others : Result (Unit {0}) = check_others [] c.others in
    let few =
      leb (length c.natives) max_native_controllers
      && leb (length c.others) max_other_controllers in
    let (room, h₁) = then_inv (require few too_many_controllers) (natives >> others) tt h in
    let (h₂, h₃) = then_inv natives others tt h₁ in
    let (few_natives, few_others) = both_hold _ _ (require_ok few too_many_controllers room) in
    let (unique, absent) = check_natives_inv subject [] c.natives tt h₂ in
    let (distinct, valid) = check_others_inv [] c.others tt h₃ in
    (
      leb→le (length c.natives) max_native_controllers few_natives,
      leb→le (length c.others) max_other_controllers few_others,
      unique,
      absent,
      distinct,
      with_dids c.others valid,
    )
