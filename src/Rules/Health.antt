-- ===== src/Rules/Health.antt =====
-- The invariant of a stored document that is in use (program/src/state.rs).
use bio_did_registry.Base.{
  ◌<◌, ◌≤◌, ◌≡◌, sym, subst, List, ◌∷◌, ◌++◌, length, map, append_assoc, ap,
}
use mathlib.Core.List.{map-append}
use bio_did_registry.Bytes.{Bytes}
use bio_did_registry.State.Consts.{max_verification_methods, max_services}
use bio_did_registry.State.Edits.{saturating_suc}
use bio_did_registry.Document.{Document, VerificationMethod, IsDocument, encode}
use bio_did_registry.Document.Lookups.{signing_count}
use bio_did_registry.Document.Updates.{touched, touched-IsDocument}
use bio_did_registry.Document.Removal.{with_methods}
use bio_did_registry.Runtime.{Store}
use bio_did_registry.Rules.Additions.{names, IsUnique, delete-IsUnique}
use bio_did_registry.Rules.Finish.{Holds}

-- The document fits the layout, has an authority, names that are unique, and no more methods and
-- services than allowed.
pub record IsHealthy (d : Document) : Type 0 where
  pub fits : IsDocument d
  pub governed : 0 < signing_count d
  pub unique : IsUnique (names d)
  pub few_methods : length d.verification_methods ≤ max_verification_methods
  pub few_services : length d.services ≤ max_services

-- The account holds a document in that state, of the version after `d`.
abbrev pub Continues : Store → Bytes → Document → Type 0
Continues t a d =
    (after : Document) × ((t.accounts a).content ≡ encode after)
    × IsHealthy after
    × (after.version ≡ saturating_suc d.version)

pub stamped-Continues :
    (t : Store) (a : Bytes) (d after : Document)
    → IsHealthy after
    → after.version ≡ d.version
    → Holds t a after
    → Continues t a d
stamped-Continues t a d after healthy same (now, range, holds) = (
  touched after now,
  holds,
  record {
    fits = touched-IsDocument after now range healthy.fits;
    governed = healthy.governed;
    unique = healthy.unique;
    few_methods = healthy.few_methods;
    few_services = healthy.few_services;
  },
  ap saturating_suc same,
)

-- Names stay unique where a method is taken out.
pub remove-IsUnique :
    (d : Document) (front : List VerificationMethod) (x : VerificationMethod)
    (back : List VerificationMethod)
    → IsUnique (names (with_methods d (front ++ (x ∷ back))))
    → IsUnique (names (with_methods d (front ++ back)))
remove-IsUnique d front x back u =
    let before = map (λ v. v.fragment) front in
    let behind = map (λ v. v.fragment) back ++ map (λ s. s.fragment) d.services in
    let whole : names (with_methods d (front ++ (x ∷ back))) ≡ before ++ (x.fragment ∷ behind) =
      simp (map-append, append_assoc) in
    let less : names (with_methods d (front ++ back)) ≡ before ++ behind =
      simp (map-append, append_assoc) in
    subst IsUnique (sym less) (delete-IsUnique before x.fragment behind (subst IsUnique whole u))

-- And where it is changed under its name.
pub rename-IsUnique :
    (d : Document) (front : List VerificationMethod) (x y : VerificationMethod)
    (back : List VerificationMethod)
    → y.fragment ≡ x.fragment
    → IsUnique (names (with_methods d (front ++ (x ∷ back))))
    → IsUnique (names (with_methods d (front ++ (y ∷ back))))
rename-IsUnique d front x y back e u =
    let before = map (λ v. v.fragment) front in
    let behind = map (λ v. v.fragment) back ++ map (λ s. s.fragment) d.services in
    let old : names (with_methods d (front ++ (x ∷ back))) ≡ before ++ (x.fragment ∷ behind) =
      simp (map-append, append_assoc) in
    let new : names (with_methods d (front ++ (y ∷ back))) ≡ before ++ (y.fragment ∷ behind) =
      simp (map-append, append_assoc) in
    subst IsUnique (sym new) (rw e (subst IsUnique old u))
