-- ===== src/Rules/Additions.antt =====
-- The rules on a new method and a new service, on a stored document, and unique names
-- (program/src/state.rs: `check_new_method`, `require_fragment_free`;
-- program/src/instructions/add_service.rs).
use bio_did_registry.Base.{
  ◌≡◌, ◌<◌, true, false, Bool, ◌||◌, refl, List, [], ◌∷◌, ◌++◌, map, sym, ◌∙◌, arith, bytes_eq, ltb,
  ltb→lt, length, if◌then◌else◌,
}
use bio_did_registry.Error.{
  Result, ok, err, from_did_error, fragment_already_in_use, require, ◌>>◌,
  too_many_verification_methods, invalid_fragment, invalid_key_length,
}
use bio_did_registry.Bytes.{Bytes}
use bio_did_registry.State.Consts.{max_verification_methods, expected_key_len, default_fragment}
use bio_did_registry.State.View.{any, require_fragment_free}
use bio_did_registry.State.Checks.{
  NewMethod, check_new_method, valid_fragment, validate_vm_flags, is_some_of,
}
use bio_did_registry.Document.{Document, IsDocument}
use bio_did_registry.Document.Entries.{doc_view}
use bio_did_registry.Document.Lookups.{names_method, names_service, require_fragment_free-encode}
use bio_did_registry.Rules.{require_ok, then_inv}

-- The names of a document, its methods' before its services'.
abbrev pub names : Document → List Bytes
names d = map (λ v. v.fragment) d.verification_methods ++ map (λ s. s.fragment) d.services

abbrev pub is_among : Bytes → List Bytes → Bool
is_among n = any (λ m. bytes_eq m n)

-- No name occurs twice.
abbrev pub IsUnique : List Bytes → Type 0
IsUnique [] = Unit {0}
IsUnique (n ∷ ns) = (is_among n ns ≡ false) × IsUnique ns

any-append :
    {A : Type 0} (p : A → Bool) (xs ys : List A) → any p (xs ++ ys) ≡ (any p xs || any p ys)
any-append p [] ys = refl
any-append p (x ∷ xs) ys = rw (any-append p xs ys) (ground arith)

any-map :
    {A : Type 0} (f : A → Bytes) (n : Bytes) (xs : List A)
    → is_among n (map f xs) ≡ any (λ x. bytes_eq (f x) n) xs
any-map f n [] = refl
any-map f n (x ∷ xs) = rw (any-map f n xs) refl

pub is_among-names :
    (d : Document) (n : Bytes) → is_among n (names d) ≡ (names_method d n || names_service d n)
is_among-names d n =
    any-append (λ m. bytes_eq m n) (map (λ v. v.fragment) d.verification_methods)
      (map (λ s. s.fragment) d.services)
    ∙ rw
        (any-map (λ v. v.fragment) n d.verification_methods, any-map (λ s. s.fragment) n d.services)
        refl

pub bytes_eq_sym : (a b : Bytes) → bytes_eq a b ≡ bytes_eq b a
unfolding bytes_eq
bytes_eq_sym [] [] = refl
bytes_eq_sym [] (y ∷ b) = refl
bytes_eq_sym (x ∷ a) [] = refl
bytes_eq_sym (x ∷ a) (y ∷ b) = ground (arith, bytes_eq_sym a b)

neither : (p q : Bool) → (p || q) ≡ false → (p ≡ false) × (q ≡ false)
neither true q h = cc
neither false q h = (refl, h)

no_more : (p q r : Bool) → q ≡ false → (p || r) ≡ false → (p || (q || r)) ≡ false
no_more p true r e h = cc
no_more p false r e h = h

both_false :
    (p q : Bool)
    → (if p
        then err (from_did_error fragment_already_in_use)
        else if q
        then err (from_did_error invalid_fragment)
        else ok tt)
      ≡ (let r : Result (Unit {0}) = ok tt in r)
    → (p ≡ false) × (q ≡ false)
both_false true q h = cc
both_false false true h = cc
both_false false false h = (refl, refl)

-- A name that is not there can be put anywhere.
pub insert-IsUnique :
    (xs : List Bytes) (n : Bytes) (ys : List Bytes)
    → IsUnique (xs ++ ys)
    → is_among n (xs ++ ys) ≡ false
    → IsUnique (xs ++ (n ∷ ys))
insert-IsUnique [] n ys u h = (h, u)
insert-IsUnique (x ∷ xs) n ys u h =
    let (other, absent) = neither (bytes_eq x n) (is_among n (xs ++ ys)) h in
    (
      any-append (λ m. bytes_eq m x) xs (n ∷ ys)
          ∙ no_more (is_among x xs) (bytes_eq n x) (is_among x ys) (bytes_eq_sym n x ∙ other)
              (sym (any-append (λ m. bytes_eq m x) xs ys) ∙ u.0),
      insert-IsUnique xs n ys u.1 absent,
    )

without : (p q r : Bool) → (p || (q || r)) ≡ false → (p || r) ≡ false
without true q r h = cc
without false true r h = cc
without false false r h = h

-- Names stay unique where one is taken out.
pub delete-IsUnique :
    (xs : List Bytes) (n : Bytes) (ys : List Bytes)
    → IsUnique (xs ++ (n ∷ ys))
    → IsUnique (xs ++ ys)
delete-IsUnique [] n ys u = u.1
delete-IsUnique (x ∷ xs) n ys u = (
  any-append (λ m. bytes_eq m x) xs ys
      ∙ without (is_among x xs) (bytes_eq n x) (is_among x ys)
          (sym (any-append (λ m. bytes_eq m x) xs (n ∷ ys)) ∙ u.0),
  delete-IsUnique xs n ys u.1,
)

-- What the rules on a new method guarantee.
abbrev pub Admits : Document → NewMethod → Type 0
Admits d m =
    (length d.verification_methods < max_verification_methods)
    × (valid_fragment m.fragment ≡ true)
    × (is_among m.fragment (names d) ≡ false)
    × (bytes_eq m.fragment default_fragment ≡ false)
    × (is_some_of (expected_key_len m.method_type) m.key_len ≡ true)
    × (validate_vm_flags m.method_type m.flags ≡ ok tt)

pub free_name :
    (d : Document) (n : Bytes)
    → IsDocument d
    → require_fragment_free (doc_view d) n ≡ ok tt
    → (is_among n (names d) ≡ false) × (bytes_eq n default_fragment ≡ false)
free_name d n v h =
    let (free, other) =
      both_false (names_method d n || names_service d n) (bytes_eq n default_fragment)
        (rw (require_fragment_free-encode d n v) at h) in
    (is_among-names d n ∙ free, other)

-- Where `check_new_method` accepts a method on a well-formed document, the document has fewer
-- than 16 methods, and the new one's name is valid, taken by no method and no service and not the
-- default one, its key has the length of its type, and its flags suit its type.
pub check_new_method-Admits :
    (d : Document) (m : NewMethod)
    → IsDocument d
    → check_new_method (doc_view d) m ≡ ok tt
    → Admits d m
unfolding check_new_method
check_new_method-Admits d m v h =
    let doc = doc_view d in
    let keys : Result (Unit {0}) =
      require (is_some_of (expected_key_len m.method_type) m.key_len) invalid_key_length in
    let flags : Result (Unit {0}) = validate_vm_flags m.method_type m.flags in
    let free : Result (Unit {0}) = require_fragment_free doc m.fragment in
    let (room, rest) =
      then_inv
        (require (ltb (length d.verification_methods) max_verification_methods)
          too_many_verification_methods)
        (require (valid_fragment m.fragment) invalid_fragment >> (free >> (keys >> flags))) tt h in
    let (name, rest) =
      then_inv (require (valid_fragment m.fragment) invalid_fragment) (free >> (keys >> flags)) tt
        rest in
    let (is_free, rest) = then_inv free (keys >> flags) tt rest in
    let (key, flag) = then_inv keys flags tt rest in
    let (fresh, other) = free_name d m.fragment v is_free in
    (
      ltb→lt (length d.verification_methods) max_verification_methods
          (require_ok _ too_many_verification_methods room),
      require_ok (valid_fragment m.fragment) invalid_fragment name,
      fresh,
      other,
      require_ok (is_some_of (expected_key_len m.method_type) m.key_len) invalid_key_length key,
      flag,
    )
