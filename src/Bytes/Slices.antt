-- ===== src/Bytes/Slices.antt =====
-- The slice operations on a string that is written as its parts.
use bio_did_registry.Base.{
  ℕ, zero, suc, ◌+◌, ◌-◌, ◌≤◌, ◌≡◌, refl, sym, ap, ◌∙◌, [], ◌∷◌, ◌++◌, arith, length, length-append,
  append_assoc, take, drop, take-append, drop-append, leb, le→leb, true,
}
use bio_did_registry.Error.{ok}
use bio_did_registry.Bytes.{Bytes, slice, copy_from_slice, copy_within}

suc_plus : (k n : ℕ) → suc k + n ≡ suc (k + n)
suc_plus k n = omega arith

zero_plus : (n : ℕ) → 0 + n ≡ n
zero_plus n = omega arith

pub take-append_plus : (n : ℕ) (a r : Bytes) → take (length a + n) (a ++ r) ≡ a ++ take n r
take-append_plus n [] r = rw (zero_plus n)
take-append_plus n (x ∷ a) r = rw (suc_plus (length a) n) (ap (λ t. x ∷ t) (take-append_plus n a r))

pub drop-append_plus : (n : ℕ) (a r : Bytes) → drop (length a + n) (a ++ r) ≡ drop n r
drop-append_plus n [] r = rw (zero_plus n)
drop-append_plus n (x ∷ a) r = rw (suc_plus (length a) n) (drop-append_plus n a r)

drop_nil : (k : ℕ) → drop k [] ≡ (let b : Bytes = [] in b)
drop_nil zero = refl
drop_nil (suc k) = refl

pub drop-drop : (n m : ℕ) (a : Bytes) → drop n (drop m a) ≡ drop (m + n) a
drop-drop n zero a = rw (zero_plus n)
drop-drop n (suc m) [] = rw (suc_plus m n) (drop_nil n)
drop-drop n (suc m) (x ∷ a) = rw (suc_plus m n) (drop-drop n m a)

drop_all : (a : Bytes) → drop (length a) a ≡ []
drop_all [] = refl
drop_all (x ∷ a) = drop_all a

pub drop-length : (n : ℕ) (a : Bytes) → n ≡ length a → drop n a ≡ []
drop-length n a e = rw e (drop_all a)

-- A part is read.
pub slice_lem :
    (from to : ℕ) (a m b : Bytes)
    → from ≡ length a
    → to ≡ length a + length m
    → slice from to (a ++ (m ++ b)) ≡ ok m
unfolding slice
slice_lem from to a m b p q =
    let low : leb from to ≡ true = le→leb _ _ (omega arith) in
    let high : leb to (length (a ++ (m ++ b))) ≡ true =
      le→leb _ _ (omega (arith, length-append a (m ++ b), length-append m b)) in
    let size : to - from ≡ length m = omega arith in
    rw (low, high, size, p, drop-append a (m ++ b), take-append m b)

-- A part is overwritten by one of its length, and the rest stays.
pub copy_lem :
    (at : ℕ) (src a old b : Bytes)
    → at ≡ length a
    → length src ≡ length old
    → copy_from_slice at src (a ++ (old ++ b)) ≡ ok (a ++ (src ++ b))
unfolding copy_from_slice
copy_lem at src a old b p q =
    let high : leb (at + length src) (length (a ++ (old ++ b))) ≡ true =
      le→leb _ _ (omega (arith, length-append a (old ++ b), length-append old b)) in
    rw (
      high,
      p,
      q,
      take-append a (old ++ b),
      drop-append_plus (length old) a (old ++ b),
      drop-append old b,
    )

-- The part `m` is copied to `n` bytes behind `a`; what it covers, and what it does not, is kept.
pub copy_within_lem :
    (from to dest n : ℕ) (a old m g : Bytes)
    → from ≡ length a + length old
    → to ≡ length a + length old + length m
    → dest ≡ length a + n
    → n ≤ length old + length g
    → copy_within from to dest (a ++ (old ++ (m ++ g)))
      ≡ ok (a ++ (take n (old ++ (m ++ g)) ++ (m ++ drop (n + length m) (old ++ (m ++ g)))))
unfolding copy_within
copy_within_lem from to dest n a old m g p q s fits =
    let low : leb from to ≡ true = le→leb _ _ (omega arith) in
    let total : length (a ++ (old ++ (m ++ g))) ≡ length a + length old + length m + length g =
      omega
        (arith, length-append a (old ++ (m ++ g)), length-append old (m ++ g), length-append m g) in
    let mid : leb to (length (a ++ (old ++ (m ++ g)))) ≡ true = le→leb _ _ (omega arith) in
    let high : leb (dest + (to - from)) (length (a ++ (old ++ (m ++ g)))) ≡ true =
      le→leb _ _ (omega arith) in
    let size : to - from ≡ length m = omega arith in
    let moved : take (length m) (drop from (a ++ (old ++ (m ++ g)))) ≡ m = rw (
      p,
      drop-append_plus (length old) a (old ++ (m ++ g)),
      drop-append old (m ++ g),
      take-append m g,
    ) in
    let kept : drop (dest + length m) (a ++ (old ++ (m ++ g)))
        ≡ drop (n + length m) (old ++ (m ++ g)) =
      ap (λ k. drop k (a ++ (old ++ (m ++ g)))) (omega arith)
      ∙ drop-append_plus (n + length m) a (old ++ (m ++ g)) in
    rw (low, mid, high, size, moved, kept, s, take-append_plus n a (old ++ (m ++ g)))
      (ap ok
        (append_assoc a (take n (old ++ (m ++ g))) (m ++ drop (n + length m) (old ++ (m ++ g)))))

-- A write at the front of what follows `a`: the next write then starts behind it.
pub copy_next :
    (at : ℕ) (src a r : Bytes)
    → at ≡ length a
    → length src ≤ length r
    → copy_from_slice at src (a ++ r) ≡ ok ((a ++ src) ++ drop (length src) r)
unfolding copy_from_slice
copy_next at src a r p q =
    let high : leb (at + length src) (length (a ++ r)) ≡ true =
      le→leb _ _ (omega (arith, length-append a r)) in
    rw (high, p, take-append a r, drop-append_plus (length src) a r)
      (ap ok (sym (append_assoc a src (drop (length src) r))))
