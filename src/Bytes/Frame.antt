-- ===== src/Bytes/Frame.antt =====
-- Reads and writes of a part do not depend on what stands behind it.
use bio_did_registry.Base.{
  ℕ, zero, suc, ◌+◌, ◌-◌, ◌≤◌, ◌≡◌, refl, ap, ◌∙◌, [], ◌∷◌, ◌++◌, arith, length, length-append,
  append_assoc, take, drop, leb, leb→le, le→leb, length-drop, length-take, ◌&&◌, true, false, Bool,
  Bool-cases, inl, inr,
}
use bio_did_registry.Error.{Result, ok, panic, ok_injective}
use bio_did_registry.Bytes.{Bytes, copy_from_slice, copy_within, slice}

take_frame : (n : ℕ) (a g : Bytes) → n ≤ length a → take n (a ++ g) ≡ take n a
take_frame zero a g h = refl
take_frame (suc n) [] g h = absurd (omega arith)
take_frame (suc n) (x ∷ a) g h = ap (λ t. x ∷ t) (take_frame n a g (omega arith))

drop_frame : (n : ℕ) (a g : Bytes) → n ≤ length a → drop n (a ++ g) ≡ drop n a ++ g
drop_frame zero a g h = refl
drop_frame (suc n) [] g h = absurd (omega arith)
drop_frame (suc n) (x ∷ a) g h = drop_frame n a g (omega arith)

not_ok : {b : Bytes} → (let r : Result Bytes = panic in r) ≡ ok b → ⊥
not_ok h = cc

pub copy_frame :
    (at : ℕ) (src a b g : Bytes)
    → copy_from_slice at src a ≡ ok b
    → copy_from_slice at src (a ++ g) ≡ ok (b ++ g)
unfolding copy_from_slice
copy_frame at src a b g h = elim (Bool-cases (leb (at + length src) (length a))) [
  | inl fits ↦
      let room = leb→le (at + length src) (length a) fits in
      let wide : leb (at + length src) (length (a ++ g)) ≡ true =
        le→leb _ _ (omega (arith, room, length-append a g)) in
      let joined : take at a ++ (src ++ (drop (at + length src) a ++ g))
          ≡ (take at a ++ (src ++ drop (at + length src) a)) ++ g =
        simp append_assoc in
      let result : take at a ++ (src ++ drop (at + length src) a) ≡ b =
        ok_injective (rw fits at h) in
      rw (wide, take_frame at a g (omega (arith, room)), drop_frame (at + length src) a g room)
        (ap ok (joined ∙ ap (λ t. t ++ g) result))
  | inr short ↦ absurd (not_ok (rw short at h))
]

both : (p q : Bool) → (p && q) ≡ true → (p ≡ true) × (q ≡ true)
both true q h = (refl, h)
both false q h = cc

pub slice_frame :
    (from to : ℕ) (a m g : Bytes) → slice from to a ≡ ok m → slice from to (a ++ g) ≡ ok m
unfolding slice
slice_frame from to a m g h = elim (Bool-cases (leb from to && leb to (length a))) [
  | inl fits ↦
      let (ordered, inside) = both (leb from to) (leb to (length a)) fits in
      let low = leb→le from to ordered in
      let high = leb→le to (length a) inside in
      let wide : leb to (length (a ++ g)) ≡ true =
        le→leb _ _ (omega (arith, high, length-append a g)) in
      rw
        (
          ordered,
          wide,
          drop_frame from a g (omega (arith, low, high)),
          take_frame (to - from) (drop from a) g (omega (arith, low, high, length-drop from a)),
        )
        (rw fits at h)
  | inr short ↦ absurd (not_ok (rw short at h))
]

-- An edit in place keeps the length.
pub copy-length : (at : ℕ) (src a b : Bytes) → copy_from_slice at src a ≡ ok b → length b ≡ length a
unfolding copy_from_slice
copy-length at src a b h = elim (Bool-cases (leb (at + length src) (length a))) [
  | inl fits ↦
      let room = leb→le (at + length src) (length a) fits in
      let result : take at a ++ (src ++ drop (at + length src) a) ≡ b =
        ok_injective (rw fits at h) in
      omega (
        arith,
        room,
        ap length result,
        length-append (take at a) (src ++ drop (at + length src) a),
        length-append src (drop (at + length src) a),
        length-take at a (omega (arith, room)),
        length-drop (at + length src) a,
      )
  | inr short ↦ absurd (not_ok (rw short at h))
]

pub copy_within-length :
    (from to dest : ℕ) (a b : Bytes) → copy_within from to dest a ≡ ok b → length b ≡ length a
unfolding copy_within
copy_within-length from to dest a b h =
    let inside = leb from to && leb to (length a) && leb (dest + (to - from)) (length a) in
    elim (Bool-cases inside) [
      | inl fits ↦
          let (rest, inside_end) =
            both (leb from to && leb to (length a)) (leb (dest + (to - from)) (length a)) fits in
          let (ordered, inside_to) = both (leb from to) (leb to (length a)) rest in
          let low = leb→le from to ordered in
          let high = leb→le to (length a) inside_to in
          let room = leb→le (dest + (to - from)) (length a) inside_end in
          let moved = take (to - from) (drop from a) in
          let behind = drop (dest + (to - from)) a in
          let result : take dest a ++ (moved ++ behind) ≡ b = ok_injective (rw fits at h) in
          omega (
            arith,
            low,
            high,
            room,
            ap length result,
            length-append (take dest a) (moved ++ behind),
            length-append moved behind,
            length-take dest a (omega (arith, room)),
            length-take (to - from) (drop from a) (omega (arith, low, high, length-drop from a)),
            length-drop (dest + (to - from)) a,
          )
      | inr short ↦ absurd (not_ok (rw short at h))
    ]
