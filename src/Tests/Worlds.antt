-- ===== src/Tests/Worlds.antt =====
-- A runtime that resizes accounts and moves lamports, and what the program relies on of it.
use bio_did_registry.Base.{
  ℕ, ◌+◌, ◌-◌, ◌≡◌, ◌≤◌, refl, sym, ap, ◌∙◌, [], ◌∷◌, ◌++◌, append-nil, length, length-append, take,
  take-append, replicate, length-replicate, arith, bytes_eq, if◌then◌else◌, false, ltb, Bool-cases,
  inl, inr, bytes_eq_refl,
}
use bio_did_registry.Error.{ProgramError, ok, err, ok_injective}
use bio_did_registry.Bytes.{Bytes}
use bio_did_registry.Runtime.{Runtime, Store}
use bio_did_registry.Rules.Rent.{MovesLamports}
use bio_did_registry.Rules.Storage.{RuntimeLaws}
use bio_did_registry.Rules.Health.{IsHealthy}
use bio_did_registry.Tests.Authority
use bio_did_registry.Tests.Samples.{sample, sample-IsDocument}

-- Bytes cut off at the end, or filled up with zeros.
abbrev sized : ℕ → Bytes → Bytes
sized n b = take n (b ++ replicate (n - length b) 0)

abbrev moved : Bytes → Bytes → ℕ → Store → Store
moved from to n s = record s {
  accounts = λ c.
      let v = s.accounts c in
      record v {
        lamports =
            if bytes_eq c to
            then v.lamports + n
            else if bytes_eq c from
            then v.lamports - n
            else v.lamports;
      };
}

-- The rent sysvar: 3480 lamports for a byte.
abbrev rent : Bytes
rent = 152 ∷ 13 ∷ replicate 15 0

abbrev pub world : Runtime
world = record Authority.runtime {
  get_rent_sysvar = λ n. ok rent;
  resize = λ n v. ok (record v { content = sized n v.content });
  transfer = λ from to n s.
      if ltb (s.accounts from).lamports n
      then err (ProgramError.custom 1)
      else ok (moved from to n s);
}

take_whole : (n : ℕ) (b : Bytes) → n ≡ length b → take n b ≡ b
take_whole n b e =
    ap (λ k. take k b) e ∙ (ap (take (length b)) (sym (append-nil b)) ∙ take-append b [])

no_zeros : (n k : ℕ) → n ≤ k → replicate {A = ℕ} (n - k) 0 ≡ []
no_zeros n k h =
    let none_left : n - k ≡ 0 = omega (arith, h) in ap (λ m. replicate {A = ℕ} m 0) none_left

-- A transfer that succeeds was covered.
paid :
    (from to : Bytes) (n : ℕ) (s t : Store)
    → world.transfer from to n s ≡ ok t
    → (ltb (s.accounts from).lamports n ≡ false) × (moved from to n s ≡ t)
paid from to n s t h = elim (Bool-cases (ltb (s.accounts from).lamports n)) [
  | inl short ↦ absurd (refused (sym (rw short at h)))
  | inr covered ↦ (covered, ok_injective (rw covered at h))
]
  where
    refused : ok t ≡ err (ProgramError.custom 1) → ⊥
    refused e = cc

pub world-MovesLamports : MovesLamports world
world-MovesLamports from to n s t apart h =
    let (covered, same) = paid from to n s t h in
    (
      ap (λ x. (x.accounts to).lamports) (sym same) ∙ rw (bytes_eq_refl to) refl,
      ap (λ x. (x.accounts from).lamports + n) (sym same)
          ∙ rw (apart, bytes_eq_refl from) (ground (arith, covered)),
    )

pub world-RuntimeLaws : RuntimeLaws world
world-RuntimeLaws = record {
  shrinks = λ n v w h e.
      ap (λ x. x.content) (sym (ok_injective e))
      ∙ ap (take n)
          (ap (λ z. v.content ++ z) (no_zeros n (length v.content) h) ∙ append-nil v.content);
  grows = λ n v w h e.
      let zeros : Bytes = replicate (n - length v.content) 0 in
      let total : length v.content + length zeros ≡ n =
        omega (arith, h, length-replicate {A = ℕ} (n - length v.content) 0) in
      (
        zeros,
        ap (λ x. x.content) (sym (ok_injective e))
            ∙ take_whole n (v.content ++ zeros)
                (omega (arith, total, length-append v.content zeros)),
        total,
      );
  transfers = λ from to n s t c e. ap (λ x. (x.accounts c).content) (sym (paid from to n s t e).1);
  clock_range = λ now h. omega (arith, ok_injective h);
}

pub sample-IsHealthy : IsHealthy sample
unfolding bytes_eq
sample-IsHealthy = record {
  fits = sample-IsDocument;
  governed = omega arith;
  unique = (refl, (refl, (refl, tt)));
  few_methods = omega arith;
  few_services = omega arith;
}
