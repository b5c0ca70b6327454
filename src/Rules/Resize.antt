-- ===== src/Rules/Resize.antt =====
-- The tail of an update that may grow or shrink the account
-- (program/src/instructions/update_service.rs and set_controllers.rs).
use bio_did_registry.Base.{
  ℕ, ◌+◌, ◌^◌, ◌<◌, ◌≤◌, ◌≡◌, refl, sym, ap, ◌∙◌, Bool, true, false, [], ◌∷◌, ◌++◌, append-nil,
  length, length-append, take, take-append, arith, ltb, if◌then◌else◌,
}
use bio_did_registry.Error.{Result, ok, ok_injective, >>=-eq-ok}
use bio_did_registry.Bytes.{Bytes}
use bio_did_registry.Document.{Document, IsDocument, encode}
use bio_did_registry.Document.Parts.{length-encode}
use bio_did_registry.Document.Updates.{touched, touched-IsDocument}
use bio_did_registry.Runtime.{Runtime, Store, Act, ◌>>=◌, ◌>>◌, edit, when}
use bio_did_registry.Events.{emit}
use bio_did_registry.Instructions.Shared.{grow, shrink}
use bio_did_registry.Rules.Storage.{
  RuntimeLaws, shrink-content, grow-content, edit_then, emit-SameContent,
}
use bio_did_registry.Rules.Finish.{stamped, Holds, stamped-encode}

no_bytes : (b : Bytes) → length b ≡ 0 → b ≡ []
no_bytes [] e = refl
no_bytes (x ∷ b) e = absurd (omega (arith, e))

pub grown_enough : (old n k : ℕ) → k ≡ old → n ≤ (if ltb old n then n else k)
grown_enough old n k e = ground arith

pub grown_exact : (old n k : ℕ) → k ≡ old → ltb n old ≡ false → n ≡ (if ltb old n then n else k)
grown_exact old n k e h = ground arith

-- What the edit does to an account with room behind it: it leaves what the new document, of `n`
-- bytes, does not need.
abbrev pub Fills : ℕ → (Bytes → Result Bytes) → Document → Bytes → Type 0
Fills n f after old =
    (g : Bytes)
    → n ≤ length old + length g
    → (left : Bytes) × (f (old ++ g) ≡ ok (encode after ++ left))
      × (length left + n ≡ length old + length g)

module _ (rt : Runtime) (laws : RuntimeLaws rt) (a payer : Bytes) (n : ℕ) where
  grown_when :
      (b : Bool) (s : Store) (q : Unit {0} × Store)
      → (b ≡ true → length (s.accounts a).content ≤ n)
      → when b (grow rt a payer n) s ≡ ok q
      → (g : Bytes) × ((q.1.accounts a).content ≡ (s.accounts a).content ++ g)
        × (length (s.accounts a).content + length g
            ≡ (if b then n else length (s.accounts a).content))
  grown_when true s q room h = grow-content rt laws a payer n s q (room refl) h
  grown_when false s q room h = (
    [],
    ap (λ p. (p.1.accounts a).content) (sym (ok_injective h)) ∙ sym (append-nil _),
    omega arith,
  )

  shrunk_when :
      (b : Bool) (x left : Bytes) (s : Store) (q : Unit {0} × Store)
      → (s.accounts a).content ≡ x ++ left
      → n ≡ length x
      → (b ≡ false → length left ≡ 0)
      → when b (shrink rt a payer n) s ≡ ok q
      → (q.1.accounts a).content ≡ x
  shrunk_when true x left s q e size none_left h =
      let room : n ≤ length (s.accounts a).content =
        omega (arith, size, ap length e, length-append x left) in
      shrink-content rt laws a payer n s q room h
      ∙ (ap (take n) e ∙ (ap (λ k. take k (x ++ left)) size ∙ take-append x left))
  shrunk_when false x left s q e size none_left h =
      ap (λ p. (p.1.accounts a).content) (sym (ok_injective h))
      ∙ (e ∙ (ap (λ b. x ++ b) (no_bytes left (none_left refl)) ∙ append-nil x))

  module _ (event subject : Bytes) (f : Bytes → Result Bytes) (after : Document)
      (fits : IsDocument after) (size : n ≡ length (encode after)) where
    -- The edit, on an account that has grown where it had to, and what runs behind it.
    edit-Holds :
        (b : Bool) (left : Bytes) (now : ℕ) (s : Store) (r : Unit {0} × Store)
        → now < 2 ^ 64
        → f (s.accounts a).content ≡ ok (encode after ++ left)
        → (b ≡ false → length left ≡ 0)
        → (edit a (stamped f now) >>= λ version.
              when b (shrink rt a payer n) >> emit event a subject version)
            s
          ≡ ok r
        → Holds r.1 a after
    edit-Holds b left now s r range run none_left h =
        let finally : ℕ → Act (Unit {0}) =
          λ version. when b (shrink rt a payer n) >> emit event a subject version in
        let (p, t, made, stored, h₁) = edit_then a (stamped f now) finally s r h in
        let ((u, t'), shrunk, h₂) =
          >>=-eq-ok (when b (shrink rt a payer n) t) (λ q. emit event a subject p.1 q.1) h₁ in
        let fits' = touched-IsDocument after now range fits in
        let content : (t.accounts a).content ≡ encode (touched after now) ++ left =
          stored ∙ stamped-encode f after fits now (s.accounts a).content left p range run made in
        let same_size : n ≡ length (encode (touched after now)) =
          size ∙ (length-encode after fits ∙ sym (length-encode (touched after now) fits')) in
        (
          now,
          range,
          emit-SameContent event a subject p.1 t' r h₂ a
              ∙ shrunk_when b (encode (touched after now)) left t (u, t') content same_size
                  none_left shrunk,
        )

    -- The account grows under one condition, and shrinks under another.
    pub resized-Holds :
        (b c : Bool) (now : ℕ) (s : Store) (q r : Unit {0} × Store)
        → now < 2 ^ 64
        → Fills n f after (s.accounts a).content
        → (b ≡ true → length (s.accounts a).content ≤ n)
        → n ≤ (if b then n else length (s.accounts a).content)
        → (c ≡ false → n ≡ (if b then n else length (s.accounts a).content))
        → when b (grow rt a payer n) s ≡ ok q
        → (edit a (stamped f now) >>= λ version.
              when c (shrink rt a payer n) >> emit event a subject version)
            q.1
          ≡ ok r
        → Holds r.1 a after
    resized-Holds b c now s q r range fills room enough exact grown h =
        let (g, larger, total) = grown_when b s q room grown in
        let (left, run, rest) = fills g (omega (arith, enough, total)) in
        edit-Holds c left now q.1 r range (ap f larger ∙ run)
          (λ e. omega (arith, rest, total, exact e)) h
