-- ===== src/Rules/Finish.antt =====
-- The tail of an update: the edit and its stamp, the resize and the event
-- (program/src/instructions/).
use bio_did_registry.Base.{
  ℕ, ◌+◌, ◌^◌, ◌<◌, ◌≤◌, ◌≡◌, sym, ap, ◌∙◌, [], ◌++◌, append-nil, length, length-append, take,
  take-append, arith,
}
use bio_did_registry.Error.{Result, ok, ok_injective, >>=-eq-ok}
use bio_did_registry.Error
use bio_did_registry.Bytes.{Bytes}
use bio_did_registry.State.Edits.{stamp, saturating_suc}
use bio_did_registry.Document.{Document, IsDocument, encode}
use bio_did_registry.Document.Parts.{length-encode}
use bio_did_registry.Document.Updates.{touched, touched-IsDocument}
use bio_did_registry.Document.Stamp.{stamp-encode}
use bio_did_registry.Runtime.{Runtime, Store, Act, ◌>>=◌, ◌>>◌, lift, edit}
use bio_did_registry.Events.{emit}
use bio_did_registry.Instructions.Shared.{grow, shrink}
use bio_did_registry.Rules.Authorization.{lift_then}
use bio_did_registry.Rules.Storage.{
  RuntimeLaws, shrink-content, grow-content, edit_then, emit-SameContent,
}

-- An edit with its stamp.
abbrev pub stamped : (Bytes → Result Bytes) → ℕ → Bytes → Result (Bytes × ℕ)
stamped f now b = Error.◌>>=◌ (f b) (stamp now)

-- The account holds the document as the update left it, stamped with some time.
abbrev pub Holds : Store → Bytes → Document → Type 0
Holds t a after = (now : ℕ) × (now < 2 ^ 64) × ((t.accounts a).content ≡ encode (touched after now))

-- What the stamp makes of an edited document.
pub stamped-encode :
    (f : Bytes → Result Bytes) (after : Document) (fits : IsDocument after) (now : ℕ) (b g : Bytes)
    (p : Bytes × ℕ)
    → now < 2 ^ 64
    → f b ≡ ok (encode after ++ g)
    → stamped f now b ≡ ok p
    → p.0 ≡ encode (touched after now) ++ g
stamped-encode f after fits now b g p range run h =
    let done : stamped f now b
        ≡ ok (encode (touched after now) ++ g, saturating_suc after.version) =
      rw run (stamp-encode after now g range fits) in
    ap (λ q. q.0) (ok_injective (sym h ∙ done))

module _ (rt : Runtime) (laws : RuntimeLaws rt) (a payer event subject : Bytes)
    (f : Bytes → Result Bytes) (n : ℕ) (after : Document) (fits : IsDocument after) where
  -- Removals: the edit leaves bytes behind, which the account then loses.
  pub shrink-Holds :
      (s : Store) (r : Unit {0} × Store) (g : Bytes)
      → f (s.accounts a).content ≡ ok (encode after ++ g)
      → n ≡ length (encode after)
      → (lift rt.unix_timestamp >>= λ now. edit a (stamped f now) >>= λ version.
            shrink rt a payer n >> emit event a subject version)
          s
        ≡ ok r
      → Holds r.1 a after
  shrink-Holds s r g run size h =
      let finally : ℕ → Act (Unit {0}) =
        λ version. shrink rt a payer n >> emit event a subject version in
      let (now, clock, h₁) =
        lift_then rt.unix_timestamp (λ now. edit a (stamped f now) >>= finally) s r h in
      let (p, t, made, stored, h₂) = edit_then a (stamped f now) finally s r h₁ in
      let ((u, t'), shrunk, h₃) =
        >>=-eq-ok (shrink rt a payer n t) (λ q. emit event a subject p.1 q.1) h₂ in
      let range = laws.clock_range now clock in
      let fits' = touched-IsDocument after now range fits in
      let content : (t.accounts a).content ≡ encode (touched after now) ++ g =
        stored ∙ stamped-encode f after fits now (s.accounts a).content g p range run made in
      let same_size : n ≡ length (encode (touched after now)) =
        size ∙ (length-encode after fits ∙ sym (length-encode (touched after now) fits')) in
      let room : n ≤ length (t.accounts a).content =
        omega (arith, same_size, ap length content, length-append (encode (touched after now)) g) in
      (
        now,
        range,
        emit-SameContent event a subject p.1 t' r h₃ a
            ∙ (shrink-content rt laws a payer n t (u, t') room shrunk
                ∙ (ap (take n) content
                    ∙ (ap (λ k. take k (encode (touched after now) ++ g)) same_size
                        ∙ take-append (encode (touched after now)) g))),
      )

  -- Additions: the account grows first, and the edit fills it.
  pub grow-Holds :
      (s : Store) (r : Unit {0} × Store)
      → length (s.accounts a).content ≤ n
      → ((g : Bytes)
          → length (s.accounts a).content + length g ≡ n
          → f ((s.accounts a).content ++ g) ≡ ok (encode after))
      → (grow rt a payer n
            >> (lift rt.unix_timestamp >>= λ now.
                edit a (stamped f now) >>= λ version. emit event a subject version))
          s
        ≡ ok r
      → Holds r.1 a after
  grow-Holds s r room run h =
      let tail : ℕ → Act (Unit {0}) =
        λ now. edit a (stamped f now) >>= λ version. emit event a subject version in
      let ((u, t), grown, h₁) =
        >>=-eq-ok (grow rt a payer n s) (λ p. (lift rt.unix_timestamp >>= tail) p.1) h in
      let (g, larger, size) = grow-content rt laws a payer n s (u, t) room grown in
      let (now, clock, h₂) = lift_then rt.unix_timestamp tail t r h₁ in
      let (p, t', made, stored, h₃) =
        edit_then a (stamped f now) (λ version. emit event a subject version) t r h₂ in
      let range = laws.clock_range now clock in
      let filled : f (t.accounts a).content ≡ ok (encode after ++ []) =
        ap f larger ∙ (run g size ∙ ap ok (sym (append-nil (encode after)))) in
      (
        now,
        range,
        emit-SameContent event a subject p.1 t' r h₃ a
            ∙ (stored
                ∙ (stamped-encode f after fits now (t.accounts a).content [] p range filled made
                    ∙ append-nil (encode (touched after now)))),
      )
