-- ===== src/Rules/FlagsHandler.antt =====
-- The whole of `set_verification_method_flags`, over the store
-- (program/src/instructions/set_verification_method_flags.rs).
use bio_did_registry.Base.{
  ℕ, ◌≡◌, ◌<◌, ◌^◌, refl, sym, ap, subst, ◌∙◌, true, Option, [], ◌∷◌, ◌++◌, append-nil,
  bytes_eq_refl, All,
}
use bio_did_registry.Error.{
  ProgramError, Result, ok, err, require, ok_injective, >>=-eq-ok, invalid_instruction_data,
}
use bio_did_registry.Error
use bio_did_registry.Bytes.{Bytes, IsByte, u16_le, copy_from_slice}
use bio_did_registry.State.View.{DidView, VmRef, view}
use bio_did_registry.State.Edits.{stamp, saturating_suc}
use bio_did_registry.Document.{Document, IsDocument, encode}
use bio_did_registry.Document.Entries.{doc_view}
use bio_did_registry.Document.Lookups.{signing_count}
use bio_did_registry.Document.Updates.{touched, touched-IsDocument}
use bio_did_registry.Document.Stamp.{stamp-encode}
use bio_did_registry.Document.Removal.{with_methods}
use bio_did_registry.Runtime.{
  Runtime, Store, Act, ◌>>=◌, ◌>>◌, pure, lift, borrow, edit, put, log_data,
}
use bio_did_registry.Events.{did_modified, emit, event_bytes}
use bio_did_registry.Instructions.Args.{parse_args, flags_args}
use bio_did_registry.Instructions.Shared.{check_authority_signer, verify_did_account, authorize}
use bio_did_registry.Instructions.SetVerificationMethodFlags.{check_flags, process_accounts}
use bio_did_registry.Rules.Authorization.{ensure_then, lift_then}
use bio_did_registry.Rules.Controllers.{MayUpdate, authorize-MayUpdate}
use bio_did_registry.Rules.Runs.{view-encode}
use bio_did_registry.Rules.Whole.Values.{flags_bound}
use bio_did_registry.Rules.Reads.{verify-IsRead, authorize-IsRead}
use bio_did_registry.Rules.Flags.{Reflags, reflag, reflag-keeps_authority}

-- The edit of the handler.
abbrev pub patch : VmRef → ℕ → ℕ → Bytes → Result (Bytes × ℕ)
patch vm f now b = Error.◌>>=◌ (copy_from_slice vm.flags_pos (u16_le f) b) (stamp now)

-- What a successful run has done: the checks that it passed, and the content that it left.
abbrev pub Ran :
    Runtime → Bytes → Bytes → Option Bytes → Bytes → Store → Document → Unit {0} × Store → Type 0
Ran rt authority a controller args s d r =
    (q : Bytes × ℕ) × (vm : VmRef) × (now : ℕ) × (p : Bytes × ℕ) × (t : Unit {0} × Store)
    × ((s.accounts authority).is_signer ≡ true)
    × (parse_args flags_args args ≡ ok q)
    × (authorize rt (doc_view d) authority controller s ≡ ok t)
    × (check_flags (doc_view d) q.0 q.1 authority ≡ ok vm)
    × (rt.unix_timestamp ≡ ok now)
    × (patch vm q.1 now (s.accounts a).content ≡ ok p)
    × ((r.1.accounts a).content ≡ p.0)

-- The end of the run: the edit, and the event.
written :
    (a subject : Bytes) (vm : VmRef) (f now : ℕ) (s : Store) (r : Unit {0} × Store)
    → (edit a (patch vm f now) >>= λ version. emit did_modified a subject version) s ≡ ok r
    → (p : Bytes × ℕ) × (patch vm f now (s.accounts a).content ≡ ok p)
      × ((r.1.accounts a).content ≡ p.0)
unfolding emit
written a subject vm f now s r h =
    let ((version, t), edited, h₁) =
      >>=-eq-ok (edit a (patch vm f now) s) (λ p. emit did_modified a subject p.0 p.1) h in
    let (p, made, h₂) =
      lift_then (patch vm f now (s.accounts a).content)
        (λ p. put a (record (s.accounts a) { content = p.0 }) >> pure p.1) s (version, t) edited in
    let (buf, logged, h₃) =
      lift_then (event_bytes did_modified a subject version) (λ buf. log_data buf) t r h₁ in
    let stored : (t.accounts a).content ≡ p.0 =
      ap (λ q. (q.1.accounts a).content) (sym (ok_injective h₂)) ∙ rw (bytes_eq_refl a) refl in
    (p, made, ap (λ q. (q.1.accounts a).content) (sym (ok_injective h₃)) ∙ stored)

pub ran :
    (rt : Runtime) (authority a : Bytes) (controller : Option Bytes) (args : Bytes) (s : Store)
    (d : Document) (r : Unit {0} × Store)
    → IsDocument d
    → (s.accounts a).content ≡ encode d
    → process_accounts rt authority a controller args s ≡ ok r
    → Ran rt authority a controller args s d r
unfolding process_accounts check_authority_signer
ran rt authority a controller args s d r v holds h =
    let finally : Bytes → VmRef → ℕ → ℕ → Act (Unit {0}) = λ subject vm f now.
      edit a (patch vm f now) >>= λ version. emit did_modified a subject version in
    let after_check : Bytes → ℕ → VmRef → Act (Unit {0}) =
      λ subject f vm. lift rt.unix_timestamp >>= finally subject vm f in
    let after_auth : Bytes → Bytes × ℕ → DidView → Act (Unit {0}) =
      λ subject q doc. lift (check_flags doc q.0 q.1 authority) >>= after_check subject q.1 in
    let after_view : Bytes → Bytes × ℕ → DidView → Act (Unit {0}) =
      λ subject q doc. authorize rt doc authority controller >> after_auth subject q doc in
    let after_args : Bytes → Bytes × ℕ → Act (Unit {0}) =
      λ subject q. borrow a >>= λ bytes. lift (view bytes) >>= after_view subject q in
    let after_subject : Bytes → Act (Unit {0}) =
      λ subject. lift (parse_args flags_args args) >>= after_args subject in
    let (signed, h₁) =
      ensure_then (s.accounts authority).is_signer ProgramError.missing_required_signature
        (verify_did_account rt a >>= after_subject) s r h in
    let ((subject, t), verified, h₂) =
      >>=-eq-ok (verify_did_account rt a s) (λ p. after_subject p.0 p.1) h₁ in
    let (q, parsed, h₃) = lift_then (parse_args flags_args args) (after_args subject) t r h₂ in
    let (doc, viewed, h₄) =
      lift_then (view (s.accounts a).content) (after_view subject q) s r
        (rw (verify-IsRead rt a s (subject, t) verified) at h₃) in
    let same : doc ≡ doc_view d = ok_injective (sym viewed ∙ (ap view holds ∙ view-encode d v)) in
    let ((u, t'), passed, h₅) =
      >>=-eq-ok (authorize rt (doc_view d) authority controller s)
        (λ p. after_auth subject q (doc_view d) p.1)
        (subst (λ x. after_view subject q x s ≡ ok r) same h₄) in
    let (vm, checked, h₆) =
      lift_then (check_flags (doc_view d) q.0 q.1 authority) (after_check subject q.1) s r (
        subst (λ x. after_auth subject q (doc_view d) x ≡ ok r)
          (authorize-IsRead rt (doc_view d) authority controller s (u, t') passed) h₅) in
    let (now, clock, h₇) = lift_then rt.unix_timestamp (finally subject vm q.1) s r h₆ in
    let (p, made, left) = written a subject vm q.1 now s r h₇ in
    (q, vm, now, p, (u, t'), signed, parsed, passed, checked, clock, made, left)

-- A run leaves a document that has an authority still, of the next version.
abbrev pub Updated : Store → Bytes → Document → Type 0
Updated s a d =
    (after : Document) × ((s.accounts a).content ≡ encode after)
    × IsDocument after
    × (0 < signing_count after)
    × (after.version ≡ saturating_suc d.version)

patched :
    (d : Document) (vm : VmRef) (f now : ℕ) (content : Bytes) (p : Bytes × ℕ)
    → now < 2 ^ 64
    → Reflags d vm f
    → content ≡ encode d
    → patch vm f now content ≡ ok p
    → (after : Document) × (p.0 ≡ encode after)
      × IsDocument after
      × (0 < signing_count after)
      × (after.version ≡ saturating_suc d.version)
patched d vm f now content p h (front, x, back, e, named, run, fit, signs) holds made =
    let changed : Document = with_methods d (front ++ (reflag x f ∷ back)) in
    let stamped : patch vm f now (encode d)
        ≡ ok (encode (touched changed now), saturating_suc d.version) =
      rw run (
        rw (← append-nil (encode changed)) (
          stamp-encode changed now [] h fit
          ∙ ap (λ b. ok (b, saturating_suc d.version))
              (append-nil (encode (touched changed now))))) in
    (
      touched changed now,
      ap (λ q. q.0) (ok_injective (sym made ∙ (ap (patch vm f now) holds ∙ stamped))),
      touched-IsDocument changed now h fit,
      signs,
      refl,
    )

-- Where a run of `set_verification_method_flags` succeeds, in a store of bytes and with arguments
-- of bytes and a clock of 64 bits, on an account that holds a well-formed document with an
-- authority: the authority account signed, the document was not deactivated and the signer may
-- update it; afterwards the account holds a well-formed document that has an authority, with the
-- next version.
pub process_accounts-keeps_authority :
    (rt : Runtime) (authority a : Bytes) (controller : Option Bytes) (args : Bytes) (s : Store)
    (d : Document) (r : Unit {0} × Store)
    → ((now : ℕ) → rt.unix_timestamp ≡ ok now → now < 2 ^ 64)
    → ((c : Bytes) → All IsByte (s.accounts c).content)
    → All IsByte args
    → IsDocument d
    → 0 < signing_count d
    → (s.accounts a).content ≡ encode d
    → process_accounts rt authority a controller args s ≡ ok r
    → ((s.accounts authority).is_signer ≡ true)
      × (d.deactivated ≡ 0)
      × MayUpdate rt s d authority controller
      × Updated r.1 a d
process_accounts-keeps_authority rt authority a controller args s d r clock_range are_bytes
      args_bytes v signs holds h =
    let ((name, f), vm, now, p, t, signed, parsed, passed, checked, clock, made, left) =
      ran rt authority a controller args s d r v holds h in
    let (living, may) = authorize-MayUpdate rt d authority controller s t v are_bytes passed in
    let (protected, valid, reflags) =
      reflag-keeps_authority d name f authority vm (flags_bound args name f args_bytes parsed) v
        signs checked in
    let (after, stored, fit, still, bumped) =
      patched d vm f now (s.accounts a).content p (clock_range now clock) reflags holds made in
    (signed, living, may, (after, left ∙ stored, fit, still, bumped))
