-- ===== src/Rules/Whole/ControllerSets.antt =====
-- Whole runs of `set_controllers`, over the store
-- (program/src/instructions/set_controllers.rs).
use bio_did_registry.Base.{
  ℕ, ◌+◌, ◌-◌, ◌^◌, ◌<◌, ◌≤◌, ◌≡◌, refl, ap, subst, ◌∙◌, false, not, ◌&&◌, List, [], ◌∷◌, ◌++◌,
  append-nil, length, arith, ltb, ltb→lt, if◌then◌else◌, All,
}
use bio_did_registry.Error.{ok, >>=-eq-ok}
use bio_did_registry.Bytes.{Bytes, IsByte}
use bio_did_registry.State.Consts.{off_sections}
use bio_did_registry.Document.{Document, IsDocument, IsKey, encode, layout}
use bio_did_registry.Reader.Laws.{IsShort}
use bio_did_registry.Document.Parts.{length-encode}
use bio_did_registry.Document.Controllers.{
  encode_controllers, with_controllers, length-encode_controllers, replace_sections-encode,
}
use bio_did_registry.Runtime.{Runtime, Store, Act, ◌>>=◌, ◌>>◌, edit, when}
use bio_did_registry.Events.{did_modified, emit}
use bio_did_registry.Instructions.Shared.{first, grow, shrink}
use bio_did_registry.Instructions.Args.{parse_args}
use bio_did_registry.Instructions.SetControllers.{
  controller_args, check_controllers, replace_sections, process,
}
use bio_did_registry.Rules.Authorization.{lift_then}
use bio_did_registry.Rules.Controllers.{MayUpdate}
use bio_did_registry.Rules.Storage.{RuntimeLaws}
use bio_did_registry.Rules.Runs.{update_on, authorize_on}
use bio_did_registry.Rules.Finish.{stamped}
use bio_did_registry.Rules.Resize.{Fills, resized-Holds}
use bio_did_registry.Rules.Health.{IsHealthy, Continues, stamped-Continues}
use bio_did_registry.Rules.Whole.Lists.{controller_args_inv}

recontrolled-IsDocument :
    (d : Document) (natives others : List Bytes)
    → IsDocument d
    → length natives < 2 ^ 32
    → All IsKey natives
    → length others < 2 ^ 32
    → All IsShort others
    → IsDocument (with_controllers d natives others)
recontrolled-IsDocument d natives others v few keys few' short = record {
  discriminator_len = v.discriminator_len;
  discriminator_bytes = v.discriminator_bytes;
  version_range = v.version_range;
  bump_range = v.bump_range;
  subject_key = v.subject_key;
  deactivated_range = v.deactivated_range;
  updated_at_range = v.updated_at_range;
  native_count = few;
  native_keys = keys;
  other_count = few';
  other_short = short;
  method_count = v.method_count;
  method_ranges = v.method_ranges;
  service_count = v.service_count;
  service_ranges = v.service_ranges;
}

module _ (d : Document) (natives others : List Bytes) (v : IsDocument d) where
  abbrev after : Document
  after = with_controllers d natives others

  abbrev old_sections : ℕ
  old_sections = (layout d).vm_count_pos - off_sections

  abbrev new_end : ℕ
  new_end = (layout d).end - old_sections + length (encode_controllers natives others)

  old_size : old_sections ≡ length (encode_controllers d.native_controllers d.other_controllers)
  old_size = omega (arith, length-encode_controllers d.native_controllers d.other_controllers)

  new_size : IsDocument after → new_end ≡ length (encode after)
  new_size fits = omega (arith, length-encode after fits, length-encode_controllers natives others)

  fills :
      (args : Bytes)
      → args ≡ encode_controllers natives others
      → Fills new_end
          (replace_sections
            (layout d).vm_count_pos
            (layout d).end
            (length (encode_controllers natives others))
            args)
          after
          (encode d)
  fills args split g enough =
      let (left, room, run) =
        replace_sections-encode d natives others g [] v
          (omega (arith, enough, length-encode d v, old_size)) in
      (
        left,
        rw split (
            subst
              (λ b.
                replace_sections (layout d).vm_count_pos (layout d).end
                  (length (encode_controllers natives others)) b (encode d ++ g)
                ≡ ok (encode after ++ left))
              (append-nil (encode_controllers natives others)) run),
        omega (arith, room, enough, length-encode d v, old_size),
      )

room_made :
    (old_sections new_sections end n k : ℕ)
    → k ≡ end
    → old_sections ≤ end
    → n ≡ end - old_sections + new_sections
    → n ≤ (if ltb old_sections new_sections then n else k)
room_made old_sections new_sections end n k e fits n_eq = ground arith

exactly :
    (old_sections new_sections end n k : ℕ)
    → k ≡ end
    → old_sections ≤ end
    → n ≡ end - old_sections + new_sections
    → (not (ltb old_sections new_sections) && ltb n end) ≡ false
    → n ≡ (if ltb old_sections new_sections then n else k)
exactly old_sections new_sections end n k e fits n_eq h = ground arith

module _ (rt : Runtime) (laws : RuntimeLaws rt) (payer authority a sys : Bytes) (rest : List Bytes)
    (args : Bytes) (s : Store) (d : Document) (r : Unit {0} × Store)
    (are_bytes : (c : Bytes) → All IsByte (s.accounts c).content) (healthy : IsHealthy d)
    (holds : (s.accounts a).content ≡ encode d) where
  pub set_controllers-Continues :
      All IsByte args
      → process rt (payer ∷ authority ∷ a ∷ sys ∷ rest) args s ≡ ok r
      → MayUpdate rt s d authority (first rest) × Continues r.1 a d
  unfolding process
  set_controllers-Continues args_bytes h =
      let (subject, h₁) = update_on rt payer authority a sys rest s r _ h in
      let (c, parsed, h₂) = lift_then (parse_args controller_args args) _ s r h₁ in
      let (living, may, h₃) =
        authorize_on rt s r authority a (first rest) _ d are_bytes healthy.fits holds h₂ in
      let (u, checked, h₄) = lift_then (check_controllers subject c) _ s r h₃ in
      let (split, sized, few, keys, few', short) = controller_args_inv args c args_bytes parsed in
      let old = (layout d).end in
      let old_sections = (layout d).vm_count_pos - off_sections in
      let n = old - old_sections + c.sections_len in
      let edited = replace_sections (layout d).vm_count_pos old c.sections_len args in
      let changed = with_controllers d c.natives c.others in
      let fits = recontrolled-IsDocument d c.natives c.others healthy.fits few keys few' short in
      let lists_len : c.sections_len ≡ length (encode_controllers c.natives c.others) =
        sized ∙ ap length split in
      let grows = ltb old_sections c.sections_len in
      let shrinks = not grows && ltb n old in
      let then_edit : ℕ → Act (Unit {0}) = λ now.
        when grows (grow rt a payer n)
        >> (edit a (stamped edited now) >>= λ version.
            when shrinks (shrink rt a payer n) >> emit did_modified a subject version) in
      let (now, clock, h₅) = lift_then rt.unix_timestamp then_edit s r h₄ in
      let ((u', t), grown, h₆) =
        >>=-eq-ok (when grows (grow rt a payer n) s)
          (λ p.
            (edit a (stamped edited now) >>= λ version.
            when shrinks (shrink rt a payer n) >> emit did_modified a subject version)
              p.1)
          h₅ in
      let stored : length (s.accounts a).content ≡ old =
        ap length holds ∙ length-encode d healthy.fits in
      let inside : old_sections ≤ old = omega arith in
      let kept : IsHealthy changed = record {
        fits = fits;
        governed = healthy.governed;
        unique = healthy.unique;
        few_methods = healthy.few_methods;
        few_services = healthy.few_services;
      } in
      let size : n ≡ length (encode changed) =
        omega (arith, lists_len, new_size d c.natives c.others healthy.fits fits) in
      let filled : Fills n edited changed (s.accounts a).content =
        rw (holds, lists_len) (fills d c.natives c.others healthy.fits args split) in
      (
        may,
        stamped-Continues r.1 a d changed kept refl (
            resized-Holds rt laws a payer n did_modified subject edited changed fits size grows
              shrinks now s (u', t) r (laws.clock_range now clock) filled
              (λ more. omega (arith, stored, inside, ltb→lt old_sections c.sections_len more))
              (room_made old_sections c.sections_len old n _ stored inside refl)
              (exactly old_sections c.sections_len old n _ stored inside refl) grown h₆),
      )
