-- ===== src/Rules/Whole/Replacements.antt =====
-- Whole runs of `update_service`, over the store (program/src/instructions/update_service.rs).
use bio_did_registry.Base.{
  ℕ, ◌+◌, ◌-◌, ◌≡◌, refl, sym, ap, subst, ◌∙◌, some, List, ◌∷◌, ◌++◌, length, length-append,
  length-swap, map, arith, ltb, ltb→lt, bytes_eq_sound, All, All-append, All-prefix, All-suffix,
}
use mathlib.Core.List.{map-append}
use bio_did_registry.Error.{
  Result, ok, ok_or, from_did_error, require, service_not_found, invalid_service_value,
  ok_injective, >>=-eq-ok,
}
use bio_did_registry.Error
use bio_did_registry.Bytes.{Bytes, IsByte}
use bio_did_registry.State.Consts.{service_space, max_service_type_len, max_endpoint_len}
use bio_did_registry.State.View.{SvcRef, find_service}
use bio_did_registry.State.Checks.{valid_uri_ascii}
use bio_did_registry.Document.{
  Document, Service, IsDocument, IsService, encode, encode_service, encode_all, layout,
}
use bio_did_registry.Document.Parts.{length-encode}
use bio_did_registry.Document.Entries.{doc_view, svc_ref, length-encode_service}
use bio_did_registry.Document.Lookups.{find_service-encode}
use bio_did_registry.Document.Updates.{encode_all-append}
use bio_did_registry.Document.Removal.{with_services, with_services-IsDocument, service_start}
use bio_did_registry.Document.Services.{replace_service-encode}
use bio_did_registry.Runtime.{Runtime, Store, Act, ◌>>=◌, ◌>>◌, lift, edit, when}
use bio_did_registry.Events.{did_modified, emit}
use bio_did_registry.Instructions.Shared.{first, grow, shrink}
use bio_did_registry.Instructions.Args.{parse_args, service_args}
use bio_did_registry.Instructions.UpdateService.{check_update, replace_entry}
use bio_did_registry.Instructions.UpdateService
use bio_did_registry.Rules.{then_inv, ok_or_inv}
use bio_did_registry.Rules.Authorization.{lift_then}
use bio_did_registry.Rules.Controllers.{MayUpdate}
use bio_did_registry.Rules.Additions.{names, IsUnique}
use bio_did_registry.Rules.Storage.{RuntimeLaws}
use bio_did_registry.Rules.Runs.{update_on, authorize_on}
use bio_did_registry.Rules.Finish.{stamped}
use bio_did_registry.Rules.Resize.{Fills, resized-Holds, grown_enough, grown_exact}
use bio_did_registry.Rules.Health.{IsHealthy, Continues, stamped-Continues}
use bio_did_registry.Rules.Whole.Values.{service_args-IsService}

-- Where the services before and behind an entry stand.
services_end :
    (d : Document) (front : List Service) (y : Service) (back : List Service)
    → (layout (with_services d (front ++ (y ∷ back)))).end
      ≡ service_start d front + length (encode_service y) + length (encode_all encode_service back)
services_end d front y back = omega (
  arith,
  ap length (encode_all-append encode_service front (y ∷ back)),
  length-append (encode_all encode_service front) (encode_all encode_service (y ∷ back)),
  length-append (encode_service y) (encode_all encode_service back),
)

replaced-IsHealthy :
    (d : Document) (front : List Service) (x new : Service) (back : List Service)
    → IsHealthy d
    → d.services ≡ front ++ (x ∷ back)
    → IsService new
    → x.fragment ≡ new.fragment
    → IsHealthy (with_services d (front ++ (new ∷ back)))
replaced-IsHealthy d front x new back healthy e range named =
    let ranges : All IsService (front ++ (x ∷ back)) =
      subst (All IsService) e healthy.fits.service_ranges in
    let same : length (front ++ (new ∷ back)) ≡ length d.services =
      length-swap front new x back ∙ sym (ap length e) in
    let old : names d
        ≡ map (λ v. v.fragment) d.verification_methods
          ++ (map (λ s. s.fragment) front ++ (x.fragment ∷ map (λ s. s.fragment) back)) =
      ap (λ ss. names (with_services d ss)) e ∙ simp map-append in
    let now : names (with_services d (front ++ (new ∷ back)))
        ≡ map (λ v. v.fragment) d.verification_methods
          ++ (map (λ s. s.fragment) front ++ (new.fragment ∷ map (λ s. s.fragment) back)) =
      simp map-append in
    record {
      fits =
          with_services-IsDocument d (front ++ (new ∷ back)) healthy.fits
            (omega (arith, same, healthy.few_services))
            (All-append IsService front (new ∷ back) (All-prefix IsService front (x ∷ back) ranges)
              (range, (All-suffix IsService front (x ∷ back) ranges).1));
      governed = healthy.governed;
      unique = subst IsUnique (sym now) (rw (← named) (subst IsUnique old healthy.unique));
      few_methods = healthy.few_methods;
      few_services = omega (arith, same, healthy.few_services);
    }

check_update_inv :
    (d : Document) (new : Service) (r : SvcRef)
    → check_update (doc_view d) new ≡ ok r
    → find_service (doc_view d) new.fragment ≡ some r
unfolding check_update
check_update_inv d new r h =
    let kind_fits : Result (Unit {0}) =
      require (valid_uri_ascii new.service_type max_service_type_len) invalid_service_value in
    let end_fits : Result (Unit {0}) =
      require (valid_uri_ascii new.endpoint max_endpoint_len) invalid_service_value in
    let (svc, found, h₁) =
      ok_or_inv (find_service (doc_view d) new.fragment) (from_did_error service_not_found)
        (λ svc. Error.◌>>◌ kind_fits (Error.◌>>◌ end_fits (ok svc))) r h in
    let (kind, h₂) = then_inv kind_fits (Error.◌>>◌ end_fits (ok svc)) r h₁ in
    let (end, h₃) = then_inv end_fits (ok svc) r h₂ in rw (← ok_injective h₃) found

-- The room that the entry of another service needs, and the edit that uses it.
module _ (d : Document) (front : List Service) (x new : Service) (back : List Service) (r : SvcRef)
    (v : IsDocument d) (e : d.services ≡ front ++ (x ∷ back))
    (r_eq : r ≡ svc_ref (service_start d front) x) where
  abbrev after : Document
  after = with_services d (front ++ (new ∷ back))

  abbrev new_len : ℕ
  new_len =
      (layout d).end
      - r.end
      + (r.start
          + service_space (length new.fragment) (length new.service_type) (length new.endpoint))

  whole_end :
      (layout d).end
      ≡ service_start d front + length (encode_service x) + length (encode_all encode_service back)
  whole_end = ap (λ ss. (layout (with_services d ss)).end) e ∙ services_end d front x back

  r_end : r.end ≡ service_start d front + length (encode_service x)
  r_end = ap (λ q. q.end) r_eq ∙ ap (λ n. service_start d front + n) (sym (length-encode_service x))

  new_size : IsDocument after → new_len ≡ length (encode after)
  new_size fits = omega (
    arith,
    length-encode after fits,
    services_end d front new back,
    whole_end,
    r_end,
    ap (λ q. q.start) r_eq,
    length-encode_service new,
  )

  fills : Fills new_len (replace_entry r.start r.end (layout d).end new) after (encode d)
  fills g enough =
      let same : with_services d (front ++ (x ∷ back)) ≡ d = ap (with_services d) (sym e) in
      let start = service_start d front in
      let (left, room, run) =
        replace_service-encode d front x new back g (subst IsDocument (sym same) v) (
          omega (
            arith,
            enough,
            length-encode d v,
            whole_end,
            r_end,
            ap (λ q. q.start) r_eq,
            length-encode_service new,
          )) in
      (
        left,
        rw (ap (λ q. q.start) r_eq, r_end)
            (subst
              (λ b.
                replace_entry start (start + length (encode_service x)) (layout b).end new
                  (encode b ++ g)
                ≡ ok (encode after ++ left))
              same run),
        omega (
          arith,
          room,
          length-encode d v,
          whole_end,
          r_end,
          ap (λ q. q.start) r_eq,
          length-encode_service new,
        ),
      )

module _ (rt : Runtime) (laws : RuntimeLaws rt) (payer authority a sys : Bytes) (rest : List Bytes)
    (args : Bytes) (s : Store) (d : Document) (r : Unit {0} × Store)
    (are_bytes : (c : Bytes) → All IsByte (s.accounts c).content) (healthy : IsHealthy d)
    (holds : (s.accounts a).content ≡ encode d) where
  pub update_service-Continues :
      All IsByte args
      → UpdateService.process rt (payer ∷ authority ∷ a ∷ sys ∷ rest) args s ≡ ok r
      → MayUpdate rt s d authority (first rest) × Continues r.1 a d
  unfolding UpdateService.process
  update_service-Continues args_bytes h =
      let (subject, h₁) = update_on rt payer authority a sys rest s r _ h in
      let (new, parsed, h₂) = lift_then (parse_args service_args args) _ s r h₁ in
      let (living, may, h₃) =
        authorize_on rt s r authority a (first rest) _ d are_bytes healthy.fits holds h₂ in
      let (svc, checked, h₄) = lift_then (check_update (doc_view d) new) _ s r h₃ in
      let (front, x, back, e, svc_eq, named, first_of) =
        find_service-encode d new.fragment svc healthy.fits (check_update_inv d new svc checked) in
      let n = new_len d front x new back svc healthy.fits e svc_eq in
      let old = (layout d).end in
      let edited = replace_entry svc.start svc.end old new in
      let kept =
        replaced-IsHealthy d front x new back healthy e
          (service_args-IsService args new args_bytes parsed)
          (bytes_eq_sound x.fragment new.fragment named) in
      let then_edit : ℕ → Act (Unit {0}) = λ now. edit a (stamped edited now) >>= λ version.
      when (ltb n old) (shrink rt a payer n) >> emit did_modified a subject version in
      let ((u, t), grown, h₅) =
        >>=-eq-ok (when (ltb old n) (grow rt a payer n) s)
          (λ p. (lift rt.unix_timestamp >>= then_edit) p.1) h₄ in
      let (now, clock, h₆) = lift_then rt.unix_timestamp then_edit t r h₅ in
      let stored : length (s.accounts a).content ≡ old =
        ap length holds ∙ length-encode d healthy.fits in
      (
        may,
        stamped-Continues r.1 a d (with_services d (front ++ (new ∷ back))) kept refl (
            resized-Holds rt laws a payer n did_modified subject edited
              (with_services d (front ++ (new ∷ back))) kept.fits
              (new_size d front x new back svc healthy.fits e svc_eq kept.fits) (ltb old n)
              (ltb n old) now s (u, t) r (laws.clock_range now clock)
              (subst (Fills n edited (with_services d (front ++ (new ∷ back)))) (sym holds)
                (fills d front x new back svc healthy.fits e svc_eq))
              (λ more. omega (arith, stored, ltb→lt old n more)) (grown_enough old n _ stored)
              (grown_exact old n _ stored) grown h₆),
      )
