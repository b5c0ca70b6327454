-- ===== src/Rules/Whole/Services.antt =====
-- Whole runs of the instructions on services, over the store
-- (program/src/instructions/add_service.rs and remove_service.rs).
use bio_did_registry.Base.{
  ◌+◌, ◌-◌, ◌≤◌, ◌≡◌, refl, sym, ap, subst, ◌∙◌, Option, none, some, List, [], ◌∷◌, ◌++◌, length,
  length-append, map, append_assoc, arith, All, All-append, All-prefix, All-suffix, replicate,
  length-replicate,
}
use mathlib.Core.List.{map-append}
use bio_did_registry.Error.{ProgramError, Result, ok, ok_or, from_did_error, service_not_found}
use bio_did_registry.Bytes.{Bytes, IsByte}
use bio_did_registry.State.Consts.{service_space}
use bio_did_registry.State.View.{SvcRef, find_service}
use bio_did_registry.Document.{
  Document, Service, IsDocument, IsService, encode, encode_service, layout,
}
use bio_did_registry.Document.Parts.{length-encode}
use bio_did_registry.Document.Entries.{doc_view, svc_ref, length-encode_service}
use bio_did_registry.Document.Lookups.{find_service-encode}
use bio_did_registry.Document.Removal.{
  with_services, with_services-IsDocument, service_start, remove_service-encode,
}
use bio_did_registry.Runtime.{Runtime, Store}
use bio_did_registry.Events.{did_modified}
use bio_did_registry.Instructions.Shared.{first}
use bio_did_registry.Instructions.Args.{parse_args, fragment_args, service_args}
use bio_did_registry.Instructions.RemoveVerificationMethod.{remove_entry}
use bio_did_registry.Instructions.AddService.{check_new_service, append_service}
use bio_did_registry.Instructions.AddService
use bio_did_registry.Instructions.RemoveService
use bio_did_registry.Rules.Authorization.{lift_then}
use bio_did_registry.Rules.Controllers.{MayUpdate}
use bio_did_registry.Rules.Additions.{names, IsUnique, delete-IsUnique}
use bio_did_registry.Rules.Uniqueness.{add_service-keeps_IsUnique}
use bio_did_registry.Rules.Storage.{RuntimeLaws}
use bio_did_registry.Rules.Runs.{update_on, authorize_on}
use bio_did_registry.Rules.Finish.{shrink-Holds, grow-Holds}
use bio_did_registry.Rules.Health.{IsHealthy, Continues, stamped-Continues}
use bio_did_registry.Rules.Whole.Values.{service_args-IsService}
use bio_did_registry.Rules.Whole.Methods.{remove_entry-length}

ok_or-eq-some :
    {A : Type 0} (o : Option A) (e : ProgramError) (a : A) → ok_or o e ≡ ok a → o ≡ some a
ok_or-eq-some none e a h = cc
ok_or-eq-some (some b) e a h = cc

service_names-IsUnique :
    (d : Document) (front : List Service) (x : Service) (back : List Service)
    → IsUnique (names (with_services d (front ++ (x ∷ back))))
    → IsUnique (names (with_services d (front ++ back)))
service_names-IsUnique d front x back u =
    let before = map (λ v. v.fragment) d.verification_methods ++ map (λ s. s.fragment) front in
    let behind = map (λ s. s.fragment) back in
    let whole : names (with_services d (front ++ (x ∷ back))) ≡ before ++ (x.fragment ∷ behind) =
      simp (map-append, append_assoc) in
    let less : names (with_services d (front ++ back)) ≡ before ++ behind =
      simp (map-append, append_assoc) in
    subst IsUnique (sym less) (delete-IsUnique before x.fragment behind (subst IsUnique whole u))

service_removed-IsHealthy :
    (d : Document) (front : List Service) (x : Service) (back : List Service)
    → IsHealthy d
    → d.services ≡ front ++ (x ∷ back)
    → IsHealthy (with_services d (front ++ back))
service_removed-IsHealthy d front x back healthy e =
    let ranges : All IsService (front ++ (x ∷ back)) =
      subst (All IsService) e healthy.fits.service_ranges in
    let fewer : length (front ++ back) ≤ length d.services =
      omega (arith, ap length e, length-append front (x ∷ back), length-append front back) in
    record {
      fits =
          with_services-IsDocument d (front ++ back) healthy.fits
            (omega (arith, fewer, healthy.few_services))
            (All-append IsService front back (All-prefix IsService front (x ∷ back) ranges)
              (All-suffix IsService front (x ∷ back) ranges).1);
      governed = healthy.governed;
      unique =
          service_names-IsUnique d front x back
            (subst (λ ss. IsUnique (names (with_services d ss))) e healthy.unique);
      few_methods = healthy.few_methods;
      few_services = omega (arith, fewer, healthy.few_services);
    }

-- The removal of a service that was found.
found-removed :
    (d : Document) (front : List Service) (x : Service) (back : List Service) (r : SvcRef)
    → IsDocument d
    → d.services ≡ front ++ (x ∷ back)
    → r ≡ svc_ref (service_start d front) x
    → (g : Bytes) × (r.end ≡ r.start + length g)
      × (remove_entry r.start r.end
            (layout d).end
            (layout d).svc_count_pos
            (layout d).svc_count
            (encode d)
          ≡ ok (encode (with_services d (front ++ back)) ++ g))
found-removed d front x back r v e r_eq =
    let same : with_services d (front ++ (x ∷ back)) ≡ d = ap (with_services d) (sym e) in
    let (g, size, run) = remove_service-encode d front x back (subst IsDocument (sym same) v) in
    let start = service_start d front in
    let gone = ok (encode (with_services d (front ++ back)) ++ g) in
    let whole : remove_entry start (start + length (encode_service x)) (layout d).end
          (layout d).svc_count_pos (layout d).svc_count (encode d)
        ≡ gone =
      subst
        (λ b.
          remove_entry start (start + length (encode_service x)) (layout b).end
            (layout b).svc_count_pos (layout b).svc_count (encode b)
          ≡ gone)
        same run in
    rw r_eq (
      g,
      ap (λ n. start + n) (sym (length-encode_service x) ∙ sym size),
      ap
            (λ n.
              remove_entry start (start + n) (layout d).end (layout d).svc_count_pos
                (layout d).svc_count (encode d))
            (sym (length-encode_service x))
          ∙ whole,
    )

module _ (rt : Runtime) (laws : RuntimeLaws rt) (payer authority a sys : Bytes) (rest : List Bytes)
    (args : Bytes) (s : Store) (d : Document) (r : Unit {0} × Store)
    (are_bytes : (c : Bytes) → All IsByte (s.accounts c).content) (healthy : IsHealthy d)
    (holds : (s.accounts a).content ≡ encode d) where
  pub remove_service-Continues :
      RemoveService.process rt (payer ∷ authority ∷ a ∷ sys ∷ rest) args s ≡ ok r
      → MayUpdate rt s d authority (first rest) × Continues r.1 a d
  unfolding RemoveService.process
  remove_service-Continues h =
      let (subject, h₁) = update_on rt payer authority a sys rest s r _ h in
      let (name, parsed, h₂) = lift_then (parse_args fragment_args args) _ s r h₁ in
      let (living, may, h₃) =
        authorize_on rt s r authority a (first rest) _ d are_bytes healthy.fits holds h₂ in
      let look = find_service (doc_view d) name in
      let (svc, looked, h₄) = lift_then (ok_or look (from_did_error service_not_found)) _ s r h₃ in
      let (front, x, back, e, svc_eq, named, first_of) =
        find_service-encode d name svc healthy.fits (ok_or-eq-some look _ svc looked) in
      let (g, end, run) = found-removed d front x back svc healthy.fits e svc_eq in
      let after = with_services d (front ++ back) in
      let y = layout d in
      let removal : Bytes → Result Bytes =
        remove_entry svc.start svc.end y.end y.svc_count_pos y.svc_count in
      let kept = service_removed-IsHealthy d front x back healthy e in
      let size : y.end - (svc.end - svc.start) ≡ length (encode after) = omega (
        arith,
        end,
        remove_entry-length svc.start svc.end y.end y.svc_count_pos y.svc_count (encode d)
            (encode after ++ g) run,
        length-append (encode after) g,
        length-encode d healthy.fits,
      ) in
      (
        may,
        stamped-Continues r.1 a d after kept refl (
            shrink-Holds rt laws a payer did_modified subject removal
              (y.end - (svc.end - svc.start)) after kept.fits s r g (ap removal holds ∙ run) size
              h₄),
      )

  pub add_service-Continues :
      All IsByte args
      → AddService.process rt (payer ∷ authority ∷ a ∷ sys ∷ rest) args s ≡ ok r
      → MayUpdate rt s d authority (first rest) × Continues r.1 a d
  unfolding AddService.process
  add_service-Continues args_bytes h =
      let (subject, h₁) = update_on rt payer authority a sys rest s r _ h in
      let (svc, parsed, h₂) = lift_then (parse_args service_args args) _ s r h₁ in
      let (living, may, h₃) =
        authorize_on rt s r authority a (first rest) _ d are_bytes healthy.fits holds h₂ in
      let (u, checked, h₄) = lift_then (check_new_service (doc_view d) svc) _ s r h₃ in
      let is_service = service_args-IsService args svc args_bytes parsed in
      let entry =
        service_space (length svc.fragment) (length svc.service_type) (length svc.endpoint) in
      let edited = λ (grown : Bytes) (e : length grown ≡ entry).
        add_service-keeps_IsUnique d svc grown healthy.fits healthy.unique is_service e checked in
      let (run, fits, unique, few) = edited (replicate entry 0) (length-replicate entry 0) in
      let stored = length-encode d healthy.fits in
      let after = with_services d (d.services ++ (svc ∷ [])) in
      let kept : IsHealthy after = record {
        fits = fits;
        governed = healthy.governed;
        unique = unique;
        few_methods = healthy.few_methods;
        few_services = few;
      } in
      (
        may,
        stamped-Continues r.1 a d after kept refl (
            grow-Holds rt laws a payer did_modified subject (append_service (layout d) svc)
              ((layout d).end + entry) after fits s r (omega (arith, ap length holds, stored))
              (λ g size.
                ap (λ b. append_service (layout d) svc (b ++ g)) holds
                ∙ (edited g (omega (arith, size, ap length holds, stored))).0)
              h₄),
      )
