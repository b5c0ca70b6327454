-- ===== src/Document/Sound.antt =====
-- What `Sections::parse` accepts (program/src/state.rs).
mod Entries
mod Lists
mod Walk
mod Header
use bio_did_registry.Base.{
  ℕ, zero, suc, ◌+◌, ◌-◌, ◌*◌, ◌^◌, ◌<◌, ◌≤◌, ◌≡◌, refl, sym, ap, ◌∙◌, List, [], ◌∷◌, ◌++◌, arith,
  length, All, append_assoc, append-nil, take, drop, take-append-drop, length-take, length-drop,
  All-prefix, All-suffix,
}
use mathlib.Core.Path.{subst, ap₂}
use bio_did_registry.Error.{Result, ok, >>=-eq-ok, ok_injective}
use bio_did_registry.Error
use bio_did_registry.Document.Decode.{parse-encode}
use bio_did_registry.Bytes.{Bytes, IsByte, from_le_bytes, u16_le, u32_le, u64_le}
use bio_did_registry.Reader.{
  Source, account, Reader, Reading, at, ◌>>=◌, ◌>>◌, pure, here, bytes, u32, len_prefixed, finish,
}
use bio_did_registry.Reader.Laws.{
  cursor, bytes_inv, u32_inv, len_prefixed_inv, prefixed, IsShort, bind_inv, to-from_le_bytes,
  from_le_bytes-lt,
}
use bio_did_registry.State.Consts.{off_sections}
use bio_did_registry.State.Sections.{
  Sections, repeat, skip_controller, skip_vm, skip_service, walk, parse,
}
use bio_did_registry.Document.{
  VerificationMethod, Service, Document, encode_vm, encode_service, encode_all, raw, encode_header,
  encode_sections, encode, IsVm, IsService, IsKey, IsDocument, layout,
}
use bio_did_registry.Document.Sound.Walk.{
  FitSections, with_sections, join_sections, after_services, after_methods, after_others,
  after_natives, walk_inv,
}
use bio_did_registry.Document.Sound.Header.{
  FitHeader, cut, u64_bytes, join_header, singleton-IsByte, split_header,
}
use bio_did_registry.Document.Sound.Entries.{
  Consumes, Consumes-along, repeat_inv, skip_controller_inv, three_bytes, join_vm, join_service,
  skip_vm_inv, skip_service_inv,
}
use bio_did_registry.Reader.Laws.{finish_inv}
use bio_did_registry.Document.Sound.Lists.{split_keys, section_inv, natives_inv}

pub at_inv :
    (s : Source) (n : ℕ) (a : Bytes) (r : Reader)
    → at s a n ≡ ok r
    → (n ≤ length a) × (r ≡ cursor s (length a) (drop n a))
unfolding at
at_inv s n a r h = ground arith

fit_document :
    (d : Document) (ns os : List Bytes) (vs : List VerificationMethod) (ss : List Service)
    → FitHeader d
    → FitSections (with_sections d ns os vs ss)
    → IsDocument (with_sections d ns os vs ss)
fit_document d ns os vs ss head fit = record {
  discriminator_len = head.discriminator_len;
  discriminator_bytes = head.discriminator_bytes;
  version_range = head.version_range;
  bump_range = head.bump_range;
  subject_key = head.subject_key;
  deactivated_range = head.deactivated_range;
  updated_at_range = head.updated_at_range;
  native_count = fit.native_count;
  native_keys = fit.native_keys;
  other_count = fit.other_count;
  other_short = fit.other_short;
  method_count = fit.method_count;
  method_ranges = fit.method_ranges;
  service_count = fit.service_count;
  service_ranges = fit.service_ranges;
}

-- The layout follows once the document is known.
located :
    (a : Bytes) (y : Sections) (d : Document)
    → IsDocument d
    → a ≡ encode d
    → parse a ≡ ok y
    → (d : Document) × IsDocument d × (a ≡ encode d) × (y ≡ layout d)
located a y d fits e h = (d, fits, e, ok_injective (sym h ∙ (ap parse e ∙ parse-encode d fits)))

-- Where `Sections::parse` accepts bytes, they are the encoding of a document whose fields fit the
-- layout, and the offsets that it returns are those of that document's layout.
pub parse_sound :
    (a : Bytes) (y : Sections)
    → All IsByte a
    → parse a ≡ ok y
    → (d : Document) × IsDocument d × (a ≡ encode d) × (y ≡ layout d)
unfolding parse encode
parse_sound a y are_bytes h =
    let (r, e, g) =
      >>=-eq-ok (at account a off_sections) (λ r. Error.◌>>=◌ (walk r) (λ p. ok p.0)) h in
    let (long, r_eq) = at_inv account off_sections a r e in
    let ((y', t), e', g') = >>=-eq-ok (walk r) (λ p. ok p.0) g in
    let whole : All IsByte (take off_sections a ++ drop off_sections a) =
      subst (All IsByte) (sym (take-append-drop off_sections a)) are_bytes in
    let (h₀, fit₀, front) =
      split_header (take off_sections a) (length-take off_sections a long)
        (All-prefix IsByte (take off_sections a) (drop off_sections a) whole) in
    let (ns, os, vs, ss, fit, back) =
      walk_inv h₀ (length a) (drop off_sections a) y' t
        (All-suffix IsByte (take off_sections a) (drop off_sections a) whole) (rw r_eq at e') in
    let a_eq : a ≡ encode (with_sections h₀ ns os vs ss) =
      sym (take-append-drop off_sections a) ∙ ap₂ (λ b c. b ++ c) front back in
    located a y (with_sections h₀ ns os vs ss) (fit_document h₀ ns os vs ss fit₀ fit) a_eq h
