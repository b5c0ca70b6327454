-- ===== src/Document/Sound/Walk.antt =====
-- What a successful walk over the sections says of the bytes (program/src/state.rs, `Sections::parse`).
use bio_did_registry.Base.{ℕ, ◌-◌, ◌^◌, ◌<◌, ◌≡◌, List, [], ◌++◌, length, All, append-nil}
use bio_did_registry.Error.{ok, >>=-eq-ok}
use bio_did_registry.Bytes.{Bytes, IsByte, u32_le}
use bio_did_registry.Reader.{account, Reader, Reading, ◌>>=◌, ◌>>◌, pure, here, u32, finish}
use bio_did_registry.Reader.Laws.{cursor, prefixed, IsShort}
use bio_did_registry.State.Sections.{Sections, repeat, skip_controller, skip_vm, skip_service, walk}
use bio_did_registry.Document.{
  VerificationMethod, Service, Document, encode_vm, encode_service, encode_all, raw,
  encode_sections, IsVm, IsService, IsKey,
}
use bio_did_registry.Document.Sound.Entries.{skip_controller_inv, skip_vm_inv, skip_service_inv}
use bio_did_registry.Reader.Laws.{finish_inv}
use bio_did_registry.Document.Sound.Lists.{section_inv, natives_inv}

-- The sections of a document, as the walk accepts them behind the header of `d`.
abbrev pub with_sections :
    Document → List Bytes → List Bytes → List VerificationMethod → List Service → Document
with_sections d ns os vs ss = record d {
  native_controllers = ns;
  other_controllers = os;
  verification_methods = vs;
  services = ss;
}

pub record FitSections (d : Document) : Type 0 where
  pub native_count : length d.native_controllers < 2 ^ 32
  pub native_keys : All IsKey d.native_controllers
  pub other_count : length d.other_controllers < 2 ^ 32
  pub other_short : All IsShort d.other_controllers
  pub method_count : length d.verification_methods < 2 ^ 32
  pub method_ranges : All IsVm d.verification_methods
  pub service_count : length d.services < 2 ^ 32
  pub service_ranges : All IsService d.services

pub join_sections :
    (d : Document) (rest b₁ b₂ b₃ b₄ : Bytes)
    → rest ≡ u32_le (length d.native_controllers) ++ (encode_all raw d.native_controllers ++ b₁)
    → b₁ ≡ u32_le (length d.other_controllers) ++ (encode_all prefixed d.other_controllers ++ b₂)
    → b₂
      ≡ u32_le (length d.verification_methods)
        ++ (encode_all encode_vm d.verification_methods ++ b₃)
    → b₃ ≡ u32_le (length d.services) ++ (encode_all encode_service d.services ++ b₄)
    → b₄ ≡ []
    → rest ≡ encode_sections d
join_sections d rest b₁ b₂ b₃ b₄ p q f g e =
    rw (p, q, f, g, e, append-nil (encode_all encode_service d.services))

-- What is left of the walk behind each section, over the offsets noted before.
abbrev pub after_services : (nc ni oc op oi vc vp vi sp : ℕ) → ℕ → ℕ → Reading Sections
after_services nc ni oc op oi vc vp vi sp sc si = do
  end ← here
  finish
  pure (record {
    nc_count = nc;
    nc_items = ni;
    oc_count = oc;
    oc_count_pos = op;
    oc_items = oi;
    vm_count = vc;
    vm_count_pos = vp;
    vm_items = vi;
    svc_count = sc;
    svc_count_pos = sp;
    svc_items = si;
    end = end;
  })

abbrev pub after_methods : (nc ni oc op oi vp : ℕ) → ℕ → ℕ → Reading Sections
after_methods nc ni oc op oi vp vc vi = do
  sp ← here
  sc ← u32
  si ← here
  repeat sc skip_service
  after_services nc ni oc op oi vc vp vi sp sc si

abbrev pub after_others : (nc ni op : ℕ) → ℕ → ℕ → Reading Sections
after_others nc ni op oc oi = do
  vp ← here
  vc ← u32
  vi ← here
  repeat vc skip_vm
  after_methods nc ni oc op oi vp vc vi

abbrev pub after_natives : ℕ → ℕ → Reading Sections
after_natives nc ni = do
  op ← here
  oc ← u32
  oi ← here
  repeat oc skip_controller
  after_others nc ni op oc oi

pub walk_inv :
    (d : Document) (len : ℕ) (rest : Bytes) (y : Sections) (r : Reader)
    → All IsByte rest
    → walk (cursor account len rest) ≡ ok (y, r)
    → (ns : List Bytes) × (os : List Bytes) × (vs : List VerificationMethod) × (ss : List Service)
      × FitSections (with_sections d ns os vs ss)
      × (rest ≡ encode_sections (with_sections d ns os vs ss))
unfolding walk
walk_inv d len rest y r are_bytes h =
    let (ns, b₁, p, n_small, n_fit, back₁, h₁) =
      natives_inv account len after_natives rest y r are_bytes h in
    let nc = length ns in
    let ni = len - length (encode_all raw ns ++ b₁) in
    let op = len - length b₁ in
    let (os, b₂, q, o_small, o_fit, back₂, h₂) =
      section_inv prefixed IsShort skip_controller account len (after_others nc ni op) b₁ y r
        (skip_controller_inv account len) back₁ h₁ in
    let oc = length os in
    let oi = len - length (encode_all prefixed os ++ b₂) in
    let vp = len - length b₂ in
    let (vs, b₃, f, v_small, v_fit, back₃, h₃) =
      section_inv encode_vm IsVm skip_vm account len (after_methods nc ni oc op oi vp) b₂ y r
        (skip_vm_inv account len) back₂ h₂ in
    let vc = length vs in
    let vi = len - length (encode_all encode_vm vs ++ b₃) in
    let (ss, b₄, g, s_small, s_fit, back₄, h₄) =
      section_inv encode_service IsService skip_service account len
        (after_services nc ni oc op oi vc vp vi (len - length b₃)) b₃ y r
        (skip_service_inv account len) back₃ h₃ in
    let ((_, t), e, _) = >>=-eq-ok (finish (cursor account len b₄)) _ h₄ in
    (
      ns,
      os,
      vs,
      ss,
      record {
        native_count = n_small;
        native_keys = n_fit;
        other_count = o_small;
        other_short = o_fit;
        method_count = v_small;
        method_ranges = v_fit;
        service_count = s_small;
        service_ranges = s_fit;
      },
      join_sections (with_sections d ns os vs ss) rest b₁ b₂ b₃ b₄ p q f g
          (finish_inv account len b₄ t e),
    )
