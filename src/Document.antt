-- ===== src/Document.antt =====
-- The document that a `DidAccount` stores, as data, and its layout in bytes (the table at the head
-- of program/src/state.rs). This is the specification that the byte-level code is measured by.
pub mod Decode
pub mod Sound
pub mod Parts
pub mod Entries
pub mod Deprecated
pub mod Lookups
pub mod Updates
pub mod Stamp
pub mod Removal
pub mod Services
pub mod Controllers
pub mod Lifecycle
use bio_did_registry.Base.{ℕ, ◌+◌, ◌*◌, ◌^◌, ◌≤◌, ◌<◌, ◌≡◌, List, [], ◌∷◌, ◌++◌, length, All}
use bio_did_registry.Bytes.{Bytes, IsByte, u16_le, u32_le, u64_le}
use bio_did_registry.Reader.Laws.{prefixed, IsShort}
use bio_did_registry.State.Consts.{off_sections}
use bio_did_registry.State.Sections.{Sections}

pub record VerificationMethod : Type 0 where
  pub fragment : Bytes
  pub method_type : ℕ
  pub flags : ℕ
  pub key : Bytes

pub record Service : Type 0 where
  pub fragment : Bytes
  pub service_type : Bytes
  pub endpoint : Bytes

-- `updated_at` is the bit pattern of the `i64`.
pub record Document : Type 0 where
  pub discriminator : Bytes
  pub version : ℕ
  pub bump : ℕ
  pub subject : Bytes
  pub deactivated : ℕ
  pub updated_at : ℕ
  pub native_controllers : List Bytes
  pub other_controllers : List Bytes
  pub verification_methods : List VerificationMethod
  pub services : List Service

abbrev pub encode_vm : VerificationMethod → Bytes
encode_vm v =
    u32_le (length v.fragment)
    ++ (v.fragment ++ (v.method_type ∷ u16_le v.flags ++ (u32_le (length v.key) ++ v.key)))

abbrev pub encode_service : Service → Bytes
encode_service s = prefixed s.fragment ++ (prefixed s.service_type ++ prefixed s.endpoint)

abbrev pub encode_all : {A : Type 0} → (A → Bytes) → List A → Bytes
encode_all enc [] = []
encode_all enc (x ∷ xs) = enc x ++ encode_all enc xs

abbrev pub raw : Bytes → Bytes
raw b = b

abbrev pub encode_header : Document → Bytes
encode_header d =
    d.discriminator
    ++ (u64_le d.version ++ (d.bump ∷ d.subject ++ (d.deactivated ∷ u64_le d.updated_at)))

-- The bytes from the count of each section on.
abbrev pub from_services : Document → Bytes
from_services d = u32_le (length d.services) ++ encode_all encode_service d.services

abbrev pub from_methods : Document → Bytes
from_methods d =
    u32_le (length d.verification_methods)
    ++ (encode_all encode_vm d.verification_methods ++ from_services d)

abbrev pub from_others : Document → Bytes
from_others d =
    u32_le (length d.other_controllers)
    ++ (encode_all prefixed d.other_controllers ++ from_methods d)

abbrev pub encode_sections : Document → Bytes
encode_sections d =
    u32_le (length d.native_controllers) ++ (encode_all raw d.native_controllers ++ from_others d)

unfoldable pub encode : Document → Bytes
encode d = encode_header d ++ encode_sections d

abbrev pub IsVm : VerificationMethod → Type 0
IsVm v = IsShort v.fragment × IsByte v.method_type × (v.flags < 2 ^ 16) × IsShort v.key

abbrev pub IsService : Service → Type 0
IsService s = IsShort s.fragment × IsShort s.service_type × IsShort s.endpoint

abbrev pub IsKey : Bytes → Type 0
IsKey k = (length k ≡ 32) × All IsByte k

-- Every field fits its place in the layout.
pub record IsDocument (d : Document) : Type 0 where
  pub discriminator_len : length d.discriminator ≡ 8
  pub discriminator_bytes : All IsByte d.discriminator
  pub version_range : d.version < 2 ^ 64
  pub bump_range : IsByte d.bump
  pub subject_key : IsKey d.subject
  pub deactivated_range : IsByte d.deactivated
  pub updated_at_range : d.updated_at < 2 ^ 64
  pub native_count : length d.native_controllers < 2 ^ 32
  pub native_keys : All IsKey d.native_controllers
  pub other_count : length d.other_controllers < 2 ^ 32
  pub other_short : All IsShort d.other_controllers
  pub method_count : length d.verification_methods < 2 ^ 32
  pub method_ranges : All IsVm d.verification_methods
  pub service_count : length d.services < 2 ^ 32
  pub service_ranges : All IsService d.services

-- Where the sections of an encoded document stand.
abbrev pub layout : Document → Sections
layout d =
    let oc = off_sections + 4 + length (encode_all raw d.native_controllers) in
    let vm = oc + 4 + length (encode_all prefixed d.other_controllers) in
    let svc = vm + 4 + length (encode_all encode_vm d.verification_methods) in
    record {
      nc_count = length d.native_controllers;
      nc_items = off_sections + 4;
      oc_count = length d.other_controllers;
      oc_count_pos = oc;
      oc_items = oc + 4;
      vm_count = length d.verification_methods;
      vm_count_pos = vm;
      vm_items = vm + 4;
      svc_count = length d.services;
      svc_count_pos = svc;
      svc_items = svc + 4;
      end = svc + 4 + length (encode_all encode_service d.services);
    }
