-- ===== src/Tests/Samples.antt =====
-- A sample document: two signing methods, a service and two controllers.
use bio_did_registry.Base.{ℕ, ◌≡◌, ◌<◌, refl, arith, [], ◌∷◌, All, replicate, zero, suc, ltb, true}
use bio_did_registry.State.Checks.{all}
use bio_did_registry.Bytes.{Bytes, IsByte}
use bio_did_registry.State.Consts.{
  account_discriminator, default_fragment, vm_type_ed25519, vm_flags_default,
  vm_flag_capability_invocation,
}
use bio_did_registry.Document.{VerificationMethod, Service, Document, IsDocument}

pub replicate-IsByte : (n b : ℕ) → b < 256 → All IsByte (replicate n b)
replicate-IsByte zero b h = tt
replicate-IsByte (suc n) b h = (h, replicate-IsByte n b h)

abbrev pub owner : Bytes
owner = replicate 32 7

abbrev pub guardian : Bytes
guardian = replicate 32 9

-- "k1"
abbrev pub second_name : Bytes
second_name = b'k' ∷ b'1' ∷ []

abbrev pub first_method : VerificationMethod
first_method = record {
  fragment = default_fragment;
  method_type = vm_type_ed25519;
  flags = vm_flags_default;
  key = owner;
}

abbrev pub second_method : VerificationMethod
second_method = record {
  fragment = second_name;
  method_type = vm_type_ed25519;
  flags = vm_flag_capability_invocation;
  key = guardian;
}

-- "s1", "T", "a"
abbrev pub service_name : Bytes
service_name = b's' ∷ b'1' ∷ []

abbrev pub sample_service : Service
sample_service = record { fragment = service_name; service_type = b'T' ∷ []; endpoint = b'a' ∷ [] }

-- "did:web:a"
abbrev pub web_controller : Bytes
web_controller = b'd' ∷ b'i' ∷ b'd' ∷ b':' ∷ b'w' ∷ b'e' ∷ b'b' ∷ b':' ∷ b'a' ∷ []

abbrev pub sample : Document
sample = record {
  discriminator = account_discriminator;
  version = 3;
  bump = 254;
  subject = owner;
  deactivated = 0;
  updated_at = 1000;
  native_controllers = guardian ∷ [];
  other_controllers = web_controller ∷ [];
  verification_methods = first_method ∷ second_method ∷ [];
  services = sample_service ∷ [];
}

pub sample-IsDocument : IsDocument sample
sample-IsDocument = record {
  discriminator_len = refl;
  discriminator_bytes = ground arith;
  version_range = omega arith;
  bump_range = omega arith;
  subject_key = (refl, replicate-IsByte 32 7 (omega arith));
  deactivated_range = omega arith;
  updated_at_range = omega arith;
  native_count = omega arith;
  native_keys = ((refl, replicate-IsByte 32 9 (omega arith)), tt);
  other_count = omega arith;
  other_short = ((omega arith, ground arith), tt);
  method_count = omega arith;
  method_ranges = (
    (
      (omega arith, ground arith),
      omega arith,
      omega arith,
      (omega arith, replicate-IsByte 32 7 (omega arith)),
    ),
    (
      (
        (omega arith, ground arith),
        omega arith,
        omega arith,
        (omega arith, replicate-IsByte 32 9 (omega arith)),
      ),
      tt,
    ),
  );
  service_count = omega arith;
  service_ranges =
      (((omega arith, ground arith), (omega arith, ground arith), (omega arith, ground arith)), tt);
}

-- Bytes that pass the test are bytes.
pub all-IsByte : (b : Bytes) → all (λ x. ltb x 256) b ≡ true → All IsByte b
all-IsByte [] h = tt
all-IsByte (x ∷ b) h = ground (arith, all-IsByte b)
