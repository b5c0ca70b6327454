-- ===== src/Document/Entries/Reads.antt =====
-- The reads of the entries (program/src/state.rs, `VmIter::next` and `SvcIter::next`).
use bio_did_registry.Base.{
  ℕ, ◌+◌, ◌-◌, ◌<◌, ◌≡◌, List, [], ◌∷◌, ◌++◌, arith, length, length-append, append_assoc,
}
use bio_did_registry.Error.{ok}
use bio_did_registry.Bytes.{Bytes, to_le_bytes, u16_le, u32_le}
use bio_did_registry.Reader.{account}
use bio_did_registry.Reader.Laws.{
  cursor, u8_lem, uint_lem, len_prefixed_lem, prefixed, length-to_le_bytes,
}
use bio_did_registry.State.Consts.{vm_space, service_space}
use bio_did_registry.State.View.{VmRef, SvcRef, read_vm, read_service}
use bio_did_registry.Document.{
  VerificationMethod, Service, encode_vm, encode_service, IsVm, IsService,
}
use bio_did_registry.Document.Decode.{length-u32}

-- The entry of `v` that starts at `pos`.
abbrev pub vm_ref : ℕ → VerificationMethod → VmRef
vm_ref pos v = record {
  fragment = v.fragment;
  method_type = v.method_type;
  flags = v.flags;
  key = v.key;
  start = pos;
  end = pos + vm_space (length v.fragment) (length v.key);
  flags_pos = pos + 4 + length v.fragment + 1;
}

abbrev pub svc_ref : ℕ → Service → SvcRef
svc_ref pos v = record {
  fragment = v.fragment;
  start = pos;
  end = pos + service_space (length v.fragment) (length v.service_type) (length v.endpoint);
}

-- The entries of a list that is encoded from `pos` on.
unfoldable pub refs : {A R : Type 0} → (ℕ → A → R) → (A → Bytes) → ℕ → List A → List R
refs ref enc pos [] = []
refs ref enc pos (x ∷ xs) = ref pos x ∷ refs ref enc (pos + length (enc x)) xs

pub length-encode_vm :
    (v : VerificationMethod) → length (encode_vm v) ≡ vm_space (length v.fragment) (length v.key)
unfolding to_le_bytes
length-encode_vm v = omega (
  arith,
  length-append v.fragment (v.method_type ∷ u16_le v.flags ++ (u32_le (length v.key) ++ v.key)),
)

pub length-encode_service :
    (v : Service)
    → length (encode_service v)
      ≡ service_space (length v.fragment) (length v.service_type) (length v.endpoint)
unfolding to_le_bytes
length-encode_service v = omega (
  arith,
  length-append v.fragment (prefixed v.service_type ++ prefixed v.endpoint),
  length-append v.service_type (prefixed v.endpoint),
)

-- Reading a method that was written: its fields, where it starts and ends, and where its flags are.
read_vm_lem :
    (len : ℕ) (v : VerificationMethod) (b : Bytes)
    → IsVm v
    → read_vm (cursor account len (encode_vm v ++ b))
      ≡ ok (
        record {
          fragment = v.fragment;
          method_type = v.method_type;
          flags = v.flags;
          key = v.key;
          start = len - length (encode_vm v ++ b);
          end = len - length b;
          flags_pos = len - length (u16_le v.flags ++ (u32_le (length v.key) ++ (v.key ++ b)));
        },
        cursor account len b,
      )
unfolding read_vm
read_vm_lem len v b h = simp append_assoc (
    rw (len_prefixed_lem account len v.fragment _ h.0.0) (
      rw (u8_lem account len v.method_type _) (
        rw (uint_lem account len 2 v.flags _ h.2)
          (rw (len_prefixed_lem account len v.key b h.3.0)))))

read_service_lem :
    (len : ℕ) (v : Service) (b : Bytes)
    → IsService v
    → read_service (cursor account len (encode_service v ++ b))
      ≡ ok (
        record {
          fragment = v.fragment;
          start = len - length (encode_service v ++ b);
          end = len - length b;
        },
        cursor account len b,
      )
unfolding read_service
read_service_lem len v b h = simp append_assoc (
    rw (len_prefixed_lem account len v.fragment _ h.0.0) (
      rw (len_prefixed_lem account len v.service_type _ h.1.0)
        (rw (len_prefixed_lem account len v.endpoint b h.2.0))))

pub encode_vm-pos : (v : VerificationMethod) → 0 < length (encode_vm v)
encode_vm-pos v = omega (arith, length-encode_vm v)

pub encode_service-pos : (v : Service) → 0 < length (encode_service v)
encode_service-pos v = omega (arith, length-encode_service v)

pub read_vm_at :
    (len pos : ℕ) (v : VerificationMethod) (b : Bytes)
    → IsVm v
    → pos + length (encode_vm v ++ b) ≡ len
    → read_vm (cursor account len (encode_vm v ++ b)) ≡ ok (vm_ref pos v, cursor account len b)
read_vm_at len pos v b h e = rw (read_vm_lem len v b h) (
    ground (
      arith,
      length-append (encode_vm v) b,
      length-encode_vm v,
      length-append (u16_le v.flags) (u32_le (length v.key) ++ (v.key ++ b)),
      length-to_le_bytes 2 v.flags,
      length-u32 (length v.key) (v.key ++ b),
      length-append v.key b,
    ))

pub read_service_at :
    (len pos : ℕ) (v : Service) (b : Bytes)
    → IsService v
    → pos + length (encode_service v ++ b) ≡ len
    → read_service (cursor account len (encode_service v ++ b))
      ≡ ok (svc_ref pos v, cursor account len b)
read_service_at len pos v b h e =
    rw (read_service_lem len v b h)
      (ground (arith, length-append (encode_service v) b, length-encode_service v))
