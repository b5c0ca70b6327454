-- ===== src/Staging/Creation.antt =====
-- A new key buffer (program/src/instructions/create_key_buffer.rs).
use bio_did_registry.Base.{
  ℕ, ◌≡◌, ◌+◌, ◌-◌, ◌≤◌, refl, sym, ap, ◌∙◌, List, [], ◌∷◌, ◌++◌, length, length-append,
  append_assoc, append-nil, arith, ==_iff, take, drop, take-append-drop, length-take, length-drop,
}
use bio_did_registry.Error.{ok}
use bio_did_registry.Bytes.{Bytes, u16_le, u32_le, to_le_bytes, copy_from_slice}
use bio_did_registry.Bytes.Slices.{copy_next}
use bio_did_registry.State.Consts.{
  key_buffer_discriminator, key_buffer_header, kb_off_fragment, max_fragment_len,
}
use bio_did_registry.State.Checks.{NewMethod}
use bio_did_registry.Document.{encode_all, raw}
use bio_did_registry.Document.Updates.{writes, writes_lem}
use bio_did_registry.Instructions.CreateKeyBuffer.{write_header}
use bio_did_registry.Staging.{Staging, encode}

abbrev header_parts : Bytes → Bytes → ℕ → NewMethod → List Bytes
header_parts did_account signer bump m =
    key_buffer_discriminator
    ∷ did_account
    ∷ signer
    ∷ (bump ∷ [])
    ∷ (m.method_type ∷ [])
    ∷ u16_le m.flags
    ∷ u32_le m.key_len
    ∷ u32_le 0
    ∷ u32_le (length m.fragment)
    ∷ []

-- A buffer for the key of `m` with nothing uploaded.
abbrev pub created : Bytes → Bytes → ℕ → NewMethod → Bytes → Bytes → Staging
created did_account signer bump m padding todo = record {
  discriminator = key_buffer_discriminator;
  did_account = did_account;
  authority = signer;
  bump = bump;
  method_type = m.method_type;
  flags = m.flags;
  fragment = m.fragment;
  padding = padding;
  done = [];
  todo = todo;
}

length-head :
    (did_account signer : Bytes) (bump : ℕ) (m : NewMethod)
    → length did_account ≡ 32
    → length signer ≡ 32
    → length (encode_all raw (header_parts did_account signer bump m)) ≡ kb_off_fragment
unfolding to_le_bytes
length-head did_account signer bump m d_len s_len = omega (
  arith,
  d_len,
  s_len,
  length-append did_account (
      signer
      ++ (encode_all raw (
          (bump ∷ [])
          ∷ (m.method_type ∷ [])
          ∷ u16_le m.flags
          ∷ u32_le m.key_len
          ∷ u32_le 0
          ∷ u32_le (length m.fragment)
          ∷ []))),
  length-append signer (
      encode_all raw (
        (bump ∷ [])
        ∷ (m.method_type ∷ [])
        ∷ u16_le m.flags
        ∷ u32_le m.key_len
        ∷ u32_le 0
        ∷ u32_le (length m.fragment)
        ∷ [])),
)

write_header-writes :
    (did_account signer : Bytes) (bump : ℕ) (m : NewMethod) (bytes : Bytes)
    → length did_account ≡ 32
    → length signer ≡ 32
    → length bytes ≡ key_buffer_header + m.key_len
    → writes 0
        (header_parts did_account signer bump m)
        bytes
        (copy_from_slice kb_off_fragment m.fragment)
      ≡ write_header did_account signer bump m bytes
unfolding write_header to_le_bytes copy_from_slice
write_header-writes did_account signer bump m bytes d_len s_len b_len =
    rw (d_len, s_len, (==_iff (length bytes) (key_buffer_header + m.key_len)).1 b_len) refl

created-encode :
    (did_account signer : Bytes) (bump : ℕ) (m : NewMethod) (padding todo : Bytes)
    → length todo ≡ m.key_len
    → (encode_all raw (header_parts did_account signer bump m) ++ m.fragment) ++ (padding ++ todo)
      ≡ encode (created did_account signer bump m padding todo)
unfolding encode
created-encode did_account signer bump m padding todo e =
    let total : 0 + length todo ≡ m.key_len = omega (arith, e) in
    rw total (simp (append_assoc, append-nil))

-- Over an account of the header's size and the key's, whatever its bytes, and with addresses of
-- 32 bytes and a name of at most 32, `write_header` leaves the encoding of a buffer for that
-- method with nothing uploaded and room for the whole key.
pub write_header-encode :
    (did_account signer : Bytes) (bump : ℕ) (m : NewMethod) (bytes : Bytes)
    → length did_account ≡ 32
    → length signer ≡ 32
    → length m.fragment ≤ max_fragment_len
    → length bytes ≡ key_buffer_header + m.key_len
    → (padding : Bytes) × (todo : Bytes) × (length m.fragment + length padding ≡ max_fragment_len)
      × (length todo ≡ m.key_len)
      × (write_header did_account signer bump m bytes
          ≡ ok (encode (created did_account signer bump m padding todo)))
unfolding encode
write_header-encode did_account signer bump m bytes d_len s_len f_len b_len =
    let parts = header_parts did_account signer bump m in
    let head = encode_all raw parts in
    let size : length head ≡ kb_off_fragment = length-head did_account signer bump m d_len s_len in
    let rest : Bytes = drop (length head) bytes in
    let rest_len = length-drop (length head) bytes in
    let room : Bytes = drop (length m.fragment) rest in
    let room_len = length-drop (length m.fragment) rest in
    let spare = max_fragment_len - length m.fragment in
    let padding : Bytes = take spare room in
    let todo : Bytes = drop spare room in
    let todo_len : length todo ≡ m.key_len =
      omega (arith, length-drop spare room, room_len, rest_len, size, b_len, f_len) in
    (
      padding,
      todo,
      omega (
        arith,
        length-take spare room (omega (arith, room_len, rest_len, size, b_len, f_len)),
        f_len,
      ),
      todo_len,
      sym (write_header-writes did_account signer bump m bytes d_len s_len b_len)
          ∙ (writes_lem parts 0 [] bytes (copy_from_slice kb_off_fragment m.fragment) refl
                (omega (arith, size, b_len))
              ∙ (copy_next kb_off_fragment m.fragment head rest (sym size)
                    (omega (arith, rest_len, size, b_len, f_len))
                  ∙ ap ok (
                      ap (λ t. (head ++ m.fragment) ++ t) (sym (take-append-drop spare room))
                      ∙ created-encode did_account signer bump m padding todo todo_len))),
    )
