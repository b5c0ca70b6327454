-- ===== src/Client/Arguments.antt =====
-- The argument readers of the handlers on arguments as the builders write them
-- (program/src/client.rs, program/src/reader.rs).
use bio_did_registry.Base.{
  ℕ, ◌-◌, ◌≡◌, ◌<◌, ◌^◌, refl, ap, true, List, [], ◌∷◌, ◌++◌, append-nil, append_assoc, length,
  arith, All,
}
use bio_did_registry.Error.{Result, ok}
use bio_did_registry.Bytes.{Bytes, u16_le, u32_le}
use bio_did_registry.Utf8.{from_utf8}
use bio_did_registry.Reader
use bio_did_registry.Reader.{Reading}
use bio_did_registry.Reader.Laws.{
  cursor, prefixed, bytes_lem, u8_lem, u32_lem, uint_lem, len_prefixed_lem,
}
use bio_did_registry.State.Checks.{NewMethod}
use bio_did_registry.Document.{VerificationMethod, Service, raw, encode_all, encode_vm}
use bio_did_registry.Instructions.Args.{
  parse_args, method_args, service_args, fragment_args, flags_args, buffer_args, chunk_args,
}
use bio_did_registry.Instructions.SetControllers.{Controllers, read_list, controller_args}

-- The bytes of a `&str` that a length of four bytes can measure.
abbrev pub IsText : Bytes → Type 0
IsText b = (length b < 2 ^ 32) × (from_utf8 b ≡ true)

str_lem :
    (len : ℕ) (a b : Bytes)
    → IsText a
    → Reader.str (cursor Reader.args len (u32_le (length a) ++ (a ++ b)))
      ≡ ok (a, cursor Reader.args len b)
unfolding Reader.str
str_lem len a b h = rw (len_prefixed_lem Reader.args len a b h.0) (rw h.1 refl)

-- The last field, with nothing behind it.
str_end :
    (len : ℕ) (a : Bytes)
    → IsText a
    → Reader.str (cursor Reader.args len (u32_le (length a) ++ a))
      ≡ ok (a, cursor Reader.args len [])
str_end len a h = rw append-nil at (str_lem len a [] h)

len_prefixed_end :
    (len : ℕ) (a : Bytes)
    → length a < 2 ^ 32
    → Reader.len_prefixed (cursor Reader.args len (u32_le (length a) ++ a))
      ≡ ok (a, cursor Reader.args len [])
len_prefixed_end len a h = rw append-nil at (len_prefixed_lem Reader.args len a [] h)

u16_end :
    (len v : ℕ)
    → v < 2 ^ 16
    → Reader.u16 (cursor Reader.args len (u16_le v)) ≡ ok (v, cursor Reader.args len [])
u16_end len v h = rw append-nil at (uint_lem Reader.args len 2 v [] h)

u32_end :
    (len v : ℕ)
    → v < 2 ^ 32
    → Reader.u32 (cursor Reader.args len (u32_le v)) ≡ ok (v, cursor Reader.args len [])
u32_end len v h = rw append-nil at (u32_lem Reader.args len v [] h)

pub method_args_lem :
    (m : VerificationMethod)
    → IsText m.fragment
    → m.flags < 2 ^ 16
    → length m.key < 2 ^ 32
    → parse_args method_args (encode_vm m) ≡ ok m
unfolding method_args Reader.finish
method_args_lem m text small short =
    let len = length (encode_vm m) in
    let key = prefixed m.key in
    rw (str_lem len m.fragment (m.method_type ∷ u16_le m.flags ++ key) text) (
      rw (u8_lem Reader.args len m.method_type (u16_le m.flags ++ key)) (
        rw (uint_lem Reader.args len 2 m.flags key small)
          (rw (len_prefixed_end len m.key short) refl)))

-- The three texts of a service, each behind its length.
abbrev pub service_bytes : Service → Bytes
service_bytes s =
    u32_le (length s.fragment)
    ++ (s.fragment ++ (u32_le (length s.service_type) ++ (s.service_type ++ prefixed s.endpoint)))

pub service_args_lem :
    (s : Service)
    → IsText s.fragment
    → IsText s.service_type
    → IsText s.endpoint
    → parse_args service_args (service_bytes s) ≡ ok s
unfolding service_args Reader.finish
service_args_lem s named typed ends =
    let rest = u32_le (length s.service_type) ++ (s.service_type ++ prefixed s.endpoint) in
    let len = length (service_bytes s) in
    rw (str_lem len s.fragment rest named) (
      rw (str_lem len s.service_type (prefixed s.endpoint) typed)
        (rw (str_end len s.endpoint ends) refl))

pub fragment_args_lem :
    (name : Bytes) → IsText name → parse_args fragment_args (prefixed name) ≡ ok name
unfolding fragment_args Reader.finish
fragment_args_lem name text = rw (str_end (length (prefixed name)) name text) refl

pub flags_args_lem :
    (name : Bytes) (flags : ℕ)
    → IsText name
    → flags < 2 ^ 16
    → parse_args flags_args (u32_le (length name) ++ (name ++ u16_le flags)) ≡ ok (name, flags)
unfolding flags_args Reader.finish
flags_args_lem name flags text small =
    let len = length (u32_le (length name) ++ (name ++ u16_le flags)) in
    rw (str_lem len name (u16_le flags) text) (rw (u16_end len flags small) refl)

pub buffer_args_lem :
    (m : NewMethod)
    → IsText m.fragment
    → m.flags < 2 ^ 16
    → m.key_len < 2 ^ 32
    → parse_args buffer_args (
        u32_le (length m.fragment)
        ++ (m.fragment ++ (m.method_type ∷ u16_le m.flags ++ u32_le m.key_len)))
      ≡ ok m
unfolding buffer_args Reader.finish
buffer_args_lem m text small short =
    let rest = m.method_type ∷ u16_le m.flags ++ u32_le m.key_len in
    let len = length (u32_le (length m.fragment) ++ (m.fragment ++ rest)) in
    rw (str_lem len m.fragment rest text) (
      rw (u8_lem Reader.args len m.method_type (u16_le m.flags ++ u32_le m.key_len)) (
        rw (uint_lem Reader.args len 2 m.flags (u32_le m.key_len) small)
          (rw (u32_end len m.key_len short) refl)))

pub chunk_args_lem :
    (offset : ℕ) (chunk : Bytes)
    → offset < 2 ^ 32
    → length chunk < 2 ^ 32
    → parse_args chunk_args (u32_le offset ++ prefixed chunk) ≡ ok (offset, chunk)
unfolding chunk_args Reader.finish
chunk_args_lem offset chunk small short =
    let len = length (u32_le offset ++ prefixed chunk) in
    rw (u32_lem Reader.args len offset (prefixed chunk) small)
      (rw (len_prefixed_end len chunk short) refl)

-- A list is read back item by item.
read_list_lem :
    (P : Bytes → Type 0) (item : Reading Bytes) (enc : Bytes → Bytes) (len : ℕ)
    → ((x b : Bytes)
        → P x
        → item (cursor Reader.args len (enc x ++ b)) ≡ ok (x, cursor Reader.args len b))
    → (xs : List Bytes) (b : Bytes) → All P xs
    → read_list (length xs) item (cursor Reader.args len (encode_all enc xs ++ b))
      ≡ ok (xs, cursor Reader.args len b)
unfolding read_list
read_list_lem P item enc len one [] b all = refl
read_list_lem P item enc len one (x ∷ xs) b all = rw (append_assoc (enc x) (encode_all enc xs) b) (
    rw (one x (encode_all enc xs ++ b) all.0)
      (rw (read_list_lem P item enc len one xs b all.1) refl))

-- The last list, with nothing behind it.
read_list_end :
    (len : ℕ) (xs : List Bytes)
    → All IsText xs
    → read_list (length xs) Reader.str (cursor Reader.args len (encode_all prefixed xs))
      ≡ ok (xs, cursor Reader.args len [])
read_list_end len xs texts = rw append-nil at (
    read_list_lem IsText Reader.str prefixed len
      (λ x b text. rw (append_assoc (u32_le (length x)) x b) (str_lem len x b text)) xs [] texts)

-- The 32 bytes of an address.
abbrev pub IsAddress : Bytes → Type 0
IsAddress b = 32 ≡ length b

-- The controller lists as `set_controllers` puts them on the wire, and as an account stores them.
abbrev pub controller_bytes : List Bytes → List Bytes → Bytes
controller_bytes natives others =
    u32_le (length natives)
    ++ (encode_all raw natives ++ (u32_le (length others) ++ encode_all prefixed others))

pub controller_args_lem :
    (natives others : List Bytes)
    → length natives < 2 ^ 32
    → All IsAddress natives
    → length others < 2 ^ 32
    → All IsText others
    → parse_args controller_args (controller_bytes natives others)
      ≡ ok (record {
        natives = natives;
        others = others;
        sections_len = length (controller_bytes natives others);
      })
unfolding controller_args Reader.finish
controller_args_lem natives others few addresses few' texts =
    let len = length (controller_bytes natives others) in
    let back = u32_le (length others) ++ encode_all prefixed others in
    let result : ℕ → Result Controllers =
      λ n. ok (record { natives = natives; others = others; sections_len = n }) in
    let whole : len - 0 ≡ len = omega arith in
    rw (u32_lem Reader.args len (length natives) (encode_all raw natives ++ back) few) (
      rw
        (read_list_lem IsAddress (Reader.bytes 32) raw len
          (λ x b fits. bytes_lem Reader.args len 32 x b fits) natives back addresses)
        (rw (u32_lem Reader.args len (length others) (encode_all prefixed others) few')
          (rw (read_list_end len others texts) (ap result whole))))
