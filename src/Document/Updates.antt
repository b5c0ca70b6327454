-- ===== src/Document/Updates.antt =====
-- The byte edits on an encoded document
-- (program/src/state.rs: `touch`, `insert_vm`, `write_service`).
use bio_did_registry.Base.{
  ℕ, ◌+◌, ◌^◌, ◌<◌, ◌≤◌, ◌≡◌, refl, sym, ap, ◌∙◌, List, [], ◌∷◌, ◌++◌, arith, length, length-append,
  append_assoc, append-nil, take, drop, drop-append, length-take, length-drop,
}
use bio_did_registry.Error.{Result, ok, ◌>>=◌}
use bio_did_registry.Bytes.{Bytes, to_le_bytes, u16_le, u32_le, u64_le, copy_from_slice}
use bio_did_registry.Bytes.Slices.{
  slice_lem, copy_lem, copy_next, copy_within_lem, drop-drop, drop-length,
}
use bio_did_registry.Reader.Laws.{length-to_le_bytes, from-to_le_bytes}
use bio_did_registry.State.Consts.{off_version, off_updated_at, vm_space}
use bio_did_registry.State.Sections.{Sections}
use bio_did_registry.State.Checks.{NewMethod}
use bio_did_registry.State.Edits.{version, touch, saturating_suc, insert_vm}
use bio_did_registry.Document.{
  VerificationMethod, Document, encode_vm, encode_service, encode_all, raw, encode_sections, encode,
  IsDocument, layout, from_services,
}
use bio_did_registry.Document.Parts.{
  before_methods, before_services, encode-before_methods, encode-before_services,
  length-before_methods, length-before_services, length-u32_le, before_deactivated,
  encode-at_version, encode-at_updated_at, length-before_updated_at,
}
use bio_did_registry.Document.Decode.{length-u32}
use bio_did_registry.Document.Entries.{length-encode_vm}

-- A document after an update at `now`.
abbrev pub touched : Document → ℕ → Document
touched d now = record d { version = saturating_suc d.version; updated_at = now }

pub version-encode : (d : Document) → IsDocument d → version (encode d) ≡ ok d.version
unfolding version
version-encode d v = rw (encode-at_version d) (
    rw
      (slice_lem off_version (off_version + 8) d.discriminator (u64_le d.version) _
        (sym v.discriminator_len)
        (omega (arith, v.discriminator_len, length-to_le_bytes 8 d.version)))
      (ap ok (from-to_le_bytes 8 d.version v.version_range)))

-- `touch` bumps the version of a stored document, stamps its time, and changes nothing else.
pub touch-encode :
    (d : Document) (now : ℕ) → IsDocument d → touch (encode d) now ≡ ok (encode (touched d now))
unfolding touch
touch-encode d now v =
    let d' : Document = record d { version = saturating_suc d.version } in
    rw (version-encode d v) (
      rw (encode-at_version d) (
        rw
          (copy_lem off_version (u64_le (saturating_suc d.version)) d.discriminator
            (u64_le d.version) _ (sym v.discriminator_len)
            (length-to_le_bytes 8 _ ∙ sym (length-to_le_bytes 8 _)))
          (rw (← encode-at_version d') (
            rw (encode-at_updated_at d') (
              rw
                (copy_lem off_updated_at (u64_le now)
                  (before_deactivated d' ++ (d.deactivated ∷ [])) (u64_le d.updated_at)
                  (encode_sections d)
                  (length-before_updated_at d' v.discriminator_len v.subject_key.0)
                  (length-to_le_bytes 8 _ ∙ sym (length-to_le_bytes 8 _)))
                (rw (← encode-at_updated_at (touched d now))))))))

pub touched-IsDocument :
    (d : Document) (now : ℕ) → now < 2 ^ 64 → IsDocument d → IsDocument (touched d now)
touched-IsDocument d now h v = ground arith

-- A document with one more method, behind the others.
abbrev pub add_method : Document → VerificationMethod → Document
add_method d m = record d { verification_methods = d.verification_methods ++ (m ∷ []) }

abbrev pub method_of : NewMethod → Bytes → VerificationMethod
method_of m key = record {
  fragment = m.fragment;
  method_type = m.method_type;
  flags = m.flags;
  key = key;
}

pub encode_all-append :
    {A : Type 0} (enc : A → Bytes) (xs ys : List A)
    → encode_all enc (xs ++ ys) ≡ encode_all enc xs ++ encode_all enc ys
encode_all-append enc [] ys = refl
encode_all-append enc (x ∷ xs) ys =
    rw (encode_all-append enc xs ys)
      (sym (append_assoc (enc x) (encode_all enc xs) (encode_all enc ys)))

-- Copies one behind the other, then `k`.
abbrev pub writes : ℕ → List Bytes → Bytes → (Bytes → Result Bytes) → Result Bytes
writes w [] bytes k = k bytes
writes w (p ∷ ps) bytes k = copy_from_slice w p bytes >>= λ b. writes (w + length p) ps b k

-- They replace as many bytes as they have.
pub writes_lem :
    (ps : List Bytes) (w : ℕ) (a r : Bytes) (k : Bytes → Result Bytes)
    → w ≡ length a
    → length (encode_all raw ps) ≤ length r
    → writes w ps (a ++ r) k ≡ k (a ++ (encode_all raw ps ++ drop (length (encode_all raw ps)) r))
writes_lem [] w a r k e fits = refl
writes_lem (p ∷ ps) w a r k e fits =
    let p_len = length-append p (encode_all raw ps) in
    rw (copy_next w p a r e (omega (arith, p_len))) (
      rw
        (writes_lem ps (w + length p) (a ++ p) (drop (length p) r) k
          (omega (arith, length-append a p)) (omega (arith, p_len, length-drop (length p) r)))
        (ap k (
          append_assoc a p
            (encode_all raw ps ++ drop (length (encode_all raw ps)) (drop (length p) r))
          ∙ ap (λ t. a ++ t)
              (ap (λ t. p ++ (encode_all raw ps ++ t))
                  (drop-drop (length (encode_all raw ps)) (length p) r
                    ∙ ap (λ n. drop n r) (sym p_len))
                ∙ sym (
                    append_assoc p (encode_all raw ps)
                      (drop (length (p ++ encode_all raw ps)) r))))))

-- The pieces of an entry, as `insert_vm` writes them.
abbrev entry_parts : NewMethod → Bytes → List Bytes
entry_parts m key =
    u32_le (length m.fragment)
    ∷ m.fragment
    ∷ (m.method_type ∷ [])
    ∷ u16_le m.flags
    ∷ u32_le (length key)
    ∷ key
    ∷ []

entry_parts_lem :
    (m : NewMethod) (key : Bytes) → encode_all raw (entry_parts m key) ≡ encode_vm (method_of m key)
entry_parts_lem m key = simp append-nil

length-entry_parts :
    (m : NewMethod) (key : Bytes)
    → length (encode_all raw (entry_parts m key)) ≡ vm_space (length m.fragment) (length key)
length-entry_parts m key = ap length (entry_parts_lem m key) ∙ length-encode_vm (method_of m key)

pub drop-take_append : (n : ℕ) (a b : Bytes) → n ≤ length a → drop n (take n a ++ b) ≡ b
drop-take_append n a b h =
    ap (λ k. drop k (take n a ++ b)) (sym (length-take n a h)) ∙ drop-append (take n a) b

-- What the writes of the entry leave, once the tail `s` has moved behind it.
entry_over :
    (m : NewMethod) (key s g : Bytes)
    → length g ≡ vm_space (length m.fragment) (length key)
    → let n = vm_space (length m.fragment) (length key) in
      let r = take n (s ++ g) ++ (s ++ drop (n + length s) (s ++ g)) in
      encode_all raw (entry_parts m key) ++ drop (length (encode_all raw (entry_parts m key))) r
      ≡ encode_vm (method_of m key) ++ s
entry_over m key s g e =
    let n = vm_space (length m.fragment) (length key) in
    let total = length-append s g in
    rw (
      length-entry_parts m key,
      entry_parts_lem m key,
      drop-take_append n (s ++ g) (s ++ drop (n + length s) (s ++ g)) (omega (arith, total)),
      drop-length (n + length s) (s ++ g) (omega (arith, total)),
      append-nil s,
    )

-- `insert_vm` on the bytes before the method count, the count, the methods, the services and the
-- bytes that the account has grown by.
insert_vm_parts :
    (s : Sections) (m : NewMethod) (key q c w t g : Bytes)
    → s.vm_count_pos ≡ length q
    → length c ≡ 4
    → s.svc_count_pos ≡ length (q ++ (c ++ w))
    → s.end ≡ length (q ++ (c ++ w)) + length t
    → length g ≡ vm_space (length m.fragment) (length key)
    → insert_vm ((q ++ (c ++ w)) ++ (t ++ g)) s m key
      ≡ ok (q ++ (u32_le (s.vm_count + 1) ++ (w ++ (encode_vm (method_of m key) ++ t))))
unfolding insert_vm to_le_bytes
insert_vm_parts s m key q c w t g vm_pos c_len svc_pos end_pos e =
    let n = vm_space (length m.fragment) (length key) in
    let p : Bytes = q ++ (c ++ w) in
    let entry : Bytes = encode_vm (method_of m key) in
    let total = length-append t g in
    let size : length (take n (t ++ g)) ≡ n = length-take n (t ++ g) (omega (arith, total)) in
    let rest : Bytes = t ++ drop (n + length t) (t ++ g) in
    rw
      (copy_within_lem s.svc_count_pos s.end (s.svc_count_pos + n) n p [] t g (omega arith)
        (omega arith) (omega arith) (omega arith))
      (writes_lem (entry_parts m key) s.svc_count_pos p (take n (t ++ g) ++ rest)
          (copy_from_slice s.vm_count_pos (u32_le (s.vm_count + 1))) svc_pos
          (omega (arith, length-entry_parts m key, size, length-append (take n (t ++ g)) rest))
        ∙ (ap (λ b. copy_from_slice s.vm_count_pos (u32_le (s.vm_count + 1)) b)
              (ap (λ b. p ++ b) (entry_over m key t g e)
                ∙ append_assoc q (c ++ w) (entry ++ t)
                ∙ ap (λ b. q ++ b) (append_assoc c w (entry ++ t)))
            ∙ copy_lem s.vm_count_pos (u32_le (s.vm_count + 1)) q c (w ++ (entry ++ t)) vm_pos
                (sym c_len)))

encode-add_method :
    (d : Document) (m : VerificationMethod)
    → before_methods d
        ++ (u32_le (length d.verification_methods + 1)
            ++ (encode_all encode_vm d.verification_methods ++ (encode_vm m ++ from_services d)))
      ≡ encode (add_method d m)
encode-add_method d m = rw (
  encode-before_methods (add_method d m),
  encode_all-append encode_vm d.verification_methods (m ∷ []),
  length-append d.verification_methods (m ∷ []),
  append-nil (encode_vm m),
  append_assoc (encode_all encode_vm d.verification_methods) (encode_vm m) (from_services d),
)

-- On an account that has grown by the entry's size, `insert_vm` appends the method: the result is
-- the encoding of the document with the method behind the others.
pub insert_vm-encode :
    (d : Document) (m : NewMethod) (key grown : Bytes)
    → IsDocument d
    → length grown ≡ vm_space (length m.fragment) (length key)
    → insert_vm (encode d ++ grown) (layout d) m key ≡ ok (encode (add_method d (method_of m key)))
insert_vm-encode d m key grown v e =
    rw (encode-before_services d, append_assoc (before_services d) (from_services d) grown)
      (insert_vm_parts (layout d) m key (before_methods d) (u32_le (length d.verification_methods))
          (encode_all encode_vm d.verification_methods) (from_services d) grown
          (sym (length-before_methods d v)) (length-u32_le (length d.verification_methods))
          (sym (length-before_services d v))
          (omega (
            arith,
            length-before_services d v,
            length-u32 (length d.services) (encode_all encode_service d.services),
          ))
          e
        ∙ ap ok (encode-add_method d (method_of m key)))
