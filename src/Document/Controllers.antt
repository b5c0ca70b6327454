-- ===== src/Document/Controllers.antt =====
-- Replacing the controllers (program/src/instructions/set_controllers.rs).
use bio_did_registry.Base.{
  ℕ, ◌+◌, ◌≤◌, ◌≡◌, refl, sym, ap, ◌∙◌, List, [], ◌++◌, arith, length, length-append, append_assoc,
  take, drop, length-take, length-drop,
}
use bio_did_registry.Error.{ok}
use bio_did_registry.Bytes.{Bytes, u32_le}
use bio_did_registry.Bytes.Slices.{copy_next, copy_within_lem, slice_lem}
use bio_did_registry.Reader.Laws.{prefixed}
use bio_did_registry.State.Consts.{off_sections}
use bio_did_registry.Document.{
  Document, encode, encode_all, raw, encode_header, IsDocument, layout, from_methods,
}
use bio_did_registry.Document.Parts.{length-encode, length-u32_le}
use bio_did_registry.Document.Decode.{length-header}
use bio_did_registry.Document.Updates.{drop-take_append}
use bio_did_registry.Instructions.SetControllers.{replace_sections}

-- The bytes of the two controller lists, as an account and the instruction hold them.
abbrev pub encode_controllers : List Bytes → List Bytes → Bytes
encode_controllers natives others =
    u32_le (length natives)
    ++ (encode_all raw natives ++ (u32_le (length others) ++ encode_all prefixed others))

abbrev pub with_controllers : Document → List Bytes → List Bytes → Document
with_controllers d natives others = record d {
  native_controllers = natives;
  other_controllers = others;
}

pub encode-controllers :
    (d : Document)
    → encode d
      ≡ encode_header d
        ++ (encode_controllers d.native_controllers d.other_controllers ++ from_methods d)
unfolding encode
encode-controllers d = simp append_assoc

pub length-encode_controllers :
    (natives others : List Bytes)
    → length (encode_controllers natives others)
      ≡ 4 + length (encode_all raw natives) + 4 + length (encode_all prefixed others)
length-encode_controllers natives others = omega (
  arith,
  length-append (u32_le (length natives))
      (encode_all raw natives ++ (u32_le (length others) ++ encode_all prefixed others)),
  length-append (encode_all raw natives) (u32_le (length others) ++ encode_all prefixed others),
  length-append (u32_le (length others)) (encode_all prefixed others),
  length-u32_le (length natives),
  length-u32_le (length others),
)

put_controllers :
    (d : Document) (natives others : List Bytes) (left : Bytes)
    → encode_header d ++ (encode_controllers natives others ++ (from_methods d ++ left))
      ≡ encode (with_controllers d natives others) ++ left
put_controllers d natives others left =
    rw (encode-controllers (with_controllers d natives others)) (simp append_assoc)

-- `replace_sections` on the header, the old lists, the bytes behind them and what the account has
-- grown by, with the new lists at the head of the arguments.
replace_sections_parts :
    (tail_start old_len n : ℕ) (a old m g new args : Bytes)
    → length a ≡ off_sections
    → tail_start ≡ off_sections + length old
    → old_len ≡ tail_start + length m
    → n ≡ length new
    → length new ≤ length old + length g
    → (left : Bytes) × (length left + length new ≡ length old + length g)
      × (replace_sections tail_start old_len n (new ++ args) (a ++ (old ++ (m ++ g)))
          ≡ ok (a ++ (new ++ (m ++ left))))
unfolding replace_sections
replace_sections_parts tail_start old_len n a old m g new args a_len start_eq len_eq n_eq fits =
    let whole = old ++ (m ++ g) in
    let total : length whole ≡ length old + length m + length g =
      omega (arith, length-append old (m ++ g), length-append m g) in
    let left : Bytes = drop (n + length m) whole in
    let head_len = length-take n whole (omega (arith, n_eq, total, fits)) in
    let moved = take n whole ++ (m ++ left) in
    (
      left,
      omega (arith, n_eq, total, fits, length-drop (n + length m) whole),
      rw
          (copy_within_lem tail_start old_len (off_sections + n) n a old m g
            (omega (arith, a_len, start_eq)) (omega (arith, a_len, start_eq, len_eq))
            (omega (arith, a_len)) (omega (arith, n_eq, fits)))
          (rw (slice_lem 0 n [] new args refl (omega (arith, n_eq))) (
            copy_next off_sections new a moved (sym a_len)
              (omega (arith, n_eq, head_len, length-append (take n whole) (m ++ left)))
            ∙ ap ok (
                append_assoc a new (drop (length new) moved)
                ∙ ap (λ b. a ++ (new ++ b))
                    (ap (λ k. drop k moved) (sym n_eq)
                      ∙ drop-take_append n whole (m ++ left) (omega (arith, n_eq, total, fits)))))),
    )

-- In a well-formed document, on an account that has room for the new controller lists, which head
-- the arguments, the edit leaves the encoding of the document with the new lists in the old ones'
-- place, and behind it the room left over.
pub replace_sections-encode :
    (d : Document) (natives others : List Bytes) (g args : Bytes)
    → IsDocument d
    → let new = encode_controllers natives others in
      let old = encode_controllers d.native_controllers d.other_controllers in
      length new ≤ length old + length g
      → (left : Bytes) × (length left + length new ≡ length old + length g)
        × (replace_sections
              (layout d).vm_count_pos
              (layout d).end
              (length new)
              (new ++ args)
              (encode d ++ g)
            ≡ ok (encode (with_controllers d natives others) ++ left))
replace_sections-encode d natives others g args v fits =
    let new = encode_controllers natives others in
    let old = encode_controllers d.native_controllers d.other_controllers in
    let m = from_methods d in
    let controllers_len = length-encode_controllers d.native_controllers d.other_controllers in
    let whole = ap length (encode-controllers d) in
    let (left, room, run) =
      replace_sections_parts (layout d).vm_count_pos (layout d).end (length new) (encode_header d)
        old m g new args (length-header d v) (omega (arith, controllers_len))
        (omega (
          arith,
          controllers_len,
          whole,
          length-encode d v,
          length-header d v,
          length-append (encode_header d) (old ++ m),
          length-append old m,
        ))
        refl fits in
    (
      left,
      room,
      ap (replace_sections (layout d).vm_count_pos (layout d).end (length new) (new ++ args))
            (rw (encode-controllers d) (simp append_assoc))
          ∙ run
          ∙ ap ok (put_controllers d natives others left),
    )
