-- ===== src/Document/Services.antt =====
-- Writing a service behind the others and over another one (program/src/state.rs, `write_service`;
-- program/src/instructions/add_service.rs, update_service.rs).
use bio_did_registry.Base.{
  ℕ, ◌+◌, ◌≤◌, ◌≡◌, refl, sym, ap, ◌∙◌, List, [], ◌∷◌, ◌++◌, arith, length, length-append, subst,
  length-swap, append_assoc, append-nil, take, drop, length-take, length-drop,
}
use bio_did_registry.Error.{ok}
use bio_did_registry.Bytes.{Bytes, u32_le, copy_from_slice}
use bio_did_registry.Bytes.Slices.{copy_lem, copy_next, copy_within_lem, drop-drop, drop-length}
use bio_did_registry.Reader.Laws.{prefixed}
use bio_did_registry.State.Consts.{service_space}
use bio_did_registry.State.Edits.{write_parts, write_service}
use bio_did_registry.Document.{
  Service, Document, encode_service, encode_all, encode, IsDocument, layout,
}
use bio_did_registry.Document.Parts.{
  before_services, encode-before_services, length-before_services, length-u32_le,
}
use bio_did_registry.Document.Entries.{length-encode_service}
use bio_did_registry.Document.Updates.{encode_all-append, drop-take_append}
use bio_did_registry.Document.Removal.{
  with_services, service_start, encode-at_service, length-front, length-split,
}
use bio_did_registry.Instructions.AddService.{append_service}
use bio_did_registry.Instructions.UpdateService.{replace_entry}

-- The loop of `write_service` replaces as many bytes as its parts take with their prefixes.
write_parts_lem :
    (ps : List Bytes) (w : ℕ) (a r : Bytes)
    → w ≡ length a
    → length (encode_all prefixed ps) ≤ length r
    → write_parts (a ++ r) w ps
      ≡ ok (
        a ++ (encode_all prefixed ps ++ drop (length (encode_all prefixed ps)) r),
        w + length (encode_all prefixed ps),
      )
unfolding write_parts
write_parts_lem [] w a r e fits = ap ok (ap (λ n. (a ++ r, n)) (omega arith))
write_parts_lem (p ∷ ps) w a r e fits =
    let rest = encode_all prefixed ps in
    let c = u32_le (length p) in
    let c_len = length-u32_le (length p) in
    let total = length-append (prefixed p) rest in
    let p_len = length-append c p in
    let gone : drop (length rest) (drop (length p) (drop 4 r))
        ≡ drop (length (prefixed p ++ rest)) r =
      ap (drop (length rest)) (drop-drop (length p) 4 r)
      ∙ drop-drop (length rest) (4 + length p) r
      ∙ ap (λ n. drop n r) (omega (arith, total, p_len, c_len)) in
    let moved : ((a ++ c) ++ p) ++ (rest ++ drop (length rest) (drop (length p) (drop 4 r)))
        ≡ a ++ ((prefixed p ++ rest) ++ drop (length (prefixed p ++ rest)) r) =
      rw gone (simp append_assoc) in
    rw (copy_next w c a r e (omega (arith, total, p_len, c_len))) (
      rw
        (
          c_len,
          copy_next (w + 4) p (a ++ c) (drop 4 r) (omega (arith, length-append a c, c_len))
              (omega (arith, total, p_len, c_len, length-drop 4 r)),
        )
        (write_parts_lem ps (w + 4 + length p) ((a ++ c) ++ p) (drop (length p) (drop 4 r))
            (omega (arith, length-append a c, c_len, length-append (a ++ c) p))
            (omega (arith, total, p_len, c_len, length-drop 4 r, length-drop (length p) (drop 4 r)))
          ∙ ap ok (
              ap (λ b. (b, w + 4 + length p + length rest)) moved
              ∙ ap
                  (λ n. (
                    a
                        ++ (encode_all prefixed (p ∷ ps)
                            ++ drop (length (encode_all prefixed (p ∷ ps))) r),
                    n,
                  ))
                  (omega (arith, total, p_len, c_len)))))

service_parts :
    (s : Service)
    → encode_all prefixed (s.fragment ∷ s.service_type ∷ s.endpoint ∷ []) ≡ encode_service s
service_parts s = simp append-nil

-- Over room for it, `write_service` writes the encoding of the service, and gives where it ends.
pub write_service_lem :
    (s : Service) (w : ℕ) (a r : Bytes)
    → w ≡ length a
    → length (encode_service s) ≤ length r
    → write_service (a ++ r) w s.fragment s.service_type s.endpoint
      ≡ ok (
        a ++ (encode_service s ++ drop (length (encode_service s)) r),
        w + length (encode_service s),
      )
unfolding write_service
write_service_lem s w a r e fits =
    let parts = s.fragment ∷ s.service_type ∷ s.endpoint ∷ [] in
    subst (λ b. write_parts (a ++ r) w parts ≡ ok (a ++ (b ++ drop (length b) r), w + length b))
      (service_parts s) (write_parts_lem parts w a r e (rw (service_parts s) fits))

-- On an account that has grown by the entry's size, the new service comes behind the others: the
-- result is the encoding of the document with one more service.
pub append_service-encode :
    (d : Document) (s : Service) (grown : Bytes)
    → IsDocument d
    → length grown ≡ service_space (length s.fragment) (length s.service_type) (length s.endpoint)
    → append_service (layout d) s (encode d ++ grown)
      ≡ ok (encode (with_services d (d.services ++ (s ∷ []))))
unfolding append_service
append_service-encode d s grown v e =
    let q = before_services d in
    let c = u32_le (length d.services) in
    let w = encode_all encode_service d.services in
    let size = length-encode_service s in
    let after = with_services d (d.services ++ (s ∷ [])) in
    let pos = length-before_services d v in
    rw (encode-before_services d) (
      rw
        (write_service_lem s (layout d).end (q ++ (c ++ w)) grown
          (omega (
            arith,
            pos,
            length-append q (c ++ w),
            length-append c w,
            length-u32_le (length d.services),
          ))
          (omega (arith, size, e)))
        (rw
          (
            drop-length (length (encode_service s)) grown (omega (arith, size, e)),
            append-nil (encode_service s),
          )
          (ap (copy_from_slice (layout d).svc_count_pos (u32_le (length d.services + 1))) (
              append_assoc q (c ++ w) (encode_service s)
              ∙ ap (λ b. q ++ b) (append_assoc c w (encode_service s)))
            ∙ copy_lem (layout d).svc_count_pos (u32_le (length d.services + 1)) q c
                (w ++ encode_service s) (sym pos)
                (length-u32_le (length d.services + 1) ∙ sym (length-u32_le (length d.services)))
            ∙ ap ok (
                rw (
                  encode-before_services after,
                  encode_all-append encode_service d.services (s ∷ []),
                  length-append d.services (s ∷ []),
                  append-nil (encode_service s),
                )))))

-- `replace_entry` on the bytes before the entry, the entry, the bytes behind it and what the account
-- has grown by. The room that is left over stands at the end.
replace_entry_parts :
    (new : Service) (start end old_len : ℕ) (a old m g : Bytes)
    → start ≡ length a
    → end ≡ start + length old
    → old_len ≡ end + length m
    → length (encode_service new) ≤ length old + length g
    → (left : Bytes) × (length left + length (encode_service new) ≡ length old + length g)
      × (replace_entry start end old_len new (a ++ (old ++ (m ++ g)))
          ≡ ok (a ++ (encode_service new ++ (m ++ left))))
unfolding replace_entry
replace_entry_parts new start end old_len a old m g start_eq end_eq len_eq fits =
    let n = service_space (length new.fragment) (length new.service_type) (length new.endpoint) in
    let size : length (encode_service new) ≡ n = length-encode_service new in
    let whole = old ++ (m ++ g) in
    let total : length whole ≡ length old + length m + length g =
      omega (arith, length-append old (m ++ g), length-append m g) in
    let left : Bytes = drop (n + length m) whole in
    let head_len = length-take n whole (omega (arith, size, total, fits)) in
    (
      left,
      omega (arith, size, total, fits, length-drop (n + length m) whole),
      rw
          (copy_within_lem end old_len (start + n) n a old m g (omega arith) (omega arith)
            (omega arith) (omega (arith, size, fits)))
          (rw
            (write_service_lem new start a (take n whole ++ (m ++ left)) start_eq
              (omega (arith, size, head_len, length-append (take n whole) (m ++ left))))
            (ap (λ k. ok (a ++ (encode_service new ++ drop k (take n whole ++ (m ++ left))))) size
              ∙ ap (λ b. ok (a ++ (encode_service new ++ b)))
                  (drop-take_append n whole (m ++ left) (omega (arith, size, total, fits))))),
    )

put_service :
    (d : Document) (front : List Service) (x new : Service) (back : List Service) (left : Bytes)
    → (before_services d
          ++ (u32_le (length (front ++ (x ∷ back))) ++ encode_all encode_service front))
        ++ (encode_service new ++ (encode_all encode_service back ++ left))
      ≡ encode (with_services d (front ++ (new ∷ back))) ++ left
put_service d front x new back left =
    rw (length-swap front x new back, encode-at_service d front new back) (simp append_assoc)

-- In a well-formed document, on an account that has room for the new service, replacing a service
-- leaves the encoding of the document with the new one in the old one's place, and behind it the
-- room left over.
pub replace_service-encode :
    (d : Document) (front : List Service) (x new : Service) (back : List Service) (g : Bytes)
    → let before = with_services d (front ++ (x ∷ back)) in
      IsDocument before
      → length (encode_service new) ≤ length (encode_service x) + length g
      → (left : Bytes) × (length left + length (encode_service new)
          ≡ length (encode_service x) + length g)
        × (replace_entry
              (service_start d front)
              (service_start d front + length (encode_service x))
              (layout before).end
              new
              (encode before ++ g)
            ≡ ok (encode (with_services d (front ++ (new ∷ back))) ++ left))
replace_service-encode d front x new back g v fits =
    let before = with_services d (front ++ (x ∷ back)) in
    let count = length (front ++ (x ∷ back)) in
    let a = before_services d ++ (u32_le count ++ encode_all encode_service front) in
    let m = encode_all encode_service back in
    let start = service_start d front in
    let pos = length-before_services before v in
    let (left, room, run) =
      replace_entry_parts new start (start + length (encode_service x)) (layout before).end a
        (encode_service x) m g
        (length-front encode_service (before_services d) count (layout d).svc_count_pos front
          (sym pos))
        refl (omega (arith, length-split encode_service front x back)) fits in
    (
      left,
      room,
      ap (replace_entry start (start + length (encode_service x)) (layout before).end new)
            (rw (encode-at_service d front x back) (simp append_assoc))
          ∙ run
          ∙ ap ok (put_service d front x new back left),
    )
