-- ===== src/Staging/Header.antt =====
-- Reading the header of a key buffer (program/src/state.rs, `KeyBufferRef::parse`).
use bio_did_registry.Base.{
  ℕ, ◌≡◌, ◌≤◌, ==_iff, refl, sym, subst, some, false, [], ◌∷◌, ◌++◌, length, length-append,
  append_assoc, append-nil, arith, ltb, take-append,
}
use bio_did_registry.Error.{ok}
use bio_did_registry.Bytes.{Bytes, u16_le, u32_le, split_at_checked}
use bio_did_registry.Reader.{account}
use bio_did_registry.Reader.Laws.{cursor, split-append, bytes_lem, u8_lem, uint_lem, u32_lem}
use bio_did_registry.State.Consts.{kb_off_did_account, max_fragment_len, key_buffer_header}
use bio_did_registry.State.KeyBuffer.{read_header, parse}
use bio_did_registry.Document.Parts.{length-u32_le}
use bio_did_registry.Document.Decode.{at_lem}
use bio_did_registry.Staging.{
  Staging, IsStaging, key_len, before_written, after_written, encode, ref,
}
use bio_did_registry.Staging.Upload.{length-before_written, length-after_written}

abbrev pub header : Staging → Bytes
header s = before_written s ++ (u32_le (length s.done) ++ after_written s)

pub length-header : (s : Staging) → IsStaging s → length (header s) ≡ key_buffer_header
length-header s v = omega (
  arith,
  length-before_written s v,
  length-after_written s v,
  length-append (before_written s) (u32_le (length s.done) ++ after_written s),
  length-append (u32_le (length s.done)) (after_written s),
  length-u32_le (length s.done),
)

not_lt : (a b : ℕ) → b ≤ a → ltb a b ≡ false
not_lt a b h = ground arith

-- The bytes of the header behind its discriminator.
abbrev fields : Staging → Bytes
fields s =
    s.did_account
    ++ (s.authority
        ++ (s.bump ∷ s.method_type ∷ u16_le s.flags
            ++ (u32_le (key_len s)
                ++ (u32_le (length s.done)
                    ++ (u32_le (length s.fragment) ++ ((s.fragment ++ s.padding) ++ []))))))

header-fields : (s : Staging) → header s ≡ s.discriminator ++ fields s
header-fields s = simp (append_assoc, append-nil)

pub encode-header : (s : Staging) → encode s ≡ header s ++ (s.done ++ s.todo)
unfolding encode
encode-header s = simp append_assoc

read_header_lem :
    (s : Staging) (len : ℕ)
    → IsStaging s
    → read_header (key_len s) (cursor account len (fields s)) ≡ ok (ref s, cursor account len [])
unfolding read_header
read_header_lem s len v = rw (bytes_lem account len 32 s.did_account _ (sym v.did_account_len)) (
    rw (bytes_lem account len 32 s.authority _ (sym v.authority_len)) (
      rw (u8_lem account len s.bump _) (
        rw (u8_lem account len s.method_type _) (
          rw (uint_lem account len 2 s.flags _ v.flags_range) (
            rw (u32_lem account len (key_len s) _ v.key_len_range) (
              rw (u32_lem account len (length s.done) _ (omega (arith, v.key_len_range))) (
                rw (u32_lem account len (length s.fragment) _ (omega (arith, v.fragment_len))) (
                  rw
                    (bytes_lem account len max_fragment_len (s.fragment ++ s.padding) []
                      (omega (arith, v.fragment_len, length-append s.fragment s.padding)))
                    (rw
                      (
                        (==_iff (key_len s) (key_len s)).1 refl,
                        not_lt (key_len s) (length s.done) (omega arith),
                        not_lt max_fragment_len (length s.fragment) (omega (arith, v.fragment_len)),
                        take-append s.fragment s.padding,
                      )
                      refl)))))))))

-- Parsing a well-formed key buffer gives back what it stages: the method, and how far the upload
-- has come.
pub parse-encode_buffer : (s : Staging) → IsStaging s → parse (encode s) ≡ ok (ref s)
unfolding parse
parse-encode_buffer s v =
    let split : split_at_checked key_buffer_header (header s ++ (s.done ++ s.todo))
        ≡ some (header s, s.done ++ s.todo) =
      subst
        (λ n.
          split_at_checked n (header s ++ (s.done ++ s.todo)) ≡ some (header s, s.done ++ s.todo))
        (length-header s v) (split-append (header s) (s.done ++ s.todo)) in
    rw (encode-header s) (
      rw (split, parse)
        (rw (header-fields s) (
          rw
            (at_lem account kb_off_did_account s.discriminator (fields s) (sym v.discriminator_len))
            (rw
              (
                length-append s.done s.todo,
                read_header_lem s (length (s.discriminator ++ fields s)) v,
              )
              refl))))
