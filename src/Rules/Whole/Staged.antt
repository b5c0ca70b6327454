-- ===== src/Rules/Whole/Staged.antt =====
-- The values that a key buffer holds, and their ranges (program/src/state.rs, `KeyBufferRef`).
use bio_did_registry.Base.{
  ℕ, zero, suc, ◌-◌, ◌^◌, ◌<◌, ◌≤◌, ◌≡◌, sym, ap, subst, ◌∙◌, Bool, true, false, Bool-cases, inl,
  inr, Option-cases, [], ◌∷◌, ◌++◌, ◌||◌, ◌==◌, not, ltb, arith, length, take, drop,
  take-append-drop, length-take, length-drop, All, All-prefix, All-suffix, if◌then◌else◌, leb, ◌&&◌,
  take,
}
use bio_did_registry.Error.{Result, ok, err, panic, invalid_account_data, ok_injective, >>=-eq-ok}
use bio_did_registry.Error
use bio_did_registry.Bytes.{Bytes, IsByte, split_at_checked, slice}
use bio_did_registry.Reader
use bio_did_registry.Reader.{Reader, Reading, account, at}
use bio_did_registry.Reader.Laws.{cursor, bind_inv, bytes_inv, uint_inv, split_sound, IsShort}
use bio_did_registry.Document.Sound.{at_inv}
use bio_did_registry.State.Consts.{key_buffer_header, kb_off_did_account, max_fragment_len}
use bio_did_registry.State.KeyBuffer.{KeyBufferRef, read_header, parse}

pub front-IsByte : (n : ℕ) (b : Bytes) → All IsByte b → All IsByte (take n b)
front-IsByte n b h =
    All-prefix IsByte (take n b) (drop n b) (subst (All IsByte) (sym (take-append-drop n b)) h)

pub back-IsByte : (n : ℕ) (b : Bytes) → All IsByte b → All IsByte (drop n b)
back-IsByte n b h =
    All-suffix IsByte (take n b) (drop n b) (subst (All IsByte) (sym (take-append-drop n b)) h)

-- Bytes that are sliced from bytes.
pub slice_inv :
    (from to : ℕ) (b c : Bytes)
    → All IsByte b
    → slice from to b ≡ ok c
    → (length c ≡ to - from) × All IsByte c
unfolding slice
slice_inv from to b c are_bytes h = elim (Bool-cases (leb from to && leb to (length b))) [
  | inl inside ↦
      let same : take (to - from) (drop from b) ≡ c = ok_injective (rw inside at h) in
      (
        ap length (sym same)
            ∙ length-take (to - from) (drop from b) (ground (arith, inside, length-drop from b)),
        subst (All IsByte) same
            (front-IsByte (to - from) (drop from b) (back-IsByte from b are_bytes)),
      )
  | inr outside ↦ absurd (refused c (rw outside at h))
]
  where
    refused : (c : Bytes) → panic ≡ ok c → ⊥
    refused c e = cc

-- A read of bytes, or of a number, and what the rest of the reads sees.
module _ {B : Type 0} (len n : ℕ) (rest : Bytes) (y : B) (t : Reader)
    (are_bytes : All IsByte rest) where
  block_then :
      (k : Bytes → Reading B)
      → (Reader.◌>>=◌ (Reader.bytes n) k) (cursor account len rest) ≡ ok (y, t)
      → (a : Bytes) × (b : Bytes) × (length a ≡ n)
        × All IsByte a
        × All IsByte b
        × (k a (cursor account len b) ≡ ok (y, t))
  block_then k h =
      let (a, u, e, g) = bind_inv (Reader.bytes n) k (cursor account len rest) h in
      let (at_u, split, size) = bytes_inv account len n rest a u e in
      let whole : All IsByte (a ++ u.rest) = subst (All IsByte) split are_bytes in
      (
        a,
        u.rest,
        size,
        All-prefix IsByte a u.rest whole,
        All-suffix IsByte a u.rest whole,
        subst (λ r. k a r ≡ ok (y, t)) at_u g,
      )

  uint_then :
      (k : ℕ → Reading B)
      → (Reader.◌>>=◌ (Reader.uint n) k) (cursor account len rest) ≡ ok (y, t)
      → (v : ℕ) × (b : Bytes) × (v < 256 ^ n)
        × All IsByte b
        × (k v (cursor account len b) ≡ ok (y, t))
  uint_then k h =
      let (v, u, e, g) = bind_inv (Reader.uint n) k (cursor account len rest) h in
      let (at_u, split, small, back) = uint_inv account len n v rest u are_bytes e in
      (v, u.rest, small, back, subst (λ r. k v r ≡ ok (y, t)) at_u g)

accepted :
    (b : Bool) (p q : KeyBufferRef × Reader)
    → (if b then err invalid_account_data else ok p) ≡ ok q
    → p ≡ q
accepted true p q h = cc
accepted false p q h = ok_injective h

take-less : (n : ℕ) (b : Bytes) → length (take n b) ≤ length b
take-less zero b = omega arith
take-less (suc n) [] = omega arith
take-less (suc n) (x ∷ b) = omega (arith, take-less n b)

take-small : (n : ℕ) (b : Bytes) → length b ≡ max_fragment_len → length (take n b) < 2 ^ 32
take-small n b e = omega (arith, e, take-less n b)

-- What the header says fits the layout of a method.
abbrev pub FitsMethod : KeyBufferRef → Type 0
FitsMethod kb =
    IsShort kb.fragment × IsByte kb.method_type × (kb.flags < 2 ^ 16) × (kb.key_len < 2 ^ 32)

-- The reads behind the flags.
abbrev lengths : ℕ → Bytes → Bytes → ℕ → ℕ → ℕ → Reading KeyBufferRef
lengths stored did authority bump kind flags = Reader.◌>>=◌ Reader.u32 (λ key_len.
    Reader.◌>>=◌ Reader.u32 (λ written. Reader.◌>>=◌ Reader.u32 (λ fragment_len.
      Reader.◌>>=◌ (Reader.array max_fragment_len) (λ fragment r.
        if not (stored == key_len) || ltb key_len written || ltb max_fragment_len fragment_len
        then err invalid_account_data
        else ok (
          record {
            did_account = did;
            authority = authority;
            bump = bump;
            method_type = kind;
            flags = flags;
            key_len = key_len;
            written = written;
            fragment = take fragment_len fragment;
          },
          r,
        )))))

lengths_inv :
    (stored len : ℕ) (did authority : Bytes) (bump kind flags : ℕ) (rest : Bytes)
    (kb : KeyBufferRef) (u : Reader)
    → All IsByte rest
    → IsByte kind
    → flags < 2 ^ 16
    → lengths stored did authority bump kind flags (cursor account len rest) ≡ ok (kb, u)
    → FitsMethod kb
lengths_inv stored len did authority bump kind flags rest kb u are_bytes byte small h =
    let (key_len, b₁, small₁, back₁, h₁) = uint_then len 4 rest kb u are_bytes _ h in
    let (written, b₂, small₂, back₂, h₂) = uint_then len 4 b₁ kb u back₁ _ h₁ in
    let (n, b₃, small₃, back₃, h₃) = uint_then len 4 b₂ kb u back₂ _ h₂ in
    let (name, b₄, size, own, back₄, h₄) = block_then len max_fragment_len b₃ kb u back₃ _ h₃ in
    let made : KeyBufferRef = record {
      did_account = did;
      authority = authority;
      bump = bump;
      method_type = kind;
      flags = flags;
      key_len = key_len;
      written = written;
      fragment = take n name;
    } in
    let same : made ≡ kb =
      ap (λ p. p.0)
        (accepted (not (stored == key_len) || ltb key_len written || ltb max_fragment_len n)
          (made, cursor account len b₄) (kb, u) h₄) in
    subst FitsMethod same ((take-small n name size, front-IsByte n name own), byte, small, small₁)

header_inv :
    (stored len : ℕ) (rest : Bytes) (kb : KeyBufferRef) (u : Reader)
    → All IsByte rest
    → read_header stored (cursor account len rest) ≡ ok (kb, u)
    → FitsMethod kb
unfolding read_header
header_inv stored len rest kb u are_bytes h =
    let (did, b₁, size₁, own₁, back₁, h₁) = block_then len 32 rest kb u are_bytes _ h in
    let (authority, b₂, size₂, own₂, back₂, h₂) = block_then len 32 b₁ kb u back₁ _ h₁ in
    let (bump, b₃, small₃, back₃, h₃) = uint_then len 1 b₂ kb u back₂ _ h₂ in
    let (kind, b₄, small₄, back₄, h₄) = uint_then len 1 b₃ kb u back₃ _ h₃ in
    let (flags, b₅, small₅, back₅, h₅) =
      uint_then len 2 b₄ kb u back₄ (lengths stored did authority bump kind) h₄ in
    lengths_inv stored len did authority bump kind flags b₅ kb u back₅ small₄ small₅ h₅

-- A key buffer of bytes holds a method's values in their ranges.
pub parse_inv :
    (bytes : Bytes) (kb : KeyBufferRef) → All IsByte bytes → parse bytes ≡ ok kb → FitsMethod kb
unfolding parse
parse_inv bytes kb are_bytes h = elim (Option-cases (split_at_checked key_buffer_header bytes)) [
  | inl short ↦ absurd (refused (rw (short, parse) at h))
  | inr ((header, key), cut) ↦
      let read : Reader → Result KeyBufferRef =
        λ r. Error.◌>>=◌ (read_header (length key) r) (λ p. ok p.0) in
      let (r, at_r, h₁) =
        >>=-eq-ok (at account header kb_off_did_account) read (rw (cut, parse) at h) in
      let ((kb', u), made, h₂) = >>=-eq-ok (read_header (length key) r) (λ p. ok p.0) h₁ in
      let (inside, placed) = at_inv account kb_off_did_account header r at_r in
      let (split, size) = split_sound key_buffer_header bytes header key cut in
      let own : All IsByte header =
        All-prefix IsByte header key (subst (All IsByte) split are_bytes) in
      subst FitsMethod (ok_injective h₂) (
        header_inv (length key) (length header) (drop kb_off_did_account header) kb' u
          (back-IsByte kb_off_did_account header own)
          (subst (λ x. read_header (length key) x ≡ ok (kb', u)) placed made))
]
  where
    refused : err invalid_account_data ≡ ok kb → ⊥
    refused e = cc
