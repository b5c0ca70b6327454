-- ===== src/Document/Stamp.antt =====
-- The stamp with which every update ends (program/src/state.rs: `touch`, `version`), on an account
-- that is longer than its document.
use bio_did_registry.Base.{ℕ, ◌≡◌, ◌+◌, ◌^◌, ◌<◌, ◌++◌, refl}
use bio_did_registry.Error.{Result, ok, ◌>>=◌, >>=-eq-ok}
use bio_did_registry.Bytes.{Bytes, from_le_bytes, u64_le, copy_from_slice, slice}
use bio_did_registry.Bytes.Frame.{copy_frame, slice_frame}
use bio_did_registry.State.Consts.{off_version, off_updated_at}
use bio_did_registry.State.Edits.{version, touch, stamp, saturating_suc}
use bio_did_registry.Document.{Document, IsDocument, encode}
use bio_did_registry.Document.Updates.{touched, touched-IsDocument, touch-encode, version-encode}

version_frame : (a g : Bytes) (v : ℕ) → version a ≡ ok v → version (a ++ g) ≡ ok v
unfolding version
version_frame a g v h =
    let (field, at_field, e) =
      >>=-eq-ok (slice off_version (off_version + 8) a) (λ field. ok (from_le_bytes field)) h in
    rw (slice_frame off_version (off_version + 8) a field g at_field) e

touch_frame : (a b g : Bytes) (now : ℕ) → touch a now ≡ ok b → touch (a ++ g) now ≡ ok (b ++ g)
unfolding touch
touch_frame a b g now h =
    let after_version : Bytes → ℕ → Result Bytes = λ bytes v.
      copy_from_slice off_version (u64_le (saturating_suc v)) bytes
      >>= copy_from_slice off_updated_at (u64_le now) in
    let (v, at_version, rest) = >>=-eq-ok (version a) (after_version a) h in
    let (c, bumped, stamped) =
      >>=-eq-ok (copy_from_slice off_version (u64_le (saturating_suc v)) a)
        (copy_from_slice off_updated_at (u64_le now)) rest in
    rw (version_frame a g v at_version) (
      rw (copy_frame off_version (u64_le (saturating_suc v)) a c g bumped)
        (copy_frame off_updated_at (u64_le now) c b g stamped))

-- Stamping a well-formed document with a time of 64 bits bumps its version, which saturates, sets
-- its time, and gives the new version; nothing else of the account changes.
pub stamp-encode :
    (d : Document) (now : ℕ) (g : Bytes)
    → now < 2 ^ 64
    → IsDocument d
    → stamp now (encode d ++ g) ≡ ok (encode (touched d now) ++ g, saturating_suc d.version)
unfolding stamp
stamp-encode d now g h v =
    rw (touch_frame (encode d) (encode (touched d now)) g now (touch-encode d now v)) (
      rw
        (version_frame (encode (touched d now)) g (saturating_suc d.version)
          (version-encode (touched d now) (touched-IsDocument d now h v)))
        refl)
