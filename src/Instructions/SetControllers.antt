-- ===== src/Instructions/SetControllers.antt =====
-- `set_controllers` (program/src/instructions/set_controllers.rs).
use bio_did_registry.Base.{
  ℕ, zero, suc, ◌+◌, ◌-◌, Bool, not, ◌&&◌, List, [], ◌∷◌, ◌++◌, length, ltb, leb, bytes_eq,
}
use bio_did_registry.Error.{
  ProgramError, Result, ok, err, ok_or, require, from_did_error, too_many_controllers,
  invalid_controller,
}
use bio_did_registry.Error
use bio_did_registry.Bytes.{Bytes, copy_from_slice, copy_within, slice}
use bio_did_registry.Reader
use bio_did_registry.Reader.{Reading}
use bio_did_registry.State.Consts.{max_native_controllers, max_other_controllers, off_sections}
use bio_did_registry.State.View.{any, view}
use bio_did_registry.State.Checks.{valid_external_controller}
use bio_did_registry.State.Edits.{stamp}
use bio_did_registry.Runtime.{Runtime, Act, ◌>>=◌, ◌>>◌, lift, when, borrow, edit}
use bio_did_registry.Events.{did_modified, emit}
use bio_did_registry.Instructions.Shared.{update_from, authorize, grow, shrink}
use bio_did_registry.Instructions.Args.{parse_args}

-- `for i in 0..n { out[i] = item()?; }`. The loop runs for the whole count on the wire; what it
-- reads is looked at only where the count fits the array.
unfoldable pub read_list : ℕ → Reading Bytes → Reading (List Bytes)
read_list zero item = Reader.pure []
read_list (suc n) item =
    Reader.◌>>=◌ item (λ x. Reader.◌>>=◌ (read_list n item) (λ xs. Reader.pure (x ∷ xs)))

pub record Controllers : Type 0 where
  pub natives : List Bytes
  pub others : List Bytes
  pub sections_len : ℕ

unfoldable pub controller_args : Reading Controllers
unfolding read_list
controller_args = Reader.◌>>=◌ Reader.u32 (λ native_count.
    Reader.◌>>=◌ (read_list native_count (Reader.bytes 32)) (λ natives.
      Reader.◌>>=◌ Reader.u32 (λ other_count.
        Reader.◌>>=◌ (read_list other_count Reader.str) (λ others.
          Reader.◌>>=◌ Reader.here (λ sections_len. Reader.◌>>=◌ Reader.finish (λ _.
            Reader.pure
              (record { natives = natives; others = others; sections_len = sections_len })))))))

-- `slice.contains(key)`
abbrev pub contains : List Bytes → Bytes → Bool
contains keys key = any (λ x. bytes_eq x key) keys

-- The two loops of checks; `seen` is what stands before the entry.
unfoldable pub check_natives : Bytes → List Bytes → List Bytes → Result (Unit {0})
check_natives subject seen [] = ok tt
check_natives subject seen (key ∷ keys) =
    Error.◌>>◌ (require (not (bytes_eq key subject)) invalid_controller) (
      Error.◌>>◌ (require (not (contains seen key)) invalid_controller)
        (check_natives subject (seen ++ (key ∷ [])) keys))

unfoldable pub check_others : List Bytes → List Bytes → Result (Unit {0})
check_others seen [] = ok tt
check_others seen (c ∷ cs) = Error.◌>>◌ (require (valid_external_controller c) invalid_controller) (
    Error.◌>>◌ (require (not (contains seen c)) invalid_controller)
      (check_others (seen ++ (c ∷ [])) cs))

unfoldable pub check_controllers : Bytes → Controllers → Result (Unit {0})
unfolding check_natives check_others
check_controllers subject c =
    Error.◌>>◌
      (require
        (leb (length c.natives) max_native_controllers
          && leb (length c.others) max_other_controllers)
        too_many_controllers)
      (Error.◌>>◌ (check_natives subject [] c.natives) (check_others [] c.others))

-- The tail moves behind the new sections, which are copied in as they came.
unfoldable pub replace_sections : ℕ → ℕ → ℕ → Bytes → Bytes → Result Bytes
replace_sections tail_start old_len new_sections_len args bytes =
    Error.◌>>=◌ (copy_within tail_start old_len (off_sections + new_sections_len) bytes) (λ b.
      Error.◌>>=◌ (slice 0 new_sections_len args)
        (λ sections. copy_from_slice off_sections sections b))

unfoldable pub process : Runtime → List Bytes → Bytes → Act (Unit {0})
unfolding update_from authorize grow shrink emit controller_args check_controllers replace_sections
process rt accounts args = do
  u ← update_from rt accounts
  c ← lift (parse_args controller_args args)
  bytes ← borrow u.did_account
  doc ← lift (view bytes)
  authorize rt doc u.authority u.controller
  lift (check_controllers u.subject c)
  let old_len = doc.sections.end
  let tail_start = doc.sections.vm_count_pos
  let old_sections_len = tail_start - off_sections
  let new_len = old_len - old_sections_len + c.sections_len
  now ← lift rt.unix_timestamp
  when (ltb old_sections_len c.sections_len) (grow rt u.did_account u.payer new_len)
  new_version ←
      edit u.did_account
        (λ b. Error.◌>>=◌ (replace_sections tail_start old_len c.sections_len args b) (stamp now))
  when (not (ltb old_sections_len c.sections_len) && ltb new_len old_len)
      (shrink rt u.did_account u.payer new_len)
  emit did_modified u.did_account u.subject new_version
