-- ===== src/Program/Entry.antt =====
-- The entry point on an input that starts with a discriminator (program/src/lib.rs).
use bio_did_registry.Base.{◌≡◌, refl, some, List, ◌++◌, length, bytes_eq_refl}
use bio_did_registry.Bytes.{Bytes, split_at_checked}
use bio_did_registry.Reader.Laws.{split-append}
use bio_did_registry.Runtime.{Runtime}
use bio_did_registry.Program.{
  Instruction, discriminator, handle, dispatch, process_instruction, find-discriminator,
}
use bio_did_registry.Program

pub length-discriminator : (i : Instruction) → length (discriminator i) ≡ 8
unfolding discriminator
length-discriminator Program.initialize = refl
length-discriminator _ = refl

-- The entry point hands what stands behind the discriminator to the instruction's handler.
pub entered :
    (rt : Runtime) (i : Instruction) (accounts : List Bytes) (args : Bytes)
    → process_instruction rt rt.program_id accounts (discriminator i ++ args)
      ≡ handle rt i accounts args
unfolding process_instruction dispatch
entered rt i accounts args =
    let front : split_at_checked 8 (discriminator i ++ args) ≡ some (discriminator i, args) =
      rw (length-discriminator i) at (split-append (discriminator i) args) in
    rw (bytes_eq_refl rt.program_id) (rw (front, dispatch) (rw (find-discriminator i) refl))
