-- ===== src/Lib.antt =====
-- A model of the bio-did-registry program, a Solana program that keeps DID documents on chain.
--
-- The program has one account per document, the `DidAccount`, and one per large key that is
-- uploaded in chunks, the `KeyBuffer`. The entry point (program/src/lib.rs) picks a handler by the
-- first eight bytes of the instruction. A handler (program/src/instructions/) checks its accounts
-- and its arguments, parses the account in place (program/src/state.rs, over the cursor of
-- program/src/reader.rs), checks who may do what, edits the bytes in place, stamps the version and
-- the time, settles rent and size (instructions/shared.rs), and logs an event
-- (program/src/events.rs).
--
-- Which file models what:
--   Base, Base/*            shared names, lists over native numbers, Boolean tests
--   Error, Error/Codes      program/src/error.rs; `Result` has a third case for a panic
--   Bytes, Bytes/*          the slice operations of core that the program uses: copy_from_slice,
--                           copy_within, fill, indexing; out of bounds they panic
--   Utf8                    core::str::from_utf8, as the automaton that it is
--   Reader, Reader/Laws     program/src/reader.rs: `Reader` is the rest of the input and its length
--   State/Consts            the constants of program/src/state.rs
--   State/Sections          `Sections::parse`
--   State/View              `DidView`, `VmIter`, `SvcIter`, `VmRef`, `SvcRef`
--   State/Checks            the domain checks, `check_new_method`, `check_new_key`
--   State/Edits             `write_service`, `insert_vm`, `touch`, `version`
--   State/KeyBuffer         `KeyBufferRef`
--   State/Deprecated        the reads at an offset and the closure forms of earlier releases, whose
--                           captured variables are passed as a state; Instructions/Deprecated has
--                           the `ix_*` reads
--   Document, Document/*    the specification: a document as data, its encoding and its layout;
--                           how parsing, lookups and edits stand to it
--   Staging, Staging/*      the same for a key buffer
--   Runtime                 the store of accounts, and what the Solana runtime and its SDK provide
--   Events                  program/src/events.rs
--   Instructions/Shared     program/src/instructions/shared.rs
--   Instructions/Args       the reads of the arguments, from the handlers
--   Instructions/*          one file per file of program/src/instructions; `process` is the handler,
--                           its rules and its edit of the bytes are definitions of their own
--   Program                 program/src/lib.rs
--   Client, Client/*        program/src/client.rs: `Builders` has one definition for each builder,
--                           `Calls` the calls as data, `Upload` is `upload_key`
--   Rules, Rules/*          what the rules of the handlers guarantee of a stored document;
--                           `Rules/Whole` follows whole runs over the store, `Rules/History`
--                           sequences of instructions, `Rules/Rent` the lamports; `Rules/Roles`
--                           and `Rules/Acceptance` say in words of their own which flags and which
--                           new methods are taken
--   Tests, Tests/*          the theorems at concrete accounts
--
-- How the code is modelled. A byte is a number below 256, and an account's data a list of them. A
-- machine integer is a number with its width written where a value is stored or a sum is checked:
-- `u32_le` reduces modulo 2^32, `checked_u64` fails at 2^64, the version saturates; `i64` times are
-- their bit patterns. Offsets are `usize`; a sum of offsets of one account stays far below 2^64,
-- since an account has at most ten megabytes. A handler runs in `Act`, state passing over `Store`
-- with the errors of `Result`; a failing handler's store does not matter, since the runtime then
-- drops all changes. The iterators run on fuel, as many rounds as there are bytes left: every entry
-- takes a byte at least. Address derivation, the curve check, the clock, the rent sysvar, the
-- arithmetic on f64 and the calls of the system program are fields of the record `Runtime`, which
-- every handler takes as an argument. What the theorems on whole runs rely on of them stands in
-- `RuntimeLaws` of Rules/Storage, for lamports in `MovesLamports` of Rules/Rent, and for derived
-- addresses in `BumpsAreBytes` of Rules/Whole/Creation; the runtimes of Tests/Worlds and
-- Tests/Births keep them.
--
-- What is not modelled: `message` and `Display` of the errors, which are text for people, the debug
-- assertion of `initialize`, and borrow errors of the account cells, which do not arise since a
-- handler holds one borrow of an account at a time.
pub mod Base
pub mod Error
pub mod Bytes
pub mod Utf8
pub mod Reader
pub mod State
pub mod Document
pub mod Staging
pub mod Runtime
pub mod Events
pub mod Instructions
pub mod Program
pub mod Client
pub mod Rules
pub mod Tests
