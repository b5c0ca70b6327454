-- ===== src/Tests/Births.antt =====
-- The theorem on the creation of a document, where an address without an account gets one.
use bio_did_registry.Base.{
  ap, ◌≡◌, refl, true, some, [], ◌∷◌, arith, replicate, bytes_eq, if◌then◌else◌,
}
use bio_did_registry.Error.{Result, ok, err, panic, ok_injective}
use bio_did_registry.Bytes.{Bytes, to_le_bytes, from_le_bytes, split_at_checked, copy_from_slice}
use bio_did_registry.Reader.{bytes}
use bio_did_registry.Runtime.{Runtime, Store}
use bio_did_registry.Instructions.Shared.{find_pda}
use bio_did_registry.Instructions.Initialize.{process}
use bio_did_registry.Rules.Storage.{RuntimeLaws}
use bio_did_registry.Rules.Whole.Creation.{BumpsAreBytes, Created, initialize-Created}
use bio_did_registry.Tests.Samples.{owner, guardian, replicate-IsByte}
use bio_did_registry.Tests.Authority.{controller_address}
use bio_did_registry.Tests.Worlds.{world, world-RuntimeLaws}

abbrev system : Bytes
system = replicate 32 0

-- A runtime that derives one address, and creates accounts of zeros.
abbrev nursery : Runtime
nursery = record world {
  derive_program_address = λ _. some (controller_address, 255);
  create_account = λ _ from to lamports space holder s. ok (record s {
    accounts = λ c.
        let v = s.accounts c in
        if bytes_eq c to
        then record v { owner = holder; lamports = lamports; content = replicate space 0 }
        else v;
  });
}

nursery-RuntimeLaws : RuntimeLaws nursery
nursery-RuntimeLaws = record {
  shrinks = world-RuntimeLaws.shrinks;
  grows = world-RuntimeLaws.grows;
  transfers = world-RuntimeLaws.transfers;
  clock_range = world-RuntimeLaws.clock_range;
}

nursery-BumpsAreBytes : BumpsAreBytes nursery
unfolding find_pda
nursery-BumpsAreBytes seeds pda bump h =
    let same : 255 ≡ bump = ap (λ p. p.1) (ok_injective h) in omega (arith, same)

-- No account has bytes yet.
abbrev store : Store
store = record {
  accounts = λ _. record {
    owner = system;
    lamports = 0;
    content = [];
    is_signer = true;
    is_writable = true;
  };
  logs = [];
}

abbrev outcome : Result (Unit {0} × Store) → Unit {0} × Store
outcome (ok r) = r
outcome (err e) = (tt, store)
outcome panic = (tt, store)

abbrev born : Unit {0} × Store
born = outcome (process nursery (guardian ∷ controller_address ∷ system ∷ []) owner store)

bears : process nursery (guardian ∷ controller_address ∷ system ∷ []) owner store ≡ ok born
unfolding process bytes_eq bytes split_at_checked from_le_bytes copy_from_slice to_le_bytes
bears = refl

initialize-Created_example : Created nursery born.1 controller_address owner owner
initialize-Created_example =
    initialize-Created nursery nursery-RuntimeLaws nursery-BumpsAreBytes guardian controller_address
      system store born [] owner (replicate-IsByte 32 7 (omega arith)) bears
