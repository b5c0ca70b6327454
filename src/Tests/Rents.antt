-- ===== src/Tests/Rents.antt =====
-- The theorem on rent, where an account pays for 100 bytes.
use bio_did_registry.Base.{ℕ, ◌≡◌, refl, true, false, [], bytes_eq}
use bio_did_registry.Error.{Result, ok, err, panic}
use bio_did_registry.Bytes.{from_le_bytes, split_at_checked}
use bio_did_registry.Reader.{bytes}
use bio_did_registry.Runtime.{Store}
use bio_did_registry.Instructions.Shared.{
  settle_rent, settle_to, rent_minimum_balance, rent_by_layout, classic_rent,
}
use bio_did_registry.Rules.Rent.{Settled, settle_rent-Settled}
use bio_did_registry.Tests.Samples.{guardian}
use bio_did_registry.Tests.Authority.{program, controller_address}
use bio_did_registry.Tests.Worlds.{world, world-MovesLamports}

-- Every account has half a million lamports.
abbrev store : Store
store = record {
  accounts = λ _. record {
    owner = program;
    lamports = 500000;
    content = [];
    is_signer = true;
    is_writable = true;
  };
  logs = [];
}

abbrev outcome : Result (Unit {0} × Store) → Unit {0} × Store
outcome (ok r) = r
outcome (err e) = (tt, store)
outcome panic = (tt, store)

abbrev paid : Unit {0} × Store
paid = outcome (settle_rent world controller_address guardian 100 store)

pays : settle_rent world controller_address guardian 100 store ≡ ok paid
unfolding settle_rent settle_to rent_minimum_balance rent_by_layout classic_rent bytes_eq
    from_le_bytes split_at_checked bytes
pays = refl

apart : bytes_eq guardian controller_address ≡ false
unfolding bytes_eq
apart = refl

settle_rent-Settled_example :
    (m : ℕ) × (rent_minimum_balance world 100 ≡ ok m)
    × Settled controller_address guardian m store paid.1
settle_rent-Settled_example =
    settle_rent-Settled world world-MovesLamports controller_address guardian 100 store paid apart
      pays
