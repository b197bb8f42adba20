-- ===== src/Accounts/Seed.antt =====
-- The search for a seed (objects/src/accounts/seed.rs, `get_account_seed_single`). The chain of
-- candidates has no known end, so the loop takes fuel.
pub mod Search
use restartx.Common.{ℕ, zero, suc, ◌+◌, ◌*◌, Bool, true, false, ◌==◌, if◌then◌else◌}
use restartx.Common.{List, take, drop, Result, ok, err, panic, ◌>>=◌}
use restartx.Common.Bytes.{of_le_bytes}
use restartx.Crypto.{Word, Digest, Crypto}
use restartx.Types.{AccountId, AccountType, AccountStorageType}
use restartx.Accounts.Id

pub data Stop : Type 0 where
  out_of_fuel : Stop

-- The tests that a candidate's digest has to pass, in their order.
unfoldable pub accepts : AccountType → AccountStorageType → Digest → Result Stop Bool
accepts type storage digest = elim (Id.validate_seed_digest digest) [
  | ok _ ↦ elim (Id.try_from_felt digest.e0) [
    | ok id ↦
        if Id.type_eq (Id.account_type id) type
        then (Id.storage_type id >>= λ s. ok (Id.storage_eq s storage))
        else ok false
    | err _ ↦ ok false
    | panic ↦ panic
  ]
  | err _ ↦ ok false
  | panic ↦ panic
]

module _ ⦃c : Crypto⦄ where
  -- The four words of eight bytes of the initial seed.
  unfoldable pub first_seed : List ℕ → Word
  first_seed init_seed = record {
    e0 = c.felt_new (of_le_bytes (take 8 init_seed));
    e1 = c.felt_new (of_le_bytes (take 8 (drop 8 init_seed)));
    e2 = c.felt_new (of_le_bytes (take 8 (drop 16 init_seed)));
    e3 = c.felt_new (of_le_bytes (take 8 (drop 24 init_seed)));
  }

  module _ (type : AccountType) (storage : AccountStorageType)
      (code_root storage_root : Digest) where
    -- `current_seed` and `current_digest` are the variables of the loop.
    unfoldable pub search : ℕ → Word → Digest → Result Stop Word
    search zero current_seed current_digest = err out_of_fuel
    search (suc fuel) current_seed current_digest = elim (accepts type storage current_digest) [
      | ok true ↦ ok current_seed
      | ok false ↦
          search fuel current_digest (Id.compute_digest current_digest code_root storage_root)
      | err stop ↦ err stop
      | panic ↦ panic
    ]

  unfoldable pub get_account_seed_single :
      ℕ → List ℕ → AccountType → AccountStorageType → Digest → Digest → Result Stop Word
  get_account_seed_single fuel init_seed type storage code_root storage_root =
      let seed = first_seed init_seed in
      search type storage code_root storage_root fuel seed
        (Id.compute_digest seed code_root storage_root)
