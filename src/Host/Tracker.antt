-- ===== src/Host/Tracker.antt =====
-- The tracker of the changes that a transaction makes to its account
-- (miden-tx/src/host/account_delta_tracker.rs). The amounts are an `i128` and an `i8`, whose
-- sums wrap around; a function that may only panic has a result without errors.
pub mod Net
pub mod Slots
pub mod Split
pub mod Ends
pub mod Whole
use restartx.Common.{ℕ, ◌^◌, ◌%◌, Bool, true, false, not, ◌&&◌, ◌==◌, if◌then◌else◌}
use restartx.Common.{List, [], ◌∷◌, ◌++◌, Option, none, some, Result, ok, err, panic, ◌>>=◌, unwrap}
use restartx.Common.Ints.{ℤ, pos, negsuc, neg, abs, int_eq, is_positive, wrapping_add}
use restartx.Common.Maps.{MapKey, nat_key, BTreeMap, find, insert, remove}
use restartx.Crypto.{Felt, Word, Digest, Crypto, word_eq, empty_word}
use restartx.Types.{AccountId, id_key, Asset, FungibleAsset, NonFungibleAsset}
use restartx.Types.Asset.{fungible, non_fungible}
use restartx.Assets.Fungible
use restartx.Assets.NonFungible
use restartx.Accounts.Account.{AccountStub}
use restartx.Accounts.Delta
use restartx.Accounts.Delta.{AccountDelta, AccountStorageDelta, AccountVaultDelta}

-- The map of the latest values of the updated slots.
pub record AccountStorageDeltaTracker : Type 0 where
  pub slot_updates : BTreeMap ℕ Word

pub record AccountVaultDeltaTracker : Type 0 where
  pub fungible_assets : BTreeMap AccountId ℤ
  pub non_fungible_assets : BTreeMap Digest ℤ

pub record AccountDeltaTracker : Type 0 where
  pub storage : AccountStorageDeltaTracker
  pub vault : AccountVaultDeltaTracker
  pub init_nonce : Felt
  pub nonce_delta : Felt

-- Half the number of values of the two integer types.
abbrev pub half_i128 : ℕ
half_i128 = 2 ^ 127

abbrev pub half_i8 : ℕ
half_i8 = 2 ^ 7

module _ {K : Type 0} ⦃k : MapKey K⦄ where
  unfoldable pub update_asset_delta : ℕ → BTreeMap K ℤ → K → ℤ → BTreeMap K ℤ
  update_asset_delta half delta_map key amount = elim (find key delta_map) [
    | some entry ↦
        if int_eq entry (neg amount)
        then remove key delta_map
        else insert key (wrapping_add half entry amount) delta_map
    | none ↦ insert key amount delta_map
  ]

-- The loop of `AccountStorageDeltaTracker::into_delta`
unfoldable pub storage_delta_of : BTreeMap ℕ Word → AccountStorageDelta
storage_delta_of [] = record { cleared_items = []; updated_items = [] }
storage_delta_of ((idx, value) ∷ rest) =
    let d = storage_delta_of rest in
    if word_eq value empty_word
    then record { cleared_items = idx ∷ d.cleared_items; updated_items = d.updated_items }
    else record { cleared_items = d.cleared_items; updated_items = (idx, value) ∷ d.updated_items }

-- One round's asset, in front of those of the later rounds.
abbrev pub with_asset : Bool → Asset → AccountVaultDelta → AccountVaultDelta
with_asset true a d = record {
  added_assets = a ∷ d.added_assets;
  removed_assets = d.removed_assets;
}
with_asset false a d = record {
  added_assets = d.added_assets;
  removed_assets = a ∷ d.removed_assets;
}

-- The loop over the fungible assets.
unfoldable pub fungible_delta_of : BTreeMap AccountId ℤ → Result ⊥ AccountVaultDelta
fungible_delta_of [] = ok (record { added_assets = []; removed_assets = [] })
fungible_delta_of ((faucet_id, amount) ∷ rest) = do
  asset ← unwrap (Fungible.new faucet_id (abs amount % 2 ^ 64))
  later ← fungible_delta_of rest
  ok (with_asset (is_positive amount) (fungible asset) later)

-- The loop over the non-fungible assets.
unfoldable pub non_fungible_delta_of : BTreeMap Digest ℤ → Result ⊥ AccountVaultDelta
non_fungible_delta_of [] = ok (record { added_assets = []; removed_assets = [] })
non_fungible_delta_of ((key, amount) ∷ rest) =
    let later = non_fungible_delta_of rest in
    let asset = non_fungible (record { word = key }) in
    if int_eq amount (pos 1)
    then later >>= (λ d. ok (with_asset true asset d))
    else if int_eq amount (negsuc 0)
    then later >>= (λ d. ok (with_asset false asset d))
    else panic

-- `AccountVaultDeltaTracker::into_delta`
unfoldable pub vault_delta_of : AccountVaultDeltaTracker → Result ⊥ AccountVaultDelta
vault_delta_of t = do
  f ← fungible_delta_of t.fungible_assets
  n ← non_fungible_delta_of t.non_fungible_assets
  ok (record {
    added_assets = f.added_assets ++ n.added_assets;
    removed_assets = f.removed_assets ++ n.removed_assets;
  })

module _ ⦃d : MapKey Digest⦄ where
  unfoldable pub add_asset : AccountVaultDeltaTracker → Asset → AccountVaultDeltaTracker
  add_asset t (fungible a) = record {
    fungible_assets = update_asset_delta half_i128 t.fungible_assets a.faucet_id (pos a.amount);
    non_fungible_assets = t.non_fungible_assets;
  }
  add_asset t (non_fungible a) = record {
    fungible_assets = t.fungible_assets;
    non_fungible_assets =
        update_asset_delta half_i8 t.non_fungible_assets (NonFungible.vault_key a) (pos 1);
  }

  unfoldable pub remove_asset : AccountVaultDeltaTracker → Asset → AccountVaultDeltaTracker
  remove_asset t (fungible a) = record {
    fungible_assets =
        update_asset_delta half_i128 t.fungible_assets a.faucet_id (neg (pos a.amount));
    non_fungible_assets = t.non_fungible_assets;
  }
  remove_asset t (non_fungible a) = record {
    fungible_assets = t.fungible_assets;
    non_fungible_assets =
        update_asset_delta half_i8 t.non_fungible_assets (NonFungible.vault_key a) (negsuc 0);
  }

unfoldable pub slot_update : AccountStorageDeltaTracker → ℕ → Word → AccountStorageDeltaTracker
slot_update t slot_index new_slot_value = record {
  slot_updates = insert slot_index new_slot_value t.slot_updates;
}

unfoldable pub new : AccountStub → AccountDeltaTracker
new account = record {
  storage = record { slot_updates = [] };
  vault = record { fungible_assets = []; non_fungible_assets = [] };
  init_nonce = account.nonce;
  nonce_delta = 0;
}

module _ ⦃c : Crypto⦄ where
  unfoldable pub increment_nonce : AccountDeltaTracker → Felt → AccountDeltaTracker
  increment_nonce t value = record {
    storage = t.storage;
    vault = t.vault;
    init_nonce = t.init_nonce;
    nonce_delta = c.felt_add t.nonce_delta value;
  }

  abbrev pub nonce_of : AccountDeltaTracker → Option Felt
  nonce_of t = if t.nonce_delta == 0 then none else some (c.felt_add t.init_nonce t.nonce_delta)

  unfoldable pub into_delta : AccountDeltaTracker → Result ⊥ AccountDelta
  into_delta t = do
    vault_delta ← vault_delta_of t.vault
    unwrap (Delta.new (storage_delta_of t.storage.slot_updates) vault_delta (nonce_of t))
