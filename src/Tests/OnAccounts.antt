-- ===== src/Tests/OnAccounts.antt =====
-- Examples on accounts.
use restartx.Common.{ℕ, ◌<◌, ◌≡◌, ◌≢◌, ◌↔◌, ◌⊎◌, refl, arith}
use restartx.Common.{true, if◌then◌else◌, [], ◌∷◌, map}
use restartx.Common.{zero, suc, List, none, some, ok}
use restartx.Common.Bits.{count_ones, trailing_zeros}
use restartx.Common.Bytes.{of_le_bytes}
use restartx.Crypto.{Felt, Word, Digest, Crypto, IsWord, empty_word}
use restartx.Merkle.{leaf_of}
use restartx.Types.{AccountType, AccountStorageType, StorageSlotType, Asset}
use restartx.Accounts.Id
use restartx.Accounts.Seed
use restartx.Accounts.Seed.{Stop}
use restartx.Accounts.Seed.Search.{chain, IsSuitable, IsFirst, get_account_seed_single_finds}
use restartx.Accounts.Slot
use restartx.Accounts.Slot.Codes.{to_felt-injective}
use restartx.Accounts.Delta
use restartx.Accounts.Delta.{AccountStorageDelta, AccountVaultDelta, AccountDelta}
use restartx.Accounts.Delta.Checks.{
  IsStorageDelta, IsVaultDelta, keys, validate_storage_iff, delta_checks,
}
use restartx.Accounts.Storage
use restartx.Accounts.Storage.{AccountStorage, SlotItem, StorageSlot}
use restartx.Accounts.Storage.Layout.{IsWellFormed, new-IsWellFormed, entry_of}
use restartx.Accounts.Storage.Update.{IsWritable}
use restartx.Accounts.Storage.Apply.{apply_delta_lem, apply_delta-IsWellFormed}
use restartx.Assets.Vault
use restartx.Assets.Vault.{AssetVault}
use restartx.Accounts.Account
use restartx.Accounts.Account.{Account}
use restartx.Accounts.Account.Update.{IsSuccessor, apply_delta-IsSuccessor}
use restartx.Accounts.Account.Applied.{Steps, apply_delta_ok}
use restartx.Tests.{toy_crypto, toy_smt, toy_simple_smt, fixed_digest, regular_id}
use restartx.Tests.{coins, empty_vault, empty_storage, empty_layout}

-- The seed digest is the fixed one.
new_runs : Id.new empty_word empty_word empty_word ≡ ok regular_id
unfolding Id.new Id.compute_digest Id.validate_seed_digest Id.digest_pow Id.is_regular_account
    Id.account_type_of Id.try_from_felt count_ones trailing_zeros
new_runs = refl

abbrev regular : AccountType
regular = AccountType.regular_account_immutable_code

-- A hash that gives a bad digest for elements that start with 0, and the fixed digest for others.
abbrev low_digest : Digest
low_digest = record { e0 = 1; e1 = 0; e2 = 0; e3 = 0 }

abbrev second_hash : List Felt → Digest
second_hash (zero ∷ es) = low_digest
second_hash _ = fixed_digest

second_hash-IsWord : (es : List Felt) → IsWord (second_hash es)
second_hash-IsWord [] = toy_crypto.hash_elements-IsWord []
second_hash-IsWord (zero ∷ es) = (omega arith, omega arith, omega arith, omega arith)
second_hash-IsWord (suc e ∷ es) = toy_crypto.hash_elements-IsWord []

abbrev second_crypto : Crypto
second_crypto = record {
  felt_new = toy_crypto.felt_new;
  felt_add = toy_crypto.felt_add;
  felt_of_bytes = toy_crypto.felt_of_bytes;
  hash_elements = second_hash;
  hash_bytes = toy_crypto.hash_bytes;
  merge = toy_crypto.merge;
  felt_new-lt = toy_crypto.felt_new-lt;
  felt_new_of_lt = toy_crypto.felt_new_of_lt;
  felt_add_lem = toy_crypto.felt_add_lem;
  felt_of_bytes_lem = toy_crypto.felt_of_bytes_lem;
  hash_elements-IsWord = second_hash-IsWord;
  hash_bytes-IsWord = toy_crypto.hash_bytes-IsWord;
  merge-IsWord = toy_crypto.merge-IsWord;
}

-- The first candidate has a digest with one bit, the second has the fixed digest.
seed_runs :
    Seed.get_account_seed_single ⦃c = second_crypto⦄ 2 [] regular AccountStorageType.on_chain
      empty_word empty_word
    ≡ ok low_digest
unfolding Seed.get_account_seed_single Seed.search Seed.first_seed Id.compute_digest of_le_bytes
    Seed.accepts Id.validate_seed_digest Id.is_regular_account Id.account_type_of Id.digest_pow
    Id.account_type Id.storage_type Id.try_from_felt trailing_zeros count_ones
seed_runs = refl

second-IsSuitable :
    IsSuitable ⦃c = second_crypto⦄ regular AccountStorageType.on_chain empty_word empty_word (
      chain ⦃c = second_crypto⦄ regular AccountStorageType.on_chain empty_word empty_word 1
        (Seed.first_seed ⦃c = second_crypto⦄ []))
unfolding Id.new Seed.first_seed Id.compute_digest of_le_bytes Id.validate_seed_digest
    Id.is_regular_account Id.account_type_of Id.digest_pow Id.account_type Id.storage_type
    Id.try_from_felt trailing_zeros count_ones
second-IsSuitable = (regular_id, refl, refl, refl)

get_account_seed_single_finds_example :
    (seed : Word) × (Seed.get_account_seed_single ⦃c = second_crypto⦄ 2 [] regular
        AccountStorageType.on_chain empty_word empty_word
      ≡ ok seed)
    × IsFirst ⦃c = second_crypto⦄ regular AccountStorageType.on_chain empty_word empty_word 1
        (Seed.first_seed ⦃c = second_crypto⦄ [])
        seed
get_account_seed_single_finds_example =
    get_account_seed_single_finds ⦃c = second_crypto⦄ regular AccountStorageType.on_chain empty_word
      empty_word 1 2 [] (omega arith) second-IsSuitable

abbrev list_type : StorageSlotType
list_type = StorageSlotType.array 5 3

list_type_valid : Slot.is_valid list_type ≡ true
unfolding Slot.is_valid
list_type_valid = refl

to_felt-injective_example : list_type ≡ list_type
to_felt-injective_example =
    to_felt-injective list_type list_type list_type_valid list_type_valid refl

abbrev some_word : Word
some_word = record { e0 = 1; e1 = 2; e2 = 3; e3 = 4 }

abbrev slot_delta : AccountStorageDelta
slot_delta = record { cleared_items = 3 ∷ []; updated_items = (7, some_word) ∷ [] }

slot_delta-IsStorageDelta : IsStorageDelta slot_delta
slot_delta-IsStorageDelta = record {
  few_cleared = omega arith;
  few_updated = omega arith;
  cleared_mutable = (omega arith, tt);
  updated_mutable = (omega arith, tt);
  cleared_distinct = (tt, tt);
  updated_distinct = (tt, tt);
  disjoint = (refl, tt);
}

validate_storage_iff_example :
    (Delta.validate_storage slot_delta ≡ ok tt) ↔ IsStorageDelta slot_delta
validate_storage_iff_example = validate_storage_iff slot_delta

abbrev coin_delta : AccountVaultDelta
coin_delta = record { added_assets = Asset.fungible coins ∷ []; removed_assets = [] }

abbrev whole_delta : AccountDelta
whole_delta = record { storage = slot_delta; vault = coin_delta; nonce = some 9 }

delta_runs : Delta.new slot_delta coin_delta (some 9) ≡ ok whole_delta
unfolding Delta.new Delta.validate_storage Delta.validate_vault Delta.validate_nonce
    Delta.check_cleared Delta.check_updated Delta.check_added Delta.check_removed
    Delta.is_storage_delta_empty Delta.is_vault_delta_empty
delta_runs = refl

delta_checks_example :
    IsStorageDelta whole_delta.storage
    × IsVaultDelta whole_delta.vault
    × ((Delta.is_empty whole_delta ≡ true) ↔ (whole_delta.nonce ≡ none))
    × (whole_delta.nonce ≢ some 0)
delta_checks_example = delta_checks slot_delta coin_delta (some 9) whole_delta delta_runs

empty_storage-IsWellFormed : IsWellFormed empty_storage
unfolding Storage.get_item Storage.layout_commitment Storage.commitment_of
empty_storage-IsWellFormed = record { all_slots = refl; last_type = refl; last_item = refl }

no_items_runs : Storage.new [] ≡ ok empty_storage
unfolding Storage.new Storage.process_items Storage.initial_layout Storage.commitment_of
no_items_runs = refl

new-IsWellFormed_example :
    IsWellFormed empty_storage
    × ((j : ℕ) → j ≢ 255 → Storage.get_item empty_storage j ≡ leaf_of j (map entry_of []))
new-IsWellFormed_example = new-IsWellFormed [] empty_storage no_items_runs

writable3 : IsWritable empty_layout 3
writable3 = record { not_last = omega arith; value_type = refl }

writable7 : IsWritable empty_layout 7
writable7 = record { not_last = omega arith; value_type = refl }

apply_delta_lem_example :
    (after : AccountStorage) × (Storage.apply_delta empty_storage slot_delta ≡ (ok tt, after))
    × (after.layout ≡ empty_storage.layout)
    × ((j : ℕ)
        → Storage.get_item after j ≡ (
            if Delta.contains (keys slot_delta.updated_items) j
            then leaf_of j slot_delta.updated_items
            else if Delta.contains slot_delta.cleared_items j
            then empty_word
            else Storage.get_item empty_storage j))
apply_delta_lem_example =
    apply_delta_lem empty_storage slot_delta slot_delta-IsStorageDelta (writable3, tt)
      (writable7, tt)

apply_delta-IsWellFormed_example : IsWellFormed (Storage.apply_delta empty_storage slot_delta).1
apply_delta-IsWellFormed_example =
    apply_delta-IsWellFormed empty_storage slot_delta slot_delta-IsStorageDelta
      empty_storage-IsWellFormed

abbrev holder : Account
holder = record {
  id = regular_id;
  vault = empty_vault;
  storage = empty_storage;
  code = record { code_root = empty_word };
  nonce = 4;
}

apply_delta-IsSuccessor_example : IsSuccessor holder (Account.apply_delta holder whole_delta).1
apply_delta-IsSuccessor_example = apply_delta-IsSuccessor holder whole_delta

abbrev storage_only : AccountDelta
storage_only = record {
  storage = slot_delta;
  vault = record { added_assets = []; removed_assets = [] };
  nonce = some 9;
}

abbrev after_storage_only : Account
after_storage_only = (Account.apply_delta holder storage_only).1

storage_only_runs : Account.apply_delta holder storage_only ≡ (ok tt, after_storage_only)
unfolding Account.apply_delta Account.update_storage Account.update_nonce Account.set_nonce
    Storage.apply_delta Storage.setting Storage.set_item Storage.check_item Storage.check_slot_type
storage_only_runs = refl

apply_delta_ok_example :
    ((mid : AssetVault) × Steps Vault.add_asset holder.vault storage_only.vault.added_assets mid
      × Steps Vault.remove_asset mid storage_only.vault.removed_assets after_storage_only.vault)
    × (Storage.apply_delta holder.storage storage_only.storage
        ≡ (ok tt, after_storage_only.storage))
    × (((storage_only.nonce ≡ none) × (after_storage_only.nonce ≡ holder.nonce))
        ⊎ ((storage_only.nonce ≡ some after_storage_only.nonce)
            × (holder.nonce < after_storage_only.nonce)))
apply_delta_ok_example = apply_delta_ok holder after_storage_only storage_only storage_only_runs
