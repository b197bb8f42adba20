-- ===== src/Tests.antt =====
-- Concrete instances of the interfaces to foreign code, and a few objects, for the examples.
pub mod Interfaces
pub mod OnAccounts
pub mod OnAssets
pub mod OnNotes
pub mod OnTransactions
pub mod OnHost
pub mod OnBlocks
pub mod OnStreams
pub mod OnKernel
use restartx.Common.{ℕ, ◌+◌, ◌-◌, ◌*◌, ◌/◌, ◌%◌, ◌^◌, ◌<◌, ◌≡◌, refl, arith}
use restartx.Types.{StorageSlotType}
use restartx.Assets.NonFungible
use restartx.Common.{sym, ap, ◌==◌}
use restartx.Common.{Bool, true, false, ltb, if◌then◌else◌, List, [], ◌∷◌, Option, none, some, ok}
use restartx.Common.{set_elem, replicate}
use restartx.Common.Bits.{count_ones}
use restartx.Common.Bytes.{of_le_bytes}
use restartx.Crypto.{Word, Digest, Crypto, empty_word, word_eq, field_modulus}
use restartx.Merkle.{
  Smt, SimpleSmt, Entries, Leaves, has_duplicate, value_of, has_repeated, leaf_of,
}
use restartx.Types.{AccountId, FungibleAsset, NonFungibleAsset}
use restartx.Accounts.Id
use restartx.Accounts.Id.Valid
use restartx.Assets.Value.Valid.{IsValidFungible, IsValidNonFungible}
use restartx.Assets.Vault.{AssetVault}
use restartx.Assets.Vault.Invariant.{IsWellFormed, Entry}
use restartx.Accounts.Storage
use restartx.Accounts.Storage.{AccountStorage}

-- A hash whose value is the seed digest of a regular account on chain.
abbrev pub fixed_digest : Digest
fixed_digest = record { e0 = 31; e1 = 1; e2 = 2; e3 = 2 ^ 31 }

instance abbrev pub toy_crypto : Crypto
toy_crypto = record {
  felt_new = λ v. v % field_modulus;
  felt_add = λ a b. (a + b) % field_modulus;
  felt_of_bytes = λ bs. if ltb (of_le_bytes bs) field_modulus then some (of_le_bytes bs) else none;
  hash_elements = λ es. fixed_digest;
  hash_bytes = λ bs. fixed_digest;
  merge = λ a b. fixed_digest;
  felt_new-lt = λ v. omega arith;
  felt_new_of_lt = λ v h. omega (arith, h);
  felt_add_lem = λ a b. refl;
  felt_of_bytes_lem = λ bs l b. refl;
  hash_elements-IsWord = λ es. (omega arith, omega arith, omega arith, omega arith);
  hash_bytes-IsWord = λ bs. (omega arith, omega arith, omega arith, omega arith);
  merge-IsWord = λ a b. (omega arith, omega arith, omega arith, omega arith);
}

-- Trees as functions.
abbrev pub made_tree : Bool → Entries → Option (Word → Word)
made_tree true kvs = none
made_tree false kvs = some (λ k. value_of k kvs)

read_tree : Word → Option (Word → Word) → Word
read_tree k none = empty_word
read_tree k (some t) = t k

pub made_tree_read :
    (b : Bool) (kvs : Entries) (t : Word → Word) (k : Word)
    → made_tree b kvs ≡ some t
    → t k ≡ value_of k kvs
unfolding read_tree
made_tree_read true kvs t k h = cc
made_tree_read false kvs t k h = sym (ap (read_tree k) h)

instance abbrev pub toy_smt : Smt
toy_smt = record {
  Tree = Word → Word;
  new = λ k. empty_word;
  root = λ t. t fixed_digest;
  get_value = λ t k. t k;
  insert = λ t k v. (t k, λ j. if word_eq k j then v else t j);
  with_entries = λ kvs. made_tree (has_duplicate kvs) kvs;
  get_value-new = λ k. refl;
  insert_old = λ t k v. refl;
  get_value-insert = λ t k v j. refl;
  with_entries_duplicate = λ kvs h. rw h refl;
  with_entries_some = λ kvs h. (λ k. value_of k kvs, rw h refl);
  get_value-with_entries = λ kvs t k h. made_tree_read (has_duplicate kvs) kvs t k h;
}

abbrev pub made_slots : Bool → Leaves → Option (ℕ → Word)
made_slots true ls = none
made_slots false ls = some (λ i. leaf_of i ls)

read_slots : ℕ → Option (ℕ → Word) → Word
read_slots i none = empty_word
read_slots i (some t) = t i

pub made_slots_read :
    (b : Bool) (ls : Leaves) (t : ℕ → Word) (i : ℕ) → made_slots b ls ≡ some t → t i ≡ leaf_of i ls
unfolding read_slots
made_slots_read true ls t i h = cc
made_slots_read false ls t i h = sym (ap (read_slots i) h)

instance abbrev pub toy_simple_smt : SimpleSmt
toy_simple_smt = record {
  SlotTree = ℕ → Word;
  slot_root = λ t. t 0;
  get_leaf = λ t i. t i;
  insert_leaf = λ t i v. (t i, λ j. if i == j then v else t j);
  with_leaves = λ ls. made_slots (has_repeated ls) ls;
  insert_leaf_old = λ t i v. refl;
  get_leaf-insert_leaf = λ t i v j. refl;
  with_leaves_repeated = λ ls h. rw h refl;
  with_leaves_some = λ ls r h. (λ i. leaf_of i ls, rw h refl);
  get_leaf-with_leaves = λ ls t i h. made_slots_read (has_repeated ls) ls t i h;
}

-- A regular account, a fungible faucet and a non-fungible faucet, all on chain.
abbrev pub regular_id : AccountId
regular_id = record { felt = 31 }

abbrev pub coin_faucet : AccountId
coin_faucet = record { felt = 2 * 2 ^ 60 + 31 }

abbrev pub art_faucet : AccountId
art_faucet = record { felt = 3 * 2 ^ 60 + 31 }

abbrev pub coins : FungibleAsset
coins = record { faucet_id = coin_faucet; amount = 100 }

abbrev pub art : NonFungibleAsset
art = record { word = record { e0 = 5; e1 = art_faucet.felt; e2 = 7; e3 = 9 } }

pub coin_faucet-IsValid : Valid.IsValid coin_faucet
unfolding Id.try_from_felt count_ones
coin_faucet-IsValid = record { is_felt = omega arith; accepted = refl }

pub art_faucet-IsValid : Valid.IsValid art_faucet
unfolding Id.try_from_felt count_ones
art_faucet-IsValid = record { is_felt = omega arith; accepted = refl }

pub coins-IsValidFungible : IsValidFungible coins
unfolding Id.account_type
coins-IsValidFungible = record { faucet = coin_faucet-IsValid; kind = refl; bounded = omega arith }

pub art-IsValidNonFungible : IsValidNonFungible art
unfolding Id.account_type NonFungible.faucet_id
art-IsValidNonFungible = record {
  faucet = art_faucet-IsValid;
  kind = refl;
  is_word = (omega arith, omega arith, omega arith, omega arith);
  cleared = refl;
}

abbrev pub empty_vault : AssetVault
empty_vault = record { asset_tree = λ k. empty_word }

pub empty_vault-IsWellFormed : IsWellFormed empty_vault
empty_vault-IsWellFormed = record { entry = λ key. Entry.vacant refl }

-- Storage without items.
abbrev pub empty_layout : List StorageSlotType
empty_layout = set_elem (replicate 256 (StorageSlotType.value 0)) 255 (StorageSlotType.value 64)

abbrev pub empty_storage : AccountStorage
empty_storage = record { slots = λ i. leaf_of i ((255, fixed_digest) ∷ []); layout = empty_layout }
