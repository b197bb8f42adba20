-- ===== src/Accounts/Delta.antt =====
-- Account deltas (objects/src/accounts/delta/mod.rs, storage.rs, vault.rs). A slot index is a
-- `u8`; the constructor of `InconsistentNonceUpdate` is left without its text.
pub mod Checks
use restartx.Common.{ℕ, ◌==◌, ltb, ◌^◌, ◌-◌, Bool, true, false, not, ◌&&◌, ◌||◌, if◌then◌else◌}
use restartx.Common.{List, [], ◌∷◌, ◌++◌, length, any, Option, none, some}
use restartx.Common.{Result, ok, err, panic, ◌>>=◌, ◌>>◌, guard}
use restartx.Crypto.{Felt, Word}
use restartx.Types.{Asset}
use restartx.Errors.{AccountDeltaError}
use restartx.Assets.Value

abbrev pub max_mutable_storage_slot_idx : ℕ
max_mutable_storage_slot_idx = 254

pub record AccountStorageDelta : Type 0 where
  pub cleared_items : List ℕ
  pub updated_items : List (ℕ × Word)

pub record AccountVaultDelta : Type 0 where
  pub added_assets : List Asset
  pub removed_assets : List Asset

pub record AccountDelta : Type 0 where
  pub storage : AccountStorageDelta
  pub vault : AccountVaultDelta
  pub nonce : Option Felt

-- `contains` on indices
abbrev pub contains : List ℕ → ℕ → Bool
contains xs i = any (λ j. j == i) xs

-- The loop over the cleared items, with those before the current one, the last one first.
unfoldable pub check_cleared : List ℕ → List ℕ → Result AccountDeltaError (Unit {0})
check_cleared before [] = ok tt
check_cleared before (idx ∷ rest) =
    let later = check_cleared (idx ∷ before) rest in
    if ltb max_mutable_storage_slot_idx idx
    then err (AccountDeltaError.immutable_storage_slot idx)
    else if contains before idx
    then err (AccountDeltaError.duplicate_storage_item_update idx)
    else later

-- The loop over the updated items.
unfoldable pub check_updated :
    List ℕ → List ℕ → List (ℕ × Word) → Result AccountDeltaError (Unit {0})
check_updated cleared before [] = ok tt
check_updated cleared before ((idx, value) ∷ rest) =
    let later = check_updated cleared (idx ∷ before) rest in
    if ltb max_mutable_storage_slot_idx idx
    then err (AccountDeltaError.immutable_storage_slot idx)
    else if contains cleared idx
    then err (AccountDeltaError.duplicate_storage_item_update idx)
    else if contains before idx
    then err (AccountDeltaError.duplicate_storage_item_update idx)
    else later

-- `AccountStorageDelta::validate`
unfoldable pub validate_storage : AccountStorageDelta → Result AccountDeltaError (Unit {0})
validate_storage delta = do
  let num_cleared_items = length delta.cleared_items
  let num_updated_items = length delta.updated_items
  guard (not (ltb 255 num_cleared_items))
      (AccountDeltaError.too_many_cleared_storage_items num_cleared_items 255)
  guard (not (ltb 255 num_updated_items))
      (AccountDeltaError.too_many_removed_assets num_updated_items 255)
  check_cleared [] delta.cleared_items
  check_updated delta.cleared_items [] delta.updated_items

unfoldable pub is_storage_delta_empty : AccountStorageDelta → Bool
is_storage_delta_empty delta =
    (length delta.cleared_items == 0) && (length delta.updated_items == 0)

abbrev pub contains_asset : List Asset → Asset → Bool
contains_asset xs asset = any (λ a. Value.is_same a asset) xs

-- The loop over the added assets.
unfoldable pub check_added : List Asset → List Asset → Result AccountDeltaError (Unit {0})
check_added before [] = ok tt
check_added before (asset ∷ rest) =
    let later = check_added (asset ∷ before) rest in
    if contains_asset before asset
    then err (AccountDeltaError.duplicate_vault_update asset)
    else later

-- The loop over the removed assets.
unfoldable pub check_removed :
    List Asset → List Asset → List Asset → Result AccountDeltaError (Unit {0})
check_removed added before [] = ok tt
check_removed added before (asset ∷ rest) =
    let later = check_removed added (asset ∷ before) rest in
    if contains_asset before asset
    then err (AccountDeltaError.duplicate_vault_update asset)
    else if contains_asset added asset
    then err (AccountDeltaError.duplicate_vault_update asset)
    else later

-- `AccountVaultDelta::validate`
unfoldable pub validate_vault : AccountVaultDelta → Result AccountDeltaError (Unit {0})
validate_vault delta = do
  let num_added = length delta.added_assets
  let num_removed = length delta.removed_assets
  guard (not (ltb (2 ^ 16 - 1) num_added))
      (AccountDeltaError.too_many_added_asset num_added (2 ^ 16 - 1))
  guard (not (ltb (2 ^ 16 - 1) num_removed))
      (AccountDeltaError.too_many_removed_assets num_removed (2 ^ 16 - 1))
  check_added [] delta.added_assets
  check_removed delta.added_assets [] delta.removed_assets

unfoldable pub is_vault_delta_empty : AccountVaultDelta → Bool
is_vault_delta_empty delta = (length delta.added_assets == 0) && (length delta.removed_assets == 0)

unfoldable pub validate_nonce :
    Option Felt → AccountStorageDelta → AccountVaultDelta → Result AccountDeltaError (Unit {0})
validate_nonce (some nonce) storage vault =
    if not (is_storage_delta_empty storage) || not (is_vault_delta_empty vault)
    then guard (not (nonce == 0)) AccountDeltaError.inconsistent_nonce_update
    else err AccountDeltaError.inconsistent_nonce_update
validate_nonce none storage vault =
    guard (not (not (is_storage_delta_empty storage) || not (is_vault_delta_empty vault)))
      AccountDeltaError.inconsistent_nonce_update

-- `AccountDelta::new`
unfoldable pub new :
    AccountStorageDelta → AccountVaultDelta → Option Felt → Result AccountDeltaError AccountDelta
new storage vault nonce = do
  validate_storage storage
  validate_vault vault
  validate_nonce nonce storage vault
  ok (record { storage = storage; vault = vault; nonce = nonce })

-- `AccountDelta::is_empty`
unfoldable pub is_empty : AccountDelta → Bool
is_empty delta = is_storage_delta_empty delta.storage && is_vault_delta_empty delta.vault
