-- ===== src/Assets/Vault.antt =====
-- The asset vault (objects/src/assets/vault.rs). A method on `&mut self` returns its result and
-- the vault that it leaves, also where it fails.
pub mod Invariant
pub mod Reads
pub mod Add
pub mod Remove
use restartx.Common.{ℕ, ◌==◌, Bool, true, false, not, if◌then◌else◌, List, [], ◌∷◌, map}
use restartx.Common.{Option, none, some, Result, ok, err, panic, ◌>>=◌, guard, map_err}
use restartx.Crypto.{Word, Digest, Crypto, empty_word, word_eq}
use restartx.Merkle.{Smt}
use restartx.Types.{AccountId, Asset, FungibleAsset, NonFungibleAsset}
use restartx.Types.Asset.{fungible, non_fungible}
use restartx.Errors.{AssetError, AssetVaultError}
use restartx.Assets.Fungible
use restartx.Assets.NonFungible
use restartx.Assets.Value

-- `value == Smt::EMPTY_VALUE`
abbrev pub is_empty : Word → Bool
is_empty w = word_eq w empty_word

-- The amount that `get_balance` reads in an entry.
abbrev pub amount_in : Word → ℕ
amount_in value = if is_empty value then 0 else value.e0

-- The asset that `add_fungible_asset` writes, from the entry that it finds.
unfoldable pub total_of : Word → FungibleAsset → Result AssetVaultError FungibleAsset
total_of current asset =
    if is_empty current
    then ok asset
    else map_err AssetVaultError.add_fungible_asset_balance_error
        (Fungible.add (Fungible.new_unchecked current) asset)

-- What `remove_fungible_asset` leaves of the entry that it finds.
unfoldable pub rest_of : Word → FungibleAsset → Result AssetVaultError FungibleAsset
rest_of value asset =
    if is_empty value
    then err (AssetVaultError.fungible_asset_not_found asset)
    else elim (Fungible.sub (Fungible.new_unchecked value) asset.amount) [
      | ok (current, removed) ↦ ok current
      | err e ↦ err (AssetVaultError.subtract_fungible_asset_balance_error e)
      | panic ↦ panic
    ]

module _ ⦃m : Smt⦄ where
  pub record AssetVault : Type 0 where
    pub asset_tree : m.Tree

  -- `asset_tree.insert` where the old value is not used
  abbrev pub written : AssetVault → Word → Word → AssetVault
  written vault key value = record { asset_tree = (m.insert vault.asset_tree key value).1 }

  abbrev pub stored : AssetVault → Word → Word
  stored vault key = m.get_value vault.asset_tree key

  unfoldable pub commitment : AssetVault → Digest
  commitment vault = m.root vault.asset_tree

  unfoldable pub has_non_fungible_asset : AssetVault → Asset → Result AssetVaultError Bool
  has_non_fungible_asset vault asset =
      if Value.is_fungible asset
      then err (AssetVaultError.not_a_non_fungible_asset asset)
      else ok (not (is_empty (stored vault (Value.vault_key asset))))

  unfoldable pub get_balance : AssetVault → AccountId → Result AssetVaultError ℕ
  get_balance vault id =
      if Fungible.is_fungible_faucet id
      then (let value = stored vault (record { e0 = 0; e1 = 0; e2 = 0; e3 = id.felt }) in
          ok (amount_in value))
      else err (AssetVaultError.not_a_fungible_faucet_id id)

  -- The write is made before the test for a duplicate.
  unfoldable pub add_non_fungible_asset :
      AssetVault → NonFungibleAsset → Result AssetVaultError NonFungibleAsset × AssetVault
  add_non_fungible_asset vault asset =
      let (old, tree) = m.insert vault.asset_tree (NonFungible.vault_key asset) asset.word in
      (
        if not (is_empty old)
            then err (AssetVaultError.duplicate_non_fungible_asset asset)
            else ok asset,
        record { asset_tree = tree },
      )

  -- `Asset::Fungible(self.add_fungible_asset(asset)?)` and its like
  abbrev pub wrap :
      {A : Type 0}
      → (A → Asset)
      → Result AssetVaultError A × AssetVault
      → Result AssetVaultError Asset × AssetVault
  wrap f (r, vault) = (r >>= (λ a. ok (f a)), vault)

  unfoldable pub remove_non_fungible_asset :
      AssetVault → NonFungibleAsset → Result AssetVaultError NonFungibleAsset × AssetVault
  remove_non_fungible_asset vault asset =
      let (old, tree) = m.insert vault.asset_tree (NonFungible.vault_key asset) empty_word in
      (
        if is_empty old then err (AssetVaultError.non_fungible_asset_not_found asset) else ok asset,
        record { asset_tree = tree },
      )

module _ ⦃c : Crypto⦄ ⦃m : Smt⦄ where
  -- `AssetVault::new`
  unfoldable pub new : List Asset → Result AssetVaultError AssetVault
  new assets = elim (m.with_entries (map (λ a. (Value.vault_key a, Value.to_word a)) assets)) [
    | some tree ↦ ok (record { asset_tree = tree })
    | none ↦ err AssetVaultError.duplicate_asset
  ]

  unfoldable pub add_fungible_asset :
      AssetVault → FungibleAsset → Result AssetVaultError FungibleAsset × AssetVault
  add_fungible_asset vault asset = elim (total_of (stored vault (Fungible.vault_key asset)) asset) [
    | ok new ↦ (ok new, written vault (Fungible.vault_key new) (Fungible.to_word new))
    | err e ↦ (err e, vault)
    | panic ↦ (panic, vault)
  ]

  unfoldable pub remove_fungible_asset :
      AssetVault → FungibleAsset → Result AssetVaultError FungibleAsset × AssetVault
  remove_fungible_asset vault asset =
      elim (rest_of (stored vault (Fungible.vault_key asset)) asset) [
        | ok current ↦
            let new = if current.amount == 0 then empty_word else Fungible.to_word current in
            (ok asset, written vault (Fungible.vault_key asset) new)
        | err e ↦ (err e, vault)
        | panic ↦ (panic, vault)
      ]

  unfoldable pub add_asset : AssetVault → Asset → Result AssetVaultError Asset × AssetVault
  add_asset vault (fungible a) = wrap fungible (add_fungible_asset vault a)
  add_asset vault (non_fungible a) = wrap non_fungible (add_non_fungible_asset vault a)

  unfoldable pub remove_asset : AssetVault → Asset → Result AssetVaultError Asset × AssetVault
  remove_asset vault (fungible a) = wrap fungible (remove_fungible_asset vault a)
  remove_asset vault (non_fungible a) = wrap non_fungible (remove_non_fungible_asset vault a)
