-- ===== src/Assets/Fungible.antt =====
-- Fungible assets (objects/src/assets/fungible.rs).
use restartx.Common.{ℕ, ◌-◌, ◌^◌, ◌==◌, ◌&&◌, leb}
use restartx.Common.{Bool, none, some, List, ◌++◌, replicate}
use restartx.Common.{Result, ok, err, ◌>>=◌, ◌>>◌, guard, expect, map_err}
use restartx.Common.Bytes.{le_bytes}
use restartx.Common.Words.{checked_add, checked_sub}
use restartx.Crypto.{Word, Crypto}
use restartx.Types.{AccountId, id_eq, FungibleAsset}
use restartx.Types.AccountType.{fungible_faucet}
use restartx.Errors.{AssetError}
use restartx.Accounts.Id

abbrev pub max_amount : ℕ
max_amount = 2 ^ 63 - 1

-- `FungibleAsset::new_unchecked`
unfoldable pub new_unchecked : Word → FungibleAsset
new_unchecked value = record { faucet_id = record { felt = value.e3 }; amount = value.e0 }

unfoldable pub is_from_same_faucet : FungibleAsset → FungibleAsset → Bool
is_from_same_faucet a b = id_eq a.faucet_id b.faucet_id

unfoldable pub vault_key : FungibleAsset → Word
vault_key a = record { e0 = 0; e1 = 0; e2 = 0; e3 = a.faucet_id.felt }

-- `matches!(account_type, AccountType::FungibleFaucet)`
abbrev pub is_fungible_faucet : AccountId → Bool
is_fungible_faucet id = Id.type_eq (Id.account_type id) fungible_faucet

unfoldable pub validate : FungibleAsset → Result AssetError (Unit {0})
validate a = do
  guard (is_fungible_faucet a.faucet_id)
      (AssetError.not_a_fungible_faucet_id a.faucet_id (Id.account_type a.faucet_id))
  guard (leb a.amount max_amount) (AssetError.amount_too_big a.amount)

unfoldable pub new : AccountId → ℕ → Result AssetError FungibleAsset
new faucet_id amount = do
  let asset : FungibleAsset = record { faucet_id = faucet_id; amount = amount }
  validate asset
  ok asset

-- An overflow of the sum is a panic (`expect`).
unfoldable pub add : FungibleAsset → FungibleAsset → Result AssetError FungibleAsset
add a b = do
  guard (id_eq a.faucet_id b.faucet_id) (AssetError.inconsistent_faucet_ids a.faucet_id b.faucet_id)
  amount ← expect (checked_add a.amount b.amount)
  guard (leb amount max_amount) (AssetError.amount_too_big amount)
  ok (record { faucet_id = a.faucet_id; amount = amount })

-- `sub(&mut self, amount)`: the updated asset, and the returned one.
unfoldable pub sub : FungibleAsset → ℕ → Result AssetError (FungibleAsset × FungibleAsset)
sub a amount = elim (checked_sub a.amount amount) [
  | some rest ↦ ok (
    record { faucet_id = a.faucet_id; amount = rest },
    record { faucet_id = a.faucet_id; amount = amount },
  )
  | none ↦ err (AssetError.asset_amount_not_sufficient a.amount amount)
]

-- `<[u8; 32]>::from(FungibleAsset)`
unfoldable pub to_bytes : FungibleAsset → List ℕ
to_bytes a = le_bytes 8 a.amount ++ (replicate 8 0 ++ (replicate 8 0 ++ Id.id_to_bytes a.faucet_id))

-- `FungibleAsset::try_from(Word)`
unfoldable pub try_from_word : Word → Result AssetError FungibleAsset
try_from_word value = do
  guard ((value.e1 == 0) && (value.e2 == 0)) (AssetError.fungible_asset_invalid_word value)
  faucet_id ← map_err (λ _. AssetError.invalid_account_id) (Id.try_from_felt value.e3)
  new faucet_id value.e0

module _ ⦃c : Crypto⦄ where
  -- `Word::from(FungibleAsset)`. Its `debug_assert!` holds of valid assets.
  unfoldable pub to_word : FungibleAsset → Word
  to_word a = record { e0 = c.felt_new a.amount; e1 = 0; e2 = 0; e3 = a.faucet_id.felt }
