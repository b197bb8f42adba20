-- ===== src/Assets/NonFungible.antt =====
-- Non-fungible assets (objects/src/assets/nonfungible.rs).
use restartx.Common.{ℕ, bit_and, bit_xor}
use restartx.Common.{Bool, List, ◌++◌}
use restartx.Common.{Result, ok, ◌>>=◌, ◌>>◌, guard, map_err}
use restartx.Common.Bytes.{le_bytes}
use restartx.Crypto.{Word, Crypto}
use restartx.Types.{AccountId, NonFungibleAsset}
use restartx.Types.AccountType.{non_fungible_faucet}
use restartx.Errors.{AssetError}
use restartx.Accounts.Id

-- `NonFungibleAssetDetails`
pub record NonFungibleAssetDetails : Type 0 where
  pub faucet_id : AccountId
  pub asset_data : List ℕ

abbrev pub is_non_fungible_faucet : AccountId → Bool
is_non_fungible_faucet id = Id.type_eq (Id.account_type id) non_fungible_faucet

-- `NonFungibleAssetDetails::new`
unfoldable pub new_details : AccountId → List ℕ → Result AssetError NonFungibleAssetDetails
new_details faucet_id asset_data = do
  guard (is_non_fungible_faucet faucet_id) (AssetError.not_a_non_fungible_faucet_id faucet_id)
  ok (record { faucet_id = faucet_id; asset_data = asset_data })

unfoldable pub vault_key : NonFungibleAsset → Word
vault_key a = a.word

unfoldable pub faucet_id : NonFungibleAsset → AccountId
faucet_id a = record { felt = a.word.e1 }

unfoldable pub validate : NonFungibleAsset → Result AssetError (Unit {0})
validate a = do
  id ← map_err (λ _. AssetError.invalid_account_id) (Id.try_from_felt a.word.e1)
  guard (is_non_fungible_faucet id) (AssetError.not_a_fungible_faucet_id id (Id.account_type id))

unfoldable pub try_from_word : Word → Result AssetError NonFungibleAsset
try_from_word value = do
  let asset : NonFungibleAsset = record { word = value }
  validate asset
  ok asset

-- `<[u8; 32]>::from(NonFungibleAsset)`
unfoldable pub to_bytes : NonFungibleAsset → List ℕ
to_bytes a =
    le_bytes 8 a.word.e0 ++ (le_bytes 8 a.word.e1 ++ (le_bytes 8 a.word.e2 ++ le_bytes 8 a.word.e3))

module _ ⦃c : Crypto⦄ where
  unfoldable pub from_parts : AccountId → Word → Result AssetError NonFungibleAsset
  from_parts id data_hash = do
    guard (is_non_fungible_faucet id) (AssetError.not_a_non_fungible_faucet_id id)
    let d3 = data_hash.e3
    let cleared = c.felt_new (bit_xor (bit_and d3 Id.account_isfaucet_mask) d3)
    ok (record {
      word = record { e0 = data_hash.e0; e1 = id.felt; e2 = data_hash.e2; e3 = cleared };
    })

  -- `NonFungibleAsset::new`
  unfoldable pub new : NonFungibleAssetDetails → Result AssetError NonFungibleAsset
  new details = from_parts details.faucet_id (c.hash_bytes details.asset_data)
