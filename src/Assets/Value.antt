-- ===== src/Assets/Value.antt =====
-- The enum over both kinds of assets (objects/src/assets/mod.rs): its word and byte encodings.
pub mod Valid
pub mod RoundTrip
pub mod Bytes
use restartx.Common.{ℕ, ◌+◌, ◌-◌, ◌^◌, bit_and, ◌==◌, ◌&&◌, leb, if◌then◌else◌}
use restartx.Common.{Bool, true, false, not, Option, none, some, List, [], ◌∷◌, ◌++◌, take, drop}
use restartx.Common.{Result, ok, err, panic, ◌>>=◌, ◌>>◌, guard, map_err}
use restartx.Crypto.{Felt, Word, Crypto, word_eq}
use restartx.Types.{AccountId, Asset, FungibleAsset, NonFungibleAsset}
use restartx.Types.Asset.{fungible, non_fungible}
use restartx.Errors.{AssetError}
use restartx.Accounts.Id
use restartx.Assets.Fungible
use restartx.Assets.NonFungible

-- The third highest binary digit of the last element is set.
unfoldable pub is_not_a_non_fungible_asset : Word → Bool
is_not_a_non_fungible_asset asset =
    bit_and asset.e3 Id.account_isfaucet_mask == Id.account_isfaucet_mask

unfoldable pub new_unchecked : Word → Asset
new_unchecked value =
    if is_not_a_non_fungible_asset value
    then fungible (Fungible.new_unchecked value)
    else non_fungible (record { word = value })

unfoldable pub is_same : Asset → Asset → Bool
is_same (fungible a) (fungible b) = Fungible.is_from_same_faucet a b
is_same (non_fungible a) (non_fungible b) = word_eq a.word b.word
is_same _ _ = false

unfoldable pub is_fungible : Asset → Bool
is_fungible (fungible a) = true
is_fungible (non_fungible a) = false

unfoldable pub vault_key : Asset → Word
vault_key (fungible a) = Fungible.vault_key a
vault_key (non_fungible a) = NonFungible.vault_key a

-- `<[u8; 32]>::from(Asset)`
unfoldable pub to_bytes : Asset → List ℕ
to_bytes (fungible a) = Fungible.to_bytes a
to_bytes (non_fungible a) = NonFungible.to_bytes a

-- `Asset::try_from(Word)`
unfoldable pub try_from_word : Word → Result AssetError Asset
try_from_word value =
    if is_not_a_non_fungible_asset value
    then Fungible.try_from_word value >>= (λ a. ok (fungible a))
    else (NonFungible.try_from_word value >>= (λ a. ok (non_fungible a)))

module _ ⦃c : Crypto⦄ where
  -- `Word::from(Asset)`
  unfoldable pub to_word : Asset → Word
  to_word (fungible a) = Fungible.to_word a
  to_word (non_fungible a) = a.word

  unfoldable pub parse_felt : List ℕ → Result AssetError Felt
  parse_felt bytes = elim (c.felt_of_bytes bytes) [
    | some v ↦ ok v
    | none ↦ err AssetError.invalid_field_element
  ]

  unfoldable pub parse_word : List ℕ → Result AssetError Word
  parse_word bytes = do
    e0 ← parse_felt (take 8 bytes)
    e1 ← parse_felt (take 8 (drop 8 bytes))
    e2 ← parse_felt (take 8 (drop 16 bytes))
    e3 ← parse_felt (drop 24 bytes)
    ok (record { e0 = e0; e1 = e1; e2 = e2; e3 = e3 })

  -- `Asset::try_from([u8; 32])`
  unfoldable pub try_from_bytes : List ℕ → Result AssetError Asset
  try_from_bytes bytes = do word ← parse_word bytes; try_from_word word
