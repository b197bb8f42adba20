-- ===== src/Tests/OnAssets.antt =====
-- Examples on assets.
use restartx.Common.{ℕ, ◌+◌, ◌-◌, ◌^◌, ◌<◌, ◌≡◌, refl, arith}
use restartx.Common.{true, false, if◌then◌else◌, List, [], ◌∷◌, ok, err}
use restartx.Crypto.{word_eq}
use restartx.Types.{AccountId, id_eq, FungibleAsset, NonFungibleAsset}
use restartx.Types.Asset.{fungible, non_fungible}
use restartx.Errors.{AssetError, AssetVaultError}
use restartx.Assets.Fungible
use restartx.Assets.Value
use restartx.Assets.Value.Valid.{IsValidFungible, IsValidNonFungible}
use restartx.Assets.Value.RoundTrip.{try_from_word-to_word}
use restartx.Assets.Vault
use restartx.Assets.Vault.{AssetVault, stored, is_empty, written}
use restartx.Assets.Vault.Invariant.{IsWellFormed, fungible_key, written-IsWellFormed}
use restartx.Assets.Vault.Add.{
  add_asset-fungible, add_asset-too_big, add_asset-non_fungible, with_amount,
}
use restartx.Assets.Vault.Remove.{
  remove_asset-fungible, remove_asset-non_fungible, remove_asset-add_asset,
}
use restartx.Assets.Symbol
use restartx.Assets.Symbol.{TokenSymbol}
use restartx.Assets.Symbol.Codec.{IsSymbol, padded, to_str-new}
use restartx.Tests.{toy_crypto, toy_smt, coins, art, coins-IsValidFungible, art-IsValidNonFungible}
use restartx.Tests.{empty_vault, empty_vault-IsWellFormed, coin_faucet}

try_from_word-to_word_example :
    Value.try_from_word (Value.to_word (fungible coins)) ≡ ok (fungible coins)
try_from_word-to_word_example = try_from_word-to_word (fungible coins) coins-IsValidFungible

abbrev pol : List ℕ
pol = b'P' ∷ b'O' ∷ b'L' ∷ []

pol-IsSymbol : IsSymbol pol
pol-IsSymbol = record {
  nonempty = omega arith;
  short = omega arith;
  letters =
      ((
        (omega arith, omega arith),
        ((omega arith, omega arith), ((omega arith, omega arith), tt)),
      ));
}

to_str-new_example :
    (t : TokenSymbol) × (Symbol.new pol ≡ ok t)
    × (t.felt < 26 ^ 6)
    × (Symbol.to_str {E = AssetError} t ≡ ok (padded pol))
to_str-new_example = to_str-new pol pol-IsSymbol

abbrev after_coins : AssetVault
after_coins = (Vault.add_asset empty_vault (fungible coins)).1

remove_asset-add_asset_example :
    ((Vault.remove_asset after_coins (fungible coins)).0 ≡ ok (fungible coins))
    × ((id : AccountId)
        → Vault.get_balance (Vault.remove_asset after_coins (fungible coins)).1 id
          ≡ Vault.get_balance empty_vault id)
remove_asset-add_asset_example =
    remove_asset-add_asset empty_vault coins empty_vault-IsWellFormed coins-IsValidFungible
      (omega arith)

coins_read : Value.try_from_word (Value.to_word (fungible coins)) ≡ ok (fungible coins)
coins_read = try_from_word-to_word (fungible coins) coins-IsValidFungible

add_asset-fungible_example :
    (vault' : AssetVault) × (Vault.add_asset empty_vault (fungible coins)
      ≡ (ok (fungible (with_amount coins 100)), vault'))
    × IsWellFormed vault'
    × ((id : AccountId)
        → Vault.get_balance vault' id
          ≡ (if id_eq coins.faucet_id id then ok 100 else Vault.get_balance empty_vault id))
    × ((b : NonFungibleAsset)
        → IsValidNonFungible b
        → Vault.has_non_fungible_asset vault' (non_fungible b)
          ≡ Vault.has_non_fungible_asset empty_vault (non_fungible b))
    × (is_empty (stored vault' (fungible_key coins.faucet_id)) ≡ false)
add_asset-fungible_example =
    add_asset-fungible empty_vault coins empty_vault-IsWellFormed coins-IsValidFungible
      (omega arith)

-- A vault that holds the coins.
abbrev coin_vault : AssetVault
coin_vault = written empty_vault (Value.vault_key (fungible coins)) (Value.to_word (fungible coins))

coin_vault-IsWellFormed : IsWellFormed coin_vault
coin_vault-IsWellFormed =
    written-IsWellFormed empty_vault (fungible coins) empty_vault-IsWellFormed coins-IsValidFungible

abbrev many_coins : FungibleAsset
many_coins = record { faucet_id = coin_faucet; amount = 2 ^ 63 - 1 }

many_coins-IsValidFungible : IsValidFungible many_coins
many_coins-IsValidFungible = record {
  faucet = coins-IsValidFungible.faucet;
  kind = coins-IsValidFungible.kind;
  bounded = omega arith;
}

add_asset-too_big_example : Vault.add_asset coin_vault (fungible many_coins) ≡ (
  err (
      AssetVaultError.add_fungible_asset_balance_error
        (AssetError.amount_too_big (100 + (2 ^ 63 - 1)))),
  coin_vault,
)
unfolding Value.vault_key Value.to_word Fungible.to_word Fungible.vault_key
add_asset-too_big_example =
    add_asset-too_big coin_vault many_coins coin_vault-IsWellFormed many_coins-IsValidFungible
      (omega arith)

remove_asset-fungible_example :
    (vault' : AssetVault) × (Vault.remove_asset coin_vault (fungible coins)
      ≡ (ok (fungible coins), vault'))
    × IsWellFormed vault'
    × ((id : AccountId)
        → Vault.get_balance vault' id
          ≡ (if id_eq coins.faucet_id id then ok 0 else Vault.get_balance coin_vault id))
    × ((b : NonFungibleAsset)
        → IsValidNonFungible b
        → Vault.has_non_fungible_asset vault' (non_fungible b)
          ≡ Vault.has_non_fungible_asset coin_vault (non_fungible b))
unfolding Value.vault_key Value.to_word Fungible.to_word Fungible.vault_key
remove_asset-fungible_example =
    remove_asset-fungible coin_vault coins coin_vault-IsWellFormed coins-IsValidFungible refl
      (omega arith)

-- The art is not in the empty vault.
art_not_held : Vault.has_non_fungible_asset empty_vault (non_fungible art) ≡ ok false
unfolding Vault.has_non_fungible_asset Value.is_fungible
art_not_held = refl

add_asset-non_fungible_example :
    (vault' : AssetVault) × (Vault.add_asset empty_vault (non_fungible art)
      ≡ (ok (non_fungible art), vault'))
    × IsWellFormed vault'
    × ((id : AccountId) → Vault.get_balance vault' id ≡ Vault.get_balance empty_vault id)
    × ((d : NonFungibleAsset)
        → Vault.has_non_fungible_asset vault' (non_fungible d) ≡ (
            if word_eq art.word d.word
            then ok true
            else Vault.has_non_fungible_asset empty_vault (non_fungible d)))
add_asset-non_fungible_example =
    add_asset-non_fungible empty_vault art false empty_vault-IsWellFormed art-IsValidNonFungible
      art_not_held

remove_asset-non_fungible_example :
    (vault' : AssetVault) × (Vault.remove_asset empty_vault (non_fungible art)
      ≡ (err (AssetVaultError.non_fungible_asset_not_found art), vault'))
    × IsWellFormed vault'
    × ((id : AccountId) → Vault.get_balance vault' id ≡ Vault.get_balance empty_vault id)
    × ((d : NonFungibleAsset)
        → Vault.has_non_fungible_asset vault' (non_fungible d) ≡ (
            if word_eq art.word d.word
            then ok false
            else Vault.has_non_fungible_asset empty_vault (non_fungible d)))
remove_asset-non_fungible_example =
    remove_asset-non_fungible empty_vault art false empty_vault-IsWellFormed art-IsValidNonFungible
      art_not_held
