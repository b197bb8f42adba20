-- ===== src/Notes/NoteAssets.antt =====
-- The assets of a note (objects/src/notes/assets.rs).
pub mod Distinct
pub mod Padding
use restartx.Common.{ℕ, zero, suc, ◌+◌, ◌-◌, ◌*◌, ◌%◌, ◌==◌, ltb, if◌then◌else◌}
use restartx.Common.{Bool, true, false, not, List, [], ◌∷◌, ◌++◌, length, any, resize}
use restartx.Common.{Result, ok, err, panic, ◌>>=◌, ◌>>◌, guard}
use restartx.Crypto.{Felt, Word, Digest, Crypto, elements, empty_word}
use restartx.Types.{Asset, FungibleAsset, NonFungibleAsset}
use restartx.Types.Asset.{fungible, non_fungible}
use restartx.Errors.{NoteError}
use restartx.Assets.Value

abbrev pub word_size : ℕ
word_size = 4

-- `MAX_ASSETS_PER_NOTE` and `NoteAssets::MAX_NUM_ASSETS`
abbrev pub max_num_assets : ℕ
max_num_assets = 256

pub record NoteAssets : Type 0 where
  pub assets : List Asset
  pub hash : Digest

abbrev pub duplicate_error : Asset → NoteError
duplicate_error (fungible a) = NoteError.duplicate_fungible_asset a.faucet_id
duplicate_error (non_fungible a) = NoteError.duplicate_non_fungible_asset a

-- The loop over the assets, each of which is compared with those behind it. Behind the last one
-- there is none, so the test of its position is the test of an empty list.
unfoldable pub check_unique : List Asset → Result NoteError (Unit {0})
check_unique [] = ok tt
check_unique (asset ∷ rest) =
    let later = check_unique rest in
    if any (λ a. Value.is_same a asset) rest then err (duplicate_error asset) else later

module _ ⦃c : Crypto⦄ where
  -- The words of the assets, one after the other.
  unfoldable pub asset_elements : List Asset → List Felt
  asset_elements [] = []
  asset_elements (a ∷ xs) = elements (Value.to_word a) ++ asset_elements xs

  -- `NoteAssets::to_padded_assets`, on the list of assets
  unfoldable pub to_padded_assets : List Asset → List Felt
  to_padded_assets assets =
      let padded_len =
        if length assets % 2 == 0
        then length assets * word_size
        else (length assets + 1) * word_size in
      resize padded_len 0 (asset_elements assets)

  unfoldable pub compute_asset_commitment : List Asset → Digest
  compute_asset_commitment assets = c.hash_elements (
      if length assets % 2 == 1
      then asset_elements assets ++ elements empty_word
      else asset_elements assets)

  unfoldable pub new : List Asset → Result NoteError NoteAssets
  new assets = do
    guard (not (length assets == 0)) NoteError.empty_asset_list
    guard (not (ltb max_num_assets (length assets))) (NoteError.too_many_assets (length assets))
    check_unique assets
    ok (record { assets = assets; hash = compute_asset_commitment assets })
