-- ===== src/Notes/NoteAssets/Padding.antt =====
-- The padded elements of a note's assets.
use restartx.Common.{ℕ, ◌+◌, ◌*◌, ◌%◌, ◌≡◌, arith, ◌==◌, if◌then◌else◌, ◌∙◌}
use restartx.Common.{◌⊎◌, inl, inr, List, [], ◌∷◌, ◌++◌, length, resize_longer, length-resize}
use mathlib.Core.List.{append-nil}
use restartx.Crypto.{Crypto, elements, empty_word}
use restartx.Types.{Asset}
use restartx.Notes.NoteAssets

module _ ⦃c : Crypto⦄ where
  length-asset_elements : (xs : List Asset) → length (NoteAssets.asset_elements xs) ≡ 4 * length xs
  unfolding NoteAssets.asset_elements
  length-asset_elements [] = omega arith
  length-asset_elements (a ∷ xs) = omega (arith, length-asset_elements xs)

  -- The padded elements are whole blocks of eight.
  pub length-to_padded_assets : (xs : List Asset) → length (NoteAssets.to_padded_assets xs) % 8 ≡ 0
  unfolding NoteAssets.to_padded_assets
  length-to_padded_assets xs = rw length-resize (ground arith)

  to_padded_assets_even :
      (xs : List Asset)
      → length xs % 2 ≡ 0
      → NoteAssets.to_padded_assets xs ≡ NoteAssets.asset_elements xs
  unfolding NoteAssets.to_padded_assets
  to_padded_assets_even xs h =
      resize_longer (if length xs % 2 == 0 then length xs * 4 else (length xs + 1) * 4) 0 0
        (NoteAssets.asset_elements xs) (ground (arith, h, length-asset_elements xs))
      ∙ append-nil (NoteAssets.asset_elements xs)

  to_padded_assets_odd :
      (xs : List Asset)
      → length xs % 2 ≡ 1
      → NoteAssets.to_padded_assets xs ≡ NoteAssets.asset_elements xs ++ elements empty_word
  unfolding NoteAssets.to_padded_assets
  to_padded_assets_odd xs h =
      resize_longer (if length xs % 2 == 0 then length xs * 4 else (length xs + 1) * 4) 4 0
        (NoteAssets.asset_elements xs) (ground (arith, h, length-asset_elements xs))

  parity : (n : ℕ) → (n % 2 ≡ 0) ⊎ (n % 2 ≡ 1)
  parity n = omega arith

  -- The hash of the padded elements is the commitment to the assets.
  pub hash-to_padded_assets :
      (xs : List Asset)
      → c.hash_elements (NoteAssets.to_padded_assets xs) ≡ NoteAssets.compute_asset_commitment xs
  unfolding NoteAssets.compute_asset_commitment
  hash-to_padded_assets xs = elim (parity (length xs)) [
    | inl h ↦ ground (arith, h, to_padded_assets_even xs h)
    | inr h ↦ ground (arith, h, to_padded_assets_odd xs h)
  ]
