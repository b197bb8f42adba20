-- ===== src/Notes/NoteAssets/Distinct.antt =====
-- Which lists of assets a note can hold.
use restartx.Common.{◌≤◌, ◌≡◌, ◌↔◌, arith}
use restartx.Common.{refl, false, List, [], ◌∷◌, length, any, All, Pairwise}
use restartx.Common.{ok}
use restartx.Crypto.{Crypto}
use restartx.Types.{Asset}
use restartx.Assets.Value
use restartx.Notes.NoteAssets

abbrev pub Differs : Asset → Asset → Type 0
Differs a b = Value.is_same b a ≡ false

abbrev pub IsAssetList : List Asset → Type 0
IsAssetList xs = (1 ≤ length xs) × (length xs ≤ 256) × Pairwise Differs xs

any-same :
    (a : Asset) (bs : List Asset) → any (λ b. Value.is_same b a) bs ≡ false → All (Differs a) bs
any-same a [] h = tt
any-same a (b ∷ bs) h = (ground arith, any-same a bs (ground arith))

any-Differs :
    (a : Asset) (bs : List Asset) → All (Differs a) bs → any (λ b. Value.is_same b a) bs ≡ false
any-Differs a [] h = refl
any-Differs a (b ∷ bs) h = ground (arith, h.0, any-Differs a bs h.1)

check_unique-ok :
    (xs : List Asset) (u : Unit {0}) → NoteAssets.check_unique xs ≡ ok u → Pairwise Differs xs
unfolding NoteAssets.check_unique
check_unique-ok [] u h = tt
check_unique-ok (a ∷ xs) u h = (any-same a xs (ground arith), check_unique-ok xs u (ground arith))

check_unique-distinct : (xs : List Asset) → Pairwise Differs xs → NoteAssets.check_unique xs ≡ ok tt
unfolding NoteAssets.check_unique
check_unique-distinct [] h = refl
check_unique-distinct (a ∷ xs) h =
    ground (arith, any-Differs a xs h.0, check_unique-distinct xs h.1)

module _ ⦃c : Crypto⦄ where
  -- The constructor accepts a list of 1 to 256 assets no two of which are the same, keeps it as it
  -- is, with its commitment, and accepts no other list.
  pub note_assets_iff :
      (xs : List Asset) (n : NoteAssets.NoteAssets)
      → (NoteAssets.new xs ≡ ok n) ↔ (
          IsAssetList xs
          × (n ≡ record { assets = xs; hash = NoteAssets.compute_asset_commitment xs }))
  unfolding NoteAssets.new
  note_assets_iff xs n = (
    λ h. ((ground arith, ground arith, check_unique-ok xs tt (ground arith)), ground arith),
    λ h. ground (arith, h.0.0, h.0.1, check_unique-distinct xs h.0.2, h.1),
  )
