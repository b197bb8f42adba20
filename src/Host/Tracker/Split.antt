-- ===== src/Host/Tracker/Split.antt =====
-- A list of tracked assets, parted into the added ones and the removed ones.
use restartx.Common.{◌+◌, ◌≡◌, refl, ap, arith, Bool, true, false}
use restartx.Common.{List, [], ◌∷◌, ◌++◌, length, any}
use restartx.Common.{All, Pairwise, Distinct, Apart, Apart-cons}
use restartx.Types.{id_key, Asset}
use restartx.Types.Asset.{fungible, non_fungible}
use restartx.Assets.Fungible
use restartx.Assets.Value
use restartx.Accounts.Delta.{AccountVaultDelta}
use restartx.Host.Tracker.{with_asset}

-- An asset, and whether it was added.
abbrev pub Entry : Type 0
Entry = Bool × Asset

abbrev pub split : List Entry → AccountVaultDelta
split [] = record { added_assets = []; removed_assets = [] }
split ((added, a) ∷ es) = with_asset added a (split es)

abbrev pub ApartFrom : Asset → List Entry → Type 0
ApartFrom a es = All (λ (e : Entry). Value.is_same a e.1 ≡ false) es

abbrev pub AllApart : List Entry → Type 0
AllApart es = Pairwise (λ (d e : Entry). Value.is_same d.1 e.1 ≡ false) es

is_same_sym : (a b : Asset) → Value.is_same a b ≡ false → Value.is_same b a ≡ false
unfolding Value.is_same Fungible.is_from_same_faucet
is_same_sym (fungible a) (fungible b) h = ground (arith, h)
is_same_sym (non_fungible a) (non_fungible b) h = ground (arith, h)
is_same_sym (fungible a) (non_fungible b) h = refl
is_same_sym (non_fungible a) (fungible b) h = refl

split_apart :
    (a : Asset) (es : List Entry)
    → ApartFrom a es
    → All (λ x. Value.is_same a x ≡ false) (split es).added_assets
      × All (λ x. Value.is_same a x ≡ false) (split es).removed_assets
split_apart a [] h = (tt, tt)
split_apart a ((true, b) ∷ es) h = let (x, y) = split_apart a es h.1 in ((h.0, x), y)
split_apart a ((false, b) ∷ es) h = let (x, y) = split_apart a es h.1 in (x, (h.0, y))

none_before :
    (a : Asset) (xs : List Asset)
    → All (λ x. Value.is_same a x ≡ false) xs
    → any (λ x. Value.is_same x a) xs ≡ false
none_before a [] h = refl
none_before a (x ∷ xs) h = ground (arith, is_same_sym a x h.0, none_before a xs h.1)

pub record IsApart (d : AccountVaultDelta) : Type 0 where
  pub added_distinct : Distinct Value.is_same d.added_assets
  pub removed_distinct : Distinct Value.is_same d.removed_assets
  pub disjoint : Apart Value.is_same d.added_assets d.removed_assets

pub split-IsApart : (es : List Entry) → AllApart es → IsApart (split es)
split-IsApart [] h = record { added_distinct = tt; removed_distinct = tt; disjoint = tt }
split-IsApart ((true, a) ∷ es) h =
    let w = split-IsApart es h.1 in
    let (x, y) = split_apart a es h.0 in
    record {
      added_distinct = (x, w.added_distinct);
      removed_distinct = w.removed_distinct;
      disjoint =
          (Apart-cons Value.is_same a (split es).added_assets (split es).removed_assets).1
            (y, w.disjoint);
    }
split-IsApart ((false, a) ∷ es) h =
    let w = split-IsApart es h.1 in
    let (x, y) = split_apart a es h.0 in
    record {
      added_distinct = w.added_distinct;
      removed_distinct = (y, w.removed_distinct);
      disjoint = (none_before a (split es).added_assets x, w.disjoint);
    }

pub length-split :
    (es : List Entry)
    → length (split es).added_assets + length (split es).removed_assets ≡ length es
length-split [] = refl
length-split ((true, a) ∷ es) = omega (arith, length-split es)
length-split ((false, a) ∷ es) = omega (arith, length-split es)

pub split-append :
    (xs ys : List Entry)
    → split (xs ++ ys) ≡ record {
      added_assets = (split xs).added_assets ++ (split ys).added_assets;
      removed_assets = (split xs).removed_assets ++ (split ys).removed_assets;
    }
split-append [] ys = refl
split-append ((true, a) ∷ xs) ys = ap (with_asset true a) (split-append xs ys)
split-append ((false, a) ∷ xs) ys = ap (with_asset false a) (split-append xs ys)
