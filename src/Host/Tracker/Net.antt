-- ===== src/Host/Tracker/Net.antt =====
-- The amounts that the tracker keeps are the sums of what was added and removed.
use restartx.Common.{ℕ, ◌+◌, ◌<◌, ◌≡◌, sym, ap, ◌∙◌, arith}
use restartx.Common.{
  if◌then◌else◌, if_cases, Bool-cases, Option-cases, List, [], ◌∷◌, map, Option, none, some, inl,
  inr,
}
use restartx.Common.Ints.{ℤ, pos, negsuc, neg, abs, int_eq, ◌+ℤ◌, wrapping_add}
use restartx.Common.Ints.{
  wrapping_add_small, add_neg, zero_add, add_zero, add_assoc, abs_add, sum, total_size,
}
use restartx.Common.Maps.{MapKey, BTreeMap, find, insert, remove, IsSorted}
use restartx.Common.Maps.{find_same, find-insert, find-remove, insert-IsSorted, remove-IsSorted}
use restartx.Crypto.{Digest}
use restartx.Types.{AccountId, id_eq, id_key, Asset}
use restartx.Types.Asset.{fungible, non_fungible}
use restartx.Assets.NonFungible
use restartx.Host.Tracker
use restartx.Host.Tracker.{AccountVaultDeltaTracker, half_i128, half_i8}

abbrev amount_of : Option ℤ → ℤ
amount_of none = pos 0
amount_of (some z) = z

module _ {K : Type 0} ⦃k : MapKey K⦄ where
  -- What a map says of a key, where a missing entry stands for 0.
  abbrev pub net : K → BTreeMap K ℤ → ℤ
  net key m = amount_of (find key m)

  pub update_asset_delta-IsSorted :
      (half : ℕ) (m : BTreeMap K ℤ) (key : K) (amount : ℤ)
      → IsSorted m
      → IsSorted (Tracker.update_asset_delta half m key amount)
  unfolding Tracker.update_asset_delta
  update_asset_delta-IsSorted half m key amount s =
      elim (find key m)
        as (λ f. IsSorted (elim f [
          | some entry ↦
              if int_eq entry (neg amount)
              then remove key m
              else insert key (wrapping_add half entry amount) m
          | none ↦ insert key amount m
        ])) [
          | none ↦ insert-IsSorted key amount m s
          | some entry ↦
              if_cases IsSorted (int_eq entry (neg amount)) (λ cancels. remove-IsSorted key m s)
                (λ stays. insert-IsSorted key (wrapping_add half entry amount) m s)
        ]

  -- One update adds to the amount of its key, if that does not overflow, and to no other.
  net-update_asset_delta :
      (half : ℕ) (m : BTreeMap K ℤ) (key j : K) (amount : ℤ)
      → IsSorted m
      → abs (net j m) + abs (if k.same key j then amount else pos 0) < half
      → net j (Tracker.update_asset_delta half m key amount)
        ≡ net j m +ℤ (if k.same key j then amount else pos 0)
  unfolding Tracker.update_asset_delta
  net-update_asset_delta half m key j amount s small =
      let same = find_same key j m in
      let unchanged = add_zero (net j m) in
      elim (Option-cases (find key m)) [
        | inl h ↦ ground (arith, h, same, unchanged, find-insert key j amount m, zero_add amount)
        | inr (entry, h) ↦ elim (Bool-cases (int_eq entry (neg amount))) [
          | inl cancels ↦ ground (
            arith,
            h,
            cancels,
            same,
            unchanged,
            find-remove key j m s,
            add_neg entry amount cancels,
          )
          | inr stays ↦
              let total = wrapping_add half entry amount in
              ground (
                arith,
                h,
                stays,
                same,
                unchanged,
                small,
                find-insert key j total m,
                wrapping_add_small half entry amount,
              )
        ]
      ]

-- What the host tracks of the vault.
pub data Update : Type 0 where
  adding : Asset → Update
  removing : Asset → Update

-- What an update adds to the amount of a fungible asset.
abbrev pub fungible_change : AccountId → Update → ℤ
fungible_change id (adding (fungible a)) = if id_eq a.faucet_id id then pos a.amount else pos 0
fungible_change id (removing (fungible a)) =
    if id_eq a.faucet_id id then neg (pos a.amount) else pos 0
fungible_change id (adding (non_fungible a)) = pos 0
fungible_change id (removing (non_fungible a)) = pos 0

module _ ⦃d : MapKey Digest⦄ where
  -- What an update adds to the count of a non-fungible asset.
  abbrev pub non_fungible_change : Digest → Update → ℤ
  non_fungible_change key (adding (fungible a)) = pos 0
  non_fungible_change key (removing (fungible a)) = pos 0
  non_fungible_change key (adding (non_fungible a)) = if d.same a.word key then pos 1 else pos 0
  non_fungible_change key (removing (non_fungible a)) =
      if d.same a.word key then negsuc 0 else pos 0

  abbrev pub tracked : AccountVaultDeltaTracker → Update → AccountVaultDeltaTracker
  tracked t (adding a) = Tracker.add_asset t a
  tracked t (removing a) = Tracker.remove_asset t a

  -- Updates one after the other.
  abbrev pub replay : AccountVaultDeltaTracker → List Update → AccountVaultDeltaTracker
  replay t [] = t
  replay t (u ∷ us) = replay (tracked t u) us

  pub record IsTracker (t : AccountVaultDeltaTracker) : Type 0 where
    pub fungible_sorted : IsSorted t.fungible_assets
    pub non_fungible_sorted : IsSorted t.non_fungible_assets

  pub tracked-IsTracker :
      (t : AccountVaultDeltaTracker) (u : Update) → IsTracker t → IsTracker (tracked t u)
  unfolding Tracker.add_asset Tracker.remove_asset
  tracked-IsTracker t (adding (fungible a)) w = record {
    fungible_sorted =
        update_asset_delta-IsSorted half_i128 t.fungible_assets a.faucet_id (pos a.amount)
          w.fungible_sorted;
    non_fungible_sorted = w.non_fungible_sorted;
  }
  tracked-IsTracker t (adding (non_fungible a)) w = record {
    fungible_sorted = w.fungible_sorted;
    non_fungible_sorted =
        update_asset_delta-IsSorted half_i8 t.non_fungible_assets (NonFungible.vault_key a) (pos 1)
          w.non_fungible_sorted;
  }
  tracked-IsTracker t (removing (fungible a)) w = record {
    fungible_sorted =
        update_asset_delta-IsSorted half_i128 t.fungible_assets a.faucet_id (neg (pos a.amount))
          w.fungible_sorted;
    non_fungible_sorted = w.non_fungible_sorted;
  }
  tracked-IsTracker t (removing (non_fungible a)) w = record {
    fungible_sorted = w.fungible_sorted;
    non_fungible_sorted =
        update_asset_delta-IsSorted half_i8 t.non_fungible_assets (NonFungible.vault_key a)
          (negsuc 0) w.non_fungible_sorted;
  }

  fungible_step :
      (t : AccountVaultDeltaTracker) (u : Update) (id : AccountId)
      → IsTracker t
      → abs (net id t.fungible_assets) + abs (fungible_change id u) < half_i128
      → net id (tracked t u).fungible_assets ≡ net id t.fungible_assets +ℤ fungible_change id u
  unfolding Tracker.add_asset Tracker.remove_asset
  fungible_step t (adding (fungible a)) id w h =
      net-update_asset_delta half_i128 t.fungible_assets a.faucet_id id (pos a.amount)
        w.fungible_sorted h
  fungible_step t (removing (fungible a)) id w h =
      net-update_asset_delta half_i128 t.fungible_assets a.faucet_id id (neg (pos a.amount))
        w.fungible_sorted h
  fungible_step t (adding (non_fungible a)) id w h = sym (add_zero (net id t.fungible_assets))
  fungible_step t (removing (non_fungible a)) id w h = sym (add_zero (net id t.fungible_assets))

  non_fungible_step :
      (t : AccountVaultDeltaTracker) (u : Update) (key : Digest)
      → IsTracker t
      → abs (net key t.non_fungible_assets) + abs (non_fungible_change key u) < half_i8
      → net key (tracked t u).non_fungible_assets
        ≡ net key t.non_fungible_assets +ℤ non_fungible_change key u
  unfolding Tracker.add_asset Tracker.remove_asset NonFungible.vault_key
  non_fungible_step t (adding (fungible a)) key w h = sym (add_zero (net key t.non_fungible_assets))
  non_fungible_step t (removing (fungible a)) key w h =
      sym (add_zero (net key t.non_fungible_assets))
  non_fungible_step t (adding (non_fungible a)) key w h =
      net-update_asset_delta half_i8 t.non_fungible_assets a.word key (pos 1) w.non_fungible_sorted
        h
  non_fungible_step t (removing (non_fungible a)) key w h =
      net-update_asset_delta half_i8 t.non_fungible_assets a.word key (negsuc 0)
        w.non_fungible_sorted h

  -- The updates do what they would do one by one, as long as the amounts fit their types.
  pub replay_lem :
      (us : List Update) (t : AccountVaultDeltaTracker) (id : AccountId) (key : Digest)
      → IsTracker t
      → abs (net id t.fungible_assets) + total_size (map (fungible_change id) us) < half_i128
      → abs (net key t.non_fungible_assets) + total_size (map (non_fungible_change key) us)
        < half_i8
      → IsTracker (replay t us)
        × (net id (replay t us).fungible_assets
            ≡ net id t.fungible_assets +ℤ sum (map (fungible_change id) us))
        × (net key (replay t us).non_fungible_assets
            ≡ net key t.non_fungible_assets +ℤ sum (map (non_fungible_change key) us))
  replay_lem [] t id key w f n =
      (w, sym (add_zero (net id t.fungible_assets)), sym (add_zero (net key t.non_fungible_assets)))
  replay_lem (u ∷ us) t id key w f n =
      let a = net id t.fungible_assets in
      let b = net key t.non_fungible_assets in
      let x = fungible_change id u in
      let y = non_fungible_change key u in
      let one = fungible_step t u id w (omega (arith, f)) in
      let two = non_fungible_step t u key w (omega (arith, n)) in
      let (v, g, h) =
        replay_lem us (tracked t u) id key (tracked-IsTracker t u w)
          (ground (arith, one, f, abs_add a x)) (ground (arith, two, n, abs_add b y)) in
      (
        v,
        g
            ∙ ap (λ (z : ℤ). z +ℤ sum (map (fungible_change id) us)) one
            ∙ add_assoc a x (sum (map (fungible_change id) us)),
        h
            ∙ ap (λ (z : ℤ). z +ℤ sum (map (non_fungible_change key) us)) two
            ∙ add_assoc b y (sum (map (non_fungible_change key) us)),
      )
