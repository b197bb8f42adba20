-- ===== src/Host/Tracker/Ends.antt =====
-- The delta that a tracker ends in.
use restartx.Common.{ℕ, ◌+◌, ◌^◌, ◌%◌, ◌≤◌, ◌<◌, ◌≡◌, ◌⊎◌, refl, ◌∙◌, arith, true, false}
use restartx.Common.{ltb, inl, inr}
use restartx.Common.{List, [], ◌∷◌, ◌++◌, map, length, length-map, length-append, All-append}
use restartx.Common.{All}
use restartx.Common.{ok}
use restartx.Common.Ints.{ℤ, pos, negsuc, abs, is_positive}
use restartx.Common.Maps.{MapKey, BTreeMap, IsSorted}
use restartx.Crypto.{Digest, word_eq_iff}
use restartx.Types.{AccountId, id_key}
use restartx.Types.Asset.{fungible, non_fungible}
use restartx.Assets.Fungible
use restartx.Assets.Value
use restartx.Accounts.Delta.{AccountVaultDelta}
use restartx.Accounts.Delta.Checks.{IsVaultDelta}
use restartx.Host.Tracker
use restartx.Host.Tracker.{AccountVaultDeltaTracker, AccountDeltaTracker, with_asset}
use restartx.Host.Tracker.Split.{
  Entry, split, ApartFrom, AllApart, split-IsApart, length-split, split-append,
}

abbrev pub fungible_entry : AccountId × ℤ → Entry
fungible_entry (id, amount) =
    (is_positive amount, fungible (record { faucet_id = id; amount = abs amount }))

abbrev pub non_fungible_entry : Digest × ℤ → Entry
non_fungible_entry (key, amount) = (is_positive amount, non_fungible (record { word = key }))

abbrev pub IsFungibleEntry : AccountId × ℤ → Type 0
IsFungibleEntry (id, amount) =
    (Fungible.is_fungible_faucet id ≡ true) × (abs amount ≤ Fungible.max_amount)

abbrev pub IsNonFungibleEntry : Digest × ℤ → Type 0
IsNonFungibleEntry (key, amount) = (amount ≡ pos 1) ⊎ (amount ≡ negsuc 0)

fungible_delta_of_lem :
    (m : BTreeMap AccountId ℤ)
    → All IsFungibleEntry m
    → Tracker.fungible_delta_of m ≡ ok (split (map fungible_entry m))
unfolding Tracker.fungible_delta_of Fungible.new Fungible.validate
fungible_delta_of_lem [] h = refl
fungible_delta_of_lem ((id, amount) ∷ m) h =
    let later = fungible_delta_of_lem m h.1 in
    let fits : abs amount % 2 ^ 64 ≡ abs amount = omega (arith, h.0.1) in
    rw (fits, later) (ground (arith, h.0.0, h.0.1))

non_fungible_delta_of_lem :
    (m : BTreeMap Digest ℤ)
    → All IsNonFungibleEntry m
    → Tracker.non_fungible_delta_of m ≡ ok (split (map non_fungible_entry m))
unfolding Tracker.non_fungible_delta_of
non_fungible_delta_of_lem [] h = refl
non_fungible_delta_of_lem ((key, amount) ∷ m) h =
    let later = non_fungible_delta_of_lem m h.1 in
    elim h.0 [ inl up ↦ rw (up, later) refl | inr down ↦ rw (down, later) refl ]

-- All tracked changes as assets.
abbrev pub entries : AccountVaultDeltaTracker → List Entry
entries t = map fungible_entry t.fungible_assets ++ map non_fungible_entry t.non_fungible_assets

module _ ⦃d : MapKey Digest⦄ where
  -- The trackers that can end in a delta: the maps are sorted, the amounts are those of assets, and
  -- there are fewer than 2^16 of them.
  pub record IsReady (t : AccountVaultDeltaTracker) : Type 0 where
    pub fungible_sorted : IsSorted t.fungible_assets
    pub non_fungible_sorted : IsSorted t.non_fungible_assets
    pub fungible_entries : All IsFungibleEntry t.fungible_assets
    pub non_fungible_entries : All IsNonFungibleEntry t.non_fungible_assets
    pub few : length t.fungible_assets + length t.non_fungible_assets < 2 ^ 16

  vault_delta_of_lem :
      (t : AccountVaultDeltaTracker) → IsReady t → Tracker.vault_delta_of t ≡ ok (split (entries t))
  unfolding Tracker.vault_delta_of
  vault_delta_of_lem t w =
      rw
        (
          fungible_delta_of_lem t.fungible_assets w.fungible_entries,
          non_fungible_delta_of_lem t.non_fungible_assets w.non_fungible_entries,
          split-append (map fungible_entry t.fungible_assets)
              (map non_fungible_entry t.non_fungible_assets),
        )
        refl

  fungible_behind :
      (id : AccountId) (n : ℕ) (m : BTreeMap AccountId ℤ)
      → All (λ (q : AccountId × ℤ). ltb id.felt q.0.felt ≡ true) m
      → ApartFrom (fungible (record { faucet_id = id; amount = n })) (map fungible_entry m)
  unfolding Value.is_same Fungible.is_from_same_faucet
  fungible_behind id n [] h = tt
  fungible_behind id n ((j, z) ∷ m) h = (ground (arith, h.0), fungible_behind id n m h.1)

  kinds_apart :
      (id : AccountId) (n : ℕ) (m : BTreeMap Digest ℤ)
      → ApartFrom (fungible (record { faucet_id = id; amount = n })) (map non_fungible_entry m)
  unfolding Value.is_same
  kinds_apart id n [] = tt
  kinds_apart id n (p ∷ m) = (refl, kinds_apart id n m)

  non_fungible_behind :
      (key : Digest) (m : BTreeMap Digest ℤ)
      → All (λ (q : Digest × ℤ). d.less key q.0 ≡ true) m
      → ApartFrom (non_fungible (record { word = key })) (map non_fungible_entry m)
  unfolding Value.is_same
  non_fungible_behind key [] h = tt
  non_fungible_behind key ((j, z) ∷ m) h = (
    ground (arith, word_eq_iff key j, d.same_iff key j, d.less_irrefl key j h.0),
    non_fungible_behind key m h.1,
  )

  non_fungible_apart : (m : BTreeMap Digest ℤ) → IsSorted m → AllApart (map non_fungible_entry m)
  non_fungible_apart [] s = tt
  non_fungible_apart ((key, z) ∷ m) s = (non_fungible_behind key m s.0, non_fungible_apart m s.1)

  entries_apart :
      (f : BTreeMap AccountId ℤ) (n : BTreeMap Digest ℤ)
      → IsSorted f
      → IsSorted n
      → AllApart (map fungible_entry f ++ map non_fungible_entry n)
  entries_apart [] n s r = non_fungible_apart n r
  entries_apart ((id, z) ∷ f) n s r = (
    All-append
        (λ (e : Entry).
          Value.is_same (fungible (record { faucet_id = id; amount = abs z })) e.1 ≡ false)
        (map fungible_entry f) (map non_fungible_entry n) (fungible_behind id (abs z) f s.0)
        (kinds_apart id (abs z) n),
    entries_apart f n s.1 r,
  )

  -- The vault's delta, and that its check accepts it.
  pub vault_delta_of-IsVaultDelta :
      (t : AccountVaultDeltaTracker)
      → IsReady t
      → (delta : AccountVaultDelta) × (Tracker.vault_delta_of t ≡ ok delta)
        × IsVaultDelta delta
        × (length delta.added_assets + length delta.removed_assets
            ≡ length t.fungible_assets + length t.non_fungible_assets)
  vault_delta_of-IsVaultDelta t w =
      let es = entries t in
      let apart = split-IsApart es (
        entries_apart t.fungible_assets t.non_fungible_assets w.fungible_sorted
          w.non_fungible_sorted) in
      let count : length es ≡ length t.fungible_assets + length t.non_fungible_assets =
        length-append (map fungible_entry t.fungible_assets)
          (map non_fungible_entry t.non_fungible_assets)
        ∙ omega (
          arith,
          length-map fungible_entry t.fungible_assets,
          length-map non_fungible_entry t.non_fungible_assets,
        ) in
      let parts = length-split es in
      (
        split es,
        vault_delta_of_lem t w,
        record {
          few_added = omega (arith, w.few, count, parts);
          few_removed = omega (arith, w.few, count, parts);
          added_distinct = apart.added_distinct;
          removed_distinct = apart.removed_distinct;
          disjoint = apart.disjoint;
        },
        parts ∙ count,
      )
