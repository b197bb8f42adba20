-- ===== src/Accounts/Delta/Checks.antt =====
-- What the checks of a delta establish.
use restartx.Common.{ℕ, ◌^◌, ◌≤◌, ◌<◌, ◌≡◌, ◌≢◌, ◌↔◌, refl, arith, ◌==◌}
use restartx.Common.{
  Bool, true, List, [], ◌∷◌, length, All, Distinct, Apart, Apart-nil, Apart-cons, map, Option, none,
  some,
}
use restartx.Common.{ok}
use restartx.Crypto.{Felt, Word}
use restartx.Types.{Asset}
use restartx.Assets.Value
use restartx.Accounts.Delta
use restartx.Accounts.Delta.{AccountStorageDelta, AccountVaultDelta, AccountDelta}

abbrev pub IsMutable : List ℕ → Type 0
IsMutable xs = All (λ i. i < 255) xs

abbrev pub keys : List (ℕ × Word) → List ℕ
keys ps = map (λ p. p.0) ps

abbrev pub same_index : ℕ → ℕ → Bool
same_index j i = j == i

check_cleared_iff :
    (before xs : List ℕ)
    → (Delta.check_cleared before xs ≡ ok tt)
      ↔ (IsMutable xs × Distinct same_index xs × Apart same_index before xs)
unfolding Delta.check_cleared
check_cleared_iff before [] = (λ h. (tt, tt, tt), λ h. refl)
check_cleared_iff before (x ∷ xs) =
    let later = check_cleared_iff (x ∷ before) xs in
    let apart = Apart-cons same_index x before xs in
    (
      λ h.
          let (m, d, a) = later.0 (ground (arith, h)) in
          let (one, others) = apart.0 a in
          ((ground (arith, h), m), (one, d), (ground (arith, h), others)),
      λ h. ground (arith, h.0.0, h.2.0, later.1 (h.0.1, h.1.1, apart.1 (h.1.0, h.2.1))),
    )

check_updated_iff :
    (cleared before : List ℕ) (ps : List (ℕ × Word))
    → (Delta.check_updated cleared before ps ≡ ok tt) ↔ (
        IsMutable (keys ps)
        × Distinct same_index (keys ps)
        × Apart same_index before (keys ps)
        × Apart same_index cleared (keys ps))
unfolding Delta.check_updated
check_updated_iff cleared before [] = (λ h. (tt, tt, tt, tt), λ h. refl)
check_updated_iff cleared before ((x, v) ∷ ps) =
    let later = check_updated_iff cleared (x ∷ before) ps in
    let apart = Apart-cons same_index x before (keys ps) in
    (
      λ h.
          let (m, d, a, c) = later.0 (ground (arith, h)) in
          let (one, others) = apart.0 a in
          ((ground (arith, h), m), (one, d), (ground (arith, h), others), (ground (arith, h), c)),
      λ h.
          ground
            (arith, h.0.0, h.2.0, h.3.0, later.1 (h.0.1, h.1.1, apart.1 (h.1.0, h.2.1), h.3.1)),
    )

-- The storage deltas that are meant: a slot is changed at most once, and slot 255 is not.
pub record IsStorageDelta (d : AccountStorageDelta) : Type 0 where
  pub few_cleared : length d.cleared_items ≤ 255
  pub few_updated : length d.updated_items ≤ 255
  pub cleared_mutable : IsMutable d.cleared_items
  pub updated_mutable : IsMutable (keys d.updated_items)
  pub cleared_distinct : Distinct same_index d.cleared_items
  pub updated_distinct : Distinct same_index (keys d.updated_items)
  pub disjoint : Apart same_index d.cleared_items (keys d.updated_items)

-- The check of a storage delta succeeds exactly on deltas of at most 255 cleared and 255 updated
-- items that change no slot twice and not slot 255.
pub validate_storage_iff :
    (d : AccountStorageDelta) → (Delta.validate_storage d ≡ ok tt) ↔ IsStorageDelta d
unfolding Delta.validate_storage
validate_storage_iff d = (
  λ h.
      let (cm, cd, ca) = (check_cleared_iff [] d.cleared_items).0 (ground (arith, h)) in
      let (um, ud, ua, uc) =
        (check_updated_iff d.cleared_items [] d.updated_items).0 (ground (arith, h)) in
      record {
        few_cleared = ground (arith, h);
        few_updated = ground (arith, h);
        cleared_mutable = cm;
        updated_mutable = um;
        cleared_distinct = cd;
        updated_distinct = ud;
        disjoint = uc;
      },
  λ v. ground (
    arith,
    v.few_cleared,
    v.few_updated,
    (check_cleared_iff [] d.cleared_items).1
        (v.cleared_mutable, v.cleared_distinct, Apart-nil same_index d.cleared_items),
    (check_updated_iff d.cleared_items [] d.updated_items).1 (
      v.updated_mutable,
      v.updated_distinct,
      Apart-nil same_index (keys d.updated_items),
      v.disjoint,
    ),
  ),
)

check_added_iff :
    (before xs : List Asset)
    → (Delta.check_added before xs ≡ ok tt)
      ↔ (Distinct Value.is_same xs × Apart Value.is_same before xs)
unfolding Delta.check_added
check_added_iff before [] = (λ h. (tt, tt), λ h. refl)
check_added_iff before (x ∷ xs) =
    let later = check_added_iff (x ∷ before) xs in
    let apart = Apart-cons Value.is_same x before xs in
    (
      λ h.
          let (d, a) = later.0 (ground (arith, h)) in
          let (one, others) = apart.0 a in ((one, d), (ground (arith, h), others)),
      λ h. ground (arith, h.1.0, later.1 (h.0.1, apart.1 (h.0.0, h.1.1))),
    )

check_removed_iff :
    (added before xs : List Asset)
    → (Delta.check_removed added before xs ≡ ok tt)
      ↔ (Distinct Value.is_same xs × Apart Value.is_same before xs × Apart Value.is_same added xs)
unfolding Delta.check_removed
check_removed_iff added before [] = (λ h. (tt, tt, tt), λ h. refl)
check_removed_iff added before (x ∷ xs) =
    let later = check_removed_iff added (x ∷ before) xs in
    let apart = Apart-cons Value.is_same x before xs in
    (
      λ h.
          let (d, a, c) = later.0 (ground (arith, h)) in
          let (one, others) = apart.0 a in
          ((one, d), (ground (arith, h), others), (ground (arith, h), c)),
      λ h. ground (arith, h.1.0, h.2.0, later.1 (h.0.1, apart.1 (h.0.0, h.1.1), h.2.1)),
    )

-- The vault deltas that are meant: an asset is changed at most once.
pub record IsVaultDelta (d : AccountVaultDelta) : Type 0 where
  pub few_added : length d.added_assets < 2 ^ 16
  pub few_removed : length d.removed_assets < 2 ^ 16
  pub added_distinct : Distinct Value.is_same d.added_assets
  pub removed_distinct : Distinct Value.is_same d.removed_assets
  pub disjoint : Apart Value.is_same d.added_assets d.removed_assets

-- The check of a vault delta succeeds exactly on deltas of fewer than 2^16 added and 2^16 removed
-- assets in which no asset is added twice, removed twice, or added and removed.
pub validate_vault_iff : (d : AccountVaultDelta) → (Delta.validate_vault d ≡ ok tt) ↔ IsVaultDelta d
unfolding Delta.validate_vault
validate_vault_iff d = (
  λ h.
      let (ad, aa) = (check_added_iff [] d.added_assets).0 (ground (arith, h)) in
      let (rd, ra, rc) =
        (check_removed_iff d.added_assets [] d.removed_assets).0 (ground (arith, h)) in
      record {
        few_added = ground (arith, h);
        few_removed = ground (arith, h);
        added_distinct = ad;
        removed_distinct = rd;
        disjoint = rc;
      },
  λ v. ground (
    arith,
    v.few_added,
    v.few_removed,
    (check_added_iff [] d.added_assets).1
        (v.added_distinct, Apart-nil Value.is_same d.added_assets),
    (check_removed_iff d.added_assets [] d.removed_assets).1
        (v.removed_distinct, Apart-nil Value.is_same d.removed_assets, v.disjoint),
  ),
)

-- What the constructor of a delta establishes: valid parts, and a nonce exactly if there is a
-- change, and then not the nonce zero.
pub delta_checks :
    (storage : AccountStorageDelta) (vault : AccountVaultDelta) (nonce : Option Felt)
    (d : AccountDelta)
    → Delta.new storage vault nonce ≡ ok d
    → IsStorageDelta d.storage
      × IsVaultDelta d.vault
      × ((Delta.is_empty d ≡ true) ↔ (d.nonce ≡ none))
      × (d.nonce ≢ some 0)
unfolding Delta.new Delta.is_empty Delta.validate_nonce
delta_checks storage vault (some n) d h = (
  (validate_storage_iff d.storage).0 (ground (arith, h)),
  (validate_vault_iff d.vault).0 (ground (arith, h)),
  (λ e. ground (arith, h), λ e. ground (arith, h)),
  ground (arith, h),
)
delta_checks storage vault none d h = (
  (validate_storage_iff d.storage).0 (ground (arith, h)),
  (validate_vault_iff d.vault).0 (ground (arith, h)),
  (λ e. ground (arith, h), λ e. ground (arith, h)),
  ground (arith, h),
)
