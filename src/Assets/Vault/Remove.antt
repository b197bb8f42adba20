-- ===== src/Assets/Vault/Remove.antt =====
-- Removing assets from a well-formed vault.
use restartx.Common.{ℕ, ◌+◌, ◌-◌, ◌≤◌, ◌<◌, ◌≡◌, inl, inr, refl, sym, ◌∙◌, ap, arith}
use restartx.Common.{
  Bool, not, true, false, ◌==◌, if◌then◌else◌, ok, err, ◌>>=◌, Result, Bool-cases,
}
use restartx.Crypto.{Word, Crypto, empty_word, word_eq}
use restartx.Merkle.{Smt}
use restartx.Types.{AccountId, id_eq, id_eq_iff, FungibleAsset, NonFungibleAsset}
use restartx.Types.Asset.{fungible, non_fungible}
use restartx.Errors.{AssetError, AssetVaultError}
use restartx.Assets.Fungible
use restartx.Assets.NonFungible
use restartx.Assets.Value
use restartx.Assets.Value.Valid.{IsValidFungible, IsValidNonFungible}
use restartx.Assets.Value.RoundTrip.{fungible_word}
use restartx.Assets.Vault
use restartx.Assets.Vault.{AssetVault, stored, written, is_empty, amount_in}
use restartx.Assets.Vault.Invariant.{IsWellFormed, FungibleEntry, fungible_key, amount_of}
use restartx.Assets.Vault.Invariant.{fungible_entry, written-IsWellFormed}
use restartx.Assets.Vault.Reads.{get_balance-written, has-written_fungible}
use restartx.Assets.Vault.Reads.{get_balance-written_word, has-written_word, get_balance-fungible}
use restartx.Assets.Vault.Invariant.{fungible_word-ne-empty}
use restartx.Assets.Vault.Invariant.{erased-IsWellFormed}
use restartx.Assets.Vault.Add.{with_amount, with_amount-IsValid, add_asset-fungible, held_eq}

rest_of-ok :
    (w : Word) (a : FungibleAsset)
    → w.e3 ≡ a.faucet_id.felt
    → is_empty w ≡ false
    → a.amount ≤ amount_in w
    → Vault.rest_of w a ≡ ok (with_amount a (amount_in w - a.amount))
unfolding Vault.rest_of Fungible.sub Fungible.new_unchecked
rest_of-ok w a e n h = ground arith

rest_of-insufficient :
    (w : Word) (a : FungibleAsset)
    → is_empty w ≡ false
    → amount_in w < a.amount
    → Vault.rest_of w a
      ≡ err (
          AssetVaultError.subtract_fungible_asset_balance_error
            (AssetError.asset_amount_not_sufficient (amount_in w) a.amount))
unfolding Vault.rest_of Fungible.sub Fungible.new_unchecked
rest_of-insufficient w a n h = ground arith

rest_of-empty :
    (w : Word) (a : FungibleAsset)
    → is_empty w ≡ true
    → Vault.rest_of w a ≡ err (AssetVaultError.fungible_asset_not_found a)
unfolding Vault.rest_of
rest_of-empty w a e = rw e

module _ ⦃c : Crypto⦄ where
  -- The word that is written: an amount of zero empties the entry.
  abbrev left : FungibleAsset → ℕ → Word
  left a n = if n == 0 then empty_word else Fungible.to_word (with_amount a n)

  amount_in-left :
      (a : FungibleAsset) (n : ℕ)
      → IsValidFungible a
      → n ≤ Fungible.max_amount
      → amount_in (left a n) ≡ n
  unfolding Value.to_word
  amount_in-left a n v h = elim (Bool-cases (n == 0)) [
    | inl z ↦ rw z (ground (arith, z))
    | inr p ↦ rw (
      p,
      fungible_word (with_amount a n) (with_amount-IsValid a n v h),
      fungible_word-ne-empty a n v,
    )
  ]

remove_result :
    (vacant held : Bool) (b : NonFungibleAsset)
    → not vacant ≡ held
    → ((if vacant then err (AssetVaultError.non_fungible_asset_not_found b) else ok b)
        >>= (λ a. ok (non_fungible a)))
      ≡ (if held then ok (non_fungible b) else err (AssetVaultError.non_fungible_asset_not_found b))
remove_result vacant held b h = ground (arith, h)

module _ ⦃c : Crypto⦄ ⦃m : Smt⦄ where
  module _ (vault : AssetVault) (a : FungibleAsset) (w : IsWellFormed vault)
      (v : IsValidFungible a) where
    abbrev pub entry_of : Word
    entry_of = stored vault (fungible_key a.faucet_id)

    entry_faucet : is_empty entry_of ≡ false → entry_of.e3 ≡ a.faucet_id.felt
    entry_faucet n = elim (fungible_entry vault a w v) [
      | FungibleEntry.vacant e ↦ absurd (ground (arith, e, n))
      | FungibleEntry.holds q b e ↦ ground (arith, e)
    ]

    entry_bounded : amount_in entry_of ≤ Fungible.max_amount
    entry_bounded = elim (fungible_entry vault a w v) [
      | FungibleEntry.vacant e ↦ ground (arith, e)
      | FungibleEntry.holds q b e ↦ ground (arith, e, b)
    ]

    left-IsWellFormed :
        (n : ℕ)
        → n ≤ Fungible.max_amount
        → IsWellFormed (written vault (fungible_key a.faucet_id) (left a n))
    unfolding Value.vault_key Fungible.vault_key Value.to_word
    left-IsWellFormed n h = elim (Bool-cases (n == 0)) [
      | inl z ↦ rw z (erased-IsWellFormed vault _ w)
      | inr p ↦
          rw p (
            written-IsWellFormed vault (fungible (with_amount a n)) w (with_amount-IsValid a n v h))
    ]

    -- A fungible asset whose faucet has an entry of at least its amount is taken from the
    -- balance: the method returns the asset, the vault stays well formed, the balance of this
    -- faucet is smaller by the amount, and all other answers are as before.
    pub remove_asset-fungible :
        is_empty entry_of ≡ false
        → a.amount ≤ amount_in entry_of
        → (vault' : AssetVault) × (Vault.remove_asset vault (fungible a)
            ≡ (ok (fungible a), vault'))
          × IsWellFormed vault'
          × ((id : AccountId)
              → Vault.get_balance vault' id ≡ (
                  if id_eq a.faucet_id id
                  then ok (amount_in entry_of - a.amount)
                  else Vault.get_balance vault id))
          × ((b : NonFungibleAsset)
              → IsValidNonFungible b
              → Vault.has_non_fungible_asset vault' (non_fungible b)
                ≡ Vault.has_non_fungible_asset vault (non_fungible b))
    unfolding Vault.remove_asset Vault.remove_fungible_asset Fungible.vault_key
    remove_asset-fungible n h =
        let rest = amount_in entry_of - a.amount in
        let fits : rest ≤ Fungible.max_amount = omega (arith, entry_bounded) in
        (
          written vault (fungible_key a.faucet_id) (left a rest),
          rw (rest_of-ok entry_of a (entry_faucet n) n h, Vault.remove_fungible_asset),
          left-IsWellFormed rest fits,
          λ id. get_balance-written vault a v (left a rest) id ∙ rw (amount_in-left a rest v fits),
          λ b u. has-written_fungible vault a v (left a rest) b u,
        )

    -- Without an entry for the faucet, or with one that holds less than the amount, the removal
    -- fails with the error for this case, and the vault is unchanged.
    pub remove_asset-fungible_fails :
        (is_empty entry_of ≡ true
          → Vault.remove_asset vault (fungible a)
            ≡ (err (AssetVaultError.fungible_asset_not_found a), vault))
        × (is_empty entry_of ≡ false
            → amount_in entry_of < a.amount
            → Vault.remove_asset vault (fungible a) ≡ (
              err (
                  AssetVaultError.subtract_fungible_asset_balance_error
                    (AssetError.asset_amount_not_sufficient (amount_in entry_of) a.amount)),
              vault,
            ))
    unfolding Vault.remove_asset Vault.remove_fungible_asset Fungible.vault_key
    remove_asset-fungible_fails = (
      λ e. rw (rest_of-empty entry_of a e, Vault.remove_fungible_asset),
      λ n h. rw (rest_of-insufficient entry_of a n h, Vault.remove_fungible_asset),
    )

  -- A non-fungible asset is removed exactly if it is held; else the error says that it was not
  -- found. In both cases the vault stays well formed, does not hold the asset, and answers
  -- everything else as before.
  pub remove_asset-non_fungible :
      (vault : AssetVault) (b : NonFungibleAsset) (held : Bool)
      → IsWellFormed vault
      → IsValidNonFungible b
      → Vault.has_non_fungible_asset vault (non_fungible b) ≡ ok held
      → (vault' : AssetVault) × (Vault.remove_asset vault (non_fungible b) ≡ (
        if held then ok (non_fungible b) else err (AssetVaultError.non_fungible_asset_not_found b),
        vault',
      ))
        × IsWellFormed vault'
        × ((id : AccountId) → Vault.get_balance vault' id ≡ Vault.get_balance vault id)
        × ((d : NonFungibleAsset)
            → Vault.has_non_fungible_asset vault' (non_fungible d) ≡ (
                if word_eq b.word d.word
                then ok false
                else Vault.has_non_fungible_asset vault (non_fungible d)))
  unfolding Vault.remove_asset Vault.remove_non_fungible_asset NonFungible.vault_key
  remove_asset-non_fungible vault b held w v h = (
    written vault b.word empty_word,
    rw (m.insert_old vault.asset_tree b.word empty_word, Vault.remove_non_fungible_asset)
        (ap (λ r. (r, written vault b.word empty_word))
          (remove_result (is_empty (stored vault b.word)) held b (held_eq vault b held h))),
    erased-IsWellFormed vault b.word w,
    get_balance-written_word vault b v empty_word,
    has-written_word vault b v empty_word,
  )

  ok_injective : (x y : ℕ) → ◌≡◌ {A = Result AssetVaultError ℕ} (ok x) (ok y) → x ≡ y
  ok_injective x y h = cc

  amount_added :
      (vault vault1 : AssetVault) (a : FungibleAsset)
      → IsValidFungible a
      → ((id : AccountId)
          → Vault.get_balance vault1 id ≡ (
              if id_eq a.faucet_id id
              then ok (amount_of vault a.faucet_id + a.amount)
              else Vault.get_balance vault id))
      → amount_of vault1 a.faucet_id ≡ amount_of vault a.faucet_id + a.amount
  amount_added vault vault1 a v balances = ok_injective _ _ (
      sym (get_balance-fungible vault1 a.faucet_id v.kind)
      ∙ rw ((id_eq_iff a.faucet_id a.faucet_id).1 refl) at (balances a.faucet_id))

  restored :
      (vault vault1 vault2 : AssetVault) (a : FungibleAsset)
      → IsValidFungible a
      → (id : AccountId) → amount_of vault1 a.faucet_id ≡ amount_of vault a.faucet_id + a.amount
      → Vault.get_balance vault1 id ≡ (
          if id_eq a.faucet_id id
          then ok (amount_of vault a.faucet_id + a.amount)
          else Vault.get_balance vault id)
      → Vault.get_balance vault2 id ≡ (
          if id_eq a.faucet_id id
          then ok (amount_of vault1 a.faucet_id - a.amount)
          else Vault.get_balance vault1 id)
      → Vault.get_balance vault2 id ≡ Vault.get_balance vault id
  restored vault vault1 vault2 a v id read b1 b2 = elim (Bool-cases (id_eq a.faucet_id id)) [
    | inl same ↦
        (rw same at b2)
        ∙ ap {B = Result AssetVaultError ℕ} (λ (n : ℕ). ok n) {y = amount_of vault a.faucet_id}
            (omega (arith, read))
        ∙ sym (get_balance-fungible vault a.faucet_id v.kind)
        ∙ ap (Vault.get_balance vault) ((id_eq_iff a.faucet_id id).0 same)
    | inr other ↦ (rw other at b2) ∙ (rw other at b1)
  ]

  -- Adding a fungible asset and removing it again restores every balance.
  pub remove_asset-add_asset :
      (vault : AssetVault) (a : FungibleAsset)
      → IsWellFormed vault
      → IsValidFungible a
      → amount_of vault a.faucet_id + a.amount ≤ Fungible.max_amount
      → let vault' = (Vault.add_asset vault (fungible a)).1 in
        ((Vault.remove_asset vault' (fungible a)).0 ≡ ok (fungible a))
        × ((id : AccountId)
            → Vault.get_balance (Vault.remove_asset vault' (fungible a)).1 id
              ≡ Vault.get_balance vault id)
  remove_asset-add_asset vault a w v h =
      let (vault1, added, w1, balances, _, present) = add_asset-fungible vault a w v h in
      let sum = amount_of vault a.faucet_id + a.amount in
      let read : amount_of vault1 a.faucet_id ≡ sum = amount_added vault vault1 a v balances in
      let (vault2, removed, _, balances2, _) =
        remove_asset-fungible vault1 a w1 v present (omega (arith, read)) in
      rw (added, removed)
        (refl, λ id. restored vault vault1 vault2 a v id (read) (balances id) (balances2 id))
