-- ===== src/Assets/Vault/Add.antt =====
-- Adding assets to a well-formed vault.
use restartx.Common.{ℕ, ◌+◌, ◌^◌, ◌≤◌, ◌<◌, ◌≡◌, refl, ◌∙◌, ap, arith}
use restartx.Common.{Bool, not, true, false, if◌then◌else◌, ok, err, ◌>>=◌}
use restartx.Crypto.{Word, Crypto, empty_word, word_eq, word_eq_iff}
use restartx.Merkle.{Smt}
use restartx.Types.{AccountId, id_eq, FungibleAsset, NonFungibleAsset}
use restartx.Types.Asset.{fungible, non_fungible}
use restartx.Errors.{AssetError, AssetVaultError}
use restartx.Assets.Fungible
use restartx.Assets.NonFungible
use restartx.Assets.Value
use restartx.Assets.Value.Valid.{IsValidFungible, IsValidNonFungible}
use restartx.Assets.Value.RoundTrip.{fungible_word}
use restartx.Assets.Vault
use restartx.Assets.Vault.{AssetVault, stored, written, is_empty}
use restartx.Assets.Vault.Invariant.{IsWellFormed, FungibleEntry, fungible_key, amount_of}
use restartx.Assets.Vault.Invariant.{fungible_entry, stored-written, written-IsWellFormed}
use restartx.Assets.Vault.Reads.{get_balance-written, has-written_fungible}
use restartx.Assets.Vault.Reads.{get_balance-written_word, has-written_word, has-stored}
use restartx.Assets.Vault.Invariant.{fungible_word-ne-empty, non_fungible_word-ne-empty}

abbrev pub with_amount : FungibleAsset → ℕ → FungibleAsset
with_amount a n = record a { amount = n }

pub with_amount-IsValid :
    (a : FungibleAsset) (n : ℕ)
    → IsValidFungible a
    → n ≤ Fungible.max_amount
    → IsValidFungible (with_amount a n)
with_amount-IsValid a n v h = record { faucet = v.faucet; kind = v.kind; bounded = h }

total_of-ok :
    (w : Word) (a : FungibleAsset)
    → w.e3 ≡ a.faucet_id.felt
    → is_empty w ≡ false
    → w.e0 + a.amount ≤ Fungible.max_amount
    → Vault.total_of w a ≡ ok (with_amount a (w.e0 + a.amount))
unfolding Vault.total_of Fungible.add Fungible.new_unchecked
total_of-ok w a e n h = ground arith

total_of-too_big :
    (w : Word) (a : FungibleAsset)
    → w.e3 ≡ a.faucet_id.felt
    → is_empty w ≡ false
    → Fungible.max_amount < w.e0 + a.amount
    → w.e0 + a.amount < 2 ^ 64
    → Vault.total_of w a
      ≡ err (
          AssetVaultError.add_fungible_asset_balance_error
            (AssetError.amount_too_big (w.e0 + a.amount)))
unfolding Vault.total_of Fungible.add Fungible.new_unchecked
total_of-too_big w a e n h u = ground arith

total_of-empty : (w : Word) (a : FungibleAsset) → w ≡ empty_word → Vault.total_of w a ≡ ok a
unfolding Vault.total_of
total_of-empty w a e = rw e

module _ ⦃c : Crypto⦄ ⦃m : Smt⦄ where
  module _ (vault : AssetVault) (a : FungibleAsset) (w : IsWellFormed vault)
      (v : IsValidFungible a) where
    -- The balance of the faucet and the amount that is added.
    abbrev pub total : ℕ
    total = amount_of vault a.faucet_id + a.amount

    total_of_entry-ok :
        total ≤ Fungible.max_amount
        → Vault.total_of (stored vault (fungible_key a.faucet_id)) a ≡ ok (with_amount a total)
    total_of_entry-ok h = elim (fungible_entry vault a w v) [
      | FungibleEntry.vacant e ↦ ground (arith, total_of-empty _ a e, e)
      | FungibleEntry.holds n b e ↦ ground (
        arith,
        e,
        fungible_word-ne-empty a n v,
        total_of-ok (stored vault (fungible_key a.faucet_id)) a,
      )
    ]

    total_of_entry-too_big :
        Fungible.max_amount < total
        → Vault.total_of (stored vault (fungible_key a.faucet_id)) a
          ≡ err (AssetVaultError.add_fungible_asset_balance_error (AssetError.amount_too_big total))
    total_of_entry-too_big h = elim (fungible_entry vault a w v) [
      | FungibleEntry.vacant e ↦ absurd (ground (arith, e, v.bounded))
      | FungibleEntry.holds n b e ↦ ground (
        arith,
        e,
        v.bounded,
        fungible_word-ne-empty a n v,
        total_of-too_big (stored vault (fungible_key a.faucet_id)) a,
      )
    ]

    -- A fungible asset is added to the balance of its faucet: the method returns the asset with
    -- the total, the vault stays well formed, the balance of this faucet is the total, and every
    -- other balance and every answer about a non-fungible asset is as before. The faucet has an entry
    -- then, even for an amount of zero.
    pub add_asset-fungible :
        total ≤ Fungible.max_amount
        → (vault' : AssetVault) × (Vault.add_asset vault (fungible a)
            ≡ (ok (fungible (with_amount a total)), vault'))
          × IsWellFormed vault'
          × ((id : AccountId)
              → Vault.get_balance vault' id
                ≡ (if id_eq a.faucet_id id then ok total else Vault.get_balance vault id))
          × ((b : NonFungibleAsset)
              → IsValidNonFungible b
              → Vault.has_non_fungible_asset vault' (non_fungible b)
                ≡ Vault.has_non_fungible_asset vault (non_fungible b))
          × (is_empty (stored vault' (fungible_key a.faucet_id)) ≡ false)
    unfolding Vault.add_asset Vault.add_fungible_asset Value.vault_key Fungible.vault_key
        Value.to_word
    add_asset-fungible h =
        let sum = with_amount-IsValid a total v h in
        let word = Fungible.to_word (with_amount a total) in
        (
          written vault (fungible_key a.faucet_id) word,
          rw (total_of_entry-ok h, Vault.add_fungible_asset),
          written-IsWellFormed vault (fungible (with_amount a total)) w sum,
          λ id.
              get_balance-written vault a v word id
              ∙ rw (fungible_word (with_amount a total) sum, fungible_word-ne-empty a total v),
          λ b u. has-written_fungible vault a v word b u,
          rw
              (
                stored-written vault (fungible_key a.faucet_id) word (fungible_key a.faucet_id),
                (word_eq_iff (fungible_key a.faucet_id) (fungible_key a.faucet_id)).1 refl,
                fungible_word (with_amount a total) sum,
              )
              (fungible_word-ne-empty a total v),
        )

    -- A total above 2^63 - 1 is refused, with the total in the error, and the vault is unchanged.
    pub add_asset-too_big :
        Fungible.max_amount < total
        → Vault.add_asset vault (fungible a) ≡ (
          err (AssetVaultError.add_fungible_asset_balance_error (AssetError.amount_too_big total)),
          vault,
        )
    unfolding Vault.add_asset Vault.add_fungible_asset Fungible.vault_key
    add_asset-too_big h = rw (total_of_entry-too_big h, Vault.add_fungible_asset)

  pub wrap_if :
      (fails : Bool) (e : AssetVaultError) (b : NonFungibleAsset)
      → ((if fails then err e else ok b) >>= (λ a. ok (non_fungible a)))
        ≡ (if fails then err e else ok (non_fungible b))
  wrap_if true e b = refl
  wrap_if false e b = refl

  pub held_eq :
      (vault : AssetVault) (b : NonFungibleAsset) (held : Bool)
      → Vault.has_non_fungible_asset vault (non_fungible b) ≡ ok held
      → not (is_empty (stored vault b.word)) ≡ held
  held_eq vault b held h = cc (has-stored vault b, h)

  -- A non-fungible asset is stored once: adding it succeeds exactly if it is not held, and fails
  -- with the error for a duplicate else. In both cases the vault stays well formed, holds the
  -- asset, and answers everything else as before.
  pub add_asset-non_fungible :
      (vault : AssetVault) (b : NonFungibleAsset) (held : Bool)
      → IsWellFormed vault
      → IsValidNonFungible b
      → Vault.has_non_fungible_asset vault (non_fungible b) ≡ ok held
      → (vault' : AssetVault) × (Vault.add_asset vault (non_fungible b) ≡ (
        if held then err (AssetVaultError.duplicate_non_fungible_asset b) else ok (non_fungible b),
        vault',
      ))
        × IsWellFormed vault'
        × ((id : AccountId) → Vault.get_balance vault' id ≡ Vault.get_balance vault id)
        × ((d : NonFungibleAsset)
            → Vault.has_non_fungible_asset vault' (non_fungible d) ≡ (
                if word_eq b.word d.word
                then ok true
                else Vault.has_non_fungible_asset vault (non_fungible d)))
  unfolding Vault.add_asset Vault.add_non_fungible_asset Value.vault_key NonFungible.vault_key
      Value.to_word
  add_asset-non_fungible vault b held w v h = (
    written vault b.word b.word,
    rw (m.insert_old vault.asset_tree b.word b.word, Vault.add_non_fungible_asset)
        (rw (held_eq vault b held h)
          (ap (λ r. (r, written vault b.word b.word)) (wrap_if held _ b))),
    written-IsWellFormed vault (non_fungible b) w v,
    get_balance-written_word vault b v b.word,
    λ d. has-written_word vault b v b.word d ∙ rw (non_fungible_word-ne-empty b v),
  )
