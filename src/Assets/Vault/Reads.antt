-- ===== src/Assets/Vault/Reads.antt =====
-- What the accessors of a vault read after a write.
use restartx.Common.{ℕ, ◌≡◌, refl, sym, ◌∙◌, ap, arith}
use restartx.Common.{Bool, true, false, not, if◌then◌else◌, ok, err, Result, Bool-cases, inl, inr}
use restartx.Crypto.{Word, word_eq}
use restartx.Merkle.{Smt}
use restartx.Types.{AccountId, id_eq, id_eq_iff, FungibleAsset, NonFungibleAsset}
use restartx.Types.Asset.{non_fungible}
use restartx.Types.AccountType.{fungible_faucet}
use restartx.Errors.{AssetVaultError}
use restartx.Accounts.Id
use restartx.Accounts.Id.Fields.{type_bits_lem}
use restartx.Assets.Fungible
use restartx.Assets.NonFungible
use restartx.Assets.Value
use restartx.Assets.Value.Valid.{IsValidFungible, IsValidNonFungible, fungible_digit}
use restartx.Assets.Vault
use restartx.Assets.Vault.{AssetVault, stored, written, is_empty, amount_in}
use restartx.Assets.Vault.Invariant.{fungible_key, stored-written}

fungible_key_eq : (a b : AccountId) → word_eq (fungible_key a) (fungible_key b) ≡ id_eq a b
fungible_key_eq a b = ground arith

-- A fungible faucet's key is the word of no valid non-fungible asset.
fungible_key-ne-word :
    (a : FungibleAsset) (b : NonFungibleAsset)
    → IsValidFungible a
    → IsValidNonFungible b
    → word_eq (fungible_key a.faucet_id) b.word ≡ false
fungible_key-ne-word a b v u = ground (arith, fungible_digit a v, u.cleared)

word-ne-fungible_key :
    (a : NonFungibleAsset) (id : AccountId)
    → IsValidNonFungible a
    → Fungible.is_fungible_faucet id ≡ true
    → word_eq a.word (fungible_key id) ≡ false
unfolding Id.account_type
word-ne-fungible_key a id v h = ground (arith, type_bits_lem id.felt, v.cleared)

module _ ⦃m : Smt⦄ where
  get_balance-other :
      (vault : AssetVault) (id : AccountId)
      → Fungible.is_fungible_faucet id ≡ false
      → Vault.get_balance vault id ≡ err (AssetVaultError.not_a_fungible_faucet_id id)
  unfolding Vault.get_balance
  get_balance-other vault id h = rw h

  get_balance-of_stored :
      (vault vault' : AssetVault) (id : AccountId)
      → stored vault' (fungible_key id) ≡ stored vault (fungible_key id)
      → Vault.get_balance vault' id ≡ Vault.get_balance vault id
  unfolding Vault.get_balance
  get_balance-of_stored vault vault' id e =
      ap {B = Result AssetVaultError ℕ}
        (λ (w : Word).
          if Fungible.is_fungible_faucet id
          then ok (amount_in w)
          else err (AssetVaultError.not_a_fungible_faucet_id id))
        e

  pub get_balance-fungible :
      (vault : AssetVault) (id : AccountId)
      → Id.account_type id ≡ fungible_faucet
      → Vault.get_balance vault id ≡ ok (amount_in (stored vault (fungible_key id)))
  unfolding Vault.get_balance
  get_balance-fungible vault id kind = rw kind

  has-of_stored :
      (vault vault' : AssetVault) (b : NonFungibleAsset)
      → stored vault' b.word ≡ stored vault b.word
      → Vault.has_non_fungible_asset vault' (non_fungible b)
        ≡ Vault.has_non_fungible_asset vault (non_fungible b)
  unfolding Vault.has_non_fungible_asset Value.is_fungible Value.vault_key NonFungible.vault_key
  has-of_stored vault vault' b e =
      ap {B = Result AssetVaultError Bool} (λ (w : Word). ok (not (is_empty w))) e

  pub has-stored :
      (vault : AssetVault) (b : NonFungibleAsset)
      → Vault.has_non_fungible_asset vault (non_fungible b)
        ≡ ok (not (is_empty (stored vault b.word)))
  unfolding Vault.has_non_fungible_asset Value.is_fungible Value.vault_key NonFungible.vault_key
  has-stored vault b = refl

  module _ (vault : AssetVault) (a : FungibleAsset) (v : IsValidFungible a) (value : Word) where
    -- A write under a fungible faucet's key changes the balance of that faucet only,
    pub get_balance-written :
        (id : AccountId)
        → Vault.get_balance (written vault (fungible_key a.faucet_id) value) id
          ≡ (if id_eq a.faucet_id id then ok (amount_in value) else Vault.get_balance vault id)
    get_balance-written id =
        let read = stored-written vault (fungible_key a.faucet_id) value (fungible_key id) in
        elim (Bool-cases (id_eq a.faucet_id id)) [
          | inl same ↦ rw same (
              get_balance-fungible _ id (ap Id.account_type (sym ((id_eq_iff _ _).0 same)) ∙ v.kind)
              ∙ ap {B = Result AssetVaultError ℕ} (λ (w : Word). ok (amount_in w)) {y = value}
                  (read ∙ rw (fungible_key_eq, same)))
          | inr other ↦
              rw other (get_balance-of_stored vault _ id (read ∙ rw (fungible_key_eq, other)))
        ]

    -- and no answer about a non-fungible asset.
    pub has-written_fungible :
        (b : NonFungibleAsset)
        → IsValidNonFungible b
        → Vault.has_non_fungible_asset
            (written vault (fungible_key a.faucet_id) value)
            (non_fungible b)
          ≡ Vault.has_non_fungible_asset vault (non_fungible b)
    has-written_fungible b u =
        has-of_stored vault _ b
          (stored-written vault _ value b.word ∙ rw (fungible_key-ne-word a b v u))

  module _ (vault : AssetVault) (a : NonFungibleAsset) (v : IsValidNonFungible a)
      (value : Word) where
    -- A write under the word of a valid non-fungible asset changes no balance,
    pub get_balance-written_word :
        (id : AccountId)
        → Vault.get_balance (written vault a.word value) id ≡ Vault.get_balance vault id
    get_balance-written_word id = elim (Bool-cases (Fungible.is_fungible_faucet id)) [
      | inl is_fungible ↦ get_balance-of_stored vault _ id (
          stored-written vault a.word value (fungible_key id)
          ∙ rw (word-ne-fungible_key a id v is_fungible))
      | inr other ↦ get_balance-other _ id other ∙ sym (get_balance-other vault id other)
    ]

    -- and only the answer about this asset.
    pub has-written_word :
        (b : NonFungibleAsset)
        → Vault.has_non_fungible_asset (written vault a.word value) (non_fungible b) ≡ (
            if word_eq a.word b.word
            then ok (not (is_empty value))
            else Vault.has_non_fungible_asset vault (non_fungible b))
    has-written_word b = elim (Bool-cases (word_eq a.word b.word)) [
      | inl same ↦ rw same (
          has-stored _ b
          ∙ ap {B = Result AssetVaultError Bool} (λ (w : Word). ok (not (is_empty w))) {y = value}
              (stored-written vault a.word value b.word ∙ rw same))
      | inr other ↦
          rw other (has-of_stored vault _ b (stored-written vault a.word value b.word ∙ rw other))
    ]
