-- ===== src/Assets/Vault/Invariant.antt =====
-- What a vault may hold, and what its entries mean.
use restartx.Common.{ℕ, ◌≤◌, ◌≡◌, inl, inr, sym, ◌∙◌, ap, arith}
use restartx.Common.{false, if◌then◌else◌, Bool-cases}
use restartx.Crypto.{Word, Crypto, empty_word, word_eq, word_eq_iff}
use restartx.Merkle.{Smt}
use restartx.Types.{AccountId, Asset, FungibleAsset, NonFungibleAsset}
use restartx.Types.Asset.{fungible, non_fungible}
use restartx.Accounts.Id
use restartx.Accounts.Id.Fields.{type_bits_lem}
use restartx.Assets.Fungible
use restartx.Assets.NonFungible
use restartx.Assets.Value
use restartx.Assets.Value.Valid.{IsValid, IsValidFungible, IsValidNonFungible, fungible_digit}
use restartx.Assets.Value.RoundTrip.{fungible_word}
use restartx.Assets.Vault.{AssetVault, stored, written, is_empty, amount_in}

abbrev pub fungible_key : AccountId → Word
fungible_key id = record { e0 = 0; e1 = 0; e2 = 0; e3 = id.felt }

-- A valid word is not the empty one.
pub fungible_word-ne-empty :
    (a : FungibleAsset) (n : ℕ)
    → IsValidFungible a
    → is_empty (record { e0 = n; e1 = 0; e2 = 0; e3 = a.faucet_id.felt }) ≡ false
fungible_word-ne-empty a n v = ground (arith, fungible_digit a v)

pub non_fungible_word-ne-empty :
    (a : NonFungibleAsset) → IsValidNonFungible a → is_empty a.word ≡ false
unfolding Id.account_type NonFungible.faucet_id
non_fungible_word-ne-empty a v = ground (arith, type_bits_lem a.word.e1, v.kind)

module _ ⦃m : Smt⦄ where
  -- The amount of the faucet `id`: what `get_balance` returns for a fungible faucet.
  abbrev pub amount_of : AssetVault → AccountId → ℕ
  amount_of vault id = amount_in (stored vault (fungible_key id))

  pub stored-written :
      (vault : AssetVault) (key value j : Word)
      → stored (written vault key value) j ≡ (if word_eq key j then value else stored vault j)
  stored-written vault key value j = m.get_value-insert vault.asset_tree key value j

module _ ⦃c : Crypto⦄ ⦃m : Smt⦄ where
  -- An entry is empty, or it is the word of a valid asset under that asset's key.
  pub data Entry (vault : AssetVault) (key : Word) : Type 0 where
    vacant : stored vault key ≡ empty_word → Entry vault key
    holds :
        (a : Asset)
        → IsValid a
        → Value.vault_key a ≡ key
        → Value.to_word a ≡ stored vault key
        → Entry vault key

  pub record IsWellFormed (vault : AssetVault) : Type 0 where
    pub entry : (key : Word) → Entry vault key

  -- The entry under the key of a fungible faucet.
  pub data FungibleEntry (vault : AssetVault) (id : AccountId) : Type 0 where
    vacant : stored vault (fungible_key id) ≡ empty_word → FungibleEntry vault id
    holds :
        (n : ℕ)
        → n ≤ Fungible.max_amount
        → stored vault (fungible_key id) ≡ record { e0 = n; e1 = 0; e2 = 0; e3 = id.felt }
        → FungibleEntry vault id

  pub fungible_entry :
      (vault : AssetVault) (a : FungibleAsset)
      → IsWellFormed vault
      → IsValidFungible a
      → FungibleEntry vault a.faucet_id
  unfolding Value.vault_key Fungible.vault_key NonFungible.vault_key
  fungible_entry vault a w v = go (w.entry (fungible_key a.faucet_id))
    where
      go : Entry vault (fungible_key a.faucet_id) → FungibleEntry vault a.faucet_id
      go (Entry.vacant e) = FungibleEntry.vacant e
      go (Entry.holds (fungible b) u k s) =
          FungibleEntry.holds b.amount u.bounded (sym s ∙ fungible_word b u ∙ ground (arith, k))
      go (Entry.holds (non_fungible b) u k s) =
          absurd (omega (arith, fungible_digit a v, u.cleared, ap Word.e3 k))

  keep-Entry :
      (vault vault' : AssetVault) (key : Word)
      → stored vault' key ≡ stored vault key
      → Entry vault key
      → Entry vault' key
  keep-Entry vault vault' key e (Entry.vacant z) = Entry.vacant (e ∙ z)
  keep-Entry vault vault' key e (Entry.holds a v k s) = Entry.holds a v k (s ∙ sym e)

  -- Writing a valid asset under its key, or emptying a key, keeps a vault well formed.
  pub written-IsWellFormed :
      (vault : AssetVault) (a : Asset)
      → IsWellFormed vault
      → IsValid a
      → IsWellFormed (written vault (Value.vault_key a) (Value.to_word a))
  written-IsWellFormed vault a w v = record {
    entry = λ key. elim (Bool-cases (word_eq (Value.vault_key a) key)) [
      | inl same ↦
          Entry.holds a v ((word_eq_iff (Value.vault_key a) key).0 same)
            (rw (stored-written vault (Value.vault_key a) (Value.to_word a) key, same))
      | inr other ↦
          keep-Entry vault _ key
            (rw (stored-written vault (Value.vault_key a) (Value.to_word a) key, other))
            (w.entry key)
    ];
  }

  pub erased-IsWellFormed :
      (vault : AssetVault) (key : Word)
      → IsWellFormed vault
      → IsWellFormed (written vault key empty_word)
  erased-IsWellFormed vault k w = record {
    entry = λ key. elim (Bool-cases (word_eq k key)) [
      | inl same ↦ Entry.vacant (rw (stored-written vault k empty_word key, same))
      | inr other ↦
          keep-Entry vault _ key (rw (stored-written vault k empty_word key, other)) (w.entry key)
    ];
  }
