-- ===== src/Assets/Value/Valid.antt =====
-- The assets that the constructors admit, and the words that stand for them.
use restartx.Common.{ℕ, ◌+◌, ◌-◌, ◌*◌, ◌/◌, ◌%◌, ◌^◌, ◌≤◌, ◌≡◌, ◌↔◌, ◌∙◌, arith}
use restartx.Common.{true, false, bit_and, bit_xor, ok}
use restartx.Common.Bits.{one_digit, clear_digit}
use restartx.Crypto.{IsWord, Word, Crypto}
use restartx.Types.{AccountId, Asset, FungibleAsset, NonFungibleAsset}
use restartx.Types.Asset.{fungible, non_fungible}
use restartx.Types.AccountType.{fungible_faucet, non_fungible_faucet}
use restartx.Accounts.Id
use restartx.Accounts.Id.Fields.{type_bits_lem}
use restartx.Accounts.Id.Valid
use restartx.Assets.Fungible
use restartx.Assets.NonFungible
use restartx.Assets.Value

pub record IsValidFungible (a : FungibleAsset) : Type 0 where
  pub faucet : Valid.IsValid a.faucet_id
  pub kind : Id.account_type a.faucet_id ≡ fungible_faucet
  pub bounded : a.amount ≤ Fungible.max_amount

pub record IsValidNonFungible (a : NonFungibleAsset) : Type 0 where
  pub faucet : Valid.IsValid (NonFungible.faucet_id a)
  pub kind : Id.account_type (NonFungible.faucet_id a) ≡ non_fungible_faucet
  pub is_word : IsWord a.word
  pub cleared : a.word.e3 / 2 ^ 61 % 2 ≡ 0

abbrev pub IsValid : Asset → Type 0
IsValid (fungible a) = IsValidFungible a
IsValid (non_fungible a) = IsValidNonFungible a

pub faucet_digit :
    (w : Word) → (Value.is_not_a_non_fungible_asset w ≡ true) ↔ (w.e3 / 2 ^ 61 % 2 ≡ 1)
unfolding Value.is_not_a_non_fungible_asset
faucet_digit w = (λ h. ground (arith, one_digit 61 w.e3), λ h. ground (arith, one_digit 61 w.e3))

pub fungible_digit : (a : FungibleAsset) → IsValidFungible a → a.faucet_id.felt / 2 ^ 61 % 2 ≡ 1
unfolding Id.account_type
fungible_digit a v = ground (arith, type_bits_lem a.faucet_id.felt, v.kind)

new_faucet :
    (id : AccountId) (amount : ℕ) (a : FungibleAsset)
    → Fungible.new id amount ≡ ok a
    → a.faucet_id ≡ id
unfolding Fungible.new Fungible.validate
new_faucet id amount a h = ground arith

-- `new` admits exactly the amounts up to 2^63 - 1 of a fungible faucet.
pub new-IsValid :
    (id : AccountId) (amount : ℕ) (a : FungibleAsset)
    → Valid.IsValid id
    → (Fungible.new id amount ≡ ok a)
      ↔ ((a.faucet_id ≡ id) × (a.amount ≡ amount) × IsValidFungible a)
unfolding Fungible.new Fungible.validate
new-IsValid id amount a v = (
  λ h. (
    ground arith,
    ground arith,
    record {
      faucet = rw (new_faucet id amount a h) v;
      kind = ground arith;
      bounded = ground arith;
    },
  ),
  λ h. ground (arith, h, h.2.kind, h.2.bounded),
)

pub non_fungible_digit :
    (w : Word) → w.e3 / 2 ^ 61 % 2 ≡ 0 → Value.is_not_a_non_fungible_asset w ≡ false
unfolding Value.is_not_a_non_fungible_asset
non_fungible_digit w h = ground (arith, one_digit 61 w.e3)

pub clear_of_digit :
    (w : Word) → Value.is_not_a_non_fungible_asset w ≡ false → w.e3 / 2 ^ 61 % 2 ≡ 0
unfolding Value.is_not_a_non_fungible_asset
clear_of_digit w h = ground (arith, one_digit 61 w.e3)

module _ ⦃c : Crypto⦄ where
  parts_faucet :
      (id : AccountId) (hash : Word) (a : NonFungibleAsset)
      → NonFungible.from_parts id hash ≡ ok a
      → NonFungible.faucet_id a ≡ id
  unfolding NonFungible.from_parts NonFungible.faucet_id
  parts_faucet id hash a h = ground arith

  -- A non-fungible asset made of a valid faucet and a hash keeps the hash's elements 0 and 2,
  -- holds the faucet in element 1, and is valid: the faucet digit of element 3 is cleared, and
  -- only that one.
  pub from_parts-IsValid :
      (id : AccountId) (hash : Word) (a : NonFungibleAsset)
      → Valid.IsValid id
      → IsWord hash
      → NonFungible.from_parts id hash ≡ ok a
      → IsValidNonFungible a
        × (NonFungible.faucet_id a ≡ id)
        × (a.word.e0 ≡ hash.e0)
        × (a.word.e2 ≡ hash.e2)
        × (a.word.e3 + hash.e3 / 2 ^ 61 % 2 * 2 ^ 61 ≡ hash.e3)
  unfolding NonFungible.from_parts NonFungible.faucet_id
  from_parts-IsValid id hash a v w h =
      let e : c.felt_new (bit_xor (bit_and hash.e3 (2 ^ 61)) hash.e3)
          ≡ hash.e3 - hash.e3 / 2 ^ 61 % 2 * 2 ^ 61 =
        rw (clear_digit 61 hash.e3) (c.felt_new_of_lt _ (omega (arith, w.3)) ∙ omega arith) in
      (
        record {
          faucet = rw (parts_faucet id hash a h) v;
          kind = ground arith;
          is_word = ground (arith, e, v.is_felt, w);
          cleared = ground (arith, e);
        },
        parts_faucet id hash a h,
        ground arith,
        ground arith,
        ground (arith, e),
      )
