-- ===== src/Accounts/Id/Fields.antt =====
-- The fields packed into an account ID, in arithmetic.
use restartx.Common.{ℕ, ◌+◌, ◌*◌, ◌/◌, ◌%◌, ◌^◌, ◌≤◌, ◌<◌, ◌≡◌, ◌↔◌, ◌⊎◌, inl, inr, arith}
use restartx.Common.{not, ◌==◌, bit_and, ok}
use restartx.Common.Bits.{two_digits, one_digit, count_ones}
use restartx.Crypto.{Felt}
use restartx.Types.{AccountId, AccountType, AccountStorageType}
use restartx.Types.AccountType.{fungible_faucet, non_fungible_faucet}
use restartx.Accounts.Id

pub type_bits_lem : (v : ℕ) → Id.type_bits v ≡ v / 2 ^ 60 % 4
type_bits_lem v = two_digits 60 v

pub storage_bits_lem : (v : ℕ) → Id.storage_bits v ≡ v / 2 ^ 62 % 4
storage_bits_lem v = two_digits 62 v

pub type_bits-lt : (v : ℕ) → Id.type_bits v < 4
type_bits-lt v = omega (arith, type_bits_lem v)

-- An ID with the digits of `s` and `t` on top of a number below 2^60.
abbrev pub pack : AccountStorageType → AccountType → ℕ → AccountId
pack s t r = record { felt = Id.storage_code s * 2 ^ 62 + Id.type_code t * 2 ^ 60 + r }

pack_bits :
    (s : AccountStorageType) (t : AccountType) (r : ℕ)
    → r < 2 ^ 60
    → ((pack s t r).felt / 2 ^ 60 % 4 ≡ Id.type_code t)
      × ((pack s t r).felt / 2 ^ 62 % 4 ≡ Id.storage_code s)
pack_bits AccountStorageType.on_chain fungible_faucet r h = omega arith
pack_bits AccountStorageType.on_chain non_fungible_faucet r h = omega arith
pack_bits AccountStorageType.on_chain _ r h = omega arith
pack_bits AccountStorageType.off_chain fungible_faucet r h = omega arith
pack_bits AccountStorageType.off_chain non_fungible_faucet r h = omega arith
pack_bits AccountStorageType.off_chain _ r h = omega arith

-- The accessors read back the two kinds that an ID was packed from.
pub kinds-pack {ℓ} :
    {E : Type ℓ} (s : AccountStorageType) (t : AccountType) (r : ℕ)
    → r < 2 ^ 60
    → (Id.account_type (pack s t r) ≡ t) × (Id.storage_type {E = E} (pack s t r) ≡ ok s)
unfolding Id.account_type Id.storage_type
kinds-pack s t r h = (
  ground (arith, type_bits_lem (pack s t r).felt, pack_bits s t r h),
  ground (arith, storage_bits_lem (pack s t r).felt, pack_bits s t r h),
)

pub is_faucet-mask :
    (id : AccountId)
    → Id.is_faucet id ≡ (bit_and id.felt Id.account_isfaucet_mask == Id.account_isfaucet_mask)
unfolding Id.is_faucet
is_faucet-mask id = ground (arith, type_bits_lem id.felt, one_digit 61 id.felt)

pub is_regular_account-is_faucet :
    (id : AccountId) → Id.is_regular_account id.felt ≡ not (Id.is_faucet id)
unfolding Id.is_regular_account Id.is_faucet
is_regular_account-is_faucet id = ground arith

-- `try_from` accepts exactly the elements with five ones and a storage field of 0b00 or 0b10.
pub try_from_felt_iff :
    (v : Felt) (id : AccountId)
    → (Id.try_from_felt v ≡ ok id)
      ↔ ((id.felt ≡ v) × (5 ≤ count_ones v) × ((v / 2 ^ 62 % 4 ≡ 0) ⊎ (v / 2 ^ 62 % 4 ≡ 2)))
unfolding Id.try_from_felt
try_from_felt_iff v id =
    (λ h. ground (arith, storage_bits_lem v), λ h. ground (arith, storage_bits_lem v))

-- An ID that `try_from` accepts has a storage type: the accessor does not panic on it.
pub storage_type_total {ℓ} :
    {E : Type ℓ} (v : Felt) (id : AccountId)
    → Id.try_from_felt v ≡ ok id
    → (s : AccountStorageType) × (Id.storage_type {E = E} id ≡ ok s)
unfolding Id.storage_type
storage_type_total v id h =
    let (e, n, b) = (try_from_felt_iff v id).0 h in
    elim b [
      | inl z ↦ (AccountStorageType.on_chain, ground (arith, storage_bits_lem id.felt))
      | inr z ↦ (AccountStorageType.off_chain, ground (arith, storage_bits_lem id.felt))
    ]
