-- ===== src/Accounts/Id.antt =====
-- Account IDs (objects/src/accounts/account_id.rs): one field element whose four highest binary
-- digits hold the storage type and the account type.
pub mod Fields
pub mod Valid
use restartx.Common.{ℕ, ◌+◌, ◌-◌, ◌*◌, ◌/◌, ◌^◌, ◌≡◌, bit_and, arith}
use restartx.Common.{Bool, true, false, ◌==◌, leb, if◌then◌else◌, ◌||◌, Option, none, some}
use restartx.Common.{List, [], ◌∷◌, ◌++◌, replicate}
use restartx.Common.{Result, ok, err, panic, ◌>>=◌, ◌>>◌, guard}
use restartx.Common.Bits.{count_ones, trailing_zeros}
use restartx.Common.Bytes.{le_bytes}
use restartx.Crypto.{Felt, Word, Digest, Crypto, elements}
use restartx.Types.{AccountId, AccountType, AccountStorageType}
use restartx.Types.AccountType.{fungible_faucet, non_fungible_faucet}
use restartx.Types.AccountType.{regular_account_immutable_code, regular_account_updatable_code}
use restartx.Errors.{AccountError}

abbrev pub account_storage_mask_shift : ℕ
account_storage_mask_shift = 62

abbrev pub account_storage_mask : ℕ
account_storage_mask = 3 * 2 ^ account_storage_mask_shift

abbrev pub account_type_mask_shift : ℕ
account_type_mask_shift = 60

abbrev pub account_type_mask : ℕ
account_type_mask = 3 * 2 ^ account_type_mask_shift

abbrev pub account_isfaucet_mask : ℕ
account_isfaucet_mask = 2 * 2 ^ account_type_mask_shift

-- The values of `account_type as u64` and `storage_type as u64`.
abbrev pub type_code : AccountType → ℕ
type_code fungible_faucet = 2
type_code non_fungible_faucet = 3
type_code regular_account_immutable_code = 0
type_code regular_account_updatable_code = 1

abbrev pub storage_code : AccountStorageType → ℕ
storage_code AccountStorageType.on_chain = 0
storage_code AccountStorageType.off_chain = 2

abbrev pub type_eq : AccountType → AccountType → Bool
type_eq a b = type_code a == type_code b

abbrev pub storage_eq : AccountStorageType → AccountStorageType → Bool
storage_eq a b = storage_code a == storage_code b

-- `(value & ACCOUNT_TYPE_MASK) >> ACCOUNT_TYPE_MASK_SHIFT`
abbrev pub type_bits : ℕ → ℕ
type_bits value = bit_and value account_type_mask / 2 ^ account_type_mask_shift

abbrev pub storage_bits : ℕ → ℕ
storage_bits value = bit_and value account_storage_mask / 2 ^ account_storage_mask_shift

-- `AccountType::from(u64)`. The last arm is that of `NON_FUNGIBLE_FAUCET`; the `unreachable!` one
-- behind it has no value left, since the masked number is below 4 (`type_bits-lt`).
unfoldable pub account_type_of : ℕ → AccountType
account_type_of value =
    let bits = type_bits value in
    if bits == 1
    then regular_account_updatable_code
    else if bits == 0
    then regular_account_immutable_code
    else if bits == 2
    then fungible_faucet
    else non_fungible_faucet

unfoldable pub account_type : AccountId → AccountType
unfolding account_type_of
account_type id = account_type_of id.felt

unfoldable pub is_faucet : AccountId → Bool
unfolding account_type
is_faucet id = elim (account_type id) [
  | fungible_faucet ↦ true
  | non_fungible_faucet ↦ true
  | regular_account_immutable_code ↦ false
  | regular_account_updatable_code ↦ false
]

-- The free function and the method of this name.
unfoldable pub is_regular_account : ℕ → Bool
unfolding account_type_of
is_regular_account value = elim (account_type_of value) [
  | fungible_faucet ↦ false
  | non_fungible_faucet ↦ false
  | regular_account_immutable_code ↦ true
  | regular_account_updatable_code ↦ true
]

-- A storage field of 0b01 or 0b11 is a panic.
unfoldable pub storage_type {ℓ} : {E : Type ℓ} → AccountId → Result E AccountStorageType
storage_type id =
    let bits = storage_bits id.felt in
    if bits == 0
    then ok AccountStorageType.on_chain
    else if bits == 2
    then ok AccountStorageType.off_chain
    else panic

unfoldable pub is_on_chain {ℓ} : {E : Type ℓ} → AccountId → Result E Bool
unfolding storage_type
is_on_chain id = do t ← storage_type id; ok (storage_eq t AccountStorageType.on_chain)

abbrev pub min_account_ones : ℕ
min_account_ones = 5

-- `AccountId::try_from(Felt)`
unfoldable pub try_from_felt : Felt → Result AccountError AccountId
try_from_felt v = do
  let count = count_ones v
  guard (leb min_account_ones count) (AccountError.account_id_too_few_ones min_account_ones count)
  guard ((storage_bits v == 0) || (storage_bits v == 2)) AccountError.invalid_account_storage_type
  ok (record { felt = v })

-- `<[u8; 8]>::from(AccountId)`
unfoldable pub id_to_bytes : AccountId → List ℕ
id_to_bytes id = le_bytes 8 id.felt

-- `REGULAR_ACCOUNT_SEED_DIGEST_MIN_TRAILING_ZEROS` and `FAUCET_SEED_DIGEST_MIN_TRAILING_ZEROS`
-- of a build without the feature "testing".
abbrev pub regular_account_min_trailing_zeros : ℕ
regular_account_min_trailing_zeros = 23

abbrev pub faucet_min_trailing_zeros : ℕ
faucet_min_trailing_zeros = 31

unfoldable pub digest_pow : Digest → ℕ
digest_pow digest = trailing_zeros digest.e3

unfoldable pub validate_seed_digest : Digest → Result AccountError (Unit {0})
validate_seed_digest digest = do
  let required =
      if is_regular_account digest.e0
      then regular_account_min_trailing_zeros
      else faucet_min_trailing_zeros
  let zeros = digest_pow digest
  guard (leb required zeros) (AccountError.seed_digest_too_few_trailing_zeros required zeros)

module _ ⦃c : Crypto⦄ where
  unfoldable pub parse_felt : List ℕ → Result AccountError Felt
  parse_felt bytes = elim (c.felt_of_bytes bytes) [
    | some v ↦ ok v
    | none ↦ err AccountError.account_id_invalid_field_element
  ]

  -- `AccountId::try_from([u8; 8])` and `AccountId::try_from(u64)`
  unfoldable pub try_from_bytes : List ℕ → Result AccountError AccountId
  try_from_bytes bytes = do element ← parse_felt bytes; try_from_felt element

  unfoldable pub try_from_u64 : ℕ → Result AccountError AccountId
  try_from_u64 v = do element ← parse_felt (le_bytes 8 v); try_from_felt element

  unfoldable pub compute_digest : Word → Digest → Digest → Digest
  compute_digest seed code_root storage_root =
      c.hash_elements
        (elements seed ++ (elements code_root ++ (elements storage_root ++ replicate 4 0)))

  -- `AccountId::new`
  unfoldable pub new : Word → Digest → Digest → Result AccountError AccountId
  new seed code_root storage_root = do
    let seed_digest = compute_digest seed code_root storage_root
    validate_seed_digest seed_digest
    try_from_felt seed_digest.e0
