-- ===== src/Accounts/Id/Valid.antt =====
-- The ways to make an account ID: from bytes, from an integer, and from a seed.
use restartx.Common.{ℕ, ◌^◌, ◌≤◌, ◌<◌, ◌≡◌, arith}
use restartx.Common.{ltb, if◌then◌else◌, ok, err}
use restartx.Common.{>>=-eq-ok}
use restartx.Common.Bits.{trailing_zeros}
use restartx.Common.Bytes.{le_bytes, length-le_bytes, le_bytes-IsByte, of_le_bytes-le_bytes}
use restartx.Crypto.{IsFelt, Word, Digest, Crypto, field_modulus}
use restartx.Types.{AccountId}
use restartx.Errors.{AccountError}
use restartx.Accounts.Id
use restartx.Accounts.Id.Fields.{try_from_felt_iff}

-- The IDs that `try_from` returns.
pub record IsValid (id : AccountId) : Type 0 where
  pub is_felt : IsFelt id.felt
  pub accepted : Id.try_from_felt id.felt ≡ ok id

validate_pow :
    (digest : Digest) (u : Unit {0})
    → Id.validate_seed_digest digest ≡ ok u
    → (if Id.is_regular_account digest.e0 then 23 else 31) ≤ trailing_zeros digest.e3
unfolding Id.validate_seed_digest Id.digest_pow
validate_pow digest u h = ground arith

module _ ⦃c : Crypto⦄ where
  pub parse_felt-le_bytes :
      (v : ℕ)
      → v < 2 ^ 64
      → Id.parse_felt (le_bytes 8 v)
        ≡ (if ltb v field_modulus then ok v else err AccountError.account_id_invalid_field_element)
  unfolding Id.parse_felt
  parse_felt-le_bytes v h = ground (
    arith,
    c.felt_of_bytes_lem (le_bytes 8 v) (length-le_bytes 8 v) (le_bytes-IsByte 8 v),
    of_le_bytes-le_bytes 8 v h,
  )

  -- A `u64` below the modulus is read as the element of this value, any other is refused.
  pub try_from_u64_lem :
      (v : ℕ)
      → v < 2 ^ 64
      → Id.try_from_u64 v ≡ (
          if ltb v field_modulus
          then Id.try_from_felt v
          else err AccountError.account_id_invalid_field_element)
  unfolding Id.try_from_u64
  try_from_u64_lem v h = ground (arith, parse_felt-le_bytes v h)

  -- The bytes of a valid ID are read back as that ID.
  pub try_from_bytes-id_to_bytes :
      (id : AccountId) → IsValid id → Id.try_from_bytes (Id.id_to_bytes id) ≡ ok id
  unfolding Id.try_from_bytes Id.id_to_bytes
  try_from_bytes-id_to_bytes id v =
      ground (arith, parse_felt-le_bytes id.felt (omega arith), v.accepted)

  -- What `AccountId::new` returns is the first element of the seed's digest, it is valid, and the
  -- last element of the digest has the trailing zeros that are asked for its kind.
  pub new_checks :
      (seed : Word) (code_root storage_root : Digest) (id : AccountId)
      → Id.new seed code_root storage_root ≡ ok id
      → (id.felt ≡ (Id.compute_digest seed code_root storage_root).e0)
        × IsValid id
        × ((if Id.is_regular_account id.felt then 23 else 31)
            ≤ trailing_zeros (Id.compute_digest seed code_root storage_root).e3)
  unfolding Id.new Id.compute_digest
  new_checks seed code_root storage_root id h =
      let digest = Id.compute_digest seed code_root storage_root in
      let (u, pow, ok_id) = >>=-eq-ok (Id.validate_seed_digest digest) _ h in
      let felt : id.felt ≡ digest.e0 = ((try_from_felt_iff digest.e0 id).0 ok_id).0 in
      (
        felt,
        record { is_felt = rw felt (c.hash_elements-IsWord _).0; accepted = cc (felt, ok_id) },
        ground (arith, felt, validate_pow digest u pow),
      )
