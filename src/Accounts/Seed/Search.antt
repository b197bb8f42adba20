-- ===== src/Accounts/Seed/Search.antt =====
-- What the search returns, and that it returns.
use restartx.Common.{ℕ, zero, suc, ◌≤◌, ◌<◌, ◌↔◌, ◌≡◌, ◌≢◌, ◌⊎◌, refl, ap, inl, inr, arith}
use restartx.Common.{Bool, true, false, ok, err, panic, Result, List, >>=-eq-ok}
use restartx.Crypto.{Word, Digest, Crypto}
use restartx.Types.{AccountId, AccountType, AccountStorageType}
use restartx.Accounts.Id
use restartx.Accounts.Seed
use restartx.Accounts.Seed.{Stop, out_of_fuel}

type_eq→eq : (a b : AccountType) → Id.type_eq a b ≡ true → a ≡ b
type_eq→eq a b h = ground arith

storage_eq→eq : (a b : AccountStorageType) → Id.storage_eq a b ≡ true → a ≡ b
storage_eq→eq a b h = ground arith

type_eq_refl : (a : AccountType) → Id.type_eq a a ≡ true
type_eq_refl a = ground arith

storage_eq_refl : (a : AccountStorageType) → Id.storage_eq a a ≡ true
storage_eq_refl a = ground arith

Result-cases :
    (r : Result Stop Bool) → r ≢ panic → r ≢ err out_of_fuel → (r ≡ ok true) ⊎ (r ≡ ok false)
Result-cases (ok true) p q = inl refl
Result-cases (ok false) p q = inr refl
Result-cases (err out_of_fuel) p q = absurd (q refl)
Result-cases panic p q = absurd (p refl)

module _ (type : AccountType) (storage : AccountStorageType) (digest : Digest) where
  -- An ID with a bad storage field is refused before it is asked for its storage type.
  accepts-ne-panic : Seed.accepts type storage digest ≢ panic
  unfolding Seed.accepts Id.validate_seed_digest Id.try_from_felt Id.storage_type
  accepts-ne-panic = ground arith

  accepts-ne-err : Seed.accepts type storage digest ≢ err out_of_fuel
  unfolding Seed.accepts Id.validate_seed_digest Id.try_from_felt Id.storage_type
  accepts-ne-err = ground arith

  pub accepts-cases :
      (Seed.accepts type storage digest ≡ ok true) ⊎ (Seed.accepts type storage digest ≡ ok false)
  accepts-cases = Result-cases _ accepts-ne-panic accepts-ne-err

  accepts_checks :
      Seed.accepts type storage digest ≡ ok true
      → (id : AccountId) × (Id.validate_seed_digest digest ≡ ok tt)
        × (Id.try_from_felt digest.e0 ≡ ok id)
        × (Id.account_type id ≡ type)
        × (Id.storage_type {E = Stop} id ≡ ok storage)
  unfolding Seed.accepts Id.validate_seed_digest Id.try_from_felt Id.storage_type
  accepts_checks h = (
    record { felt = digest.e0 },
    ground arith,
    ground arith,
    type_eq→eq _ _ (ground arith),
    ground arith,
  )

  checks_accept :
      (id : AccountId)
      → Id.validate_seed_digest digest ≡ ok tt
      → Id.try_from_felt digest.e0 ≡ ok id
      → Id.account_type id ≡ type
      → Id.storage_type {E = Stop} id ≡ ok storage
      → Seed.accepts type storage digest ≡ ok true
  unfolding Seed.accepts
  checks_accept id pow taken same_type same_storage = ground (
    arith,
    pow,
    taken,
    same_storage,
    type_eq_refl type,
    storage_eq_refl storage,
    ap (λ (t : AccountType). Id.type_eq t type) same_type,
  )

module _ ⦃c : Crypto⦄ where
  module _ (type : AccountType) (storage : AccountStorageType)
      (code_root storage_root : Digest) where
    abbrev digest_of : Word → Digest
    digest_of seed = Id.compute_digest seed code_root storage_root

    -- The candidate after `n` rounds: every round takes the digest of the one before.
    abbrev pub chain : ℕ → Word → Word
    chain zero seed = seed
    chain (suc n) seed = chain n (digest_of seed)

    -- A seed makes an account ID of the type and the storage type.
    abbrev pub IsSuitable : Word → Type 0
    IsSuitable seed =
        (id : AccountId) × (Id.new seed code_root storage_root ≡ ok id)
        × (Id.account_type id ≡ type)
        × (Id.storage_type {E = Stop} id ≡ ok storage)

    accepts_iff :
        (seed : Word) → (Seed.accepts type storage (digest_of seed) ≡ ok true) ↔ IsSuitable seed
    unfolding Id.new
    accepts_iff seed = (
      λ h.
          let (id, pow, taken, same_type, same_storage) =
            accepts_checks type storage (digest_of seed) h in
          (id, rw (pow) taken, same_type, same_storage),
      λ (id, made, same_type, same_storage).
          let (u, pow, taken) = >>=-eq-ok (Id.validate_seed_digest (digest_of seed)) _ made in
          checks_accept type storage (digest_of seed) id pow taken same_type same_storage,
    )

    -- Whatever the fuel, a seed that the search returns is suitable.
    search-IsSuitable :
        (fuel : ℕ) (seed found : Word)
        → Seed.search type storage code_root storage_root fuel seed (digest_of seed) ≡ ok found
        → IsSuitable found
    unfolding Seed.search
    search-IsSuitable zero seed found h = cc
    search-IsSuitable (suc fuel) seed found h = elim (accepts-cases type storage (digest_of seed)) [
      | inl e ↦ (accepts_iff found).0 (ground (arith, e, h))
      | inr e ↦ search-IsSuitable fuel (digest_of seed) found (ground (arith, e, h))
    ]

    get_account_seed_single_sound :
        (fuel : ℕ) (init_seed : List ℕ) (seed : Word)
        → Seed.get_account_seed_single fuel init_seed type storage code_root storage_root ≡ ok seed
        → IsSuitable seed
    unfolding Seed.get_account_seed_single
    get_account_seed_single_sound fuel init_seed seed h =
        search-IsSuitable fuel (Seed.first_seed init_seed) seed h

    -- The first candidate that is suitable, among those up to the n-th.
    pub record IsFirst (n : ℕ) (first found : Word) : Type 0 where
      pub round : ℕ
      pub in_time : round ≤ n
      pub same_seed : found ≡ chain round first
      pub suitable : IsSuitable found
      pub none_before : (k : ℕ) → k < round → ¬ IsSuitable (chain k first)

    later-IsFirst :
        (n : ℕ) (first found : Word)
        → ¬ IsSuitable first
        → IsFirst n (digest_of first) found
        → IsFirst (suc n) first found
    later-IsFirst n first found refused w = record {
      round = suc w.round;
      in_time = omega (arith, w.in_time);
      same_seed = w.same_seed;
      suitable = w.suitable;
      none_before = elim [
        | zero ↦ λ below. refused
        | suc k ↦ λ below. w.none_before k (omega (arith, below))
      ];
    }

    search-IsFirst :
        (n fuel : ℕ) (seed : Word)
        → n < fuel
        → IsSuitable (chain n seed)
        → (found : Word) × (Seed.search type storage code_root storage_root fuel seed
              (digest_of seed)
            ≡ ok found)
          × IsFirst n seed found
    unfolding Seed.search
    search-IsFirst n zero seed below h = absurd (omega arith)
    search-IsFirst zero (suc fuel) seed below h = (
      seed,
      ground (arith, (accepts_iff seed).1 h),
      record {
        round = 0;
        in_time = omega arith;
        same_seed = refl;
        suitable = h;
        none_before = λ k less. absurd (omega (arith, less));
      },
    )
    search-IsFirst (suc n) (suc fuel) seed below h =
        elim (accepts-cases type storage (digest_of seed)) [
          | inl e ↦ (
            seed,
            ground (arith, e),
            record {
              round = 0;
              in_time = omega arith;
              same_seed = refl;
              suitable = (accepts_iff seed).0 e;
              none_before = λ k less. absurd (omega (arith, less));
            },
          )
          | inr e ↦
              let (found, run, first) = search-IsFirst n fuel (digest_of seed) (omega arith) h in
              (
                found,
                ground (arith, e, run),
                later-IsFirst n seed found (λ suits. ground (arith, e, (accepts_iff seed).1 suits))
                    first,
              )
        ]

    -- If the candidate after `n` rounds makes an account ID of the type and the storage type that
    -- are asked for, then more than `n` units of fuel are enough for the search to return a seed,
    -- and the seed is the first of the candidates that makes such an ID.
    pub get_account_seed_single_finds :
        (n fuel : ℕ) (init_seed : List ℕ)
        → n < fuel
        → IsSuitable (chain n (Seed.first_seed init_seed))
        → (seed : Word) × (Seed.get_account_seed_single fuel init_seed type storage code_root
              storage_root
            ≡ ok seed)
          × IsFirst n (Seed.first_seed init_seed) seed
    unfolding Seed.get_account_seed_single
    get_account_seed_single_finds n fuel init_seed below h =
        search-IsFirst n fuel (Seed.first_seed init_seed) below h
