-- ===== src/Transactions/Proven/Details.antt =====
-- What a proven transaction says of its account.
use restartx.Common.{◌≡◌, ◌≢◌, refl, arith, Bool, true, false, Option, none, some}
use restartx.Common.{ok, >>=-eq-ok, map_err}
use restartx.Crypto.{Digest, Crypto, empty_word}
use restartx.Merkle.{Smt, SimpleSmt}
use restartx.Types.{AccountId}
use restartx.Errors.{ProvenTransactionError}
use restartx.Accounts.Id
use restartx.Accounts.Account
use restartx.Accounts.Account.{Account}
use restartx.Accounts.Delta.{AccountDelta}
use restartx.Transactions.InputNotes
use restartx.Transactions.OutputNotes
use restartx.Transactions.Proven
use restartx.Transactions.Proven.{AccountDetails, ProvenTransaction, ProvenTransactionBuilder}

module _ ⦃c : Crypto⦄ ⦃m : Smt⦄ ⦃s : SimpleSmt⦄ where
  -- The details that an account on chain needs: the account itself if it is new, else a delta.
  pub data HasDetails (id : AccountId) (initial final : Digest)
      : Option AccountDetails → Type 0 where
    new_account :
        {account : Account}
        → initial ≡ empty_word
        → account.id ≡ id
        → Account.hash account ≡ final
        → HasDetails id initial final (some (AccountDetails.full account))
    old_account :
        {d : AccountDelta}
        → initial ≢ empty_word
        → HasDetails id initial final (some (AccountDetails.delta d))

  validate_details_ok :
      (id : AccountId) (initial final : Digest) (d : Option AccountDetails)
      → Proven.validate_details id initial final d ≡ ok tt
      → HasDetails id initial final d
  unfolding Proven.validate_details
  validate_details_ok id initial final none h = cc
  validate_details_ok id initial final (some (AccountDetails.full a)) h =
      new_account (ground (arith, h)) (ground (arith, h)) (ground (arith, h))
  validate_details_ok id initial final (some (AccountDetails.delta d)) h =
      old_account (ground (arith, h))

  -- What the accepted details say, where `b` is whether the account is on chain.
  abbrev pub AreDetails : Bool → AccountId → Digest → Digest → Option AccountDetails → Type 0
  AreDetails true id initial final d = HasDetails id initial final d
  AreDetails false id initial final d = d ≡ none

  check_details_ok :
      (b : Bool) (id : AccountId) (initial final : Digest) (d : Option AccountDetails)
      → Proven.check_details b id initial final d ≡ ok tt
      → AreDetails b id initial final d
  unfolding Proven.check_details
  check_details_ok true id initial final d h = validate_details_ok id initial final d h
  check_details_ok false id initial final none h = refl
  check_details_ok false id initial final (some d) h = ground (arith, h)

  validate_ok :
      {Proof : Type 0} (tx u : ProvenTransaction Proof)
      → Proven.validate tx ≡ ok u
      → (u ≡ tx)
        × ((b : Bool) × (Id.is_on_chain {E = ProvenTransactionError} tx.account_id ≡ ok b)
            × AreDetails b tx.account_id tx.initial_account_hash tx.final_account_hash
                tx.account_details)
  unfolding Proven.validate
  validate_ok tx u h =
      let (b, on_chain, rest) =
        >>=-eq-ok (Id.is_on_chain {E = ProvenTransactionError} tx.account_id) _ h in
      let (v, checked, same) =
        >>=-eq-ok
          (Proven.check_details b tx.account_id tx.initial_account_hash tx.final_account_hash
            tx.account_details)
          _ rest in
      (
        ground (arith, same),
        (
          b,
          on_chain,
          check_details_ok b tx.account_id tx.initial_account_hash tx.final_account_hash
              tx.account_details checked,
        ),
      )

  -- A transaction that the builder returns has the account and the hashes of the builder. If the
  -- account is on chain, there are its details: the account with the transaction's account ID and
  -- final hash if the initial hash is the empty word, else a delta. If it is off chain, there are
  -- no details.
  pub build_details :
      {Proof : Type 0} (b : ProvenTransactionBuilder Proof) (u : ProvenTransaction Proof)
      → Proven.build b ≡ ok u
      → (u.account_id ≡ b.account_id)
        × (u.initial_account_hash ≡ b.initial_account_hash)
        × (u.final_account_hash ≡ b.final_account_hash)
        × ((on_chain : Bool) × (Id.is_on_chain {E = ProvenTransactionError} u.account_id
              ≡ ok on_chain)
            × AreDetails on_chain u.account_id u.initial_account_hash u.final_account_hash
                u.account_details)
  unfolding Proven.build Proven.transaction_of
  build_details b u h =
      let (i, inputs, rest) =
        >>=-eq-ok
          (map_err ProvenTransactionError.input_notes_error (InputNotes.new (λ x. x) b.input_notes))
          _ h in
      let (o, outputs, last) =
        >>=-eq-ok
          (map_err ProvenTransactionError.output_notes_error (OutputNotes.new b.output_notes)) _
          rest in
      let (same, d) = validate_ok (Proven.transaction_of b i o) u last in
      rw same (refl, refl, refl, d)
