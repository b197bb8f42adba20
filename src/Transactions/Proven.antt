-- ===== src/Transactions/Proven.antt =====
-- Proven transactions, their builder, and their IDs (objects/src/transaction/proven_tx.rs,
-- transaction_id.rs). The type of proofs is a parameter.
pub mod Details
use restartx.Common.{ℕ, Bool, true, false, not, ◌&&◌, if◌then◌else◌, List, [], ◌∷◌, ◌++◌}
use restartx.Common.{Option, none, some, Result, ok, err, panic, ◌>>=◌, ◌>>◌, guard, map_err}
use restartx.Crypto.{Felt, Digest, Crypto, elements, empty_word, word_eq}
use restartx.Merkle.{Smt, SimpleSmt}
use restartx.Types.{AccountId, id_eq}
use restartx.Errors.{ProvenTransactionError}
use restartx.Accounts.Id
use restartx.Accounts.Account
use restartx.Accounts.Account.{Account}
use restartx.Accounts.Delta.{AccountDelta}
use restartx.Transactions.InputNotes
use restartx.Transactions.OutputNotes
use restartx.Transactions.OutputNotes.{OutputNote}

module _ ⦃c : Crypto⦄ where
  -- `TransactionId::new`
  unfoldable pub transaction_id : Digest → Digest → Digest → Digest → Digest
  transaction_id init_account_hash final_account_hash input_notes_hash output_notes_hash =
      c.hash_elements (
        elements init_account_hash
        ++ (elements final_account_hash
            ++ (elements input_notes_hash ++ elements output_notes_hash)))

module _ ⦃m : Smt⦄ ⦃s : SimpleSmt⦄ where
  pub data AccountDetails : Type 0 where
    full : Account → AccountDetails
    delta : AccountDelta → AccountDetails

  pub record ProvenTransaction (Proof : Type 0) : Type 0 where
    pub id : Digest
    pub account_id : AccountId
    pub initial_account_hash : Digest
    pub final_account_hash : Digest
    pub account_details : Option AccountDetails
    pub input_notes : InputNotes.InputNotes Digest
    pub output_notes : OutputNotes.OutputNotes
    pub tx_script_root : Option Digest
    pub block_ref : Digest
    pub proof : Proof

  pub record ProvenTransactionBuilder (Proof : Type 0) : Type 0 where
    pub account_id : AccountId
    pub initial_account_hash : Digest
    pub final_account_hash : Digest
    pub account_details : Option AccountDetails
    pub input_notes : List Digest
    pub output_notes : List OutputNote
    pub tx_script_root : Option Digest
    pub block_ref : Digest
    pub proof : Proof

module _ ⦃c : Crypto⦄ ⦃m : Smt⦄ ⦃s : SimpleSmt⦄ where
  -- The test of the details of an account on chain.
  unfoldable pub validate_details :
      AccountId → Digest → Digest → Option AccountDetails → Result ProvenTransactionError (Unit {0})
  validate_details account_id initial final none =
      err (ProvenTransactionError.on_chain_account_missing_details account_id)
  validate_details account_id initial final (some (AccountDetails.delta d)) =
      guard (not (word_eq initial empty_word))
        (ProvenTransactionError.new_on_chain_account_requires_full_details account_id)
  validate_details account_id initial final (some (AccountDetails.full account)) = do
    guard (word_eq initial empty_word)
        (ProvenTransactionError.existing_on_chain_account_requires_delta_details account_id)
    guard (id_eq account.id account_id)
        (ProvenTransactionError.account_id_mismatch account_id account.id)
    guard (word_eq (Account.hash account) final)
        (ProvenTransactionError.account_final_hash_mismatch final (Account.hash account))

  abbrev pub is_some : Option AccountDetails → Bool
  is_some none = false
  is_some (some d) = true

  -- The tests of `validate`, with the value of `is_on_chain`.
  unfoldable pub check_details :
      Bool
      → AccountId
      → Digest
      → Digest
      → Option AccountDetails
      → Result ProvenTransactionError (Unit {0})
  check_details on_chain account_id initial final details = do
    guard (not (not on_chain && is_some details))
        (ProvenTransactionError.off_chain_account_with_details account_id)
    if on_chain then validate_details account_id initial final details else ok tt

  unfoldable pub validate :
      {Proof : Type 0}
      → ProvenTransaction Proof
      → Result ProvenTransactionError (ProvenTransaction Proof)
  validate tx = do
    on_chain ← Id.is_on_chain tx.account_id
    check_details on_chain tx.account_id tx.initial_account_hash tx.final_account_hash
        tx.account_details
    ok tx

  -- The transaction that `build` makes from accepted notes.
  unfoldable pub transaction_of :
      {Proof : Type 0}
      → ProvenTransactionBuilder Proof
      → InputNotes.InputNotes Digest
      → OutputNotes.OutputNotes
      → ProvenTransaction Proof
  transaction_of b input_notes output_notes = record {
    id =
        transaction_id b.initial_account_hash b.final_account_hash input_notes.commitment
          output_notes.commitment;
    account_id = b.account_id;
    initial_account_hash = b.initial_account_hash;
    final_account_hash = b.final_account_hash;
    account_details = b.account_details;
    input_notes = input_notes;
    output_notes = output_notes;
    tx_script_root = b.tx_script_root;
    block_ref = b.block_ref;
    proof = b.proof;
  }

  -- `ProvenTransactionBuilder::build`
  unfoldable pub build :
      {Proof : Type 0}
      → ProvenTransactionBuilder Proof
      → Result ProvenTransactionError (ProvenTransaction Proof)
  build b = do
    input_notes ←
        map_err ProvenTransactionError.input_notes_error (InputNotes.new (λ x. x) b.input_notes)
    output_notes ←
        map_err ProvenTransactionError.output_notes_error (OutputNotes.new b.output_notes)
    validate (transaction_of b input_notes output_notes)
