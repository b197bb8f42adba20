-- ===== src/Transactions/InputNotes.antt =====
-- The input notes of a transaction, and the check of an account seed
-- (objects/src/transaction/inputs.rs).
pub mod Accepted
use restartx.Common.{
  ℕ, ◌==◌, ltb, Bool, true, false, not, if◌then◌else◌, List, [], ◌∷◌, ◌++◌, length, map,
}
use restartx.Common.{Option, none, some, Result, ok, err, panic, ◌>>=◌, ◌>>◌, guard, map_err}
use restartx.Crypto.{Felt, Word, Digest, Crypto, elements, empty_word}
use restartx.Merkle.{Smt, SimpleSmt}
use restartx.Types.{AccountId, id_eq}
use restartx.Errors.{AccountError, TransactionInputError}
use restartx.Accounts.Id
use restartx.Accounts.Account
use restartx.Accounts.Account.{Account}
use restartx.Accounts.Storage
use restartx.Transactions.Unique.{check_unseen}

-- `MAX_INPUT_NOTES_PER_TX`
abbrev pub max_input_notes_per_tx : ℕ
max_input_notes_per_tx = 1023

-- `InputNotes<T>`
pub record InputNotes (T : Type 0) : Type 0 where
  pub notes : List T
  pub commitment : Digest

-- The elements that the loop over the notes appends.
unfoldable pub note_elements : {T : Type 0} → (T → Digest) → List T → List Felt
note_elements nullifier [] = []
note_elements nullifier (note ∷ notes) =
    elements (nullifier note) ++ (elements empty_word ++ note_elements nullifier notes)

module _ ⦃c : Crypto⦄ where
  unfoldable pub build_input_notes_commitment : {T : Type 0} → (T → Digest) → List T → Digest
  build_input_notes_commitment nullifier notes =
      if length notes == 0 then empty_word else c.hash_elements (note_elements nullifier notes)

  -- `InputNotes::new`, with `ToNullifier::nullifier` as an argument
  unfoldable pub new :
      {T : Type 0} → (T → Digest) → List T → Result TransactionInputError (InputNotes T)
  new nullifier notes = do
    guard (not (ltb max_input_notes_per_tx (length notes)))
        (TransactionInputError.too_many_input_notes max_input_notes_per_tx (length notes))
    check_unseen TransactionInputError.duplicate_input_note [] (map nullifier notes)
    ok (record { notes = notes; commitment = build_input_notes_commitment nullifier notes })

  -- `InputNotes<Nullifier>::from(InputNotes)`
  unfoldable pub nullifiers_of : {T : Type 0} → (T → Digest) → InputNotes T → InputNotes Digest
  nullifiers_of nullifier value = record {
    notes = map nullifier value.notes;
    commitment = build_input_notes_commitment nullifier value.notes;
  }

module _ ⦃c : Crypto⦄ ⦃m : Smt⦄ ⦃s : SimpleSmt⦄ where
  unfoldable pub validate_account_seed :
      Account → Option Word → Result TransactionInputError (Unit {0})
  validate_account_seed account (some seed) =
      if Account.is_new account
      then (do
        account_id ←
            map_err TransactionInputError.invalid_account_seed
              (Id.new seed account.code.code_root (Storage.root account.storage))
        guard (id_eq account_id account.id)
            (TransactionInputError.inconsistent_account_seed account.id account_id))
      else err TransactionInputError.account_seed_provided_for_existing_account
  validate_account_seed account none =
      if Account.is_new account
      then err TransactionInputError.account_seed_not_provided_for_new_account
      else ok tt
