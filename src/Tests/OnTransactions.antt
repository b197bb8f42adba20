-- ===== src/Tests/OnTransactions.antt =====
-- Examples on transactions.
use restartx.Common.{ℕ, ◌≡◌, ◌≢◌, ◌↔◌, ◌⊎◌, refl, Bool, List, [], ◌∷◌}
use restartx.Common.{Option, none, some, ok}
use restartx.Crypto.{Word, Digest, empty_word}
use restartx.Types.{NoteType}
use restartx.Errors.{ProvenTransactionError}
use restartx.Accounts.Id
use restartx.Accounts.Storage
use restartx.Accounts.Account
use restartx.Accounts.Account.{Account}
use restartx.Transactions.Unique.{check_unseen}
use restartx.Transactions.InputNotes
use restartx.Transactions.InputNotes.{InputNotes}
use restartx.Transactions.InputNotes.Accepted.{validate_account_seed_iff}
use restartx.Transactions.OutputNotes
use restartx.Transactions.OutputNotes.{OutputNote, OutputNotes}
use restartx.Transactions.Proven
use restartx.Transactions.Proven.{AccountDetails, ProvenTransaction, ProvenTransactionBuilder}
use restartx.Transactions.Proven.Details.{AreDetails, build_details}
use restartx.Tests.{toy_crypto, toy_smt, toy_simple_smt, fixed_digest, regular_id}
use restartx.Tests.{empty_vault, empty_storage}

abbrev spent : List Digest
spent = empty_word ∷ fixed_digest ∷ []

abbrev inputs : InputNotes Digest
inputs = record { notes = spent; commitment = fixed_digest }

inputs_run : InputNotes.new (λ x. x) spent ≡ ok inputs
unfolding InputNotes.new InputNotes.build_input_notes_commitment check_unseen
inputs_run = refl

abbrev newborn : Account
newborn = record {
  id = regular_id;
  vault = empty_vault;
  storage = empty_storage;
  code = record { code_root = empty_word };
  nonce = 0;
}

validate_account_seed_iff_example :
    (InputNotes.validate_account_seed newborn (some empty_word) ≡ ok tt) ↔ (
      ((newborn.nonce ≢ 0) × (◌≡◌ {A = Option Word} (some empty_word) none))
      ⊎ ((newborn.nonce ≡ 0)
          × ((w : Word) × (◌≡◌ {A = Option Word} (some empty_word) (some w))
              × (Id.new w newborn.code.code_root (Storage.root newborn.storage) ≡ ok newborn.id))))
validate_account_seed_iff_example = validate_account_seed_iff newborn (some empty_word)

abbrev created : List OutputNote
created =
    OutputNote.private_note (record {
      note_id = fixed_digest;
      note_metadata = record {
        sender = regular_id;
        note_type = NoteType.off_chain;
        tag = record { inner = 0 };
        aux = 0;
      };
    })
    ∷ []

abbrev outputs : OutputNotes
outputs = record { notes = created; commitment = fixed_digest }

abbrev builder : ProvenTransactionBuilder ℕ
builder = record {
  account_id = regular_id;
  initial_account_hash = empty_word;
  final_account_hash = fixed_digest;
  account_details = some (AccountDetails.full newborn);
  input_notes = spent;
  output_notes = created;
  tx_script_root = none;
  block_ref = empty_word;
  proof = 0;
}

abbrev proven : ProvenTransaction ℕ
proven = record {
  id = fixed_digest;
  account_id = regular_id;
  initial_account_hash = empty_word;
  final_account_hash = fixed_digest;
  account_details = some (AccountDetails.full newborn);
  input_notes = inputs;
  output_notes = outputs;
  tx_script_root = none;
  block_ref = empty_word;
  proof = 0;
}

build_runs : Proven.build builder ≡ ok proven
unfolding Proven.build Proven.transaction_of Proven.transaction_id Proven.validate
    Proven.check_details Proven.validate_details InputNotes.new
    InputNotes.build_input_notes_commitment check_unseen OutputNotes.new OutputNotes.id
    OutputNotes.build_output_notes_commitment Id.is_on_chain Id.storage_type Account.hash
    Account.hash_account
build_runs = refl

build_details_example :
    (proven.account_id ≡ builder.account_id)
    × (proven.initial_account_hash ≡ builder.initial_account_hash)
    × (proven.final_account_hash ≡ builder.final_account_hash)
    × ((on_chain : Bool) × (Id.is_on_chain {E = ProvenTransactionError} proven.account_id
          ≡ ok on_chain)
        × AreDetails on_chain proven.account_id proven.initial_account_hash
            proven.final_account_hash proven.account_details)
build_details_example = build_details builder proven build_runs
