-- ===== src/Kernel/Outputs.antt =====
-- The outputs of a transaction as the kernel leaves them: the stack, and the final account in the
-- advice map (miden-lib/src/transaction/mod.rs, outputs.rs, memory.rs).
pub mod Parsed
use restartx.Common.{
  ℕ, ◌==◌, not, List, [], ◌∷◌, ◌++◌, length, get_elem?, reverse, Option, none, some,
}
use restartx.Common.{Result, ok, err, ◌>>=◌, ◌>>◌, guard, expect, ok_or, map_err}
use restartx.Crypto.{Felt, Word, Digest, Crypto, elements, empty_word, word_eq}
use restartx.Errors.{AccountError, TransactionOutputError}
use restartx.Accounts.Id
use restartx.Accounts.Account.{AccountStub}
use restartx.Transactions.OutputNotes
use restartx.Transactions.OutputNotes.{OutputNote, OutputNotes}
use restartx.Kernel.{Vm}

-- `ACCT_DATA_MEM_SIZE` and the offsets of the words of an account. `ACCT_ID_IDX` is the element
-- `e0` of the first of them, and `ACCT_NONCE_IDX` its element `e3`.
abbrev pub acct_data_mem_size : ℕ
acct_data_mem_size = 4

abbrev pub acct_id_and_nonce_offset : ℕ
acct_id_and_nonce_offset = 0

abbrev pub acct_vault_root_offset : ℕ
acct_vault_root_offset = 1

abbrev pub acct_storage_root_offset : ℕ
acct_storage_root_offset = 2

abbrev pub acct_code_root_offset : ℕ
acct_code_root_offset = 3

unfoldable pub parse_final_account_stub : List Word → Result AccountError AccountStub
parse_final_account_stub words = do
  guard (length words == acct_data_mem_size)
      (AccountError.stub_data_incorrect_length (length words) acct_data_mem_size)
  id_and_nonce ← expect (get_elem? words acct_id_and_nonce_offset)
  id ← Id.try_from_felt id_and_nonce.e0
  vault_root ← expect (get_elem? words acct_vault_root_offset)
  storage_root ← expect (get_elem? words acct_storage_root_offset)
  code_root ← expect (get_elem? words acct_code_root_offset)
  ok (record {
    id = id;
    nonce = id_and_nonce.e3;
    vault_root = vault_root;
    storage_root = storage_root;
    code_root = code_root;
  })

pub record TransactionOutputs : Type 0 where
  pub account : AccountStub
  pub output_notes : OutputNotes

-- `unwrap_or_default` on a digest
abbrev pub or_default : Option Digest → Digest
or_default none = empty_word
or_default (some d) = d

module _ ⦃v : Vm⦄ where
  unfoldable pub build_output_stack {ℓ} :
      {E : Type ℓ} → Digest → Digest → Option Digest → Result E v.StackOutputs
  build_output_stack final_acct_hash output_notes_hash tx_script_root = expect (
      v.new_stack
        (reverse (
          elements final_acct_hash
          ++ (elements output_notes_hash ++ elements (or_default tx_script_root))))
        [])

  unfoldable pub parse_output_stack {ℓ} :
      {E : Type ℓ} → v.StackOutputs → Result E (Digest × Digest × Digest)
  parse_output_stack stack = do
    tx_script_root ← expect (v.get_stack_word stack 0)
    output_notes_hash ← expect (v.get_stack_word stack 4)
    final_account_hash ← expect (v.get_stack_word stack 8)
    ok (final_account_hash, output_notes_hash, tx_script_root)

  -- The final account under its hash.
  unfoldable pub account_at : Digest → v.AdviceMap → Result TransactionOutputError AccountStub
  account_at final_acct_hash adv_map = do
    data_elements ←
        ok_or (v.get adv_map final_acct_hash) TransactionOutputError.final_account_data_not_found
    final_account_data ← expect (v.group_slice_elements data_elements)
    map_err TransactionOutputError.final_account_stub_data_invalid
        (parse_final_account_stub final_account_data)

module _ ⦃c : Crypto⦄ where
  -- The validation of the output notes.
  unfoldable pub checked_notes :
      Digest → List OutputNote → Result TransactionOutputError OutputNotes
  checked_notes output_notes_hash output_notes = do
    notes ← OutputNotes.new output_notes
    guard (word_eq output_notes_hash notes.commitment) (
        TransactionOutputError.output_notes_commitment_inconsistent output_notes_hash
          notes.commitment)
    ok notes

module _ ⦃c : Crypto⦄ ⦃v : Vm⦄ where
  unfoldable pub from_transaction_parts :
      v.StackOutputs
      → v.AdviceMap
      → List OutputNote
      → Result TransactionOutputError TransactionOutputs
  from_transaction_parts stack adv_map output_notes = do
    (final_acct_hash, output_notes_hash, tx_script_root) ← parse_output_stack stack
    account ← account_at final_acct_hash adv_map
    notes ← checked_notes output_notes_hash output_notes
    ok (record { account = account; output_notes = notes })
