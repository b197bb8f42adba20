-- ===== src/Errors.antt =====
-- The error types of objects/src/errors.rs. Texts, and the values of foreign types that a
-- constructor carries (assembler and Merkle tree errors), are left out.
use restartx.Common.{ℕ, List}
use restartx.Crypto.{Word, Digest}
use restartx.Types.{AccountId, AccountType, StorageSlotType, FungibleAsset, NonFungibleAsset}
use restartx.Types.{Asset, NoteType}

pub data AssetError : Type 0 where
  amount_too_big : ℕ → AssetError
  asset_amount_not_sufficient : ℕ → ℕ → AssetError
  fungible_asset_invalid_tag : ℕ → AssetError
  fungible_asset_invalid_word : Word → AssetError
  inconsistent_faucet_ids : AccountId → AccountId → AssetError
  invalid_account_id : AssetError
  invalid_field_element : AssetError
  non_fungible_asset_invalid_tag : ℕ → AssetError
  not_a_fungible_faucet_id : AccountId → AccountType → AssetError
  not_a_non_fungible_faucet_id : AccountId → AssetError
  not_an_asset : Word → AssetError
  token_symbol_error : AssetError

pub data AssetVaultError : Type 0 where
  add_fungible_asset_balance_error : AssetError → AssetVaultError
  duplicate_asset : AssetVaultError
  duplicate_non_fungible_asset : NonFungibleAsset → AssetVaultError
  fungible_asset_not_found : FungibleAsset → AssetVaultError
  not_a_non_fungible_asset : Asset → AssetVaultError
  not_a_fungible_faucet_id : AccountId → AssetVaultError
  non_fungible_asset_not_found : NonFungibleAsset → AssetVaultError
  subtract_fungible_asset_balance_error : AssetError → AssetVaultError

pub data AccountError : Type 0 where
  account_code_assembler_error : AccountError
  account_code_no_procedures : AccountError
  account_code_too_many_procedures : ℕ → ℕ → AccountError
  account_id_invalid_field_element : AccountError
  account_id_too_few_ones : ℕ → ℕ → AccountError
  asset_vault_update_error : AssetVaultError → AccountError
  duplicate_storage_items : AccountError
  fungible_faucet_id_invalid_first_bit : AccountError
  fungible_faucet_invalid_metadata : AccountError
  hex_parse_error : AccountError
  invalid_account_storage_type : AccountError
  -- the current and the new nonce
  nonce_not_monotonically_increasing : ℕ → ℕ → AccountError
  -- the expected and the actual count
  seed_digest_too_few_trailing_zeros : ℕ → ℕ → AccountError
  -- the slot, the expected and the actual arity
  storage_slot_invalid_value_arity : ℕ → ℕ → ℕ → AccountError
  storage_slot_is_reserved : ℕ → AccountError
  storage_slot_not_value_slot : ℕ → StorageSlotType → AccountError
  stub_data_incorrect_length : ℕ → ℕ → AccountError

pub data AccountDeltaError : Type 0 where
  duplicate_storage_item_update : ℕ → AccountDeltaError
  duplicate_vault_update : Asset → AccountDeltaError
  inconsistent_nonce_update : AccountDeltaError
  immutable_storage_slot : ℕ → AccountDeltaError
  -- the actual count and the limit, as in the three below
  too_many_added_asset : ℕ → ℕ → AccountDeltaError
  too_many_cleared_storage_items : ℕ → ℕ → AccountDeltaError
  too_many_removed_assets : ℕ → ℕ → AccountDeltaError
  too_many_updated_storage_items : ℕ → ℕ → AccountDeltaError

pub data NoteError : Type 0 where
  duplicate_fungible_asset : AccountId → NoteError
  duplicate_non_fungible_asset : NonFungibleAsset → NoteError
  empty_asset_list : NoteError
  inconsistent_note_tag : NoteType → ℕ → NoteError
  inconsistent_stub_asset_hash : Digest → Digest → NoteError
  inconsistent_stub_id : Digest → Digest → NoteError
  invalid_asset_data : AssetError → NoteError
  invalid_origin_index : NoteError
  invalid_stub_data_len : ℕ → NoteError
  invalid_note_sender : AccountError → NoteError
  invalid_note_type : NoteType → NoteError
  invalid_note_type_value : ℕ → NoteError
  network_execution_requires_on_chain_account : NoteError
  note_deserialization_error : NoteError
  script_compilation_error : NoteError
  too_many_assets : ℕ → NoteError
  too_many_inputs : ℕ → NoteError

pub data TransactionInputError : Type 0 where
  account_seed_not_provided_for_new_account : TransactionInputError
  account_seed_provided_for_existing_account : TransactionInputError
  duplicate_input_note : Digest → TransactionInputError
  -- the expected and the actual value, as in the two below
  inconsistent_account_seed : AccountId → AccountId → TransactionInputError
  inconsistent_chain_length : ℕ → ℕ → TransactionInputError
  inconsistent_chain_root : Digest → Digest → TransactionInputError
  input_note_block_not_in_chain_mmr : Digest → TransactionInputError
  input_note_not_in_block : Digest → ℕ → TransactionInputError
  invalid_account_seed : AccountError → TransactionInputError
  -- the limit and the actual count
  too_many_input_notes : ℕ → ℕ → TransactionInputError

pub data TransactionOutputError : Type 0 where
  duplicate_output_note : Digest → TransactionOutputError
  final_account_data_not_found : TransactionOutputError
  final_account_stub_data_invalid : AccountError → TransactionOutputError
  output_note_data_not_found : TransactionOutputError
  output_note_data_invalid : NoteError → TransactionOutputError
  output_notes_commitment_inconsistent : Digest → Digest → TransactionOutputError
  -- the limit and the actual count
  too_many_output_notes : ℕ → ℕ → TransactionOutputError

pub data ProvenTransactionError : Type 0 where
  account_final_hash_mismatch : Digest → Digest → ProvenTransactionError
  account_id_mismatch : AccountId → AccountId → ProvenTransactionError
  input_notes_error : TransactionInputError → ProvenTransactionError
  note_details_for_unknown_notes : List Digest → ProvenTransactionError
  off_chain_account_with_details : AccountId → ProvenTransactionError
  on_chain_account_missing_details : AccountId → ProvenTransactionError
  new_on_chain_account_requires_full_details : AccountId → ProvenTransactionError
  existing_on_chain_account_requires_delta_details : AccountId → ProvenTransactionError
  output_notes_error : TransactionOutputError → ProvenTransactionError

pub data ChainMmrError : Type 0 where
  -- the chain length and the block number
  block_num_too_big : ℕ → ℕ → ChainMmrError
  duplicate_block : ℕ → ChainMmrError
  untracked_block : ℕ → ChainMmrError
