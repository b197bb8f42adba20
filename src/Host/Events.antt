-- ===== src/Host/Events.antt =====
-- The events of the transaction kernel (miden-lib/src/transaction/events.rs) and the errors of
-- their handlers (miden-lib/src/transaction/errors.rs), without texts. An event ID is a `u32`.
use restartx.Common.{ℕ, ◌+◌, ◌*◌, ◌/◌, ◌^◌, ◌≡◌, ◌↔◌, arith, ◌==◌, if◌then◌else◌}
use restartx.Common.{List, Result, ok, err}
use restartx.Crypto.{Felt, Digest}
use restartx.Errors.{AccountError, AssetError, NoteError}
use restartx.Notes.Metadata.{NoteMetadata}
use restartx.Notes.NoteAssets.{NoteAssets}

pub data TransactionEvent : Type 0 where
  account_vault_add_asset : TransactionEvent
  account_vault_remove_asset : TransactionEvent
  account_storage_set_item : TransactionEvent
  account_increment_nonce : TransactionEvent
  account_push_procedure_index : TransactionEvent
  note_created : TransactionEvent

pub data TransactionEventParsingError : Type 0 where
  invalid_transaction_event : ℕ → TransactionEventParsingError
  not_transaction_event : ℕ → TransactionEventParsingError

pub data TransactionKernelError : Type 0 where
  invalid_storage_slot_index : ℕ → TransactionKernelError
  malformed_account_id : AccountError → TransactionKernelError
  malformed_asset : AssetError → TransactionKernelError
  malformed_asset_on_account_vault_update : AssetError → TransactionKernelError
  malformed_note_inputs : NoteError → TransactionKernelError
  malformed_note_metadata : NoteError → TransactionKernelError
  malformed_note_script : List Felt → TransactionKernelError
  malformed_note_type : NoteError → TransactionKernelError
  malformed_recipient_data : List Felt → TransactionKernelError
  malformed_tag : Felt → TransactionKernelError
  missing_note_details : NoteMetadata → NoteAssets → Digest → TransactionKernelError
  missing_storage_slot_value : ℕ → TransactionKernelError
  unknown_account_procedure : Digest → TransactionKernelError

-- The discriminants
abbrev pub event_code : TransactionEvent → ℕ
event_code TransactionEvent.account_vault_add_asset = 2 * 2 ^ 16
event_code TransactionEvent.account_vault_remove_asset = 2 * 2 ^ 16 + 1
event_code TransactionEvent.account_storage_set_item = 2 * 2 ^ 16 + 2
event_code TransactionEvent.account_increment_nonce = 2 * 2 ^ 16 + 3
event_code TransactionEvent.account_push_procedure_index = 2 * 2 ^ 16 + 4
event_code TransactionEvent.note_created = 2 * 2 ^ 16 + 5

abbrev pub event_id_prefix : ℕ
event_id_prefix = 2

-- The `match` on the event ID.
unfoldable pub event_of_code : ℕ → Result TransactionEventParsingError TransactionEvent
event_of_code value =
    if value == 131072
    then ok TransactionEvent.account_vault_add_asset
    else if value == 131073
    then ok TransactionEvent.account_vault_remove_asset
    else if value == 131074
    then ok TransactionEvent.account_storage_set_item
    else if value == 131075
    then ok TransactionEvent.account_increment_nonce
    else if value == 131076
    then ok TransactionEvent.account_push_procedure_index
    else if value == 131077
    then ok TransactionEvent.note_created
    else err (TransactionEventParsingError.invalid_transaction_event value)

-- `TransactionEvent::try_from(u32)`
unfoldable pub try_from_u32 : ℕ → Result TransactionEventParsingError TransactionEvent
try_from_u32 value =
    if value / 2 ^ 16 == event_id_prefix
    then event_of_code value
    else err (TransactionEventParsingError.not_transaction_event value)

-- An event ID is read as an event exactly if it is the event's code.
pub event_iff :
    (value : ℕ) (event : TransactionEvent)
    → (try_from_u32 value ≡ ok event) ↔ (value ≡ event_code event)
unfolding try_from_u32 event_of_code
event_iff value TransactionEvent.account_vault_add_asset = ground arith
event_iff value TransactionEvent.account_vault_remove_asset = ground arith
event_iff value TransactionEvent.account_storage_set_item = ground arith
event_iff value TransactionEvent.account_increment_nonce = ground arith
event_iff value TransactionEvent.account_push_procedure_index = ground arith
event_iff value TransactionEvent.note_created = ground arith
