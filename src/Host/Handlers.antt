-- ===== src/Host/Handlers.antt =====
-- The transaction host (miden-tx/src/host/mod.rs). A handler on `&mut self` returns its result and
-- the host that it leaves, also where it fails; what an `ExecutionError` says stands in its place.
pub mod Steps
pub mod Effects
pub mod Runs
use restartx.Common.{ℕ, ◌+◌, ◌%◌, ◌^◌, ltb, leb, not, ◌==◌, Bool, true, false, if◌then◌else◌}
use restartx.Common.{List, [], ◌∷◌, ◌++◌, length, Option, none, some}
use restartx.Common.{Result, ok, err, panic, ◌>>=◌, ◌>>◌, guard, expect, map_err, unwrap, ok_or}
use restartx.Common.Maps.{MapKey}
use restartx.Crypto.{Felt, Word, Digest, Crypto, word_eq}
use restartx.Types.{AccountId, Asset, NoteType}
use restartx.Accounts.Account.{AccountStub}
use restartx.Accounts.Delta.{AccountDelta}
use restartx.Assets.Value
use restartx.Notes.Script.{Assembler}
use restartx.Transactions.OutputNotes.{OutputNote}
use restartx.Host.Created.{stack_word, note_of}
use restartx.Host.Events
use restartx.Host.Events.{TransactionEvent, TransactionKernelError, TransactionEventParsingError}
use restartx.Host.Procedures
use restartx.Host.Procedures.{AdviceProvider, Process, AccountProcedureIndexMap}
use restartx.Host.Tracker
use restartx.Host.Tracker.{AccountDeltaTracker, AccountVaultDeltaTracker}

pub data ExecutionError : Type 0 where
  not_an_event : TransactionEventParsingError → ExecutionError
  not_root_context : TransactionEvent → ExecutionError
  kernel_error : TransactionKernelError → ExecutionError

abbrev pub storage_tree_depth : Felt
storage_tree_depth = 8

abbrev pub acct_storage_root_ptr : ℕ
acct_storage_root_ptr = 400 + 2

abbrev pub num_storage_slots : ℕ
num_storage_slots = 256

-- A tracker after one of its parts was updated.
abbrev pub slot_tracked : AccountDeltaTracker → ℕ → Word → AccountDeltaTracker
slot_tracked t index value = record {
  storage = Tracker.slot_update t.storage index value;
  vault = t.vault;
  init_nonce = t.init_nonce;
  nonce_delta = t.nonce_delta;
}

abbrev pub with_vault : AccountDeltaTracker → AccountVaultDeltaTracker → AccountDeltaTracker
with_vault t vault = record {
  storage = t.storage;
  vault = vault;
  init_nonce = t.init_nonce;
  nonce_delta = t.nonce_delta;
}

abbrev pub asset_added : ⦃d : MapKey Digest⦄ → AccountDeltaTracker → Asset → AccountDeltaTracker
asset_added t asset = with_vault t (Tracker.add_asset t.vault asset)

abbrev pub asset_removed : ⦃d : MapKey Digest⦄ → AccountDeltaTracker → Asset → AccountDeltaTracker
asset_removed t asset = with_vault t (Tracker.remove_asset t.vault asset)

module _ ⦃c : Crypto⦄ ⦃d : MapKey Digest⦄ ⦃s : Assembler⦄ ⦃a : AdviceProvider⦄ where
  pub record TransactionHost : Type 0 where
    pub adv_provider : a.Provider
    pub account_delta : AccountDeltaTracker
    pub acct_procedure_index_map : AccountProcedureIndexMap
    pub output_notes : List OutputNote

  unfoldable pub new : AccountStub → a.Provider → TransactionHost
  new account adv_provider = record {
    adv_provider = adv_provider;
    account_delta = Tracker.new account;
    acct_procedure_index_map = Procedures.new account.code_root adv_provider;
    output_notes = [];
  }

  unfoldable pub into_parts :
      TransactionHost → Result ⊥ (a.Provider × AccountDelta × List OutputNote)
  into_parts host = do
    delta ← Tracker.into_delta host.account_delta
    ok (host.adv_provider, delta, host.output_notes)

  abbrev pub with_delta : TransactionHost → AccountDeltaTracker → TransactionHost
  with_delta host delta = record {
    adv_provider = host.adv_provider;
    account_delta = delta;
    acct_procedure_index_map = host.acct_procedure_index_map;
    output_notes = host.output_notes;
  }

  -- What the VM does to the advice provider.
  abbrev pub with_provider : TransactionHost → a.Provider → TransactionHost
  with_provider host adv = record {
    adv_provider = adv;
    account_delta = host.account_delta;
    acct_procedure_index_map = host.acct_procedure_index_map;
    output_notes = host.output_notes;
  }

  abbrev pub pushing :
      TransactionHost
      → Result TransactionKernelError OutputNote
      → Result TransactionKernelError (Unit {0}) × TransactionHost
  pushing host (ok note) = (
    ok tt,
    record {
      adv_provider = host.adv_provider;
      account_delta = host.account_delta;
      acct_procedure_index_map = host.acct_procedure_index_map;
      output_notes = host.output_notes ++ (note ∷ []);
    },
  )
  pushing host (err e) = (err e, host)
  pushing host panic = (panic, host)

  unfoldable pub on_note_created :
      TransactionHost → Process → Result TransactionKernelError (Unit {0}) × TransactionHost
  on_note_created host process = pushing host (note_of host.adv_provider process)

  -- The advice provider with the index of the procedure on its stack.
  unfoldable pub provider_with_index :
      TransactionHost → Process → Result TransactionKernelError a.Provider
  provider_with_index host process = do
    proc_idx ← Procedures.get_proc_index host.acct_procedure_index_map process
    expect (a.push_stack host.adv_provider (c.felt_new proc_idx))

  abbrev pub providing :
      TransactionHost
      → Result TransactionKernelError a.Provider
      → Result TransactionKernelError (Unit {0}) × TransactionHost
  providing host (ok adv) = (ok tt, with_provider host adv)
  providing host (err e) = (err e, host)
  providing host panic = (panic, host)

  unfoldable pub on_account_push_procedure_index :
      TransactionHost → Process → Result TransactionKernelError (Unit {0}) × TransactionHost
  on_account_push_procedure_index host process = providing host (provider_with_index host process)

  unfoldable pub on_account_increment_nonce :
      TransactionHost → Process → Result TransactionKernelError (Unit {0}) × TransactionHost
  on_account_increment_nonce host process = (
    ok tt,
    with_delta host (Tracker.increment_nonce host.account_delta (process.get_stack_item 0)),
  )

  -- The value that the tree has for the slot on the stack.
  unfoldable pub current_slot_value : TransactionHost → Process → Result TransactionKernelError Word
  current_slot_value host process = do
    storage_root ← expect (process.get_mem_value acct_storage_root_ptr)
    let slot_index = process.get_stack_item 0
    guard (ltb slot_index num_storage_slots)
        (TransactionKernelError.invalid_storage_slot_index slot_index)
    ok_or (a.get_tree_node host.adv_provider storage_root storage_tree_depth slot_index)
        (TransactionKernelError.missing_storage_slot_value (slot_index % 2 ^ 8))

  -- The slot's new value is tracked if it is another one than the tree has.
  unfoldable pub delta_with_slot :
      TransactionHost → Process → Result TransactionKernelError AccountDeltaTracker
  delta_with_slot host process = do
    let new_slot_value = stack_word process 4 3 2 1
    current ← current_slot_value host process
    ok (
        if word_eq current new_slot_value
        then host.account_delta
        else slot_tracked host.account_delta (process.get_stack_item 0 % 2 ^ 8) new_slot_value)

  abbrev pub tracking :
      TransactionHost
      → Result TransactionKernelError AccountDeltaTracker
      → Result TransactionKernelError (Unit {0}) × TransactionHost
  tracking host (ok delta) = (ok tt, with_delta host delta)
  tracking host (err e) = (err e, host)
  tracking host panic = (panic, host)

  unfoldable pub on_account_storage_set_item :
      TransactionHost → Process → Result TransactionKernelError (Unit {0}) × TransactionHost
  on_account_storage_set_item host process = tracking host (delta_with_slot host process)

  -- The asset that is on the stack.
  abbrev pub stack_asset : Process → Result TransactionKernelError Asset
  stack_asset process =
      map_err TransactionKernelError.malformed_asset_on_account_vault_update
        (Value.try_from_word (process.get_stack_word 0))

  unfoldable pub on_account_vault_add_asset :
      TransactionHost → Process → Result TransactionKernelError (Unit {0}) × TransactionHost
  on_account_vault_add_asset host process =
      tracking host (do asset ← stack_asset process; ok (asset_added host.account_delta asset))

  unfoldable pub on_account_vault_remove_asset :
      TransactionHost → Process → Result TransactionKernelError (Unit {0}) × TransactionHost
  on_account_vault_remove_asset host process =
      tracking host (do asset ← stack_asset process; ok (asset_removed host.account_delta asset))

  -- The `match` on the event.
  unfoldable pub handle :
      TransactionEvent
      → TransactionHost
      → Process
      → Result TransactionKernelError (Unit {0}) × TransactionHost
  handle TransactionEvent.account_vault_add_asset = on_account_vault_add_asset
  handle TransactionEvent.account_vault_remove_asset = on_account_vault_remove_asset
  handle TransactionEvent.account_storage_set_item = on_account_storage_set_item
  handle TransactionEvent.account_increment_nonce = on_account_increment_nonce
  handle TransactionEvent.account_push_procedure_index = on_account_push_procedure_index
  handle TransactionEvent.note_created = on_note_created

  -- The event of an ID, in a process in the root context.
  unfoldable pub event_in : Process → ℕ → Result ExecutionError TransactionEvent
  event_in process event_id = do
    event ← map_err ExecutionError.not_an_event (Events.try_from_u32 event_id)
    guard process.is_root_context (ExecutionError.not_root_context event)
    ok event

  abbrev pub dispatch :
      TransactionHost
      → Process
      → Result ExecutionError TransactionEvent
      → Result ExecutionError (Unit {0}) × TransactionHost
  dispatch host process (ok event) =
      let (result, after) = handle event host process in
      (map_err ExecutionError.kernel_error result, after)
  dispatch host process (err e) = (err e, host)
  dispatch host process panic = (panic, host)

  unfoldable pub on_event :
      TransactionHost → Process → ℕ → Result ExecutionError (Unit {0}) × TransactionHost
  on_event host process event_id = dispatch host process (event_in process event_id)
