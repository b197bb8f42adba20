-- ===== src/Tests/OnHost.antt =====
-- Examples on the transaction host.
use restartx.Common.{ℕ, ◌<◌, ◌≡◌, refl, arith, true, if◌then◌else◌, List, [], ◌∷◌, map}
use restartx.Common.{All, ◌%◌, none, some, ok, err, panic, inr, ◌==◌}
use restartx.Common.Bits.{count_ones}
use restartx.Common.Ints.{pos, negsuc, ◌+ℤ◌, sum}
use restartx.Common.Maps.{nat_key, find}
use restartx.Crypto.{Word, field_modulus, empty_word}
use restartx.Types.{id_key, Asset, NoteType}
use restartx.Accounts.Id
use restartx.Accounts.Account.{AccountStub}
use restartx.Accounts.Delta.{AccountVaultDelta}
use restartx.Accounts.Storage
use restartx.Accounts.Storage.{AccountStorage}
use restartx.Accounts.Storage.Apply.{after_writes}
use restartx.Accounts.Storage.Update.{IsWritable}
use restartx.Assets.Fungible
use restartx.Assets.Value
use restartx.Notes.Tag
use restartx.Notes.NoteAssets
use restartx.Notes.Commitments
use restartx.Host.Created
use restartx.Host.Created.Private.{envelope_or_panic, note_of-private}
use restartx.Host.Events
use restartx.Host.Events.{TransactionEvent, TransactionEventParsingError}
use restartx.Host.Procedures
use restartx.Host.Procedures.{Process, get_proc_index-new}
use restartx.Host.Tracker
use restartx.Host.Tracker.{AccountVaultDeltaTracker, AccountDeltaTracker}
use restartx.Host.Tracker.Net.{
  Update, adding, removing, replay, replay_lem, net, IsTracker, fungible_change,
  non_fungible_change,
}
use restartx.Host.Tracker.Slots.{tracked_slots, apply_delta-tracked_slots}
use restartx.Host.Tracker.Ends.{IsReady}
use restartx.Host.Tracker.Whole.{into_delta_lem, nonce_fits}
use restartx.Host.Handlers
use restartx.Host.Handlers.{TransactionHost, ExecutionError}
use restartx.Host.Handlers.Steps.{on_event-err}
use restartx.Host.Handlers.Effects.{nothing, writes, changes, increases, effect_of, IsInRange}
use restartx.Host.Handlers.Runs.{
  Step, raised, advised, run, effects, updates_of, last_write, total_increase, run_lem,
  nothing_tracked,
}
use restartx.Tests.{
  toy_crypto, toy_simple_smt, regular_id, coin_faucet, coins, art, fixed_digest, empty_storage,
}
use restartx.Tests.Interfaces.{toy_key, toy_assembler, toy_advice}

abbrev updates : List Update
updates =
    adding (Asset.fungible coins)
    ∷ adding (Asset.non_fungible art)
    ∷ removing (Asset.fungible coins)
    ∷ adding (Asset.fungible coins)
    ∷ []

nothing-IsTracker : IsTracker nothing_tracked
nothing-IsTracker = record { fungible_sorted = tt; non_fungible_sorted = tt }

replay_lem_example :
    IsTracker (replay nothing_tracked updates)
    × (net coin_faucet (replay nothing_tracked updates).fungible_assets
        ≡ net coin_faucet nothing_tracked.fungible_assets
          +ℤ sum (map (fungible_change coin_faucet) updates))
    × (net art.word (replay nothing_tracked updates).non_fungible_assets
        ≡ net art.word nothing_tracked.non_fungible_assets
          +ℤ sum (map (non_fungible_change art.word) updates))
replay_lem_example =
    replay_lem updates nothing_tracked coin_faucet art.word nothing-IsTracker (omega arith)
      (omega arith)

abbrev slot_writes : List (ℕ × Word)
slot_writes = (7, fixed_digest) ∷ (3, fixed_digest) ∷ (7, empty_word) ∷ []

abbrev FirstSlots : (i : ℕ) → Type 0
FirstSlots i = IsWritable empty_storage.layout i

seven : FirstSlots 7
seven = record { not_last = λ e. absurd (omega (arith, e)); value_type = refl }

three : FirstSlots 3
three = record { not_last = λ e. absurd (omega (arith, e)); value_type = refl }

apply_delta-tracked_slots_example :
    (after : AccountStorage) × (Storage.apply_delta empty_storage
        (Tracker.storage_delta_of (tracked_slots [] slot_writes))
      ≡ (ok tt, after))
    × (after.layout ≡ empty_storage.layout)
    × ((j : ℕ)
        → Storage.get_item after j ≡ after_writes (Storage.get_item empty_storage j) j slot_writes)
apply_delta-tracked_slots_example =
    apply_delta-tracked_slots empty_storage slot_writes
      (omega arith, (omega arith, (omega arith, tt))) (seven, (three, (seven, tt)))

abbrev stub : AccountStub
stub = record {
  id = regular_id;
  nonce = 4;
  vault_root = fixed_digest;
  storage_root = fixed_digest;
  code_root = fixed_digest;
}

-- A coin was added, a slot set, and the nonce increased.
abbrev some_changes : AccountDeltaTracker
some_changes = record {
  storage = record { slot_updates = (3, fixed_digest) ∷ [] };
  vault = record {
    fungible_assets = (coin_faucet, pos 100) ∷ [];
    non_fungible_assets = (art.word, negsuc 0) ∷ [];
  };
  init_nonce = 4;
  nonce_delta = 1;
}

some_changes-IsReady : IsReady some_changes.vault
unfolding Id.account_type
some_changes-IsReady = record {
  fungible_sorted = (tt, tt);
  non_fungible_sorted = (tt, tt);
  fungible_entries = ((refl, omega arith), tt);
  non_fungible_entries = (inr refl, tt);
  few = omega arith;
}

into_delta_lem_example :
    (vault : AccountVaultDelta) × (Tracker.vault_delta_of some_changes.vault ≡ ok vault)
    × (Tracker.into_delta some_changes ≡ (
        if nonce_fits some_changes
        then ok (record {
          storage = Tracker.storage_delta_of some_changes.storage.slot_updates;
          vault = vault;
          nonce = Tracker.nonce_of some_changes;
        })
        else panic))
into_delta_lem_example = into_delta_lem some_changes some_changes-IsReady (tt, tt) (omega arith, tt)

abbrev host : TransactionHost
host = Handlers.new stub []

-- The word of the coins is on the stack.
abbrev process : Process
process = record {
  get_stack_item = λ i.
      if i == 1
      then 3
      else if i == 2
      then 31
      else if i == 8
      then 100
      else if i == 5
      then coin_faucet.felt
      else 0;
  get_stack_word = λ i. record { e0 = 100; e1 = 0; e2 = 0; e3 = coin_faucet.felt };
  get_mem_value = λ i. some empty_word;
  is_root_context = true;
}

-- Coins are added, a word is written to slot 7, the nonce is increased by 1 twice, an ID that is no
-- event is raised, and the coins are removed.
abbrev writes_seven : Process
writes_seven = record {
  get_stack_item = λ i. if i == 0 then 7 else if i == 1 then 5 else 0;
  get_stack_word = λ i. empty_word;
  get_mem_value = λ i. some empty_word;
  is_root_context = true;
}

abbrev adds_one : Process
adds_one = record {
  get_stack_item = λ i. 1;
  get_stack_word = λ i. empty_word;
  get_mem_value = λ i. none;
  is_root_context = true;
}

abbrev steps : List Step
steps =
    raised process 131072
    ∷ raised writes_seven 131074
    ∷ raised adds_one 131075
    ∷ advised (9 ∷ [])
    ∷ raised adds_one 131075
    ∷ raised adds_one 5
    ∷ raised process 131073
    ∷ []

abbrev five_last : Word
five_last = record { e0 = 0; e1 = 0; e2 = 0; e3 = 5 }

effects-steps :
    effects host steps
    ≡ changes (adding (Asset.fungible coins))
      ∷ writes 7 five_last
      ∷ increases 1
      ∷ nothing
      ∷ increases 1
      ∷ nothing
      ∷ changes (removing (Asset.fungible coins))
      ∷ []
unfolding effect_of Value.try_from_word Value.is_not_a_non_fungible_asset Fungible.try_from_word
    Fungible.new Fungible.validate Id.account_type Id.try_from_felt count_ones
effects-steps = refl

run_lem_example :
    let es = effects host steps in
    ((run host steps).account_delta.vault ≡ replay nothing_tracked (updates_of es))
    × ((j : ℕ) → find j (run host steps).account_delta.storage.slot_updates ≡ last_write j none es)
    × ((run host steps).account_delta.init_nonce ≡ 4)
    × ((run host steps).account_delta.nonce_delta ≡ total_increase es % field_modulus)
    × All IsInRange es
run_lem_example = run_lem stub [] steps

refused :
    (Handlers.on_event host process 5).0
    ≡ err (ExecutionError.not_an_event (TransactionEventParsingError.not_transaction_event 5))
unfolding Handlers.on_event Handlers.event_in Events.try_from_u32
refused = refl

on_event-err_example : (Handlers.on_event host process 5).1 ≡ host
on_event-err_example =
    on_event-err host process 5
      (ExecutionError.not_an_event (TransactionEventParsingError.not_transaction_event 5)) refused

abbrev calls_first : Process
calls_first = record {
  get_stack_item = λ i. 0;
  get_stack_word = λ i. fixed_digest;
  get_mem_value = λ i. none;
  is_root_context = true;
}

first_proc : Procedures.get_proc_index (Procedures.new fixed_digest []) calls_first ≡ ok 0
unfolding Procedures.get_proc_index Procedures.new Procedures.collect
first_proc = refl

get_proc_index-new_example :
    (0 < 256) × (toy_advice.get_store_node [] fixed_digest 0 ≡ some fixed_digest)
get_proc_index-new_example = get_proc_index-new fixed_digest [] calls_first 0 first_proc

-- An encrypted note on the stack: its type is 3, its sender is a regular account, its tag is 0.
note_of-private_example :
    Created.note_of [] process
    ≡ envelope_or_panic NoteType.encrypted
        (Commitments.note_id
          (Created.stack_word process 12 11 10 9)
          (NoteAssets.compute_asset_commitment (Asset.fungible coins ∷ [])))
        (record {
          sender = regular_id;
          note_type = NoteType.encrypted;
          tag = record { inner = 0 };
          aux = 0;
        })
unfolding Tag.note_type_of_u64 Tag.note_type_of_u8 Id.try_from_felt count_ones Tag.validate
    Value.try_from_word Value.is_not_a_non_fungible_asset Fungible.try_from_word Fungible.new
    Fungible.validate Id.account_type
note_of-private_example =
    note_of-private [] process NoteType.encrypted regular_id (Asset.fungible coins) refl refl refl
      (omega arith) refl refl
