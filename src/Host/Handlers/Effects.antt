-- ===== src/Host/Handlers/Effects.antt =====
-- What an event means for the account, by its ID and what the VM has on its stack and in its memory,
-- and that the handlers (miden-tx/src/host/mod.rs) track just that.
use restartx.Common.{ℕ, ◌<◌, ◌≡◌, refl, sym, ap, ◌∙◌, arith, ◌==◌, ltb}
use restartx.Common.{if◌then◌else◌, Option, none, some}
use restartx.Common.{Result, ok, err, panic, map_err, ◌>>=◌}
use restartx.Common.Maps.{MapKey}
use restartx.Crypto.{Felt, Word, Digest, Crypto, word_eq}
use restartx.Types.{Asset}
use restartx.Errors.{AssetError}
use restartx.Assets.Value
use restartx.Notes.Script.{Assembler}
use restartx.Transactions.OutputNotes.{OutputNote}
use restartx.Host.Created.{note_of}
use restartx.Host.Events
use restartx.Host.Events.{TransactionEvent, TransactionKernelError}
use restartx.Host.Procedures.{AdviceProvider, Process}
use restartx.Host.Tracker
use restartx.Host.Tracker.{AccountDeltaTracker}
use restartx.Host.Tracker.Net.{Update, adding, removing, tracked}
use restartx.Host.Handlers
use restartx.Host.Handlers.{TransactionHost, ExecutionError}

pub data Effect : Type 0 where
  nothing : Effect
  writes : ℕ → Word → Effect
  changes : Update → Effect
  increases : Felt → Effect

-- An asset, if the word on the stack is one.
abbrev asset_effect : (Asset → Update) → Result AssetError Asset → Effect
asset_effect f (ok a) = changes (f a)
asset_effect f (err e) = nothing
asset_effect f panic = nothing

-- A write of a slot, if the storage tree has another value for it.
abbrev slot_effect : ℕ → Word → Option Word → Effect
slot_effect index value none = nothing
slot_effect index value (some current) =
    if word_eq current value then nothing else writes index value

module _ ⦃a : AdviceProvider⦄ where
  -- The storage root lies at 402 in memory, the tree has depth 8.
  abbrev storage_effect : a.Provider → Process → Effect
  storage_effect adv process =
      let index = process.get_stack_item 0 in
      let value : Word = record {
        e0 = process.get_stack_item 4;
        e1 = process.get_stack_item 3;
        e2 = process.get_stack_item 2;
        e3 = process.get_stack_item 1;
      } in
      elim (process.get_mem_value 402) [
        | none ↦ nothing
        | some root ↦
            if ltb index 256
            then slot_effect index value (a.get_tree_node adv root 8 index)
            else nothing
      ]

  -- What an event in the root context means. Any other event means nothing for the account.
  unfoldable pub effect_of : a.Provider → Process → ℕ → Effect
  effect_of adv process event_id =
      if process.is_root_context
      then (if event_id == 131072
          then asset_effect adding (Value.try_from_word (process.get_stack_word 0))
          else if event_id == 131073
          then asset_effect removing (Value.try_from_word (process.get_stack_word 0))
          else if event_id == 131074
          then storage_effect adv process
          else if event_id == 131075
          then increases (process.get_stack_item 0)
          else nothing)
      else nothing

  -- The same for an event that has been read.
  abbrev event_effect : a.Provider → Process → TransactionEvent → Effect
  event_effect adv process TransactionEvent.account_vault_add_asset =
      asset_effect adding (Value.try_from_word (process.get_stack_word 0))
  event_effect adv process TransactionEvent.account_vault_remove_asset =
      asset_effect removing (Value.try_from_word (process.get_stack_word 0))
  event_effect adv process TransactionEvent.account_storage_set_item = storage_effect adv process
  event_effect adv process TransactionEvent.account_increment_nonce =
      increases (process.get_stack_item 0)
  event_effect adv process TransactionEvent.account_push_procedure_index = nothing
  event_effect adv process TransactionEvent.note_created = nothing

  abbrev read_effect : a.Provider → Process → Result ExecutionError TransactionEvent → Effect
  read_effect adv process (ok event) = event_effect adv process event
  read_effect adv process (err e) = nothing
  read_effect adv process panic = nothing

-- A written slot is one of the 256.
abbrev pub IsInRange : Effect → Type 0
IsInRange (writes i v) = i < 256
IsInRange _ = Unit

module _ ⦃c : Crypto⦄ ⦃d : MapKey Digest⦄ where
  -- What an effect makes of the tracked delta.
  abbrev pub apply_effect : AccountDeltaTracker → Effect → AccountDeltaTracker
  apply_effect t nothing = t
  apply_effect t (writes i v) = Handlers.slot_tracked t i v
  apply_effect t (changes u) = Handlers.with_vault t (tracked t.vault u)
  apply_effect t (increases v) = Tracker.increment_nonce t v

module _ ⦃c : Crypto⦄ ⦃d : MapKey Digest⦄ ⦃s : Assembler⦄ ⦃a : AdviceProvider⦄ where
  read_effect-event_in :
      (adv : a.Provider) (process : Process) (event_id : ℕ)
      → effect_of adv process event_id
        ≡ read_effect adv process (Handlers.event_in process event_id)
  unfolding effect_of Handlers.event_in Events.try_from_u32 Events.event_of_code
  read_effect-event_in adv process event_id = ground arith

  pushing_keeps :
      (host : TransactionHost) (r : Result TransactionKernelError OutputNote)
      → (Handlers.pushing host r).1.account_delta ≡ host.account_delta
  pushing_keeps host (ok t) = refl
  pushing_keeps host (err e) = refl
  pushing_keeps host panic = refl

  providing_keeps :
      (host : TransactionHost) (r : Result TransactionKernelError a.Provider)
      → (Handlers.providing host r).1.account_delta ≡ host.account_delta
  providing_keeps host (ok t) = refl
  providing_keeps host (err e) = refl
  providing_keeps host panic = refl

  asset_tracked :
      (f : Asset → Update) (host : TransactionHost) (r : Result AssetError Asset)
      → let t = host.account_delta in
        (Handlers.tracking host (
          map_err TransactionKernelError.malformed_asset_on_account_vault_update r
          >>= (λ x. ok (Handlers.with_vault t (tracked t.vault (f x)))))).1.account_delta
        ≡ apply_effect t (asset_effect f r)
  asset_tracked f host (ok x) = refl
  asset_tracked f host (err e) = refl
  asset_tracked f host panic = refl

  slot_effect_tracked :
      (host : TransactionHost) (process : Process)
      → (Handlers.tracking host (Handlers.delta_with_slot host process)).1.account_delta
        ≡ apply_effect host.account_delta (storage_effect host.adv_provider process)
  unfolding Handlers.delta_with_slot Handlers.current_slot_value
  slot_effect_tracked host process = ground arith

  handled_effect :
      (event : TransactionEvent) (host : TransactionHost) (process : Process)
      → (Handlers.handle event host process).1.account_delta
        ≡ apply_effect host.account_delta (event_effect host.adv_provider process event)
  unfolding Handlers.handle Handlers.on_note_created Handlers.on_account_push_procedure_index
      Handlers.on_account_increment_nonce Handlers.on_account_storage_set_item
      Handlers.on_account_vault_add_asset Handlers.on_account_vault_remove_asset
  handled_effect TransactionEvent.note_created host process =
      pushing_keeps host (note_of host.adv_provider process)
  handled_effect TransactionEvent.account_push_procedure_index host process =
      providing_keeps host (Handlers.provider_with_index host process)
  handled_effect TransactionEvent.account_increment_nonce host process = refl
  handled_effect TransactionEvent.account_storage_set_item host process =
      slot_effect_tracked host process
  handled_effect TransactionEvent.account_vault_add_asset host process =
      asset_tracked adding host (Value.try_from_word (process.get_stack_word 0))
  handled_effect TransactionEvent.account_vault_remove_asset host process =
      asset_tracked removing host (Value.try_from_word (process.get_stack_word 0))

  dispatched_effect :
      (host : TransactionHost) (process : Process) (r : Result ExecutionError TransactionEvent)
      → (Handlers.dispatch host process r).1.account_delta
        ≡ apply_effect host.account_delta (read_effect host.adv_provider process r)
  dispatched_effect host process (ok event) = handled_effect event host process
  dispatched_effect host process (err e) = refl
  dispatched_effect host process panic = refl

  -- An event changes the tracked delta by its effect, also where it fails.
  pub on_event-effect_of :
      (host : TransactionHost) (process : Process) (event_id : ℕ)
      → (Handlers.on_event host process event_id).1.account_delta
        ≡ apply_effect host.account_delta (effect_of host.adv_provider process event_id)
  unfolding Handlers.on_event
  on_event-effect_of host process event_id =
      dispatched_effect host process (Handlers.event_in process event_id)
      ∙ ap (apply_effect host.account_delta)
          (sym (read_effect-event_in host.adv_provider process event_id))

  pub effect_of-IsInRange :
      (adv : a.Provider) (process : Process) (event_id : ℕ)
      → IsInRange (effect_of adv process event_id)
  unfolding effect_of
  effect_of-IsInRange adv process event_id = ground arith
