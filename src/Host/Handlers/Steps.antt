-- ===== src/Host/Handlers/Steps.antt =====
-- What refused events leave of the host.
use restartx.Common.{ℕ, ◌≡◌, refl}
use restartx.Common.{Result, ok, err, panic}
use restartx.Common.{◌>>=◌, map_err-eq-err}
use restartx.Common.Maps.{MapKey, nat_key}
use restartx.Crypto.{Digest, Crypto}
use restartx.Types.{id_key}
use restartx.Notes.Script.{Assembler}
use restartx.Transactions.OutputNotes.{OutputNote}
use restartx.Host.Created.{note_of}
use restartx.Host.Events.{TransactionEvent, TransactionKernelError}
use restartx.Host.Procedures.{AdviceProvider, Process}
use restartx.Host.Tracker.{AccountDeltaTracker}
use restartx.Host.Handlers
use restartx.Host.Handlers.{TransactionHost, ExecutionError}

module _ ⦃c : Crypto⦄ ⦃d : MapKey Digest⦄ ⦃s : Assembler⦄ ⦃a : AdviceProvider⦄ where
  tracking-err :
      (host : TransactionHost) (r : Result TransactionKernelError AccountDeltaTracker)
      (e : TransactionKernelError)
      → (Handlers.tracking host r).0 ≡ err e
      → (Handlers.tracking host r).1 ≡ host
  tracking-err host (ok t) e h = cc
  tracking-err host (err f) e h = refl
  tracking-err host panic e h = refl

  pushing-err :
      (host : TransactionHost) (r : Result TransactionKernelError OutputNote)
      (e : TransactionKernelError)
      → (Handlers.pushing host r).0 ≡ err e
      → (Handlers.pushing host r).1 ≡ host
  pushing-err host (ok t) e h = cc
  pushing-err host (err f) e h = refl
  pushing-err host panic e h = refl

  providing-err :
      (host : TransactionHost) (r : Result TransactionKernelError a.Provider)
      (e : TransactionKernelError)
      → (Handlers.providing host r).0 ≡ err e
      → (Handlers.providing host r).1 ≡ host
  providing-err host (ok t) e h = cc
  providing-err host (err f) e h = refl
  providing-err host panic e h = refl

  -- A failed handler leaves the host as it was.
  handle-err :
      (event : TransactionEvent) (host : TransactionHost) (process : Process)
      (e : TransactionKernelError)
      → (Handlers.handle event host process).0 ≡ err e
      → (Handlers.handle event host process).1 ≡ host
  unfolding Handlers.handle Handlers.on_note_created Handlers.on_account_push_procedure_index
      Handlers.on_account_increment_nonce Handlers.on_account_storage_set_item
      Handlers.on_account_vault_add_asset Handlers.on_account_vault_remove_asset
  handle-err TransactionEvent.note_created host process e h =
      pushing-err host (note_of host.adv_provider process) e h
  handle-err TransactionEvent.account_push_procedure_index host process e h =
      providing-err host (Handlers.provider_with_index host process) e h
  handle-err TransactionEvent.account_increment_nonce host process e h = cc
  handle-err TransactionEvent.account_storage_set_item host process e h =
      tracking-err host (Handlers.delta_with_slot host process) e h
  handle-err TransactionEvent.account_vault_add_asset host process e h =
      tracking-err host
        (Handlers.stack_asset process >>= (λ x. ok (Handlers.asset_added host.account_delta x))) e h
  handle-err TransactionEvent.account_vault_remove_asset host process e h =
      tracking-err host
        (Handlers.stack_asset process >>= (λ x. ok (Handlers.asset_removed host.account_delta x))) e
        h

  dispatch-err :
      (host : TransactionHost) (process : Process) (r : Result ExecutionError TransactionEvent)
      (e : ExecutionError)
      → (Handlers.dispatch host process r).0 ≡ err e
      → (Handlers.dispatch host process r).1 ≡ host
  dispatch-err host process (ok ev) e h =
      let (f, g) =
        map_err-eq-err ExecutionError.kernel_error (Handlers.handle ev host process).0 e h in
      handle-err ev host process f g
  dispatch-err host process (err f) e h = refl
  dispatch-err host process panic e h = refl

  -- An event that is refused, as no event, outside the root context, or by its handler, leaves the
  -- host as it was.
  pub on_event-err :
      (host : TransactionHost) (process : Process) (event_id : ℕ) (e : ExecutionError)
      → (Handlers.on_event host process event_id).0 ≡ err e
      → (Handlers.on_event host process event_id).1 ≡ host
  unfolding Handlers.on_event
  on_event-err host process event_id e h =
      dispatch-err host process (Handlers.event_in process event_id) e h
