-- ===== src/Host/Handlers/Runs.antt =====
-- What a run of events, in any order and of any length, leaves in the tracked delta.
use restartx.Common.{ℕ, ◌+◌, ◌%◌, ◌<◌, ◌≡◌, refl, ap, ◌∙◌, arith, ◌==◌}
use restartx.Common.{if◌then◌else◌, List, [], ◌∷◌, All, Option, none, some}
use restartx.Common.Maps.{MapKey, nat_key, find, find-insert}
use restartx.Crypto.{Word, Digest, Crypto, field_modulus}
use restartx.Accounts.Account.{AccountStub}
use restartx.Notes.Script.{Assembler}
use restartx.Host.Procedures.{AdviceProvider, Process}
use restartx.Host.Tracker
use restartx.Host.Tracker.{AccountDeltaTracker, AccountVaultDeltaTracker}
use restartx.Host.Tracker.Net.{Update, replay}
use restartx.Host.Handlers
use restartx.Host.Handlers.{TransactionHost}
use restartx.Host.Handlers.Effects.{
  Effect, nothing, writes, changes, increases, effect_of, apply_effect, IsInRange,
  on_event-effect_of, effect_of-IsInRange,
}

abbrev pub nothing_tracked : AccountVaultDeltaTracker
nothing_tracked = record { fungible_assets = []; non_fungible_assets = [] }

-- The asset updates among effects, the value that was written last to a slot, and the sum of the
-- increments of the nonce.
abbrev pub updates_of : List Effect → List Update
updates_of [] = []
updates_of (changes u ∷ es) = u ∷ updates_of es
updates_of (_ ∷ es) = updates_of es

abbrev pub last_write : ℕ → Option Word → List Effect → Option Word
last_write j w [] = w
last_write j w (writes i v ∷ es) = last_write j (if i == j then some v else w) es
last_write j w (_ ∷ es) = last_write j w es

abbrev pub total_increase : List Effect → ℕ
total_increase [] = 0
total_increase (increases x ∷ es) = x + total_increase es
total_increase (_ ∷ es) = total_increase es

module _ ⦃c : Crypto⦄ ⦃d : MapKey Digest⦄ where
  abbrev apply_effects : AccountDeltaTracker → List Effect → AccountDeltaTracker
  apply_effects t [] = t
  apply_effects t (e ∷ es) = apply_effects (apply_effect t e) es

  apply_effects-vault :
      (t : AccountDeltaTracker) (es : List Effect)
      → (apply_effects t es).vault ≡ replay t.vault (updates_of es)
  unfolding Tracker.increment_nonce
  apply_effects-vault t [] = refl
  apply_effects-vault t (nothing ∷ es) = apply_effects-vault t es
  apply_effects-vault t (writes i v ∷ es) = apply_effects-vault (apply_effect t (writes i v)) es
  apply_effects-vault t (changes u ∷ es) = apply_effects-vault (apply_effect t (changes u)) es
  apply_effects-vault t (increases x ∷ es) = apply_effects-vault (apply_effect t (increases x)) es

  apply_effects-slots :
      (t : AccountDeltaTracker) (es : List Effect) (j : ℕ)
      → find j (apply_effects t es).storage.slot_updates
        ≡ last_write j (find j t.storage.slot_updates) es
  unfolding Tracker.increment_nonce Tracker.slot_update
  apply_effects-slots t [] j = refl
  apply_effects-slots t (nothing ∷ es) j = apply_effects-slots t es j
  apply_effects-slots t (writes i v ∷ es) j =
      apply_effects-slots (apply_effect t (writes i v)) es j
      ∙ ap (λ (w : Option Word). last_write j w es) (find-insert i j v t.storage.slot_updates)
  apply_effects-slots t (changes u ∷ es) j = apply_effects-slots (apply_effect t (changes u)) es j
  apply_effects-slots t (increases x ∷ es) j =
      apply_effects-slots (apply_effect t (increases x)) es j

  apply_effects-init_nonce :
      (t : AccountDeltaTracker) (es : List Effect) → (apply_effects t es).init_nonce ≡ t.init_nonce
  unfolding Tracker.increment_nonce
  apply_effects-init_nonce t [] = refl
  apply_effects-init_nonce t (nothing ∷ es) = apply_effects-init_nonce t es
  apply_effects-init_nonce t (writes i v ∷ es) =
      apply_effects-init_nonce (apply_effect t (writes i v)) es
  apply_effects-init_nonce t (changes u ∷ es) =
      apply_effects-init_nonce (apply_effect t (changes u)) es
  apply_effects-init_nonce t (increases x ∷ es) =
      apply_effects-init_nonce (apply_effect t (increases x)) es

  apply_effects-nonce_delta :
      (t : AccountDeltaTracker) (es : List Effect)
      → t.nonce_delta < field_modulus
      → (apply_effects t es).nonce_delta ≡ (t.nonce_delta + total_increase es) % field_modulus
  unfolding Tracker.increment_nonce
  apply_effects-nonce_delta t [] h = omega (arith, h)
  apply_effects-nonce_delta t (nothing ∷ es) h = apply_effects-nonce_delta t es h
  apply_effects-nonce_delta t (writes i v ∷ es) h =
      apply_effects-nonce_delta (apply_effect t (writes i v)) es h
  apply_effects-nonce_delta t (changes u ∷ es) h =
      apply_effects-nonce_delta (apply_effect t (changes u)) es h
  apply_effects-nonce_delta t (increases x ∷ es) h =
      let sum = c.felt_add_lem t.nonce_delta x in
      let small : c.felt_add t.nonce_delta x < field_modulus = omega (arith, sum) in
      let later = apply_effects-nonce_delta (apply_effect t (increases x)) es small in
      omega (arith, sum, later)

module _ ⦃c : Crypto⦄ ⦃d : MapKey Digest⦄ ⦃s : Assembler⦄ ⦃a : AdviceProvider⦄ where
  -- What happens to a host: the VM raises an event, or works on the advice provider in between.
  pub data Step : Type 0 where
    raised : Process → ℕ → Step
    advised : a.Provider → Step

  abbrev after_step : TransactionHost → Step → TransactionHost
  after_step host (raised process event_id) = (Handlers.on_event host process event_id).1
  after_step host (advised adv) = Handlers.with_provider host adv

  abbrev pub run : TransactionHost → List Step → TransactionHost
  run host [] = host
  run host (step ∷ steps) = run (after_step host step) steps

  abbrev step_effect : TransactionHost → Step → Effect
  step_effect host (raised process event_id) = effect_of host.adv_provider process event_id
  step_effect host (advised adv) = nothing

  -- The effects of the steps, each with the advice provider that it meets.
  abbrev pub effects : TransactionHost → List Step → List Effect
  effects host [] = []
  effects host (step ∷ steps) = step_effect host step ∷ effects (after_step host step) steps

  after_step-step_effect :
      (host : TransactionHost) (step : Step)
      → (after_step host step).account_delta
        ≡ apply_effect host.account_delta (step_effect host step)
  after_step-step_effect host (raised process event_id) = on_event-effect_of host process event_id
  after_step-step_effect host (advised adv) = refl

  run-effects :
      (host : TransactionHost) (steps : List Step)
      → (run host steps).account_delta ≡ apply_effects host.account_delta (effects host steps)
  run-effects host [] = refl
  run-effects host (step ∷ steps) =
      run-effects (after_step host step) steps
      ∙ ap (λ (t : AccountDeltaTracker). apply_effects t (effects (after_step host step) steps))
          (after_step-step_effect host step)

  step_effect-IsInRange : (host : TransactionHost) (step : Step) → IsInRange (step_effect host step)
  step_effect-IsInRange host (raised process event_id) =
      effect_of-IsInRange host.adv_provider process event_id
  step_effect-IsInRange host (advised adv) = tt

  effects-IsInRange :
      (host : TransactionHost) (steps : List Step) → All IsInRange (effects host steps)
  effects-IsInRange host [] = tt
  effects-IsInRange host (step ∷ steps) =
      (step_effect-IsInRange host step, effects-IsInRange (after_step host step) steps)

  -- After any steps from the host of an account on, the tracked delta is what the effects of the
  -- events leave, in their order: the vault is that of their additions and removals one after the
  -- other, each slot has the value that was written last, and none without a write, the nonce's
  -- change is the sum of the increments in the field, and the initial nonce is the account's. Only
  -- slots below 256 are written.
  pub run_lem :
      (account : AccountStub) (adv : a.Provider) (steps : List Step)
      → let host = Handlers.new account adv in
        let es = effects host steps in
        ((run host steps).account_delta.vault ≡ replay nothing_tracked (updates_of es))
        × ((j : ℕ)
            → find j (run host steps).account_delta.storage.slot_updates ≡ last_write j none es)
        × ((run host steps).account_delta.init_nonce ≡ account.nonce)
        × ((run host steps).account_delta.nonce_delta ≡ total_increase es % field_modulus)
        × All IsInRange es
  unfolding Handlers.new Tracker.new
  run_lem account adv steps =
      let host = Handlers.new account adv in
      let es = effects host steps in
      let start = host.account_delta in
      let same = run-effects host steps in
      (
        rw same (apply_effects-vault start es),
        λ j. rw same (apply_effects-slots start es j),
        rw same (apply_effects-init_nonce start es),
        rw same (omega (arith, apply_effects-nonce_delta start es (omega arith))),
        effects-IsInRange host steps,
      )
