-- ===== src/Host/Tracker/Whole.antt =====
-- The delta of a whole transaction, and when there is none.
use restartx.Common.{ℕ, ◌≡◌, ◌<◌, refl, arith, Bool, not, ◌&&◌, ◌==◌, if◌then◌else◌}
use restartx.Common.{length, All, Option, ok, panic, ◌>>=◌}
use restartx.Common.Maps.{MapKey, nat_key, IsSorted}
use restartx.Crypto.{Word, Digest, Crypto, Felt}
use restartx.Accounts.Delta
use restartx.Accounts.Delta.{AccountDelta, AccountStorageDelta, AccountVaultDelta}
use restartx.Accounts.Delta.Checks.{
  IsVaultDelta, IsStorageDelta, validate_storage_iff, validate_vault_iff,
}
use restartx.Host.Tracker
use restartx.Host.Tracker.{AccountDeltaTracker}
use restartx.Host.Tracker.Slots.{storage_delta_of-IsStorageDelta, length-storage_delta_of}
use restartx.Host.Tracker.Ends.{IsReady, vault_delta_of-IsVaultDelta}

abbrev is_unchanged : AccountDeltaTracker → Bool
is_unchanged t =
    (length t.storage.slot_updates == 0)
    && ((length t.vault.fungible_assets == 0) && (length t.vault.non_fungible_assets == 0))

-- The constructor of a delta on checked parts.
new_checked :
    (storage : AccountStorageDelta) (vault : AccountVaultDelta) (nonce : Option Felt)
    → IsStorageDelta storage
    → IsVaultDelta vault
    → Delta.new storage vault nonce ≡ (
        Delta.validate_nonce nonce storage vault
        >>= (λ u. ok (record { storage = storage; vault = vault; nonce = nonce })))
unfolding Delta.new
new_checked storage vault new_nonce s v =
    rw ((validate_storage_iff storage).1 s, (validate_vault_iff vault).1 v) refl

-- The nonce goes with a change: it was increased, and to a value other than 0, exactly if
-- something else was tracked.
module _ ⦃c : Crypto⦄ ⦃d : MapKey Digest⦄ where
  abbrev pub nonce_fits : AccountDeltaTracker → Bool
  nonce_fits t =
      if is_unchanged t
      then t.nonce_delta == 0
      else not (t.nonce_delta == 0) && not (c.felt_add t.init_nonce t.nonce_delta == 0)

  -- A tracker with sorted maps, with fewer than 2^16 assets in all, whose fungible amounts are those
  -- of assets of fungible faucets, whose counts of non-fungible assets are 1 or -1, and whose slots
  -- are below 255, ends in the delta of its slots, its assets and its nonce. It panics exactly if
  -- the nonce was changed alone, was not changed with the rest, or became 0.
  pub into_delta_lem :
      (t : AccountDeltaTracker)
      → IsReady t.vault
      → IsSorted t.storage.slot_updates
      → All (λ (q : ℕ × Word). q.0 < 255) t.storage.slot_updates
      → (vault : AccountVaultDelta) × (Tracker.vault_delta_of t.vault ≡ ok vault)
        × (Tracker.into_delta t ≡ (
            if nonce_fits t
            then ok (record {
              storage = Tracker.storage_delta_of t.storage.slot_updates;
              vault = vault;
              nonce = Tracker.nonce_of t;
            })
            else panic))
  unfolding Tracker.into_delta Delta.validate_nonce Delta.is_storage_delta_empty
      Delta.is_vault_delta_empty
  into_delta_lem t w sorted mutable =
      let (vault, made, valid, count) = vault_delta_of-IsVaultDelta t.vault w in
      let storage = Tracker.storage_delta_of t.storage.slot_updates in
      let sizes = length-storage_delta_of t.storage.slot_updates in
      (
        vault,
        made,
        rw
            (
              made,
              new_checked storage vault (Tracker.nonce_of t)
                  (storage_delta_of-IsStorageDelta t.storage.slot_updates sorted mutable) valid,
            )
            (ground (arith, sizes, count)),
      )
