-- ===== src/Streams/Deltas.antt =====
-- Streams of account deltas (objects/src/accounts/delta/storage.rs, vault.rs, mod.rs).
pub mod Checked
pub mod Back
use restartx.Common.{
  ℕ, zero, suc, ◌%◌, ◌^◌, ltb, leb, not, ◌==◌, Bool, true, false, ◌||◌, if◌then◌else◌,
}
use restartx.Common.{List, [], ◌∷◌, ◌++◌, length, any, Option, none, some}
use restartx.Common.{Result, ok, err, panic, ◌>>=◌, ◌>>◌, guard, assert}
use restartx.Crypto.{Felt, Word, Crypto}
use restartx.Types.{Asset}
use restartx.Assets.Value
use restartx.Accounts.Delta
use restartx.Accounts.Delta.{AccountStorageDelta, AccountVaultDelta, AccountDelta}
use restartx.Notes.Script.{DeserializationError}
use restartx.Streams.{Streams, Reader, or_invalid, write_many}
use restartx.Streams.Parts

-- The loops that read items: each is compared with those before it, the last one first, and is
-- refused if it is `bad` in itself or the `same` as one before.
unfoldable pub read_checked :
    {A : Type 0} → Reader A → (A → Bool) → (A → A → Bool) → List A → ℕ → Reader (List A)
read_checked read bad same before zero bytes = ok ([], bytes)
read_checked read bad same before (suc n) bytes = do
  (x, behind) ← read bytes
  guard (not (bad x)) DeserializationError.invalid_value
  guard (not (any (λ y. same y x) before)) DeserializationError.invalid_value
  (xs, rest) ← read_checked read bad same (x ∷ before) n behind
  ok (x ∷ xs, rest)

-- `idx > MAX_MUTABLE_STORAGE_SLOT_IDX`
abbrev pub is_immutable : ℕ → Bool
is_immutable idx = ltb Delta.max_mutable_storage_slot_idx idx

abbrev pub cannot_update : List ℕ → ℕ × Word → Bool
cannot_update cleared p = is_immutable p.0 || Delta.contains cleared p.0

module _ ⦃s : Streams⦄ where
  abbrev pub write_index : ℕ → List ℕ
  write_index idx = s.write_int 1 idx

  abbrev pub write_item : ℕ × Word → List ℕ
  write_item p = s.write_int 1 p.0 ++ s.write_word p.1

  abbrev pub read_item : Reader (ℕ × Word)
  read_item bytes = do
    (idx, bytes) ← s.read_int 1 bytes
    (value, rest) ← s.read_word bytes
    ok ((idx, value), rest)

  unfoldable pub write_storage_delta : AccountStorageDelta → Result ⊥ (List ℕ)
  write_storage_delta d = do
    assert (leb (length d.cleared_items) 255)
    assert (leb (length d.updated_items) 255)
    ok (
        (s.write_int 1 (length d.cleared_items) ++ write_many write_index d.cleared_items)
        ++ (s.write_int 1 (length d.updated_items) ++ write_many write_item d.updated_items))

  unfoldable pub read_storage_delta : Reader AccountStorageDelta
  read_storage_delta bytes = do
    (num_cleared_items, bytes) ← s.read_int 1 bytes
    (cleared, bytes) ← read_checked (s.read_int 1) is_immutable ◌==◌ [] num_cleared_items bytes
    (num_updated_items, bytes) ← s.read_int 1 bytes
    (updated, rest) ←
        read_checked read_item (cannot_update cleared) (λ p q. p.0 == q.0) [] num_updated_items
          bytes
    ok (record { cleared_items = cleared; updated_items = updated }, rest)

  unfoldable pub write_vault_delta : AccountVaultDelta → Result ⊥ (List ℕ)
  write_vault_delta d = do
    assert (ltb (length d.added_assets) (2 ^ 16))
    assert (ltb (length d.removed_assets) (2 ^ 16))
    ok (
        (s.write_int 2 (length d.added_assets) ++ write_many Parts.write_asset d.added_assets)
        ++ (s.write_int 2 (length d.removed_assets)
            ++ write_many Parts.write_asset d.removed_assets))

  unfoldable pub read_vault_delta : ⦃c : Crypto⦄ → Reader AccountVaultDelta
  read_vault_delta bytes = do
    (num_added_assets, bytes) ← s.read_int 2 bytes
    (added, bytes) ←
        read_checked Parts.read_asset (λ a. false) Value.is_same [] num_added_assets bytes
    (num_removed_assets, bytes) ← s.read_int 2 bytes
    (removed, rest) ←
        read_checked Parts.read_asset (Delta.contains_asset added) Value.is_same []
          num_removed_assets bytes
    ok (record { added_assets = added; removed_assets = removed }, rest)

  unfoldable pub write_delta : AccountDelta → Result ⊥ (List ℕ)
  write_delta d = do
    storage ← write_storage_delta d.storage
    vault ← write_vault_delta d.vault
    ok (storage ++ (vault ++ s.write_option d.nonce))

  unfoldable pub read_delta : ⦃c : Crypto⦄ → Reader AccountDelta
  read_delta bytes = do
    (storage, bytes) ← read_storage_delta bytes
    (vault, bytes) ← read_vault_delta bytes
    (nonce, rest) ← s.read_option bytes
    or_invalid (Delta.validate_nonce nonce storage vault)
    ok (record { storage = storage; vault = vault; nonce = nonce }, rest)
