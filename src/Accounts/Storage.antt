-- ===== src/Accounts/Storage.antt =====
-- Account storage (objects/src/accounts/storage/mod.rs). A slot index is a `u8`; a method on
-- `&mut self` returns its result and the storage that it leaves, also where it fails.
pub mod Layout
pub mod Update
pub mod Apply
use restartx.Common.{ℕ, ◌==◌, ltb, Bool, true, false, not, if◌then◌else◌, List, [], ◌∷◌, ◌++◌, map}
use restartx.Common.{replicate, set_elem, get_elem?, Option, none, some}
use restartx.Common.{Result, ok, err, panic, ◌>>=◌, ◌>>◌, guard, for_each, and_then}
use restartx.Crypto.{Word, Digest, Crypto, empty_word}
use restartx.Merkle.{SimpleSmt, Leaves}
use restartx.Types.{StorageSlotType}
use restartx.Errors.{AccountError}
use restartx.Accounts.Slot
use restartx.Accounts.Delta.{AccountStorageDelta}

abbrev pub num_storage_slots : ℕ
num_storage_slots = 256

abbrev pub slot_layout_commitment_index : ℕ
slot_layout_commitment_index = 255

pub record StorageSlot : Type 0 where
  pub slot_type : StorageSlotType
  pub slot_value : Word

pub record SlotItem : Type 0 where
  pub index : ℕ
  pub slot : StorageSlot

unfoldable pub new_value : Word → StorageSlot
new_value value = record { slot_type = StorageSlotType.value 0; slot_value = value }

unfoldable pub new_map : Word → StorageSlot
new_map root = record { slot_type = StorageSlotType.map 0; slot_value = root }

unfoldable pub new_array : Word → ℕ → StorageSlot
new_array root log_n = record { slot_type = StorageSlotType.array log_n 0; slot_value = root }

-- The layout before any item is looked at.
unfoldable pub initial_layout : List StorageSlotType
initial_layout =
    set_elem (replicate num_storage_slots Slot.default_slot_type) slot_layout_commitment_index
      (StorageSlotType.value 64)

abbrev pub check_index : ℕ → Result AccountError (Unit {0})
check_index index =
    guard (not (index == slot_layout_commitment_index))
      (AccountError.storage_slot_is_reserved index)

-- The pass over the items, which sets their types in the layout and collects their values.
unfoldable pub process_items :
    List StorageSlotType → List SlotItem → Result AccountError (List StorageSlotType × Leaves)
process_items layout [] = ok (layout, [])
process_items layout (item ∷ items) = do
  check_index item.index
  rest ← process_items (set_elem layout item.index item.slot.slot_type) items
  ok (rest.0, (item.index, item.slot.slot_value) ∷ rest.1)

-- The test of `set_item` on the type of the slot.
unfoldable pub check_slot_type : ℕ → Option StorageSlotType → Result AccountError (Unit {0})
check_slot_type index none = panic
check_slot_type index (some (StorageSlotType.value arity)) =
    guard (not (ltb 0 arity)) (AccountError.storage_slot_invalid_value_arity index 0 arity)
check_slot_type index (some (StorageSlotType.map arity)) =
    err (AccountError.storage_slot_not_value_slot index (StorageSlotType.map arity))
check_slot_type index (some (StorageSlotType.array depth arity)) =
    err (AccountError.storage_slot_not_value_slot index (StorageSlotType.array depth arity))

unfoldable pub check_item : List StorageSlotType → ℕ → Result AccountError (Unit {0})
check_item layout index = do check_index index; check_slot_type index (get_elem? layout index)

module _ ⦃s : SimpleSmt⦄ where
  pub record AccountStorage : Type 0 where
    pub slots : s.SlotTree
    pub layout : List StorageSlotType

  unfoldable pub root : AccountStorage → Digest
  root storage = s.slot_root storage.slots

  unfoldable pub get_item : AccountStorage → ℕ → Digest
  get_item storage index = s.get_leaf storage.slots index

  -- The previous value of the slot is returned.
  unfoldable pub set_item : AccountStorage → ℕ → Word → Result AccountError Word × AccountStorage
  set_item storage index value = elim (check_item storage.layout index) [
    | ok u ↦
        let (slot_value, slots) = s.insert_leaf storage.slots index value in
        (ok slot_value, record { slots = slots; layout = storage.layout })
    | err e ↦ (err e, storage)
    | panic ↦ (panic, storage)
  ]

  -- `self.set_item(..)?`, where the previous value is not used
  unfoldable pub setting :
      AccountStorage → ℕ × Word → Result AccountError (Unit {0}) × AccountStorage
  setting storage (index, value) =
      let (r, after) = set_item storage index value in (r >>= (λ old. ok tt), after)

  unfoldable pub apply_delta :
      AccountStorage → AccountStorageDelta → Result AccountError (Unit {0}) × AccountStorage
  apply_delta storage delta =
      and_then (for_each (λ st idx. setting st (idx, empty_word)) delta.cleared_items storage)
        (λ st. for_each setting delta.updated_items st)

module _ ⦃c : Crypto⦄ where
  unfoldable pub commitment_of : List StorageSlotType → Digest
  commitment_of layout = c.hash_elements (map Slot.to_felt layout)

module _ ⦃c : Crypto⦄ ⦃s : SimpleSmt⦄ where
  unfoldable pub layout_commitment : AccountStorage → Digest
  layout_commitment storage = commitment_of storage.layout

  unfoldable pub new : List SlotItem → Result AccountError AccountStorage
  new items = do
    (layout, entries) ← process_items initial_layout items
    let entries = entries ++ ((slot_layout_commitment_index, commitment_of layout) ∷ [])
    elim (s.with_leaves entries) [
      | some slots ↦ ok (record { slots = slots; layout = layout })
      | none ↦ err AccountError.duplicate_storage_items
    ]
