-- ===== src/Accounts/Storage/Update.antt =====
-- The updates of single slots.
use restartx.Common.{
  ℕ, zero, suc, Bool-cases, ◌<◌, ◌≡◌, ◌≢◌, ◌⊎◌, inl, inr, refl, arith, ◌==◌, if◌then◌else◌,
}
use restartx.Common.{List, length, get_elem?, some, ok, err, get_elem?-some}
use restartx.Crypto.{Word, Crypto}
use restartx.Merkle.{SimpleSmt}
use restartx.Types.{StorageSlotType}
use restartx.Errors.{AccountError}
use restartx.Accounts.Storage
use restartx.Accounts.Storage.{AccountStorage}
use restartx.Accounts.Storage.Layout.{IsWellFormed}

-- A slot that `set_item` may update: a value of arity 0, not the last one.
pub record IsWritable (layout : List StorageSlotType) (i : ℕ) : Type 0 where
  pub not_last : i ≢ 255
  pub value_type : get_elem? layout i ≡ some (StorageSlotType.value 0)

pub check_item-writable :
    (layout : List StorageSlotType) (i : ℕ)
    → IsWritable layout i
    → Storage.check_item layout i ≡ ok tt
unfolding Storage.check_item Storage.check_slot_type
check_item-writable layout i w = ground (arith, w.not_last, w.value_type)

check_slot_type-cases :
    (i : ℕ) (t : StorageSlotType)
    → (t ≡ StorageSlotType.value 0)
      ⊎ ((e : AccountError) × (Storage.check_slot_type i (some t) ≡ err e))
unfolding Storage.check_slot_type
check_slot_type-cases i (StorageSlotType.value zero) = inl refl
check_slot_type-cases i (StorageSlotType.value (suc a)) =
    inr (AccountError.storage_slot_invalid_value_arity i 0 (suc a), ground arith)
check_slot_type-cases i (StorageSlotType.map a) = inr (_, refl)
check_slot_type-cases i (StorageSlotType.array d a) = inr (_, refl)

check_item-cases :
    (layout : List StorageSlotType) (i : ℕ)
    → i < length layout
    → IsWritable layout i ⊎ ((e : AccountError) × (Storage.check_item layout i ≡ err e))
unfolding Storage.check_item
check_item-cases layout i l =
    let (t, at) = get_elem?-some layout i l in
    elim (Bool-cases (i == 255)) [
      | inl last ↦ inr (AccountError.storage_slot_is_reserved i, ground (arith, last))
      | inr inner ↦ elim (check_slot_type-cases i t) [
        | inl v ↦
            inl (record { not_last = ground (arith, inner); value_type = ground (at, v, arith) })
        | inr (e, refused) ↦ inr (e, ground (arith, inner, at, refused))
      ]
    ]

module _ ⦃c : Crypto⦄ ⦃s : SimpleSmt⦄ where
  -- The storage in which slot `i` holds `v`, and all else is as before.
  pub record IsUpdated (st : AccountStorage) (i : ℕ) (v : Word) (after : AccountStorage)
      : Type 0 where
    pub same_layout : after.layout ≡ st.layout
    pub reads : (j : ℕ) → Storage.get_item after j ≡ (if i == j then v else Storage.get_item st j)

  abbrev pub updated : AccountStorage → ℕ → Word → AccountStorage
  updated st i v = record { slots = (s.insert_leaf st.slots i v).1; layout = st.layout }

  pub updated-IsUpdated :
      (st : AccountStorage) (i : ℕ) (v : Word) → IsUpdated st i v (updated st i v)
  unfolding Storage.get_item
  updated-IsUpdated st i v = record {
    same_layout = refl;
    reads = λ j. s.get_leaf-insert_leaf st.slots i v j;
  }

  updated-IsWellFormed :
      (st : AccountStorage) (i : ℕ) (v : Word)
      → i ≢ 255
      → IsWellFormed st
      → IsWellFormed (updated st i v)
  unfolding Storage.layout_commitment Storage.get_item
  updated-IsWellFormed st i v d w = record {
    all_slots = w.all_slots;
    last_type = w.last_type;
    last_item = ground (arith, d, s.get_leaf-insert_leaf st.slots i v 255, w.last_item);
  }

  -- Every update keeps the storage well-formed, also one that fails.
  pub set_item-IsWellFormed :
      (st : AccountStorage) (i : ℕ) (v : Word)
      → i < 256
      → IsWellFormed st
      → IsWellFormed (Storage.set_item st i v).1
  unfolding Storage.set_item
  set_item-IsWellFormed st i v l w =
      elim (check_item-cases st.layout i (omega (arith, l, w.all_slots))) [
        | inl writable ↦
            rw (check_item-writable st.layout i writable, Storage.set_item)
              (updated-IsWellFormed st i v writable.not_last w)
        | inr (e, refused) ↦ rw (refused, Storage.set_item) w
      ]
