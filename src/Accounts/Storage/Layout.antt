-- ===== src/Accounts/Storage/Layout.antt =====
-- The invariant of account storage, and what the constructor makes.
use restartx.Common.{ℕ, ◌≡◌, ◌≢◌, ap, sym, ◌∙◌, arith, ◌==◌, Bool, true, if◌then◌else◌}
use restartx.Common.{
  List, [], ◌∷◌, ◌++◌, map, length, All, any, set_elem, get_elem?, get_elem?-set_elem,
  length-set_elem,
}
use restartx.Common.{some, ok, >>=-eq-ok, length-replicate}
use restartx.Crypto.{Word, Crypto}
use restartx.Merkle.{SimpleSmt, Leaves, leaf_of, has_repeated}
use restartx.Types.{StorageSlotType}
use restartx.Accounts.Slot
use restartx.Accounts.Storage
use restartx.Accounts.Storage.{AccountStorage, SlotItem, StorageSlot}

abbrev pub entry_of : SlotItem → ℕ × Word
entry_of item = (item.index, item.slot.slot_value)

abbrev NotReserved : Leaves → Type 0
NotReserved ls = All (λ e. e.0 ≢ 255) ls

process_items-cons :
    (layout : List StorageSlotType) (item : SlotItem) (items : List SlotItem)
    (r : List StorageSlotType × Leaves)
    → Storage.process_items layout (item ∷ items) ≡ ok r
    → (item.index ≢ 255)
      × ((rest : List StorageSlotType × Leaves) × (Storage.process_items
              (set_elem layout item.index item.slot.slot_type)
              items
            ≡ ok rest)
          × (r ≡ (rest.0, entry_of item ∷ rest.1)))
unfolding Storage.process_items
process_items-cons layout item items r h =
    let next = set_elem layout item.index item.slot.slot_type in
    let (u, index_ok, tail) = >>=-eq-ok (Storage.check_index item.index) _ h in
    let (rest, rest_ok, same) = >>=-eq-ok (Storage.process_items next items) _ tail in
    (ground (arith, index_ok), (rest, rest_ok, ground (arith, same)))

-- What the pass over the items returns: the last type is not set, and the entries are those of
-- the items, none of them at the last index.
record Processed (layout : List StorageSlotType) (items : List SlotItem)
    (r : List StorageSlotType × Leaves) : Type 0 where
  same_length : length r.0 ≡ length layout
  same_last : get_elem? r.0 255 ≡ get_elem? layout 255
  values : r.1 ≡ map entry_of items
  not_reserved : NotReserved (map entry_of items)

process_items-Processed :
    (layout : List StorageSlotType) (items : List SlotItem) (r : List StorageSlotType × Leaves)
    → Storage.process_items layout items ≡ ok r
    → Processed layout items r
unfolding Storage.process_items
process_items-Processed layout [] r h = record {
  same_length = ground (arith, h);
  same_last = ground (arith, h);
  values = ground (arith, h);
  not_reserved = tt;
}
process_items-Processed layout (item ∷ items) r h =
    let (differs, tail) = process_items-cons layout item items r h in
    let (rest, rest_ok, same) = tail in
    let next = set_elem layout item.index item.slot.slot_type in
    let p = process_items-Processed next items rest rest_ok in
    record {
      same_length =
          ground
            (arith, same, p.same_length, length-set_elem layout item.index item.slot.slot_type);
      same_last =
          ap (λ (q : List StorageSlotType × Leaves). get_elem? q.0 255) same
          ∙ p.same_last
          ∙ get_elem?-set_elem layout item.index 255 item.slot.slot_type differs;
      values = ground (arith, same, p.values);
      not_reserved = (differs, p.not_reserved);
    }

leaf_of-last :
    (ls : Leaves) (v : Word) (j : ℕ)
    → NotReserved ls
    → leaf_of j (ls ++ ((255, v) ∷ [])) ≡ (if j == 255 then v else leaf_of j ls)
leaf_of-last [] v j h = ground arith
leaf_of-last ((i, w) ∷ ls) v j h = ground (arith, h.0, leaf_of-last ls v j h.1)

any-append : (p : ℕ × Word → Bool) (xs ys : Leaves) → any p xs ≡ true → any p (xs ++ ys) ≡ true
any-append p [] ys h = cc
any-append p (x ∷ xs) ys h = ground (arith, any-append p xs ys)

repeated_append : (xs ys : Leaves) → has_repeated xs ≡ true → has_repeated (xs ++ ys) ≡ true
repeated_append [] ys h = cc
repeated_append ((i, v) ∷ xs) ys h =
    ground (arith, h, repeated_append xs ys, any-append (λ e. e.0 == i) xs ys)

module _ ⦃c : Crypto⦄ ⦃s : SimpleSmt⦄ where
  -- 256 slots, of which the last one holds the commitment to the layout.
  pub record IsWellFormed (st : AccountStorage) : Type 0 where
    pub all_slots : length st.layout ≡ 256
    pub last_type : get_elem? st.layout 255 ≡ some (StorageSlotType.value 64)
    pub last_item : Storage.get_item st 255 ≡ Storage.layout_commitment st

  -- The constructor makes well-formed storage in which each slot but the last one holds the value
  -- of the first item with its index, or the empty word.
  pub new-IsWellFormed :
      (items : List SlotItem) (st : AccountStorage)
      → Storage.new items ≡ ok st
      → IsWellFormed st
        × ((j : ℕ) → j ≢ 255 → Storage.get_item st j ≡ leaf_of j (map entry_of items))
  unfolding Storage.new Storage.get_item Storage.layout_commitment Storage.initial_layout
  new-IsWellFormed items st h =
      let (r, processed, rest) =
        >>=-eq-ok (Storage.process_items Storage.initial_layout items) _ h in
      let p = process_items-Processed Storage.initial_layout items r processed in
      let leaves = map entry_of items ++ ((255, Storage.commitment_of r.0) ∷ []) in
      let made : s.with_leaves leaves ≡ some st.slots = ground (arith, rest, p.values) in
      let kept : st.layout ≡ r.0 = ground (arith, rest, p.values) in
      let reads : (j : ℕ)
          → s.get_leaf st.slots j
            ≡ (if j == 255 then Storage.commitment_of r.0 else leaf_of j (map entry_of items)) =
        λ j.
          s.get_leaf-with_leaves leaves st.slots j made
          ∙ leaf_of-last (map entry_of items) (Storage.commitment_of r.0) j p.not_reserved in
      (
        record {
          all_slots = ground (
            arith,
            kept,
            p.same_length,
            length-replicate {A = StorageSlotType} 256 Slot.default_slot_type,
          );
          last_type = ground (arith, kept, p.same_last);
          last_item = reads 255 ∙ ap Storage.commitment_of (sym kept);
        },
        λ j d. ground (arith, d, reads j),
      )

  -- Items that share an index are refused.
  pub new_duplicate :
      (items : List SlotItem)
      → has_repeated (map entry_of items) ≡ true
      → (st : AccountStorage) → Storage.new items ≢ ok st
  unfolding Storage.new
  new_duplicate items d st h =
      let (r, processed, rest) =
        >>=-eq-ok (Storage.process_items Storage.initial_layout items) _ h in
      let p = process_items-Processed Storage.initial_layout items r processed in
      let leaves = map entry_of items ++ ((255, Storage.commitment_of r.0) ∷ []) in
      ground (
        arith,
        rest,
        p.values,
        s.with_leaves_repeated leaves (repeated_append (map entry_of items) _ d),
      )
