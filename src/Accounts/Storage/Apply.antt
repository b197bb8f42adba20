-- ===== src/Accounts/Storage/Apply.antt =====
-- Storage deltas applied to storage.
use restartx.Common.{
  ℕ, inl, inr, Bool-cases, ◌<◌, ◌≡◌, ap, refl, ◌∙◌, arith, ◌==◌, true, false, if◌then◌else◌,
}
use restartx.Common.{List, [], ◌∷◌, map, All, All-map, Distinct}
use restartx.Common.{ok, for_each, for_each_keeps, and_then, and_then_keeps}
use restartx.Crypto.{Word, Crypto, empty_word}
use restartx.Merkle.{SimpleSmt, Leaves, leaf_of}
use restartx.Types.{StorageSlotType}
use restartx.Accounts.Delta
use restartx.Accounts.Delta.{AccountStorageDelta}
use restartx.Accounts.Delta.Checks.{IsStorageDelta, IsMutable, keys}
use restartx.Accounts.Storage
use restartx.Accounts.Storage.{AccountStorage}
use restartx.Accounts.Storage.Layout.{IsWellFormed}
use restartx.Accounts.Storage.Update.{
  IsWritable, updated, updated-IsUpdated, check_item-writable, set_item-IsWellFormed,
}

-- What a slot with the value `old` holds after the writes.
abbrev pub after_writes : Word → ℕ → Leaves → Word
after_writes old j [] = old
after_writes old j ((i, v) ∷ ps) = after_writes (if i == j then v else old) j ps

after_writes-absent :
    (old : Word) (j : ℕ) (ps : Leaves)
    → Delta.contains (keys ps) j ≡ false
    → after_writes old j ps ≡ old
after_writes-absent old j [] h = refl
after_writes-absent old j ((i, v) ∷ ps) h = ground (arith, h, after_writes-absent old j ps)

contains_other :
    (i j : ℕ) (xs : List ℕ)
    → All (λ x. (i == x) ≡ false) xs
    → (i == j) ≡ true
    → Delta.contains xs j ≡ false
contains_other i j [] h e = refl
contains_other i j (x ∷ xs) h e = ground (arith, h.0, e, contains_other i j xs h.1)

-- With distinct indices, the first entry with an index is the only one.
after_writes-Distinct :
    (old : Word) (j : ℕ) (ps : Leaves)
    → Distinct (λ a b. a == b) (keys ps)
    → after_writes old j ps ≡ (if Delta.contains (keys ps) j then leaf_of j ps else old)
after_writes-Distinct old j [] d = refl
after_writes-Distinct old j ((i, v) ∷ ps) d = elim (Bool-cases (i == j)) [
  | inl here ↦
      ground (arith, here, contains_other i j (keys ps) d.0 here, after_writes-absent v j ps)
  | inr other ↦ ground (arith, other, after_writes-Distinct old j ps d.1)
]

abbrev clearing : List ℕ → Leaves
clearing xs = map (λ i. (i, empty_word)) xs

IsWritable-clearing :
    (l : List StorageSlotType) (xs : List ℕ)
    → All (IsWritable l) xs
    → All (λ p. IsWritable l p.0) (clearing xs)
IsWritable-clearing l [] w = tt
IsWritable-clearing l (x ∷ xs) w = (w.0, IsWritable-clearing l xs w.1)

IsWritable-updates :
    (l : List StorageSlotType) (ps : Leaves)
    → All (IsWritable l) (keys ps)
    → All (λ p. IsWritable l p.0) ps
IsWritable-updates l [] w = tt
IsWritable-updates l (p ∷ ps) w = (w.0, IsWritable-updates l ps w.1)

mutable_index : (xs : List ℕ) → IsMutable xs → All (λ i. i < 256) xs
mutable_index xs m = All-map (λ (x : ℕ) (h : x < 255). omega (arith, h)) xs m

mutable_updates : (ps : Leaves) → IsMutable (keys ps) → All (λ p. p.0 < 256) ps
mutable_updates [] w = tt
mutable_updates (p ∷ ps) w = (omega (arith, w.0), mutable_updates ps w.1)

module _ ⦃c : Crypto⦄ ⦃s : SimpleSmt⦄ where
  setting-IsWritable :
      (st : AccountStorage) (i : ℕ) (v : Word)
      → IsWritable st.layout i
      → Storage.setting st (i, v) ≡ (ok tt, updated st i v)
  unfolding Storage.setting Storage.set_item
  setting-IsWritable st i v w = ground (arith, check_item-writable st.layout i w)

  -- What a storage holds after the writes.
  record IsWritten (st : AccountStorage) (ps : Leaves) (after : AccountStorage) : Type 0 where
    same_layout : after.layout ≡ st.layout
    reads : (j : ℕ) → Storage.get_item after j ≡ after_writes (Storage.get_item st j) j ps

  for_each-setting :
      (st : AccountStorage) (ps : Leaves)
      → All (λ p. IsWritable st.layout p.0) ps
      → (after : AccountStorage) × (for_each Storage.setting ps st ≡ (ok tt, after))
        × IsWritten st ps after
  for_each-setting st [] w = (st, refl, record { same_layout = refl; reads = λ j. refl })
  for_each-setting st ((i, v) ∷ ps) w =
      let next = updated st i v in
      let u = updated-IsUpdated st i v in
      let (after, run, written) = for_each-setting next ps w.1 in
      (
        after,
        rw (setting-IsWritable st i v w.0) run,
        record {
          same_layout = written.same_layout;
          reads = λ j. rw (u.reads j) at (written.reads j);
        },
      )

  for_each-clearing :
      (st : AccountStorage) (xs : List ℕ)
      → for_each (λ t idx. Storage.setting t (idx, empty_word)) xs st
        ≡ for_each Storage.setting (clearing xs) st
  for_each-clearing st [] = refl
  for_each-clearing st (x ∷ xs) =
      ap (and_then (Storage.setting st (x, empty_word))) (λ i t. for_each-clearing t xs i)

  setting-IsWellFormed :
      (st : AccountStorage) (i : ℕ) (v : Word)
      → i < 256
      → IsWellFormed st
      → IsWellFormed (Storage.setting st (i, v)).1
  unfolding Storage.setting
  setting-IsWellFormed st i v l w = set_item-IsWellFormed st i v l w

  clearing_reads :
      (old : Word) (j : ℕ) (xs : List ℕ)
      → after_writes old j (clearing xs) ≡ (if Delta.contains xs j then empty_word else old)
  clearing_reads old j [] = refl
  clearing_reads old j (x ∷ xs) =
      ground (arith, clearing_reads (if x == j then empty_word else old) j xs)

  -- A delta that its check accepts, and whose slots are values of arity 0, is applied, and then
  -- an updated slot holds its new value, a cleared slot is empty, and every other slot is as before.
  pub apply_delta_lem :
      (st : AccountStorage) (d : AccountStorageDelta)
      → IsStorageDelta d
      → All (IsWritable st.layout) d.cleared_items
      → All (IsWritable st.layout) (keys d.updated_items)
      → (after : AccountStorage) × (Storage.apply_delta st d ≡ (ok tt, after))
        × (after.layout ≡ st.layout)
        × ((j : ℕ)
            → Storage.get_item after j ≡ (
                if Delta.contains (keys d.updated_items) j
                then leaf_of j d.updated_items
                else if Delta.contains d.cleared_items j
                then empty_word
                else Storage.get_item st j))
  unfolding Storage.apply_delta
  apply_delta_lem st d v cleared updates =
      let (mid, cleared_run, c) =
        for_each-setting st (clearing d.cleared_items)
          (IsWritable-clearing st.layout d.cleared_items cleared) in
      let (after, updated_run, u) =
        for_each-setting mid d.updated_items
          (IsWritable-updates mid.layout d.updated_items (rw c.same_layout updates)) in
      (
        after,
        rw (for_each-clearing st d.cleared_items, cleared_run) updated_run,
        u.same_layout ∙ c.same_layout,
        λ j.
            u.reads j
            ∙ after_writes-Distinct (Storage.get_item mid j) j d.updated_items v.updated_distinct
            ∙ ap
                (λ (w : Word).
                  if Delta.contains (keys d.updated_items) j then leaf_of j d.updated_items else w)
                (c.reads j ∙ clearing_reads (Storage.get_item st j) j d.cleared_items),
      )

  -- Whatever a delta does, also where it fails on the way, the storage stays well-formed.
  pub apply_delta-IsWellFormed :
      (st : AccountStorage) (d : AccountStorageDelta)
      → IsStorageDelta d
      → IsWellFormed st
      → IsWellFormed (Storage.apply_delta st d).1
  unfolding Storage.apply_delta
  apply_delta-IsWellFormed st d v w =
      and_then_keeps IsWellFormed
        (for_each (λ t idx. Storage.setting t (idx, empty_word)) d.cleared_items st)
        (for_each Storage.setting d.updated_items)
        (for_each_keeps IsWellFormed (λ i. i < 256) (λ t idx. Storage.setting t (idx, empty_word))
          (λ t i l h. setting-IsWellFormed t i empty_word l h) d.cleared_items st
          (mutable_index d.cleared_items v.cleared_mutable) w)
        (λ t h.
          for_each_keeps IsWellFormed (λ p. p.0 < 256) Storage.setting
            (λ r p l k. setting-IsWellFormed r p.0 p.1 l k) d.updated_items t
            (mutable_updates d.updated_items v.updated_mutable) h)
