-- ===== src/Host/Tracker/Slots.antt =====
-- The storage delta that the tracked slot updates end in.
use restartx.Common.{ℕ, ◌+◌, ◌≤◌, ◌<◌, ◌≡◌, refl, ap, ◌∙◌, arith, true, false, ltb}
use restartx.Common.{if◌then◌else◌, if_cases, ltb_irrefl}
use restartx.Common.{List, [], ◌∷◌, length, any, All, All-map, Distinct, Apart, Apart-cons}
use restartx.Common.{Option, none, some, ok}
use restartx.Common.Maps.{nat_key, BTreeMap, find, insert, IsSorted, find_absent, find-insert}
use restartx.Common.Maps.{insert-IsSorted, All-insert}
use restartx.Crypto.{Word, Crypto, empty_word, word_eq, word_eq_iff}
use restartx.Merkle.{SimpleSmt, Leaves, leaf_of}
use restartx.Accounts.Delta
use restartx.Accounts.Delta.{AccountStorageDelta}
use restartx.Accounts.Delta.Checks.{IsStorageDelta, IsMutable, keys, same_index}
use restartx.Accounts.Storage
use restartx.Accounts.Storage.{AccountStorage}
use restartx.Accounts.Storage.Update.{IsWritable}
use restartx.Accounts.Storage.Apply.{after_writes, apply_delta_lem}
use restartx.Host.Tracker
use restartx.Host.Tracker.{AccountStorageDeltaTracker}

abbrev cleared : BTreeMap ℕ Word → List ℕ
cleared m = (Tracker.storage_delta_of m).cleared_items

abbrev changed : BTreeMap ℕ Word → List ℕ
changed m = keys (Tracker.storage_delta_of m).updated_items

-- What holds of all tracked slots holds of both lists of the delta.
split_All {κ} :
    (P : ℕ → Type κ) (m : BTreeMap ℕ Word)
    → All (λ (q : ℕ × Word). P q.0) m
    → All P (cleared m) × All P (changed m)
unfolding Tracker.storage_delta_of
split_All P [] a = (tt, tt)
split_All P ((i, v) ∷ m) a =
    let (c, u) = split_All P m a.1 in
    if_cases (λ (d : AccountStorageDelta). All P d.cleared_items × All P (keys d.updated_items))
      (word_eq v empty_word) (λ empty. ((a.0, c), u)) (λ full. (c, (a.0, u)))

abbrev IsBelow : (i : ℕ) (xs : List ℕ) → Type 0
IsBelow i xs = All (λ j. ltb i j ≡ true) xs

none_same : (i : ℕ) (xs : List ℕ) → IsBelow i xs → any (λ j. same_index j i) xs ≡ false
none_same i [] a = refl
none_same i (x ∷ xs) a = ground (arith, a.0, none_same i xs a.1)

apart_one : (i : ℕ) (xs : List ℕ) → IsBelow i xs → All (λ j. same_index i j ≡ false) xs
apart_one i xs a = All-map (λ (j : ℕ) (h : ltb i j ≡ true). ltb_irrefl i j h) xs a

record IsSplit (d : AccountStorageDelta) : Type 0 where
  cleared_distinct : Distinct same_index d.cleared_items
  updated_distinct : Distinct same_index (keys d.updated_items)
  disjoint : Apart same_index d.cleared_items (keys d.updated_items)

storage_delta_of-IsSplit : (m : BTreeMap ℕ Word) → IsSorted m → IsSplit (Tracker.storage_delta_of m)
unfolding Tracker.storage_delta_of
storage_delta_of-IsSplit [] s = record {
  cleared_distinct = tt;
  updated_distinct = tt;
  disjoint = tt;
}
storage_delta_of-IsSplit ((i, v) ∷ m) s =
    let w = storage_delta_of-IsSplit m s.1 in
    let (c, u) = split_All (λ j. ltb i j ≡ true) m s.0 in
    if_cases IsSplit (word_eq v empty_word)
      (λ empty. record {
        cleared_distinct = (apart_one i (cleared m) c, w.cleared_distinct);
        updated_distinct = w.updated_distinct;
        disjoint =
            (Apart-cons same_index i (cleared m) (changed m)).1
              (apart_one i (changed m) u, w.disjoint);
      })
      (λ full. record {
        cleared_distinct = w.cleared_distinct;
        updated_distinct = (apart_one i (changed m) u, w.updated_distinct);
        disjoint = (none_same i (cleared m) c, w.disjoint);
      })

-- Both lists together are as long as the map.
pub length-storage_delta_of :
    (m : BTreeMap ℕ Word)
    → length (cleared m) + length (Tracker.storage_delta_of m).updated_items ≡ length m
unfolding Tracker.storage_delta_of
length-storage_delta_of [] = refl
length-storage_delta_of ((i, v) ∷ m) = ground (arith, length-storage_delta_of m)

-- There are at most 255 indices below 255.
length-below :
    (lo : ℕ) (m : BTreeMap ℕ Word)
    → IsSorted m
    → All (λ (q : ℕ × Word). lo ≤ q.0) m
    → All (λ (q : ℕ × Word). q.0 < 255) m
    → lo ≤ 255
    → length m + lo ≤ 255
length-below lo [] s a b h = omega (arith, h)
length-below lo ((i, v) ∷ m) s a b h =
    let above : All (λ (q : ℕ × Word). i + 1 ≤ q.0) m =
      All-map (λ (q : ℕ × Word) (k : ltb i q.0 ≡ true). ground (arith, k)) m s.0 in
    let rest : length m + (i + 1) ≤ 255 =
      length-below (i + 1) m s.1 above b.1 (omega (arith, b.0)) in
    omega (arith, rest, a.0)

-- Updates of slots below 255 make a delta that its check accepts.
pub storage_delta_of-IsStorageDelta :
    (m : BTreeMap ℕ Word)
    → IsSorted m
    → All (λ (q : ℕ × Word). q.0 < 255) m
    → IsStorageDelta (Tracker.storage_delta_of m)
storage_delta_of-IsStorageDelta m s b =
    let w = storage_delta_of-IsSplit m s in
    let (c, u) = split_All (λ i. i < 255) m b in
    let all_zero : All (λ (q : ℕ × Word). 0 ≤ q.0) m =
      All-map (λ (q : ℕ × Word) (k : q.0 < 255). omega arith) m b in
    let few : length m + 0 ≤ 255 = length-below 0 m s all_zero b (omega arith) in
    let both = length-storage_delta_of m in
    record {
      few_cleared = omega (arith, few, both);
      few_updated = omega (arith, few, both);
      cleared_mutable = c;
      updated_mutable = u;
      cleared_distinct = w.cleared_distinct;
      updated_distinct = w.updated_distinct;
      disjoint = w.disjoint;
    }

abbrev or_else : Word → Option Word → Word
or_else old none = old
or_else old (some v) = v

-- What the delta says of a slot.
abbrev said : ℕ → AccountStorageDelta → Option Word
said j d =
    if Delta.contains (keys d.updated_items) j
    then some (leaf_of j d.updated_items)
    else if Delta.contains d.cleared_items j
    then some empty_word
    else none

or_else-said :
    (old : Word) (j : ℕ) (d : AccountStorageDelta)
    → (if Delta.contains (keys d.updated_items) j
        then leaf_of j d.updated_items
        else if Delta.contains d.cleared_items j
        then empty_word
        else old)
      ≡ or_else old (said j d)
or_else-said old j d = ground arith

said-storage_delta_of :
    (m : BTreeMap ℕ Word) (j : ℕ) → IsSorted m → said j (Tracker.storage_delta_of m) ≡ find j m
unfolding Tracker.storage_delta_of
said-storage_delta_of [] j s = refl
said-storage_delta_of ((i, v) ∷ m) j s =
    let later = said-storage_delta_of m j s.1 in
    ground (arith, later, find_absent i j m s.0, word_eq_iff v empty_word)

-- The tracked updates, one after the other.
abbrev pub tracked_slots : BTreeMap ℕ Word → Leaves → BTreeMap ℕ Word
tracked_slots m [] = m
tracked_slots m ((i, v) ∷ us) =
    tracked_slots (Tracker.slot_update (record { slot_updates = m }) i v).slot_updates us

tracked_slots-IsSorted :
    (m : BTreeMap ℕ Word) (us : Leaves) → IsSorted m → IsSorted (tracked_slots m us)
unfolding Tracker.slot_update
tracked_slots-IsSorted m [] s = s
tracked_slots-IsSorted m ((i, v) ∷ us) s =
    tracked_slots-IsSorted (insert i v m) us (insert-IsSorted i v m s)

tracked_slots-All {κ} :
    (P : ℕ → Type κ) (m : BTreeMap ℕ Word) (us : Leaves)
    → All P (keys us)
    → All (λ (q : ℕ × Word). P q.0) m
    → All (λ (q : ℕ × Word). P q.0) (tracked_slots m us)
unfolding Tracker.slot_update
tracked_slots-All P m [] p a = a
tracked_slots-All P m ((i, v) ∷ us) p a =
    tracked_slots-All P (insert i v m) us p.1 (All-insert P i v m p.0 a)

find-tracked_slots :
    (old : Word) (j : ℕ) (m : BTreeMap ℕ Word) (us : Leaves)
    → or_else old (find j (tracked_slots m us)) ≡ after_writes (or_else old (find j m)) j us
unfolding Tracker.slot_update
find-tracked_slots old j m [] = refl
find-tracked_slots old j m ((i, v) ∷ us) =
    find-tracked_slots old j (insert i v m) us
    ∙ ap (λ (w : Word). after_writes w j us) (ground (arith, find-insert i j v m))

module _ ⦃c : Crypto⦄ ⦃s : SimpleSmt⦄ where
  -- The delta of tracked updates of slots below 255, whose types are values of arity 0, is
  -- applied to storage without an error, and leaves what the updates leave that are written into
  -- it one after the other.
  pub apply_delta-tracked_slots :
      (st : AccountStorage) (us : Leaves)
      → IsMutable (keys us)
      → All (IsWritable st.layout) (keys us)
      → (after : AccountStorage) × (Storage.apply_delta st
            (Tracker.storage_delta_of (tracked_slots [] us))
          ≡ (ok tt, after))
        × (after.layout ≡ st.layout)
        × ((j : ℕ) → Storage.get_item after j ≡ after_writes (Storage.get_item st j) j us)
  apply_delta-tracked_slots st us mutable writable =
      let m = tracked_slots [] us in
      let sorted = tracked_slots-IsSorted [] us tt in
      let (cw, uw) =
        split_All (IsWritable st.layout) m
          (tracked_slots-All (IsWritable st.layout) [] us writable tt) in
      let (after, run, same, reads) =
        apply_delta_lem st (Tracker.storage_delta_of m)
          (storage_delta_of-IsStorageDelta m sorted
            (tracked_slots-All (λ i. i < 255) [] us mutable tt))
          cw uw in
      (
        after,
        run,
        same,
        λ j.
            let old = Storage.get_item st j in
            reads j
            ∙ or_else-said old j (Tracker.storage_delta_of m)
            ∙ ap (or_else old) (said-storage_delta_of m j sorted)
            ∙ find-tracked_slots old j [] us,
      )
