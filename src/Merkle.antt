-- ===== src/Merkle.antt =====
-- The sparse Merkle trees of miden-crypto, as far as the code uses them: `Smt`, a map from words
-- to words that stands for the vault, by its operations and what their documentation says.
-- A key that was never written holds `EMPTY_VALUE`, the zero word, and so does an erased one.
use restartx.Common.{
  ℕ, ◌+◌, ◌^◌, ◌<◌, ◌==◌, All, ◌≡◌, Bool, true, false, ◌||◌, if◌then◌else◌, Option, none, some,
  List, [], ◌∷◌, any,
}
use restartx.Crypto.{Word, Digest, empty_word, word_eq}

abbrev pub Entries : Type 0
Entries = List (Word × Word)

-- Two entries share a key.
abbrev pub has_duplicate : Entries → Bool
has_duplicate [] = false
has_duplicate ((k, v) ∷ kvs) = any (λ e. word_eq e.0 k) kvs || has_duplicate kvs

-- The value of the first entry with a key.
abbrev pub value_of : Word → Entries → Word
value_of j [] = empty_word
value_of j ((k, v) ∷ kvs) = if word_eq k j then v else value_of j kvs

pub record Smt : Type 1 where
  pub Tree : Type 0
  pub new : Tree
  pub root : Tree → Digest
  pub get_value : Tree → Word → Word
  -- The value that the key had, and the tree after the write.
  pub insert : Tree → Word → Word → Word × Tree
  -- `none` is the error for a repeated key.
  pub with_entries : Entries → Option Tree
  pub get_value-new : (k : Word) → get_value new k ≡ empty_word
  pub insert_old : (t : Tree) (k v : Word) → (insert t k v).0 ≡ get_value t k
  pub get_value-insert :
      (t : Tree) (k v j : Word)
      → get_value (insert t k v).1 j ≡ (if word_eq k j then v else get_value t j)
  pub with_entries_duplicate : (kvs : Entries) → has_duplicate kvs ≡ true → with_entries kvs ≡ none
  pub with_entries_some :
      (kvs : Entries) → has_duplicate kvs ≡ false → (t : Tree) × (with_entries kvs ≡ some t)
  pub get_value-with_entries :
      (kvs : Entries) (t : Tree) (k : Word)
      → with_entries kvs ≡ some t
      → get_value t k ≡ value_of k kvs

-- `SimpleSmt<8>`, which stands for the storage of an account: a word at each index below 256.
abbrev pub Leaves : Type 0
Leaves = List (ℕ × Word)

-- Two entries share an index.
abbrev pub has_repeated : Leaves → Bool
has_repeated [] = false
has_repeated ((i, v) ∷ ls) = any (λ e. e.0 == i) ls || has_repeated ls

-- The value of the first entry with an index.
abbrev pub leaf_of : ℕ → Leaves → Word
leaf_of j [] = empty_word
leaf_of j ((i, v) ∷ ls) = if i == j then v else leaf_of j ls

-- The indices of the entries exist.
abbrev pub HasIndices : Leaves → Type 0
HasIndices ls = All (λ e. e.0 < 256) ls

pub record SimpleSmt : Type 1 where
  pub SlotTree : Type 0
  pub slot_root : SlotTree → Digest
  -- `get_node` at the depth of the leaves
  pub get_leaf : SlotTree → ℕ → Word
  -- The value that the leaf had, and the tree after the write.
  pub insert_leaf : SlotTree → ℕ → Word → Word × SlotTree
  -- `none` is the error for an index that does not exist or is repeated.
  pub with_leaves : Leaves → Option SlotTree
  pub insert_leaf_old : (t : SlotTree) (i : ℕ) (v : Word) → (insert_leaf t i v).0 ≡ get_leaf t i
  pub get_leaf-insert_leaf :
      (t : SlotTree) (i : ℕ) (v : Word) (j : ℕ)
      → get_leaf (insert_leaf t i v).1 j ≡ (if i == j then v else get_leaf t j)
  pub with_leaves_repeated : (ls : Leaves) → has_repeated ls ≡ true → with_leaves ls ≡ none
  pub with_leaves_some :
      (ls : Leaves)
      → HasIndices ls
      → has_repeated ls ≡ false
      → (t : SlotTree) × (with_leaves ls ≡ some t)
  pub get_leaf-with_leaves :
      (ls : Leaves) (t : SlotTree) (j : ℕ) → with_leaves ls ≡ some t → get_leaf t j ≡ leaf_of j ls

-- Merkle paths, and the indices of nodes.
pub record MerklePaths : Type 1 where
  pub MerklePath : Type 0
  -- index of the leaf, its value, and the root
  pub verify : MerklePath → ℕ → Digest → Digest → Bool
  -- `MerklePath::inner_nodes`, of the index and the leaf: the nodes, or an error
  pub InnerNodes : Type 0
  pub inner_nodes : MerklePath → ℕ → Digest → Option InnerNodes
  pub NodeIndex : Type 0
  -- `NodeIndex::new`, of a depth and a value
  pub index_of : ℕ → ℕ → Option NodeIndex
  pub index_value : NodeIndex → ℕ
  pub index_of_small : (depth v : ℕ) → v < 2 ^ depth → (i : NodeIndex) × (index_of depth v ≡ some i)
  pub index_value-index_of :
      (depth v : ℕ) (i : NodeIndex)
      → index_of depth v ≡ some i
      → (index_value i ≡ v) × (v < 2 ^ depth)

-- Partial Merkle mountain ranges: `PartialMmr`.
pub record Mmr : Type 1 where
  pub PartialMmr : Type 0
  -- the number of leaves
  pub forest : PartialMmr → ℕ
  pub is_tracked : PartialMmr → ℕ → Bool
  -- `peaks().hash_peaks()`
  pub hash_peaks : PartialMmr → Digest
  pub add : PartialMmr → Digest → Bool → PartialMmr
  pub forest-add :
      (m : PartialMmr) (leaf : Digest) (track : Bool) → forest (add m leaf track) ≡ forest m + 1
  pub is_tracked-add :
      (m : PartialMmr) (leaf : Digest) (track : Bool) (i : ℕ)
      → is_tracked m i ≡ true
      → is_tracked (add m leaf track) i ≡ true
