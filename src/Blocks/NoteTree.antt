-- ===== src/Blocks/NoteTree.antt =====
-- The tree of the notes of a block (objects/src/block/note_tree.rs) and of a batch
-- (objects/src/batches/note_tree.rs), as the leaves that are written into a `SimpleSmt`.
use restartx.Common.{ℕ, ◌+◌, ◌*◌, ◌^◌, ◌/◌, ◌<◌, ◌≡◌, arith}
use restartx.Common.{List, [], ◌∷◌, All, Pairwise}
use restartx.Crypto.{Digest, Crypto}
use restartx.Merkle.{Leaves, leaf_of}
use restartx.Notes.Metadata
use restartx.Notes.Metadata.{NoteMetadata}

abbrev pub batch_output_notes_tree_depth : ℕ
batch_output_notes_tree_depth = 13

abbrev pub max_notes_per_batch : ℕ
max_notes_per_batch = 2 ^ 12

abbrev pub block_output_notes_batch_tree_depth : ℕ
block_output_notes_batch_tree_depth = 8

abbrev pub block_output_notes_tree_depth : ℕ
block_output_notes_tree_depth = batch_output_notes_tree_depth + block_output_notes_batch_tree_depth

abbrev pub max_batches_per_block : ℕ
max_batches_per_block = 2 ^ 8

unfoldable pub note_index : ℕ → ℕ → ℕ
note_index batch_idx note_idx_in_batch = batch_idx * max_notes_per_batch + note_idx_in_batch

unfoldable pub leaf_index : ℕ → ℕ → ℕ
leaf_index batch_idx note_idx_in_batch = note_index batch_idx note_idx_in_batch * 2

-- A note of a block: the index of its batch, its index there, its ID and its metadata.
pub record NoteEntry : Type 0 where
  pub batch_index : ℕ
  pub note_index : ℕ
  pub note_id : Digest
  pub metadata : NoteMetadata

module _ ⦃c : Crypto⦄ where
  -- The leaves of `BlockNoteTree::with_entries`
  unfoldable pub interleaved : List NoteEntry → Leaves
  interleaved [] = []
  interleaved (e ∷ es) =
      let id_index = leaf_index e.batch_index e.note_index in
      (id_index, e.note_id) ∷ (id_index + 1, Metadata.to_word e.metadata) ∷ interleaved es

  -- The leaves of `BatchNoteTree::with_contiguous_leaves`, from an index on.
  unfoldable pub contiguous : ℕ → List (Digest × NoteMetadata) → Leaves
  contiguous i [] = []
  contiguous i ((note_id, metadata) ∷ es) =
      (i, note_id) ∷ (i + 1, Metadata.to_word metadata) ∷ contiguous (i + 2) es

-- The leaves of the notes that fit into a block are leaves of the tree, and the parent of a
-- note's leaves has the index that its origin has.
pub leaf_index-bounds :
    (batch note : ℕ)
    → batch < max_batches_per_block
    → note < max_notes_per_batch
    → (leaf_index batch note + 1 < 2 ^ block_output_notes_tree_depth)
      × (note_index batch note < 2 ^ 20)
      × (leaf_index batch note / 2 ≡ note_index batch note)
      × ((leaf_index batch note + 1) / 2 ≡ note_index batch note)
unfolding leaf_index note_index
leaf_index-bounds batch note b n =
    (omega (arith, b, n), omega (arith, b, n), omega arith, omega arith)

-- Distinct notes of a block have distinct leaves.
pub leaf_index-injective :
    (batch note batch' note' : ℕ)
    → note < max_notes_per_batch
    → note' < max_notes_per_batch
    → leaf_index batch note ≡ leaf_index batch' note'
    → (batch ≡ batch') × (note ≡ note')
unfolding leaf_index note_index
leaf_index-injective batch note batch' note' n n' h =
    (omega (arith, n, n', h), omega (arith, n, n', h))

leaf_index-even : (batch note : ℕ) → leaf_index batch note ≡ 2 * note_index batch note
unfolding leaf_index
leaf_index-even batch note = omega arith

-- The two entries have different positions.
abbrev pub IsElsewhere : NoteEntry → NoteEntry → Type 0
IsElsewhere d e = ((d.batch_index ≡ e.batch_index) × (d.note_index ≡ e.note_index)) → ⊥

abbrev pub IsInBlock : NoteEntry → Type 0
IsInBlock e = (e.batch_index < max_batches_per_block) × (e.note_index < max_notes_per_batch)

module _ ⦃c : Crypto⦄ where
  -- The leaves of a note hold its ID and its metadata.
  abbrev pub HoldsNote : Leaves → NoteEntry → Type 0
  HoldsNote ls e =
      (leaf_of (leaf_index e.batch_index e.note_index) ls ≡ e.note_id)
      × (leaf_of (leaf_index e.batch_index e.note_index + 1) ls ≡ Metadata.to_word e.metadata)

  skip_entry :
      (d e : NoteEntry) (ls : Leaves)
      → IsElsewhere d e
      → d.note_index < max_notes_per_batch
      → e.note_index < max_notes_per_batch
      → HoldsNote ls e
      → HoldsNote
          ((leaf_index d.batch_index d.note_index, d.note_id)
            ∷ (leaf_index d.batch_index d.note_index + 1, Metadata.to_word d.metadata)
            ∷ ls)
          e
  skip_entry d e ls other n m h =
      let apart : leaf_index d.batch_index d.note_index ≡ leaf_index e.batch_index e.note_index
          → ⊥ =
        λ same.
          other
            (leaf_index-injective d.batch_index d.note_index e.batch_index e.note_index n m same) in
      ground (
        arith,
        h,
        apart,
        leaf_index-even d.batch_index d.note_index,
        leaf_index-even e.batch_index e.note_index,
      )

  skip_rest :
      (d : NoteEntry) (es : List NoteEntry) (ls : Leaves)
      → IsInBlock d
      → All IsInBlock es
      → All (IsElsewhere d) es
      → All (HoldsNote ls) es
      → All
          (HoldsNote (
            (leaf_index d.batch_index d.note_index, d.note_id)
            ∷ (leaf_index d.batch_index d.note_index + 1, Metadata.to_word d.metadata)
            ∷ ls))
          es
  skip_rest d [] ls b bs other h = tt
  skip_rest d (e ∷ es) ls b bs other h =
      (skip_entry d e ls other.0 b.1 bs.0.1 h.0, skip_rest d es ls b bs.1 other.1 h.1)

  -- The leaves that are written for the notes of a block, at different positions, hold each note.
  pub interleaved-HoldsNote :
      (es : List NoteEntry)
      → All IsInBlock es
      → Pairwise IsElsewhere es
      → All (HoldsNote (interleaved es)) es
  unfolding interleaved
  interleaved-HoldsNote [] b p = tt
  interleaved-HoldsNote (e ∷ es) b p =
      let rest = interleaved-HoldsNote es b.1 p.1 in
      let id_index = leaf_index e.batch_index e.note_index in
      (ground arith, skip_rest e es (interleaved es) b.0 b.1 p.0 rest)
