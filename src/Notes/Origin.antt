-- ===== src/Notes/Origin.antt =====
-- The origin of a note, and the proof that it is in its block (objects/src/notes/origin.rs).
use restartx.Common.{ℕ, Result, ok, ◌>>=◌, ok_or}
use restartx.Crypto.{Digest}
use restartx.Merkle.{MerklePaths}
use restartx.Errors.{NoteError}

abbrev pub note_tree_depth : ℕ
note_tree_depth = 20

module _ ⦃p : MerklePaths⦄ where
  pub record NoteOrigin : Type 0 where
    pub block_num : ℕ
    pub node_index : p.NodeIndex

  pub record NoteInclusionProof : Type 0 where
    pub origin : NoteOrigin
    pub sub_hash : Digest
    pub note_root : Digest
    pub note_path : p.MerklePath

  -- `NoteInclusionProof::new`
  unfoldable pub new_proof :
      ℕ → Digest → Digest → ℕ → p.MerklePath → Result NoteError NoteInclusionProof
  new_proof block_num sub_hash note_root index note_path = do
    node_index ← ok_or (p.index_of note_tree_depth index) NoteError.invalid_origin_index
    ok (record {
      origin = record { block_num = block_num; node_index = node_index };
      sub_hash = sub_hash;
      note_root = note_root;
      note_path = note_path;
    })
