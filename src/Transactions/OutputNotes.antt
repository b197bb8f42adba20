-- ===== src/Transactions/OutputNotes.antt =====
-- The output notes of a transaction (objects/src/transaction/outputs.rs).
pub mod Accepted
use restartx.Common.{
  ℕ, ◌==◌, ltb, Bool, true, false, not, if◌then◌else◌, List, [], ◌∷◌, ◌++◌, length, map,
}
use restartx.Common.{Result, ok, err, panic, ◌>>=◌, ◌>>◌, guard}
use restartx.Crypto.{Felt, Word, Digest, Crypto, elements, empty_word}
use restartx.Errors.{TransactionOutputError}
use restartx.Notes.Metadata
use restartx.Notes.Metadata.{NoteMetadata}
use restartx.Notes.Commitments.{Note, NoteEnvelope}
use restartx.Transactions.Unique.{check_unseen}

-- `MAX_OUTPUT_NOTES_PER_TX`
abbrev pub max_output_notes_per_tx : ℕ
max_output_notes_per_tx = 4096

pub data OutputNote : Type 0 where
  public_note : Note → OutputNote
  private_note : NoteEnvelope → OutputNote

unfoldable pub id : OutputNote → Digest
id (public_note note) = note.id
id (private_note note) = note.note_id

unfoldable pub metadata : OutputNote → NoteMetadata
metadata (public_note note) = note.metadata
metadata (private_note note) = note.note_metadata

pub record OutputNotes : Type 0 where
  pub notes : List OutputNote
  pub commitment : Digest

module _ ⦃c : Crypto⦄ where
  -- The elements that the loop over the notes appends.
  unfoldable pub note_elements : List OutputNote → List Felt
  note_elements [] = []
  note_elements (note ∷ notes) =
      elements (id note) ++ (elements (Metadata.to_word (metadata note)) ++ note_elements notes)

  unfoldable pub build_output_notes_commitment : List OutputNote → Digest
  build_output_notes_commitment notes =
      if length notes == 0 then empty_word else c.hash_elements (note_elements notes)

  -- `OutputNotes::new`
  unfoldable pub new : List OutputNote → Result TransactionOutputError OutputNotes
  new notes = do
    guard (not (ltb max_output_notes_per_tx (length notes)))
        (TransactionOutputError.too_many_output_notes max_output_notes_per_tx (length notes))
    check_unseen TransactionOutputError.duplicate_output_note [] (map id notes)
    ok (record { notes = notes; commitment = build_output_notes_commitment notes })
