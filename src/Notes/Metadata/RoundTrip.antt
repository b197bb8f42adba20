-- ===== src/Notes/Metadata/RoundTrip.antt =====
-- The metadata of a note as a word, and back.
use restartx.Common.{◌≡◌, arith}
use restartx.Common.{ok}
use restartx.Crypto.{Felt, Word, Crypto}
use restartx.Types.{AccountId, NoteType}
use restartx.Accounts.Id
use restartx.Accounts.Id.Fields.{try_from_felt_iff}
use restartx.Notes.Tag
use restartx.Notes.Tag.{NoteTag}
use restartx.Notes.Tag.Rules.{IsTag}
use restartx.Notes.Metadata
use restartx.Notes.Metadata.{NoteMetadata}

module _ ⦃c : Crypto⦄ where
  note_type_felt_lem : (n : NoteType) → Tag.note_type_felt n ≡ Tag.note_type_code n
  unfolding Tag.note_type_felt
  note_type_felt_lem n = c.felt_new_of_lt (Tag.note_type_code n) (ground arith)

  note_type_of_u64-felt : (n : NoteType) → Tag.note_type_of_u64 (Tag.note_type_felt n) ≡ ok n
  unfolding Tag.note_type_of_u64 Tag.note_type_of_u8
  note_type_of_u64-felt n = ground (arith, note_type_felt_lem n)

  -- The metadata that the constructor makes for a valid sender is read back from its word.
  pub metadata-to_word :
      (sender : AccountId) (n : NoteType) (tag : NoteTag) (aux : Felt) (m : NoteMetadata)
      → Id.try_from_felt sender.felt ≡ ok sender
      → IsTag tag
      → Metadata.new sender n tag aux ≡ ok m
      → Metadata.try_from_word (Metadata.to_word m) ≡ ok m
  unfolding Metadata.try_from_word Metadata.to_word Metadata.new Tag.validate
  metadata-to_word sender n tag aux m s l h = ground (arith, note_type_of_u64-felt n)

  -- What is read from a word is the metadata with that word.
  pub metadata-try_from_word :
      (w : Word) (m : NoteMetadata) → Metadata.try_from_word w ≡ ok m → Metadata.to_word m ≡ w
  unfolding Metadata.try_from_word Metadata.to_word Metadata.new Tag.validate Tag.note_type_of_u64
      Tag.note_type_of_u8
  metadata-try_from_word w m h =
      ground (arith, note_type_felt_lem m.note_type, try_from_felt_iff w.e1 m.sender)
