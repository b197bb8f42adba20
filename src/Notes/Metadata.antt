-- ===== src/Notes/Metadata.antt =====
-- The metadata of a note (objects/src/notes/metadata.rs).
pub mod RoundTrip
use restartx.Common.{ℕ, ◌^◌, ltb, Result, ok, err, panic, ◌>>=◌, ◌>>◌, guard, map_err}
use restartx.Crypto.{Felt, Word, Crypto}
use restartx.Types.{AccountId, NoteType}
use restartx.Errors.{NoteError}
use restartx.Accounts.Id
use restartx.Notes.Tag
use restartx.Notes.Tag.{NoteTag}

pub record NoteMetadata : Type 0 where
  pub sender : AccountId
  pub note_type : NoteType
  pub tag : NoteTag
  pub aux : Felt

unfoldable pub new : AccountId → NoteType → NoteTag → Felt → Result NoteError NoteMetadata
new sender note_type tag aux = do
  tag ← Tag.validate tag note_type
  ok (record { sender = sender; note_type = note_type; tag = tag; aux = aux })

-- `NoteMetadata::try_from(Word)`
unfoldable pub try_from_word : Word → Result NoteError NoteMetadata
try_from_word elements = do
  sender ← map_err NoteError.invalid_note_sender (Id.try_from_felt elements.e1)
  note_type ← Tag.note_type_of_u64 elements.e2
  guard (ltb elements.e0 (2 ^ 32)) (NoteError.inconsistent_note_tag note_type elements.e0)
  new sender note_type (record { inner = elements.e0 }) elements.e3

module _ ⦃c : Crypto⦄ where
  -- `Word::from(NoteMetadata)`
  unfoldable pub to_word : NoteMetadata → Word
  to_word metadata = record {
    e0 = metadata.tag.inner;
    e1 = metadata.sender.felt;
    e2 = Tag.note_type_felt metadata.note_type;
    e3 = metadata.aux;
  }
