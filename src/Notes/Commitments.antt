-- ===== src/Notes/Commitments.antt =====
-- The recipient, the ID and the nullifier of a note, and the note itself
-- (objects/src/notes/recipient.rs, note_id.rs, nullifier.rs, mod.rs). Of a script, which is a
-- program of the assembler, the hash is kept.
pub mod Binding
use restartx.Common.{ℕ, List, ◌++◌, Result, ok, err}
use restartx.Types.{NoteType}
use restartx.Errors.{NoteError}
use restartx.Crypto.{Felt, Word, Digest, Crypto, elements, empty_word}
use restartx.Notes.Metadata
use restartx.Notes.Metadata.{NoteMetadata}
use restartx.Notes.NoteAssets.{NoteAssets}
use restartx.Notes.NoteInputs.{NoteInputs}

pub record NoteScript : Type 0 where
  pub hash : Digest

pub record NoteRecipient : Type 0 where
  pub serial_num : Word
  pub script : NoteScript
  pub inputs : NoteInputs
  pub digest : Digest

pub record Note : Type 0 where
  pub assets : NoteAssets
  pub metadata : NoteMetadata
  pub recipient : NoteRecipient
  pub id : Digest
  pub nullifier : Digest

-- What is published of a note off chain (objects/src/notes/envelope.rs).
pub record NoteEnvelope : Type 0 where
  pub note_id : Digest
  pub note_metadata : NoteMetadata

-- `NoteEnvelope::new`
unfoldable pub new_envelope : Digest → NoteMetadata → Result NoteError NoteEnvelope
new_envelope note_id note_metadata = elim note_metadata.note_type [
  | NoteType.off_chain ↦ ok (record { note_id = note_id; note_metadata = note_metadata })
  | NoteType.encrypted ↦ err (NoteError.invalid_note_type NoteType.encrypted)
  | NoteType.public ↦ err (NoteError.invalid_note_type NoteType.public)
]

module _ ⦃c : Crypto⦄ where
  unfoldable pub compute_recipient_digest : Word → NoteScript → NoteInputs → Digest
  compute_recipient_digest serial_num script inputs =
      let serial_num_hash = c.merge serial_num empty_word in
      let merge_script = c.merge serial_num_hash script.hash in c.merge merge_script inputs.hash

  -- `NoteRecipient::new`
  unfoldable pub new_recipient : Word → NoteScript → NoteInputs → NoteRecipient
  new_recipient serial_num script inputs = record {
    serial_num = serial_num;
    script = script;
    inputs = inputs;
    digest = compute_recipient_digest serial_num script inputs;
  }

  -- `NoteId::new`
  unfoldable pub note_id : Digest → Digest → Digest
  note_id recipient asset_commitment = c.merge recipient asset_commitment

  -- `Nullifier::new`
  unfoldable pub nullifier_of : Digest → Digest → Digest → Word → Digest
  nullifier_of script_hash inputs_hash asset_hash serial_num = c.hash_elements (
      elements serial_num
      ++ (elements script_hash ++ (elements inputs_hash ++ elements asset_hash)))

  -- `Note::new`
  unfoldable pub new : NoteAssets → NoteMetadata → NoteRecipient → Note
  new assets metadata recipient = record {
    assets = assets;
    metadata = metadata;
    recipient = recipient;
    id = note_id recipient.digest assets.hash;
    nullifier =
        nullifier_of recipient.script.hash recipient.inputs.hash assets.hash recipient.serial_num;
  }

  unfoldable pub authentication_hash : Note → Digest
  authentication_hash note = c.merge note.id (Metadata.to_word note.metadata)
