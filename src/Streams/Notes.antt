-- ===== src/Streams/Notes.antt =====
-- Streams of notes (objects/src/notes/assets.rs, inputs.rs, script.rs, recipient.rs, envelope.rs,
-- mod.rs), in a release build: the sum and the difference of lengths wrap around.
pub mod Back
pub mod Whole
use restartx.Common.{ℕ, ◌+◌, ◌%◌, ◌^◌, ltb, if◌then◌else◌, List, [], ◌∷◌, ◌++◌, length}
use restartx.Common.{Result, ok, err, panic, ◌>>=◌}
use restartx.Crypto.{Felt, Word, Digest, Crypto}
use restartx.Notes.NoteAssets
use restartx.Notes.NoteAssets.{NoteAssets}
use restartx.Notes.NoteInputs
use restartx.Notes.NoteInputs.{NoteInputs}
use restartx.Notes.Commitments
use restartx.Notes.Commitments.{NoteScript, NoteRecipient, NoteEnvelope, Note}
use restartx.Notes.Script.{DeserializationError}
use restartx.Streams.{Streams, Reader, or_invalid, write_many, read_many}
use restartx.Streams.Parts

module _ ⦃s : Streams⦄ where
  -- `(self.assets.len() - 1) as u8`
  unfoldable pub write_assets : NoteAssets → List ℕ
  write_assets a =
      s.write_int 1 ((length a.assets + 255) % 2 ^ 8) ++ write_many Parts.write_asset a.assets

  -- `source.read_u8()? + 1`
  unfoldable pub read_assets : ⦃c : Crypto⦄ → Reader NoteAssets
  read_assets bytes = do
    (count, bytes) ← s.read_int 1 bytes
    (assets, rest) ← read_many Parts.read_asset ((count + 1) % 2 ^ 8) bytes
    made ← or_invalid (NoteAssets.new assets)
    ok (made, rest)

  -- A count that is no `u8` is a panic (`expect`).
  unfoldable pub write_inputs : NoteInputs → Result ⊥ (List ℕ)
  write_inputs i =
      if ltb (length i.values) (2 ^ 8)
      then ok (s.write_int 1 (length i.values) ++ write_many s.write_felt i.values)
      else panic

  unfoldable pub read_inputs : ⦃c : Crypto⦄ → Reader NoteInputs
  read_inputs bytes = do
    (num_values, bytes) ← s.read_int 1 bytes
    (values, rest) ← read_many s.read_felt num_values bytes
    made ← or_invalid (NoteInputs.new values)
    ok (made, rest)

  unfoldable pub write_script : NoteScript → List ℕ
  write_script script = s.write_word script.hash ++ s.write_code script

  unfoldable pub read_script : Reader NoteScript
  read_script bytes = do
    (hash, bytes) ← s.read_word bytes
    (code, rest) ← s.read_code bytes
    ok (record { hash = hash }, rest)

  unfoldable pub write_recipient : NoteRecipient → Result ⊥ (List ℕ)
  write_recipient r = do
    inputs ← write_inputs r.inputs
    ok (write_script r.script ++ (inputs ++ s.write_word r.serial_num))

  unfoldable pub read_recipient : ⦃c : Crypto⦄ → Reader NoteRecipient
  read_recipient bytes = do
    (script, bytes) ← read_script bytes
    (inputs, bytes) ← read_inputs bytes
    (serial_num, rest) ← s.read_word bytes
    ok (Commitments.new_recipient serial_num script inputs, rest)

  unfoldable pub write_envelope : NoteEnvelope → List ℕ
  write_envelope e = s.write_word e.note_id ++ Parts.write_metadata e.note_metadata

  unfoldable pub read_envelope : Reader NoteEnvelope
  read_envelope bytes = do
    (note_id, bytes) ← s.read_word bytes
    (note_metadata, rest) ← Parts.read_metadata bytes
    ok (record { note_id = note_id; note_metadata = note_metadata }, rest)

  unfoldable pub write_note : Note → Result ⊥ (List ℕ)
  write_note n = do
    recipient ← write_recipient n.recipient
    ok (write_assets n.assets ++ (Parts.write_metadata n.metadata ++ recipient))

  unfoldable pub read_note : ⦃c : Crypto⦄ → Reader Note
  read_note bytes = do
    (assets, bytes) ← read_assets bytes
    (metadata, bytes) ← Parts.read_metadata bytes
    (recipient, rest) ← read_recipient bytes
    ok (Commitments.new assets metadata recipient, rest)
