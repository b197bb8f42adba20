-- ===== src/Streams/Notes/Whole.antt =====
-- What is written of a note is read back.
use restartx.Common.{◌<◌, ◌≡◌, refl, ◌∙◌, arith, ◌++◌, length}
use restartx.Crypto.{Crypto, IsWord}
use restartx.Notes.Commitments
use restartx.Notes.Commitments.{NoteRecipient, Note}
use restartx.Streams.{Streams, ReadsBack, back_first}
use restartx.Streams.Parts
use restartx.Streams.Parts.Back.{metadata_back, IsMetadata}
use restartx.Streams.Notes
use restartx.Streams.Notes.Back.{
  WritesBack, IsNoteAssets, IsNoteInputs, assets_back, inputs_back, script_back,
}

module _ ⦃c : Crypto⦄ where
  -- A recipient as the constructor makes it from parts in the range of their types.
  pub record IsRecipient (r : NoteRecipient) : Type 0 where
    pub script : IsWord r.script.hash
    pub inputs : IsNoteInputs r.inputs
    pub serial_num : IsWord r.serial_num
    pub made : Commitments.new_recipient r.serial_num r.script r.inputs ≡ r

  -- A note as the constructor makes it, of at most 255 assets.
  pub record IsNote (n : Note) : Type 0 where
    pub assets : IsNoteAssets n.assets
    pub few : length n.assets.assets < 256
    pub metadata : IsMetadata n.metadata
    pub recipient : IsRecipient n.recipient
    pub made : Commitments.new n.assets n.metadata n.recipient ≡ n

module _ ⦃c : Crypto⦄ ⦃s : Streams⦄ where
  recipient_back :
      (r : NoteRecipient)
      → IsRecipient r
      → WritesBack Notes.read_recipient (Notes.write_recipient r) r
  unfolding Notes.read_recipient Notes.write_recipient
  recipient_back r v =
      let i = inputs_back r.inputs v.inputs in
      let serial = s.write_word r.serial_num in
      record {
        bytes = Notes.write_script r.script ++ (i.bytes ++ serial);
        succeeds = rw i.succeeds refl;
        back = λ rest.
            rw
              (
                back_first Notes.read_script (Notes.write_script r.script) r.script
                    (i.bytes ++ serial) rest (script_back r.script v.script),
                back_first Notes.read_inputs i.bytes r.inputs serial rest i.back,
                s.word_back r.serial_num v.serial_num rest,
                v.made,
              )
              refl;
      }

  -- A note of at most 255 assets, as the constructor makes it, is written without a panic and is
  -- read back, whatever stands behind it.
  pub note_back : (n : Note) → IsNote n → WritesBack Notes.read_note (Notes.write_note n) n
  unfolding Notes.read_note Notes.write_note
  note_back n v =
      let r = recipient_back n.recipient v.recipient in
      let metadata = Parts.write_metadata n.metadata in
      let assets : ReadsBack Notes.read_assets (Notes.write_assets n.assets) n.assets =
        λ rest. assets_back n.assets rest v.assets ∙ ground (arith, v.few) in
      record {
        bytes = Notes.write_assets n.assets ++ (metadata ++ r.bytes);
        succeeds = rw r.succeeds refl;
        back = λ rest.
            rw
              (
                back_first Notes.read_assets (Notes.write_assets n.assets) n.assets
                    (metadata ++ r.bytes) rest assets,
                back_first Parts.read_metadata metadata n.metadata r.bytes rest
                    (metadata_back n.metadata v.metadata),
                r.back rest,
                v.made,
              )
              refl;
      }
