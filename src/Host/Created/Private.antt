-- ===== src/Host/Created/Private.antt =====
-- The notes that are not public.
use restartx.Common.{◌^◌, ◌<◌, ◌≡◌, refl, arith, false}
use restartx.Common.{[], ◌∷◌, some, Result, ok, panic}
use restartx.Crypto.{Digest, Crypto}
use restartx.Types.{AccountId, Asset, NoteType}
use restartx.Accounts.Id
use restartx.Assets.Value
use restartx.Notes.Tag
use restartx.Notes.Metadata
use restartx.Notes.Metadata.{NoteMetadata}
use restartx.Notes.NoteAssets
use restartx.Notes.NoteAssets.{NoteAssets}
use restartx.Notes.Commitments
use restartx.Notes.Script.{Assembler}
use restartx.Transactions.OutputNotes.{OutputNote, private_note}
use restartx.Host.Created
use restartx.Host.Created.{stack_word}
use restartx.Host.Events.{TransactionKernelError}
use restartx.Host.Procedures.{AdviceProvider, Process}

-- The envelope that a host makes of a note off chain, and the panic for an encrypted one.
abbrev pub envelope_or_panic :
    NoteType → Digest → NoteMetadata → Result TransactionKernelError OutputNote
envelope_or_panic NoteType.off_chain id metadata =
    ok (private_note (record { note_id = id; note_metadata = metadata }))
envelope_or_panic NoteType.encrypted id metadata = panic
envelope_or_panic NoteType.public id metadata = panic

module _ ⦃c : Crypto⦄ ⦃s : Assembler⦄ ⦃a : AdviceProvider⦄ where
  -- A stack with a note that is not public, a valid sender, a tag that fits, and an asset: for a
  -- note off chain the host makes the envelope with the note's ID and metadata, and for an
  -- encrypted note it panics.
  pub note_of-private :
      (adv : a.Provider) (process : Process) (note_type : NoteType) (sender : AccountId)
      (asset : Asset)
      → Created.is_public note_type ≡ false
      → Tag.note_type_of_u64 (process.get_stack_item 1) ≡ ok note_type
      → Id.try_from_felt (process.get_stack_item 2) ≡ ok sender
      → process.get_stack_item 3 < 2 ^ 32
      → Tag.validate (record { inner = process.get_stack_item 3 }) note_type
        ≡ ok (record { inner = process.get_stack_item 3 })
      → Value.try_from_word (stack_word process 8 7 6 5) ≡ ok asset
      → Created.note_of adv process
        ≡ envelope_or_panic note_type
            (Commitments.note_id
              (stack_word process 12 11 10 9)
              (NoteAssets.compute_asset_commitment (asset ∷ [])))
            (record {
              sender = sender;
              note_type = note_type;
              tag = record { inner = process.get_stack_item 3 };
              aux = process.get_stack_item 0;
            })
  unfolding Created.note_of Tag.tag_of_felt NoteAssets.new NoteAssets.check_unique Metadata.new
      Created.private_note_of Commitments.new_envelope
  note_of-private adv process NoteType.off_chain sender asset hidden kind from small fits word =
      let tag : Tag.tag_of_felt (process.get_stack_item 3)
          ≡ some (record { inner = process.get_stack_item 3 }) =
        ground (arith, small) in
      rw (kind, from, tag, word, fits) refl
  note_of-private adv process NoteType.encrypted sender asset hidden kind from small fits word =
      let tag : Tag.tag_of_felt (process.get_stack_item 3)
          ≡ some (record { inner = process.get_stack_item 3 }) =
        ground (arith, small) in
      rw (kind, from, tag, word, fits) refl
  note_of-private adv process NoteType.public sender asset hidden kind from small fits word = cc
