-- ===== src/Host/Created.antt =====
-- The note that a `NoteCreated` event describes (`on_note_created` in miden-tx/src/host/mod.rs).
pub mod Private
use restartx.Common.{ℕ, Bool, true, false, if◌then◌else◌, List, [], ◌∷◌, Option, none, some}
use restartx.Common.{Result, ok, err, panic, ◌>>=◌, ◌>>◌, map_err, unwrap, ok_or}
use restartx.Crypto.{Felt, Word, Digest, Crypto}
use restartx.Types.{AccountId, NoteType}
use restartx.Accounts.Id
use restartx.Assets.Value
use restartx.Notes.Tag
use restartx.Notes.Metadata
use restartx.Notes.Metadata.{NoteMetadata}
use restartx.Notes.NoteAssets
use restartx.Notes.NoteAssets.{NoteAssets}
use restartx.Notes.NoteInputs
use restartx.Notes.Script
use restartx.Notes.Script.{Assembler}
use restartx.Notes.Commitments
use restartx.Transactions.OutputNotes.{OutputNote, public_note, private_note}
use restartx.Host.Events.{TransactionKernelError}
use restartx.Host.Procedures.{AdviceProvider, Process}

-- The words and digests of stack items and of advice data.
abbrev pub stack_word : Process → ℕ → ℕ → ℕ → ℕ → Word
stack_word p a b c d = record {
  e0 = p.get_stack_item a;
  e1 = p.get_stack_item b;
  e2 = p.get_stack_item c;
  e3 = p.get_stack_item d;
}

-- The data behind a public note's recipient: the inputs' hash, the script's hash and the serial
-- number, which are there if there are twelve elements.
unfoldable pub recipient_data : List Felt → Result TransactionKernelError (Digest × Digest × Word)
recipient_data (a0 ∷ a1 ∷ a2 ∷ a3 ∷ b0 ∷ b1 ∷ b2 ∷ b3 ∷ c0 ∷ c1 ∷ c2 ∷ c3 ∷ []) = ok (
  record { e0 = a0; e1 = a1; e2 = a2; e3 = a3 },
  record { e0 = b0; e1 = b1; e2 = b2; e3 = b3 },
  record { e0 = c0; e1 = c1; e2 = c2; e3 = c3 },
)
recipient_data data_felts = err (TransactionKernelError.malformed_recipient_data data_felts)

abbrev pub or_empty : Option (List Felt) → List Felt
or_empty none = []
or_empty (some xs) = xs

abbrev pub is_public : NoteType → Bool
is_public NoteType.public = true
is_public NoteType.off_chain = false
is_public NoteType.encrypted = false

module _ ⦃c : Crypto⦄ ⦃s : Assembler⦄ ⦃a : AdviceProvider⦄ where
  -- The public note with the details that the advice provider has.
  unfoldable pub public_note_of :
      a.Provider → NoteAssets → NoteMetadata → Digest → Result TransactionKernelError OutputNote
  public_note_of adv vault metadata recipient = elim (a.get_mapped_values adv recipient) [
    | none ↦ err (TransactionKernelError.missing_note_details metadata vault recipient)
    | some data_felts ↦ do
      (inputs_hash, script_hash, serial_num) ← recipient_data data_felts
      let inputs_key = NoteInputs.commitment_to_key inputs_hash
      let input_els = or_empty (a.get_mapped_values adv inputs_key)
      let script_data = or_empty (a.get_mapped_values adv script_hash)
      inputs ← map_err TransactionKernelError.malformed_note_inputs (NoteInputs.new input_els)
      script ←
          map_err (λ e. TransactionKernelError.malformed_note_script script_data)
            (Script.try_from_felts script_data)
      let recipient = Commitments.new_recipient serial_num script inputs
      ok (public_note (Commitments.new vault metadata recipient))
  ]

  -- The envelope of a note, or a panic (`expect`) if it is not off chain.
  unfoldable pub private_note_of :
      NoteAssets → NoteMetadata → Digest → Result TransactionKernelError OutputNote
  private_note_of vault metadata recipient = do
    let note_id = Commitments.note_id recipient vault.hash
    envelope ← unwrap (Commitments.new_envelope note_id metadata)
    ok (private_note envelope)

  -- The note that the stack describes.
  unfoldable pub note_of : a.Provider → Process → Result TransactionKernelError OutputNote
  note_of adv process = do
    let aux = process.get_stack_item 0
    note_type ←
        map_err TransactionKernelError.malformed_note_type
          (Tag.note_type_of_u64 (process.get_stack_item 1))
    sender ←
        map_err TransactionKernelError.malformed_account_id
          (Id.try_from_felt (process.get_stack_item 2))
    tag ←
        ok_or (Tag.tag_of_felt (process.get_stack_item 3))
          (TransactionKernelError.malformed_tag (process.get_stack_item 3))
    asset ←
        map_err TransactionKernelError.malformed_asset
          (Value.try_from_word (stack_word process 8 7 6 5))
    let recipient = stack_word process 12 11 10 9
    vault ← map_err TransactionKernelError.malformed_note_type (NoteAssets.new (asset ∷ []))
    metadata ←
        map_err TransactionKernelError.malformed_note_metadata
          (Metadata.new sender note_type tag aux)
    if is_public metadata.note_type
        then public_note_of adv vault metadata recipient
        else private_note_of vault metadata recipient
