-- ===== src/Kernel/Inputs/Opened.antt =====
-- The advice inputs open the commitments that the input stack holds.
use restartx.Common.{◌≡◌, refl, ap, List, [], ◌∷◌, take, drop, length, Option, ok}
use restartx.Common.{
  ◌%◌, ◌^◌, ◌∙◌, sym, >>=-eq-ok, expect, Result, err, panic, ltb, if◌then◌else◌, some, none,
}
use restartx.Crypto.{Felt, Word, Digest, Crypto, elements, field_modulus}
use restartx.Merkle.{Smt, SimpleSmt, Mmr, MerklePaths}
use restartx.Accounts.Account
use restartx.Blocks.Header
use restartx.Blocks.Header.{HeaderFields}
use restartx.Notes.NoteAssets.{NoteAssets}
use restartx.Notes.Metadata.{NoteMetadata}
use restartx.Notes.NoteInputs
use restartx.Notes.Commitments
use restartx.Notes.Commitments.{Note, NoteRecipient}
use restartx.Transactions.TransactionInputs.{InputNote, TransactionInputs}
use restartx.Kernel.Inputs
use restartx.Kernel.Outputs.{or_default}

module _ ⦃c : Crypto⦄ ⦃p : MerklePaths⦄ ⦃m : Mmr⦄ ⦃t : Smt⦄ ⦃s : SimpleSmt⦄ where
  -- With a block header that the constructor makes, the advice stack has 57 elements. The first 32
  -- hash to the sub hash of the header, which with the next four, the note root, merges to the
  -- header's hash; the next 16 hash to the account's hash; then come the number of input notes and
  -- the root of the transaction script, or the empty word without a script.
  pub build_advice_stack-opens :
      (inputs : TransactionInputs) (fields : HeaderFields) (tx_script : Option Digest)
      → inputs.block_header ≡ Header.new fields
      → let stack = Inputs.build_advice_stack inputs tx_script [] in
        (length stack ≡ 57)
        × (c.merge (c.hash_elements (take 32 stack)) fields.note_root ≡ inputs.block_header.hash)
        × (take 4 (drop 32 stack) ≡ elements fields.note_root)
        × (c.hash_elements (take 16 (drop 36 stack)) ≡ Account.hash inputs.account)
        × (drop 52 stack
            ≡ c.felt_new (length inputs.input_notes.notes % 2 ^ 32)
              ∷ elements (or_default tx_script))
  unfolding Inputs.build_advice_stack Inputs.header_elements Inputs.account_elements Header.new
      Header.compute_sub_hash Header.sub_hash_elements Account.hash Account.hash_account
  build_advice_stack-opens inputs fields tx_script h = rw h (refl, refl, refl, refl, refl)

abbrev or_nil {ℓ} : {E : Type ℓ} → Result E (List Felt) → List Felt
or_nil (ok es) = es
or_nil (err e) = []
or_nil panic = []

module _ ⦃c : Crypto⦄ ⦃p : MerklePaths⦄ where
  made-nullifier :
      (note : Note) (assets : NoteAssets) (metadata : NoteMetadata) (recipient : NoteRecipient)
      → note ≡ Commitments.new assets metadata recipient
      → note.nullifier
        ≡ Commitments.nullifier_of note.recipient.script.hash note.recipient.inputs.hash
            note.assets.hash note.recipient.serial_num
  unfolding Commitments.new
  made-nullifier note assets metadata recipient made = rw made refl

  -- The first 16 elements of a note's data hash to its nullifier.
  note_elements-nullifier {ℓ} :
      {E : Type ℓ} (note_args : Digest → Option Word) (n : InputNote) (assets : NoteAssets)
      (metadata : NoteMetadata) (recipient : NoteRecipient) (es : List Felt)
      → n.note ≡ Commitments.new assets metadata recipient
      → Inputs.note_elements {E = E} note_args n ≡ ok es
      → c.hash_elements (take 16 es) ≡ n.note.nullifier
  unfolding Inputs.note_elements Commitments.new Commitments.nullifier_of
  note_elements-nullifier {E = E} note_args n assets metadata recipient es made h =
      let (count, counted, rest) =
        >>=-eq-ok (NoteInputs.num_values {E = E} n.note.recipient.inputs) _ h in
      let place = p.index_value n.proof.origin.node_index in
      let (index, fits, whole) =
        >>=-eq-ok (expect {E = E} (if ltb place field_modulus then some place else none)) _ rest in
      sym (ap (λ r. c.hash_elements (take 16 (or_nil r))) whole)
      ∙ sym (made-nullifier n.note assets metadata recipient made)
