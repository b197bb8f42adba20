-- ===== src/Transactions/TransactionInputs.antt =====
-- The inputs of a transaction (objects/src/transaction/inputs.rs): an input note with the proof of
-- its inclusion, and the checks on the whole.
pub mod Authentic
use restartx.Common.{ℕ, ◌%◌, ◌^◌, ◌<◌, ◌≡◌, ◌↔◌, refl, sym, ap, ◌∙◌, arith, ◌==◌, Bool, true, false}
use restartx.Common.{
  if◌then◌else◌, Bool-cases, Option-cases, inl, inr, List, [], ◌∷◌, All, Option, none, some,
}
use restartx.Common.{Result, ok, err, panic, ◌>>=◌, ◌>>◌, guard, ok_or}
use restartx.Crypto.{Word, Digest, Crypto, word_eq, word_eq_iff}
use restartx.Merkle.{Smt, SimpleSmt, Mmr, MerklePaths}
use restartx.Errors.{TransactionInputError}
use restartx.Accounts.Account.{Account}
use restartx.Blocks.Header.{BlockHeader}
use restartx.Notes.Commitments
use restartx.Notes.Commitments.{Note}
use restartx.Notes.Origin.{NoteInclusionProof}
use restartx.Transactions.Chain
use restartx.Transactions.Chain.{ChainMmr}
use restartx.Transactions.InputNotes
use restartx.Transactions.InputNotes.{validate_account_seed}

module _ ⦃c : Crypto⦄ ⦃p : MerklePaths⦄ where
  pub record InputNote : Type 0 where
    pub note : Note
    pub proof : NoteInclusionProof

  unfoldable pub is_in_block : InputNote → BlockHeader → Bool
  is_in_block n block_header =
      let note_index = p.index_value n.proof.origin.node_index in
      let note_hash = Commitments.authentication_hash n.note in
      p.verify n.proof.note_path note_index note_hash block_header.note_root

module _ ⦃c : Crypto⦄ ⦃p : MerklePaths⦄ ⦃m : Mmr⦄ where
  -- The header of the block that a note says it is from.
  unfoldable pub block_of :
      BlockHeader → ChainMmr → InputNote → Result TransactionInputError BlockHeader
  block_of block_header block_chain n =
      if n.proof.origin.block_num == block_header.block_num
      then ok block_header
      else ok_or (Chain.get_block block_chain n.proof.origin.block_num)
          (TransactionInputError.input_note_block_not_in_chain_mmr n.note.id)

  -- The loop over the input notes.
  unfoldable pub check_notes :
      BlockHeader → ChainMmr → List InputNote → Result TransactionInputError (Unit {0})
  check_notes block_header block_chain [] = ok tt
  check_notes block_header block_chain (n ∷ notes) = do
    header ← block_of block_header block_chain n
    guard (is_in_block n header)
        (TransactionInputError.input_note_not_in_block n.note.id n.proof.origin.block_num)
    check_notes block_header block_chain notes

module _ ⦃c : Crypto⦄ ⦃p : MerklePaths⦄ ⦃m : Mmr⦄ ⦃t : Smt⦄ ⦃s : SimpleSmt⦄ where
  pub record TransactionInputs : Type 0 where
    pub account : Account
    pub account_seed : Option Word
    pub block_header : BlockHeader
    pub block_chain : ChainMmr
    pub input_notes : InputNotes.InputNotes InputNote

  unfoldable pub new :
      Account
      → Option Word
      → BlockHeader
      → ChainMmr
      → InputNotes.InputNotes InputNote
      → Result TransactionInputError TransactionInputs
  new account account_seed block_header block_chain input_notes = do
    validate_account_seed account account_seed
    let length = Chain.chain_length block_chain
    guard (length == block_header.block_num)
        (TransactionInputError.inconsistent_chain_length block_header.block_num (length % 2 ^ 32))
    let peaks = m.hash_peaks block_chain.mmr
    guard (word_eq peaks block_header.chain_root)
        (TransactionInputError.inconsistent_chain_root block_header.chain_root peaks)
    check_notes block_header block_chain input_notes.notes
    ok (record {
      account = account;
      account_seed = account_seed;
      block_header = block_header;
      block_chain = block_chain;
      input_notes = input_notes;
    })
