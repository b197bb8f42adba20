-- ===== src/Kernel/Inputs.antt =====
-- The inputs of the kernel (miden-lib/src/transaction/inputs.rs, and the input stack of mod.rs).
-- The advice stack is the list of the elements with which the code extends it, in this order, and
-- what goes into the advice map is the list of its entries. The chain's and the account's entries of
-- the map and nodes for the Merkle store are left out.
pub mod Opened
use restartx.Common.{ℕ, ◌==◌, ◌%◌, ◌^◌, if◌then◌else◌, List, [], ◌∷◌, ◌++◌, length, Option}
use restartx.Common.{Result, ok, err, panic, ◌>>=◌, expect, some, none, ltb}
use restartx.Crypto.{Felt, Word, Digest, Crypto, elements, empty_word, field_modulus}
use restartx.Merkle.{Smt, SimpleSmt, Mmr, MerklePaths}
use restartx.Types.{AccountId}
use restartx.Accounts.Account
use restartx.Accounts.Account.{Account}
use restartx.Accounts.Storage
use restartx.Assets.Vault
use restartx.Blocks.Header.{BlockHeader}
use restartx.Notes.Metadata
use restartx.Notes.NoteAssets
use restartx.Notes.NoteInputs
use restartx.Notes.Commitments
use restartx.Transactions.InputNotes
use restartx.Transactions.TransactionInputs.{InputNote, TransactionInputs}
use restartx.Kernel.{Vm}
use restartx.Kernel.Outputs.{or_default}

module _ ⦃c : Crypto⦄ where
  -- What is pushed of the block header.
  unfoldable pub header_elements : BlockHeader → List Felt
  header_elements header =
      elements header.prev_hash
      ++ (elements header.chain_root
          ++ (elements header.account_root
              ++ (elements header.nullifier_root
                  ++ (elements header.batch_root
                      ++ (elements header.proof_hash
                          ++ ((c.felt_new header.block_num
                                ∷ header.version
                                ∷ header.timestamp
                                ∷ 0
                                ∷ [])
                              ++ (elements empty_word ++ elements header.note_root)))))))

module _ ⦃m : Smt⦄ ⦃s : SimpleSmt⦄ where
  -- What is pushed of the account.
  unfoldable pub account_elements : Account → List Felt
  account_elements account =
      (account.id.felt ∷ 0 ∷ 0 ∷ account.nonce ∷ [])
      ++ (elements (Vault.commitment account.vault)
          ++ (elements (Storage.root account.storage) ++ elements account.code.code_root))

module _ ⦃c : Crypto⦄ ⦃p : MerklePaths⦄ ⦃m : Mmr⦄ ⦃t : Smt⦄ ⦃s : SimpleSmt⦄ where
  -- The script is given by its hash.
  unfoldable pub build_advice_stack : TransactionInputs → Option Digest → List Felt → List Felt
  build_advice_stack tx_inputs tx_script stack =
      stack
      ++ (header_elements tx_inputs.block_header
          ++ (account_elements tx_inputs.account
              ++ ((c.felt_new (length tx_inputs.input_notes.notes % 2 ^ 32) ∷ [])
                  ++ elements (or_default tx_script))))

module _ ⦃v : Vm⦄ where
  unfoldable pub build_input_stack {ℓ} :
      {E : Type ℓ} → AccountId → Digest → Digest → Digest → Result E v.StackInputs
  build_input_stack acct_id init_acct_hash input_notes_hash block_hash = expect (
      v.new_inputs (
        elements input_notes_hash
        ++ (elements init_acct_hash ++ (acct_id.felt ∷ elements block_hash))))

module _ ⦃c : Crypto⦄ ⦃p : MerklePaths⦄ where
  -- What one note adds to the combined data, with the arguments of the notes by their IDs. The
  -- index of a note is a panic if it is no field element.
  unfoldable pub note_elements {ℓ} :
      {E : Type ℓ} → (Digest → Option Word) → InputNote → Result E (List Felt)
  note_elements note_args n = do
    let recipient = n.note.recipient
    let assets = n.note.assets
    let index = p.index_value n.proof.origin.node_index
    num_values ← NoteInputs.num_values recipient.inputs
    node_index ← expect (if ltb index field_modulus then some index else none)
    ok (
        elements recipient.serial_num
        ++ (elements recipient.script.hash
            ++ (elements recipient.inputs.hash
                ++ (elements assets.hash
                    ++ (elements (Metadata.to_word n.note.metadata)
                        ++ (elements (or_default (note_args n.note.id))
                            ++ ((c.felt_new num_values
                                  ∷ c.felt_new (length assets.assets % 2 ^ 32)
                                  ∷ [])
                                ++ (NoteAssets.to_padded_assets assets.assets
                                    ++ ((c.felt_new n.proof.origin.block_num ∷ [])
                                        ++ (elements n.proof.sub_hash
                                            ++ (elements n.proof.note_root
                                                ++ (node_index ∷ []))))))))))))

  -- The entries of the advice map for one note: its inputs and its assets.
  unfoldable pub note_entries : InputNote → List (Digest × List Felt)
  note_entries n =
      (n.note.recipient.inputs.hash, NoteInputs.pad_inputs n.note.recipient.inputs.values)
      ∷ (n.note.assets.hash, NoteAssets.to_padded_assets n.note.assets.assets)
      ∷ []

  -- What the loop over the notes adds: entries of the map, nodes of the paths for the Merkle store,
  -- and the combined data.
  pub record NoteAdvice : Type 0 where
    pub entries : List (Digest × List Felt)
    pub nodes : List p.InnerNodes
    pub note_data : List Felt

  unfoldable pub add_notes {ℓ} :
      {E : Type ℓ} → (Digest → Option Word) → List InputNote → Result E NoteAdvice
  add_notes note_args [] = ok (record { entries = []; nodes = []; note_data = [] })
  add_notes note_args (n ∷ notes) = do
    nodes ← expect (
        p.inner_nodes n.proof.note_path (p.index_value n.proof.origin.node_index)
          (Commitments.authentication_hash n.note))
    note_data ← note_elements note_args n
    later ← add_notes note_args notes
    ok (record {
      entries = note_entries n ++ later.entries;
      nodes = nodes ∷ later.nodes;
      note_data = note_data ++ later.note_data;
    })

  -- The entries and the nodes, in the order in which they are added.
  unfoldable pub add_input_notes_to_advice_inputs {ℓ} :
      {E : Type ℓ}
      → InputNotes.InputNotes InputNote
      → (Digest → Option Word)
      → Result E (List (Digest × List Felt) × List p.InnerNodes)
  add_input_notes_to_advice_inputs input_notes note_args = do
    advice ← add_notes note_args input_notes.notes
    ok (
        if length input_notes.notes == 0
        then ([], [])
        else (advice.entries ++ ((input_notes.commitment, advice.note_data) ∷ []), advice.nodes))
