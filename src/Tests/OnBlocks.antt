-- ===== src/Tests/OnBlocks.antt =====
-- Examples on blocks, and on the chain and the inputs of a transaction.
use restartx.Common.{
  ℕ, ◌+◌, ◌/◌, ◌^◌, ◌<◌, ◌≡◌, ◌↔◌, refl, arith, List, [], ◌∷◌, All, replicate, length, drop, take,
  ◌++◌, ◌==◌, ◌%◌, ◌-◌,
}
use restartx.Common.{none, some, ok, if◌then◌else◌}
use restartx.Crypto.{empty_word, elements}
use restartx.Types.{NoteType}
use restartx.Accounts.Account
use restartx.Accounts.Account.{Account}
use restartx.Blocks.Header
use restartx.Blocks.Header.{BlockHeader, HeaderFields, NoCollision, new-hash}
use restartx.Blocks.NoteTree
use restartx.Blocks.NoteTree.{NoteEntry, HoldsNote, interleaved-HoldsNote, leaf_index-bounds}
use restartx.Notes.Metadata.{NoteMetadata}
use restartx.Notes.Script
use restartx.Notes.Script.Kept.{decode-to_felts}
use restartx.Transactions.Chain
use restartx.Transactions.Chain.{ChainMmr}
use restartx.Transactions.Chain.Blocks.{IsChain, new-IsChain}
use restartx.Transactions.InputNotes
use restartx.Transactions.InputNotes.{validate_account_seed}
use restartx.Transactions.TransactionInputs
use restartx.Transactions.TransactionInputs.{InputNote}
use restartx.Transactions.TransactionInputs.Authentic.{IsAuthentic, transaction_inputs_iff}
use restartx.Kernel.Inputs
use restartx.Kernel.Inputs.Opened.{build_advice_stack-opens}
use restartx.Tests.{
  toy_crypto, toy_smt, toy_simple_smt, regular_id, fixed_digest, empty_vault, empty_storage,
}
use restartx.Tests.Interfaces.{toy_mmr, toy_paths}

abbrev fields : HeaderFields
fields = record {
  prev_hash = fixed_digest;
  block_num = 2;
  chain_root = fixed_digest;
  account_root = empty_word;
  nullifier_root = empty_word;
  note_root = fixed_digest;
  batch_root = empty_word;
  proof_hash = empty_word;
  version = 1;
  timestamp = 7;
}

new-hash_example : fields ≡ fields
new-hash_example =
    new-hash fields fields (record { merges = λ h. (refl, refl); sub_hashes = λ h. refl })
      (omega arith) (omega arith) refl

abbrev header : BlockHeader
header = Header.new fields

abbrev metadata : NoteMetadata
metadata = record {
  sender = regular_id;
  note_type = NoteType.off_chain;
  tag = record { inner = 5 };
  aux = 0;
}

abbrev note_entries : List NoteEntry
note_entries =
    record { batch_index = 0; note_index = 1; note_id = fixed_digest; metadata = metadata }
    ∷ record { batch_index = 1; note_index = 1; note_id = empty_word; metadata = metadata }
    ∷ []

interleaved-HoldsNote_example : All (HoldsNote (NoteTree.interleaved note_entries)) note_entries
interleaved-HoldsNote_example =
    interleaved-HoldsNote note_entries
      ((omega arith, omega arith), ((omega arith, omega arith), tt))
      (((λ e. absurd (omega (arith, e.0))), tt), (tt, tt))

leaf_index-bounds_example :
    (NoteTree.leaf_index 255 4095 + 1 < 2 ^ NoteTree.block_output_notes_tree_depth)
    × (NoteTree.note_index 255 4095 < 2 ^ 20)
    × (NoteTree.leaf_index 255 4095 / 2 ≡ NoteTree.note_index 255 4095)
    × ((NoteTree.leaf_index 255 4095 + 1) / 2 ≡ NoteTree.note_index 255 4095)
leaf_index-bounds_example = leaf_index-bounds 255 4095 (omega arith) (omega arith)

abbrev chain : ChainMmr
chain = record { mmr = 3; blocks = (2, header) ∷ [] }

chain_made : Chain.new 3 (header ∷ []) ≡ ok chain
unfolding Chain.new Chain.collect Header.new
chain_made = refl

new-IsChain_example :
    IsChain chain × All (λ b. Chain.get_block chain b.block_num ≡ some b) (header ∷ [])
new-IsChain_example = new-IsChain 3 (header ∷ []) chain chain_made

abbrev account : Account
account = record {
  id = regular_id;
  vault = empty_vault;
  storage = empty_storage;
  code = record { code_root = fixed_digest };
  nonce = 1;
}

abbrev no_notes : InputNotes.InputNotes InputNote
no_notes = record { notes = []; commitment = empty_word }

abbrev inputs : TransactionInputs.TransactionInputs
inputs = record {
  account = account;
  account_seed = none;
  block_header = header;
  block_chain = chain;
  input_notes = no_notes;
}

transaction_inputs_iff_example :
    (TransactionInputs.new account none header chain no_notes ≡ ok inputs) ↔ (
      (validate_account_seed account none ≡ ok tt)
      × (Chain.chain_length chain ≡ header.block_num)
      × (toy_mmr.hash_peaks chain.mmr ≡ header.chain_root)
      × All (IsAuthentic header chain) no_notes.notes
      × (inputs ≡ record {
        account = account;
        account_seed = none;
        block_header = header;
        block_chain = chain;
        input_notes = no_notes;
      }))
transaction_inputs_iff_example = transaction_inputs_iff account none header chain no_notes inputs

build_advice_stack-opens_example :
    let stack = Inputs.build_advice_stack inputs none [] in
    (length stack ≡ 57)
    × (toy_crypto.merge (toy_crypto.hash_elements (take 32 stack)) fixed_digest ≡ header.hash)
    × (take 4 (drop 32 stack) ≡ elements fixed_digest)
    × (toy_crypto.hash_elements (take 16 (drop 36 stack)) ≡ Account.hash account)
    × (drop 52 stack ≡ 0 ∷ elements empty_word)
build_advice_stack-opens_example = build_advice_stack-opens inputs fields none refl

abbrev five_bytes : List ℕ
five_bytes = 1 ∷ 2 ∷ 3 ∷ 4 ∷ 5 ∷ []

decode-to_felts_example :
    Script.decode (drop 5 (Script.to_felts fixed_digest five_bytes))
    ≡ ok (
        if length five_bytes % 4 == 1
        then take (length five_bytes - 1) five_bytes
        else five_bytes ++ replicate ((4 - length five_bytes % 4) % 4) 0)
decode-to_felts_example =
    decode-to_felts fixed_digest five_bytes
      (omega arith, (omega arith, (omega arith, (omega arith, (omega arith, tt)))))
