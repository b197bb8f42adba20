-- ===== src/Kernel/Standard.antt =====
-- The standard notes (miden-lib/src/notes/mod.rs, utils.rs): pay to an ID, the same with a recall,
-- and a swap. The programs, which the build compiles, the assembler and the random numbers are
-- taken as records of operations.
pub mod Payback
use restartx.Common.{ℕ, List, [], ◌∷◌, ◌++◌, Option}
use restartx.Common.{Result, ok, err, panic, ◌>>=◌, ok_or}
use restartx.Crypto.{Felt, Word, Digest, Crypto, elements, empty_word}
use restartx.Types.{AccountId, Asset, NoteType}
use restartx.Errors.{NoteError}
use restartx.Assets.Value
use restartx.Notes.Tag
use restartx.Notes.Tag.{NoteTag, NoteExecutionMode}
use restartx.Notes.Metadata
use restartx.Notes.NoteAssets
use restartx.Notes.NoteInputs
use restartx.Notes.Commitments
use restartx.Notes.Commitments.{NoteScript, Note}

pub record Programs : Type 1 where
  pub ProgramAst : Type 0
  -- The files P2ID.masb, P2IDR.masb and SWAP.masb
  pub p2id_bytes : List ℕ
  pub p2idr_bytes : List ℕ
  pub swap_bytes : List ℕ
  -- `ProgramAst::from_bytes`
  pub from_bytes : List ℕ → Option ProgramAst
  -- `Assembler::compile_in_context` with the kernel's assembler, of which the hash is used
  pub compile : ProgramAst → Option Digest

-- `FeltRng::draw_word`
pub record FeltRng : Type 1 where
  pub State : Type 0
  pub draw_word : State → Word × State

module _ ⦃p : Programs⦄ where
  -- `NoteScript::new`
  unfoldable pub new_script : p.ProgramAst → Result NoteError NoteScript
  new_script code = do
    hash ← ok_or (p.compile code) NoteError.script_compilation_error
    ok (record { hash = hash })

  unfoldable pub build_note_script : List ℕ → Result NoteError NoteScript
  build_note_script bytes = do
    script_ast ← ok_or (p.from_bytes bytes) NoteError.note_deserialization_error
    new_script script_ast

module _ ⦃c : Crypto⦄ ⦃p : Programs⦄ where
  unfoldable pub build_p2id_recipient : AccountId → Word → Result NoteError Digest
  build_p2id_recipient target serial_num = do
    note_script ← build_note_script p.p2id_bytes
    let serial_num_hash = c.merge serial_num empty_word
    let merge_script = c.merge serial_num_hash note_script.hash
    ok (c.merge merge_script (c.hash_elements (target.felt ∷ 0 ∷ 0 ∷ 0 ∷ [])))

  module _ ⦃r : FeltRng⦄ where
    unfoldable pub create_p2id_note :
        AccountId → AccountId → List Asset → NoteType → r.State → Result NoteError Note
    create_p2id_note sender target assets note_type rng = do
      note_script ← build_note_script p.p2id_bytes
      inputs ← NoteInputs.new (target.felt ∷ [])
      tag ← Tag.from_account_id target NoteExecutionMode.local
      let serial_num = (r.draw_word rng).0
      metadata ← Metadata.new sender note_type tag 0
      vault ← NoteAssets.new assets
      let recipient = Commitments.new_recipient serial_num note_script inputs
      ok (Commitments.new vault metadata recipient)

    unfoldable pub create_p2idr_note :
        AccountId → AccountId → List Asset → NoteType → ℕ → r.State → Result NoteError Note
    create_p2idr_note sender target assets note_type recall_height rng = do
      note_script ← build_note_script p.p2idr_bytes
      inputs ← NoteInputs.new (target.felt ∷ recall_height ∷ [])
      tag ← Tag.from_account_id target NoteExecutionMode.local
      let serial_num = (r.draw_word rng).0
      vault ← NoteAssets.new assets
      metadata ← Metadata.new sender note_type tag 0
      let recipient = Commitments.new_recipient serial_num note_script inputs
      ok (Commitments.new vault metadata recipient)

    unfoldable pub create_swap_note :
        AccountId → Asset → Asset → NoteType → r.State → Result NoteError (Note × Word)
    create_swap_note sender offered_asset requested_asset note_type rng = do
      note_script ← build_note_script p.swap_bytes
      let (payback_serial_num, later_rng) = r.draw_word rng
      payback_recipient ← build_p2id_recipient sender payback_serial_num
      let asset_word = Value.to_word requested_asset
      payback_tag ← Tag.from_account_id sender NoteExecutionMode.local
      inputs ←
          NoteInputs.new
            (elements payback_recipient ++ (elements asset_word ++ (payback_tag.inner ∷ [])))
      let serial_num = (r.draw_word later_rng).0
      metadata ← Metadata.new sender note_type (record { inner = 0 }) 0
      vault ← NoteAssets.new (offered_asset ∷ [])
      let recipient = Commitments.new_recipient serial_num note_script inputs
      ok (Commitments.new vault metadata recipient, payback_serial_num)
