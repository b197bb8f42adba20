-- ===== src/Tests/OnStreams.antt =====
-- Examples on byte streams.
use restartx.Common.{◌≡◌, refl, arith, ltb, if◌then◌else◌, [], ◌∷◌, ◌++◌, length}
use restartx.Common.{some, ok, err}
use restartx.Crypto.{IsWord}
use restartx.Types.{Asset, NoteType}
use restartx.Accounts.Delta
use restartx.Accounts.Delta.{AccountDelta}
use restartx.Notes.Tag
use restartx.Notes.Metadata.{NoteMetadata}
use restartx.Notes.NoteAssets
use restartx.Notes.NoteAssets.{NoteAssets}
use restartx.Notes.Script.{DeserializationError}
use restartx.Transactions.Unique.{check_unseen}
use restartx.Transactions.OutputNotes
use restartx.Transactions.OutputNotes.{OutputNote, private_note}
use restartx.Streams.Parts.Back.{IsMetadata}
use restartx.Streams.Notes
use restartx.Streams.Notes.Back.{WritesBack, IsNoteAssets, assets_back}
use restartx.Streams.Deltas
use restartx.Streams.Deltas.Back.{delta_back}
use restartx.Streams.Transactions
use restartx.Streams.Transactions.Back.{output_notes_back}
use restartx.Tests.{
  toy_crypto, coin_faucet, coin_faucet-IsValid, coins, coins-IsValidFungible, fixed_digest,
}
use restartx.Tests.Interfaces.{toy_streams}

-- Slot 3 is cleared, slot 7 updated, coins are added, and the nonce becomes 5.
abbrev delta : AccountDelta
delta = record {
  storage = record { cleared_items = 3 ∷ []; updated_items = (7, fixed_digest) ∷ [] };
  vault = record { added_assets = Asset.fungible coins ∷ []; removed_assets = [] };
  nonce = some 5;
}

delta_made : Delta.new delta.storage delta.vault delta.nonce ≡ ok delta
unfolding Delta.new Delta.validate_storage Delta.validate_vault Delta.validate_nonce
    Delta.check_cleared Delta.check_updated Delta.check_added Delta.check_removed
    Delta.is_storage_delta_empty Delta.is_vault_delta_empty
delta_made = refl

fixed_digest-IsWord : IsWord fixed_digest
fixed_digest-IsWord = (omega arith, omega arith, omega arith, omega arith)

delta_back_example : WritesBack Deltas.read_delta (Deltas.write_delta delta) delta
delta_back_example =
    delta_back delta delta_made ((omega arith, fixed_digest-IsWord), tt) (coins-IsValidFungible, tt)
      tt (omega arith)

abbrev one_coin : NoteAssets
one_coin = record { assets = Asset.fungible coins ∷ []; hash = fixed_digest }

one_coin-IsNoteAssets : IsNoteAssets one_coin
unfolding NoteAssets.new NoteAssets.check_unique NoteAssets.compute_asset_commitment
one_coin-IsNoteAssets = record { made = refl; valid = (coins-IsValidFungible, tt) }

assets_back_example : Notes.read_assets (Notes.write_assets one_coin ++ []) ≡ (
    if ltb (length one_coin.assets) 256
    then ok (one_coin, [])
    else err DeserializationError.invalid_value)
assets_back_example = assets_back one_coin [] one_coin-IsNoteAssets

abbrev metadata : NoteMetadata
metadata = record {
  sender = coin_faucet;
  note_type = NoteType.off_chain;
  tag = record { inner = 5 };
  aux = 0;
}

metadata-IsMetadata : IsMetadata metadata
unfolding Tag.validate
metadata-IsMetadata = record {
  sender = coin_faucet-IsValid;
  fits = refl;
  small = omega arith;
  aux = omega arith;
}

abbrev hidden_note : OutputNote
hidden_note = private_note (record { note_id = fixed_digest; note_metadata = metadata })

abbrev one_note : OutputNotes.OutputNotes
one_note = record { notes = hidden_note ∷ []; commitment = fixed_digest }

one_note_made : OutputNotes.new one_note.notes ≡ ok one_note
unfolding OutputNotes.new check_unseen OutputNotes.build_output_notes_commitment
one_note_made = refl

output_notes_back_example :
    WritesBack Transactions.read_output_notes (Transactions.write_output_notes one_note) one_note
output_notes_back_example =
    output_notes_back one_note one_note_made ((fixed_digest-IsWord, metadata-IsMetadata), tt)
