-- ===== src/Tests/OnNotes.antt =====
-- Examples on notes.
use restartx.Common.{◌^◌, ◌≡◌, ◌↔◌, refl}
use restartx.Common.{List, [], ◌∷◌, ok}
use restartx.Crypto.{empty_word}
use restartx.Types.{NoteType, Asset}
use restartx.Notes.Tag
use restartx.Notes.Tag.{NoteTag, NoteExecutionMode}
use restartx.Notes.Metadata
use restartx.Notes.Metadata.{NoteMetadata}
use restartx.Notes.NoteAssets
use restartx.Notes.NoteAssets.{NoteAssets}
use restartx.Notes.NoteAssets.Distinct.{IsAssetList, note_assets_iff}
use restartx.Notes.NoteInputs
use restartx.Notes.NoteInputs.{NoteInputs}
use restartx.Notes.Commitments.{NoteScript}
use restartx.Notes.Commitments.Binding.{note_id-binds}
use restartx.Tests.{toy_crypto, fixed_digest, coin_faucet, coins, art}

abbrev tag : NoteTag
tag = record { inner = 2 ^ 29 }

abbrev metadata : NoteMetadata
metadata = record { sender = coin_faucet; note_type = NoteType.encrypted; tag = tag; aux = 8 }

metadata_runs : Metadata.new coin_faucet NoteType.encrypted tag 8 ≡ ok metadata
unfolding Metadata.new Tag.validate
metadata_runs = refl

abbrev two_assets : List Asset
two_assets = Asset.fungible coins ∷ Asset.non_fungible art ∷ []

abbrev held : NoteAssets
held = record { assets = two_assets; hash = fixed_digest }

note_assets_iff_example : (NoteAssets.new two_assets ≡ ok held) ↔ (
    IsAssetList two_assets
    × (held
        ≡ record { assets = two_assets; hash = NoteAssets.compute_asset_commitment two_assets }))
note_assets_iff_example = note_assets_iff two_assets held

abbrev inputs : NoteInputs
inputs = record { values = 1 ∷ 2 ∷ 3 ∷ []; hash = fixed_digest }

inputs_runs : NoteInputs.new (1 ∷ 2 ∷ 3 ∷ []) ≡ ok inputs
unfolding NoteInputs.new
inputs_runs = refl

abbrev script : NoteScript
script = record { hash = empty_word }

note_id-binds_example :
    (held.hash ≡ held.hash)
    × (inputs.hash ≡ inputs.hash)
    × (script.hash ≡ script.hash)
    × (empty_word ≡ empty_word)
note_id-binds_example =
    note_id-binds held held metadata metadata empty_word empty_word script script inputs inputs
      (λ h. (refl, refl)) (λ h. (refl, refl)) (λ h. (refl, refl)) (λ h. (refl, refl)) refl
