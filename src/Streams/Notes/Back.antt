-- ===== src/Streams/Notes/Back.antt =====
-- What is written of the parts of a note is read back.
use restartx.Common.{
  ℕ, ◌+◌, ◌%◌, ◌^◌, ◌≤◌, ◌≡◌, refl, arith, ltb, Bool-cases, inl, inr, List, ◌++◌, length,
}
use restartx.Common.{All, Result, ok, err, if◌then◌else◌}
use restartx.Crypto.{Crypto, IsFelt, IsWord}
use restartx.Assets.Value.Valid.{IsValid}
use restartx.Notes.NoteAssets
use restartx.Notes.NoteAssets.{NoteAssets}
use restartx.Notes.NoteInputs
use restartx.Notes.NoteInputs.{NoteInputs}
use restartx.Notes.Commitments.{NoteScript, NoteEnvelope}
use restartx.Notes.Script.{DeserializationError}
use restartx.Streams.{
  Streams, Reader, ReadsBack, back_first, write_many, read_many, read_many-write_many,
}
use restartx.Streams.Parts
use restartx.Streams.Parts.Back.{asset_back, metadata_back, IsMetadata}
use restartx.Streams.Notes

-- A value that is written without a panic, and read back.
pub record WritesBack {A : Type 0} (read : Reader A) (written : Result ⊥ (List ℕ)) (a : A)
    : Type 0 where
  pub bytes : List ℕ
  pub succeeds : written ≡ ok bytes
  pub back : ReadsBack read bytes a

-- Assets of a note as the constructor makes them.
pub record IsNoteAssets ⦃c : Crypto⦄ (a : NoteAssets) : Type 0 where
  pub made : NoteAssets.new a.assets ≡ ok a
  pub valid : All IsValid a.assets

pub record IsNoteInputs ⦃c : Crypto⦄ (i : NoteInputs) : Type 0 where
  pub made : NoteInputs.new i.values ≡ ok i
  pub felts : All IsFelt i.values

module _ ⦃c : Crypto⦄ ⦃s : Streams⦄ where
  asset_count : (a : NoteAssets) → IsNoteAssets a → (1 ≤ length a.assets) × (length a.assets ≤ 256)
  unfolding NoteAssets.new
  asset_count a v = (ground (arith, v.made), ground (arith, v.made))

  -- One to 255 assets of a note are read back; with 256, which the constructor allows, the count
  -- wraps around to 0, and the stream is refused.
  pub assets_back :
      (a : NoteAssets) (rest : List ℕ)
      → IsNoteAssets a
      → Notes.read_assets (Notes.write_assets a ++ rest) ≡ (
          if ltb (length a.assets) 256
          then ok (a, rest)
          else err DeserializationError.invalid_value)
  unfolding Notes.read_assets Notes.write_assets read_many NoteAssets.new
  assets_back a rest v =
      let n = length a.assets in
      let count = (n + 255) % 2 ^ 8 in
      let assets = write_many Parts.write_asset a.assets in
      let some_assets : 1 ≤ n = (asset_count a v).0 in
      let limit : n ≤ 256 = (asset_count a v).1 in
      let first =
        back_first (s.read_int 1) (s.write_int 1 count) count assets rest
          (s.int_back 1 count (omega arith)) in
      elim (Bool-cases (ltb n 256)) [
        | inl small ↦
            let same : (count + 1) % 2 ^ 8 ≡ n = ground (arith, small, some_assets) in
            rw
              (
                first,
                same,
                small,
                read_many-write_many IsValid Parts.write_asset Parts.read_asset
                    (λ x w. asset_back x w) a.assets v.valid rest,
                v.made,
              )
              refl
        | inr full ↦
            let none_left : (count + 1) % 2 ^ 8 ≡ 0 = ground (arith, full, limit) in
            rw (first, none_left, full) refl
      ]

  pub inputs_back :
      (i : NoteInputs) → IsNoteInputs i → WritesBack Notes.read_inputs (Notes.write_inputs i) i
  unfolding Notes.read_inputs Notes.write_inputs NoteInputs.new
  inputs_back i v =
      let few : length i.values ≤ 128 = ground (arith, v.made) in
      let values = write_many s.write_felt i.values in
      let n = length i.values in
      record {
        bytes = s.write_int 1 n ++ values;
        succeeds = ground (arith, few);
        back = λ rest.
            rw
              (
                back_first (s.read_int 1) (s.write_int 1 n) n values rest
                    (s.int_back 1 n (omega (arith, few))),
                read_many-write_many IsFelt s.write_felt s.read_felt s.felt_back i.values v.felts
                    rest,
                v.made,
              )
              refl;
      }

  pub script_back :
      (script : NoteScript)
      → IsWord script.hash
      → ReadsBack Notes.read_script (Notes.write_script script) script
  unfolding Notes.read_script Notes.write_script
  script_back script v rest =
      rw
        (
          back_first s.read_word (s.write_word script.hash) script.hash (s.write_code script) rest
              (s.word_back script.hash v),
          s.code_back script rest,
        )
        refl

  pub envelope_back :
      (e : NoteEnvelope)
      → IsWord e.note_id
      → IsMetadata e.note_metadata
      → ReadsBack Notes.read_envelope (Notes.write_envelope e) e
  unfolding Notes.read_envelope Notes.write_envelope
  envelope_back e v w rest =
      rw
        (
          back_first s.read_word (s.write_word e.note_id) e.note_id
              (Parts.write_metadata e.note_metadata) rest (s.word_back e.note_id v),
          metadata_back e.note_metadata w rest,
        )
        refl
