-- ===== src/Streams/Transactions/Back.antt =====
-- What is written of input and output notes is read back.
use restartx.Common.{ℕ, ◌^◌, ◌≤◌, ◌≡◌, refl, arith, ltb, List, [], ◌∷◌, ◌++◌, length, All, true}
use restartx.Common.{Result, ok}
use restartx.Crypto.{Digest, Crypto, IsWord}
use restartx.Transactions.InputNotes
use restartx.Transactions.OutputNotes
use restartx.Transactions.OutputNotes.{OutputNote, public_note, private_note}
use restartx.Streams.{
  Streams, Reader, ReadsBack, back_first, append_assoc, read_many, read_many-write_many, write_many,
}
use restartx.Streams.Parts.Back.{IsMetadata}
use restartx.Streams.Notes
use restartx.Streams.Notes.Back.{WritesBack, envelope_back}
use restartx.Streams.Notes.Whole.{IsNote, note_back}
use restartx.Streams.Transactions

module _ ⦃c : Crypto⦄ where
  abbrev pub IsOutputNote : OutputNote → Type 0
  IsOutputNote (public_note note) = IsNote note
  IsOutputNote (private_note note) = IsWord note.note_id × IsMetadata note.note_metadata

-- Values that are written without a panic and read back, one after the other.
read_many-write_each {ℓ} :
    {A : Type 0} (P : A → Type ℓ) (write : A → Result ⊥ (List ℕ)) (read : Reader A)
    → ((x : A) → P x → WritesBack read (write x) x)
    → (xs : List A) → All P xs
    → WritesBack (read_many read (length xs)) (Transactions.write_each write xs) xs
unfolding read_many Transactions.write_each
read_many-write_each P write read back [] all = record {
  bytes = [];
  succeeds = refl;
  back = λ rest. refl;
}
read_many-write_each P write read back (x ∷ xs) all =
    let one = back x all.0 in
    let more = read_many-write_each P write read back xs all.1 in
    record {
      bytes = one.bytes ++ more.bytes;
      succeeds = rw (one.succeeds, more.succeeds) refl;
      back = λ rest.
          rw (append_assoc one.bytes more.bytes rest, one.back (more.bytes ++ rest), more.back rest)
            refl;
    }

module _ ⦃c : Crypto⦄ ⦃s : Streams⦄ where
  -- Input notes as the constructor makes them are read back, if each of them is.
  pub input_notes_back :
      {T : Type 0} (P : T → Type 0) (nullifier : T → Digest) (write : T → List ℕ) (read : Reader T)
      (n : InputNotes.InputNotes T)
      → ((x : T) → P x → ReadsBack read (write x) x)
      → All P n.notes
      → InputNotes.new nullifier n.notes ≡ ok n
      → WritesBack
          (Transactions.read_input_notes nullifier read)
          (Transactions.write_input_notes write n)
          n
  unfolding Transactions.read_input_notes Transactions.write_input_notes InputNotes.new
  input_notes_back P nullifier write read n back all made =
      let few : length n.notes ≤ 1023 = ground (arith, made) in
      let count = length n.notes in
      let notes = write_many write n.notes in
      record {
        bytes = s.write_int 2 count ++ notes;
        succeeds = ground (arith, few);
        back = λ rest.
            rw
              (
                back_first (s.read_int 2) (s.write_int 2 count) count notes rest
                    (s.int_back 2 count (omega (arith, few))),
                read_many-write_many P write read back n.notes all rest,
                made,
              )
              refl;
      }

  output_note_back :
      (n : OutputNote)
      → IsOutputNote n
      → WritesBack Transactions.read_output_note (Transactions.write_output_note n) n
  unfolding Transactions.read_output_note Transactions.write_output_note Transactions.read_tagged
  output_note_back (public_note note) v =
      let whole = note_back note v in
      record {
        bytes = s.write_int 1 0 ++ whole.bytes;
        succeeds = rw whole.succeeds refl;
        back = λ rest.
            rw
              (
                back_first (s.read_int 1) (s.write_int 1 0) 0 whole.bytes rest
                    (s.int_back 1 0 (omega arith)),
                whole.back rest,
              )
              refl;
      }
  output_note_back (private_note note) v =
      let bytes = Notes.write_envelope note in
      record {
        bytes = s.write_int 1 1 ++ bytes;
        succeeds = refl;
        back = λ rest.
            rw
              (
                back_first (s.read_int 1) (s.write_int 1 1) 1 bytes rest
                    (s.int_back 1 1 (omega arith)),
                envelope_back note v.0 v.1 rest,
              )
              refl;
      }

  -- Output notes as the constructor makes them, public ones of at most 255 assets, are written
  -- without a panic and are read back, whatever stands behind them.
  pub output_notes_back :
      (n : OutputNotes.OutputNotes)
      → OutputNotes.new n.notes ≡ ok n
      → All IsOutputNote n.notes
      → WritesBack Transactions.read_output_notes (Transactions.write_output_notes n) n
  unfolding Transactions.read_output_notes Transactions.write_output_notes OutputNotes.new
  output_notes_back n made all =
      let few : length n.notes ≤ 4096 = ground (arith, made) in
      let count = length n.notes in
      let notes =
        read_many-write_each IsOutputNote Transactions.write_output_note
          Transactions.read_output_note output_note_back n.notes all in
      let fits : ltb count (2 ^ 16) ≡ true = ground (arith, few) in
      record {
        bytes = s.write_int 2 count ++ notes.bytes;
        succeeds = rw (fits, notes.succeeds) refl;
        back = λ rest.
            rw
              (
                back_first (s.read_int 2) (s.write_int 2 count) count notes.bytes rest
                    (s.int_back 2 count (omega (arith, few))),
                notes.back rest,
                made,
              )
              refl;
      }
