-- ===== src/Streams/Transactions.antt =====
-- Streams of input and output notes (objects/src/transaction/inputs.rs, outputs.rs).
pub mod Back
use restartx.Common.{
  ℕ, ◌^◌, ltb, ◌==◌, Bool, true, false, if◌then◌else◌, List, [], ◌∷◌, ◌++◌, length,
}
use restartx.Common.{Result, ok, err, panic, ◌>>=◌, ◌>>◌, assert}
use restartx.Crypto.{Digest, Crypto}
use restartx.Notes.Script.{DeserializationError}
use restartx.Transactions.InputNotes
use restartx.Transactions.OutputNotes
use restartx.Transactions.OutputNotes.{OutputNote, public_note, private_note}
use restartx.Streams.{Streams, Reader, or_invalid, write_many, read_many}
use restartx.Streams.Notes

abbrev pub public_tag : ℕ
public_tag = 0

abbrev pub private_tag : ℕ
private_tag = 1

-- `write_many` of values that may panic.
unfoldable pub write_each : {A : Type 0} → (A → Result ⊥ (List ℕ)) → List A → Result ⊥ (List ℕ)
write_each write [] = ok []
write_each write (x ∷ xs) = do first ← write x; rest ← write_each write xs; ok (first ++ rest)

module _ ⦃s : Streams⦄ where
  unfoldable pub write_input_notes :
      {T : Type 0} → (T → List ℕ) → InputNotes.InputNotes T → Result ⊥ (List ℕ)
  write_input_notes write n = do
    assert (ltb (length n.notes) (2 ^ 16))
    ok (s.write_int 2 (length n.notes) ++ write_many write n.notes)

  unfoldable pub read_input_notes :
      ⦃c : Crypto⦄ {T : Type 0} → (T → Digest) → Reader T → Reader (InputNotes.InputNotes T)
  read_input_notes nullifier read bytes = do
    (num_notes, bytes) ← s.read_int 2 bytes
    (notes, rest) ← read_many read num_notes bytes
    made ← or_invalid (InputNotes.new nullifier notes)
    ok (made, rest)

  unfoldable pub write_output_note : OutputNote → Result ⊥ (List ℕ)
  write_output_note (public_note note) = do
    bytes ← Notes.write_note note
    ok (s.write_int 1 public_tag ++ bytes)
  write_output_note (private_note note) =
      ok (s.write_int 1 private_tag ++ Notes.write_envelope note)

  unfoldable pub read_tagged : ⦃c : Crypto⦄ → ℕ → Reader OutputNote
  read_tagged tag bytes =
      if tag == public_tag
      then Notes.read_note bytes >>= (λ p. ok (public_note p.0, p.1))
      else if tag == private_tag
      then Notes.read_envelope bytes >>= (λ p. ok (private_note p.0, p.1))
      else err DeserializationError.invalid_value

  unfoldable pub read_output_note : ⦃c : Crypto⦄ → Reader OutputNote
  read_output_note bytes = do (tag, bytes) ← s.read_int 1 bytes; read_tagged tag bytes

  unfoldable pub write_output_notes : OutputNotes.OutputNotes → Result ⊥ (List ℕ)
  write_output_notes n = do
    assert (ltb (length n.notes) (2 ^ 16))
    notes ← write_each write_output_note n.notes
    ok (s.write_int 2 (length n.notes) ++ notes)

  unfoldable pub read_output_notes : ⦃c : Crypto⦄ → Reader OutputNotes.OutputNotes
  read_output_notes bytes = do
    (num_notes, bytes) ← s.read_int 2 bytes
    (notes, rest) ← read_many read_output_note num_notes bytes
    made ← or_invalid (OutputNotes.new notes)
    ok (made, rest)
