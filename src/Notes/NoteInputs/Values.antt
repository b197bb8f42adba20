-- ===== src/Notes/NoteInputs/Values.antt =====
-- The padding of inputs and the number of their values.
use restartx.Common.{ℕ, ◌+◌, ◌-◌, ◌%◌, ◌≤◌, ◌<◌, ◌≡◌, ◌≢◌, ap, arith, ◌==◌, if◌then◌else◌}
use restartx.Common.{List, ◌++◌, length, replicate, resize_longer}
use restartx.Common.{ok, panic}
use restartx.Crypto.{Felt, Word, Digest, Crypto, IsWord}
use restartx.Notes.NoteInputs
use restartx.Notes.NoteInputs.{NoteInputs}

-- Padding puts fewer than eight zeros behind the values, so that they make whole blocks of eight.
pub pad_inputs_lem :
    (xs : List Felt)
    → (n : ℕ) × (NoteInputs.pad_inputs xs ≡ xs ++ replicate n 0)
      × (n < 8)
      × ((length xs + n) % 8 ≡ 0)
unfolding NoteInputs.pad_inputs
pad_inputs_lem xs =
    let n = (8 - length xs % 8) % 8 in
    (
      n,
      resize_longer (NoteInputs.next_multiple_of (length xs) 8) n 0 xs (ground arith),
      omega arith,
      omega arith,
    )

-- The key of the raw inputs is not the commitment itself.
pub commitment_to_key-differs : (d : Digest) → IsWord d → NoteInputs.commitment_to_key d ≢ d
unfolding NoteInputs.commitment_to_key
commitment_to_key-differs d w h = omega (arith, w.3, ap Word.e3 h)

module _ ⦃c : Crypto⦄ where
  -- The constructor accepts up to 128 values. The number of values is then returned, except for
  -- exactly 128 values, where the debug assertion on it fails.
  pub num_values-new :
      {E : Type 0} (xs : List Felt) (n : NoteInputs)
      → NoteInputs.new xs ≡ ok n
      → (length xs ≤ 128)
        × (NoteInputs.num_values {E = E} n ≡ (if length xs == 128 then panic else ok (length xs)))
  unfolding NoteInputs.new NoteInputs.num_values
  num_values-new xs n h = (ground arith, ground arith)
