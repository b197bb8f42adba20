-- ===== src/Notes/NoteInputs.antt =====
-- The inputs of a note (objects/src/notes/inputs.rs).
pub mod Values
use restartx.Common.{ℕ, ◌+◌, ◌-◌, ◌*◌, ◌%◌, ◌^◌, ◌==◌, ltb, if◌then◌else◌}
use restartx.Common.{Bool, true, false, not, List, length, resize, Option, none, some}
use restartx.Common.{Result, ok, err, panic, ◌>>=◌, ◌>>◌, guard, assert}
use restartx.Crypto.{Felt, Word, Digest, Crypto, field_modulus}
use restartx.Errors.{NoteError}

-- `MAX_INPUTS_PER_NOTE`
abbrev pub max_inputs_per_note : ℕ
max_inputs_per_note = 128

abbrev pub block_size : ℕ
block_size = 4 * 2

pub record NoteInputs : Type 0 where
  pub values : List Felt
  pub hash : Digest

-- `usize::next_multiple_of`
abbrev pub next_multiple_of : ℕ → ℕ → ℕ
next_multiple_of n k = if n % k == 0 then n else n + (k - n % k)

unfoldable pub pad_inputs : List Felt → List Felt
pad_inputs inputs = resize (next_multiple_of (length inputs) block_size) 0 inputs

-- `num_values` in a build with debug assertions: the count as a `u8`, or a panic.
unfoldable pub num_values {ℓ} : {E : Type ℓ} → NoteInputs → Result E ℕ
num_values inputs = do assert (ltb (length inputs.values) 128); ok (length inputs.values % 2 ^ 8)

unfoldable pub commitment_to_key : Digest → Digest
commitment_to_key commitment = record {
  e0 = commitment.e0;
  e1 = commitment.e1;
  e2 = commitment.e2;
  e3 = (commitment.e3 + 1) % field_modulus;
}

module _ ⦃c : Crypto⦄ where
  unfoldable pub new : List Felt → Result NoteError NoteInputs
  new values = do
    guard (not (ltb max_inputs_per_note (length values)))
        (NoteError.too_many_inputs (length values))
    ok (record { values = values; hash = c.hash_elements (pad_inputs values) })
