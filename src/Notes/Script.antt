-- ===== src/Notes/Script.antt =====
-- Note scripts as field elements (objects/src/notes/script.rs): the hash, the length of the
-- program's bytes, and the bytes, four to an element. The program itself, of the assembler, is
-- given by its bytes.
pub mod Kept
use restartx.Common.{ℕ, ◌+◌, ◌%◌, ◌^◌, ltb, not, Bool, if◌then◌else◌}
use restartx.Common.{List, [], ◌∷◌, ◌++◌, length, resize, Option, none, some}
use restartx.Common.{Result, ok, err, panic, ◌>>=◌, ◌>>◌, guard}
use restartx.Common.Bytes.{le_bytes, of_le_bytes}
use restartx.Crypto.{Felt, Word, Digest, Crypto, elements}
use restartx.Notes.Commitments.{NoteScript}

-- `DeserializationError`, without texts
pub data DeserializationError : Type 0 where
  unexpected_eof : DeserializationError
  invalid_value : DeserializationError

-- `ProgramAst::from_bytes` of the assembler, of which it counts whether it succeeds.
pub record Assembler : Type 0 where
  pub from_bytes : List ℕ → Result DeserializationError (Unit {0})

-- The loop that reads the elements behind the length. `shrink_to` only gives back memory.
unfoldable pub decode : List Felt → Result DeserializationError (List ℕ)
decode [] = ok []
decode (felt ∷ rest) = do
  guard (ltb felt (2 ^ 32)) DeserializationError.invalid_value
  later ← decode rest
  ok (le_bytes 4 felt ++ later)

-- `NoteScript::try_from(&[Felt])`
unfoldable pub try_from_felts : ⦃a : Assembler⦄ → List Felt → Result DeserializationError NoteScript
try_from_felts ⦃a⦄ (h0 ∷ h1 ∷ h2 ∷ h3 ∷ len ∷ data_felts) = do
  bytes ← decode data_felts
  code ← a.from_bytes bytes
  ok (record { hash = record { e0 = h0; e1 = h1; e2 = h2; e3 = h3 } })
try_from_felts _ = err DeserializationError.unexpected_eof

module _ ⦃c : Crypto⦄ where
  -- The loop that takes four bytes at a time while there are four.
  unfoldable pub encode : List ℕ → List Felt
  encode (b0 ∷ b1 ∷ b2 ∷ b3 ∷ rest) =
      c.felt_new (of_le_bytes (b0 ∷ b1 ∷ b2 ∷ b3 ∷ [])) ∷ encode rest
  encode _ = []

  -- `Vec<Felt>::from(&NoteScript)`
  unfoldable pub to_felts : Digest → List ℕ → List Felt
  to_felts hash bytes =
      let len = length bytes in
      let missing = len % 4 in
      elements hash ++ (c.felt_new len ∷ encode (resize (len + missing) 0 bytes))
