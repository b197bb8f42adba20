-- ===== src/Streams.antt =====
-- The byte streams of the protocol objects (`Serializable` and `Deserializable`). What is written
-- is a list of bytes, and a reader returns the value and the bytes behind it. The writers and
-- readers of numbers, field elements and digests are those of miden-crypto (`ByteWriter` and
-- `ByteReader`), with the law that what is written is read back.
pub mod Parts
pub mod Notes
pub mod Deltas
pub mod Transactions
use restartx.Common.{
  ℕ, zero, suc, ◌^◌, ◌<◌, ◌≡◌, refl, ap, ◌∙◌, arith, List, [], ◌∷◌, ◌++◌, length, All,
}
use restartx.Common.{Option, none, some, Result, ok, err, panic, ◌>>=◌, map_err}
use restartx.Crypto.{Felt, Word, Digest, IsFelt, IsWord}
use restartx.Notes.Commitments.{NoteScript}
use restartx.Notes.Script.{DeserializationError}

abbrev pub Reader : Type 0 → Type 0
Reader A = List ℕ → Result DeserializationError (A × List ℕ)

-- What was written of the value is read back, whatever stands behind it.
abbrev pub ReadsBack : {A : Type 0} → Reader A → List ℕ → A → Type 0
ReadsBack read bytes a = (rest : List ℕ) → read (bytes ++ rest) ≡ ok (a, rest)

pub record Streams : Type 0 where
  -- unsigned integers, by their number of bytes
  pub write_int : ℕ → ℕ → List ℕ
  pub read_int : ℕ → Reader ℕ
  pub write_felt : Felt → List ℕ
  pub read_felt : Reader Felt
  -- words and digests
  pub write_word : Word → List ℕ
  pub read_word : Reader Word
  -- `Option<Felt>`
  pub write_option : Option Felt → List ℕ
  pub read_option : Reader (Option Felt)
  -- `read_vec`
  pub read_vec : ℕ → Reader (List ℕ)
  -- the program of a script
  pub write_code : NoteScript → List ℕ
  pub read_code : Reader (Unit {0})
  pub int_back : (w v : ℕ) → v < 256 ^ w → ReadsBack (read_int w) (write_int w v) v
  pub felt_back : (v : Felt) → IsFelt v → ReadsBack read_felt (write_felt v) v
  pub word_back : (v : Word) → IsWord v → ReadsBack read_word (write_word v) v
  pub option_back : (v : Felt) → IsFelt v → ReadsBack read_option (write_option (some v)) (some v)
  pub none_back : ReadsBack read_option (write_option none) none
  pub vec_back : (bytes : List ℕ) → ReadsBack (read_vec (length bytes)) bytes bytes
  pub code_back : (script : NoteScript) → ReadsBack read_code (write_code script) tt

-- `map_err(|err| DeserializationError::InvalidValue(..))`
abbrev pub or_invalid {ℓ} : {E : Type ℓ} {A : Type 0} → Result E A → Result DeserializationError A
or_invalid r = map_err (λ e. DeserializationError.invalid_value) r

-- `write_many`
unfoldable pub write_many : {A : Type 0} → (A → List ℕ) → List A → List ℕ
write_many write [] = []
write_many write (x ∷ xs) = write x ++ write_many write xs

-- `read_many`
unfoldable pub read_many : {A : Type 0} → Reader A → ℕ → Reader (List A)
read_many read zero bytes = ok ([], bytes)
read_many read (suc n) bytes = do
  (x, behind) ← read bytes
  (xs, rest) ← read_many read n behind
  ok (x ∷ xs, rest)

pub append_assoc : (xs ys zs : List ℕ) → (xs ++ ys) ++ zs ≡ xs ++ (ys ++ zs)
append_assoc [] ys zs = refl
append_assoc (x ∷ xs) ys zs = ap (λ (t : List ℕ). x ∷ t) (append_assoc xs ys zs)

-- Many values are read back if each of them is.
pub read_many-write_many {ℓ} :
    {A : Type 0} (P : A → Type ℓ) (write : A → List ℕ) (read : Reader A)
    → ((x : A) → P x → ReadsBack read (write x) x)
    → (xs : List A) → All P xs
    → ReadsBack (read_many read (length xs)) (write_many write xs) xs
unfolding read_many write_many
read_many-write_many P write read back [] all rest = refl
read_many-write_many P write read back (x ∷ xs) all rest =
    rw
      (
        append_assoc (write x) (write_many write xs) rest,
        back x all.0 (write_many write xs ++ rest),
        read_many-write_many P write read back xs all.1 rest,
      )
      refl

-- The first of two values that were written.
pub back_first :
    {A : Type 0} (read : Reader A) (bytes : List ℕ) (a : A) (more rest : List ℕ)
    → ReadsBack read bytes a
    → read ((bytes ++ more) ++ rest) ≡ ok (a, more ++ rest)
back_first read bytes a more rest back =
    ap read (append_assoc bytes more rest) ∙ back (more ++ rest)
