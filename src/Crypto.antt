-- ===== src/Crypto.antt =====
-- What the code takes from miden-crypto and from the VM's field: field elements and the hash.
-- A field element is written as its canonical integer (`Felt::as_int`), and `[Felt; 4]` as a
-- record of four. The operations that are not read off such integers are the fields of `Crypto`,
-- with what their documentation says of them; the modulus is that of the field, 2^64 - 2^32 + 1.
use restartx.Common.{ℕ, ◌+◌, ◌-◌, ◌%◌, ◌^◌, ◌<◌, ◌≡◌, ◌↔◌, arith}
use restartx.Common.{Bool, true, ◌&&◌, ◌==◌, ltb, if◌then◌else◌}
use restartx.Common.{Option, none, some, List, [], ◌∷◌, length, All}
use restartx.Common.Bytes.{IsByte, of_le_bytes}

abbrev pub Felt : Type 0
Felt = ℕ

-- `Word`, and `Digest`, which wraps one. `e3` is the most significant element.
pub record Word : Type 0 where
  pub e0 : Felt
  pub e1 : Felt
  pub e2 : Felt
  pub e3 : Felt

abbrev pub Digest : Type 0
Digest = Word

-- `Word::default()`, `EMPTY_WORD` and `Smt::EMPTY_VALUE`
abbrev pub empty_word : Word
empty_word = record { e0 = 0; e1 = 0; e2 = 0; e3 = 0 }

-- `==` on words
abbrev pub word_eq : Word → Word → Bool
word_eq a b = (a.e0 == b.e0) && (a.e1 == b.e1) && (a.e2 == b.e2) && (a.e3 == b.e3)

pub word_eq_iff : (a b : Word) → (word_eq a b ≡ true) ↔ (a ≡ b)
word_eq_iff a b = ground arith

-- The elements in order, as an array or a slice is walked.
abbrev pub elements : Word → List Felt
elements w = w.e0 ∷ w.e1 ∷ w.e2 ∷ w.e3 ∷ []

abbrev pub field_modulus : ℕ
field_modulus = 2 ^ 64 - 2 ^ 32 + 1

abbrev pub IsFelt : ℕ → Type 0
IsFelt v = v < field_modulus

abbrev pub IsWord : Word → Type 0
IsWord w = IsFelt w.e0 × IsFelt w.e1 × IsFelt w.e2 × IsFelt w.e3

pub record Crypto : Type 0 where
  -- `Felt::new(u64)`, as a canonical integer
  pub felt_new : ℕ → Felt
  -- the sum of two field elements
  pub felt_add : Felt → Felt → Felt
  -- `Felt::try_from(&[u8])`
  pub felt_of_bytes : List ℕ → Option Felt
  -- `Hasher::hash_elements`, `Hasher::hash` and `Hasher::merge`
  pub hash_elements : List Felt → Digest
  pub hash_bytes : List ℕ → Digest
  pub merge : Digest → Digest → Digest
  pub felt_new-lt : (v : ℕ) → IsFelt (felt_new v)
  pub felt_new_of_lt : (v : ℕ) → IsFelt v → felt_new v ≡ v
  pub felt_add_lem : (a b : Felt) → felt_add a b ≡ (a + b) % field_modulus
  pub felt_of_bytes_lem :
      (bs : List ℕ)
      → length bs ≡ 8
      → All IsByte bs
      → felt_of_bytes bs
        ≡ (if ltb (of_le_bytes bs) field_modulus then some (of_le_bytes bs) else none)
  pub hash_elements-IsWord : (es : List Felt) → IsWord (hash_elements es)
  pub hash_bytes-IsWord : (bs : List ℕ) → IsWord (hash_bytes bs)
  pub merge-IsWord : (a b : Digest) → IsWord (merge a b)
