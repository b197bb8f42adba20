-- ===== src/Assets/Value/Bytes.antt =====
-- The 32 bytes of an asset are the bytes of its word, and are read back as the asset.
use restartx.Common.{ℕ, ◌≡◌, refl, arith, ok, List, ◌++◌, take, drop}
use restartx.Common.Bytes.{le_bytes, length-le_bytes, le_bytes-IsByte, of_le_bytes-le_bytes}
use restartx.Crypto.{IsFelt, IsWord, Word, Crypto}
use restartx.Types.{Asset}
use restartx.Types.Asset.{fungible, non_fungible}
use restartx.Accounts.Id
use restartx.Assets.Fungible
use restartx.Assets.NonFungible
use restartx.Assets.Value
use restartx.Assets.Value.Valid.{IsValid}
use restartx.Assets.Value.RoundTrip.{try_from_word-to_word, fungible_word}

pub word_bytes : Word → List ℕ
word_bytes w = le_bytes 8 w.e0 ++ (le_bytes 8 w.e1 ++ (le_bytes 8 w.e2 ++ le_bytes 8 w.e3))

module _ (a b d e : ℕ) where
  abbrev four : List ℕ
  four = le_bytes 8 a ++ (le_bytes 8 b ++ (le_bytes 8 d ++ le_bytes 8 e))

  chunks :
      (take 8 four ≡ le_bytes 8 a)
      × (take 8 (drop 8 four) ≡ le_bytes 8 b)
      × (take 8 (drop 16 four) ≡ le_bytes 8 d)
      × (drop 24 four ≡ le_bytes 8 e)
  unfolding le_bytes
  chunks = (refl, refl, refl, refl)

module _ ⦃c : Crypto⦄ where
  parse_felt-le_bytes : (v : ℕ) → IsFelt v → Value.parse_felt (le_bytes 8 v) ≡ ok v
  unfolding Value.parse_felt
  parse_felt-le_bytes v h = ground (
    arith,
    c.felt_of_bytes_lem (le_bytes 8 v) (length-le_bytes 8 v) (le_bytes-IsByte 8 v),
    of_le_bytes-le_bytes 8 v (omega arith),
  )

  -- The bytes of a word of field elements are read back as the word.
  pub parse_word-word_bytes : (w : Word) → IsWord w → Value.parse_word (word_bytes w) ≡ ok w
  unfolding Value.parse_word word_bytes
  parse_word-word_bytes w h = ground (
    arith,
    chunks w.e0 w.e1 w.e2 w.e3,
    parse_felt-le_bytes w.e0 h.0,
    parse_felt-le_bytes w.e1 h.1,
    parse_felt-le_bytes w.e2 h.2,
    parse_felt-le_bytes w.e3 h.3,
  )

  bytes_of_word : (a : Asset) → IsValid a → Value.to_bytes a ≡ word_bytes (Value.to_word a)
  unfolding Value.to_bytes Value.to_word Fungible.to_bytes NonFungible.to_bytes word_bytes
      Id.id_to_bytes
  bytes_of_word (fungible a) v = rw (fungible_word a v) (unfold le_bytes in refl)
  bytes_of_word (non_fungible a) v = refl

  to_word-IsWord : (a : Asset) → IsValid a → IsWord (Value.to_word a)
  unfolding Value.to_word
  to_word-IsWord (fungible a) v =
      rw (fungible_word a v) (omega (arith, v.bounded, v.faucet.is_felt))
  to_word-IsWord (non_fungible a) v = v.is_word

  -- The bytes of a valid asset are read back as that asset.
  pub try_from_bytes-to_bytes :
      (a : Asset) → IsValid a → Value.try_from_bytes (Value.to_bytes a) ≡ ok a
  unfolding Value.try_from_bytes
  try_from_bytes-to_bytes a v =
      rw (bytes_of_word a v, parse_word-word_bytes (Value.to_word a) (to_word-IsWord a v))
        (try_from_word-to_word a v)
