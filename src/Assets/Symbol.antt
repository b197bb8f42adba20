-- ===== src/Assets/Symbol.antt =====
-- Token symbols (objects/src/assets/token_symbol.rs). A text is the list of its UTF-8 bytes. A
-- character that is not an ASCII upper-case letter shows as a byte that is none, so the test on
-- characters is made on the bytes.
pub mod Codec
use restartx.Common.{ℕ, zero, suc, ◌+◌, ◌-◌, ◌*◌, ◌/◌, ◌%◌, ◌^◌, ◌==◌, ltb, leb, if◌then◌else◌}
use restartx.Common.{Bool, true, false, not, ◌&&◌, ◌||◌, List, [], ◌∷◌, length, any}
use restartx.Common.{Result, ok, err, panic, ◌>>=◌, ◌>>◌, guard, assert}
use restartx.Crypto.{Felt, Crypto}
use restartx.Errors.{AssetError}

-- `TokenSymbol(Felt)`
pub record TokenSymbol : Type 0 where
  pub felt : Felt

abbrev pub max_symbol_length : ℕ
max_symbol_length = 6

abbrev pub max_encoded_value : ℕ
max_encoded_value = 26 ^ max_symbol_length

abbrev pub is_ascii_uppercase : ℕ → Bool
is_ascii_uppercase b = leb b'A' b && leb b b'Z'

-- The loop over the characters, with `encoded_value` as its variable.
unfoldable pub encode_loop : List ℕ → ℕ → Result AssetError ℕ
encode_loop [] encoded_value = ok encoded_value
encode_loop (b ∷ bs) encoded_value =
    let digit = b - b'A' in assert (ltb digit 26) >> encode_loop bs (encoded_value * 26 + digit)

-- The loop of `rounds` rounds, each of which puts a character in front.
unfoldable pub decode_loop : ℕ → ℕ → List ℕ → List ℕ
decode_loop zero remaining_value decoded = decoded
decode_loop (suc rounds) remaining_value decoded =
    decode_loop rounds (remaining_value / 26) ((remaining_value % 26 + b'A') ∷ decoded)

unfoldable pub decode_felt_to_symbol {ℓ} : {E : Type ℓ} → Felt → Result E (List ℕ)
decode_felt_to_symbol encoded = do
  assert (ltb encoded max_encoded_value)
  ok (decode_loop 6 encoded [])

unfoldable pub to_str {ℓ} : {E : Type ℓ} → TokenSymbol → Result E (List ℕ)
to_str symbol = decode_felt_to_symbol symbol.felt

-- `TokenSymbol::try_from(Felt)`
unfoldable pub try_from_felt : Felt → Result AssetError TokenSymbol
try_from_felt felt = do
  guard (ltb felt max_encoded_value) AssetError.token_symbol_error
  ok (record { felt = felt })

module _ ⦃c : Crypto⦄ where
  unfoldable pub encode_symbol_to_felt : List ℕ → Result AssetError Felt
  encode_symbol_to_felt s = do
    guard (not ((length s == 0) || ltb max_symbol_length (length s))) AssetError.token_symbol_error
    guard (not (any (λ b. not (is_ascii_uppercase b)) s)) AssetError.token_symbol_error
    encoded_value ← encode_loop s 0
    ok (c.felt_new encoded_value)

  unfoldable pub new : List ℕ → Result AssetError TokenSymbol
  new symbol = do felt ← encode_symbol_to_felt symbol; ok (record { felt = felt })
