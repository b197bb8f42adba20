-- ===== src/Assets/Symbol/Codec.antt =====
-- What the encoding of a symbol means, and its inverse.
use restartx.Common.{ℕ, zero, suc, ◌+◌, ◌-◌, ◌*◌, ◌^◌, ◌≤◌, ◌<◌, ◌≡◌, refl, ◌∙◌, arith}
use mathlib.Core.Path.{ap₂}
use restartx.Common.{false, not, List, [], ◌∷◌, ◌++◌, length, any, All, replicate}
use restartx.Common.{ok, length-append, length-replicate}
use mathlib.Core.List.{append-nil}
use native.Mathlib.Nat.{pow-suc, add-zero}
use restartx.Crypto.{Crypto}
use restartx.Errors.{AssetError}
use restartx.Assets.Symbol
use restartx.Assets.Symbol.{TokenSymbol}

abbrev pub IsLetter : ℕ → Type 0
IsLetter b = (b'A' ≤ b) × (b ≤ b'Z')

-- The symbols that the encoder accepts.
pub record IsSymbol (s : List ℕ) : Type 0 where
  pub nonempty : 0 < length s
  pub short : length s ≤ 6
  pub letters : All IsLetter s

-- The value in base 26, on top of `acc`.
value_from : ℕ → List ℕ → ℕ
value_from acc [] = acc
value_from acc (b ∷ bs) = value_from (acc * 26 + (b - b'A')) bs

encode_loop-value :
    (s : List ℕ) (acc : ℕ) → All IsLetter s → Symbol.encode_loop s acc ≡ ok (value_from acc s)
unfolding Symbol.encode_loop value_from
encode_loop-value [] acc h = refl
encode_loop-value (b ∷ bs) acc h =
    ground (arith, h.0, encode_loop-value bs (acc * 26 + (b - b'A')) h.1)

shift_suc : (k n : ℕ) → k + suc n ≡ suc k + n
shift_suc k n = omega arith

value_from-lt :
    (s : List ℕ) (acc k : ℕ)
    → All IsLetter s
    → acc < 26 ^ k
    → value_from acc s < 26 ^ (k + length s)
unfolding value_from
value_from-lt [] acc k h l = rw add-zero l
value_from-lt (b ∷ bs) acc k h l =
    rw (shift_suc k (length bs))
      (value_from-lt bs (acc * 26 + (b - b'A')) (suc k) h.1 (omega (arith, h.0, pow-suc 26 k)))

any_letters : (s : List ℕ) → All IsLetter s → any (λ b. not (Symbol.is_ascii_uppercase b)) s ≡ false
any_letters [] h = refl
any_letters (b ∷ bs) h = ground (arith, h.0, any_letters bs h.1)

All-letters : (s : List ℕ) → any (λ b. not (Symbol.is_ascii_uppercase b)) s ≡ false → All IsLetter s
All-letters [] h = tt
All-letters (b ∷ bs) h = (ground arith, All-letters bs (ground arith))

-- A decoding that takes off the letters of `s` from the end, and leaves `acc`.
decode_loop-value :
    (s : List ℕ) (rounds acc : ℕ) (out : List ℕ)
    → All IsLetter s
    → Symbol.decode_loop (rounds + length s) (value_from acc s) out
      ≡ Symbol.decode_loop rounds acc (s ++ out)
unfolding Symbol.decode_loop value_from
decode_loop-value [] rounds acc out h = rw add-zero
decode_loop-value (b ∷ bs) rounds acc out h =
    let acc' = acc * 26 + (b - b'A') in
    rw (shift_suc rounds (length bs)) (
      decode_loop-value bs (suc rounds) acc' out h.1
      ∙ ap₂ (λ (q d : ℕ). Symbol.decode_loop rounds q (d ∷ (bs ++ out))) {y = acc} {v = b}
          (omega (arith, h.0)) (omega (arith, h.0)))

-- Letters A in front of a symbol, up to six letters in all.
abbrev pub padded : List ℕ → List ℕ
padded s = replicate (6 - length s) b'A' ++ s

value_from-leading : (n : ℕ) (s : List ℕ) → value_from 0 (replicate n b'A' ++ s) ≡ value_from 0 s
unfolding value_from
value_from-leading zero s = refl
value_from-leading (suc n) s = value_from-leading n s

replicate-letters : (n : ℕ) (s : List ℕ) → All IsLetter s → All IsLetter (replicate n b'A' ++ s)
replicate-letters zero s h = h
replicate-letters (suc n) s h = (omega arith, replicate-letters n s h)

length-leading : (n : ℕ) (s : List ℕ) → length (replicate n b'A' ++ s) ≡ n + length s
length-leading n s =
    omega (arith, length-append (replicate n b'A') s, length-replicate {A = ℕ} n b'A')

length-padded : (s : List ℕ) → length s ≤ 6 → length (padded s) ≡ 6
length-padded s h = omega (arith, length-leading (6 - length s) s)

value-lt : (s : List ℕ) → IsSymbol s → value_from 0 s < 26 ^ 6
value-lt s h =
    rw (length-padded s h.short, value_from-leading (6 - length s) s) at
      (value_from-lt (padded s) 0 0 (replicate-letters (6 - length s) s h.letters) (omega arith))

decode-value : (s : List ℕ) → IsSymbol s → Symbol.decode_loop 6 (value_from 0 s) [] ≡ padded s
unfolding Symbol.decode_loop
decode-value s h =
    rw (length-padded s h.short, value_from-leading (6 - length s) s, append-nil) at
      (decode_loop-value (padded s) 0 0 [] (replicate-letters (6 - length s) s h.letters))

leading-IsSymbol :
    (n : ℕ) (s : List ℕ) → IsSymbol s → n + length s ≤ 6 → IsSymbol (replicate n b'A' ++ s)
leading-IsSymbol n s h l = record {
  nonempty = omega (arith, length-leading n s, h.nonempty);
  short = omega (arith, length-leading n s, l);
  letters = replicate-letters n s h.letters;
}

module _ ⦃c : Crypto⦄ where
  new-value : (s : List ℕ) → IsSymbol s → Symbol.new s ≡ ok (record { felt = value_from 0 s })
  unfolding Symbol.new Symbol.encode_symbol_to_felt
  new-value s h = ground (
    arith,
    h.nonempty,
    h.short,
    any_letters s h.letters,
    encode_loop-value s 0 h.letters,
    c.felt_new_of_lt (value_from 0 s) (omega (arith, value-lt s h)),
  )

  -- Every symbol of one to six upper-case letters is encoded, below 26^6, and its decoding is the
  -- symbol with letters A in front, up to six letters.
  pub to_str-new :
      (s : List ℕ)
      → IsSymbol s
      → (t : TokenSymbol) × (Symbol.new s ≡ ok t)
        × (t.felt < 26 ^ 6)
        × (Symbol.to_str {E = AssetError} t ≡ ok (padded s))
  unfolding Symbol.to_str Symbol.decode_felt_to_symbol
  to_str-new s h = (
    record { felt = value_from 0 s },
    new-value s h,
    value-lt s h,
    ground (arith, value-lt s h, decode-value s h),
  )

  -- A symbol that the constructor accepts consists of one to six upper-case letters.
  pub new-IsSymbol : (s : List ℕ) (t : TokenSymbol) → Symbol.new s ≡ ok t → IsSymbol s
  unfolding Symbol.new Symbol.encode_symbol_to_felt
  new-IsSymbol s t h = record {
    nonempty = ground (arith, h);
    short = ground (arith, h);
    letters = All-letters s (ground (arith, h));
  }

  -- Letters A in front of a symbol do not change its encoding, as long as six letters are enough.
  pub new-leading :
      (n : ℕ) (s : List ℕ)
      → IsSymbol s
      → n + length s ≤ 6
      → Symbol.new (replicate n b'A' ++ s) ≡ Symbol.new s
  new-leading n s h l = ground (
    arith,
    new-value s h,
    new-value (replicate n b'A' ++ s) (leading-IsSymbol n s h l),
    value_from-leading n s,
  )
