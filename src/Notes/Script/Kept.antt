-- ===== src/Notes/Script/Kept.antt =====
-- What is left of the bytes of a script when its elements are read back.
use restartx.Common.{
  ℕ, suc, ◌+◌, ◌-◌, ◌%◌, ◌^◌, ◌<◌, ◌≡◌, ◌≢◌, refl, ap, ◌∙◌, arith, ◌==◌, ==_iff, inl, inr,
  Bool-cases, if◌then◌else◌,
}
use restartx.Common.{List, [], ◌∷◌, ◌++◌, length, resize, replicate, take, drop, All, ok}
use restartx.Common.Bytes.{IsByte, le_bytes, of_le_bytes, le_bytes-of_le_bytes}
use restartx.Crypto.{Digest, Crypto}
use restartx.Notes.Script

-- Whole groups of four bytes, where a group of two or three is filled up with zeros.
abbrev kept : List ℕ → List ℕ
kept (b0 ∷ b1 ∷ b2 ∷ b3 ∷ rest) = b0 ∷ b1 ∷ b2 ∷ b3 ∷ kept rest
kept (b0 ∷ b1 ∷ b2 ∷ []) = b0 ∷ b1 ∷ b2 ∷ 0 ∷ []
kept (b0 ∷ b1 ∷ []) = b0 ∷ b1 ∷ 0 ∷ 0 ∷ []
kept (b0 ∷ []) = []
kept [] = []

abbrev zeros : List ℕ → List ℕ
zeros bytes = replicate ((4 - length bytes % 4) % 4) 0

kept_all : (bytes : List ℕ) → length bytes % 4 ≢ 1 → kept bytes ≡ bytes ++ zeros bytes
kept_all (b0 ∷ b1 ∷ b2 ∷ b3 ∷ rest) h =
    let same : (4 - suc (suc (suc (suc (length rest)))) % 4) % 4 ≡ (4 - length rest % 4) % 4 =
      omega arith in
    rw (same, kept_all rest (λ e. h (omega (arith, e)))) refl
kept_all (b0 ∷ b1 ∷ b2 ∷ []) h = refl
kept_all (b0 ∷ b1 ∷ []) h = refl
kept_all (b0 ∷ []) h = absurd (h refl)
kept_all [] h = refl

kept_but_one : (bytes : List ℕ) → length bytes % 4 ≡ 1 → kept bytes ≡ take (length bytes - 1) bytes
kept_but_one (b0 ∷ b1 ∷ b2 ∷ b3 ∷ []) h = absurd (omega (arith, h))
kept_but_one (b0 ∷ b1 ∷ b2 ∷ b3 ∷ b4 ∷ rest) h =
    let n = length rest in
    let e : suc (suc (suc (suc (suc n - 1)))) ≡ suc (suc (suc (suc (suc n)))) - 1 = omega arith in
    ap (λ (xs : List ℕ). b0 ∷ b1 ∷ b2 ∷ b3 ∷ xs) (kept_but_one (b4 ∷ rest) (omega (arith, h)))
    ∙ ap (λ (k : ℕ). take k (b0 ∷ b1 ∷ b2 ∷ b3 ∷ b4 ∷ rest)) e
kept_but_one (b0 ∷ b1 ∷ b2 ∷ []) h = absurd (omega (arith, h))
kept_but_one (b0 ∷ b1 ∷ []) h = absurd (omega (arith, h))
kept_but_one (b0 ∷ []) h = refl
kept_but_one [] h = absurd (omega (arith, h))

kept_cases :
    (bytes : List ℕ)
    → kept bytes
      ≡ (if length bytes % 4 == 1 then take (length bytes - 1) bytes else bytes ++ zeros bytes)
kept_cases bytes = elim (Bool-cases (length bytes % 4 == 1)) [
  | inl one ↦ rw one (kept_but_one bytes ((==_iff (length bytes % 4) 1).0 one))
  | inr other ↦ rw other (kept_all bytes (λ e. cc ((==_iff (length bytes % 4) 1).1 e, other)))
]

decode_cons :
    (felt : ℕ) (felts group later : List ℕ)
    → felt < 2 ^ 32
    → le_bytes 4 felt ≡ group
    → Script.decode felts ≡ ok later
    → Script.decode (felt ∷ felts) ≡ ok (group ++ later)
unfolding Script.decode
decode_cons felt felts group later small read rest = ground (arith, small, read, rest)

module _ ⦃c : Crypto⦄ where
  decode-group :
      (b0 b1 b2 b3 : ℕ) (felts later : List ℕ)
      → All IsByte (b0 ∷ b1 ∷ b2 ∷ b3 ∷ [])
      → Script.decode felts ≡ ok later
      → Script.decode (c.felt_new (of_le_bytes (b0 ∷ b1 ∷ b2 ∷ b3 ∷ [])) ∷ felts)
        ≡ ok (b0 ∷ b1 ∷ b2 ∷ b3 ∷ later)
  unfolding of_le_bytes
  decode-group b0 b1 b2 b3 felts later h rest =
      let group = b0 ∷ b1 ∷ b2 ∷ b3 ∷ [] in
      let small : of_le_bytes group < 2 ^ 32 = omega (arith, h.0, h.1.0, h.1.1.0, h.1.1.1.0) in
      let same : c.felt_new (of_le_bytes group) ≡ of_le_bytes group =
        c.felt_new_of_lt (of_le_bytes group) (omega (arith, small)) in
      decode_cons (c.felt_new (of_le_bytes group)) felts group later (rw same small)
        (ap (le_bytes 4) same ∙ le_bytes-of_le_bytes group h) rest

  decode-encode :
      (bytes : List ℕ)
      → All IsByte bytes
      → Script.decode (Script.encode (resize (length bytes + length bytes % 4) 0 bytes))
        ≡ ok (kept bytes)
  unfolding Script.encode Script.decode
  decode-encode (b0 ∷ b1 ∷ b2 ∷ b3 ∷ rest) h =
      let n = length rest in
      let e : suc (suc (suc (suc n))) + suc (suc (suc (suc n))) % 4
          ≡ suc (suc (suc (suc (n + n % 4)))) =
        omega arith in
      ap (λ (k : ℕ). Script.decode (Script.encode (resize k 0 (b0 ∷ b1 ∷ b2 ∷ b3 ∷ rest)))) e
      ∙ decode-group b0 b1 b2 b3 (Script.encode (resize (n + n % 4) 0 rest)) (kept rest)
          (h.0, (h.1.0, (h.1.1.0, (h.1.1.1.0, tt)))) (decode-encode rest h.1.1.1.1)
  decode-encode (b0 ∷ b1 ∷ b2 ∷ []) h =
      decode-group b0 b1 b2 0 [] [] (h.0, (h.1.0, (h.1.1.0, (omega arith, tt)))) refl
  decode-encode (b0 ∷ b1 ∷ []) h =
      decode-group b0 b1 0 0 [] [] (h.0, (h.1.0, (omega arith, (omega arith, tt)))) refl
  decode-encode (b0 ∷ []) h = refl
  decode-encode [] h = refl

  -- The bytes of a script are read back from its elements with up to three zeros behind them,
  -- unless their number is one more than a multiple of four: then the last byte is lost.
  pub decode-to_felts :
      (hash : Digest) (bytes : List ℕ)
      → All IsByte bytes
      → Script.decode (drop 5 (Script.to_felts hash bytes))
        ≡ ok (
            if length bytes % 4 == 1
            then take (length bytes - 1) bytes
            else bytes ++ replicate ((4 - length bytes % 4) % 4) 0)
  unfolding Script.to_felts
  decode-to_felts hash bytes h = decode-encode bytes h ∙ ap ok (kept_cases bytes)
