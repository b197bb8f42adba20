-- ===== src/Common/Lists.antt =====
-- `Vec` and slices as lists, measured and indexed by native numbers.
use Prim.Native.Nat.{ℕ, zero, suc, ◌+◌, ◌<◌}
use mathlib.Core.Logic.{◌≢◌, ◌↔◌}
use mathlib.Core.Path.{◌≡◌, refl, ap, ◌∙◌}
use mathlib.Core.List.{List, [], ◌∷◌, ◌++◌, map}
use mathlib.Core.Option.{Option, none, some}
use mathlib.Core.Bool.{Bool, false, ◌||◌}
use native.Mathlib.Omega.{arith}

module _ {ℓ} {A : Type ℓ} where
  abbrev pub length : List A → ℕ
  length [] = 0
  length (x ∷ xs) = suc (length xs)

  abbrev pub get_elem? : List A → ℕ → Option A
  get_elem? [] i = none
  get_elem? (x ∷ xs) zero = some x
  get_elem? (x ∷ xs) (suc i) = get_elem? xs i

  abbrev pub take : ℕ → List A → List A
  take zero xs = []
  take (suc n) [] = []
  take (suc n) (x ∷ xs) = x ∷ take n xs

  abbrev pub drop : ℕ → List A → List A
  drop zero xs = xs
  drop (suc n) [] = []
  drop (suc n) (x ∷ xs) = drop n xs

  -- `xs[i] = a`, without effect out of range
  abbrev pub set_elem : List A → ℕ → A → List A
  set_elem [] i a = []
  set_elem (x ∷ xs) zero a = a ∷ xs
  set_elem (x ∷ xs) (suc i) a = x ∷ set_elem xs i a

  abbrev pub replicate : ℕ → A → List A
  replicate zero a = []
  replicate (suc n) a = a ∷ replicate n a

  -- `iter().any(..)`
  abbrev pub any : (A → Bool) → List A → Bool
  any p [] = false
  any p (x ∷ xs) = p x || any p xs

  abbrev pub All {κ} : (A → Type κ) → List A → Type κ
  All P [] = Unit
  All P (x ∷ xs) = P x × All P xs

  -- The relation holds from each element to each one behind it.
  abbrev pub Pairwise {κ} : (A → A → Type κ) → List A → Type κ
  Pairwise R [] = Unit
  Pairwise R (x ∷ xs) = All (R x) xs × Pairwise R xs

  -- `Vec::resize`
  abbrev pub resize : ℕ → A → List A → List A
  resize zero a xs = []
  resize (suc n) a [] = a ∷ resize n a []
  resize (suc n) a (x ∷ xs) = x ∷ resize n a xs

  abbrev pub reverse : List A → List A
  reverse [] = []
  reverse (x ∷ xs) = reverse xs ++ (x ∷ [])

  pub length-resize : (n : ℕ) (a : A) (xs : List A) → length (resize n a xs) ≡ n
  length-resize zero a xs = refl
  length-resize (suc n) a [] = ap suc (length-resize n a [])
  length-resize (suc n) a (x ∷ xs) = ap suc (length-resize n a xs)

  resize-nil : (n : ℕ) (a : A) → resize n a [] ≡ replicate n a
  resize-nil zero a = refl
  resize-nil (suc n) a = cc (resize-nil n a)

  -- Nothing is cut off by a longer size: the new places are filled.
  pub resize_longer :
      (n d : ℕ) (a : A) (xs : List A) → n ≡ length xs + d → resize n a xs ≡ xs ++ replicate d a
  resize_longer n d a [] h =
      let same : n ≡ d = omega (arith, h) in resize-nil n a ∙ ap (λ (k : ℕ). replicate k a) same
  resize_longer zero d a (x ∷ xs) h = absurd (omega (arith, h))
  resize_longer (suc n) d a (x ∷ xs) h = cc (resize_longer n d a xs (omega (arith, h)))

  pub length-append : (xs ys : List A) → length (xs ++ ys) ≡ length xs + length ys
  length-append [] ys = omega arith
  length-append (x ∷ xs) ys = omega (arith, length-append xs ys)

  pub length-replicate : (n : ℕ) (a : A) → length (replicate n a) ≡ n
  length-replicate zero a = refl
  length-replicate (suc n) a = ap suc (length-replicate n a)

  pub length-set_elem : (xs : List A) (i : ℕ) (a : A) → length (set_elem xs i a) ≡ length xs
  length-set_elem [] i a = refl
  length-set_elem (x ∷ xs) zero a = refl
  length-set_elem (x ∷ xs) (suc i) a = ap suc (length-set_elem xs i a)

  pub get_elem?-set_elem :
      (xs : List A) (i j : ℕ) (a : A) → i ≢ j → get_elem? (set_elem xs i a) j ≡ get_elem? xs j
  get_elem?-set_elem [] i j a h = refl
  get_elem?-set_elem (x ∷ xs) zero zero a h = absurd (h refl)
  get_elem?-set_elem (x ∷ xs) zero (suc j) a h = refl
  get_elem?-set_elem (x ∷ xs) (suc i) zero a h = refl
  get_elem?-set_elem (x ∷ xs) (suc i) (suc j) a h = get_elem?-set_elem xs i j a (λ e. h (ap suc e))

  pub get_elem?-some : (xs : List A) (i : ℕ) → i < length xs → (x : A) × (get_elem? xs i ≡ some x)
  get_elem?-some [] i h = absurd (omega (arith, h))
  get_elem?-some (x ∷ xs) zero h = (x, refl)
  get_elem?-some (x ∷ xs) (suc i) h = get_elem?-some xs i (omega (arith, h))

  pub All-map {κ μ} :
      {P : A → Type κ} {Q : A → Type μ} (f : (x : A) → P x → Q x) (xs : List A)
      → All P xs
      → All Q xs
  All-map f [] h = tt
  All-map f (x ∷ xs) h = (f x h.0, All-map f xs h.1)

  pub All-append {κ} : (P : A → Type κ) (xs ys : List A) → All P xs → All P ys → All P (xs ++ ys)
  All-append P [] ys h k = k
  All-append P (x ∷ xs) ys h k = (h.0, All-append P xs ys h.1 k)

  pub All-trivial : (xs : List A) → All (λ x. Unit {0}) xs
  All-trivial [] = tt
  All-trivial (x ∷ xs) = (tt, All-trivial xs)

  -- No element shows in the test with one before it.
  abbrev pub Distinct : (A → A → Bool) → List A → Type 0
  Distinct same xs = Pairwise (λ y x. same y x ≡ false) xs

  -- None of the elements shows in the test with one of `before`.
  abbrev pub Apart : (A → A → Bool) → List A → List A → Type 0
  Apart same before xs = All (λ x. any (λ y. same y x) before ≡ false) xs

  pub Apart-nil : (same : A → A → Bool) (xs : List A) → Apart same [] xs
  Apart-nil same [] = tt
  Apart-nil same (x ∷ xs) = (refl, Apart-nil same xs)

  pub Apart-cons :
      (same : A → A → Bool) (y : A) (before xs : List A)
      → Apart same (y ∷ before) xs ↔ (All (λ x. same y x ≡ false) xs × Apart same before xs)
  Apart-cons same y before [] = (λ h. (tt, tt), λ h. tt)
  Apart-cons same y before (x ∷ xs) =
      let rest = Apart-cons same y before xs in
      (
        λ h. let (a, b) = rest.0 h.1 in ((ground (arith, h.0), a), (ground (arith, h.0), b)),
        λ h. (ground (arith, h.0.0, h.1.0), rest.1 (h.0.1, h.1.1)),
      )

pub length-map {ℓ κ} :
    {A : Type ℓ} {B : Type κ} (f : A → B) (xs : List A) → length (map f xs) ≡ length xs
length-map f [] = refl
length-map f (x ∷ xs) = ap suc (length-map f xs)
