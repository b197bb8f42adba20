-- ===== src/Streams/Deltas/Checked.antt =====
-- Items that pass the checks are read back.
use restartx.Common.{ℕ, ◌≡◌, ◌<◌, refl, arith, ◌==◌, Bool, false}
use restartx.Common.{List, [], ◌∷◌, ◌++◌, length, All, Distinct, Apart, Apart-cons}
use restartx.Crypto.{Word}
use restartx.Accounts.Delta.Checks.{keys, same_index}
use restartx.Streams.{Reader, ReadsBack, write_many, append_assoc}
use restartx.Streams.Deltas

pub read_checked_back {ℓ} :
    {A : Type 0} (P : A → Type ℓ) (write : A → List ℕ) (read : Reader A) (bad : A → Bool)
    (same : A → A → Bool)
    → ((x : A) → P x → ReadsBack read (write x) x)
    → (before xs : List A) → All P xs
    → All (λ x. bad x ≡ false) xs
    → Distinct same xs
    → Apart same before xs
    → ReadsBack (Deltas.read_checked read bad same before (length xs)) (write_many write xs) xs
unfolding Deltas.read_checked write_many
read_checked_back P write read bad same back before [] all good distinct apart rest = refl
read_checked_back P write read bad same back before (x ∷ xs) all good distinct apart rest =
    let later =
      read_checked_back P write read bad same back (x ∷ before) xs all.1 good.1 distinct.1
        ((Apart-cons same x before xs).1 (distinct.0, apart.1)) rest in
    rw
      (
        append_assoc (write x) (write_many write xs) rest,
        back x all.0 (write_many write xs ++ rest),
        good.0,
        apart.0,
        later,
      )
      refl

-- Items with distinct keys, by their keys.
All-keys {ℓ} :
    (P : ℕ → Type ℓ) (ps : List (ℕ × Word)) → All P (keys ps) → All (λ (p : ℕ × Word). P p.0) ps
All-keys P [] h = tt
All-keys P (p ∷ ps) h = (h.0, All-keys P ps h.1)

pub Distinct-keys :
    (ps : List (ℕ × Word))
    → Distinct same_index (keys ps)
    → Distinct (λ (p q : ℕ × Word). p.0 == q.0) ps
Distinct-keys [] h = tt
Distinct-keys (p ∷ ps) h = (All-keys (λ i. same_index p.0 i ≡ false) ps h.0, Distinct-keys ps h.1)

pub cannot_update_none :
    (cleared : List ℕ) (ps : List (ℕ × Word))
    → All (λ i. i < 255) (keys ps)
    → Apart same_index cleared (keys ps)
    → All (λ (p : ℕ × Word). Deltas.cannot_update cleared p ≡ false) ps
cannot_update_none cleared [] m a = tt
cannot_update_none cleared (p ∷ ps) m a =
    (ground (arith, m.0, a.0), cannot_update_none cleared ps m.1 a.1)
