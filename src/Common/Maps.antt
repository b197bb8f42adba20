-- ===== src/Common/Maps.antt =====
-- `BTreeMap` as the list of its entries in the order of their keys.
use Prim.Native.Nat.{ℕ}
use mathlib.Core.Path.{◌≡◌, refl, sym, ap, ◌∙◌}
use mathlib.Core.Logic.{◌↔◌, inl, inr}
use mathlib.Core.Bool.{Bool, true, false}
use mathlib.Core.Option.{Option, none, some}
use mathlib.Core.List.{List, [], ◌∷◌}
use native.Mathlib.Omega.{arith}
use restartx.Common.Tests.{
  ltb, ltb_trans, ltb_total, ltb_irrefl, ◌==◌, ==_iff, if◌then◌else◌, Bool-cases, if_cases,
}
use restartx.Common.Lists.{All, All-map, Pairwise}

-- `Ord` on the keys
pub record MapKey {ℓ} (K : Type ℓ) : Type ℓ where
  pub same : K → K → Bool
  pub less : K → K → Bool
  pub same_iff : (a b : K) → (same a b ≡ true) ↔ (a ≡ b)
  pub less_trans : (a b c : K) → less a b ≡ true → less b c ≡ true → less a c ≡ true
  pub less_total : (a b : K) → same a b ≡ false → less a b ≡ false → less b a ≡ true
  pub less_irrefl : (a b : K) → less a b ≡ true → same a b ≡ false

instance abbrev pub nat_key : MapKey ℕ
nat_key = record {
  same = ◌==◌;
  less = ltb;
  same_iff = λ a b. ==_iff a b;
  less_trans = λ a b c. ltb_trans a b c;
  less_total = λ a b. ltb_total a b;
  less_irrefl = λ a b. ltb_irrefl a b;
}

abbrev pub BTreeMap {ℓ κ} : Type ℓ → Type κ → Type (ℓ ⊔ κ)
BTreeMap K V = List (K × V)

module _ {ℓ} {K : Type ℓ} ⦃k : MapKey K⦄ where
  same_sym : (a b : K) → k.same a b ≡ true → k.same b a ≡ true
  same_sym a b h = (k.same_iff b a).1 (sym ((k.same_iff a b).0 h))

  same_right : (i a b : K) → k.same a b ≡ true → k.same i b ≡ k.same i a
  same_right i a b h = sym (ap (k.same i) ((k.same_iff a b).0 h))

module _ {ℓ κ} {K : Type ℓ} {V : Type κ} ⦃k : MapKey K⦄ where
  -- `get`
  abbrev pub find : K → BTreeMap K V → Option V
  find key [] = none
  find key ((j, v) ∷ d) = if k.same j key then some v else find key d

  abbrev pub insert : K → V → BTreeMap K V → BTreeMap K V
  insert key value [] = (key, value) ∷ []
  insert key value ((j, v) ∷ d) =
      let rest = insert key value d in
      if k.same j key
      then (key, value) ∷ d
      else if k.less key j
      then (key, value) ∷ (j, v) ∷ d
      else (j, v) ∷ rest

  abbrev pub remove : K → BTreeMap K V → BTreeMap K V
  remove key [] = []
  remove key ((j, v) ∷ d) = let rest = remove key d in if k.same j key then d else (j, v) ∷ rest

  -- The keys behind an entry are greater than its key.
  abbrev pub IsSorted : BTreeMap K V → Type 0
  IsSorted d = Pairwise (λ (p : K × V) (q : K × V). k.less p.0 q.0 ≡ true) d

  pub find_absent :
      (i j : K) (d : BTreeMap K V)
      → All (λ (q : K × V). k.less i q.0 ≡ true) d
      → k.same i j ≡ true
      → find j d ≡ none
  find_absent i j [] s h = refl
  find_absent i j ((l, v) ∷ d) s h =
      let e : k.less j l ≡ true = sym (ap (λ x. k.less x l) ((k.same_iff i j).0 h)) ∙ s.0 in
      ground (arith, find_absent i j d s.1 h, k.less_irrefl j l e, same_sym l j)

  -- Equal keys read alike.
  pub find_same : (key j : K) (d : BTreeMap K V) → k.same key j ≡ true → find j d ≡ find key d
  find_same key j d h = sym (ap (λ i. find i d) ((k.same_iff key j).0 h))

  pub find-insert :
      (key j : K) (value : V) (d : BTreeMap K V)
      → find j (insert key value d) ≡ (if k.same key j then some value else find j d)
  find-insert key j value [] = refl
  find-insert key j value ((i, v) ∷ d) =
      let later = find-insert key j value d in
      elim (Bool-cases (k.same i key)) [
        | inl here ↦
            let e : i ≡ key = (k.same_iff i key).0 here in
            ground (arith, here, ap (λ x. k.same x j) e)
        | inr other ↦ ground (arith, other, later, same_right i key j)
      ]

  pub find-insert_same :
      (key : K) (value : V) (d : BTreeMap K V) → find key (insert key value d) ≡ some value
  find-insert_same key value d =
      ground (arith, find-insert key key value d, (k.same_iff key key).1 refl)

  pub find-remove :
      (key j : K) (d : BTreeMap K V)
      → IsSorted d
      → find j (remove key d) ≡ (if k.same key j then none else find j d)
  find-remove key j [] s = ground arith
  find-remove key j ((i, v) ∷ d) s =
      let later = find-remove key j d s.1 in
      elim (Bool-cases (k.same i key)) [
        | inl here ↦
            let e : i ≡ key = (k.same_iff i key).0 here in
            ground (arith, here, ap (λ x. k.same x j) e, find_absent i j d s.0)
        | inr other ↦ ground (arith, other, later, same_right i key j)
      ]

  pub All-insert {μ} :
      (P : K → Type μ) (key : K) (value : V) (d : BTreeMap K V)
      → P key
      → All (λ (q : K × V). P q.0) d
      → All (λ (q : K × V). P q.0) (insert key value d)
  All-insert P key value [] p a = (p, tt)
  All-insert P key value ((i, v) ∷ d) p a =
      let All_of : List (K × V) → Type μ = All (λ (q : K × V). P q.0) in
      if_cases All_of (k.same i key) (λ same. (p, a.1))
        (λ other.
          if_cases All_of (k.less key i) (λ less. (p, a))
            (λ greater. (a.0, All-insert P key value d p a.1)))

  pub insert-IsSorted :
      (key : K) (value : V) (d : BTreeMap K V) → IsSorted d → IsSorted (insert key value d)
  insert-IsSorted key value [] s = (tt, tt)
  insert-IsSorted key value ((i, v) ∷ d) s =
      if_cases IsSorted (k.same i key)
        (λ same. (
          All-map (λ q h. ap (λ j. k.less j q.0) (sym ((k.same_iff i key).0 same)) ∙ h) d s.0,
          s.1,
        ))
        (λ other.
          if_cases IsSorted (k.less key i)
            (λ less. ((less, All-map (λ q h. k.less_trans key i q.0 less h) d s.0), s))
            (λ greater. (
              All-insert (λ j. k.less i j ≡ true) key value d
                  (k.less_total key i (ground (arith, other, same_sym key i)) greater) s.0,
              insert-IsSorted key value d s.1,
            )))

  pub All-remove {μ} :
      (P : K × V → Type μ) (key : K) (d : BTreeMap K V) → All P d → All P (remove key d)
  All-remove P key [] a = tt
  All-remove P key ((i, v) ∷ d) a =
      if_cases (All P) (k.same i key) (λ same. a.1) (λ other. (a.0, All-remove P key d a.1))

  pub remove-IsSorted : (key : K) (d : BTreeMap K V) → IsSorted d → IsSorted (remove key d)
  remove-IsSorted key [] s = tt
  remove-IsSorted key ((i, v) ∷ d) s =
      if_cases IsSorted (k.same i key) (λ same. s.1)
        (λ other.
          (All-remove (λ (q : K × V). k.less i q.0 ≡ true) key d s.0, remove-IsSorted key d s.1))
