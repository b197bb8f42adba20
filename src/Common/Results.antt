-- ===== src/Common/Results.antt =====
-- `Result<A, E>` of the source, with one more value: a panic (`expect`, `assert!`, an index or an
-- overflow check that fails).
use mathlib.Core.Path.{◌≡◌, refl}
use mathlib.Core.Bool.{Bool, true, false}
use mathlib.Core.List.{List, [], ◌∷◌}
use restartx.Common.Lists.{All}
use mathlib.Core.Option.{Option, none, some}

pub data Result {ℓ κ} (E : Type ℓ) (A : Type κ) : Type (ℓ ⊔ κ) where
  ok : A → Result E A
  err : E → Result E A
  panic : Result E A

-- The operator `?`.
infixl 5 ◌>>=◌ ◌>>◌
abbrev pub ◌>>=◌ {ℓ κ μ} :
    {E : Type ℓ} {A : Type κ} {B : Type μ} → Result E A → (A → Result E B) → Result E B
ok a >>= f = f a
err e >>= f = err e
panic >>= f = panic

abbrev pub ◌>>◌ {ℓ κ} : {E : Type ℓ} {B : Type κ} → Result E (Unit {0}) → Result E B → Result E B
m >> k = m >>= λ _. k

abbrev pub map_err {ℓ κ μ} :
    {E : Type ℓ} {F : Type μ} {A : Type κ} → (E → F) → Result E A → Result F A
map_err f (ok a) = ok a
map_err f (err e) = err (f e)
map_err f panic = panic

-- `if !test { return Err(e) }`
abbrev pub guard {ℓ} : {E : Type ℓ} → Bool → E → Result E (Unit {0})
guard true e = ok tt
guard false e = err e

-- `assert!` and `expect`
abbrev pub assert {ℓ} : {E : Type ℓ} → Bool → Result E (Unit {0})
assert true = ok tt
assert false = panic

abbrev pub expect {ℓ κ} : {E : Type ℓ} {A : Type κ} → Option A → Result E A
expect (some a) = ok a
expect none = panic

-- A chain that succeeds has succeeded at both of its steps.
pub >>=-eq-ok {ℓ κ μ} :
    {E : Type ℓ} {A : Type κ} {B : Type μ} (first : Result E A) (next : A → Result E B) {out : B}
    → (first >>= next) ≡ ok out
    → (mid : A) × (first ≡ ok mid) × (next mid ≡ ok out)
>>=-eq-ok panic next succeeds = cc
>>=-eq-ok (err failure) next succeeds = cc
>>=-eq-ok (ok mid) next succeeds = (mid, refl, succeeds)

-- What is left to do once the first step has succeeded.
pub >>=-after_ok {ℓ κ μ} :
    {E : Type ℓ} {A : Type κ} {B : Type μ} (first : Result E A) (next : A → Result E B) {mid : A}
    {out : B}
    → first ≡ ok mid
    → (first >>= next) ≡ ok out
    → next mid ≡ ok out
>>=-after_ok (ok a) next known succeeds = cc
>>=-after_ok (err e) next known succeeds = cc
>>=-after_ok panic next known succeeds = cc

-- `a?; b` for two steps on a state.
abbrev pub and_then {ℓ μ} :
    {E : Type ℓ} {S : Type μ}
    → Result E (Unit {0}) × S
    → (S → Result E (Unit {0}) × S)
    → Result E (Unit {0}) × S
and_then (ok u, s) k = k s
and_then (err e, s) k = (err e, s)
and_then (panic, s) k = (panic, s)

-- A loop whose body works on a state through `&mut` and may fail: the first failure ends it, and
-- the state is what was left then.
abbrev pub for_each {ℓ κ μ} :
    {E : Type ℓ} {A : Type κ} {S : Type μ}
    → (S → A → Result E (Unit {0}) × S)
    → List A
    → S
    → Result E (Unit {0}) × S
for_each body [] s = (ok tt, s)
for_each body (x ∷ xs) s = and_then (body s x) (λ t. for_each body xs t)

pub and_then_keeps {ℓ μ ν} :
    {E : Type ℓ} {S : Type μ} (P : S → Type ν) (o : Result E (Unit {0}) × S)
    (k : S → Result E (Unit {0}) × S)
    → P o.1
    → ((t : S) → P t → P (k t).1)
    → P (and_then o k).1
and_then_keeps P (ok u, s) k h f = f s h
and_then_keeps P (err e, s) k h f = h
and_then_keeps P (panic, s) k h f = h

-- What every round of a loop keeps, the loop keeps, also where it fails.
pub for_each_keeps {ℓ κ μ ν ρ} :
    {E : Type ℓ} {A : Type κ} {S : Type μ} (P : S → Type ν) (Q : A → Type ρ)
    (body : S → A → Result E (Unit {0}) × S)
    → ((s : S) (x : A) → Q x → P s → P (body s x).1)
    → (xs : List A) (s : S) → All Q xs
    → P s
    → P (for_each body xs s).1
for_each_keeps P Q body keeps [] s q h = h
for_each_keeps P Q body keeps (x ∷ xs) s q h =
    and_then_keeps P (body s x) (for_each body xs) (keeps s x q.0 h)
      (λ t p. for_each_keeps P Q body keeps xs t q.1 p)

pub and_then-eq-ok {ℓ μ} :
    {E : Type ℓ} {S : Type μ} (o : Result E (Unit {0}) × S) (k : S → Result E (Unit {0}) × S)
    (t : S)
    → and_then o k ≡ (ok tt, t)
    → (o ≡ (ok tt, o.1)) × (k o.1 ≡ (ok tt, t))
and_then-eq-ok (ok u, s) k t h = (refl, h)
and_then-eq-ok (err e, s) k t h = cc
and_then-eq-ok (panic, s) k t h = cc

-- `unwrap` and `expect` of a `Result`
abbrev pub unwrap {ℓ κ μ} : {E : Type ℓ} {F : Type μ} {A : Type κ} → Result E A → Result F A
unwrap (ok a) = ok a
unwrap (err e) = panic
unwrap panic = panic

-- `ok_or`
abbrev pub ok_or {ℓ κ} : {E : Type ℓ} {A : Type κ} → Option A → E → Result E A
ok_or (some a) e = ok a
ok_or none e = err e

-- The value has the property if there is one.
abbrev pub OkWith {ℓ κ μ} : {E : Type ℓ} {A : Type κ} → (A → Type μ) → Result E A → Type μ
OkWith P (ok a) = P a
OkWith P (err e) = Unit
OkWith P panic = Unit

pub OkWith->>= {ℓ κ μ ν} :
    {E : Type ℓ} {A : Type κ} {B : Type μ} (P : B → Type ν) (first : Result E A)
    (next : A → Result E B)
    → ((a : A) → first ≡ ok a → OkWith P (next a))
    → OkWith P (first >>= next)
OkWith->>= P (ok a) next h = h a refl
OkWith->>= P (err e) next h = tt
OkWith->>= P panic next h = tt

pub map_err-eq-err {ℓ κ μ} :
    {E : Type ℓ} {F : Type μ} {A : Type κ} (f : E → F) (r : Result E A) (e : F)
    → map_err f r ≡ err e
    → (cause : E) × (r ≡ err cause)
map_err-eq-err f (ok a) e h = cc
map_err-eq-err f (err cause) e h = (cause, refl)
map_err-eq-err f panic e h = cc
