-- ===== src/Prelude/Faults.antt =====
-- Code that can go wrong, over the state of the outside world.
use mathlib.Core.Path.{◌≡◌, refl}
use jepsen_in_cpp.Prelude.Int.{ℤ}
use mathlib.Core.Option.{Option, none, some}

-- `fault` is undefined behaviour or an exception that nothing catches: a null pointer is followed,
-- a remainder by zero is taken, an index or a key is missing. `exits` is a call of `exit`.
pub data Outcome {ℓ} (A : Type ℓ) : Type ℓ where
  done : A → Outcome A
  fault : Outcome A
  exits : ℤ → Outcome A
  out_of_fuel : Outcome A

abbrev pub M : Type 0 → Type 0 → Type 0
M S A = S → Outcome (A × S)

infixl 5 ◌>>=◌ ◌>>◌
unfoldable pub ◌>>=◌ : {S A B : Type 0} → M S A → (A → M S B) → M S B
◌>>=◌ m f s = elim (m s) [
  | done (a, s') ↦ f a s'
  | fault ↦ fault
  | exits n ↦ exits n
  | out_of_fuel ↦ out_of_fuel
]

unfoldable pub ◌>>◌ : {S B : Type 0} → M S (Unit {0}) → M S B → M S B
m >> k = m >>= λ _. k

unfoldable pub pure : {S A : Type 0} → A → M S A
pure a s = done (a, s)

unfoldable pub or_fault : {S A : Type 0} → Option A → M S A
or_fault none s = fault
or_fault (some a) s = done (a, s)

-- A call of the outside world.
unfoldable pub lift : {S A : Type 0} → (S → A × S) → M S A
lift f s = done (f s)

-- The cases of a computation that returns through a bind.
pub >>=-eq-done :
    {S A B : Type 0} (m : M S A) (f : A → M S B) (s : S) {r : B × S}
    → (m >>= f) s ≡ done r
    → (a : A) × (s' : S) × (m s ≡ done (a, s')) × (f a s' ≡ done r)
unfolding ◌>>=◌
>>=-eq-done {S} {A} {B} m f s {r} h = by_outcome (m s) refl h
  where
    by_outcome :
        (o : Outcome (A × S))
        → m s ≡ o
        → elim o [
          | done (a, s') ↦ f a s'
          | fault ↦ fault
          | exits n ↦ exits n
          | out_of_fuel ↦ out_of_fuel
        ]
          ≡ done r
        → (a : A) × (s' : S) × (m s ≡ done (a, s')) × (f a s' ≡ done r)
    by_outcome (done (a, s')) e k = (a, s', e, k)
    by_outcome fault e k = cc
    by_outcome (exits n) e k = cc
    by_outcome out_of_fuel e k = cc

-- A first step that is known, replaced by what it returns.
pub >>=-done :
    {S A B : Type 0} (m : M S A) (f : A → M S B) {s s' : S} {a : A}
    → m s ≡ done (a, s')
    → (m >>= f) s ≡ f a s'
unfolding ◌>>=◌
>>=-done m f e = rw (◌>>=◌, e) refl
