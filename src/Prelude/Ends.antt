-- ===== src/Prelude/Ends.antt =====
-- Computations that end: they return, or the process exits.
use jepsen_in_cpp.Prelude.{
  Bool, true, false, if◌then◌else◌, Option, none, some, ◌≡◌, ◌⊎◌, inl, inr, refl, M, Outcome, done,
  fault, exits, out_of_fuel, ◌>>=◌, pure, lift,
}
use jepsen_in_cpp.Prelude.Int.{ℤ}

abbrev Ended : {A S : Type 0} → (A → S → Type 0) → Outcome (A × S) → Type 0
Ended Q (done (a, s)) = Q a s
Ended Q fault = ⊥
Ended Q (exits n) = Unit {0}
Ended Q out_of_fuel = ⊥

-- The outcome is a result that meets `Q`, or an exit.
pub record Ends {A S : Type 0} (Q : A → S → Type 0) (o : Outcome (A × S)) : Type 0 where
  pub ended : Ended Q o

module _ {S A : Type 0} {Q : A → S → Type 0} where
  pub Ends-pure : (a : A) (s : S) → Q a s → Ends Q (pure a s)
  unfolding pure
  Ends-pure a s h = record { ended = h }

  pub Ends-lift : (f : S → A × S) (s : S) → Q (f s).0 (f s).1 → Ends Q (lift f s)
  unfolding lift
  Ends-lift f s h = record { ended = h }

  pub Ends-exits : (n : ℤ) → Ends Q (exits n)
  Ends-exits n = record { ended = tt }

  pub Ends-if :
      (b : Bool) (x y : M S A) (s : S)
      → (b ≡ true → Ends Q (x s))
      → (b ≡ false → Ends Q (y s))
      → Ends Q ((if b then x else y) s)
  Ends-if true x y s h k = h refl
  Ends-if false x y s h k = k refl

  pub Ends-option :
      {B : Type 0} (o : Option B) (x : M S A) (f : B → M S A) (s : S)
      → (o ≡ none → Ends Q (x s))
      → ((b : B) → o ≡ some b → Ends Q (f b s))
      → Ends Q (let m : M S A = elim o [ none ↦ x | some b ↦ f b ] in m s)
  Ends-option none x f s h k = h refl
  Ends-option (some b) x f s h k = k b refl

  pub Ends-cases :
      (o : Outcome (A × S))
      → Ends Q o
      → ((a : A) × (s : S) × (o ≡ done (a, s)) × Q a s) ⊎ ((n : ℤ) × (o ≡ exits n))
  Ends-cases (done (a, s)) h = inl (a, s, refl, h.ended)
  Ends-cases fault h = absurd h.ended
  Ends-cases (exits n) h = inr (n, refl)
  Ends-cases out_of_fuel h = absurd h.ended

pub Ends-bind :
    {S A B : Type 0} {P : A → S → Type 0} {Q : B → S → Type 0} (m : M S A) (f : A → M S B) (s : S)
    → Ends P (m s)
    → ((a : A) (s' : S) → P a s' → Ends Q (f a s'))
    → Ends Q ((m >>= f) s)
unfolding ◌>>=◌
Ends-bind {S} {A} {B} {P} {Q} m f s h k = go (m s) h
  where
    go :
        (o : Outcome (A × S))
        → Ends P o
        → Ends Q (elim o [
          | done (a, s') ↦ f a s'
          | fault ↦ fault
          | exits n ↦ exits n
          | out_of_fuel ↦ out_of_fuel
        ])
    go (done (a, s')) p = k a s' p.ended
    go fault p = absurd p.ended
    go (exits n) p = record { ended = tt }
    go out_of_fuel p = absurd p.ended
