-- ===== src/Prelude/Total.antt =====
-- Computations that return, step by step through their binds.
use jepsen_in_cpp.Prelude.{
  Bool, true, false, if◌then◌else◌, Option, none, some, ◌≡◌, refl, M, done, ◌>>=◌, pure, or_fault,
  lift,
}
use jepsen_in_cpp.Prelude.Ensures.{Ensures}

-- `m` returns from every state, and what it returns meets `P`.
pub record Total {S A : Type 0} (P : A → Type 0) (m : M S A) : Type 0 where
  pub run : (s : S) → (a : A) × (s' : S) × (m s ≡ done (a, s')) × P a

module _ {S A : Type 0} {P : A → Type 0} where
  pub Total-pure : (a : A) → P a → Total {S = S} P (pure a)
  unfolding pure
  Total-pure a h = record { run = λ s. (a, s, refl, h) }

  pub Total-or_fault : (o : Option A) (a : A) → o ≡ some a → P a → Total {S = S} P (or_fault o)
  unfolding or_fault
  Total-or_fault o a e h = record { run = λ s. (a, s, rw e refl, h) }

  pub Total-lift : (f : S → A × S) → ((s : S) → P (f s).0) → Total P (lift f)
  unfolding lift
  Total-lift f h = record { run = λ s. ((f s).0, (f s).1, refl, h s) }

  pub Total-if :
      (b : Bool) (x y : M S A)
      → (b ≡ true → Total P x)
      → (b ≡ false → Total P y)
      → Total P (if b then x else y)
  Total-if true x y h k = h refl
  Total-if false x y h k = k refl

  pub Total-option :
      {B : Type 0} (o : Option B) (x : M S A) (f : B → M S A)
      → (o ≡ none → Total P x)
      → ((b : B) → o ≡ some b → Total P (f b))
      → Total P (elim o [ none ↦ x | some b ↦ f b ])
  Total-option none x f h k = h refl
  Total-option (some b) x f h k = k b refl

pub Total-bind :
    {S A B : Type 0} {P : A → Type 0} {Q : B → Type 0} (m : M S A) (f : A → M S B)
    → Total P m
    → ((a : A) → P a → Total Q (f a))
    → Total Q (m >>= f)
unfolding ◌>>=◌
Total-bind m f h k = record {
  run = λ s.
      let (a, s₁, e, p) = h.run s in
      let (b, s₂, e', q) = (k a p).run s₁ in (b, s₂, rw (◌>>=◌, e) e', q);
}

-- A computation that returns, with what holds of all that it returns.
pub Total-ensured :
    {S A : Type 0} {P Q : A → Type 0} (m : M S A)
    → Total P m
    → Ensures Q m
    → Total (λ a. P a × Q a) m
Total-ensured m h k = record {
  run = λ s. let (a, s', e, p) = h.run s in (a, s', e, (p, k.apply s a s' e));
}
