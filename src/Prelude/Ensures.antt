-- ===== src/Prelude/Ensures.antt =====
-- What holds of every result that a computation returns, step by step through its binds.
use jepsen_in_cpp.Prelude.{
  Bool, true, false, if◌then◌else◌, Option, none, some, ◌≡◌, refl, M, done, fault, ◌>>=◌, pure,
  or_fault, lift, >>=-eq-done, Outcome, subst,
}

-- Whenever `m` returns, what it returns meets `P`.
pub record Ensures {S A : Type 0} (P : A → Type 0) (m : M S A) : Type 0 where
  pub apply : (s : S) (a : A) (s' : S) → m s ≡ done (a, s') → P a

module _ {S A : Type 0} {P : A → Type 0} where
  pub Ensures-pure : (a : A) → P a → Ensures {S = S} P (pure a)
  unfolding pure
  Ensures-pure a h = record { apply = λ s b s' e. subst P (done-injective e) h }
    where
      done-injective :
          {s s' : S} {b : A} → ◌≡◌ {A = Outcome (A × S)} (done (a, s)) (done (b, s')) → a ≡ b
      done-injective e = cc

  pub Ensures-fault : Ensures {S = S} {A = A} P (λ s. fault)
  Ensures-fault = record { apply = λ s b s' e. cc }

  pub Ensures-or_fault :
      (o : Option A) → ((a : A) → o ≡ some a → P a) → Ensures {S = S} P (or_fault o)
  unfolding or_fault pure
  Ensures-or_fault none h = record { apply = λ s b s' e. cc }
  Ensures-or_fault (some a) h = Ensures-pure a (h a refl)

  pub Ensures-lift : (f : S → A × S) → ((s : S) → P (f s).0) → Ensures P (lift f)
  unfolding lift
  Ensures-lift f h = record { apply = λ s b s' e. subst P (first s b s' e) (h s) }
    where
      first :
          (s : S) (b : A) (s' : S)
          → ◌≡◌ {A = Outcome (A × S)} (done (f s)) (done (b, s'))
          → (f s).0 ≡ b
      first s b s' e = cc

  pub Ensures-if :
      (b : Bool) (x y : M S A)
      → (b ≡ true → Ensures P x)
      → (b ≡ false → Ensures P y)
      → Ensures P (if b then x else y)
  Ensures-if true x y h k = h refl
  Ensures-if false x y h k = k refl

pub Ensures-bind :
    {S A B : Type 0} {P : A → Type 0} {Q : B → Type 0} (m : M S A) (f : A → M S B)
    → Ensures P m
    → ((a : A) → P a → Ensures Q (f a))
    → Ensures Q (m >>= f)
Ensures-bind m f h k = record {
  apply = λ s b s'' e.
      let (a, s', e₁, e₂) = >>=-eq-done m f s e in (k a (h.apply s a s' e₁)).apply s' b s'' e₂;
}

pub Ensures-both :
    {S A : Type 0} {P Q : A → Type 0} (m : M S A)
    → Ensures P m
    → Ensures Q m
    → Ensures (λ a. P a × Q a) m
Ensures-both m h k = record { apply = λ s a s' e. (h.apply s a s' e, k.apply s a s' e) }

pub Ensures-anything : {S A : Type 0} (m : M S A) → Ensures (λ a. Unit {0}) m
Ensures-anything m = record { apply = λ s a s' e. tt }
