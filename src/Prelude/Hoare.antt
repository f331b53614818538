-- ===== src/Prelude/Hoare.antt =====
-- What a computation that returns makes of the state, from what holds before it.
use jepsen_in_cpp.Prelude.Int.{ℤ}
use jepsen_in_cpp.Prelude.{
  Option, none, some, Bool, true, false, if◌then◌else◌, ◌≡◌, refl, subst, M, done, fault, exits,
  out_of_fuel, ◌>>=◌, pure, lift, or_fault, >>=-eq-done, Outcome,
}
use jepsen_in_cpp.Prelude.Ensures.{Ensures}

-- Whenever `m` returns from a state that meets `P`, its result and the state after it meet `Q`.
pub record Triple {S A : Type 0} (P : S → Type 0) (m : M S A) (Q : A → S → Type 0) : Type 0 where
  pub apply : (s : S) (a : A) (s' : S) → P s → m s ≡ done (a, s') → Q a s'

pub done-same :
    {S A : Type 0} (Q : A → S → Type 0) (r r' : A × S)
    → ◌≡◌ {A = Outcome (A × S)} (done r) (done r')
    → Q r.0 r.1
    → Q r'.0 r'.1
done-same {S} {A} Q r r' e h = subst (λ (x : A × S). Q x.0 x.1) (same e) h
  where
    same : ◌≡◌ {A = Outcome (A × S)} (done r) (done r') → r ≡ r'
    same k = cc

module _ {S A : Type 0} {P : S → Type 0} {Q : A → S → Type 0} where
  pub Triple-pure : (a : A) → ((s : S) → P s → Q a s) → Triple P (pure a) Q
  unfolding pure
  Triple-pure a h = record { apply = λ s b s' p e. done-same Q (a, s) (b, s') e (h s p) }

  pub Triple-lift : (f : S → A × S) → ((s : S) → P s → Q (f s).0 (f s).1) → Triple P (lift f) Q
  unfolding lift
  Triple-lift f h = record { apply = λ s b s' p e. done-same Q (f s) (b, s') e (h s p) }

  pub Triple-fault : Triple P (λ s. fault) Q
  Triple-fault = record { apply = λ s b s' p e. cc }

  pub Triple-exits : (n : ℤ) → Triple P (λ s. exits n) Q
  Triple-exits n = record { apply = λ s b s' p e. cc }

  pub Triple-out_of_fuel : Triple P (λ s. out_of_fuel) Q
  Triple-out_of_fuel = record { apply = λ s b s' p e. cc }

  pub Triple-if :
      (b : Bool) (x y : M S A)
      → (b ≡ true → Triple P x Q)
      → (b ≡ false → Triple P y Q)
      → Triple P (if b then x else y) Q
  Triple-if true x y h k = h refl
  Triple-if false x y h k = k refl

  pub Triple-option :
      {B : Type 0} (o : Option B) (x : M S A) (f : B → M S A)
      → (o ≡ none → Triple P x Q)
      → ((b : B) → o ≡ some b → Triple P (f b) Q)
      → Triple P (elim o [ none ↦ x | some b ↦ f b ]) Q
  Triple-option none x f h k = h refl
  Triple-option (some b) x f h k = k b refl

  -- What does not speak of the state is known from there on.
  pub Triple-given : {E : Type 0} (m : M S A) → (E → Triple P m Q) → Triple (λ s. P s × E) m Q
  Triple-given m f = record { apply = λ s a s' h e. (f h.1).apply s a s' h.0 e }

  pub Triple-weaken :
      {P' : S → Type 0} {Q' : A → S → Type 0} (m : M S A)
      → ((s : S) → P' s → P s)
      → ((a : A) (s : S) → Q a s → Q' a s)
      → Triple P m Q
      → Triple P' m Q'
  Triple-weaken m f g t = record { apply = λ s a s' p e. g a s' (t.apply s a s' (f s p) e) }

pub Triple-bind :
    {S A B : Type 0} {P : S → Type 0} {Q : A → S → Type 0} {R : B → S → Type 0} (m : M S A)
    (f : A → M S B)
    → Triple P m Q
    → ((a : A) → Triple (Q a) (f a) R)
    → Triple P (m >>= f) R
Triple-bind m f h k = record {
  apply = λ s b s'' p e.
      let (a, s', e₁, e₂) = >>=-eq-done m f s e in (k a).apply s' b s'' (h.apply s a s' p e₁) e₂;
}

-- The same where the first step returns nothing.
pub Triple-then :
    {S B : Type 0} {P Q : S → Type 0} {R : B → S → Type 0} (m : M S (Unit {0})) (k : M S B)
    → Triple P m (λ a. Q)
    → Triple Q k R
    → Triple P (m >>= λ _. k) R
Triple-then m k h t = Triple-bind m (λ _. k) h (λ _. t)

module _ {S A : Type 0} {P : S → Type 0} {Q : A → S → Type 0} where
  -- The state before is known by a name of its own.
  pub Triple-at : (m : M S A) → ((s : S) → P s → Triple (λ t. t ≡ s) m Q) → Triple P m Q
  Triple-at m f = record { apply = λ s a s' p e. (f s p).apply s a s' refl e }

  pub Triple-ensures :
      {E : A → Type 0} (m : M S A) → Ensures E m → Triple P m Q → Triple P m (λ a s. E a × Q a s)
  Triple-ensures m h t = record { apply = λ s a s' p e. (h.apply s a s' e, t.apply s a s' p e) }

-- An exception leaves no state behind.
pub Triple-or_fault :
    {S A : Type 0} {P : S → Type 0} (o : Option A) → Triple P (or_fault o) (λ a s. P s)
unfolding or_fault pure
Triple-or_fault none = record { apply = λ s a s' p e. cc }
Triple-or_fault {P = P} (some a) = record {
  apply = λ s b s' p e. done-same (λ _ t. P t) (a, s) (b, s') e p;
}
