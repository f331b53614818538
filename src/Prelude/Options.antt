-- ===== src/Prelude/Options.antt =====
-- What holds of an optional value if there is one.
use mathlib.Core.Option
use mathlib.Core.Option.{Option, none, some}
use mathlib.Core.Path.{◌≡◌, subst}

module _ {A : Type 0} where
  abbrev pub OnSome : (A → Type 0) → Option A → Type 0
  OnSome P none = Unit
  OnSome P (some a) = P a

  pub OnSome-apply : (P : A → Type 0) (o : Option A) (a : A) → OnSome P o → o ≡ some a → P a
  OnSome-apply P o a h e = subst (OnSome P) e h

pub OnSome-map :
    {A B : Type 0} (P : A → Type 0) (Q : B → Type 0) (f : A → B) (o : Option A)
    → OnSome P o
    → ((a : A) → P a → Q (f a))
    → OnSome Q (Option.map f o)
OnSome-map P Q f none h k = tt
OnSome-map P Q f (some a) h k = k a h
