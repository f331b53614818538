-- ===== src/Operation/Printing.antt =====
-- The text of a payload against a reference: the parts of it, and separators between them.
use text.Mathlib.TextLemmas.{append-nil, append_assoc}
use jepsen_in_cpp.Prelude.{
  ℕ, suc, ◌+◌, ◌-◌, ◌==◌, String, ◌<>◌, Bool, true, false, ◌&&◌, if◌then◌else◌, none, some, List,
  [], ◌∷◌, ◌≡◌, refl, ap, arith,
}
use jepsen_in_cpp.Prelude.Text.{decimal, decimal_ℤ}
use jepsen_in_cpp.Operation.{
  OpInfo, Elements, Members, null_value, int_value, uint_value, real_value, string_value,
  boolean_value, array_value, object_value, no_more, element, no_member, member,
}
use jepsen_in_cpp.Operation.Text.{
  is_int, is_uint, ◌<?>◌, size, member_count, to_string, array_text, object_text,
}

-- Texts with a separator between any two.
abbrev pub separated : String → List String → String
separated sep [] = ""
separated sep (s ∷ []) = s
separated sep (s ∷ t ∷ ts) = s <> sep <> separated sep (t ∷ ts)

-- The numbers in a payload are those of an `int` or an `unsigned int`.
mutual
  pub has_ints : OpInfo → Bool
  has_ints (int_value n) = is_int n
  has_ints (uint_value n) = is_uint n
  has_ints (array_value xs) = array_has_ints xs
  has_ints (object_value xs) = object_has_ints xs
  has_ints _ = true

  pub array_has_ints : Elements → Bool
  array_has_ints no_more = true
  array_has_ints (element x xs) = has_ints x && array_has_ints xs

  pub object_has_ints : Members → Bool
  object_has_ints no_member = true
  object_has_ints (member key x xs) = has_ints x && object_has_ints xs

mutual
  pub shown : OpInfo → String
  shown null_value = "nil"
  shown (int_value n) = decimal_ℤ n
  shown (uint_value n) = decimal n
  shown (real_value text) = text
  shown (string_value text) = text
  shown (boolean_value b) = if b then "true" else "false"
  shown (array_value xs) = "[" <> separated " " (shown_elements xs) <> "]"
  shown (object_value xs) = "{" <> separated ", " (shown_members xs) <> "}"

  pub shown_elements : Elements → List String
  shown_elements no_more = []
  shown_elements (element x xs) = shown x ∷ shown_elements xs

  pub shown_members : Members → List String
  shown_members no_member = []
  shown_members (member key x xs) = (key <> ":" <> shown x) ∷ shown_members xs

at_last : (n i : ℕ) → n ≡ i + 1 → (i == n - 1) ≡ true
at_last n i e = ground arith

before_last : (n i k : ℕ) → n ≡ i + suc (suc k) → (i == n - 1) ≡ false
before_last n i k e = ground arith

-- The test that each part passes is a test of the whole.
joined :
    (b c : Bool) (s t u : String)
    → (if b then some s else none) <?> some t <?> (if c then some u else none)
      ≡ (if b && c then some (s <> t <> u) else none)
joined true true s t u = refl
joined true false s t u = refl
joined false c s t u = refl

enclosed :
    (b : Bool) (s t u : String)
    → some s <?> (if b then some t else none) <?> some u ≡ (if b then some (s <> t <> u) else none)
enclosed true s t u = refl
enclosed false s t u = refl

labelled :
    (b : Bool) (key s : String)
    → some (key <> ":") <?> (if b then some s else none)
      ≡ (if b then some (key <> ":" <> s) else none)
labelled true key s = ap (λ l. some l) (append_assoc key ":" s)
labelled false key s = refl

alone :
    (b : Bool) (s : String)
    → (if b then some s else none) <?> some "" <?> some "" ≡ (if b && true then some s else none)
alone true s = ap (λ l. some l) (append-nil s)
alone false s = refl

mutual
  unfolding to_string has_ints shown

  text-shown : (o : OpInfo) → to_string o ≡ (if has_ints o then some (shown o) else none)
  text-shown null_value = refl
  text-shown (int_value n) = refl
  text-shown (uint_value n) = refl
  text-shown (real_value text) = refl
  text-shown (string_value text) = refl
  text-shown (boolean_value b) = refl
  text-shown (array_value xs) =
      rw (array_text-shown xs (size xs) 0 (omega arith)) (enclosed (array_has_ints xs) _ _ _)
  text-shown (object_value xs) =
      rw (object_text-shown xs (member_count xs) 0 (omega arith))
        (enclosed (object_has_ints xs) _ _ _)

  array_text-shown :
      (xs : Elements) (n i : ℕ)
      → n ≡ i + size xs
      → array_text n i xs
        ≡ (if array_has_ints xs then some (separated " " (shown_elements xs)) else none)
  array_text-shown no_more n i e = refl
  array_text-shown (element x no_more) n i e =
      rw (text-shown x, at_last n i (omega (arith, e))) (alone (has_ints x) (shown x))
  array_text-shown (element x (element y ys)) n i e =
      rw
        (
          text-shown x,
          before_last n i (size ys) (omega (arith, e)),
          array_text-shown (element y ys) n (suc i) (omega (arith, e)),
        )
        (joined (has_ints x) (array_has_ints (element y ys)) _ _ _)

  object_text-shown :
      (xs : Members) (n i : ℕ)
      → n ≡ i + member_count xs
      → object_text n i xs
        ≡ (if object_has_ints xs then some (separated ", " (shown_members xs)) else none)
  object_text-shown no_member n i e = refl
  object_text-shown (member key x no_member) n i e =
      rw (text-shown x, labelled (has_ints x) key (shown x), at_last n i (omega (arith, e)))
        (alone (has_ints x) _)
  object_text-shown (member key x (member k y ys)) n i e =
      rw
        (
          text-shown x,
          labelled (has_ints x) key (shown x),
          before_last n i (member_count ys) (omega (arith, e)),
          object_text-shown (member k y ys) n (suc i) (omega (arith, e)),
        )
        (joined (has_ints x) (object_has_ints (member k y ys)) _ _ _)

-- `toString` gives the parts of a payload in order, with a space between the elements of an array and a
-- comma between the members of an object, and none after the last. It throws exactly where a number in
-- the payload is out of the range of `int` or `unsigned int`.
pub to_string-shown : (o : OpInfo) → to_string o ≡ (if has_ints o then some (shown o) else none)
to_string-shown o = text-shown o
