-- ===== src/Operation/Text.antt =====
-- src/jepsen/Operation.cpp, `Operation::toString`: the text of a payload and of an operation.
use jepsen_in_cpp.Prelude.{
  ℕ, suc, ◌-◌, ◌^◌, ◌==◌, leb, String, ◌<>◌, Bool, if◌then◌else◌, Option, none, some, List, [], ◌∷◌,
}
use jepsen_in_cpp.Prelude.Int.{ℤ, pos, negsuc, eqb_ℤ}
use jepsen_in_cpp.Prelude.Text.{decimal, decimal_ℤ}
use jepsen_in_cpp.Operation.{
  Operation, OpType, init, invoke, success, failed, info, exited, nil_type, pending_type,
  nemesis_process, OpInfo, Elements, Members, null_value, int_value, uint_value, real_value,
  string_value, boolean_value, array_value, object_value, no_more, element, no_member, member,
}

-- `asInt` and `asUInt` throw on a value that an `int` or an `unsigned int` does not hold.
abbrev pub is_int : ℤ → Bool
is_int (pos n) = leb n (2 ^ 31 - 1)
is_int (negsuc n) = leb n (2 ^ 31 - 1)

abbrev pub is_uint : ℕ → Bool
is_uint n = leb n (2 ^ 32 - 1)

-- One text after the other, where neither is an exception.
infixr 65 ◌<?>◌
abbrev pub ◌<?>◌ : Option String → Option String → Option String
none <?> t = none
some s <?> none = none
some s <?> some t = some (s <> t)

abbrev pub size : Elements → ℕ
size no_more = 0
size (element x xs) = suc (size xs)

abbrev pub member_count : Members → ℕ
member_count no_member = 0
member_count (member key x xs) = suc (member_count xs)

-- `toString(jop)`; `none` is an exception. The loops have the number `n` of all elements and the
-- index `i` of the next.
unfoldable mutual
  pub to_string : OpInfo → Option String
  to_string null_value = some "nil"
  to_string (int_value n) = if is_int n then some (decimal_ℤ n) else none
  to_string (uint_value n) = if is_uint n then some (decimal n) else none
  to_string (real_value text) = some text
  to_string (string_value text) = some text
  to_string (boolean_value b) = some (if b then "true" else "false")
  to_string (array_value xs) = some "[" <?> array_text (size xs) 0 xs <?> some "]"
  to_string (object_value xs) = some "{" <?> object_text (member_count xs) 0 xs <?> some "}"

  pub array_text : ℕ → ℕ → Elements → Option String
  array_text n i no_more = some ""
  array_text n i (element x xs) =
      to_string x <?> some (if i == n - 1 then "" else " ") <?> array_text n (suc i) xs

  pub object_text : ℕ → ℕ → Members → Option String
  object_text n i no_member = some ""
  object_text n i (member key x xs) =
      (some (key <> ":") <?> to_string x)
      <?> some (if i == n - 1 then "" else ", ")
      <?> object_text n (suc i) xs

-- `TypeStr`.
abbrev pub type_str : OpType → String
type_str init = ":init"
type_str invoke = ":invoke"
type_str success = ":ok"
type_str failed = ":fail"
type_str info = ":info"
type_str exited = ":exit"
type_str nil_type = ":nil"
type_str pending_type = ":pending"

-- `op.toString()`. `format` is `boost::format`, given the texts of the arguments.
unfoldable pub operation_text : (format : String → List String → String) → Operation → Option String
unfolding to_string
operation_text format op = elim (to_string op.op) [
  | none ↦ none
  | some value ↦
      if eqb_ℤ op.process nemesis_process
      then some (
          format "{:type %s, :f %s, :value %s, :process Nemesis, :time %lld}"
            (type_str op.type ∷ op.func ∷ value ∷ decimal_ℤ op.time ∷ []))
      else some (
          format "{:type %s, :f %s, :value %s, :process %d, :time %lld}"
            (type_str op.type ∷ op.func ∷ value ∷ decimal_ℤ op.process ∷ decimal_ℤ op.time ∷ []))
]
