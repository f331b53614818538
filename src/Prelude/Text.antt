-- ===== src/Prelude/Text.antt =====
-- Texts: whether one is empty, bytes, and decimal numbers.
use Prim.Native.Nat.{compare, Ordering}
use Prim.Native.Char.{Char, char, code, nul}
use Prim.Native.String.{String}
use jepsen_in_cpp.Prelude.{
  ℕ, zero, suc, ◌+◌, ◌/◌, ◌%◌, ltb, Bool, true, false, ◌≡◌, refl, List, [], ◌∷◌, ◌<>◌,
}
use jepsen_in_cpp.Prelude.Int.{ℤ, pos, negsuc}

abbrev pub is_empty : String → Bool
is_empty String.[] = true
is_empty (String.◌∷◌ c s) = false

-- The bytes of an ASCII text.
abbrev pub bytes : String → List ℕ
bytes String.[] = []
bytes (String.◌∷◌ c s) = code c ∷ bytes s

abbrev character_by : (n : ℕ) (o : Ordering) → compare n 55296 ≡ o → Char
character_by n Ordering.lt e = char n (rw e tt)
character_by n _ e = nul

-- The character of a byte.
abbrev pub character : ℕ → Char
character n = character_by n (compare n 55296) refl

abbrev pub text_of : List ℕ → String
text_of [] = ""
text_of (n ∷ ns) = String.◌∷◌ (character n) (text_of ns)

-- The decimal digits of a number, before what follows them. A number has no more digits than
-- its value, so that the number itself is fuel enough.
abbrev digits : ℕ → ℕ → String → String
digits zero n later = later
digits (suc fuel) n later = elim (ltb n 10) [
  | true ↦ String.◌∷◌ (character (48 + n)) later
  | false ↦ digits fuel (n / 10) (String.◌∷◌ (character (48 + n % 10)) later)
]

-- `std::to_string` of a number that is not negative.
abbrev pub decimal : ℕ → String
decimal n = digits (suc n) n ""

-- `std::to_string` of an integer.
abbrev pub decimal_ℤ : ℤ → String
decimal_ℤ (pos n) = decimal n
decimal_ℤ (negsuc n) = "-" <> decimal (suc n)

decimal_max : decimal 2147483647 ≡ "2147483647"
decimal_max = refl
