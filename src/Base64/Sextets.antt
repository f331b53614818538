-- ===== src/Base64/Sextets.antt =====
-- Base64 as the standard describes it: the bytes in groups of three, each group as four numbers below
-- 64, a shorter last group as two or three; and the letter of each number.
use jepsen_in_cpp.Prelude.{
  ℕ, zero, suc, ◌+◌, ◌*◌, ◌/◌, ◌%◌, ◌<◌, Bool, true, false, not, ◌&&◌, ◌||◌, ◌==◌, ==_iff, Option,
  none, some, ◌≡◌, refl, List, [], ◌∷◌, ap, sym, arith,
}
use jepsen_in_cpp.Base64.{table_at, is_space, six_bits}

-- A byte.
abbrev pub IsByte : ℕ → Type 0
IsByte c = c < 256

abbrev pub sextets : List ℕ → List ℕ
sextets [] = []
sextets (a ∷ []) = a / 4 ∷ a % 4 * 16 ∷ []
sextets (a ∷ b ∷ []) = a / 4 ∷ (a % 4 * 16 + b / 16) ∷ b % 16 * 4 ∷ []
sextets (a ∷ b ∷ c ∷ rest) =
    a / 4 ∷ (a % 4 * 16 + b / 16) ∷ (b % 16 * 4 + c / 64) ∷ c % 64 ∷ sextets rest

abbrev or_zero : Option ℕ → ℕ
or_zero none = 0
or_zero (some c) = c

-- The character of the table, 0 beyond its end.
unfoldable pub letter : ℕ → ℕ
unfolding table_at
letter i = or_zero (table_at i)

-- The letter of a number below 64 is the character that the encoder takes for it; it is no space and
-- no padding, and the decoder takes the number back from it.
pub record IsLetter (i c : ℕ) : Type 0 where
  pub taken : table_at i ≡ some c
  pub kept : (is_space c || c == 61) ≡ false
  pub read : six_bits c ≡ some i

abbrev is : ℕ → Option ℕ → Bool
is i none = false
is i (some j) = i == j

-- The same as a test.
abbrev is_letter : ℕ → ℕ → Bool
is_letter i c = is c (table_at i) && not (is_space c || c == 61) && is i (six_bits c)

is_iff : (i : ℕ) (o : Option ℕ) → is i o ≡ true → o ≡ some i
is_iff i none h = cc
is_iff i (some j) h = ap some (sym ((==_iff i j).0 h))

is_letter-IsLetter : (i c : ℕ) → is_letter i c ≡ true → IsLetter i c
is_letter-IsLetter i c h = record {
  taken = is_iff c (table_at i) (ground (arith, h));
  kept = ground (arith, h);
  read = is_iff i (six_bits c) (ground (arith, h));
}

all_below : ℕ → (ℕ → Bool) → Bool
all_below zero test = true
all_below (suc n) test = test n && all_below n test

all_below-lt : (n : ℕ) (test : ℕ → Bool) (i : ℕ) → all_below n test ≡ true → i < n → test i ≡ true
unfolding all_below
all_below-lt zero test i h lt = absurd (omega arith)
all_below-lt (suc n) test i h lt = ground (arith, all_below-lt n test i)

letters-read : all_below 64 (λ i. is_letter i (letter i)) ≡ true
unfolding all_below six_bits letter
letters-read = refl

pub letter-IsLetter : (i : ℕ) → i < 64 → IsLetter i (letter i)
letter-IsLetter i lt = is_letter-IsLetter i (letter i) (all_below-lt 64 _ i letters-read lt)
