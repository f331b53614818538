-- ===== src/Base64.antt =====
-- src/jepsen/utils/base64.cpp: `base64_encode` and `base64_decode`, on lists of bytes. The accumulator
-- is an `unsigned int` of 32 bits.
pub mod Sextets
pub mod Roundtrip
use jepsen_in_cpp.Prelude.{
  ℕ, zero, suc, ◌+◌, ◌-◌, ◌*◌, ◌/◌, ◌%◌, ◌^◌, Bool, ◌&&◌, ◌||◌, if◌then◌else◌, ltb, leb, ◌==◌,
  Option, none, some, List, [], ◌∷◌, ◌++◌, length, get_elem?,
}

-- `b64_table`, by the codes of its characters.
abbrev b64_table : List ℕ
b64_table =
    65 ∷ 66 ∷ 67 ∷ 68 ∷ 69 ∷ 70 ∷ 71 ∷ 72 ∷ 73 ∷ 74 ∷ 75 ∷ 76 ∷ 77 ∷ 78 ∷ 79 ∷ 80 ∷ 81 ∷ 82 ∷ 83
    ∷ 84 ∷ 85 ∷ 86 ∷ 87 ∷ 88 ∷ 89 ∷ 90 ∷ 97 ∷ 98 ∷ 99 ∷ 100 ∷ 101 ∷ 102 ∷ 103 ∷ 104 ∷ 105 ∷ 106
    ∷ 107 ∷ 108 ∷ 109 ∷ 110 ∷ 111 ∷ 112 ∷ 113 ∷ 114 ∷ 115 ∷ 116 ∷ 117 ∷ 118 ∷ 119 ∷ 120 ∷ 121 ∷ 122
    ∷ 48 ∷ 49 ∷ 50 ∷ 51 ∷ 52 ∷ 53 ∷ 54 ∷ 55 ∷ 56 ∷ 57 ∷ 43 ∷ 47 ∷ []

abbrev reverse_table : List ℕ
reverse_table =
    64 ∷ 64 ∷ 64 ∷ 64 ∷ 64 ∷ 64 ∷ 64 ∷ 64 ∷ 64 ∷ 64 ∷ 64 ∷ 64 ∷ 64 ∷ 64 ∷ 64 ∷ 64 ∷ 64 ∷ 64 ∷ 64
    ∷ 64 ∷ 64 ∷ 64 ∷ 64 ∷ 64 ∷ 64 ∷ 64 ∷ 64 ∷ 64 ∷ 64 ∷ 64 ∷ 64 ∷ 64 ∷ 64 ∷ 64 ∷ 64 ∷ 64 ∷ 64 ∷ 64
    ∷ 64 ∷ 64 ∷ 64 ∷ 64 ∷ 64 ∷ 62 ∷ 64 ∷ 64 ∷ 64 ∷ 63 ∷ 52 ∷ 53 ∷ 54 ∷ 55 ∷ 56 ∷ 57 ∷ 58 ∷ 59 ∷ 60
    ∷ 61 ∷ 64 ∷ 64 ∷ 64 ∷ 64 ∷ 64 ∷ 64 ∷ 64 ∷ 0 ∷ 1 ∷ 2 ∷ 3 ∷ 4 ∷ 5 ∷ 6 ∷ 7 ∷ 8 ∷ 9 ∷ 10 ∷ 11 ∷ 12
    ∷ 13 ∷ 14 ∷ 15 ∷ 16 ∷ 17 ∷ 18 ∷ 19 ∷ 20 ∷ 21 ∷ 22 ∷ 23 ∷ 24 ∷ 25 ∷ 64 ∷ 64 ∷ 64 ∷ 64 ∷ 64 ∷ 64
    ∷ 26 ∷ 27 ∷ 28 ∷ 29 ∷ 30 ∷ 31 ∷ 32 ∷ 33 ∷ 34 ∷ 35 ∷ 36 ∷ 37 ∷ 38 ∷ 39 ∷ 40 ∷ 41 ∷ 42 ∷ 43 ∷ 44
    ∷ 45 ∷ 46 ∷ 47 ∷ 48 ∷ 49 ∷ 50 ∷ 51 ∷ 64 ∷ 64 ∷ 64 ∷ 64 ∷ 64 ∷ []

-- `b64_table[i]`.
unfoldable pub table_at : ℕ → Option ℕ
table_at i = get_elem? b64_table i

-- `b64_table[i & 0x3fu]`.
abbrev pub symbol : ℕ → Option ℕ
symbol i = table_at (i % 64)

abbrev pub cons? : Option ℕ → Option (List ℕ) → Option (List ℕ)
cons? none cs = none
cons? (some c) none = none
cons? (some c) (some cs) = some (c ∷ cs)

-- `=` signs, as many as `n`.
abbrev pub padding : ℕ → List ℕ
padding zero = []
padding (suc n) = 61 ∷ padding n

-- The text of `size` characters that the letters begin, where both assertions at the end of
-- `base64_encode` hold of `outpos`, the number of the letters. `retval.size() - 2` has 64 bits.
abbrev pub filled : ℕ → Option (List ℕ) → Option (List ℕ)
filled size none = none
filled size (some cs) =
    if leb ((size + (2 ^ 64 - 2)) % 2 ^ 64) (length cs) && leb (length cs) size
    then some (cs ++ padding (size - length cs))
    else none

-- The characters for the bits that are collected, and how many bits stay. Each round takes 6 of
-- them, so that `bits` is fuel enough.
unfoldable pub collected : ℕ → ℕ → ℕ → List ℕ × ℕ
collected zero bits accumulator = ([], bits)
collected (suc fuel) bits accumulator =
    let left = bits - 6 in
    let (cs, rest) = collected fuel left accumulator in
    if ltb bits 6 then ([], bits) else (accumulator / 2 ^ left ∷ cs, rest)

abbrev pub symbols : List ℕ → Option (List ℕ) → Option (List ℕ)
symbols [] later = later
symbols (i ∷ is) later = cons? (symbol i) (symbols is later)

-- The loop of `base64_encode`, and the trailing bits; `none` is an assertion that fails.
unfoldable pub encode_from : List ℕ → ℕ → ℕ → Option (List ℕ)
unfolding collected table_at
encode_from [] bits accumulator =
    if ltb 0 bits
    then (if ltb bits 6
        then symbols (accumulator * 2 ^ (6 - bits) % 2 ^ 32 ∷ []) (some [])
        else none)
    else some []
encode_from (c ∷ cs) bits accumulator =
    let acc = (accumulator * 256 + c % 256) % 2 ^ 32 in
    let (out, left) = collected (bits + 8) (bits + 8) acc in symbols out (encode_from cs left acc)

-- `base64_encode`; `none` is the exception for a string that is too large, or an assertion that fails.
unfoldable pub base64_encode : List ℕ → Option (List ℕ)
unfolding encode_from
base64_encode bindata =
    if ltb ((2 ^ 64 - 1) / 4 * 3) (length bindata)
    then none
    else filled ((length bindata + 2) / 3 * 4) (encode_from bindata 0 0)

-- `std::isspace`.
abbrev pub is_space : ℕ → Bool
is_space c = c == 32 || (leb 9 c && leb c 13)

-- `reverse_table[c]` of a character that is legal; `none` is the exception for one that is not.
unfoldable pub six_bits : ℕ → Option ℕ
six_bits c = elim (get_elem? reverse_table c) [
  | none ↦ none
  | some i ↦ if ltb 63 i then none else some i
]

-- The loop of `base64_decode`.
unfoldable pub decode_from : List ℕ → ℕ → ℕ → Option (List ℕ)
unfolding six_bits
decode_from [] bits accumulator = some []
decode_from (c ∷ cs) bits accumulator =
    let skipped = decode_from cs bits accumulator in
    let next = λ (i : ℕ). (accumulator * 64 + i) % 2 ^ 32 in
    let short = λ (i : ℕ). decode_from cs (bits + 6) (next i) in
    let full = λ (i : ℕ).
      cons? (some (next i / 2 ^ (bits + 6 - 8) % 256)) (decode_from cs (bits + 6 - 8) (next i)) in
    if is_space c || c == 61
    then skipped
    else elim (six_bits c) [ none ↦ none | some i ↦ if leb 8 (bits + 6) then full i else short i ]

unfoldable pub base64_decode : List ℕ → Option (List ℕ)
unfolding decode_from
base64_decode ascdata = decode_from ascdata 0 0
