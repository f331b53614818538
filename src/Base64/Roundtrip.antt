-- ===== src/Base64/Roundtrip.antt =====
-- What the loops of `base64_encode` and `base64_decode` make of groups of three bytes.
use jepsen_in_cpp.Prelude.{
  ℕ, zero, suc, ◌+◌, ◌-◌, ◌*◌, ◌/◌, ◌%◌, ◌^◌, ◌≤◌, ◌<◌, true, false, leb, ◌&&◌, ◌==◌, none, if_ind,
  if◌then◌else◌, some, ◌≡◌, refl, ◌∙◌, ap, List, [], ◌∷◌, ◌++◌, map, All, length, length-append,
  ltb, arith,
}
use jepsen_in_cpp.Base64.{
  symbol, cons?, collected, encode_from, decode_from, base64_encode, base64_decode, padding,
}
use jepsen_in_cpp.Base64.Sextets.{IsByte, sextets, letter, letter-IsLetter}

-- The encoder's character for a number whose last 6 bits are `i`.
symbol-letter : (n i : ℕ) → n % 64 ≡ i → symbol n ≡ some (letter i)
symbol-letter n i e = rw e (letter-IsLetter i (omega (arith, e))).taken

-- The accumulator after a byte: its last bits are those of the bytes so far.
abbrev push : ℕ → ℕ → ℕ
push accumulator c = (accumulator * 256 + c % 256) % 2 ^ 32

push-byte : (accumulator c : ℕ) → IsByte c → push accumulator c % 256 ≡ c
push-byte acc c h = omega arith

push-bytes :
    (accumulator c d : ℕ)
    → IsByte d
    → accumulator % 256 ≡ c
    → push accumulator d % 2 ^ 16 ≡ c * 256 + d
push-bytes acc c d h e = omega arith

first_six : (n a : ℕ) → IsByte a → n % 256 ≡ a → n / 4 % 64 ≡ a / 4
first_six n a h e = omega arith

last_two : (n a : ℕ) → IsByte a → n % 256 ≡ a → n * 16 % 2 ^ 32 % 64 ≡ a % 4 * 16
last_two n a h e = omega arith

second_six : (n a b : ℕ) → IsByte b → n % 2 ^ 16 ≡ a * 256 + b → n / 16 % 64 ≡ a % 4 * 16 + b / 16
second_six n a b h e = omega arith

last_four : (n b : ℕ) → IsByte b → n % 256 ≡ b → n * 4 % 2 ^ 32 % 64 ≡ b % 16 * 4
last_four n b h e = omega arith

third_six : (n b c : ℕ) → IsByte c → n % 2 ^ 16 ≡ b * 256 + c → n / 64 % 64 ≡ b % 16 * 4 + c / 64
third_six n b c h e = omega arith

fourth_six : (n c : ℕ) → n % 256 ≡ c → n / 1 % 64 ≡ c % 64
fourth_six n c e = omega arith

-- `encode_from` at a byte that begins a group makes the letters of `sextets`.
pub encode_from-sextets :
    (bs : List ℕ) (accumulator : ℕ)
    → All IsByte bs
    → encode_from bs 0 accumulator ≡ some (map letter (sextets bs))
unfolding encode_from collected
encode_from-sextets [] acc h = refl
encode_from-sextets (a ∷ []) acc h =
    let e = push-byte acc a h.0 in
    rw
      (
        symbol-letter (push acc a / 4) _ (first_six (push acc a) a h.0 e),
        symbol-letter (push acc a * 16 % 2 ^ 32) _ (last_two (push acc a) a h.0 e),
      )
      refl
encode_from-sextets (a ∷ b ∷ []) acc h =
    let n : ℕ = push acc a in
    let m : ℕ = push n b in
    let e = push-byte acc a h.0 in
    rw
      (
        symbol-letter (n / 4) _ (first_six n a h.0 e),
        symbol-letter (m / 16) _ (second_six m a b h.1.0 (push-bytes n a b h.1.0 e)),
        symbol-letter (m * 4 % 2 ^ 32) _ (last_four m b h.1.0 (push-byte n b h.1.0)),
      )
      refl
encode_from-sextets (a ∷ b ∷ c ∷ bs) acc h =
    let n : ℕ = push acc a in
    let m : ℕ = push n b in
    let l : ℕ = push m c in
    let e = push-byte acc a h.0 in
    let f = push-byte n b h.1.0 in
    rw
      (
        symbol-letter (n / 4) _ (first_six n a h.0 e),
        symbol-letter (m / 16) _ (second_six m a b h.1.0 (push-bytes n a b h.1.0 e)),
        symbol-letter (l / 64) _ (third_six l b c h.1.1.0 (push-bytes m b c h.1.1.0 f)),
        symbol-letter (l / 1) _ (fourth_six l c (push-byte m c h.1.1.0)),
        encode_from-sextets bs l h.1.1.1,
      )
      refl

-- The decoder's accumulator after a letter.
abbrev pull : ℕ → ℕ → ℕ
pull accumulator i = (accumulator * 64 + i) % 2 ^ 32

-- What the decoder does at the letter of `i`, with `bits` collected before.
decode_letter :
    (i : ℕ) (cs : List ℕ) (bits accumulator : ℕ)
    → i < 64
    → decode_from (letter i ∷ cs) bits accumulator ≡ (
        if leb 8 (bits + 6)
        then cons?
            (some (pull accumulator i / 2 ^ (bits + 6 - 8) % 256))
            (decode_from cs (bits + 6 - 8) (pull accumulator i))
        else decode_from cs (bits + 6) (pull accumulator i))
unfolding decode_from
decode_letter i cs bits acc lt = let l = letter-IsLetter i lt in rw (l.kept, l.read) refl

decode_from-padding : (n bits accumulator : ℕ) → decode_from (padding n) bits accumulator ≡ some []
unfolding decode_from
decode_from-padding zero bits acc = refl
decode_from-padding (suc n) bits acc = decode_from-padding n bits acc

pull-letter : (accumulator i : ℕ) → i < 64 → pull accumulator i % 64 ≡ i
pull-letter acc i lt = omega arith

first_byte :
    (n a x : ℕ) → IsByte a → x < 16 → n % 64 ≡ a / 4 → pull n (a % 4 * 16 + x) / 16 % 256 ≡ a
first_byte n a x h lt e = omega arith

second_byte :
    (n b x : ℕ) → IsByte b → x < 4 → n % 16 ≡ b / 16 → pull n (b % 16 * 4 + x) / 4 % 256 ≡ b
second_byte n b x h lt e = omega arith

third_byte : (n c : ℕ) → IsByte c → n % 4 ≡ c / 64 → pull n (c % 64) / 1 % 256 ≡ c
third_byte n c h e = omega arith

-- The first two letters of a group give its first byte.
decode_pair :
    (a x : ℕ) (cs : List ℕ) (accumulator : ℕ)
    → IsByte a
    → x < 16
    → (n : ℕ) × (n % 64 ≡ a % 4 * 16 + x)
      × (decode_from (letter (a / 4) ∷ letter (a % 4 * 16 + x) ∷ cs) 0 accumulator
          ≡ cons? (some a) (decode_from cs 4 n))
decode_pair a x cs acc h lt =
    let m : ℕ = pull acc (a / 4) in
    let e = pull-letter acc (a / 4) (omega arith) in
    (
      pull m (a % 4 * 16 + x),
      pull-letter m (a % 4 * 16 + x) (omega arith),
      decode_letter (a / 4) _ 0 acc (omega arith)
          ∙ decode_letter (a % 4 * 16 + x) cs 6 m (omega arith)
          ∙ rw (first_byte m a x h lt e) refl,
    )

-- The third letter gives the second byte.
decode_third :
    (b x : ℕ) (cs : List ℕ) (n : ℕ)
    → IsByte b
    → x < 4
    → n % 16 ≡ b / 16
    → (m : ℕ) × (m % 64 ≡ b % 16 * 4 + x)
      × (decode_from (letter (b % 16 * 4 + x) ∷ cs) 4 n ≡ cons? (some b) (decode_from cs 2 m))
decode_third b x cs n h lt e = (
  pull n (b % 16 * 4 + x),
  pull-letter n (b % 16 * 4 + x) (omega arith),
  decode_letter (b % 16 * 4 + x) cs 4 n (omega arith) ∙ rw (second_byte n b x h lt e) refl,
)

decode_from-letters :
    (bs : List ℕ) (n accumulator : ℕ)
    → All IsByte bs
    → decode_from (map letter (sextets bs) ++ padding n) 0 accumulator ≡ some bs
decode_from-letters [] n acc h = decode_from-padding n 0 acc
decode_from-letters (a ∷ []) n acc h =
    let zero_end : a % 4 * 16 + 0 ≡ a % 4 * 16 = omega arith in
    let (m, e, k) = decode_pair a 0 (padding n) acc h.0 (omega arith) in
    (rw zero_end at k) ∙ rw (decode_from-padding n 4 m) refl
decode_from-letters (a ∷ b ∷ []) n acc h =
    let zero_end : b % 16 * 4 + 0 ≡ b % 16 * 4 = omega arith in
    let (m, e, k) =
      decode_pair a (b / 16) (letter (b % 16 * 4) ∷ padding n) acc h.0 (omega (arith, h.1.0)) in
    let (l, f, g) = decode_third b 0 (padding n) m h.1.0 (omega arith) (omega (arith, e, h.1.0)) in
    k ∙ rw ((rw zero_end at g), decode_from-padding n 2 l) refl
decode_from-letters (a ∷ b ∷ c ∷ bs) n acc h =
    let tail : List ℕ = letter (c % 64) ∷ (map letter (sextets bs) ++ padding n) in
    let (m, e, k) =
      decode_pair a (b / 16) (letter (b % 16 * 4 + c / 64) ∷ tail) acc h.0 (omega (arith, h.1.0)) in
    let (l, f, g) =
      decode_third b (c / 64) tail m h.1.0 (omega (arith, h.1.1.0)) (omega (arith, e, h.1.0)) in
    k
    ∙ rw
        (
          g,
          decode_letter (c % 64) (map letter (sextets bs) ++ padding n) 2 l (omega arith),
          third_byte l c h.1.1.0 (omega (arith, f, h.1.1.0)),
          decode_from-letters bs n (pull l (c % 64)) h.1.1.1,
        )
        refl

length-sextets : (bs : List ℕ) → length (sextets bs) ≤ (length bs + 2) / 3 * 4
length-sextets [] = omega arith
length-sextets (a ∷ []) = omega arith
length-sextets (a ∷ b ∷ []) = omega arith
length-sextets (a ∷ b ∷ c ∷ bs) = omega (arith, length-sextets bs)

length-letters : (is : List ℕ) → length (map letter is) ≡ length is
length-letters [] = refl
length-letters (i ∷ is) = ap (λ n. suc n) (length-letters is)

length-padding : (n : ℕ) → length (padding n) ≡ n
length-padding zero = refl
length-padding (suc n) = ap (λ m. suc m) (length-padding n)

length-lt-sextets :
    (bs : List ℕ) → 0 < length bs → (length bs + 2) / 3 * 4 ≤ length (sextets bs) + 2
length-lt-sextets [] h = absurd (omega arith)
length-lt-sextets (a ∷ []) h = omega arith
length-lt-sextets (a ∷ b ∷ []) h = omega arith
length-lt-sextets (a ∷ b ∷ c ∷ []) h = omega arith
length-lt-sextets (a ∷ b ∷ c ∷ d ∷ bs) h = omega (arith, length-lt-sextets (d ∷ bs) (omega arith))

-- The code of the standard: the letters of the groups of bytes, with `=` signs to four characters for
-- each group that was begun.
abbrev pub standard : List ℕ → List ℕ
standard bs = map letter (sextets bs) ++ padding ((length bs + 2) / 3 * 4 - length (sextets bs))

length-standard : (bs : List ℕ) → length (standard bs) ≡ (length bs + 2) / 3 * 4
length-standard bs = omega (
  arith,
  length-append (map letter (sextets bs)) (padding ((length bs + 2) / 3 * 4 - length (sextets bs))),
  length-letters (sextets bs),
  length-padding ((length bs + 2) / 3 * 4 - length (sextets bs)),
  length-sextets bs,
)

in_range : (a b c : ℕ) → a ≤ b → b ≤ c → (leb a b && leb b c) ≡ true
in_range a b c h k = ground arith

suc-ne-0 : (n : ℕ) → (suc n == 0) ≡ false
suc-ne-0 n = ground arith

-- The assertions hold of a string that is not empty.
asserted :
    (bs : List ℕ)
    → 0 < length bs
    → length bs ≤ (2 ^ 64 - 1) / 4 * 3
    → (leb (((length bs + 2) / 3 * 4 + (2 ^ 64 - 2)) % 2 ^ 64) (length (sextets bs))
        && leb (length (sextets bs)) ((length bs + 2) / 3 * 4))
      ≡ true
asserted bs some_byte le =
    let low = length-lt-sextets bs some_byte in
    let high = length-sextets bs in
    let wraps : ((length bs + 2) / 3 * 4 + (2 ^ 64 - 2)) % 2 ^ 64 ≤ length (sextets bs) =
      omega arith in
    in_range _ _ _ wraps high

-- The encoding of a string that is not too large is the one that the standard describes: the letters
-- of its groups of bytes, with `=` signs to four characters for each group that was begun. Only for
-- the empty string there is none: there an assertion fails.
pub base64_encode-sextets :
    (bs : List ℕ)
    → All IsByte bs
    → length bs ≤ (2 ^ 64 - 1) / 4 * 3
    → (base64_encode bs ≡ (if length bs == 0 then none else some (standard bs)))
      × (length (standard bs) ≡ (length bs + 2) / 3 * 4)
unfolding base64_encode encode_from
base64_encode-sextets [] h le = (refl, refl)
base64_encode-sextets (b ∷ bs) h le = (
  rw
      (
        not_too_large,
        encode_from-sextets (b ∷ bs) 0 h,
        length-letters (sextets (b ∷ bs)),
        asserted (b ∷ bs) (omega arith) le,
        suc-ne-0 (length bs),
      )
      refl,
  length-standard (b ∷ bs),
)
  where
    not_too_large : ltb ((2 ^ 64 - 1) / 4 * 3) (length (b ∷ bs)) ≡ false
    not_too_large = ground arith

-- The same for a string that is not empty.
pub base64_encode-standard :
    (bs : List ℕ)
    → All IsByte bs
    → 0 < length bs
    → length bs ≤ (2 ^ 64 - 1) / 4 * 3
    → base64_encode bs ≡ some (standard bs)
base64_encode-standard bs h some_byte le =
    (base64_encode-sextets bs h le).0
    ∙ (if_ind (λ c. c ≡ some (standard bs)) (length bs == 0) _ _
        (λ e. absurd (ground (arith, some_byte, e))) (λ _. refl))

-- Every string of bytes that is neither empty nor too large is encoded, and decoding gives it back.
pub base64_decode-encode :
    (bs : List ℕ)
    → All IsByte bs
    → 0 < length bs
    → length bs ≤ (2 ^ 64 - 1) / 4 * 3
    → (cs : List ℕ) × (base64_encode bs ≡ some cs) × (base64_decode cs ≡ some bs)
unfolding base64_decode
base64_decode-encode bs h some_byte le = (
  standard bs,
  base64_encode-standard bs h some_byte le,
  decode_from-letters bs ((length bs + 2) / 3 * 4 - length (sextets bs)) 0 h,
)
