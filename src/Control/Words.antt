-- ===== src/Control/Words.antt =====
-- The words of a command, as the shell reads them, without quoting: the parts between spaces.
use Prim.Native.Char.{char, code}
use text.Mathlib.TextLemmas as Text
use jepsen_in_cpp.Prelude.{
  ◌==◌, String, ◌<>◌, if◌then◌else◌, List, [], ◌∷◌, ◌++◌, ◌≡◌, refl, subst, ◌∙◌, ap, Bool-cases,
  inl, inr,
}

-- The word, if it is not empty, before the others.
abbrev pub keep : String → List String → List String
keep String.[] ws = ws
keep (String.◌∷◌ c s) ws = String.◌∷◌ c s ∷ ws

-- The part before the first space, and the words after it.
abbrev pub cut : String → String × List String
cut String.[] = (String.[], [])
cut (String.◌∷◌ c s) =
    let (w, ws) = cut s in if code c == 32 then (String.[], keep w ws) else (String.◌∷◌ c w, ws)

abbrev pub words : String → List String
words s = keep (cut s).0 (cut s).1

keep-append : (w : String) (us ws : List String) → keep w (us ++ ws) ≡ keep w us ++ ws
keep-append String.[] us ws = refl
keep-append (String.◌∷◌ c s) us ws = refl

-- A text that is empty or begins with a space, and its words.
pub record Opens (t : String) (ws : List String) : Type 0 where
  pub cut_at : cut t ≡ (String.[], ws)

cut-append :
    (a t : String) (ws : List String) → Opens t ws → cut (a <> t) ≡ ((cut a).0, (cut a).1 ++ ws)
cut-append String.[] t ws o = ap cut (Text.nil-append t) ∙ o.cut_at
cut-append (String.◌∷◌ c a) t ws o =
    ap cut (Text.cons-append c a t) ∙ elim (Bool-cases (code c == 32)) [
      | inl e ↦
          rw (e, cut-append a t ws o)
            (ap (λ l. (String.[], l)) (keep-append (cut a).0 (cut a).1 ws))
      | inr e ↦ rw (e, cut-append a t ws o) refl
    ]

pub words-append : (a t : String) (ws : List String) → Opens t ws → words (a <> t) ≡ words a ++ ws
words-append a t ws o =
    ap (λ p. keep p.0 p.1) (cut-append a t ws o) ∙ keep-append (cut a).0 (cut a).1 ws

pub Opens-append :
    (a t : String) (us ws : List String) → Opens a us → Opens t ws → Opens (a <> t) (us ++ ws)
Opens-append a t us ws o p = record {
  cut_at = cut-append a t ws p ∙ ap (λ q. (q.0, q.1 ++ ws)) o.cut_at;
}

-- The same, with texts and words read off the two parts.
pub words-before :
    (a : String) {t : String} {us ws : List String}
    → words a ≡ us
    → Opens t ws
    → words (a <> t) ≡ us ++ ws
words-before a {t} {us} {ws} e o = words-append a t ws o ∙ ap (λ l. l ++ ws) e

pub Opens-join :
    {a t : String} {us ws : List String} → Opens a us → Opens t ws → Opens (a <> t) (us ++ ws)
Opens-join {a} {t} {us} {ws} o p = Opens-append a t us ws o p

pub Opens-space : (t : String) → Opens (" " <> t) (words t)
Opens-space t = record {
  cut_at = ap cut (
      Text.cons-append (char 32 tt) "" t ∙ ap (λ x. String.◌∷◌ (char 32 tt) x) (Text.nil-append t));
}

-- A text before another one, with a space between them.
pub Opens-before :
    (a t : String) (us : List String) → Opens a us → Opens ((a <> " ") <> t) (us ++ words t)
Opens-before a t us o = record {
  cut_at =
      ap cut (Text.append_assoc a " " t)
      ∙ (Opens-append a (" " <> t) us (words t) o (Opens-space t)).cut_at;
}

-- An option with its value, before what follows.
pub Opens-option :
    (a v t : String) (us ws : List String)
    → Opens a us
    → Opens t ws
    → Opens ((a <> " ") <> (v <> t)) (us ++ (words v ++ ws))
Opens-option a v t us ws o p =
    subst (λ l. Opens ((a <> " ") <> (v <> t)) (us ++ l)) (words-append v t ws p)
      (Opens-before a (v <> t) us o)
