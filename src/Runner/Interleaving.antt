-- ===== src/Runner/Interleaving.antt =====
-- The calls of threads that take turns, and what remains of them when those of one thread are kept.
use jepsen_in_cpp.Prelude.{
  In, String, Bool, true, false, if◌then◌else◌, List, [], ◌∷◌, ◌++◌, keep, All, ◌≡◌, ◌≢◌, All-imp,
  refl, sym, ◌∙◌, ap, inl, inr,
}
use jepsen_in_cpp.Runner.Lifecycle.{Event, Phase, for_each}

-- One list shuffled into another, each in its order.
pub data Merge : List Event → List Event → List Event → Type 0 where
  neither : Merge [] [] []
  first : {e : Event} {xs ys zs : List Event} → Merge xs ys zs → Merge (e ∷ xs) ys (e ∷ zs)
  second : {e : Event} {xs ys zs : List Event} → Merge xs ys zs → Merge xs (e ∷ ys) (e ∷ zs)

-- The calls of the threads of a phase, in the order of a run.
pub data Interleaved : Phase → List Event → Type 0 where
  no_thread : Interleaved [] []
  beside :
      {thread ys zs : List Event} {phase : Phase}
      → Merge thread ys zs
      → Interleaved phase ys
      → Interleaved (thread ∷ phase) zs

-- The calls of a run: one phase after the other.
pub data IsTrace : List Phase → List Event → Type 0 where
  no_phase : IsTrace [] []
  next_phase :
      {phase : Phase} {phases : List Phase} {ys zs : List Event}
      → Interleaved phase ys
      → IsTrace phases zs
      → IsTrace (phase ∷ phases) (ys ++ zs)

-- No node is listed twice.
abbrev pub IsDistinct : List String → Type 0
IsDistinct [] = Unit
IsDistinct (n ∷ ns) = All (λ m. m ≢ n) ns × IsDistinct ns

pub differs : {node n : String} (ns : List String) → In node ns → All (λ m. m ≢ n) ns → n ≢ node
differs [] i h = elim i [ ]
differs (m ∷ ms) (inl e) h = λ k. h.0 (sym (k ∙ e))
differs (m ∷ ms) (inr i) h = differs ms i h.1

module _ (test : Event → Bool) where
  pub keep-Merge_first :
      {xs ys zs : List Event}
      → All (λ e. test e ≡ false) ys
      → Merge xs ys zs
      → keep test zs ≡ keep test xs
  keep-Merge_first h neither = refl
  keep-Merge_first h (first {e = e} m) =
      ap (λ l. if test e then e ∷ l else l) (keep-Merge_first h m)
  keep-Merge_first h (second m) = rw h.0 (keep-Merge_first h.1 m)

  pub keep-Merge_second :
      {xs ys zs : List Event}
      → All (λ e. test e ≡ false) xs
      → Merge xs ys zs
      → keep test zs ≡ keep test ys
  keep-Merge_second h neither = refl
  keep-Merge_second h (first m) = rw h.0 (keep-Merge_second h.1 m)
  keep-Merge_second h (second {e = e} m) =
      ap (λ l. if test e then e ∷ l else l) (keep-Merge_second h m)

  pub keep-append : (xs ys : List Event) → keep test (xs ++ ys) ≡ keep test xs ++ keep test ys
  keep-append [] ys = refl
  keep-append (x ∷ xs) ys = by_test (test x) (keep-append xs ys)
    where
      by_test :
          (b : Bool)
          → keep test (xs ++ ys) ≡ keep test xs ++ keep test ys
          → (if b then x ∷ keep test (xs ++ ys) else keep test (xs ++ ys))
            ≡ (if b then x ∷ keep test xs else keep test xs) ++ keep test ys
      by_test true ih = ap (λ l. x ∷ l) ih
      by_test false ih = ih

  Merge-All :
      {xs ys zs : List Event}
      → All (λ e. test e ≡ false) xs
      → All (λ e. test e ≡ false) ys
      → Merge xs ys zs
      → All (λ e. test e ≡ false) zs
  Merge-All h k neither = tt
  Merge-All h k (first m) = (h.0, Merge-All h.1 k m)
  Merge-All h k (second m) = (k.0, Merge-All h k.1 m)

  module _ (node : String) (f : String → List Event)
      (foreign : (n : String) → n ≢ node → All (λ e. test e ≡ false) (f n)) where
    others :
        (nodes : List String) {t : List Event}
        → All (λ n. n ≢ node) nodes
        → Interleaved (for_each f nodes) t
        → All (λ e. test e ≡ false) t
    others [] h no_thread = tt
    others (n ∷ ns) h (beside m rest) = Merge-All (foreign n h.0) (others ns h.1 rest) m

    -- Of what all threads do, that of the node's own thread remains.
    pub keep-for_each :
        (nodes : List String) {t : List Event}
        → In node nodes
        → IsDistinct nodes
        → Interleaved (for_each f nodes) t
        → keep test t ≡ keep test (f node)
    keep-for_each [] h d i = elim h [ ]
    keep-for_each (n ∷ ns) (inl e) d (beside m rest) =
        keep-Merge_first (others ns (All-imp ns (λ k ne e'. ne (e' ∙ e)) d.0) rest) m
        ∙ ap (λ k. keep test (f k)) (sym e)
    keep-for_each (n ∷ ns) (inr h) d (beside m rest) =
        keep-Merge_second (foreign n (differs ns h d.0)) m ∙ keep-for_each ns h d.1 rest
