-- ===== src/Runner/Turns.antt =====
-- The history of a run as the entries that its steps add, and how the operations of a process take turns
-- in it.
use jepsen_in_cpp.Prelude.{
  ℕ, zero, suc, ◌+◌, ◌≤◌, ltb, Bool, true, false, Bool-cases, inl, inr, if◌then◌else◌, Option, none,
  some, ◌≡◌, refl, ◌∙◌, ap, List, [], ◌∷◌, ◌++◌, map, length, arith,
}
use jepsen_in_cpp.Prelude.Int.{ℤ, eqb_ℤ, eqb_ℤ_iff}
use jepsen_in_cpp.Operation.{Operation}
use jepsen_in_cpp.Context.{Context, Workers, World, Threads, thread_of}
use jepsen_in_cpp.Context.Ready.{IsReady}
use jepsen_in_cpp.Runner.{Runner}
use jepsen_in_cpp.Runner.Load.{one_if, times_in, times_in-In, load, IsHosted-thread, OneMore}
use jepsen_in_cpp.Runner.Steps.{Step, completes, asks, works, Reach, start, next}
use jepsen_in_cpp.Runner.Balance.{IsBalanced}

-- How many of the operations are for the process.
unfoldable pub count : ℤ → List Operation → ℕ
count p [] = 0
count p (o ∷ os) = one_if (eqb_ℤ o.process p) + count p os

count-append : (p : ℤ) (os qs : List Operation) → count p (os ++ qs) ≡ count p os + count p qs
unfolding count
count-append p [] qs = omega arith
count-append p (o ∷ os) qs = omega (arith, count-append p os qs)

pub OneMore-count :
    (p : ℤ) {o : Operation} {fewer more : List Operation}
    → OneMore o fewer more
    → count p more ≡ one_if (eqb_ℤ o.process p) + count p fewer
unfolding count
OneMore-count p {o} m =
    rw (m.without, m.with_it)
      (omega (arith, count-append p m.before (o ∷ m.after), count-append p m.before m.after))

-- The operations of a process are with its thread.
count-le-load : (w : Workers) (p : ℤ) (os : List Operation) → count p os ≤ load w (thread_of p w) os
unfolding count load
count-le-load w p [] = omega arith
count-le-load w p (o ∷ os) = elim (Bool-cases (eqb_ℤ o.process p)) [
  | inl e ↦ rw ((eqb_ℤ_iff o.process p).0 e) (
      ground
        (arith, count-le-load w p os, eqb_ℤ_iff (thread_of p w) (thread_of p w), eqb_ℤ_iff p p))
  | inr e ↦ rw e (omega (arith, count-le-load w p os))
]

module _ (n : ℕ) (threads : Threads) (once : (t : ℤ) → times_in t threads ≤ 1) where
  -- No process has two operations on their way.
  pub count-le-one :
      (ctx : Context) (p : ℤ) {flying : List Operation}
      → IsBalanced n threads ctx flying
      → count p flying ≤ 1
  count-le-one ctx p {flying} b = omega (
    arith,
    count-le-load ctx.workers p flying,
    b.conserved (thread_of p ctx.workers),
    once (thread_of p ctx.workers),
  )

  -- A process that a free thread runs has none.
  pub count-IsReady :
      (ctx : Context) (p : ℤ) {flying : List Operation}
      → IsBalanced n threads ctx flying
      → IsReady ctx p
      → count p flying ≡ 0
  count-IsReady ctx p {flying} b ready =
      let same = IsHosted-thread n ctx.workers ready.thread p b.assigned.owned ready.runs in
      let free = times_in-In ready.thread ctx.free_threads ready.is_free in
      let at_most = rw same at (count-le-load ctx.workers p flying) in
      omega (arith, at_most, b.conserved ready.thread, once ready.thread, free)

pub data Entry : Type 0 where
  handed returned : Operation → Entry

abbrev pub entry_op : Entry → Operation
entry_op (handed o) = o
entry_op (returned o) = o

abbrev pub drop : {A : Type 0} → ℕ → List A → List A
drop zero xs = xs
drop (suc n) [] = []
drop (suc n) (x ∷ xs) = drop n xs

-- The entries of the history that a step adds.
abbrev pub new_in : {S : Type 0} → Runner S → Runner S → List Operation
new_in r r' = drop (length r.history) r'.history

abbrev pub entries_of :
    {w : World} {fuel : ℕ} {r r' : Runner w.State} → Step w fuel r r' → List Entry
entries_of {r = r} {r' = r'} (completes before o after s s' f e k) =
    map (λ x. returned x) (new_in r r')
entries_of {r = r} {r' = r'} (asks s s' f k) = map (λ x. handed x) (new_in r r')
entries_of (works o o' inboxes t e k) = []

-- The entries of the history in the order of the run: those that `asks` steps add are operations handed
-- out, and those that `completes` steps add are operations that came back.
abbrev pub entries : {w : World} {fuel : ℕ} {r r' : Runner w.State} → Reach w fuel r r' → List Entry
entries start = []
entries (next before step running) = entries before ++ entries_of step

-- Whether an operation of the process is on its way after the entries; `none` where one is handed out
-- before the last one came back, or comes back without having been handed out.
unfoldable pub turns : ℤ → Bool → List Entry → Option Bool
turns p busy [] = some busy
turns p busy (handed o ∷ es) =
    let later = turns p true es in
    let same = turns p busy es in if eqb_ℤ o.process p then (if busy then none else later) else same
turns p busy (returned o ∷ es) =
    let later = turns p false es in
    let same = turns p busy es in if eqb_ℤ o.process p then (if busy then later else none) else same

pub turns-append :
    (p : ℤ) (busy now_busy : Bool) (es fs : List Entry)
    → turns p busy es ≡ some now_busy
    → turns p busy (es ++ fs) ≡ turns p now_busy fs
unfolding turns
turns-append p busy now_busy [] fs h =
    ap (λ (o : Option Bool). elim o [ none ↦ none | some b ↦ turns p b fs ]) h
turns-append p busy now_busy (handed o ∷ es) fs h =
    ground (arith, turns-append p true now_busy es fs, turns-append p busy now_busy es fs)
turns-append p busy now_busy (returned o ∷ es) fs h =
    ground (arith, turns-append p false now_busy es fs, turns-append p busy now_busy es fs)

pub drop-length : {A : Type 0} (xs ys : List A) → drop (length xs) (xs ++ ys) ≡ ys
drop-length [] ys = refl
drop-length (x ∷ xs) ys = drop-length xs ys

pub new_in-known :
    {S : Type 0} (r r' : Runner S) (os : List Operation)
    → r'.history ≡ r.history ++ os
    → new_in r r' ≡ os
new_in-known r r' os e = ap (λ h. drop (length r.history) h) e ∙ drop-length r.history os

-- Whether an operation of the process is among them.
abbrev pub is_among : ℤ → List Operation → Bool
is_among p os = ltb 0 (count p os)

pub turns-handed :
    (p : ℤ) (o : Operation) {fewer more : List Operation}
    → OneMore o fewer more
    → count o.process fewer ≡ 0
    → turns p (is_among p fewer) (handed o ∷ []) ≡ some (is_among p more)
unfolding turns
turns-handed p o m free = ground (arith, OneMore-count p m, eqb_ℤ_iff o.process p)

pub turns-returned :
    (p : ℤ) (o o' : Operation) {fewer more : List Operation}
    → OneMore o fewer more
    → o'.process ≡ o.process
    → count p more ≤ 1
    → turns p (is_among p more) (returned o' ∷ []) ≡ some (is_among p fewer)
unfolding turns
turns-returned p o o' m same single = rw same (ground (arith, OneMore-count p m))
