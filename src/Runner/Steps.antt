-- ===== src/Runner/Steps.antt =====
-- The steps of a run: those of the loop of `runCases`, and those of the worker threads beside it.
use jepsen_in_cpp.Prelude.{List, [], ◌∷◌, ◌++◌, ◌≡◌, true, done, ℕ}
use jepsen_in_cpp.Prelude.Int.{ℤ}
use jepsen_in_cpp.Operation.{Operation}
use jepsen_in_cpp.Context.{World}
use jepsen_in_cpp.Runner.{Runner, Inboxes, complete, ask}

-- A worker takes the first operation of its queue.
pub data Takes : Inboxes → Operation → Inboxes → Type 0 where
  here :
      {t : ℤ} {o : Operation} {ops : List Operation} {rest : Inboxes}
      → Takes ((t, o ∷ ops) ∷ rest) o ((t, ops) ∷ rest)
  later :
      {x : ℤ × List Operation} {o : Operation} {rest rest' : Inboxes}
      → Takes rest o rest'
      → Takes (x ∷ rest) o (x ∷ rest')

-- The queue of completions gives out its operations in any order, and a poll may come back without
-- one. A client may change all of an operation but its process.
pub data Step (w : World) (fuel : ℕ) (r r' : Runner w.State) : Type 0 where
  completes :
      (before : List Operation) (o : Operation) (after : List Operation) (s s' : w.State)
      → r.flag ≡ true
      → r.completions ≡ before ++ o ∷ after
      → complete w (record r { completions = before ++ after }) o s ≡ done (r', s')
      → Step w fuel r r'
  asks : (s s' : w.State) → r.flag ≡ true → ask w fuel r s ≡ done (r', s') → Step w fuel r r'
  works :
      (o o' : Operation) (inboxes : Inboxes)
      → Takes r.inboxes o inboxes
      → o'.process ≡ o.process
      → r' ≡ record r { inboxes = inboxes; completions = r.completions ++ o' ∷ [] }
      → Step w fuel r r'

-- From one runner to another while the loop runs.
pub data Reach (w : World) (fuel : ℕ) (r : Runner w.State) : Runner w.State → Type 0 where
  start : Reach w fuel r r
  next :
      {q q' : Runner w.State}
      → Reach w fuel r q
      → Step w fuel q q'
      → q'.flag ≡ true
      → Reach w fuel r q'

pub Reach-trans :
    {w : World} {fuel : ℕ} {r q x : Runner w.State}
    → Reach w fuel r q
    → Reach w fuel q x
    → Reach w fuel r x
Reach-trans h start = h
Reach-trans h (next k step running) = next (Reach-trans h k) step running
