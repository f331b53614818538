-- ===== src/Runner/Start.antt =====
-- src/jepsen/Runner.cpp, the start of `Runner::runCases`: the workers, and the context of their
-- threads and processes.
use native.Mathlib.Nat.{mod-eq_of_lt}
use jepsen_in_cpp.Prelude.{
  ap, subst, ℕ, zero, suc, ◌+◌, ◌≤◌, true, Bool, false, if◌then◌else◌, ◌||◌, none, ◌≡◌, refl, sym,
  ◌∙◌, [], ◌∷◌, arith, All, ltb, inl, inr,
}
use jepsen_in_cpp.Prelude.Int.{ℤ, pos, negsuc, eqb_ℤ, eqb_ℤ_iff}
use jepsen_in_cpp.Operation.{nemesis_process}
use jepsen_in_cpp.Context.{
  Context, Threads, Workers, new_context, insert, insert_from, assign, lookup, count_clients,
}
use jepsen_in_cpp.Context.Processes.{IsOwn, IsAssigned, assign-IsOwn}
use jepsen_in_cpp.Generator.Types.{GeneratorPtr}
use jepsen_in_cpp.Generator.Factory.{create_validate}
use jepsen_in_cpp.Generator.Fits.{Fits}
use jepsen_in_cpp.Runner.{Runner, Inboxes}
use jepsen_in_cpp.Runner.Load.{one_if, times_in, times_in-insert, load, jobs, lookup-assign_ne}
use jepsen_in_cpp.Runner.Invariant.{IsSound, anyone, in_flight}

-- The process of each client thread from `i`.
unfoldable pub assign_from : ℕ → ℕ → Workers → Workers
unfolding assign
assign_from zero i w = w
assign_from (suc left) i w = assign_from left (i + 1) (assign (pos i) (pos i) w)

-- The empty queue of each worker, the clients from `i` first.
unfoldable pub new_inboxes : ℕ → ℕ → Inboxes
new_inboxes zero i = (nemesis_process, []) ∷ []
new_inboxes (suc left) i = (pos i, []) ∷ new_inboxes left (i + 1)

unfoldable pub start_context : ℤ → ℕ → Context
unfolding new_context assign_from assign
start_context now concurrency = record (new_context now concurrency) {
  workers = assign nemesis_process nemesis_process (assign_from concurrency 0 []);
}

-- The runner where the loop begins, all workers having been made. `Runner::setGenerator` has wrapped the
-- generator.
unfoldable pub start_runner : {S : Type 0} → ℤ → ℕ → GeneratorPtr S → Runner S
unfolding start_context new_inboxes
start_runner now concurrency generator = record {
  ctx = start_context now concurrency;
  generator = create_validate generator;
  outstanding = pos 0;
  poll_timeout = 0;
  history = [];
  flag = true;
  inboxes = new_inboxes concurrency 0;
  completions = [];
}

-- The thread of a client before the `i`-th.
abbrev pub below : ℕ → ℤ → Bool
below i (pos t) = ltb t i
below i (negsuc t) = false

pub times_in-insert_from :
    (left i end : ℕ) (free : Threads)
    → i + left ≡ end
    → ((t : ℤ) → times_in t free ≡ one_if (below i t))
    → (t : ℤ) → times_in t (insert_from left i free) ≡ one_if (below end t)
unfolding insert_from
times_in-insert_from zero i end free e h t =
    subst (λ j. times_in t free ≡ one_if (below j t)) (omega arith) (h t)
times_in-insert_from (suc left) i end free e h t =
    times_in-insert_from left (i + 1) end (insert (pos i) free) (omega arith) placed t
  where
    beyond : times_in (pos i) free ≡ 0
    beyond = h (pos i) ∙ ground arith

    placed : (u : ℤ) → times_in u (insert (pos i) free) ≡ one_if (below (i + 1) u)
    placed (pos t) = times_in-insert (pos t) (pos i) free beyond ∙ ground (arith, h (pos t))
    placed (negsuc t) =
        times_in-insert (negsuc t) (pos i) free beyond ∙ ground (arith, h (negsuc t))

pub times_in-nobody : (u : ℤ) → times_in u [] ≡ one_if (below 0 u)
unfolding times_in
times_in-nobody (pos u) = ground arith
times_in-nobody (negsuc u) = refl

-- The free threads at the start: each client and the nemesis, once.
pub times_in-start :
    (now : ℤ) (n : ℕ) (t : ℤ)
    → times_in t (start_context now n).free_threads ≡ one_if (eqb_ℤ t nemesis_process || below n t)
unfolding start_context new_context times_in
times_in-start now n t =
    let clients = times_in-insert_from n 0 n [] (omega arith) times_in-nobody in
    times_in-insert t nemesis_process _ (clients nemesis_process) ∙ apart t (clients t)
  where
    apart :
        (u : ℤ)
        → times_in u (insert_from n 0 []) ≡ one_if (below n u)
        → one_if (eqb_ℤ u nemesis_process) + times_in u (insert_from n 0 [])
          ≡ one_if (eqb_ℤ u nemesis_process || below n u)
    apart (pos u) e = ground (arith, e)
    apart (negsuc u) e = ground (arith, e)

pub once_at_start : (now : ℤ) (n : ℕ) (t : ℤ) → times_in t (start_context now n).free_threads ≤ 1
once_at_start now n t = rw (times_in-start now n t) (ground arith)

assign_from-IsOwn :
    (n left i : ℕ) (w : Workers)
    → i + left ≤ n
    → All (IsOwn n) w
    → All (IsOwn n) (assign_from left i w)
unfolding assign_from
assign_from-IsOwn n zero i w le h = h
assign_from-IsOwn n (suc left) i w le h = assign_from-IsOwn n left (i + 1) _ (omega arith) (
    assign-IsOwn n w (pos i) (pos i) h
      (inr (i, refl, ap (λ x. pos x) (sym (mod-eq_of_lt {n = i} {m = n} (omega arith))))))

-- `workers[t]` where the thread had no process yet.
count_clients-assign_new :
    (w : Workers) (t p : ℤ)
    → lookup t w ≡ none
    → count_clients (assign t p w) ≡ (if eqb_ℤ p nemesis_process then 0 else 1) + count_clients w
unfolding lookup assign count_clients
count_clients-assign_new [] t p h = ground (arith, eqb_ℤ_iff p nemesis_process)
count_clients-assign_new ((u, q) ∷ w) t p h =
    ground (arith, eqb_ℤ_iff p nemesis_process, count_clients-assign_new w t p)

count_clients-assign_from :
    (left i : ℕ) (w : Workers)
    → ((j : ℕ) → i ≤ j → lookup (pos j) w ≡ none)
    → count_clients (assign_from left i w) ≡ left + count_clients w
unfolding assign_from
count_clients-assign_from zero i w h = omega arith
count_clients-assign_from (suc left) i w h = omega (
  arith,
  count_clients-assign_from left (i + 1) (assign (pos i) (pos i) w) (λ j le.
      lookup-assign_ne w (pos j) (pos i) (pos i) (λ e. ground (arith, e)) ∙ h j (omega arith)),
  count_clients-assign_new w (pos i) (pos i) (h i (omega arith)),
)

lookup-assign_from :
    (left i k : ℕ) (w : Workers) → lookup (negsuc k) (assign_from left i w) ≡ lookup (negsuc k) w
unfolding assign_from
lookup-assign_from zero i k w = refl
lookup-assign_from (suc left) i k w =
    lookup-assign_from left (i + 1) k (assign (pos i) (pos i) w)
    ∙ lookup-assign_ne w (negsuc k) (pos i) (pos i) (λ e. ground (arith, e))

pub start-IsAssigned : (now : ℤ) (n : ℕ) → IsAssigned n (start_context now n).workers
unfolding start_context lookup count_clients
start-IsAssigned now n = record {
  owned =
      assign-IsOwn n _ nemesis_process nemesis_process (assign_from-IsOwn n n 0 [] (omega arith) tt)
        (inl (refl, refl));
  counted =
      count_clients-assign_new (assign_from n 0 []) nemesis_process nemesis_process
        (lookup-assign_from n 0 0 [])
      ∙ omega (arith, count_clients-assign_from n 0 [] (λ j le. refl));
}

jobs-new_inboxes : (left i : ℕ) → jobs (new_inboxes left i) ≡ []
unfolding jobs new_inboxes
jobs-new_inboxes zero i = refl
jobs-new_inboxes (suc left) i = jobs-new_inboxes left (i + 1)

pub in_flight-start_runner :
    {S : Type 0} (now : ℤ) (n : ℕ) (g : GeneratorPtr S) → in_flight (start_runner now n g) ≡ []
unfolding start_runner
in_flight-start_runner now n g = rw (jobs-new_inboxes n 0) refl

-- Where the loop begins every thread is free and no operation is on its way.
pub start_runner-IsSound :
    {S : Type 0} (now : ℤ) (n : ℕ) (g : GeneratorPtr S)
    → Fits anyone g
    → IsSound n (start_context now n).free_threads (start_runner now n g)
unfolding start_runner load
start_runner-IsSound now n g fits = record {
  balanced = record {
    assigned = start-IsAssigned now n;
    hosted = rw (jobs-new_inboxes n 0) tt;
    conserved = λ t. rw (jobs-new_inboxes n 0) (omega arith);
  };
  counted = rw (jobs-new_inboxes n 0) refl;
  fits = fits;
}
