-- ===== src/Context.antt =====
-- src/jepsen/Context.h and Context.cpp: which threads are free, and which process each thread runs.
pub mod Processes
pub mod Ready
pub mod Staffed
use jepsen_in_cpp.Prelude.{
  ℕ, zero, suc, ◌+◌, Bool, if◌then◌else◌, Option, none, some, List, [], ◌∷◌, M, ◌>>=◌, pure,
  or_fault, length, get_elem?, keep, lift, ◌==◌,
}
use jepsen_in_cpp.Prelude.Int.{ℤ, pos, ◌+ℤ◌, ltb_ℤ, eqb_ℤ}
use jepsen_in_cpp.Operation.{nemesis_process, invalid_process}

-- `std::set<int>`, ascending.
abbrev pub Threads : Type 0
Threads = List ℤ

-- `std::unordered_map<int, int>` from threads to processes, in the order in which it is walked.
abbrev pub Workers : Type 0
Workers = List (ℤ × ℤ)

pub record Context : Type 0 where
  pub time : ℤ
  pub free_threads : Threads
  pub workers : Workers

-- `free_threads.insert(t)`.
unfoldable pub insert : ℤ → Threads → Threads
insert t [] = t ∷ []
insert t (u ∷ us) = if eqb_ℤ t u then u ∷ us else if ltb_ℤ t u then t ∷ u ∷ us else u ∷ insert t us

-- `free_threads.erase(t)`.
unfoldable pub erase : ℤ → Threads → Threads
erase t [] = []
erase t (u ∷ us) = if eqb_ℤ t u then us else u ∷ erase t us

-- `workers.at(t)`.
unfoldable pub lookup : ℤ → Workers → Option ℤ
lookup t [] = none
lookup t ((u, p) ∷ w) = if eqb_ℤ t u then some p else lookup t w

-- `workers[t] = p`.
unfoldable pub assign : ℤ → ℤ → Workers → Workers
assign t p [] = (t, p) ∷ []
assign t p ((u, q) ∷ w) = if eqb_ℤ t u then (u, p) ∷ w else (u, q) ∷ assign t p w

-- The loop of the constructor, over the threads from `i`.
unfoldable pub insert_from : ℕ → ℕ → Threads → Threads
insert_from zero i free = free
insert_from (suc left) i free = insert_from left (i + 1) (insert (pos i) free)

-- `Context(concurrency)` at the time `now`.
unfoldable pub new_context : ℤ → ℕ → Context
unfolding insert_from insert
new_context now concurrency = record {
  time = now;
  free_threads = insert nemesis_process (insert_from concurrency 0 []);
  workers = [];
}

-- What the program asks of the world: `rand`, `random_device` through `uniform_int_distribution`
-- over [0, n - 1], and the system clock.
pub record World : Type 1 where
  pub State : Type 0
  pub rand : State → ℕ × State
  pub uniform : ℕ → State → ℕ × State
  pub now : State → ℤ × State

module _ (w : World) where
  open w use {State, uniform}

  -- `workers.at` throws where the thread has no process.
  draw_process : Context → M State ℤ
  unfolding lookup
  draw_process ctx = do
    i ← lift (uniform (length ctx.free_threads))
    thread ← or_fault (get_elem? ctx.free_threads i)
    or_fault (lookup thread ctx.workers)

  -- `Context::randomFreeProcess`.
  unfoldable pub random_free_process : Context → M State ℤ
  unfolding draw_process
  random_free_process ctx =
      if length ctx.free_threads == 0 then pure invalid_process else draw_process ctx

-- How many workers are clients, `std::count_if` in `Context::nextProcess`.
unfoldable pub count_clients : Workers → ℕ
count_clients [] = 0
count_clients ((t, p) ∷ w) =
    if eqb_ℤ p nemesis_process then count_clients w else count_clients w + 1

-- `workers[thread]`, which puts a 0 where the thread has no process.
unfoldable pub at_or_insert : ℤ → Workers → Workers × ℤ
unfolding lookup assign
at_or_insert t w = elim (lookup t w) [ none ↦ (assign t (pos 0) w, pos 0) | some p ↦ (w, p) ]

-- `Context::nextProcess`, with the context that it leaves behind.
unfoldable pub next_process : Context → ℤ → Context × ℤ
unfolding count_clients at_or_insert
next_process ctx thread =
    let count = count_clients ctx.workers in
    let (workers, process) = at_or_insert thread ctx.workers in
    if eqb_ℤ thread nemesis_process
    then (ctx, thread)
    else (record ctx { workers = workers }, process +ℤ pos count)

-- The walk of `Context::processToThread`.
unfoldable pub thread_of : ℤ → Workers → ℤ
thread_of process [] = invalid_process
thread_of process ((t, p) ∷ w) = if eqb_ℤ p process then t else thread_of process w

-- `Context::processToThread`.
unfoldable pub process_to_thread : Context → ℤ → ℤ
unfolding thread_of
process_to_thread ctx process = thread_of process ctx.workers

-- `generator::onThreadsContext`.
unfoldable pub on_threads_context : (ℤ → Bool) → Context → Context
on_threads_context filter ctx = record ctx {
  free_threads = keep filter ctx.free_threads;
  workers = keep (λ (tp : ℤ × ℤ). filter tp.0) ctx.workers;
}
