-- ===== src/Runner/Conservation.antt =====
-- How many threads are free and how many operations are on their way, counted together.
use jepsen_in_cpp.Prelude.{
  ℕ, zero, suc, ◌+◌, ◌≤◌, ◌<◌, ◌≡◌, refl, ◌∙◌, ap, inl, inr, List, [], ◌∷◌, length, In, arith, map,
}
use jepsen_in_cpp.Prelude.Int.{ℤ, pos, eqb_ℤ_iff}
use jepsen_in_cpp.Operation.{Operation, nemesis_process}
use jepsen_in_cpp.Context.{
  Context, Threads, Workers, World, insert, insert_from, new_context, thread_of,
}
use jepsen_in_cpp.Generator.Types.{GeneratorPtr}
use jepsen_in_cpp.Generator.Fits.{Fits}
use jepsen_in_cpp.Runner.{Runner}
use jepsen_in_cpp.Runner.Load.{times_in, times_in-In, times_in-insert, load}
use jepsen_in_cpp.Runner.Balance.{IsBalanced}
use jepsen_in_cpp.Runner.Steps.{Reach}
use jepsen_in_cpp.Runner.Start.{
  start_context, start_runner, once_at_start, times_in-insert_from, times_in-nobody,
}
use jepsen_in_cpp.Runner.Invariant.{anyone, in_flight}
use jepsen_in_cpp.Runner.Safety.{run-IsSound}

-- How often the threads of `us` stand among those of `ts`, all together.
unfoldable spread : (ts us : Threads) → ℕ
spread [] us = 0
spread (t ∷ ts) us = times_in t us + spread ts us

spread-nobody : (ts : Threads) → spread ts [] ≡ 0
unfolding spread times_in
spread-nobody [] = refl
spread-nobody (t ∷ ts) = omega (arith, spread-nobody ts)

spread-one :
    (ts : Threads) (u : ℤ) (us : Threads) → spread ts (u ∷ us) ≡ times_in u ts + spread ts us
unfolding spread times_in
spread-one [] u us = refl
spread-one (t ∷ ts) u us = ground (arith, spread-one ts u us, eqb_ℤ_iff t u, eqb_ℤ_iff u t)

-- Threads of which each stands once among `ts`.
spread-length :
    (ts us : Threads) → ((u : ℤ) → In u us → times_in u ts ≡ 1) → spread ts us ≡ length us
spread-length ts [] h = spread-nobody ts
spread-length ts (u ∷ us) h =
    omega (arith, spread-one ts u us, h u (inl refl), spread-length ts us (λ v m. h v (inr m)))

spread-sum :
    (ts us vs ws : Threads)
    → ((t : ℤ) → times_in t us + times_in t vs ≡ times_in t ws)
    → spread ts us + spread ts vs ≡ spread ts ws
unfolding spread
spread-sum [] us vs ws h = refl
spread-sum (t ∷ ts) us vs ws h = omega (arith, h t, spread-sum ts us vs ws h)

-- The threads that the operations are with.
abbrev threads_of : Workers → List Operation → Threads
threads_of w os = map (λ o. thread_of o.process w) os

load-threads_of :
    (w : Workers) (t : ℤ) (os : List Operation) → load w t os ≡ times_in t (threads_of w os)
unfolding load times_in
load-threads_of w t [] = refl
load-threads_of w t (o ∷ os) = omega (arith, load-threads_of w t os)

length-threads_of : (w : Workers) (os : List Operation) → length (threads_of w os) ≡ length os
length-threads_of w [] = refl
length-threads_of w (o ∷ os) = ap (λ n. suc n) (length-threads_of w os)

-- Each thread is free or has an operation.
IsBalanced-length :
    (n : ℕ) (threads : Threads) (ctx : Context) (flying : List Operation)
    → ((t : ℤ) → times_in t threads ≤ 1)
    → IsBalanced n threads ctx flying
    → length ctx.free_threads + length flying ≡ length threads
IsBalanced-length n threads ctx flying once b = omega (
  arith,
  length-threads_of ctx.workers flying,
  spread-length threads ctx.free_threads
      (λ t m. omega (arith, shares t, once t, times_in-In t ctx.free_threads m)),
  spread-length threads busy (λ t m. omega (arith, shares t, once t, times_in-In t busy m)),
  spread-length threads threads (λ t m. omega (arith, once t, times_in-In t threads m)),
  spread-sum threads ctx.free_threads busy threads shares,
)
  where
    busy : Threads
    busy = threads_of ctx.workers flying

    shares : (t : ℤ) → times_in t ctx.free_threads + times_in t busy ≡ times_in t threads
    shares t = omega (arith, load-threads_of ctx.workers t flying, b.conserved t)

length-insert : (t : ℤ) (us : Threads) → times_in t us ≡ 0 → length (insert t us) ≡ suc (length us)
unfolding insert times_in
length-insert t [] h = refl
length-insert t (u ∷ us) h = ground (arith, eqb_ℤ_iff t u, length-insert t us)

length-insert_from :
    (left i : ℕ) (us : Threads)
    → ((j : ℕ) → i ≤ j → times_in (pos j) us ≡ 0)
    → length (insert_from left i us) ≡ left + length us
unfolding insert_from
length-insert_from zero i us h = omega arith
length-insert_from (suc left) i us h = omega (
  arith,
  length-insert (pos i) us (h i (omega arith)),
  length-insert_from left (i + 1) (insert (pos i) us) (λ j le.
      times_in-insert (pos j) (pos i) us (h i (omega arith)) ∙ ground (arith, h j (omega arith))),
)

-- The threads of a run: one for each client, and that of the nemesis.
length-start_context : (now : ℤ) (n : ℕ) → length (start_context now n).free_threads ≡ n + 1
unfolding start_context new_context times_in
length-start_context now n = omega (
  arith,
  length-insert nemesis_process (insert_from n 0 [])
      (times_in-insert_from n 0 n [] (omega arith) times_in-nobody nemesis_process),
  length-insert_from n 0 [] (λ j le. refl),
)

-- In a run with at least one client, of a generator that leaves its operations to the runner to
-- assign or keeps them to the nemesis, the free threads and the operations on their way are always as
-- many as the clients and the nemesis: no thread is lost, and the queues cannot grow further.
pub run-conserves_threads :
    (w : World) (fuel n : ℕ) (now : ℤ) (g : GeneratorPtr w.State) (r : Runner w.State)
    → 0 < n
    → Fits anyone g
    → Reach w fuel (start_runner now n g) r
    → length r.ctx.free_threads + length (in_flight r) ≡ n + 1
run-conserves_threads w fuel n now g r some_client fits reached =
    let sound = run-IsSound w fuel n now g some_client fits r reached in
    IsBalanced-length n (start_context now n).free_threads r.ctx (in_flight r) (once_at_start now n)
      sound.balanced
    ∙ length-start_context now n
