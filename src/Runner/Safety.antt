-- ===== src/Runner/Safety.antt =====
-- A whole run of `Runner::runCases`, from where its loop begins, in every interleaving with the workers.
use jepsen_in_cpp.Prelude.{
  ℕ, ◌+◌, ◌≤◌, ◌<◌, true, false, some, ◌≡◌, sym, ◌∙◌, ap, [], map, length, done,
}
use jepsen_in_cpp.Prelude.Int.{ℤ, pos}
use jepsen_in_cpp.Context.{World}
use jepsen_in_cpp.Generator.Types.{GeneratorPtr}
use jepsen_in_cpp.Generator.Fits.{Fits}
use jepsen_in_cpp.Runner.{Runner, ask}
use jepsen_in_cpp.Runner.Turns.{entry_op, entries, turns, is_among, count}
use jepsen_in_cpp.Runner.History.{Reach-Continues}
use jepsen_in_cpp.Runner.Load.{times_in, load}
use jepsen_in_cpp.Runner.Steps.{Reach}
use jepsen_in_cpp.Runner.Start.{
  start_context, start_runner, start_runner-IsSound, in_flight-start_runner, once_at_start,
}
use jepsen_in_cpp.Runner.Invariant.{
  anyone, in_flight, IsSound, Reach-IsSound, Reach-ends_empty, Reach-one_at_a_time,
}

module _ (w : World) (fuel : ℕ) (n : ℕ) (now : ℤ) (g : GeneratorPtr w.State) (some_client : 0 < n)
    (fits : Fits anyone g) where
  pub run-IsSound :
      (r : Runner w.State)
      → Reach w fuel (start_runner now n g) r
      → IsSound n (start_context now n).free_threads r
  run-IsSound r reached =
      Reach-IsSound w n (start_context now n).free_threads some_client (once_at_start now n) fuel
        (start_runner now n g) r (start_runner-IsSound now n g fits) reached

  -- In a run with at least one client, of a generator that leaves its operations to the runner to
  -- assign or keeps them to the nemesis, a thread never has two operations between their dispatch
  -- and their completion, and it has none while it is among the free threads.
  pub run-one_at_a_time :
      (r : Runner w.State) (t : ℤ)
      → Reach w fuel (start_runner now n g) r
      → times_in t r.ctx.free_threads + load r.ctx.workers t (in_flight r) ≤ 1
  run-one_at_a_time r t reached =
      Reach-one_at_a_time w n (start_context now n).free_threads some_client (once_at_start now n)
        fuel (start_runner now n g) r t (start_runner-IsSound now n g fits) reached

  -- In a run with at least one client, of a generator that leaves its operations to the runner to
  -- assign or keeps them to the nemesis, `outstanding` is the number of the operations that were
  -- handed out and whose completions were not taken yet.
  pub run-outstanding :
      (r : Runner w.State)
      → Reach w fuel (start_runner now n g) r
      → r.outstanding ≡ pos (length (in_flight r))
  run-outstanding r reached = (run-IsSound r reached).counted

  ends :
      (q r : Runner w.State) (s s' : w.State)
      → Reach w fuel (start_runner now n g) q
      → q.flag ≡ true
      → ask w fuel q s ≡ done (r, s')
      → r.flag ≡ false
      → (in_flight q ≡ []) × (r.history ≡ q.history)
  ends q r s s' reached running asked ended =
      Reach-ends_empty w n (start_context now n).free_threads some_client (once_at_start now n) fuel
        (start_runner now n g) q r s s' (start_runner-IsSound now n g fits) reached running asked
        ended

  -- In a run with at least one client, of a generator that leaves its operations to the runner to
  -- assign or keeps them to the nemesis, no operation is on its way where the loop ends: each one
  -- that was handed out has come back.
  pub run-ends_empty :
      (q r : Runner w.State) (s s' : w.State)
      → Reach w fuel (start_runner now n g) q
      → q.flag ≡ true
      → ask w fuel q s ≡ done (r, s')
      → r.flag ≡ false
      → in_flight q ≡ []
  run-ends_empty q r s s' reached running asked ended =
      (ends q r s s' reached running asked ended).0

  -- In a run with at least one client, of a generator that leaves its operations to the runner to
  -- assign or keeps them to the nemesis, the history is what the steps of the loop added to it, and in
  -- it the operations of each process alternate: one is handed out, then it comes back before the next
  -- one is handed out. The last one has not come back yet just where it is on its way.
  pub run-alternates :
      (p : ℤ) (r : Runner w.State) (reached : Reach w fuel (start_runner now n g) r)
      → (map entry_op (entries reached) ≡ r.history)
        × (turns p false (entries reached) ≡ some (is_among p (in_flight r)))
  unfolding start_runner count
  run-alternates p r reached =
      let (h, t) =
        Reach-Continues w n (start_context now n).free_threads (once_at_start now n) fuel p
          (start_runner now n g) run-IsSound reached in
      (
        sym h,
        ap (λ os. turns p (is_among p os) (entries reached)) (sym (in_flight-start_runner now n g))
            ∙ t,
      )

  -- In a run with at least one client, of a generator that leaves its operations to the runner to
  -- assign or keeps them to the nemesis: the history where the loop ends is what the steps before
  -- added to it, and in it the operations of each process alternate between handed out and come back,
  -- the last one of each process having come back, too.
  pub run-completes_history :
      (p : ℤ) (q r : Runner w.State) (s s' : w.State)
      (reached : Reach w fuel (start_runner now n g) q)
      → q.flag ≡ true
      → ask w fuel q s ≡ done (r, s')
      → r.flag ≡ false
      → (map entry_op (entries reached) ≡ r.history)
        × (turns p false (entries reached) ≡ some false)
  unfolding count
  run-completes_history p q r s s' reached running asked ended =
      let (h, t) = run-alternates p q reached in
      let (empty, kept) = ends q r s s' reached running asked ended in
      (h ∙ sym kept, t ∙ ap (λ os. some (is_among p os)) empty)
