-- ===== src/Runner/Retired.antt =====
-- The process of a client whose operation came back without a result: it is never used again.
use jepsen_in_cpp.Prelude.{
  ℕ, ◌<◌, true, some, ◌≡◌, ◌≢◌, refl, sym, ◌∙◌, ap, subst, List, ◌∷◌, ◌++◌, All, All-imp, arith,
  done,
}
use jepsen_in_cpp.Prelude.Int.{ℤ, pos, ltb_ℤ}
use jepsen_in_cpp.Prelude.Ensures.{
  Ensures, Ensures-pure, Ensures-or_fault, Ensures-lift, Ensures-if, Ensures-bind,
}
use jepsen_in_cpp.Operation.{Operation, info, nemesis_process}
use jepsen_in_cpp.Context.{Workers, World, Threads, insert, lookup, thread_of, process_to_thread}
use jepsen_in_cpp.Context.Processes.{IsOwn, IsOwn-thread, IsAssigned, All-In, lookup-In}
use jepsen_in_cpp.Generator.Types.{GeneratorPtr, Yield}
use jepsen_in_cpp.Generator.Fits.{Fits}
use jepsen_in_cpp.Runner.{
  Runner, Kind, stop, wait, go, kind_of, after_crash, complete, dispatch, by_kind, ask,
}
use jepsen_in_cpp.Runner.Load.{jobs, IsHosted, IsHosted-thread, OneMore, OneMore-under, OneMore-All}
use jepsen_in_cpp.Runner.Steps.{Step, completes, asks, works, Reach, start, next, Reach-trans}
use jepsen_in_cpp.Runner.Start.{start_runner, start_context}
use jepsen_in_cpp.Runner.Invariant.{in_flight, IsSound, anyone}
use jepsen_in_cpp.Runner.Safety.{run-IsSound}
use jepsen_in_cpp.Runner.Outgrown.{Outgrown, after_crash-Outgrown, after_crash-outgrows}

module _ (n : ℕ) (some_client : 0 < n) where
  in_flight-IsHosted :
      {S : Type 0} {threads : Threads} (r : Runner S) (before : List Operation) (o : Operation)
      (after : List Operation)
      → IsSound n threads r
      → r.completions ≡ before ++ o ∷ after
      → IsHosted r.ctx.workers o
  in_flight-IsHosted r before o after sound e =
      let one : OneMore o (in_flight (record r { completions = before ++ after })) (in_flight r) =
        OneMore-under (jobs r.inboxes)
          (record { before = before; after = after; without = refl; with_it = e }) in
      ((OneMore-All (IsHosted r.ctx.workers) one).0 sound.balanced.hosted).0

  module _ (w : World) (fuel : ℕ) (threads : Threads) (thread p : ℤ) where
    open w use {State}

    complete-Outgrown :
        (r : Runner State) (o : Operation)
        → IsAssigned n r.ctx.workers
        → IsHosted r.ctx.workers o
        → Outgrown thread p r.ctx.workers
        → Ensures (λ r'. Outgrown thread p r'.ctx.workers) (complete w r o)
    unfolding complete process_to_thread
    complete-Outgrown r o assigned (t, runs) h =
        Ensures-bind {P = λ t. Unit {0}} _ _ (Ensures-lift _ (λ s. tt)) λ time _.
          Ensures-bind {P = λ g. Unit {0}} _ _ (Ensures-or_fault _ (λ g e. tt)) λ g _.
            Ensures-pure _ (
              after_crash-Outgrown n some_client thread p
                (record (r.ctx) { time = time; free_threads = insert u (r.ctx).free_threads }) u
                (record o { time = time })
                (All-In (IsOwn n) r.ctx.workers (u, o.process) assigned.owned
                  (lookup-In r.ctx.workers u o.process at_home))
                at_home h)
      where
        u : ℤ
        u = thread_of o.process r.ctx.workers

        at_home : lookup u r.ctx.workers ≡ some o.process
        at_home =
            ap (λ x. lookup x r.ctx.workers)
              (IsHosted-thread n r.ctx.workers t o.process assigned.owned runs)
            ∙ runs

    by_kind-workers :
        (k : Kind) (time : ℤ) (r : Runner State) (y : Yield State)
        → Ensures (λ r'. r'.ctx.workers ≡ r.ctx.workers) (by_kind w k time r y)
    unfolding by_kind dispatch
    by_kind-workers stop time r y =
        Ensures-if (ltb_ℤ (pos 0) r.outstanding) _ _ (λ e. Ensures-pure _ refl)
          (λ e. Ensures-pure _ refl)
    by_kind-workers wait time r y = Ensures-pure _ refl
    by_kind-workers go time r y =
        Ensures-if (ltb_ℤ time (y.op).time) _ _ (λ e. Ensures-pure _ refl)
          λ e. Ensures-bind {P = λ ib. Unit {0}} _ _ (Ensures-or_fault _ (λ ib e. tt)) λ ib _.
            Ensures-bind {P = λ g. Unit {0}} _ _ (Ensures-or_fault _ (λ g e. tt))
              λ g _. Ensures-pure _ refl

    -- What takes no completion leaves the processes as they are.
    ask-workers : (r : Runner State) → Ensures (λ r'. r'.ctx.workers ≡ r.ctx.workers) (ask w fuel r)
    unfolding ask by_kind dispatch
    ask-workers r = Ensures-bind {P = λ t. Unit {0}} _ _ (Ensures-lift _ (λ s. tt)) λ time _.
        Ensures-bind {P = λ y. Unit {0}} _ _ (record { apply = λ s a s' e. tt })
          λ y _.
            by_kind-workers (kind_of (y.op).type) time
              (record r { ctx = record (r.ctx) { time = time }; generator = y.self }) y

    step-Outgrown :
        (r r' : Runner State)
        → IsSound n threads r
        → Step w fuel r r'
        → Outgrown thread p r.ctx.workers
        → Outgrown thread p r'.ctx.workers
    step-Outgrown r r' sound (completes before o after s s' f e k) h =
        (complete-Outgrown (record r { completions = before ++ after }) o sound.balanced.assigned
            (in_flight-IsHosted r before o after sound e) h).apply
          s r' s' k
    step-Outgrown r r' sound (asks s s' f k) h =
        subst (Outgrown thread p) (sym ((ask-workers r).apply s r' s' k)) h
    step-Outgrown r r' sound (works o o' inboxes t e k) h =
        subst (λ (x : Runner State). Outgrown thread p x.ctx.workers) (sym k) h

    -- The step at which the process of the thread crashes.
    crash-outgrows :
        (r : Runner State) (o : Operation)
        → IsAssigned n r.ctx.workers
        → lookup thread r.ctx.workers ≡ some o.process
        → o.process ≢ nemesis_process
        → o.type ≡ info
        → Ensures
            (λ r'. Outgrown thread o.process r'.ctx.workers × (r'.flag ≡ r.flag))
            (complete w r o)
    unfolding complete process_to_thread
    crash-outgrows r o assigned runs client crashed =
        Ensures-bind {P = λ t. Unit {0}} _ _ (Ensures-lift _ (λ s. tt)) λ time _.
          Ensures-bind {P = λ g. Unit {0}} _ _ (Ensures-or_fault _ (λ g e. tt)) λ g _.
            Ensures-pure _ (
              subst
                  (λ x.
                    Outgrown thread o.process
                      (after_crash
                        (record (r.ctx) {
                          time = time;
                          free_threads = insert x (r.ctx).free_threads;
                        })
                        x (record o { time = time })).workers)
                  (sym same)
                  (after_crash-outgrows n some_client
                    (record (r.ctx) {
                      time = time;
                      free_threads = insert thread (r.ctx).free_threads;
                    })
                    thread (record o { time = time }) assigned own runs client crashed),
              refl,
            )
      where
        same : thread_of o.process r.ctx.workers ≡ thread
        same = IsHosted-thread n r.ctx.workers thread o.process assigned.owned runs

        own : IsOwn n (thread, o.process)
        own =
            All-In (IsOwn n) r.ctx.workers (thread, o.process) assigned.owned
              (lookup-In r.ctx.workers thread o.process runs)

  -- No thread runs a process that its own thread has outgrown.
  Outgrown-lookup :
      (w : Workers) (thread p : ℤ)
      → IsAssigned n w
      → IsOwn n (thread, p)
      → Outgrown thread p w
      → (t : ℤ) → lookup t w ≢ some p
  Outgrown-lookup w thread p assigned own h t runs =
      let same =
        IsOwn-thread n t thread p (All-In (IsOwn n) w (t, p) assigned.owned (lookup-In w t p runs))
          own in
      let later = h p (ap (λ u. lookup u w) (sym same) ∙ runs) in omega (arith, later)

module _ (w : World) (fuel n : ℕ) (now : ℤ) (g : GeneratorPtr w.State) (some_client : 0 < n)
    (fits : Fits anyone g) where
  Reach-Outgrown :
      (thread p : ℤ) (q r : Runner w.State)
      → Reach w fuel (start_runner now n g) q
      → Reach w fuel q r
      → Outgrown thread p q.ctx.workers
      → Outgrown thread p r.ctx.workers
  Reach-Outgrown thread p q r before start h = h
  Reach-Outgrown thread p q r before (next {q = x} k step running) h =
      step-Outgrown n some_client w fuel (start_context now n).free_threads thread p x r
        (run-IsSound w fuel n now g some_client fits x (Reach-trans before k)) step
        (Reach-Outgrown thread p q x before k h)

  -- In a run with at least one client, of a generator that leaves its operations to the runner to
  -- assign or keeps them to the nemesis: once an operation of a client has come back without a
  -- result, its process is never used again. No thread runs it, and no operation is on its way for it.
  pub run-crash_retires :
      (q q' r : Runner w.State) (before : List Operation) (o : Operation) (after : List Operation)
      (s s' : w.State)
      → Reach w fuel (start_runner now n g) q
      → q.flag ≡ true
      → q.completions ≡ before ++ o ∷ after
      → complete w (record q { completions = before ++ after }) o s ≡ done (q', s')
      → o.process ≢ nemesis_process
      → o.type ≡ info
      → Reach w fuel q' r
      → All (λ (j : Operation). j.process ≢ o.process) (in_flight r)
        × ((t : ℤ) → lookup t r.ctx.workers ≢ some o.process)
  run-crash_retires q q' r before o after s s' reached running queued back client crashed onward =
      let sound = run-IsSound w fuel n now g some_client fits q reached in
      let (thread, runs) = in_flight-IsHosted n some_client q before o after sound queued in
      let own =
        All-In (IsOwn n) q.ctx.workers (thread, o.process) sound.balanced.assigned.owned
          (lookup-In q.ctx.workers thread o.process runs) in
      let (outgrown, flag) =
        (crash-outgrows n some_client w fuel (start_context now n).free_threads thread o.process
            (record q { completions = before ++ after }) o sound.balanced.assigned runs client
            crashed).apply
          s q' s' back in
      let reached' =
        next reached (completes before o after s s' running queued back) (flag ∙ running) in
      let sound' = run-IsSound w fuel n now g some_client fits r (Reach-trans reached' onward) in
      let never =
        Outgrown-lookup n some_client r.ctx.workers thread o.process sound'.balanced.assigned own
          (Reach-Outgrown thread o.process q' r reached' onward outgrown) in
      (
        All-imp (in_flight r) (λ j (t, l) same. never t (l ∙ ap (λ x. some x) same))
            sound'.balanced.hosted,
        never,
      )
