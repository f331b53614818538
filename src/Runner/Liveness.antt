-- ===== src/Runner/Liveness.antt =====
-- src/jepsen/Runner.cpp: the loop of `runCases` goes on from wherever a run has come to.
use jepsen_in_cpp.Prelude.{
  ℕ, zero, suc, ◌+◌, ◌≤◌, ◌<◌, false, ◌≡◌, refl, ap, ◌⊎◌, subst, List, [], In, M, arith, or_fault,
  done, inl, inr,
}
use jepsen_in_cpp.Prelude.Int.{ℤ, pos, negsuc, ltb_ℤ, eqb_ℤ_iff}
use jepsen_in_cpp.Prelude.Ensures.{Ensures-both}
use jepsen_in_cpp.Prelude.Total.{
  Total, Total-pure, Total-or_fault, Total-lift, Total-if, Total-bind, Total-ensured,
}
use jepsen_in_cpp.Operation.{Operation, nemesis_process}
use jepsen_in_cpp.Context.{Context, Threads, Workers, World, assign, process_to_thread}
use jepsen_in_cpp.Context.Ready.{IsReady, IsRunning}
use jepsen_in_cpp.Context.Staffed.{IsStaffed, DrawsInRange}
use jepsen_in_cpp.Generator.Types.{GeneratorPtr, Yield}
use jepsen_in_cpp.Generator.Update.{update}
use jepsen_in_cpp.Generator.Fits.{Fits}
use jepsen_in_cpp.Generator.Ready.{op-Serves}
use jepsen_in_cpp.Generator.Steady.{IsSteady, rank}
use jepsen_in_cpp.Generator.Totality.{op-Returns}
use jepsen_in_cpp.Generator.Lasting.{op-Lasts, update-Renews}
use jepsen_in_cpp.Runner.{Runner, Kind, stop, wait, go, kind_of, complete, dispatch, by_kind, ask}
use jepsen_in_cpp.Runner.Load.{lookup-assign_eq, times_in, times_in-In, IsHosted-thread}
use jepsen_in_cpp.Runner.Balance.{IsBalanced}
use jepsen_in_cpp.Runner.Steps.{Reach}
use jepsen_in_cpp.Runner.Invariant.{anyone, in_flight, IsSound, kind_of-go}
use jepsen_in_cpp.Runner.Start.{
  start_context, start_runner, assign_from, new_inboxes, times_in-start,
}
use jepsen_in_cpp.Runner.Safety.{run-IsSound}
use jepsen_in_cpp.Runner.Queues.{queues, put_op-In, HasProcess, assign-HasProcess}
use jepsen_in_cpp.Runner.Progress.{IsLive, Reach-IsLive}

module _ (w : World) where
  open w use {State}

  abbrev Returns : {A : Type 0} → M State A → Type 0
  Returns m = Total (λ a. Unit {0}) m

  updated-Returns :
      (g : GeneratorPtr State) (ctx : Context) (event : Operation)
      → IsSteady false g
      → Returns (or_fault (update g ctx event))
  updated-Returns g ctx event h =
      let (u, e, _, _) = update-Renews g ctx event h in Total-or_fault _ u e tt

  complete-Returns :
      (r : Runner State) (o : Operation) → IsSteady false r.generator → Returns (complete w r o)
  unfolding complete
  complete-Returns r o steady =
      Total-bind {P = λ t. Unit {0}} _ _ (Total-lift _ (λ s. tt))
        λ time _. Total-bind _ _ (updated-Returns r.generator _ _ steady) λ g _. Total-pure _ tt

  module _ (n : ℕ) (threads : Threads) where
    -- The thread of an operation that is handed out is one of the run.
    free-times_in :
        (ctx : Context) (t : ℤ) {flying : List Operation}
        → IsBalanced n threads ctx flying
        → In t ctx.free_threads
        → 0 < times_in t threads
    free-times_in ctx t balanced m =
        omega (arith, times_in-In t ctx.free_threads m, balanced.conserved t)

    dispatch-Returns :
        (r : Runner State) (o : Operation) (gen : GeneratorPtr State)
        → IsBalanced n threads r.ctx (in_flight r)
        → ((t : ℤ) → 0 < times_in t threads → In t (queues r.inboxes))
        → IsReady r.ctx o.process
        → IsSteady false gen
        → Returns (dispatch w r o gen)
    unfolding dispatch process_to_thread
    dispatch-Returns r o gen balanced queued ready steady =
        let same =
          IsHosted-thread n r.ctx.workers ready.thread o.process balanced.assigned.owned
            ready.runs in
        let found = queued ready.thread (free-times_in r.ctx ready.thread balanced ready.is_free) in
        let (ib, e) = put_op-In _ o r.inboxes (rw same found) in
        Total-bind {P = λ ib. Unit {0}} _ _ (Total-or_fault _ ib e tt)
          λ ib _. Total-bind _ _ (updated-Returns gen _ o steady) λ g _. Total-pure _ tt

    by_kind-Returns :
        (k : Kind) (time : ℤ) (r : Runner State) (y : Yield State)
        → IsBalanced n threads r.ctx (in_flight r)
        → ((t : ℤ) → 0 < times_in t threads → In t (queues r.inboxes))
        → (k ≡ go → IsReady r.ctx (y.op).process)
        → IsSteady false y.gen
        → Returns (by_kind w k time r y)
    unfolding by_kind
    by_kind-Returns stop time r y balanced queued ready steady =
        Total-if (ltb_ℤ (pos 0) r.outstanding) _ _ (λ _. Total-pure _ tt) (λ _. Total-pure _ tt)
    by_kind-Returns wait time r y balanced queued ready steady = Total-pure _ tt
    by_kind-Returns go time r y balanced queued ready steady =
        Total-if (ltb_ℤ time (y.op).time) _ _ (λ _. Total-pure _ tt)
          (λ _. dispatch-Returns r y.op y.gen balanced queued (ready refl) steady)

    ask-Returns :
        (fuel : ℕ) (r : Runner State)
        → DrawsInRange w
        → rank r.generator ≤ fuel
        → IsSound n threads r
        → IsLive threads r
        → Returns (ask w fuel r)
    unfolding ask
    ask-Returns fuel r fair le sound live =
        Total-bind {P = λ t. Unit {0}} _ _ (Total-lift _ (λ s. tt)) λ time _.
          Total-bind _ _
            (Total-ensured _ (op-Returns w fair false fuel r.generator _ le live.steady staffed) (
              Ensures-both _ (op-Serves w n fuel anyone r.generator _ idle sound.fits)
                (op-Lasts w fuel r.generator _ live.steady)))
            λ y h.
              let good = h.1.0 in
              by_kind-Returns (kind_of (y.op).type) time (record r { ctx = _; generator = y.self })
                y (moved time) live.queued
                (λ e. let (a, b) = kind_of-go (y.op).type e in good.served a b) h.1.1.0
      where
        moved : (time : ℤ) → IsBalanced n threads (record (r.ctx) { time = time }) (in_flight r)
        moved time = record {
          assigned = sound.balanced.assigned;
          hosted = sound.balanced.hosted;
          conserved = sound.balanced.conserved;
        }

        staffed : {time : ℤ} → IsStaffed (record (r.ctx) { time = time })
        staffed = record {
          staffed = λ t m. live.staffed t (free-times_in r.ctx t sound.balanced m);
        }

        idle : {time : ℤ} → IsRunning n anyone (record (r.ctx) { time = time })
        idle = record { owned = sound.balanced.assigned.owned; allowed = λ t m. refl }

new_inboxes-nemesis : (left i : ℕ) → In nemesis_process (queues (new_inboxes left i))
unfolding new_inboxes
new_inboxes-nemesis zero i = inl refl
new_inboxes-nemesis (suc left) i = inr (new_inboxes-nemesis left (i + 1))

new_inboxes-client : (left i k : ℕ) → k < left → In (pos (i + k)) (queues (new_inboxes left i))
unfolding new_inboxes
new_inboxes-client zero i k lt = absurd (omega arith)
new_inboxes-client (suc left) i zero lt = inl (ap (λ j. pos j) (omega arith))
new_inboxes-client (suc left) i (suc k) lt = inr (
    subst (λ j. In (pos j) (queues (new_inboxes left (i + 1)))) (omega arith)
      (new_inboxes-client left (i + 1) k (omega arith)))

-- The threads of a run: the nemesis and a client for each number below the concurrency.
start_threads :
    (now : ℤ) (n : ℕ) (t : ℤ)
    → 0 < times_in t (start_context now n).free_threads
    → (t ≡ nemesis_process) ⊎ ((k : ℕ) × (k < n) × (t ≡ pos (0 + k)))
start_threads now n (pos k) m =
    inr (k, (ground (arith, rw (times_in-start now n (pos k)) at m)), ap (λ j. pos j) (omega arith))
start_threads now n (negsuc k) m = inl (
    ground (arith, eqb_ℤ_iff (negsuc k) nemesis_process, rw (times_in-start now n (negsuc k)) at m))

assign_from-HasProcess :
    (left i : ℕ) (w : Workers) (t : ℤ) → HasProcess w t → HasProcess (assign_from left i w) t
unfolding assign_from
assign_from-HasProcess zero i w t h = h
assign_from-HasProcess (suc left) i w t h =
    assign_from-HasProcess left (i + 1) _ t (assign-HasProcess w (pos i) (pos i) t h)

assign_from-new :
    (left i k : ℕ) (w : Workers) → k < left → HasProcess (assign_from left i w) (pos (i + k))
unfolding assign_from
assign_from-new zero i k w lt = absurd (omega arith)
assign_from-new (suc left) i zero w lt =
    subst (λ j. HasProcess (assign_from left (i + 1) (assign (pos i) (pos i) w)) (pos j))
      (omega arith)
      (assign_from-HasProcess left (i + 1) _ (pos i) (pos i, lookup-assign_eq w (pos i) (pos i)))
assign_from-new (suc left) i (suc k) w lt =
    subst (λ j. HasProcess (assign_from left (i + 1) (assign (pos i) (pos i) w)) (pos j))
      (omega arith) (assign_from-new left (i + 1) k _ (omega arith))

start_runner-IsLive :
    {S : Type 0} (now : ℤ) (n : ℕ) (g : GeneratorPtr S)
    → IsSteady false g
    → IsLive (start_context now n).free_threads (start_runner now n g)
unfolding start_runner start_context
start_runner-IsLive now n g steady = record {
  queued = λ t m. elim (start_threads now n t m) [
    | inl e ↦ rw e (new_inboxes-nemesis n 0)
    | inr (k, lt, e) ↦ rw e (new_inboxes-client n 0 k lt)
  ];
  staffed = λ t m. elim (start_threads now n t m) [
    | inl e ↦
        rw e
          (nemesis_process, lookup-assign_eq (assign_from n 0 []) nemesis_process nemesis_process)
    | inr (k, lt, e) ↦
        rw e
          (assign-HasProcess (assign_from n 0 []) _ _ (pos (0 + k)) (assign_from-new n 0 k [] lt))
  ];
  steady = steady;
}

-- In a run with at least one client, of a generator that leaves its operations to the runner to
-- assign or keeps them to the nemesis, the loop can always go on: from wherever the run has come to,
-- a turn of the loop in which no operation has come back returns, with fuel for the depth of the
-- generator, and one in which any operation has come back returns as well. Premises: the random draws
-- stay in their bounds; the generator has no mix, no stagger with an interval of 0, no function that
-- yields `nil`, and under `Any` no empty list and nothing that is or is copied to the null pointer.
pub run-goes_on :
    (w : World) (fuel more n : ℕ) (now : ℤ) (g : GeneratorPtr w.State) (r : Runner w.State)
    (o : Operation) (s : w.State)
    → 0 < n
    → Fits anyone g
    → DrawsInRange w
    → IsSteady false g
    → Reach w fuel (start_runner now n g) r
    → rank r.generator ≤ more
    → ((r' : Runner w.State) × (s' : w.State) × (ask w more r s ≡ done (r', s')))
      × ((r' : Runner w.State) × (s' : w.State) × (complete w r o s ≡ done (r', s')))
run-goes_on w fuel more n now g r o s some_client fits fair steady reached le =
    let sound = run-IsSound w fuel n now g some_client fits r reached in
    let live =
      Reach-IsLive w (start_context now n).free_threads fuel _ r
        (start_runner-IsLive now n g steady) reached in
    let (q, t, e, _) =
      (ask-Returns w n (start_context now n).free_threads more r fair le sound live).run s in
    let (q', t', e', _) = (complete-Returns w r o live.steady).run s in ((q, t, e), (q', t', e'))
