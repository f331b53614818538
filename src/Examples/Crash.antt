-- ===== src/Examples/Crash.antt =====
-- Concrete inputs: a run in which the operation of a client comes back without a result.
use jepsen_in_cpp.Prelude.{
  ℕ, [], ◌∷◌, ◌>>=◌, pure, or_fault, lift, ◌≡◌, ◌≢◌, refl, false, map, All, arith, inl, some, none,
  Option,
}
use jepsen_in_cpp.Prelude.Int.{ℤ, pos, negsuc, ◌+ℤ◌}
use jepsen_in_cpp.Operation.{Operation, info}
use jepsen_in_cpp.Context.{World, lookup}
use jepsen_in_cpp.Generator.Copy.{copy_list}
use jepsen_in_cpp.Generator.Update.{update}
use jepsen_in_cpp.Runner.{Runner, Inboxes, ask, complete}
use jepsen_in_cpp.Runner.Steps.{Reach, start, next, asks, works, here}
use jepsen_in_cpp.Worker.{invoke, Progress, ClientWorker, run_client, new_worker, noop_client}
use jepsen_in_cpp.Runner.Load.{jobs}
use jepsen_in_cpp.Worker.Session.{IsWaiting, hired, went_on}
use jepsen_in_cpp.Runner.Working.{worked, run_client-Reach}
use jepsen_in_cpp.Runner.Turns.{entry_op, entries, turns, is_among}
use jepsen_in_cpp.Runner.Safety.{run-alternates}
use jepsen_in_cpp.Runner.Start.{start_runner}
use jepsen_in_cpp.Runner.Invariant.{in_flight}
use jepsen_in_cpp.Runner.Retired.{run-crash_retires}
use jepsen_in_cpp.Examples.{counting, result, read, one_read}

-- The world draws the second of what it is offered, the thread of the first client.
abbrev second_drawn : World
second_drawn = record counting { uniform = λ n s. (1, s) }

abbrev fresh_run : Runner ℕ
fresh_run = start_runner (pos 7) 2 one_read

abbrev handed_out : Runner ℕ
unfolding ask start_runner ◌>>=◌ lift or_fault pure copy_list update
handed_out = result fresh_run (ask second_drawn 9 fresh_run)

abbrev crash : Operation
crash = record read { type = info; process = pos 0 }

abbrev answered : Runner ℕ
unfolding handed_out
answered = record handed_out {
  inboxes = (pos 0, []) ∷ (pos 1, []) ∷ (negsuc 0, []) ∷ [];
  completions = crash ∷ [];
}

answered-Reach : Reach second_drawn 9 fresh_run answered
unfolding ask start_runner ◌>>=◌ lift or_fault pure copy_list update handed_out answered
answered-Reach = next (next start (asks 0 0 refl refl) refl) (works _ crash _ here refl refl) refl

abbrev taken_back : Runner ℕ
unfolding complete update ◌>>=◌ lift or_fault pure answered
taken_back = result answered (complete second_drawn (record answered { completions = [] }) crash)

taken_back-workers :
    taken_back.ctx.workers ≡ (pos 0, pos 2) ∷ (pos 1, pos 1) ∷ (negsuc 0, negsuc 0) ∷ []
unfolding complete update ◌>>=◌ lift or_fault pure answered handed_out taken_back ask start_runner
    copy_list ◌+ℤ◌
taken_back-workers = refl

run-crash_retires_example :
    All (λ (j : Operation). j.process ≢ pos 0) (in_flight taken_back)
    × ((t : ℤ) → lookup t taken_back.ctx.workers ≢ some (pos 0))
unfolding complete update ◌>>=◌ lift or_fault pure answered handed_out taken_back ask start_runner
    copy_list ◌+ℤ◌
run-crash_retires_example =
    run-crash_retires second_drawn 9 2 (pos 7) one_read (omega arith) (inl refl, tt) answered
      taken_back taken_back [] crash [] 0 0 answered-Reach refl refl refl (λ e. cc e) refl start

run-alternates_example :
    (map entry_op (entries answered-Reach) ≡ answered.history)
    × (turns (pos 0) false (entries answered-Reach) ≡ some (is_among (pos 0) (in_flight answered)))
run-alternates_example =
    run-alternates second_drawn 9 2 (pos 7) one_read (omega arith) (inl refl, tt) (pos 0) answered
      answered-Reach

-- The queues of the other workers.
abbrev waiting : Inboxes
waiting = (pos 1, []) ∷ (negsuc 0, []) ∷ []

abbrev the_progress :
    Option (Progress (ClientWorker (Unit {0})) ℕ) → Progress (ClientWorker (Unit {0})) ℕ
the_progress none = record { worker = new_worker "n1"; out = []; ended = false; world = 0 }
the_progress (some p) = p

-- A worker that has answered an operation, and holds a client.
abbrev second_time : Progress (ClientWorker (Unit {0})) ℕ
unfolding run_client new_worker
second_time =
    the_progress (run_client noop_client (new_worker "n1") (record read { process = pos 0 } ∷ []) 0)

run_client-Reach_example :
    (p : Progress (ClientWorker (Unit {0})) ℕ) × (run_client noop_client second_time.worker
        (in_flight handed_out)
        0
      ≡ some p)
    × IsWaiting {S = ℕ} noop_client (λ o c s. refl) p.worker
    × Reach second_drawn 9 handed_out (worked second_drawn 9 [] waiting (pos 0) handed_out p.out)
unfolding ask start_runner ◌>>=◌ lift or_fault pure copy_list update handed_out jobs run_client
    new_worker second_time invoke
run_client-Reach_example =
    run_client-Reach noop_client second_drawn 9 second_time.worker (in_flight handed_out) 0 []
      waiting (pos 0) handed_out (λ o c s. refl)
      (went_on (record read { process = pos 0 } ∷ []) 0 second_time (hired "n1") refl refl) refl
      refl refl
