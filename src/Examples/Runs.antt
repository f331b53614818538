-- ===== src/Examples/Runs.antt =====
-- Concrete inputs: a run in which a single operation is handed out, answered and taken back.
use jepsen_in_cpp.Prelude.{
  ℕ, ◌+◌, ◌≤◌, ◌>>=◌, pure, or_fault, lift, ◌≡◌, refl, inl, map, some, false, [], ◌∷◌, done, arith,
  length,
}
use jepsen_in_cpp.Prelude.Int.{pos, negsuc, ◌+ℤ◌}
use jepsen_in_cpp.Operation.{success, info}
use jepsen_in_cpp.Generator.Copy.{copy_list}
use jepsen_in_cpp.Generator.Update.{update}
use jepsen_in_cpp.Runner.{Runner, ask, complete}
use jepsen_in_cpp.Runner.Turns.{entry_op, entries, turns}
use jepsen_in_cpp.Runner.Load.{times_in, load}
use jepsen_in_cpp.Runner.Steps.{Reach, start, next, asks, works, completes, here, later}
use jepsen_in_cpp.Runner.Start.{start_runner}
use jepsen_in_cpp.Runner.Invariant.{in_flight}
use jepsen_in_cpp.Runner.Conservation.{run-conserves_threads}
use jepsen_in_cpp.Runner.Liveness.{run-goes_on}
use jepsen_in_cpp.Runner.Safety.{
  run-one_at_a_time, run-outstanding, run-ends_empty, run-completes_history,
}
use jepsen_in_cpp.Examples.{counting, result, read, one_read}

abbrev fresh_run : Runner ℕ
fresh_run = start_runner (pos 7) 2 one_read

abbrev handed_out : Runner ℕ
unfolding ask start_runner ◌>>=◌ lift or_fault pure copy_list update
handed_out = result fresh_run (ask counting 9 fresh_run)

handed_out-Reach : Reach counting 9 fresh_run handed_out
unfolding ask start_runner ◌>>=◌ lift or_fault pure copy_list update
handed_out-Reach = next start (asks 0 0 refl refl) refl

run-one_at_a_time_example :
    times_in (negsuc 0) handed_out.ctx.free_threads
      + load handed_out.ctx.workers (negsuc 0) (in_flight handed_out)
    ≤ 1
run-one_at_a_time_example =
    run-one_at_a_time counting 9 2 (pos 7) one_read (omega arith) (inl refl, tt) handed_out
      (negsuc 0) handed_out-Reach

run-outstanding_example : handed_out.outstanding ≡ pos (length (in_flight handed_out))
run-outstanding_example =
    run-outstanding counting 9 2 (pos 7) one_read (omega arith) (inl refl, tt) handed_out
      handed_out-Reach

run-conserves_threads_example :
    length handed_out.ctx.free_threads + length (in_flight handed_out) ≡ 2 + 1
run-conserves_threads_example =
    run-conserves_threads counting 9 2 (pos 7) one_read handed_out (omega arith) (inl refl, tt)
      handed_out-Reach

run-goes_on_example :
    ((r : Runner ℕ) × (s : ℕ) × (ask counting 5 handed_out 0 ≡ done (r, s)))
    × ((r : Runner ℕ) × (s : ℕ) × (complete counting handed_out
            (record read { type = info; process = negsuc 0 })
            0
          ≡ done (r, s)))
unfolding ask update ◌>>=◌ lift or_fault pure handed_out start_runner copy_list
run-goes_on_example =
    run-goes_on counting 9 5 2 (pos 7) one_read handed_out
      (record read { type = info; process = negsuc 0 }) 0 (omega arith) (inl refl, tt) (λ n s h. h)
      (tt, tt) handed_out-Reach (omega arith)

abbrev answered : Runner ℕ
unfolding handed_out
answered = record handed_out {
  inboxes = (pos 0, []) ∷ (pos 1, []) ∷ (negsuc 0, []) ∷ [];
  completions = record read { type = success; process = negsuc 0 } ∷ [];
}

abbrev taken_back : Runner ℕ
unfolding complete update ◌>>=◌ lift or_fault pure answered
taken_back = result answered (
    complete counting (record answered { completions = [] })
      (record read { type = success; process = negsuc 0 }))

abbrev ended : Runner ℕ
unfolding ask update ◌>>=◌ lift or_fault pure taken_back
ended = result taken_back (ask counting 9 taken_back)

taken_back-Reach : Reach counting 9 fresh_run taken_back
unfolding complete update ◌>>=◌ lift or_fault pure answered handed_out taken_back
taken_back-Reach =
    next
      (next handed_out-Reach
        (works _ (record read { type = success; process = negsuc 0 }) _ (later (later here)) refl
          refl)
        refl)
      (completes [] (record read { type = success; process = negsuc 0 }) [] 0 0 refl refl refl) refl

run-completes_history_example :
    (map entry_op (entries taken_back-Reach) ≡ ended.history)
    × (turns (pos 0) false (entries taken_back-Reach) ≡ some false)
unfolding ask update ◌>>=◌ lift or_fault pure taken_back ended ◌+ℤ◌
run-completes_history_example =
    run-completes_history counting 9 2 (pos 7) one_read (omega arith) (inl refl, tt) (pos 0)
      taken_back ended 0 0 taken_back-Reach refl refl refl

run-ends_empty_example : in_flight taken_back ≡ []
unfolding ask update ◌>>=◌ lift or_fault pure taken_back ended ◌+ℤ◌
run-ends_empty_example =
    run-ends_empty counting 9 2 (pos 7) one_read (omega arith) (inl refl, tt) taken_back ended 0 0
      taken_back-Reach refl refl refl
