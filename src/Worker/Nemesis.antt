-- ===== src/Worker/Nemesis.antt =====
-- What the worker of the nemesis does with its operations.
use mathlib.Core.List.{append-nil, append_assoc}
use jepsen_in_cpp.Prelude.{
  Bool-cases, inl, inr, Bool, true, false, Option, some, List, [], ◌∷◌, ◌++◌, map, ◌≡◌, sym, ◌∙◌,
  ap,
}
use jepsen_in_cpp.Operation.{Operation, success}
use jepsen_in_cpp.Worker.{
  Progress, is_exit, run_async, nemesis_invoke, nemesis_close, run_nemesis, noop_nemesis,
}
use jepsen_in_cpp.Worker.Session.{before_exit, has_exit}

abbrev pub succeeded : Operation → Operation
succeeded o = record o { type = success }

abbrev after : {S : Type 0} → Bool → S → List Operation → Option (Progress (Unit {0}) S)
after ended s out = some (record { worker = tt; out = out; ended = ended; world = s })

run_async-succeeded :
    {S : Type 0} (ops out : List Operation) (s : S)
    → run_async (nemesis_invoke noop_nemesis) (nemesis_close noop_nemesis) tt ops out s
      ≡ some (record {
        worker = tt;
        out = out ++ map succeeded (before_exit ops);
        ended = has_exit ops;
        world = s;
      })
unfolding run_async nemesis_invoke nemesis_close
run_async-succeeded {S} [] out s = ap (after {S = S} false s) (sym (append-nil out))
run_async-succeeded {S} (o ∷ os) out s = elim (Bool-cases (is_exit o.type)) [
  | inl e ↦ rw e (ap (after {S = S} true s) (sym (append-nil out)))
  | inr e ↦ rw e (
      run_async-succeeded os (out ++ succeeded o ∷ []) s
      ∙ ap (after {S = S} (has_exit os) s)
          (append_assoc out (succeeded o ∷ []) (map succeeded (before_exit os))))
]

-- The worker of the nemesis that does nothing calls every operation that it takes before the first
-- exit a success, in order, and changes nothing else in it; it ends exactly if there is an exit.
pub run_nemesis-succeeded :
    {S : Type 0} (ops : List Operation) (s : S)
    → run_nemesis noop_nemesis tt ops s
      ≡ some (record {
        worker = tt;
        out = map succeeded (before_exit ops);
        ended = has_exit ops;
        world = s;
      })
unfolding run_nemesis
run_nemesis-succeeded ops s = run_async-succeeded ops [] s
