-- ===== src/Runner/Working.antt =====
-- The thread of a client worker among the steps of a run: what `Worker::runAsync` does with the
-- operations in its queue is what the steps of the workers say.
use mathlib.Core.List.{append-nil, append_assoc}
use jepsen_in_cpp.Prelude.{
  arith, ℕ, true, false, some, ◌≡◌, refl, sym, ◌∙◌, subst, List, [], ◌∷◌, ◌++◌,
}
use jepsen_in_cpp.Prelude.Int.{ℤ}
use jepsen_in_cpp.Operation.{Operation}
use jepsen_in_cpp.Context.{World}
use jepsen_in_cpp.Worker.{Client, ClientWorker, Progress, run_client}
use jepsen_in_cpp.Worker.Session.{
  before_exit, has_exit, processes, IsWaiting, went_on, IsWaiting-answers,
}
use jepsen_in_cpp.Runner.{Runner, Inboxes}
use jepsen_in_cpp.Runner.Steps.{Reach-trans, works, Takes, here, later, Reach, start, next}

Takes-at :
    (front back : Inboxes) (t : ℤ) (o : Operation) (os : List Operation)
    → Takes (front ++ (t, o ∷ os) ∷ back) o (front ++ (t, os) ∷ back)
Takes-at [] back t o os = here
Takes-at (x ∷ front) back t o os = later (Takes-at front back t o os)

-- Without an exit all operations are answered.
before_exit-all : (os : List Operation) → has_exit os ≡ false → before_exit os ≡ os
before_exit-all [] h = refl
before_exit-all (o ∷ os) h = ground (arith, before_exit-all os, h)

module _ (w : World) (fuel : ℕ) where
  open w use {State}

  module _ (front back : Inboxes) (t : ℤ) where
    -- The runner after the worker of the thread took all operations of its queue, and answered by `outs`.
    abbrev pub worked : Runner State → List Operation → Runner State
    worked r outs = record r {
      inboxes = front ++ (t, []) ∷ back;
      completions = r.completions ++ outs;
    }

    answers-Reach :
        (ops outs : List Operation) (r : Runner State)
        → processes outs ≡ processes ops
        → r.flag ≡ true
        → r.inboxes ≡ front ++ (t, ops) ∷ back
        → Reach w fuel r (worked r outs)
    answers-Reach [] [] r same running queue =
        subst (λ ib. Reach w fuel r (record r { inboxes = ib; completions = r.completions ++ [] }))
          queue
          (subst (λ cs. Reach w fuel r (record r { completions = cs }))
            (sym (append-nil r.completions)) start)
    answers-Reach [] (x ∷ outs) r same running queue = cc
    answers-Reach (o ∷ ops) [] r same running queue = cc
    answers-Reach (o ∷ ops) (x ∷ outs) r same running queue =
        let taken : Runner State = record r {
          inboxes = front ++ (t, ops) ∷ back;
          completions = r.completions ++ x ∷ [];
        } in
        let later = answers-Reach ops outs taken (cc same) running refl in
        Reach-trans
          (next start
            (works o x (front ++ (t, ops) ∷ back)
              (subst (λ ib. Takes ib o (front ++ (t, ops) ∷ back)) (sym queue)
                (Takes-at front back t o ops))
              (cc same) refl)
            running)
          (subst
            (λ cs.
              Reach w fuel taken (record r { inboxes = front ++ (t, []) ∷ back; completions = cs }))
            (append_assoc r.completions (x ∷ []) outs) later)

-- The thread of a client worker is one of the workers of the steps. With a client that keeps the process
-- of each operation, for a worker that is new or that has taken operations before, none of them an
-- exit, so that it may hold a client: from a running loop in which the worker has the operations `ops`
-- in its queue, none of them an exit, the worker takes them all, puts its answers into the queue of
-- completions and waits for more, and what it does to the two queues is a run of the steps.
pub run_client-Reach :
    {C S : Type 0} (api : Client C S) (w : World) (fuel : ℕ) (wk : ClientWorker C)
    (ops : List Operation) (s : S) (front back : Inboxes) (t : ℤ) (r : Runner w.State)
    (kept : (o : Operation) (c : C) (s : S) → (api.invoke_it o c s).0.process ≡ o.process)
    → IsWaiting api kept wk
    → has_exit ops ≡ false
    → r.flag ≡ true
    → r.inboxes ≡ front ++ (t, ops) ∷ back
    → (p : Progress (ClientWorker C) S) × (run_client api wk ops s ≡ some p)
      × IsWaiting api kept p.worker
      × Reach w fuel r (worked w fuel front back t r p.out)
run_client-Reach api w fuel wk ops s front back t r kept waiting open_ended running queue =
    let (p, ran, h) = IsWaiting-answers api kept wk ops s waiting in
    (
      p,
      ran,
      went_on ops s p waiting ran (h.exited ∙ open_ended),
      answers-Reach w fuel front back t ops p.out r
          (rw (before_exit-all ops open_ended) at h.answered) running queue,
    )
