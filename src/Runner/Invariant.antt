-- ===== src/Runner/Invariant.antt =====
-- What stays true while the loop of `runCases` and the workers run, in every interleaving of them.
use jepsen_in_cpp.Prelude.{
  ℕ, ◌+◌, ◌≤◌, ◌<◌, Bool, true, false, some, ◌≡◌, refl, sym, ◌∙◌, ap, List, ◌∷◌, ◌++◌, [], length,
  arith, subst, or_fault, done,
}
use jepsen_in_cpp.Prelude.Int.{ℤ, pos, ◌+ℤ◌, ltb_ℤ}
use jepsen_in_cpp.Prelude.Options.{OnSome-apply}
use jepsen_in_cpp.Prelude.Ensures.{
  Ensures, Ensures-pure, Ensures-or_fault, Ensures-lift, Ensures-if, Ensures-bind,
}
use jepsen_in_cpp.Operation.{Operation, OpType, is_nil, is_pending}
use jepsen_in_cpp.Context.{Context, Threads, World, process_to_thread, thread_of}
use jepsen_in_cpp.Context.Ready.{IsReady, IsRunning}
use jepsen_in_cpp.Generator.Types.{GeneratorPtr, Yield}
use jepsen_in_cpp.Generator.Update.{update}
use jepsen_in_cpp.Generator.Fits.{Fits, update-Fits}
use jepsen_in_cpp.Generator.Ready.{op-Serves}
use jepsen_in_cpp.Runner.{
  Runner, Inboxes, Kind, stop, wait, go, kind_of, put_op, complete, dispatch, by_kind, ask,
}
use jepsen_in_cpp.Runner.Steps.{Step, completes, asks, works, Takes, Reach, start, next}
use jepsen_in_cpp.Runner.Load.{
  times_in, load, jobs, OneMore, OneMore-beside, OneMore-under, OneMore-length, OneMore-All,
  put_op-OneMore, Takes-OneMore, OneMore-last, IsHosted,
}
use jepsen_in_cpp.Runner.Balance.{
  IsBalanced, busy, IsBalanced-insert, IsBalanced-erase, IsBalanced-after_crash, IsBalanced-swap,
}

-- The operations that were handed out and whose completions were not taken yet.
abbrev pub in_flight : {S : Type 0} → Runner S → List Operation
in_flight r = jobs r.inboxes ++ r.completions

abbrev pub anyone : ℤ → Bool
anyone t = true

pub record IsSound {S : Type 0} (n : ℕ) (threads : Threads) (r : Runner S) : Type 0 where
  pub balanced : IsBalanced n threads r.ctx (in_flight r)
  pub counted : r.outstanding ≡ pos (length (in_flight r))
  pub fits : Fits anyone r.generator

pub kind_of-go : (t : OpType) → kind_of t ≡ go → (is_nil t ≡ false) × (is_pending t ≡ false)
kind_of-go t e = grind arith

module _ (w : World) (n : ℕ) (threads : Threads) (some_client : 0 < n)
    (once : (t : ℤ) → times_in t threads ≤ 1) where
  open w use {State, now}

  updated :
      (g : GeneratorPtr State) (ctx : Context) (event : Operation)
      → Fits anyone g
      → Ensures {S = State} (Fits anyone) (or_fault (update g ctx event))
  updated g ctx event h =
      Ensures-or_fault _ λ u e. OnSome-apply (Fits anyone) _ u (update-Fits anyone g ctx event h) e

  complete-IsSound :
      (r : Runner State) (o : Operation) (more : List Operation)
      → OneMore o (in_flight r) more
      → IsBalanced n threads r.ctx more
      → r.outstanding ≡ pos (length more)
      → Fits anyone r.generator
      → Ensures (IsSound n threads) (complete w r o)
  unfolding complete process_to_thread ◌+ℤ◌
  complete-IsSound r o more one b counted fits =
      Ensures-bind {P = λ t. Unit {0}} _ _ (Ensures-lift _ (λ s. tt)) λ time _.
        Ensures-bind _ _ (updated r.generator _ _ fits) λ g h. Ensures-pure _ (record {
          balanced =
              IsBalanced-after_crash n threads once _ (record o { time = time }) some_client
                (IsBalanced-insert n threads once r.ctx time b one)
                ((OneMore-All (IsHosted r.ctx.workers) one).0 b.hosted).0
                (busy n threads once r.ctx b one).1;
          counted = rw (counted, OneMore-length one) (ground arith);
          fits = h;
        })

  dispatch-IsSound :
      (r : Runner State) (o : Operation) (gen : GeneratorPtr State)
      → IsSound n threads r
      → IsReady r.ctx o.process
      → Fits anyone gen
      → Ensures (λ r'. IsSound n threads r' × (r'.flag ≡ r.flag)) (dispatch w r o gen)
  unfolding dispatch process_to_thread ◌+ℤ◌
  dispatch-IsSound r o gen sound ready fits =
      let thread = thread_of o.process r.ctx.workers in
      Ensures-bind {P = λ ib. put_op thread o r.inboxes ≡ some ib} _ _
        (Ensures-or_fault _ (λ ib e. e))
        λ ib e.
          let one = OneMore-beside r.completions (put_op-OneMore thread o r.inboxes ib e) in
          Ensures-bind _ _ (updated gen _ o fits) λ g h. Ensures-pure _ (
            record {
              balanced = IsBalanced-erase n threads once r.ctx o.time sound.balanced ready one;
              counted = rw (sound.counted, OneMore-length one) (ground arith);
              fits = h;
            },
            refl,
          )

  -- What a turn of the loop that takes no completion leaves behind: the loop goes on as before, or
  -- it ended, nothing was on its way and the history is as before.
  abbrev Turns : Runner State → Runner State → Type 0
  Turns r r' =
      (r'.flag ≡ true → IsSound n threads r')
      × (r'.flag ≡ false → (in_flight r ≡ []) × (r'.history ≡ r.history))

  by_kind-Turns :
      (k : Kind) (time : ℤ) (r : Runner State) (y : Yield State)
      → r.flag ≡ true
      → IsSound n threads r
      → (k ≡ go → IsReady r.ctx (y.op).process)
      → Fits anyone y.gen
      → Ensures (Turns r) (by_kind w k time r y)
  unfolding by_kind
  by_kind-Turns stop time r y running sound ready fits =
      Ensures-if (ltb_ℤ (pos 0) r.outstanding) _ _
        (λ e. Ensures-pure _ (
          (λ f. record { balanced = sound.balanced; counted = sound.counted; fits = sound.fits }),
          (λ f. cc running),
        ))
        (λ e.
          Ensures-pure _ ((λ f. cc), (λ f. (emptied (in_flight r) (rw sound.counted at e), refl))))
    where
      emptied : (os : List Operation) → ltb_ℤ (pos 0) (pos (length os)) ≡ false → os ≡ []
      emptied os e = ground arith
  by_kind-Turns wait time r y running sound ready fits = Ensures-pure _ (
    (λ f. record { balanced = sound.balanced; counted = sound.counted; fits = sound.fits }),
    (λ f. cc running),
  )
  by_kind-Turns go time r y running sound ready fits =
      Ensures-if (ltb_ℤ time (y.op).time) _ _
        (λ e. Ensures-pure _ (
          (λ f. record { balanced = sound.balanced; counted = sound.counted; fits = sound.fits }),
          (λ f. cc running),
        ))
        (λ e. record {
          apply = λ s a s' k.
              let h = (dispatch-IsSound r y.op y.gen sound (ready refl) fits).apply s a s' k in
              ((λ f. h.0), (λ f. cc (h.1, running)));
        })

  ask-Turns :
      (fuel : ℕ) (r : Runner State)
      → r.flag ≡ true
      → IsSound n threads r
      → Ensures (Turns r) (ask w fuel r)
  unfolding ask
  ask-Turns fuel r running sound =
      Ensures-bind {P = λ t. Unit {0}} _ _ (Ensures-lift _ (λ s. tt)) λ time _.
        let ctx : Context = record (r.ctx) { time = time } in
        Ensures-bind _ _ (op-Serves w n fuel anyone r.generator ctx idle sound.fits) λ y good.
          by_kind-Turns (kind_of (y.op).type) time (record r { ctx = ctx; generator = y.self }) y
            running
            (record {
              balanced = record {
                assigned = sound.balanced.assigned;
                hosted = sound.balanced.hosted;
                conserved = sound.balanced.conserved;
              };
              counted = sound.counted;
              fits = good.self_Fits;
            })
            (λ e. let (a, b) = kind_of-go (y.op).type e in good.served a b) good.gen_Fits
    where
      idle : {time : ℤ} → IsRunning n anyone (record (r.ctx) { time = time })
      idle = record { owned = sound.balanced.assigned.owned; allowed = λ t m. refl }

  works-IsSound :
      (r : Runner State) (o o' : Operation) (inboxes : Inboxes)
      → IsSound n threads r
      → Takes r.inboxes o inboxes
      → o'.process ≡ o.process
      → IsSound n threads (record r { inboxes = inboxes; completions = r.completions ++ o' ∷ [] })
  works-IsSound r o o' inboxes sound taken same =
      let out = OneMore-beside r.completions (Takes-OneMore taken) in
      let back = OneMore-under (jobs inboxes) (OneMore-last o' r.completions) in
      record {
        balanced = IsBalanced-swap n threads once r.ctx same sound.balanced out back;
        counted = sound.counted ∙ ap (λ x. pos x) (OneMore-length out ∙ sym (OneMore-length back));
        fits = sound.fits;
      }

  -- One step keeps the run sound.
  step-IsSound :
      (fuel : ℕ) (r r' : Runner State)
      → IsSound n threads r
      → Step w fuel r r'
      → r'.flag ≡ true
      → IsSound n threads r'
  step-IsSound fuel r r' sound (completes before o after s s' f e k) running =
      let all : OneMore o (in_flight (record r { completions = before ++ after })) (in_flight r) =
        OneMore-under (jobs r.inboxes)
          (record { before = before; after = after; without = refl; with_it = e }) in
      (complete-IsSound (record r { completions = before ++ after }) o (in_flight r) all
          sound.balanced sound.counted sound.fits).apply
        s r' s' k
  step-IsSound fuel r r' sound (asks s s' f k) running =
      ((ask-Turns fuel r f sound).apply s r' s' k).0 running
  step-IsSound fuel r r' sound (works o o' inboxes t e k) running =
      subst (IsSound n threads) (sym k) (works-IsSound r o o' inboxes sound t e)

  -- However the loop and the workers take turns, the run stays sound.
  pub Reach-IsSound :
      (fuel : ℕ) (r r' : Runner State)
      → IsSound n threads r
      → Reach w fuel r r'
      → IsSound n threads r'
  Reach-IsSound fuel r r' sound start = sound
  Reach-IsSound fuel r r' sound (next {q} before step running) =
      step-IsSound fuel q r' (Reach-IsSound fuel r q sound before) step running

  -- The loop ends only once no operation is on its way: every one that was handed out came back, and
  -- the history is the one before.
  pub Reach-ends_empty :
      (fuel : ℕ) (r q r' : Runner State) (s s' : State)
      → IsSound n threads r
      → Reach w fuel r q
      → q.flag ≡ true
      → ask w fuel q s ≡ done (r', s')
      → r'.flag ≡ false
      → (in_flight q ≡ []) × (r'.history ≡ q.history)
  Reach-ends_empty fuel r q r' s s' sound before running k ended =
      ((ask-Turns fuel q running (Reach-IsSound fuel r q sound before)).apply s r' s' k).1 ended

  -- No thread has two operations on their way, and none has one while it is free.
  pub Reach-one_at_a_time :
      (fuel : ℕ) (r r' : Runner State) (t : ℤ)
      → IsSound n threads r
      → Reach w fuel r r'
      → times_in t r'.ctx.free_threads + load r'.ctx.workers t (in_flight r') ≤ 1
  Reach-one_at_a_time fuel r r' t sound before =
      omega (arith, (Reach-IsSound fuel r r' sound before).balanced.conserved t, once t)
