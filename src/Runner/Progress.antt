-- ===== src/Runner/Progress.antt =====
-- What the loop of `runCases` needs to go on: a queue and a process for each thread, and a generator
-- whose calls return. Its own turns and the workers keep all three.
use jepsen_in_cpp.Prelude.{
  ℕ, ◌<◌, true, false, Option, some, ◌≡◌, sym, ◌∙◌, subst, ◌++◌, In, or_fault,
}
use jepsen_in_cpp.Prelude.Int.{ℤ, pos, ltb_ℤ}
use jepsen_in_cpp.Prelude.Ensures.{
  Ensures, Ensures-pure, Ensures-or_fault, Ensures-if, Ensures-bind, Ensures-both, Ensures-anything,
}
use jepsen_in_cpp.Prelude.Options.{OnSome-apply}
use jepsen_in_cpp.Operation.{Operation}
use jepsen_in_cpp.Context.{Context, Threads, World, insert, process_to_thread}
use jepsen_in_cpp.Generator.Types.{GeneratorPtr, Yield}
use jepsen_in_cpp.Generator.Update.{update}
use jepsen_in_cpp.Generator.Frame.{op-Keeps}
use jepsen_in_cpp.Generator.Steady.{IsSteady, Like-IsSteady}
use jepsen_in_cpp.Generator.Lasting.{op-Lasts, update-Renews}
use jepsen_in_cpp.Runner.{Runner, Kind, stop, wait, go, kind_of, complete, dispatch, by_kind, ask}
use jepsen_in_cpp.Runner.Load.{times_in}
use jepsen_in_cpp.Runner.Steps.{Step, completes, asks, works, Reach, start, next}
use jepsen_in_cpp.Runner.Queues.{
  queues, put_op-queues, Takes-queues, HasProcess, after_crash-HasProcess,
}

-- A thread of the run has a queue and a process, and the generator is steady.
pub record IsLive {S : Type 0} (threads : Threads) (r : Runner S) : Type 0 where
  pub queued : (t : ℤ) → 0 < times_in t threads → In t (queues r.inboxes)
  pub staffed : (t : ℤ) → 0 < times_in t threads → HasProcess r.ctx.workers t
  pub steady : IsSteady false r.generator

module _ (w : World) (threads : Threads) where
  open w use {State}

  updated :
      (g : GeneratorPtr State) (ctx : Context) (event : Operation)
      → IsSteady false g
      → Ensures {S = State} (IsSteady false) (or_fault (update g ctx event))
  updated g ctx event h =
      let (u, e, k, _) = update-Renews g ctx event h in
      Ensures-or_fault _ (λ v e'. subst (IsSteady false) (some-injective (sym e ∙ e')) k)
    where
      some-injective :
          {a b : GeneratorPtr State}
          → ◌≡◌ {A = Option (GeneratorPtr State)} (some a) (some b)
          → a ≡ b
      some-injective e = cc

  complete-IsLive :
      (r : Runner State) (o : Operation)
      → IsLive threads r
      → Ensures (IsLive threads) (complete w r o)
  unfolding complete
  complete-IsLive r o live = Ensures-bind _ _ (Ensures-anything _) λ time _.
      Ensures-bind _ _ (updated r.generator _ _ live.steady) λ g k. Ensures-pure _ (record {
        queued = live.queued;
        staffed = λ t m.
            after_crash-HasProcess (ctx time) thread t (record o { time = time })
              (live.staffed t m);
        steady = k;
      })
    where
      thread : ℤ
      thread = process_to_thread r.ctx o.process

      ctx : ℤ → Context
      ctx time = record (r.ctx) { time = time; free_threads = insert thread (r.ctx).free_threads }

  dispatch-IsLive :
      (r : Runner State) (o : Operation) (gen : GeneratorPtr State)
      → IsLive threads r
      → IsSteady false gen
      → Ensures (IsLive threads) (dispatch w r o gen)
  unfolding dispatch
  dispatch-IsLive r o gen live steady =
      Ensures-bind {P = λ ib. queues ib ≡ queues r.inboxes} _ _
        (Ensures-or_fault _ (λ ib e. OnSome-apply _ _ ib (put_op-queues _ o r.inboxes) e))
        λ ib e. Ensures-bind _ _ (updated gen _ o steady) λ g k. Ensures-pure _ (record {
          queued = λ t m. subst (In t) (sym e) (live.queued t m);
          staffed = live.staffed;
          steady = k;
        })

  by_kind-IsLive :
      (k : Kind) (time : ℤ) (r : Runner State) (y : Yield State)
      → IsLive threads r
      → IsSteady false y.gen
      → Ensures (λ r'. r'.flag ≡ true → IsLive threads r') (by_kind w k time r y)
  unfolding by_kind
  by_kind-IsLive stop time r y live steady =
      Ensures-if (ltb_ℤ (pos 0) r.outstanding) _ _
        (λ _.
          Ensures-pure _
            (λ _. record { queued = live.queued; staffed = live.staffed; steady = live.steady }))
        (λ _. Ensures-pure _ (λ f. cc))
  by_kind-IsLive wait time r y live steady =
      Ensures-pure _
        (λ _. record { queued = live.queued; staffed = live.staffed; steady = live.steady })
  by_kind-IsLive go time r y live steady =
      Ensures-if (ltb_ℤ time (y.op).time) _ _
        (λ _.
          Ensures-pure _
            (λ _. record { queued = live.queued; staffed = live.staffed; steady = live.steady }))
        (λ _. record {
          apply = λ s a s' k _. (dispatch-IsLive r y.op y.gen live steady).apply s a s' k;
        })

  ask-IsLive :
      (fuel : ℕ) (r : Runner State)
      → IsLive threads r
      → Ensures (λ r'. r'.flag ≡ true → IsLive threads r') (ask w fuel r)
  unfolding ask
  ask-IsLive fuel r live = Ensures-bind _ _ (Ensures-anything _) λ time _.
      let ctx : Context = record (r.ctx) { time = time } in
      Ensures-bind _ _
        (Ensures-both _ (op-Keeps w fuel r.generator ctx)
          (op-Lasts w fuel r.generator ctx live.steady))
        λ y h.
          by_kind-IsLive (kind_of (y.op).type) time (record r { ctx = ctx; generator = y.self }) y
            (record {
              queued = live.queued;
              staffed = live.staffed;
              steady = Like-IsSteady false h.0 live.steady;
            })
            h.1.0

  step-IsLive :
      (fuel : ℕ) (r r' : Runner State)
      → IsLive threads r
      → Step w fuel r r'
      → r'.flag ≡ true
      → IsLive threads r'
  step-IsLive fuel r r' live (completes before o after s s' f e k) running =
      (complete-IsLive (record r { completions = before ++ after }) o
          (record { queued = live.queued; staffed = live.staffed; steady = live.steady })).apply
        s r' s' k
  step-IsLive fuel r r' live (asks s s' f k) running =
      (ask-IsLive fuel r live).apply s r' s' k running
  step-IsLive fuel r r' live (works o o' inboxes t same k) running =
      subst (IsLive threads) (sym k) (record {
        queued = λ u m. subst (In u) (sym (Takes-queues t)) (live.queued u m);
        staffed = live.staffed;
        steady = live.steady;
      })

  -- However the loop and the workers take turns, the loop can go on.
  pub Reach-IsLive :
      (fuel : ℕ) (r r' : Runner State) → IsLive threads r → Reach w fuel r r' → IsLive threads r'
  Reach-IsLive fuel r r' live start = live
  Reach-IsLive fuel r r' live (next {q} before step running) =
      step-IsLive fuel q r' (Reach-IsLive fuel r q live before) step running
