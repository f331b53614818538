-- ===== src/Generator/Confined.antt =====
-- `OnThreads`, and with it `clients` and `nemesis`: whose operations it lets through.
use jepsen_in_cpp.Prelude.{ℕ, zero, suc, Bool, true, false, ◌≡◌, ◌∙◌, ap, done}
use jepsen_in_cpp.Prelude.Int.{ℤ}
use jepsen_in_cpp.Prelude.Ensures.{Ensures, Ensures-pure, Ensures-if, Ensures-bind}
use jepsen_in_cpp.Operation.{is_nil, is_pending}
use jepsen_in_cpp.Context.{Context, World, on_threads_context, process_to_thread}
use jepsen_in_cpp.Context.Processes.{thread_of-In, lookup-In}
use jepsen_in_cpp.Context.Ready.{
  IsReady, IsRunning, IsServed, In-keep, lookup-keep, IsRunning-on_threads, IsReady-on_threads,
}
use jepsen_in_cpp.Generator.Types.{GeneratorPtr, on_threads, Yield, not_nil}
use jepsen_in_cpp.Generator.Op.{op, on_threads_op}
use jepsen_in_cpp.Generator.Fits.{Fits}
use jepsen_in_cpp.Generator.Ready.{op-Serves}

module _ (w : World) (n : ℕ) (F filter : ℤ → Bool) (g : GeneratorPtr w.State) (ctx : Context)
    (running : IsRunning n F ctx) (fits : Fits F (on_threads g filter)) where
  on_threads-served :
      (fuel : ℕ)
      → Ensures
          (λ y. IsServed (on_threads_context filter ctx) y.op)
          (op w fuel (on_threads g filter) ctx)
  unfolding op on_threads_op
  on_threads-served zero = record { apply = λ s a s' e. cc }
  on_threads-served (suc fuel) =
      Ensures-bind _ _
        (op-Serves w n fuel _ g (on_threads_context filter ctx)
          (IsRunning-on_threads n F filter ctx running) fits)
        λ y h.
          Ensures-if (not_nil y.op y.gen) _ _ (λ _. Ensures-pure _ h.served)
            (λ _. Ensures-pure _ (λ a b. cc))

  -- A process that a free thread runs in the restricted context has a thread that passes the filter.
  IsReady-passes :
      (process : ℤ)
      → IsReady (on_threads_context filter ctx) process
      → filter (process_to_thread ctx process) ≡ true
  unfolding on_threads_context process_to_thread
  IsReady-passes process ready =
      let (_, passes) = In-keep filter ctx.free_threads ready.thread ready.is_free in
      let found =
        lookup-In ctx.workers ready.thread process
          (lookup-keep filter ctx.workers ready.thread process ready.runs) in
      ap filter (thread_of-In n ctx.workers ready.thread process running.owned found) ∙ passes

-- An operation that `OnThreads` yields, other than `nil` and `pending`, is for a process that a free
-- thread runs, and that thread passes the filter: an operation of `clients` is never for the nemesis,
-- and one of `nemesis` is for nothing else. Premises: each worker runs a process of its own, and the
-- operations in the generator have no process, or they are for the nemesis and stand where only the
-- nemesis thread can be free.
pub on_threads-confined :
    (w : World) (n fuel : ℕ) (F filter : ℤ → Bool) (g : GeneratorPtr w.State) (ctx : Context)
    (s s' : w.State) (y : Yield w.State)
    → IsRunning n F ctx
    → Fits F (on_threads g filter)
    → op w fuel (on_threads g filter) ctx s ≡ done (y, s')
    → is_nil (y.op).type ≡ false
    → is_pending (y.op).type ≡ false
    → IsReady ctx (y.op).process × (filter (process_to_thread ctx (y.op).process) ≡ true)
on_threads-confined w n fuel F filter g ctx s s' y running fits e a b =
    let ready = (on_threads-served w n F filter g ctx running fits fuel).apply s y s' e a b in
    (
      IsReady-on_threads filter ctx (y.op).process ready,
      IsReady-passes w n F filter g ctx running fits (y.op).process ready,
    )
