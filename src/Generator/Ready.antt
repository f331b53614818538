-- ===== src/Generator/Ready.antt =====
-- Whom the operations that `op` yields are for: each is for a process that a free thread runs.
use jepsen_in_cpp.Prelude.{ℕ, zero, suc, Bool, false, ◌≡◌, done}
use jepsen_in_cpp.Prelude.Int.{ℤ}
use jepsen_in_cpp.Prelude.Ensures.{Ensures-pure}
use jepsen_in_cpp.Operation.{is_nil, is_pending}
use jepsen_in_cpp.Context.{Context, World}
use jepsen_in_cpp.Context.Ready.{IsReady, IsRunning}
use jepsen_in_cpp.Generator.Types.{
  GeneratorPtr, null, operation, function, list, validate, on_threads, time_limit, stagger, mix,
  any, Yield, not_nil,
}
use jepsen_in_cpp.Generator.Op.{op}
use jepsen_in_cpp.Generator.Fits.{Fits}
use jepsen_in_cpp.Generator.Frame.{op-Keeps}
use jepsen_in_cpp.Generator.Serve.{
  Serves, nil-IsGood, operation_op-Serves, function_op-Serves, validate_op-Serves,
  on_threads_op-Serves, time_limit_op-Serves, stagger_op-Serves, with_self,
}
use jepsen_in_cpp.Generator.Choose.{list_op-Serves, mix_op-Serves, any_op-Serves}

module _ (w : World) (n : ℕ) where
  open w use {State}

  -- A call of `op` that returns serves, whatever the generator.
  pub op-Serves :
      (fuel : ℕ) (F : ℤ → Bool) (g : GeneratorPtr State) (ctx : Context)
      → IsRunning n F ctx
      → Fits F g
      → Serves w n F ctx (op w fuel g ctx)
  unfolding op
  op-Serves zero F g ctx running fits = record { apply = λ s a s' e. cc }
  op-Serves (suc fuel) F null ctx running fits = Ensures-pure _ (nil-IsGood w n F ctx null tt)
  op-Serves (suc fuel) F (operation o) ctx running fits =
      operation_op-Serves w n F o ctx running fits
  op-Serves (suc fuel) F (function f) ctx running fits =
      function_op-Serves w n (op w fuel) (op-Serves fuel) F f ctx running fits
  op-Serves (suc fuel) F (list gs) ctx running fits =
      with_self w n F (list gs) ctx _ fits
        (list_op-Serves w n (op w fuel) (op-Serves fuel) F gs ctx running fits)
        (op-Keeps w (suc fuel) (list gs) ctx)
  op-Serves (suc fuel) F (validate g) ctx running fits =
      validate_op-Serves w n (op w fuel) (op-Serves fuel) F g ctx running fits
  op-Serves (suc fuel) F (on_threads g filter) ctx running fits =
      on_threads_op-Serves w n (op w fuel) (op-Serves fuel) F g filter ctx running fits
  op-Serves (suc fuel) F (time_limit limit cutoff g) ctx running fits =
      time_limit_op-Serves w n (op w fuel) (op-Serves fuel) F limit cutoff g ctx running fits
  op-Serves (suc fuel) F (stagger dt next g) ctx running fits =
      stagger_op-Serves w n (op w fuel) (op-Serves fuel) F dt next g ctx running fits
  op-Serves (suc fuel) F (mix i gs) ctx running fits =
      with_self w n F (mix i gs) ctx _ fits
        (mix_op-Serves w n (op w fuel) (op-Serves fuel) F i gs ctx running fits)
        (op-Keeps w (suc fuel) (mix i gs) ctx)
  op-Serves (suc fuel) F (any gs) ctx running fits =
      with_self w n F (any gs) ctx _ fits
        (any_op-Serves w n (op w fuel) (op-Serves fuel) F gs ctx running fits)
        (op-Keeps w (suc fuel) (any gs) ctx)

-- An operation that a generator yields, other than `nil` and `pending`, is for a process that a free
-- thread of the context runs. Premises: each worker runs a process of its own, and the operations in
-- the generator have no process, or they are for the nemesis and stand where only the nemesis thread
-- can be free.
pub op-served :
    (w : World) (n fuel : ℕ) (F : ℤ → Bool) (g : GeneratorPtr w.State) (ctx : Context)
    (s s' : w.State) (y : Yield w.State)
    → IsRunning n F ctx
    → Fits F g
    → op w fuel g ctx s ≡ done (y, s')
    → is_nil (y.op).type ≡ false
    → is_pending (y.op).type ≡ false
    → IsReady ctx (y.op).process
op-served w n fuel F g ctx s s' y running fits e not_nil not_pending =
    ((op-Serves w n fuel F g ctx running fits).apply s y s' e).served not_nil not_pending
