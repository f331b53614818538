-- ===== src/Generator/Totality.antt =====
-- `op` returns, with fuel for the depth of the generator.
use jepsen_in_cpp.Prelude.{ℕ, zero, suc, ◌≤◌, Bool, true, false, ◌≡◌, refl, done, arith, M}
use jepsen_in_cpp.Prelude.Total.{Total, Total-pure, Total-lift, Total-bind}
use jepsen_in_cpp.Operation.{is_nil}
use jepsen_in_cpp.Context.{Context, World}
use jepsen_in_cpp.Context.Staffed.{IsStaffed, DrawsInRange}
use jepsen_in_cpp.Generator.Types.{
  GeneratorPtr, null, operation, function, list, validate, on_threads, time_limit, stagger, mix,
  any, link, end, Yield,
}
use jepsen_in_cpp.Generator.Op.{op, function_op}
use jepsen_in_cpp.Generator.Like.{Like}
use jepsen_in_cpp.Generator.Frame.{op-Keeps}
use jepsen_in_cpp.Generator.Steady.{IsSteady, rank, rank-pos}
use jepsen_in_cpp.Generator.Returning.{
  operation_op-Returns, validate_op-Returns, on_threads_op-Returns, time_limit_op-Returns,
  stagger_op-Returns, list_op-Returns, any_op-Returns, list_op-first,
}

module _ (w : World) (fair : DrawsInRange w) (empty_lists : Bool) where
  open w use {State}

  abbrev Kept : GeneratorPtr State → M State (Yield State) → Type 0
  Kept g m = Total (λ y. Like g y.self) m

  kept :
      (fuel : ℕ) (g : GeneratorPtr State) (ctx : Context)
      → Total (λ y. Unit {0}) (op w fuel g ctx)
      → Kept g (op w fuel g ctx)
  kept fuel g ctx h = record {
    run = λ s. let (y, s', e, _) = h.run s in (y, s', e, (op-Keeps w fuel g ctx).apply s y s' e);
  }

  pub op-Returns :
      (fuel : ℕ) (g : GeneratorPtr State) (ctx : Context)
      → rank g ≤ fuel
      → IsSteady empty_lists g
      → IsStaffed ctx
      → Total (λ y. Unit {0}) (op w fuel g ctx)
  unfolding op function_op
  op-Returns zero g ctx le steady staffed = absurd (omega (arith, rank-pos g))
  op-Returns (suc fuel) null ctx le steady staffed = Total-pure _ tt
  op-Returns (suc fuel) (operation o) ctx le steady staffed =
      operation_op-Returns w fair empty_lists o ctx staffed
  op-Returns (suc zero) (function f) ctx le steady staffed = absurd (omega arith)
  op-Returns (suc (suc zero)) (function f) ctx le steady staffed = absurd (omega arith)
  op-Returns (suc (suc (suc fuel))) (function f) ctx le steady staffed =
      Total-bind {P = λ o. is_nil o.type ≡ false} _ _ (Total-lift _ (λ s. steady ctx s)) λ o asked.
        Total-bind _ _
          (list_op-first w fair empty_lists (op w (suc fuel)) o (link (function f) end) asked
            (steady, tt) ctx staffed refl)
          λ y _. Total-pure _ tt
  op-Returns (suc fuel) (list gs) ctx le steady staffed =
      list_op-Returns w fair empty_lists (op w fuel) fuel
        (λ h c l m n. kept fuel h c (op-Returns fuel h c l m n)) gs ctx (omega arith) steady staffed
  op-Returns (suc fuel) (validate g) ctx le steady staffed =
      validate_op-Returns w fair empty_lists (op w fuel) fuel
        (λ h c l m n. kept fuel h c (op-Returns fuel h c l m n)) g ctx (omega arith) steady staffed
  op-Returns (suc fuel) (on_threads g filter) ctx le steady staffed =
      on_threads_op-Returns w fair empty_lists (op w fuel) fuel
        (λ h c l m n. kept fuel h c (op-Returns fuel h c l m n)) g filter ctx (omega arith) steady
        staffed
  op-Returns (suc fuel) (time_limit limit cutoff g) ctx le steady staffed =
      time_limit_op-Returns w fair empty_lists (op w fuel) fuel
        (λ h c l m n. kept fuel h c (op-Returns fuel h c l m n)) limit cutoff g ctx (omega arith)
        steady staffed
  op-Returns (suc fuel) (stagger dt next g) ctx le steady staffed =
      stagger_op-Returns w fair empty_lists (op w fuel) fuel
        (λ h c l m n. kept fuel h c (op-Returns fuel h c l m n)) dt next g ctx (omega arith)
        steady.0 steady.1 staffed
  op-Returns (suc fuel) (mix i gs) ctx le steady staffed = elim steady [ ]
  op-Returns (suc fuel) (any gs) ctx le steady staffed =
      any_op-Returns w fair empty_lists (op w fuel) fuel
        (λ h c l m n. kept fuel h c (op-Returns fuel h c l m n)) gs ctx (omega arith) steady.0
        steady.1 staffed

-- A call of `op` returns, with fuel for the depth of the generator. Premises: each free thread runs
-- a process and the random draws stay in their bounds; the generator has no mix, no stagger with an
-- interval of 0, no function that yields `nil`, and under `Any` nothing that is or is copied to the
-- null pointer.
pub op-returns :
    (w : World) (fuel : ℕ) (g : GeneratorPtr w.State) (ctx : Context) (s : w.State)
    → DrawsInRange w
    → rank g ≤ fuel
    → IsSteady true g
    → IsStaffed ctx
    → (y : Yield w.State) × (s' : w.State) × (op w fuel g ctx s ≡ done (y, s'))
op-returns w fuel g ctx s fair le steady staffed =
    let (y, s', e, _) = (op-Returns w fair true fuel g ctx le steady staffed).run s in (y, s', e)
