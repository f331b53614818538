-- ===== src/Generator/Exhaustion.antt =====
-- How generators end. A generator that yields its last operation leaves the null pointer behind it,
-- and `notNil` takes that for the end.
use jepsen_in_cpp.Prelude.{
  ℕ, zero, suc, Bool, true, false, if◌then◌else◌, ◌||◌, ◌==◌, ◌≡◌, refl, sym, subst, M, arith, ◌%◌,
  done,
}
use jepsen_in_cpp.Prelude.Int.{ℤ, eqb_ℤ, ltb_ℤ, ◌+ℤ◌}
use jepsen_in_cpp.Prelude.Ensures.{
  Ensures, Ensures-pure, Ensures-fault, Ensures-lift, Ensures-if, Ensures-bind,
}
use jepsen_in_cpp.Operation.{Operation, is_nil, is_pending, invalid_time}
use jepsen_in_cpp.Context.{Context, World, on_threads_context}
use jepsen_in_cpp.Generator.Types.{
  GeneratorPtr, Generators, operation, on_threads, time_limit, stagger, mix, end, link, Yield, Call,
  put, not_nil, is_null, count,
}
use jepsen_in_cpp.Generator.Op.{
  op, operation_op, on_threads_op, time_limit_op, stagger_op, mix_of, mix_op,
}

module _ (w : World) where
  open w use {State, rand}

  -- What is yielded is `nil` or `pending`.
  abbrev YieldsNothing : M State (Yield State) → Type 0
  YieldsNothing m = Ensures (λ y. (is_nil (y.op).type || is_pending (y.op).type) ≡ true) m

  -- What a call yields leaves nothing behind, unless it is pending.
  abbrev IsLast : M State (Yield State) → Type 0
  IsLast m = Ensures (λ y. (is_pending (y.op).type || is_null y.gen) ≡ true) m

  operation_op-IsLast : (o : Operation) (ctx : Context) → IsLast (operation_op w o ctx)
  unfolding operation_op
  operation_op-IsLast o ctx =
      Ensures-bind {P = λ r. Unit {0}} _ _ (record { apply = λ s a s' e. tt })
        λ r _. Ensures-pure _ (ground arith)

  module _ (call : Call State) (g : GeneratorPtr State)
      (last : (ctx : Context) → IsLast (call g ctx)) where
    on_threads_op-YieldsNothing :
        (filter : ℤ → Bool) (ctx : Context) → YieldsNothing (on_threads_op w call g filter ctx)
    unfolding on_threads_op
    on_threads_op-YieldsNothing filter ctx =
        Ensures-bind _ _ (last (on_threads_context filter ctx)) λ y h.
          Ensures-if (not_nil y.op y.gen) _ _ (λ e. Ensures-pure _ (ground arith))
            (λ _. Ensures-pure _ refl)

    time_limit_op-YieldsNothing :
        (limit cutoff : ℤ) (ctx : Context) → YieldsNothing (time_limit_op w call limit cutoff g ctx)
    unfolding time_limit_op
    time_limit_op-YieldsNothing limit cutoff ctx = Ensures-bind _ _ (last ctx) λ y h.
        let set : ℤ = if eqb_ℤ cutoff invalid_time then (y.op).time +ℤ limit else cutoff in
        Ensures-if (not_nil y.op y.gen) _ _
          (λ e.
            Ensures-if (is_pending (y.op).type) _ _ (λ _. Ensures-pure _ (ground arith))
              (λ _.
                Ensures-if (ltb_ℤ (y.op).time set) _ _ (λ _. Ensures-pure _ (ground arith))
                  (λ _. Ensures-pure _ refl)))
          (λ _. Ensures-pure _ refl)

    stagger_op-YieldsNothing :
        (dt : ℕ) (next : ℤ) (ctx : Context) → YieldsNothing (stagger_op w call dt next g ctx)
    unfolding stagger_op
    stagger_op-YieldsNothing dt next ctx = Ensures-bind _ _ (last ctx) λ y h.
        Ensures-if (not_nil y.op y.gen) _ _
          (λ e.
            Ensures-if (is_pending (y.op).type) _ _ (λ k. Ensures-pure _ (ground arith))
              (λ k. absurd (ground arith)))
          (λ _. Ensures-pure _ refl)

  op-IsLast : (fuel : ℕ) (o : Operation) (ctx : Context) → IsLast (op w fuel (operation o) ctx)
  unfolding op
  op-IsLast zero o ctx = record { apply = λ s a s' e. cc }
  op-IsLast (suc fuel) o ctx = operation_op-IsLast o ctx

  -- A generator by which a single operation is restricted, limited in time or staggered.
  pub data IsOver (o : Operation) : GeneratorPtr State → Type 0 where
    restricted : (filter : ℤ → Bool) → IsOver o (on_threads (operation o) filter)
    limited : (limit cutoff : ℤ) → IsOver o (time_limit limit cutoff (operation o))
    staggered : (dt : ℕ) (next_time : ℤ) → IsOver o (stagger dt next_time (operation o))

  over-YieldsNothing :
      (fuel : ℕ) (o : Operation) (g : GeneratorPtr State) (ctx : Context)
      → IsOver o g
      → YieldsNothing (op w fuel g ctx)
  unfolding op
  over-YieldsNothing zero o g ctx over = record { apply = λ s a s' e. cc }
  over-YieldsNothing (suc fuel) o g ctx (restricted filter) =
      on_threads_op-YieldsNothing (op w fuel) (operation o) (op-IsLast fuel o) filter ctx
  over-YieldsNothing (suc fuel) o g ctx (limited limit cutoff) =
      time_limit_op-YieldsNothing (op w fuel) (operation o) (op-IsLast fuel o) limit cutoff ctx
  over-YieldsNothing (suc fuel) o g ctx (staggered dt next) =
      stagger_op-YieldsNothing (op w fuel) (operation o) (op-IsLast fuel o) dt next ctx

  -- The last operation of a generator is lost under `OnThreads`, `TimeLimit` and `Stagger`: over a
  -- single operation they yield `nil` or `pending`, whatever the threads and the times.
  pub last_operation_lost :
      (fuel : ℕ) (o : Operation) (g : GeneratorPtr State) (ctx : Context) (s s' : State)
      (y : Yield State)
      → IsOver o g
      → op w fuel g ctx s ≡ done (y, s')
      → (is_nil (y.op).type || is_pending (y.op).type) ≡ true
  last_operation_lost fuel o g ctx s s' y over e =
      (over-YieldsNothing fuel o g ctx over).apply s y s' e

  -- A mix of at least one generator.
  abbrev IsMix : GeneratorPtr State → Type 0
  IsMix m = (i : ℕ) × (g : GeneratorPtr State) × (gs : Generators State) × (m ≡ mix i (link g gs))

  mix_of-IsMix : (gs : Generators State) → Ensures IsMix (mix_of w gs)
  unfolding mix_of
  mix_of-IsMix end =
      Ensures-bind {P = λ r. Unit {0}} _ _ (Ensures-lift _ (λ s. tt)) λ r _. Ensures-fault
  mix_of-IsMix (link g gs) = Ensures-bind {P = λ r. Unit {0}} _ _ (Ensures-lift _ (λ s. tt)) λ r _.
      Ensures-if (count (link g gs) == 0) _ _ (λ _. Ensures-fault)
        (λ _. Ensures-pure _ (r % count (link g gs), g, gs, refl))

  -- A call of `op` on a mix that returns yields an operation.
  mix-ne-nil :
      (fuel i : ℕ) (g : GeneratorPtr State) (gs : Generators State) (ctx : Context)
      → Ensures (λ y. is_nil (y.op).type ≡ false) (op w fuel (mix i (link g gs)) ctx)
  unfolding op mix_op
  mix-ne-nil zero i g gs ctx = record { apply = λ s a s' e. cc }
  mix-ne-nil (suc fuel) i g gs ctx =
      let all : Generators State = link g gs in
      Ensures-bind {P = λ a. Unit {0}} _ _ (record { apply = λ s a s' e. tt })
        λ first _.
          Ensures-bind {P = λ a. Unit {0}} _ _ (record { apply = λ s a s' e. tt })
            λ y _.
              let gens : Generators State = put all i y.self in
              Ensures-if (not_nil y.op y.gen) _ _
                (λ e.
                  Ensures-bind {P = λ a. Unit {0}} _ _ (record { apply = λ s a s' e. tt })
                    λ copy _.
                      Ensures-bind {P = λ a. Unit {0}} _ _ (record { apply = λ s a s' e. tt })
                        λ next _. Ensures-pure _ (ground arith))
                (λ e.
                  Ensures-bind {P = λ a. Unit {0}} _ _ (record { apply = λ s a s' e. tt })
                    λ copy _. Ensures-bind _ _ (mix_of-IsMix copy) λ next (j, h, hs, is_mix).
                      Ensures-bind _ _
                        (subst (λ m. Ensures (λ z. is_nil (z.op).type ≡ false) (op w fuel m ctx))
                          (sym is_mix) (mix-ne-nil fuel j h hs ctx))
                        λ z k. Ensures-pure _ k)

  -- A call of `op` on a mix of at least one generator does not yield `nil`, if it returns: a mix never
  -- reports that it has ended.
  pub mix_never_ends :
      (fuel i : ℕ) (g : GeneratorPtr State) (gs : Generators State) (ctx : Context) (s s' : State)
      (y : Yield State)
      → op w fuel (mix i (link g gs)) ctx s ≡ done (y, s')
      → is_nil (y.op).type ≡ false
  mix_never_ends fuel i g gs ctx s s' y e = (mix-ne-nil fuel i g gs ctx).apply s y s' e
