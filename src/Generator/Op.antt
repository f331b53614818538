-- ===== src/Generator/Op.antt =====
-- `generator::op`: a case for each class, as functions of the `op` that they call on the generators
-- below, then the dispatch.
use jepsen_in_cpp.Prelude.{
  if◌then◌else◌, ℕ, zero, suc, ◌+◌, ◌%◌, ltb, ◌==◌, ◌&&◌, ◌||◌, Bool, Option, none, some, M, ◌>>=◌,
  out_of_fuel, fault, pure, or_fault, lift,
}
use jepsen_in_cpp.Prelude.Int.{ℤ, pos, negsuc, ◌+ℤ◌, eqb_ℤ, ltb_ℤ}
use jepsen_in_cpp.Operation.{
  Operation, invoke, nil_type, pending_type, of_type, is_nil, is_pending, is_init, invalid_process,
  invalid_time,
}
use jepsen_in_cpp.Context.{Context, World, random_free_process, on_threads_context}
use jepsen_in_cpp.Generator.Types.{
  GeneratorPtr, Generators, null, operation, function, list, validate, on_threads, time_limit,
  stagger, mix, any, end, link, Yield, Call, is_null, not_nil, nil, new_stagger, count, at, put,
  without, pop_front,
}
use jepsen_in_cpp.Generator.Copy.{copy_list, copy_vector, share_all, share_without}

-- `fillInOperation`, once the process is drawn.
unfoldable pub fill_in : ℤ → ℤ → Operation → Operation
fill_in process now o =
    if eqb_ℤ process invalid_process then record o { type = pending_type } else record o {
      process = if eqb_ℤ o.process invalid_process then process else o.process;
      time = if eqb_ℤ o.time (pos 0) then now else o.time;
      type = if is_init o.type then invoke else o.type;
    }

-- The loop variable `cur` of `Any::op`: an operation, its weight and its index.
pub record Soonest : Type 0 where
  pub op : Operation
  pub weight : ℕ
  pub index : ℤ

-- Where the times are equal, `rand() % w` decides.
unfoldable pub by_weight : Soonest → Soonest → ℕ → Soonest
by_weight m1 m2 r =
    let w = m1.weight + m2.weight in
    if ltb (r % w) m1.weight then record m1 { weight = w } else record m2 { weight = w }

-- An `int` as an index into a vector.
abbrev index_of : ℤ → Option ℕ
index_of (pos n) = some n
index_of (negsuc n) = none

abbrev pub generators_of : {S : Type 0} → GeneratorPtr S → Generators S
generators_of (list gs) = gs
generators_of (mix i gs) = gs
generators_of _ = end

-- The local variables of the loop of `Any::op`.
pub record Best (S : Type 0) : Type 0 where
  pub cur : Soonest
  pub res_op : Operation
  pub res_gen : GeneratorPtr S
  pub res_idx : ℤ

-- Their values before the loop.
abbrev pub no_best : {S : Type 0} → Best S
no_best = record {
  cur = record { op = of_type nil_type; weight = 1; index = negsuc 0 };
  res_op = of_type nil_type;
  res_gen = null;
  res_idx = negsuc 0;
}

module _ (w : World) where
  open w use {State, rand}

  -- `fillInOperation`.
  unfoldable pub fill_in_operation : Context → Operation → M State Operation
  unfolding fill_in random_free_process
  fill_in_operation ctx o = do
    process ← random_free_process w ctx
    pure (fill_in process ctx.time o)

  -- `soonestOpMap`.
  unfoldable pub soonest_op_map : Soonest → Soonest → M State Soonest
  unfolding by_weight
  soonest_op_map m1 m2 =
      if is_nil m1.op.type || is_pending m1.op.type
      then pure m2
      else if is_nil m2.op.type || is_pending m2.op.type
      then pure m1
      else if eqb_ℤ m1.op.time m2.op.time
      then lift rand >>= (λ r. pure (by_weight m1 m2 r))
      else if ltb_ℤ m1.op.time m2.op.time
      then pure m1
      else pure m2

  -- The case of an `OperationGenerator`.
  unfoldable pub operation_op : Operation → Context → M State (Yield State)
  unfolding fill_in_operation
  operation_op o ctx = do
    ret_op ← fill_in_operation ctx o
    pure (record {
      op = ret_op;
      gen = if is_pending ret_op.type then operation o else null;
      self = operation o;
    })

  -- `mix`, which takes `rand() % gens.size()`.
  unfoldable pub mix_of : Generators State → M State (GeneratorPtr State)
  mix_of gs = do r ← lift rand; if count gs == 0 then (λ s. fault) else pure (mix (r % count gs) gs)

  module _ (call : Call State) where
    -- The case of a `FunctionGenerator`.
    unfoldable pub function_op :
        (Context → State → Operation × State) → Context → M State (Yield State)
    function_op f ctx = do
      ret_op ← lift (f ctx)
      y ← call (list (link (operation ret_op) (link (function f) end))) ctx
      pure (record y { self = function f })

    -- The case of a `ListGenerator`, `copy` being its copy after `op` of the first element.
    unfoldable pub list_op : Generators State → Context → M State (Yield State)
    list_op end ctx = do y ← call null ctx; pure (record y { self = list end })
    list_op (link first rest) ctx = do
      y ← call first ctx
      copy ← or_fault (copy_list (link y.self rest))
      if is_null y.gen && is_nil y.op.type
          then (do
            z ← call (list (pop_front copy)) ctx
            pure (record z { self = list (link y.self (share_all rest (generators_of z.self))) }))
          else pure (record {
            op = y.op;
            gen = if ltb 1 (count copy) then list (put copy 0 y.gen) else y.gen;
            self = list (link y.self rest);
          })

    -- `Validate::op`. What it finds goes to the log only.
    unfoldable pub validate_op : GeneratorPtr State → Context → M State (Yield State)
    validate_op g ctx = do
      y ← call g ctx
      pure (record y {
        gen = if not_nil y.op y.gen then validate y.gen else y.gen;
        self = validate y.self;
      })

    -- `OnThreads::op`.
    unfoldable pub on_threads_op : GeneratorPtr State → (ℤ → Bool) → Context → M State (Yield State)
    unfolding on_threads_context
    on_threads_op g filter ctx = do
      y ← call g (on_threads_context filter ctx)
      let self = on_threads y.self filter
      if not_nil y.op y.gen
          then pure (record { op = y.op; gen = on_threads y.gen filter; self = self })
          else pure (nil self)

    -- `TimeLimit::op`.
    unfoldable pub time_limit_op : ℤ → ℤ → GeneratorPtr State → Context → M State (Yield State)
    time_limit_op limit cutoff g ctx = do
      y ← call g ctx
      let set = if eqb_ℤ cutoff invalid_time then y.op.time +ℤ limit else cutoff
      if not_nil y.op y.gen
          then (if is_pending y.op.type
              then pure (record {
                op = y.op;
                gen = time_limit limit cutoff y.gen;
                self = time_limit limit cutoff y.self;
              })
              else if ltb_ℤ y.op.time set
              then pure (record {
                op = y.op;
                gen = time_limit limit set y.gen;
                self = time_limit limit set y.self;
              })
              else pure (nil (time_limit limit set y.self)))
          else pure (nil (time_limit limit cutoff y.self))

    -- `Stagger::op`, which takes `rand() % dt`.
    unfoldable pub stagger_op : ℕ → ℤ → GeneratorPtr State → Context → M State (Yield State)
    stagger_op dt next_time g ctx = do
      y ← call g ctx
      let next = if eqb_ℤ next_time invalid_time then ctx.time else next_time
      let self = stagger dt next y.self
      if not_nil y.op y.gen
          then (if is_pending y.op.type
              then pure (record { op = y.op; gen = self; self = self })
              else (do
                r ← lift rand
                if dt == 0
                    then (λ s. fault)
                    else pure (record {
                      op = record (y.op) {
                        time = if ltb_ℤ y.op.time next then next else y.op.time;
                      };
                      gen = new_stagger dt (next +ℤ pos (r % dt)) y.gen;
                      self = self;
                    })))
          else pure (nil (stagger dt next_time y.self))

    -- `Mix::op`.
    unfoldable pub mix_op : ℕ → Generators State → Context → M State (Yield State)
    unfolding mix_of
    mix_op i end ctx = pure (nil (mix i end))
    mix_op i (link g gs) ctx = do
      first ← or_fault (at (link g gs) i)
      y ← call first ctx
      let gens = put (link g gs) i y.self
      if not_nil y.op y.gen
          then (do
            copy ← or_fault (copy_vector gens)
            next ← mix_of (put copy i y.gen)
            pure (record { op = y.op; gen = next; self = mix i gens }))
          else (do
            copy ← or_fault (copy_vector (without gens i))
            next ← mix_of copy
            z ← call next ctx
            pure (record z { self = mix i (share_without gens i (generators_of z.self)) }))

    -- One round of the loop of `Any::op`, after `op` of the generator at `i`.
    unfoldable pub any_round : ℕ → Yield State → Best State → M State (Best State)
    unfolding soonest_op_map
    any_round i y best =
        if not_nil y.op y.gen
        then (do
          cur ← soonest_op_map best.cur (record { op = y.op; weight = 1; index = pos i })
          pure (
              if eqb_ℤ cur.index (pos i)
              then record { cur = cur; res_op = y.op; res_gen = y.gen; res_idx = pos i }
              else record best { cur = cur }))
        else pure best

    -- The loop from `i` on, with the generators as it leaves them.
    unfoldable pub any_loop :
        ℕ → Generators State → Context → Best State → M State (Best State × Generators State)
    unfolding any_round
    any_loop i end ctx best = pure (best, end)
    any_loop i (link g gs) ctx best = do
      y ← call g ctx
      best' ← any_round i y best
      (last, selves) ← any_loop (suc i) gs ctx best'
      pure (last, link y.self selves)

    -- `Any::op`.
    unfoldable pub any_op : Generators State → Context → M State (Yield State)
    unfolding any_loop
    any_op gs ctx = do
      (best, selves) ← any_loop 0 gs ctx no_best
      if not_nil best.res_op best.res_gen
          then (do
            copy ← or_fault (copy_vector selves)
            i ← or_fault (index_of best.res_idx)
            pure (record {
              op = best.res_op;
              gen = any (put copy i best.res_gen);
              self = any selves;
            }))
          else pure (nil (any selves))

  -- `generator::op`, with fuel for its recursion.
  unfoldable pub op : ℕ → Call State
  unfolding operation_op function_op list_op validate_op on_threads_op time_limit_op stagger_op
      mix_op any_op
  op zero g ctx = λ s. out_of_fuel
  op (suc fuel) null ctx = pure (nil null)
  op (suc fuel) (operation o) ctx = operation_op o ctx
  op (suc fuel) (function f) ctx = function_op (op fuel) f ctx
  op (suc fuel) (list gs) ctx = list_op (op fuel) gs ctx
  op (suc fuel) (validate g) ctx = validate_op (op fuel) g ctx
  op (suc fuel) (on_threads g filter) ctx = on_threads_op (op fuel) g filter ctx
  op (suc fuel) (time_limit limit cutoff g) ctx = time_limit_op (op fuel) limit cutoff g ctx
  op (suc fuel) (stagger dt next_time g) ctx = stagger_op (op fuel) dt next_time g ctx
  op (suc fuel) (mix i gs) ctx = mix_op (op fuel) i gs ctx
  op (suc fuel) (any gs) ctx = any_op (op fuel) gs ctx
