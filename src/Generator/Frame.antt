-- ===== src/Generator/Frame.antt =====
-- A call of `op` leaves the generator that it is called on as it was, but for the times that
-- `TimeLimit` and `Stagger` hold.
use jepsen_in_cpp.Prelude.{
  done, ℕ, zero, suc, Bool, if◌then◌else◌, ◌&&◌, ◌==◌, some, ◌≡◌, refl, M, ◌%◌, subst, or_fault,
  lift,
}
use jepsen_in_cpp.Prelude.Int.{ℤ, eqb_ℤ, ltb_ℤ, ◌+ℤ◌}
use jepsen_in_cpp.Prelude.Ensures.{
  Ensures, Ensures-pure, Ensures-fault, Ensures-or_fault, Ensures-if, Ensures-bind,
}
use jepsen_in_cpp.Prelude.Options.{OnSome-apply}
use jepsen_in_cpp.Operation.{Operation, is_nil, is_pending, invalid_time}
use jepsen_in_cpp.Context.{Context, World, on_threads_context}
use jepsen_in_cpp.Generator.Types.{
  GeneratorPtr, Generators, null, operation, function, list, validate, on_threads, time_limit,
  stagger, mix, any, end, link, Yield, Call, at, put, without, pop_front, not_nil, is_null, count,
}
use jepsen_in_cpp.Generator.Copy.{copy_list, copy_vector}
use jepsen_in_cpp.Generator.Op.{
  op, operation_op, function_op, list_op, validate_op, on_threads_op, time_limit_op, stagger_op,
  mix_of, mix_op, any_op, any_loop, any_round, fill_in_operation, Best, no_best,
}
use jepsen_in_cpp.Generator.Like.{
  Like, LikeAll, same_null, same_operation, same_function, same_list, same_validate,
  same_on_threads, same_time_limit, same_stagger, same_mix, same_any, same_end, same_link,
  Like-refl, LikeAll-refl, LikeAll-trans, share_all-Like, share_without-Like, copy_list-Like,
  copy_vector-Like, Like-list, Like-mix, put-Like,
}

module _ (w : World) where
  open w use {State, rand}

  abbrev Keeps : GeneratorPtr State → M State (Yield State) → Type 0
  Keeps g m = Ensures (λ y. Like g y.self) m

  anything : {A : Type 0} (m : M State A) → Ensures (λ a. Unit {0}) m
  anything m = record { apply = λ s a s' e. tt }

  module _ (call : Call State)
      (keeps : (g : GeneratorPtr State) (ctx : Context) → Keeps g (call g ctx)) where
    function_op-Keeps :
        (f : Context → State → Operation × State) (ctx : Context)
        → Keeps (function f) (function_op w call f ctx)
    unfolding function_op
    function_op-Keeps f ctx =
        Ensures-bind _ _ (anything _)
          λ o _. Ensures-bind _ _ (anything _) λ y _. Ensures-pure _ (same_function f)

    -- The tail of the list, after `op` of the rest of its copy.
    pop_front-Like :
        {g : GeneratorPtr State} {rest copy : Generators State}
        → LikeAll (link g rest) copy
        → LikeAll rest (pop_front copy)
    pop_front-Like (same_link h hs) = hs

    list_op-Keeps :
        (gs : Generators State) (ctx : Context) → Keeps (list gs) (list_op w call gs ctx)
    unfolding list_op
    list_op-Keeps end ctx = Ensures-bind _ _ (anything _) (λ y h. Ensures-pure _ (Like-refl _))
    list_op-Keeps (link first rest) ctx = Ensures-bind _ _ (keeps first ctx) λ y h.
        Ensures-bind _ _
          (Ensures-or_fault {P = LikeAll (link y.self rest)} (copy_list (link y.self rest))
            (λ copy e. OnSome-apply _ _ copy (copy_list-Like (link y.self rest)) e))
          λ copy k.
            Ensures-if (is_null y.gen && is_nil (y.op).type) _ _
              (λ _. Ensures-bind _ _ (keeps (list (pop_front copy)) ctx) λ z l. Ensures-pure _ (
                same_list
                  (same_link h (share_all-Like (LikeAll-trans (pop_front-Like k) (Like-list l))))))
              (λ _. Ensures-pure _ (same_list (same_link h (LikeAll-refl rest))))

    validate_op-Keeps :
        (g : GeneratorPtr State) (ctx : Context) → Keeps (validate g) (validate_op w call g ctx)
    unfolding validate_op
    validate_op-Keeps g ctx = Ensures-bind _ _ (keeps g ctx) λ y h. Ensures-pure _ (same_validate h)

    on_threads_op-Keeps :
        (g : GeneratorPtr State) (filter : ℤ → Bool) (ctx : Context)
        → Keeps (on_threads g filter) (on_threads_op w call g filter ctx)
    unfolding on_threads_op
    on_threads_op-Keeps g filter ctx =
        Ensures-bind _ _ (keeps g (on_threads_context filter ctx)) λ y h.
          Ensures-if (not_nil y.op y.gen) _ _ (λ _. Ensures-pure _ (same_on_threads filter h))
            (λ _. Ensures-pure _ (same_on_threads filter h))

    time_limit_op-Keeps :
        (limit cutoff : ℤ) (g : GeneratorPtr State) (ctx : Context)
        → Keeps (time_limit limit cutoff g) (time_limit_op w call limit cutoff g ctx)
    unfolding time_limit_op
    time_limit_op-Keeps limit cutoff g ctx = Ensures-bind _ _ (keeps g ctx) λ y h.
        let same : (x : ℤ) → Like (time_limit limit cutoff g) (time_limit limit x y.self) =
          λ x. same_time_limit limit cutoff x h in
        let set : ℤ = if eqb_ℤ cutoff invalid_time then (y.op).time +ℤ limit else cutoff in
        Ensures-if (not_nil y.op y.gen) _ _
          (λ _.
            Ensures-if (is_pending (y.op).type) _ _ (λ _. Ensures-pure _ (same _))
              (λ _.
                Ensures-if (ltb_ℤ (y.op).time set) _ _ (λ _. Ensures-pure _ (same _))
                  (λ _. Ensures-pure _ (same _))))
          (λ _. Ensures-pure _ (same _))

    stagger_op-Keeps :
        (dt : ℕ) (next : ℤ) (g : GeneratorPtr State) (ctx : Context)
        → Keeps (stagger dt next g) (stagger_op w call dt next g ctx)
    unfolding stagger_op
    stagger_op-Keeps dt next g ctx = Ensures-bind _ _ (keeps g ctx) λ y h.
        let same : (x : ℤ) → Like (stagger dt next g) (stagger dt x y.self) =
          λ x. same_stagger dt next x h in
        Ensures-if (not_nil y.op y.gen) _ _
          (λ _.
            Ensures-if (is_pending (y.op).type) _ _ (λ _. Ensures-pure _ (same _))
              (λ _. Ensures-bind _ _ (anything (lift rand)) λ r _.
                Ensures-if (dt == 0) _ _ (λ _. Ensures-fault) (λ _. Ensures-pure _ (same _))))
          (λ _. Ensures-pure _ (same _))

    mix_of-IsMix : (gs : Generators State) → Ensures (λ m. (i : ℕ) × (m ≡ mix i gs)) (mix_of w gs)
    unfolding mix_of
    mix_of-IsMix gs = Ensures-bind _ _ (anything (lift rand)) λ r _.
        Ensures-if (count gs == 0) _ _ (λ _. Ensures-fault)
          (λ _. Ensures-pure _ (r % count gs, refl))

    mix_op-Keeps :
        (i : ℕ) (gs : Generators State) (ctx : Context) → Keeps (mix i gs) (mix_op w call i gs ctx)
    unfolding mix_op
    mix_op-Keeps i end ctx = Ensures-pure _ (Like-refl _)
    mix_op-Keeps i (link g gs) ctx =
        let all : Generators State = link g gs in
        Ensures-bind _ _
          (Ensures-or_fault {P = λ first. at all i ≡ some first} (at all i) (λ a e. e))
          λ first e. Ensures-bind _ _ (keeps first ctx) λ y h.
            let gens : Generators State = put all i y.self in
            let alike : LikeAll all gens = put-Like all i first y.self e h in
            Ensures-if (not_nil y.op y.gen) _ _
              (λ _. Ensures-bind _ _ (anything (or_fault (copy_vector gens))) λ copy _.
                Ensures-bind _ _ (anything (mix_of w (put copy i y.gen)))
                  λ next _. Ensures-pure _ (same_mix i alike))
              (λ _.
                Ensures-bind _ _
                  (Ensures-or_fault {P = LikeAll (without gens i)} (copy_vector (without gens i))
                    (λ copy e. OnSome-apply _ _ copy (copy_vector-Like (without gens i)) e))
                  λ copy k. Ensures-bind _ _ (mix_of-IsMix copy) λ next (j, is_mix).
                    Ensures-bind _ _ (keeps next ctx) λ z l. Ensures-pure _ (
                      same_mix i (
                        LikeAll-trans alike (
                          share_without-Like gens i
                            (LikeAll-trans k (Like-mix (subst (λ m. Like m z.self) is_mix l)))))))

    any_loop-Keeps :
        (i : ℕ) (gs : Generators State) (ctx : Context) (best : Best State)
        → Ensures (λ r. LikeAll gs r.1) (any_loop w call i gs ctx best)
    unfolding any_loop
    any_loop-Keeps i end ctx best = Ensures-pure _ same_end
    any_loop-Keeps i (link g gs) ctx best = Ensures-bind _ _ (keeps g ctx) λ y h.
        Ensures-bind _ _ (anything (any_round w call i y best)) λ best' _.
          Ensures-bind _ _ (any_loop-Keeps (suc i) gs ctx best')
            λ r k. Ensures-pure _ (same_link h k)

    any_op-Keeps : (gs : Generators State) (ctx : Context) → Keeps (any gs) (any_op w call gs ctx)
    unfolding any_op
    any_op-Keeps gs ctx = Ensures-bind _ _ (any_loop-Keeps 0 gs ctx no_best) λ r k.
        Ensures-if (not_nil (r.0).res_op (r.0).res_gen) _ _
          (λ _.
            Ensures-bind _ _ (anything _)
              λ copy _. Ensures-bind _ _ (anything _) λ i _. Ensures-pure _ (same_any k))
          (λ _. Ensures-pure _ (same_any k))

  -- A call of `op` that returns keeps the generator.
  pub op-Keeps : (fuel : ℕ) (g : GeneratorPtr State) (ctx : Context) → Keeps g (op w fuel g ctx)
  unfolding op operation_op
  op-Keeps zero g ctx = record { apply = λ s a s' e. cc }
  op-Keeps (suc fuel) null ctx = Ensures-pure _ same_null
  op-Keeps (suc fuel) (operation o) ctx =
      Ensures-bind _ _ (anything (fill_in_operation w ctx o))
        λ r _. Ensures-pure _ (same_operation o)
  op-Keeps (suc fuel) (function f) ctx = function_op-Keeps (op w fuel) (op-Keeps fuel) f ctx
  op-Keeps (suc fuel) (list gs) ctx = list_op-Keeps (op w fuel) (op-Keeps fuel) gs ctx
  op-Keeps (suc fuel) (validate g) ctx = validate_op-Keeps (op w fuel) (op-Keeps fuel) g ctx
  op-Keeps (suc fuel) (on_threads g filter) ctx =
      on_threads_op-Keeps (op w fuel) (op-Keeps fuel) g filter ctx
  op-Keeps (suc fuel) (time_limit limit cutoff g) ctx =
      time_limit_op-Keeps (op w fuel) (op-Keeps fuel) limit cutoff g ctx
  op-Keeps (suc fuel) (stagger dt next g) ctx =
      stagger_op-Keeps (op w fuel) (op-Keeps fuel) dt next g ctx
  op-Keeps (suc fuel) (mix i gs) ctx = mix_op-Keeps (op w fuel) (op-Keeps fuel) i gs ctx
  op-Keeps (suc fuel) (any gs) ctx = any_op-Keeps (op w fuel) (op-Keeps fuel) gs ctx

-- After a call of `op` that returns, the generator is what it was, its order, elements and filters
-- included, but for the times that the time limits and staggers in it hold, and for a time limit or
-- a stagger over the null pointer, which a copy may turn into the null pointer.
pub op-keeps_generator :
    (w : World) (fuel : ℕ) (g : GeneratorPtr w.State) (ctx : Context) (s s' : w.State)
    (y : Yield w.State)
    → op w fuel g ctx s ≡ done (y, s')
    → Like g y.self
op-keeps_generator w fuel g ctx s s' y e = (op-Keeps w fuel g ctx).apply s y s' e
