-- ===== src/Generator/Leaving.antt =====
-- What each class yields of a steady generator is steady again, where the calls below it yield such.
use jepsen_in_cpp.Prelude.{
  ℕ, suc, Bool, true, if◌then◌else◌, ◌&&◌, ◌==◌, ltb, ◌≡◌, ◌≢◌, if_ind, arith,
}
use jepsen_in_cpp.Prelude.Int.{ℤ, pos, eqb_ℤ, ltb_ℤ, ◌+ℤ◌}
use jepsen_in_cpp.Prelude.Ensures.{
  Ensures, Ensures-pure, Ensures-fault, Ensures-or_fault, Ensures-if, Ensures-bind,
  Ensures-anything,
}
use jepsen_in_cpp.Prelude.Options.{OnSome-apply}
use jepsen_in_cpp.Operation.{Operation, is_nil, is_pending, invalid_time}
use jepsen_in_cpp.Context.{Context, World, on_threads_context}
use jepsen_in_cpp.Generator.Types.{
  GeneratorPtr, Generators, null, operation, function, list, validate, on_threads, time_limit,
  stagger, any, end, link, Yield, Call, pop_front, not_nil, is_null, count, nil,
}
use jepsen_in_cpp.Generator.Op.{
  operation_op, function_op, list_op, validate_op, on_threads_op, time_limit_op, stagger_op, any_op,
  any_loop, any_round, Best, no_best,
}
use jepsen_in_cpp.Generator.Like.{Like, LikeAll, same_end, same_link, copy_vector-Like}
use jepsen_in_cpp.Generator.Steady.{
  IsSteady, AllSteady, IsSolid, AllSolid, Like-IsSolid, Like-IsSteady, LikeAll-AllSteady,
  LikeAll-AllSolid,
}
use jepsen_in_cpp.Generator.Parts.{
  put-AllSteady, put-AllSolid, popped-AllSteady, put-IsSolid, copied-AllSteady,
}

module _ (empty_lists : Bool) where
  module _ {S : Type 0} where
    -- What is yielded with an operation is no null pointer, nor a time limit or a stagger over it, and
    -- neither was the generator that yielded it.
    abbrev pub Leaves : GeneratorPtr S → Operation → GeneratorPtr S → Type 0
    Leaves g o gen =
        IsSteady empty_lists gen
        × (not_nil o gen ≡ true → IsSolid empty_lists gen × IsSolid empty_lists g)

    abbrev pub Lasts : GeneratorPtr S → Yield S → Type 0
    Lasts g y = Leaves g y.op y.gen

    abbrev pub KeepsOn : GeneratorPtr S → Yield S → Type 0
    KeepsOn g y = Like g y.self × Lasts g y

    pub nil-Lasts : (g self : GeneratorPtr S) → Lasts g (nil self)
    nil-Lasts g self = (tt, λ e. absurd (cc e))

  module _ (w : World) where
    open w use {State, rand}

    pub operation_op-Lasts :
        (o : Operation) (ctx : Context) → Ensures (Lasts (operation o)) (operation_op w o ctx)
    unfolding operation_op
    operation_op-Lasts o ctx = Ensures-bind _ _ (Ensures-anything _) λ r _. Ensures-pure _ (
        if_ind (Leaves (operation o) r) (is_pending r.type) _ _ (λ _. (tt, λ _. (tt, tt)))
          (λ _. (tt, λ e. absurd (ground (arith, e)))))

    module _ (call : Call State)
        (lasts : (g : GeneratorPtr State) (ctx : Context)
          → IsSteady empty_lists g
          → Ensures (KeepsOn g) (call g ctx)) where
      pub function_op-Lasts :
          (f : Context → State → Operation × State) (ctx : Context)
          → IsSteady empty_lists (function f)
          → Ensures (Lasts (function f)) (function_op w call f ctx)
      unfolding function_op
      function_op-Lasts f ctx steady = Ensures-bind _ _ (Ensures-anything _) λ o _.
          Ensures-bind _ _
            (lasts (list (link (operation o) (link (function f) end))) ctx (tt, (steady, tt)))
            λ y h. Ensures-pure _ (h.1.0, λ e. ((h.1.1 e).0, tt))

      pub list_op-Lasts :
          (gs : Generators State) (ctx : Context)
          → AllSteady empty_lists gs
          → Ensures (Lasts (list gs)) (list_op w call gs ctx)
      unfolding list_op
      list_op-Lasts end ctx steady =
          Ensures-bind _ _ (lasts null ctx tt)
            λ y h. Ensures-pure _ (h.1.0, λ e. absurd (h.1.1 e).1)
      list_op-Lasts (link first rest) ctx steady =
          Ensures-bind _ _ (lasts first ctx steady.0) λ y h.
            let left : AllSteady empty_lists (link y.self rest) =
              (Like-IsSteady empty_lists h.0 steady.0, steady.1) in
            Ensures-bind {P = AllSteady empty_lists} _ _
              (Ensures-or_fault _ (λ copy e. copied-AllSteady empty_lists _ copy left e))
              λ copy k.
                Ensures-if (is_null y.gen && is_nil (y.op).type) _ _
                  (λ _.
                    Ensures-bind _ _
                      (lasts (list (pop_front copy)) ctx (popped-AllSteady empty_lists copy k))
                      λ z l. Ensures-pure _ (l.1.0, λ e. ((l.1.1 e).0, tt)))
                  (λ _. Ensures-pure _ (
                    if_ind (Leaves (list (link first rest)) y.op) (ltb 1 (count copy)) _ _
                      (λ more. (
                        put-AllSteady empty_lists copy 0 y.gen k h.1.0,
                        λ _. (put-IsSolid empty_lists copy y.gen (ground (arith, more)), tt),
                      ))
                      (λ _. (h.1.0, λ e. ((h.1.1 e).0, tt)))))

      pub validate_op-Lasts :
          (g : GeneratorPtr State) (ctx : Context)
          → IsSteady empty_lists g
          → Ensures (Lasts (validate g)) (validate_op w call g ctx)
      unfolding validate_op
      validate_op-Lasts g ctx steady = Ensures-bind _ _ (lasts g ctx steady) λ y h. Ensures-pure _ (
          if_ind (Leaves (validate g) y.op) (not_nil y.op y.gen) _ _ (λ _. (h.1.0, λ _. (tt, tt)))
            (λ _. (h.1.0, λ e. ((h.1.1 e).0, tt))))

      pub on_threads_op-Lasts :
          (g : GeneratorPtr State) (filter : ℤ → Bool) (ctx : Context)
          → IsSteady empty_lists g
          → Ensures (Lasts (on_threads g filter)) (on_threads_op w call g filter ctx)
      unfolding on_threads_op
      on_threads_op-Lasts g filter ctx steady =
          Ensures-bind _ _ (lasts g (on_threads_context filter ctx) steady) λ y h.
            Ensures-if (not_nil y.op y.gen) _ _ (λ _. Ensures-pure _ (h.1.0, λ _. (tt, tt)))
              (λ _. Ensures-pure _ (nil-Lasts (on_threads g filter) (on_threads y.self filter)))

      pub time_limit_op-Lasts :
          (limit cutoff : ℤ) (g : GeneratorPtr State) (ctx : Context)
          → IsSteady empty_lists g
          → Ensures (Lasts (time_limit limit cutoff g)) (time_limit_op w call limit cutoff g ctx)
      unfolding time_limit_op
      time_limit_op-Lasts limit cutoff g ctx steady = Ensures-bind _ _ (lasts g ctx steady) λ y h.
          let set : ℤ = if eqb_ℤ cutoff invalid_time then (y.op).time +ℤ limit else cutoff in
          Ensures-if (not_nil y.op y.gen) _ _
            (λ some_op.
              Ensures-if (is_pending (y.op).type) _ _
                (λ _. Ensures-pure _ (h.1.0, λ _. h.1.1 some_op))
                (λ _.
                  Ensures-if (ltb_ℤ (y.op).time set) _ _
                    (λ _. Ensures-pure _ (h.1.0, λ _. h.1.1 some_op))
                    (λ _.
                      Ensures-pure _
                        (nil-Lasts (time_limit limit cutoff g) (time_limit limit set y.self)))))
            (λ _.
              Ensures-pure _
                (nil-Lasts (time_limit limit cutoff g) (time_limit limit cutoff y.self)))

      pub stagger_op-Lasts :
          (dt : ℕ) (next : ℤ) (g : GeneratorPtr State) (ctx : Context)
          → dt ≢ 0
          → IsSteady empty_lists g
          → Ensures (Lasts (stagger dt next g)) (stagger_op w call dt next g ctx)
      unfolding stagger_op
      stagger_op-Lasts dt next g ctx some_interval steady =
          Ensures-bind _ _ (lasts g ctx steady) λ y h.
            Ensures-if (not_nil y.op y.gen) _ _
              (λ some_op.
                Ensures-if (is_pending (y.op).type) _ _
                  (λ _. Ensures-pure _ (
                    (some_interval, Like-IsSteady empty_lists h.0 steady),
                    λ _. (Like-IsSolid empty_lists h.0 (h.1.1 some_op).1, (h.1.1 some_op).1),
                  ))
                  (λ _. Ensures-bind _ _ (Ensures-anything _) λ r _.
                    Ensures-if (dt == 0) _ _ (λ _. Ensures-fault)
                      (λ _. Ensures-pure _ ((some_interval, h.1.0), λ _. h.1.1 some_op))))
              (λ _. Ensures-pure _ (nil-Lasts (stagger dt next g) (stagger dt next y.self)))

      -- The result so far of the loop of `Any::op`.
      abbrev Held : Best State → Type 0
      Held best =
          IsSteady empty_lists best.res_gen
          × (not_nil best.res_op best.res_gen ≡ true → IsSolid empty_lists best.res_gen)

      any_round-Held :
          (i : ℕ) (y : Yield State) (best : Best State)
          → IsSteady empty_lists y.gen × (not_nil y.op y.gen ≡ true → IsSolid empty_lists y.gen)
          → Held best
          → Ensures Held (any_round w call i y best)
      unfolding any_round
      any_round-Held i y best new old =
          Ensures-if (not_nil y.op y.gen) _ _
            (λ _. Ensures-bind _ _ (Ensures-anything _) λ cur _.
              Ensures-pure _ (if_ind Held (eqb_ℤ cur.index (pos i)) _ _ (λ _. new) (λ _. old)))
            (λ _. Ensures-pure _ old)

      any_loop-Held :
          (i : ℕ) (gs : Generators State) (ctx : Context) (best : Best State)
          → AllSteady empty_lists gs
          → Held best
          → Ensures (λ r. LikeAll gs r.1 × Held r.0) (any_loop w call i gs ctx best)
      unfolding any_loop
      any_loop-Held i end ctx best steady h = Ensures-pure _ (same_end, h)
      any_loop-Held i (link g gs) ctx best steady h = Ensures-bind _ _ (lasts g ctx steady.0) λ y l.
          Ensures-bind _ _ (any_round-Held i y best (l.1.0, λ e. (l.1.1 e).0) h) λ best' h'.
            Ensures-bind _ _ (any_loop-Held (suc i) gs ctx best' steady.1 h')
              λ r k. Ensures-pure _ (same_link l.0 k.0, k.1)

      pub any_op-Lasts :
          (gs : Generators State) (ctx : Context)
          → AllSolid empty_lists gs
          → AllSteady empty_lists gs
          → Ensures (Lasts (any gs)) (any_op w call gs ctx)
      unfolding any_op
      any_op-Lasts gs ctx solid steady =
          Ensures-bind _ _ (any_loop-Held 0 gs ctx no_best steady (tt, λ e. absurd (cc e))) λ r k.
            Ensures-if (not_nil (r.0).res_op (r.0).res_gen) _ _
              (λ some_op.
                Ensures-bind {P = LikeAll r.1} _ _
                  (Ensures-or_fault _ (λ copy e. OnSome-apply _ _ copy (copy_vector-Like r.1) e))
                  λ copy l. Ensures-bind _ _ (Ensures-anything _) λ i _. Ensures-pure _ (
                    (
                      put-AllSolid empty_lists copy i _
                          (LikeAll-AllSolid empty_lists l (LikeAll-AllSolid empty_lists k.0 solid))
                          (k.1.1 some_op),
                      put-AllSteady empty_lists copy i _
                          (LikeAll-AllSteady empty_lists l
                            (LikeAll-AllSteady empty_lists k.0 steady))
                          k.1.0,
                    ),
                    λ _. (tt, tt),
                  ))
              (λ _. Ensures-pure _ (nil-Lasts (any gs) (any r.1)))
