-- ===== src/Generator/Returning.antt =====
-- What each class needs of the calls below it to return.
use jepsen_in_cpp.Prelude.{
  ℕ, suc, ◌≤◌, ◌==◌, ==_iff, Bool, false, if◌then◌else◌, ◌&&◌, ◌||◌, ◌≡◌, ◌≢◌, refl, sym, subst,
  ◌⊎◌, inl, inr, M, arith, if_ind,
}
use jepsen_in_cpp.Prelude.Int.{ℤ, pos, eqb_ℤ, ltb_ℤ, ◌+ℤ◌}
use jepsen_in_cpp.Prelude.Total.{
  Total, Total-pure, Total-or_fault, Total-lift, Total-if, Total-bind,
}
use jepsen_in_cpp.Operation.{Operation, is_nil, is_pending, invalid_time}
use jepsen_in_cpp.Context.{Context, World, on_threads_context}
use jepsen_in_cpp.Context.Staffed.{
  IsStaffed, IsStaffed-on_threads, DrawsInRange, random_free_process-Total,
}
use jepsen_in_cpp.Generator.Types.{
  GeneratorPtr, Generators, null, operation, list, end, link, Yield, Call, pop_front, not_nil,
  is_null,
}
use jepsen_in_cpp.Generator.Op.{
  operation_op, list_op, validate_op, on_threads_op, time_limit_op, stagger_op, any_op, any_loop,
  any_round, fill_in_operation, fill_in, Best, no_best, soonest_op_map, Soonest,
}
use jepsen_in_cpp.Generator.Like.{Like, LikeAll, same_operation, same_end, same_link}
use jepsen_in_cpp.Generator.Steady.{
  IsSteady, AllSteady, AllSolid, rank, rank_all, rank-pos, Like-IsSteady, LikeAll-AllSteady,
  LikeAll-AllSolid, copy_list-IsSome, copy_vector-IsSome,
}
use jepsen_in_cpp.Generator.Parts.{popped-AllSteady, copied-Like, popped-rank}

module _ (w : World) (fair : DrawsInRange w) (empty_lists : Bool) where
  open w use {State, rand}

  abbrev Returns : {A : Type 0} → M State A → Type 0
  Returns m = Total (λ a. Unit {0}) m

  fill_in_operation-Returns :
      (ctx : Context) (o : Operation) → IsStaffed ctx → Returns (fill_in_operation w ctx o)
  unfolding fill_in_operation
  fill_in_operation-Returns ctx o staffed =
      Total-bind _ _ (random_free_process-Total w ctx fair staffed) λ p _. Total-pure _ tt

  pub operation_op-Returns :
      (o : Operation) (ctx : Context) → IsStaffed ctx → Returns (operation_op w o ctx)
  unfolding operation_op
  operation_op-Returns o ctx staffed =
      Total-bind _ _ (fill_in_operation-Returns ctx o staffed) λ r _. Total-pure _ tt

  soonest_op_map-Returns : (m1 m2 : Soonest) → Returns (soonest_op_map w m1 m2)
  unfolding soonest_op_map
  soonest_op_map-Returns m1 m2 =
      Total-if (is_nil (m1.op).type || is_pending (m1.op).type) _ _ (λ _. Total-pure _ tt)
        λ _.
          Total-if (is_nil (m2.op).type || is_pending (m2.op).type) _ _ (λ _. Total-pure _ tt)
            λ _.
              Total-if (eqb_ℤ (m1.op).time (m2.op).time) _ _
                (λ _.
                  Total-bind {P = λ r. Unit {0}} _ _ (Total-lift _ (λ s. tt))
                    λ r _. Total-pure _ tt)
                λ _.
                  Total-if (ltb_ℤ (m1.op).time (m2.op).time) _ _ (λ _. Total-pure _ tt)
                    (λ _. Total-pure _ tt)

  module _ (call : Call State) (fuel : ℕ)
      (returns : (g : GeneratorPtr State) (ctx : Context)
        → rank g ≤ fuel
        → IsSteady empty_lists g
        → IsStaffed ctx
        → Total (λ y. Like g y.self) (call g ctx)) where
    pub validate_op-Returns :
        (g : GeneratorPtr State) (ctx : Context)
        → rank g ≤ fuel
        → IsSteady empty_lists g
        → IsStaffed ctx
        → Returns (validate_op w call g ctx)
    unfolding validate_op
    validate_op-Returns g ctx le steady staffed =
        Total-bind _ _ (returns g ctx le steady staffed) λ y _. Total-pure _ tt

    pub on_threads_op-Returns :
        (g : GeneratorPtr State) (filter : ℤ → Bool) (ctx : Context)
        → rank g ≤ fuel
        → IsSteady empty_lists g
        → IsStaffed ctx
        → Returns (on_threads_op w call g filter ctx)
    unfolding on_threads_op
    on_threads_op-Returns g filter ctx le steady staffed =
        Total-bind _ _
          (returns g (on_threads_context filter ctx) le steady
            (IsStaffed-on_threads filter ctx staffed))
          λ y _. Total-if (not_nil y.op y.gen) _ _ (λ _. Total-pure _ tt) (λ _. Total-pure _ tt)

    pub time_limit_op-Returns :
        (limit cutoff : ℤ) (g : GeneratorPtr State) (ctx : Context)
        → rank g ≤ fuel
        → IsSteady empty_lists g
        → IsStaffed ctx
        → Returns (time_limit_op w call limit cutoff g ctx)
    unfolding time_limit_op
    time_limit_op-Returns limit cutoff g ctx le steady staffed =
        Total-bind _ _ (returns g ctx le steady staffed) λ y _.
          Total-if (not_nil y.op y.gen) _ _
            (λ _.
              Total-if (is_pending (y.op).type) _ _ (λ _. Total-pure _ tt)
                λ _.
                  Total-if
                    (ltb_ℤ (y.op).time
                      (if eqb_ℤ cutoff invalid_time then (y.op).time +ℤ limit else cutoff))
                    _ _ (λ _. Total-pure _ tt) (λ _. Total-pure _ tt))
            (λ _. Total-pure _ tt)

    pub stagger_op-Returns :
        (dt : ℕ) (next : ℤ) (g : GeneratorPtr State) (ctx : Context)
        → rank g ≤ fuel
        → dt ≢ 0
        → IsSteady empty_lists g
        → IsStaffed ctx
        → Returns (stagger_op w call dt next g ctx)
    unfolding stagger_op
    stagger_op-Returns dt next g ctx le some_interval steady staffed =
        Total-bind _ _ (returns g ctx le steady staffed) λ y _.
          Total-if (not_nil y.op y.gen) _ _
            (λ _.
              Total-if (is_pending (y.op).type) _ _ (λ _. Total-pure _ tt)
                λ _. Total-bind {P = λ r. Unit {0}} _ _ (Total-lift _ (λ s. tt)) λ r _.
                  Total-if (dt == 0) _ _ (λ e. absurd (some_interval ((==_iff dt 0).0 e)))
                    (λ _. Total-pure _ tt))
            (λ _. Total-pure _ tt)

    pub list_op-Returns :
        (gs : Generators State) (ctx : Context)
        → rank_all gs ≤ fuel
        → AllSteady empty_lists gs
        → IsStaffed ctx
        → Returns (list_op w call gs ctx)
    unfolding list_op
    list_op-Returns end ctx le steady staffed =
        Total-bind _ _ (returns null ctx le tt staffed) λ y _. Total-pure _ tt
    list_op-Returns (link first rest) ctx le steady staffed =
        Total-bind _ _ (returns first ctx (omega arith) steady.0 staffed) λ y l.
          let left = Like-IsSteady empty_lists l steady.0 in
          let (c, e) = copy_list-IsSome empty_lists (link y.self rest) (left, steady.1) in
          let alike = copied-Like (link y.self rest) c e in
          Total-bind {P = LikeAll (link y.self rest)} _ _ (Total-or_fault _ c e alike) λ copy k.
            Total-if (is_null y.gen && is_nil (y.op).type) _ _
              (λ _.
                Total-bind _ _
                  (returns (list (pop_front copy)) ctx
                    (omega (arith, popped-rank k, rank-pos first))
                    (popped-AllSteady empty_lists copy
                      (LikeAll-AllSteady empty_lists k (left, steady.1)))
                    staffed)
                  λ z _. Total-pure _ tt)
              (λ _. Total-pure _ tt)

    -- The result of the loop of `Any::op` has an index, if there is a result.
    abbrev IsIndexed : Best State → Type 0
    IsIndexed best = (not_nil best.res_op best.res_gen ≡ false) ⊎ ((k : ℕ) × (best.res_idx ≡ pos k))

    any_round-Returns :
        (i : ℕ) (y : Yield State) (best : Best State)
        → IsIndexed best
        → Total IsIndexed (any_round w call i y best)
    unfolding any_round
    any_round-Returns i y best h =
        Total-if (not_nil y.op y.gen) _ _
          (λ _.
            Total-bind _ _
              (soonest_op_map-Returns best.cur (record { op = y.op; weight = 1; index = pos i }))
              λ cur _.
                Total-pure _
                  (if_ind IsIndexed (eqb_ℤ cur.index (pos i)) _ _ (λ _. inr (i, refl)) (λ _. h)))
          (λ _. Total-pure _ h)

    any_loop-Returns :
        (i : ℕ) (gs : Generators State) (ctx : Context) (best : Best State)
        → rank_all gs ≤ fuel
        → AllSteady empty_lists gs
        → IsStaffed ctx
        → IsIndexed best
        → Total (λ r. LikeAll gs r.1 × IsIndexed r.0) (any_loop w call i gs ctx best)
    unfolding any_loop
    any_loop-Returns i end ctx best le steady staffed h = Total-pure _ (same_end, h)
    any_loop-Returns i (link g gs) ctx best le steady staffed h =
        Total-bind _ _ (returns g ctx (omega arith) steady.0 staffed) λ y l.
          Total-bind _ _ (any_round-Returns i y best h) λ best' h'.
            Total-bind _ _
              (any_loop-Returns (suc i) gs ctx best' (omega (arith, rank-pos g)) steady.1 staffed
                h')
              λ r k. Total-pure _ (same_link l k.0, k.1)

    pub any_op-Returns :
        (gs : Generators State) (ctx : Context)
        → rank_all gs ≤ fuel
        → AllSolid empty_lists gs
        → AllSteady empty_lists gs
        → IsStaffed ctx
        → Returns (any_op w call gs ctx)
    unfolding any_op
    any_op-Returns gs ctx le solid steady staffed =
        Total-bind _ _ (any_loop-Returns 0 gs ctx no_best le steady staffed (inl refl)) λ r k.
          Total-if (not_nil (r.0).res_op (r.0).res_gen) _ _
            (λ some_result.
              let (c, e) =
                copy_vector-IsSome empty_lists r.1 (LikeAll-AllSolid empty_lists k.0 solid)
                  (LikeAll-AllSteady empty_lists k.0 steady) in
              Total-bind {P = λ copy. Unit {0}} _ _ (Total-or_fault _ c e tt) λ copy _. elim k.1 [
                | inl no_result ↦ cc (some_result, no_result)
                | inr (i, at) ↦
                    Total-bind {P = λ i. Unit {0}} _ _ (Total-or_fault _ i (rw at refl) tt)
                      λ _ _. Total-pure _ tt
              ])
            (λ _. Total-pure _ tt)

  fill_in-ne-nil :
      (p now : ℤ) (o : Operation) → is_nil o.type ≡ false → is_nil (fill_in p now o).type ≡ false
  unfolding fill_in
  fill_in-ne-nil p now o h = ground arith

  -- An operation that asks for something is yielded at once from the front of a list.
  module _ (call : Call State) (o : Operation) (rest : Generators State)
      (asked : is_nil o.type ≡ false) (steady : AllSteady empty_lists rest) (ctx : Context)
      (staffed : IsStaffed ctx) (calls : call (operation o) ctx ≡ operation_op w o ctx) where
    abbrev Asked : Yield State → Type 0
    Asked y = (is_nil (y.op).type ≡ false) × Like (operation o) y.self

    operation_op-asks : Total Asked (operation_op w o ctx)
    unfolding operation_op fill_in_operation
    operation_op-asks =
        Total-bind {P = λ r. is_nil r.type ≡ false} _ _
          (Total-bind _ _ (random_free_process-Total w ctx fair staffed)
            λ p _. Total-pure _ (fill_in-ne-nil p ctx.time o asked))
          λ r h. Total-pure _ (h, same_operation o)

    pub list_op-first : Returns (list_op w call (link (operation o) rest) ctx)
    unfolding list_op
    list_op-first = Total-bind _ _ (subst (λ m. Total Asked m) (sym calls) operation_op-asks) λ y l.
        let (c, e) =
          copy_list-IsSome empty_lists (link y.self rest)
            (Like-IsSteady empty_lists l.1 tt, steady) in
        Total-bind {P = λ copy. Unit {0}} _ _ (Total-or_fault _ c e tt) λ copy _.
          Total-if (is_null y.gen && is_nil (y.op).type) _ _
            (λ ended. absurd (ground (arith, l.0, ended))) (λ _. Total-pure _ tt)
