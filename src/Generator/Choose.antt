-- ===== src/Generator/Choose.antt =====
-- What lists, mixes and `Any` yield: operations for free threads, from generators that fit.
use jepsen_in_cpp.Prelude.{ℕ, suc, Bool, if◌then◌else◌, ◌&&◌, ◌==◌, ltb, if_ind}
use jepsen_in_cpp.Prelude.Int.{ℤ, pos, eqb_ℤ}
use jepsen_in_cpp.Prelude.Ensures.{
  Ensures, Ensures-pure, Ensures-fault, Ensures-or_fault, Ensures-lift, Ensures-if, Ensures-bind,
}
use jepsen_in_cpp.Operation.{is_nil}
use jepsen_in_cpp.Context.{Context, World}
use jepsen_in_cpp.Context.Ready.{IsRunning, IsServed}
use jepsen_in_cpp.Generator.Types.{
  GeneratorPtr, Generators, null, list, end, link, Yield, Call, at, put, without, pop_front,
  not_nil, is_null, count,
}
use jepsen_in_cpp.Generator.Copy.{copy_list, copy_vector}
use jepsen_in_cpp.Generator.Op.{list_op, mix_of, mix_op, any_op, any_loop, any_round, Best, no_best}
use jepsen_in_cpp.Generator.Fits.{
  Fits, FitsAll, copy_list-Fits, copy_vector-Fits, put-Fits, without-Fits, pop_front-Fits, at-Fits,
}
use jepsen_in_cpp.Generator.Serve.{IsGood, Serves}

module _ (w : World) (n : ℕ) where
  open w use {State, rand}

  module _ (call : Call State)
      (serves : (F : ℤ → Bool) (g : GeneratorPtr State) (ctx : Context)
        → IsRunning n F ctx
        → Fits F g
        → Serves w n F ctx (call g ctx)) where
    list_gen-Fits :
        (F : ℤ → Bool) (copy : Generators State) (g : GeneratorPtr State)
        → FitsAll F copy
        → Fits F g
        → Fits F (if ltb 1 (count copy) then list (put copy 0 g) else g)
    list_gen-Fits F copy g h k =
        if_ind (Fits F) (ltb 1 (count copy)) (list (put copy 0 g)) g (λ _. put-Fits F copy 0 g h k)
          (λ _. k)

    pub list_op-Serves :
        (F : ℤ → Bool) (gs : Generators State) (ctx : Context)
        → IsRunning n F ctx
        → FitsAll F gs
        → Ensures (λ y. IsServed ctx y.op × Fits F y.gen) (list_op w call gs ctx)
    unfolding list_op
    list_op-Serves F end ctx running fits =
        Ensures-bind _ _ (serves F null ctx running tt) λ y h. Ensures-pure _ (h.served, h.gen_Fits)
    list_op-Serves F (link first rest) ctx running fits =
        Ensures-bind _ _ (serves F first ctx running fits.0) λ y h.
          Ensures-bind _ _
            (Ensures-or_fault {P = FitsAll F} (copy_list (link y.self rest))
              (λ copy e. copy_list-Fits F (link y.self rest) copy (h.self_Fits, fits.1) e))
            λ copy k.
              Ensures-if (is_null y.gen && is_nil (y.op).type) _ _
                (λ _.
                  Ensures-bind _ _
                    (serves F (list (pop_front copy)) ctx running (pop_front-Fits F copy k))
                    λ z l. Ensures-pure _ (l.served, l.gen_Fits))
                (λ _. Ensures-pure _ (h.served, list_gen-Fits F copy y.gen k h.gen_Fits))

    mix_of-Fits :
        (F : ℤ → Bool) (gs : Generators State) → FitsAll F gs → Ensures (Fits F) (mix_of w gs)
    unfolding mix_of
    mix_of-Fits F gs h =
        Ensures-bind {P = λ r. Unit {0}} _ _ (Ensures-lift _ (λ s. tt))
          λ r _. Ensures-if (count gs == 0) _ _ (λ _. Ensures-fault) (λ _. Ensures-pure _ h)

    pub mix_op-Serves :
        (F : ℤ → Bool) (i : ℕ) (gs : Generators State) (ctx : Context)
        → IsRunning n F ctx
        → FitsAll F gs
        → Ensures (λ y. IsServed ctx y.op × Fits F y.gen) (mix_op w call i gs ctx)
    unfolding mix_op
    mix_op-Serves F i end ctx running fits = Ensures-pure _ (λ x y. cc, tt)
    mix_op-Serves F i (link g gs) ctx running fits =
        let all : Generators State = link g gs in
        Ensures-bind _ _
          (Ensures-or_fault {P = Fits F} (at all i) (λ a e. at-Fits F all i a fits e))
          λ first e. Ensures-bind _ _ (serves F first ctx running e) λ y h.
            let gens : Generators State = put all i y.self in
            let gens_fit : FitsAll F gens = put-Fits F all i y.self fits h.self_Fits in
            Ensures-if (not_nil y.op y.gen) _ _
              (λ _.
                Ensures-bind _ _
                  (Ensures-or_fault {P = FitsAll F} (copy_vector gens)
                    (λ copy e. copy_vector-Fits F gens copy gens_fit e))
                  λ copy k.
                    Ensures-bind _ _
                      (mix_of-Fits F (put copy i y.gen) (put-Fits F copy i y.gen k h.gen_Fits))
                      λ next l. Ensures-pure _ (h.served, l))
              (λ _.
                Ensures-bind _ _
                  (Ensures-or_fault {P = FitsAll F} (copy_vector (without gens i)) (λ copy e.
                    copy_vector-Fits F (without gens i) copy (without-Fits F gens i gens_fit) e))
                  λ copy k. Ensures-bind _ _ (mix_of-Fits F copy k) λ next l.
                    Ensures-bind _ _ (serves F next ctx running l)
                      λ z m. Ensures-pure _ (m.served, m.gen_Fits))

    -- What the loop of `Any::op` holds.
    abbrev IsGoodBest : (ℤ → Bool) → Context → Best State → Type 0
    IsGoodBest F ctx best = IsServed ctx best.res_op × Fits F best.res_gen

    any_round-Serves :
        (F : ℤ → Bool) (ctx : Context) (i : ℕ) (y : Yield State) (best : Best State)
        → IsGood w n F ctx y
        → IsGoodBest F ctx best
        → Ensures (IsGoodBest F ctx) (any_round w call i y best)
    unfolding any_round
    any_round-Serves F ctx i y best h k =
        Ensures-if (not_nil y.op y.gen) _ _
          (λ _.
            Ensures-bind {P = λ cur. Unit {0}} _ _ (record { apply = λ s a s' e. tt })
              λ cur _. Ensures-pure _ (
                if_ind (IsGoodBest F ctx) (eqb_ℤ cur.index (pos i)) _ _
                  (λ _. (h.served, h.gen_Fits)) (λ _. k)))
          (λ _. Ensures-pure _ k)

    any_loop-Serves :
        (F : ℤ → Bool) (i : ℕ) (gs : Generators State) (ctx : Context) (best : Best State)
        → IsRunning n F ctx
        → FitsAll F gs
        → IsGoodBest F ctx best
        → Ensures (λ r. IsGoodBest F ctx r.0 × FitsAll F r.1) (any_loop w call i gs ctx best)
    unfolding any_loop
    any_loop-Serves F i end ctx best running fits k = Ensures-pure _ (k, tt)
    any_loop-Serves F i (link g gs) ctx best running fits k =
        Ensures-bind _ _ (serves F g ctx running fits.0) λ y h.
          Ensures-bind _ _ (any_round-Serves F ctx i y best h k) λ best' k'.
            Ensures-bind _ _ (any_loop-Serves F (suc i) gs ctx best' running fits.1 k')
              λ r l. Ensures-pure _ (l.0, (h.self_Fits, l.1))

    pub any_op-Serves :
        (F : ℤ → Bool) (gs : Generators State) (ctx : Context)
        → IsRunning n F ctx
        → FitsAll F gs
        → Ensures (λ y. IsServed ctx y.op × Fits F y.gen) (any_op w call gs ctx)
    unfolding any_op
    any_op-Serves F gs ctx running fits =
        Ensures-bind _ _ (any_loop-Serves F 0 gs ctx no_best running fits (λ x y. cc, tt)) λ r k.
          Ensures-if (not_nil (r.0).res_op (r.0).res_gen) _ _
            (λ _.
              Ensures-bind _ _
                (Ensures-or_fault {P = FitsAll F} (copy_vector r.1)
                  (λ copy e. copy_vector-Fits F r.1 copy k.1 e))
                λ copy l.
                  Ensures-bind {P = λ i. Unit {0}} _ _ (record { apply = λ s a s' e. tt })
                    λ i _. Ensures-pure _ (k.0.0, put-Fits F copy i (r.0).res_gen l k.0.1))
            (λ _. Ensures-pure _ (λ x y. cc, tt))
