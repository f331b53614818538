-- ===== src/Generator/Soonest.antt =====
-- `Any` asks all of its generators and yields the soonest of their operations.
use mathlib.Core.List.{append-nil, append_assoc}
use jepsen_in_cpp.Prelude.{
  ap, ◌||◌, ℕ, suc, true, false, ◌≡◌, refl, sym, subst, ◌⊎◌, inl, inr, arith, done, List, [], ◌∷◌,
  ◌++◌, All, All-imp, In, Bool-cases,
}
use jepsen_in_cpp.Prelude.Int.{◌≤ℤ◌, eqb_ℤ, ltb_ℤ}
use jepsen_in_cpp.Prelude.Hoare.{
  Triple, Triple-pure, Triple-lift, Triple-if, Triple-bind, Triple-at, Triple-ensures,
  Triple-or_fault,
}
use jepsen_in_cpp.Operation.{Operation, is_nil, is_pending, nil_type, of_type}
use jepsen_in_cpp.Context.{Context, World}
use jepsen_in_cpp.Generator.Types.{Generators, any, end, link, Yield, Call, not_nil}
use jepsen_in_cpp.Generator.Op.{
  any_op, any_loop, any_round, soonest_op_map, Soonest, Best, no_best, op,
}
use jepsen_in_cpp.Generator.Best.{asks, Counts, Bound, IsBest, any_round-IsBest}

module _ (w : World) where
  open w use {State, rand}

  -- The yield is of a generator that has ended, or its operation asks for nothing, or `o` asks for
  -- something and is no later.
  abbrev pub Comes : Operation → Yield State → Type 0
  Comes o y =
      (not_nil y.op y.gen ≡ false)
      ⊎ (asks y.op ≡ false)
      ⊎ ((asks o ≡ true) × (o.time ≤ℤ (y.op).time))

  Bound-Comes : (o : Operation) (y : Yield State) → Bound w o y → Comes o y
  Bound-Comes o y b = elim (Bool-cases (not_nil y.op y.gen)) [
    | inl c ↦ elim (Bool-cases (asks y.op)) [ inl a ↦ inr (inr (b c a)) | inr a ↦ inr (inl a) ]
    | inr e ↦ inl e
  ]

  -- Among the yields of all generators, `o` is the soonest operation: it asks for something if any
  -- does, and no later; it is `nil` if all generators have ended, and the operation of one that has
  -- not if there is one.
  pub record IsSoonest (ys : List (Yield State)) (o : Operation) : Type 0 where
    pub least : All (Comes o) ys
    pub among :
        (o ≡ of_type nil_type) × All (λ y. not_nil y.op y.gen ≡ false) ys
        ⊎ ((y : Yield State) × In y ys × Counts w y × (o ≡ y.op))

  -- The state after a draw, if there was one.
  abbrev pub Drew : State → State → Type 0
  Drew t u = (u ≡ t) ⊎ (u ≡ (rand t).1)

  soonest_op_map-Drew :
      (m1 m2 : Soonest) (t : State) → Triple (λ s. s ≡ t) (soonest_op_map w m1 m2) (λ m u. Drew t u)
  unfolding soonest_op_map
  soonest_op_map-Drew m1 m2 t =
      Triple-if (is_nil (m1.op).type || is_pending (m1.op).type) _ _
        (λ _. Triple-pure _ λ s e. inl e)
        λ _.
          Triple-if (is_nil (m2.op).type || is_pending (m2.op).type) _ _
            (λ _. Triple-pure _ λ s e. inl e)
            λ _.
              Triple-if (eqb_ℤ (m1.op).time (m2.op).time) _ _
                (λ _.
                  Triple-bind {Q = λ r u. u ≡ (rand t).1} _ _
                    (Triple-lift _ λ s e. ap (λ x. (rand x).1) e) λ r. Triple-pure _ λ s e. inr e)
                λ _.
                  Triple-if (ltb_ℤ (m1.op).time (m2.op).time) _ _ (λ _. Triple-pure _ λ s e. inl e)
                    (λ _. Triple-pure _ λ s e. inl e)

  any_round-Drew :
      (call : Call State) (i : ℕ) (y : Yield State) (best : Best State) (t : State)
      → Triple (λ s. s ≡ t) (any_round w call i y best) (λ b u. Drew t u)
  unfolding any_round
  any_round-Drew call i y best t =
      Triple-if (not_nil y.op y.gen) _ _
        (λ _. Triple-bind _ _ (soonest_op_map-Drew best.cur _ t) λ cur. Triple-pure _ λ s h. h)
        (λ _. Triple-pure _ λ s e. inl e)

  module _ (call : Call State) (ctx : Context) where
    -- One call on each of the generators, in order, from the state `s` to the state `s'`. After each call
    -- there may be a draw between operations of the same time.
    abbrev pub Called : Generators State → State → List (Yield State) → State → Type 0
    Called end s [] s' = s' ≡ s
    Called end s (y ∷ ys) s' = ⊥
    Called (link g gs) s [] s' = ⊥
    Called (link g gs) s (y ∷ ys) s' =
        (t : State) × (u : State) × (call g ctx s ≡ done (y, t)) × Drew t u × Called gs u ys s'

    any_loop-IsBest :
        (gs : Generators State) (ys : List (Yield State)) (i : ℕ) (best : Best State) (s : State)
        → IsBest w ys i best
        → Triple
            (λ t. t ≡ s)
            (any_loop w call i gs ctx best)
            (λ r s'.
              (zs : List (Yield State)) × Called gs s zs s' × (j : ℕ) × IsBest w (ys ++ zs) j r.0)
    unfolding any_loop
    any_loop-IsBest end ys i best s b =
        Triple-pure _ λ t e. ([], e, i, subst (λ l. IsBest w l i best) (sym (append-nil ys)) b)
    any_loop-IsBest (link g gs) ys i best s b =
        Triple-bind {Q = λ y t. call g ctx s ≡ done (y, t)} _ _
          (record { apply = λ t y t' e k. subst (λ x. call g ctx x ≡ done (y, t')) e k })
          λ y. Triple-at _ λ t called.
            Triple-bind _ _
              (Triple-ensures _ (any_round-IsBest w call ys i y best b)
                (any_round-Drew call i y best t))
              λ best'. Triple-at _ λ u (b', drew).
                Triple-bind _ _ (any_loop-IsBest gs (ys ++ y ∷ []) (suc i) best' u b') λ r.
                  Triple-pure _ λ s' (zs, h, j, k). (
                    y ∷ zs,
                    (t, u, called, drew, h),
                    j,
                    subst (λ l. IsBest w l j r.0) (append_assoc ys (y ∷ []) zs) k,
                  )

    no_best-IsBest : IsBest w [] 0 no_best
    no_best-IsBest = record { same = refl; below = omega arith; least = tt; among = inl (refl, tt) }

    IsBest-IsSoonest :
        (ys : List (Yield State)) (i : ℕ) (best : Best State)
        → IsBest w ys i best
        → IsSoonest ys best.res_op
    IsBest-IsSoonest ys i best b = record {
      least = All-imp ys (Bound-Comes best.res_op) b.least;
      among = elim b.among [ inl h ↦ inl h | inr h ↦ inr (h.0, h.1, h.2, h.3) ];
    }

    IsBest-ended :
        (ys : List (Yield State)) (i : ℕ) (best : Best State)
        → IsBest w ys i best
        → not_nil best.res_op best.res_gen ≡ false
        → best.res_op ≡ of_type nil_type
    IsBest-ended ys i best b ended = elim b.among [
      | inl h ↦ h.0
      | inr h ↦ absurd (counted h.0 h.2 h.3 h.4)
    ]
      where
        counted : (y : Yield State) → Counts w y → best.res_op ≡ y.op → best.res_gen ≡ y.gen → ⊥
        counted y c p q = cc

    any_op-IsSoonest :
        (gs : Generators State) (s : State)
        → Triple
            (λ t. t ≡ s)
            (any_op w call gs ctx)
            (λ z s'. (ys : List (Yield State)) × Called gs s ys s' × IsSoonest ys z.op)
    unfolding any_op
    any_op-IsSoonest gs s = Triple-bind _ _ (any_loop-IsBest gs [] 0 no_best s no_best-IsBest) λ r.
        Triple-at _ λ u (ys, h, j, b).
          Triple-if (not_nil (r.0).res_op (r.0).res_gen) _ _
            (λ _. Triple-bind _ _ (Triple-or_fault _) λ copy.
              Triple-bind _ _ (Triple-or_fault _) λ i.
                Triple-pure _
                  λ t e. (ys, subst (Called gs s ys) (sym e) h, IsBest-IsSoonest ys j r.0 b))
            (λ ended. Triple-pure _ λ t e. (
              ys,
              subst (Called gs s ys) (sym e) h,
              subst (IsSoonest ys) (IsBest-ended ys j r.0 b ended) (IsBest-IsSoonest ys j r.0 b),
            ))

-- `Any` calls `op` on each of its generators once, in order, from the state in which it is called itself
-- to the one in which it returns, and in between only draws between operations of the same time. It
-- yields the soonest operation among those of the generators that have not ended: it is the operation
-- of one of these, or `nil` if all have ended; it asks for something if any of them does, and then no
-- other that asks is earlier.
pub op-IsSoonest :
    (w : World) (fuel : ℕ) (gs : Generators w.State) (ctx : Context) (s s' : w.State)
    (z : Yield w.State)
    → op w (suc fuel) (any gs) ctx s ≡ done (z, s')
    → (ys : List (Yield w.State)) × Called w (op w fuel) ctx gs s ys s' × IsSoonest w ys z.op
unfolding op
op-IsSoonest w fuel gs ctx s s' z e = (any_op-IsSoonest w (op w fuel) ctx gs s).apply s z s' refl e
