-- ===== src/Generator/Best.antt =====
-- The loop of `Any::op` keeps the soonest of the operations that it has seen.
use jepsen_in_cpp.Prelude.{
  ℕ, suc, Bool, true, false, if◌then◌else◌, ◌||◌, ◌≡◌, refl, subst, ◌≢◌, ◌⊎◌, inl, inr, arith, List,
  [], ◌∷◌, ◌++◌, All, All-append, All-imp, In, In-append_left, In-append_right, ◌∙◌,
}
use jepsen_in_cpp.Prelude.Int.{pos, eqb_ℤ, eqb_ℤ_iff, ltb_ℤ, ◌<ℤ◌, ◌≤ℤ◌}
use jepsen_in_cpp.Prelude.Ensures.{Ensures, Ensures-pure, Ensures-lift, Ensures-if, Ensures-bind}
use jepsen_in_cpp.Operation.{Operation, is_nil, is_pending, nil_type, of_type}
use jepsen_in_cpp.Context.{World}
use jepsen_in_cpp.Generator.Types.{Yield, Call, not_nil}
use jepsen_in_cpp.Generator.Op.{any_round, soonest_op_map, by_weight, Soonest, Best}

abbrev pub asks : Operation → Bool
asks o = if is_nil o.type then false else if is_pending o.type then false else true

abbrev Same : Soonest → Soonest → Type 0
Same m n = (m.op ≡ n.op) × (m.index ≡ n.index)

-- `soonestOpMap` keeps one of the two: the one that asks for something, or the earlier of two that do.
record IsSooner (m1 m2 m : Soonest) : Type 0 where
  chosen : Same m m1 × (asks m1.op ≡ true) ⊎ Same m m2
  first : asks m1.op ≡ true → (asks m.op ≡ true) × ((m.op).time ≤ℤ (m1.op).time)
  second : asks m2.op ≡ true → (asks m.op ≡ true) × ((m.op).time ≤ℤ (m2.op).time)

by_weight-Same :
    (m1 m2 : Soonest) (r : ℕ) → Same (by_weight m1 m2 r) m1 ⊎ Same (by_weight m1 m2 r) m2
unfolding by_weight
by_weight-Same m1 m2 r = ground arith

module _ (w : World) where
  open w use {State, rand}

  soonest_op_map-IsSooner : (m1 m2 : Soonest) → Ensures (IsSooner m1 m2) (soonest_op_map w m1 m2)
  unfolding soonest_op_map
  soonest_op_map-IsSooner m1 m2 =
      Ensures-if (is_nil (m1.op).type || is_pending (m1.op).type) _ _
        (λ e. Ensures-pure _ (ground arith))
        λ e.
          Ensures-if (is_nil (m2.op).type || is_pending (m2.op).type) _ _
            (λ f. Ensures-pure _ (ground arith))
            λ f.
              Ensures-if (eqb_ℤ (m1.op).time (m2.op).time) _ _
                (λ g. Ensures-bind {P = λ r. Unit {0}} _ _ (Ensures-lift _ (λ s. tt)) λ r _.
                  Ensures-pure _
                    (ground (arith, eqb_ℤ_iff (m1.op).time (m2.op).time, by_weight-Same m1 m2 r)))
                λ g.
                  Ensures-if (ltb_ℤ (m1.op).time (m2.op).time) _ _
                    (λ h. Ensures-pure _ (ground arith)) (λ h. Ensures-pure _ (ground arith))

  -- The yield counts: its generator has not ended.
  abbrev pub Counts : Yield State → Type 0
  Counts y = not_nil y.op y.gen ≡ true

  -- The loop of `Any::op` has seen the yields `ys` of the generators below the index `i`.
  pub record IsBest (ys : List (Yield State)) (i : ℕ) (best : Best State) : Type 0 where
    pub same : (best.cur).op ≡ best.res_op
    pub below : (best.cur).index <ℤ pos i
    pub least :
        All
          (λ y.
            Counts y
            → asks y.op ≡ true
            → (asks best.res_op ≡ true) × ((best.res_op).time ≤ℤ (y.op).time))
          ys
    pub among :
        (best.res_op ≡ of_type nil_type) × All (λ y. not_nil y.op y.gen ≡ false) ys
        ⊎ ((y : Yield State) × In y ys × Counts y × (best.res_op ≡ y.op) × (best.res_gen ≡ y.gen))

  abbrev pub Bound : Operation → Yield State → Type 0
  Bound o y = Counts y → asks y.op ≡ true → (asks o ≡ true) × (o.time ≤ℤ (y.op).time)

  -- The rest of a round in which the yield counts, `m` being the soonest of the two.
  abbrev choose : ℕ → Yield State → Best State → Soonest → Best State
  choose i y best cur =
      if eqb_ℤ cur.index (pos i)
      then record { cur = cur; res_op = y.op; res_gen = y.gen; res_idx = pos i }
      else record best { cur = cur }

  -- `n` asks whenever `o` does, and no later.
  abbrev Precedes : Operation → Operation → Type 0
  Precedes n o = asks o ≡ true → (asks n ≡ true) × (n.time ≤ℤ o.time)

  Bound-Precedes : (o n : Operation) (x : Yield State) → Precedes n o → Bound o x → Bound n x
  Bound-Precedes o n x f k c a = let (p, q) = k c a in let (u, v) = f p in (u, omega arith)

  asks-not_nil : (o : Operation) → asks o ≡ true → o ≢ of_type nil_type
  asks-not_nil o a e = cc (subst (λ (x : Operation). asks x ≡ true) e a)

  module _ (ys : List (Yield State)) (i : ℕ) (y : Yield State) (best : Best State) (cur : Soonest)
      (b : IsBest ys i best) (counts : Counts y)
      (sooner : IsSooner best.cur (record { op = y.op; weight = 1; index = pos i }) cur) where
    kept :
        Same cur best.cur
        → asks (best.cur).op ≡ true
        → IsBest (ys ++ y ∷ []) (suc i) (record best { cur = cur })
    kept same asked = record {
      same = is;
      below = rw same.1 (omega (arith, b.below));
      least = All-append (Bound best.res_op) ys (y ∷ []) b.least (
        (λ c a.
            subst (λ (o : Operation). (asks o ≡ true) × (o.time ≤ℤ (y.op).time)) is
              (sooner.second a)),
        tt,
      );
      among = elim b.among [
        | inl h ↦
            absurd
              (asks-not_nil best.res_op (subst (λ (o : Operation). asks o ≡ true) b.same asked) h.0)
        | inr h ↦ inr (h.0, In-append_left h.0 ys (y ∷ []) h.1, h.2, h.3, h.4)
      ];
    }
      where
        is : cur.op ≡ best.res_op
        is = same.0 ∙ b.same

    replaced :
        Same cur (record { op = y.op; weight = 1; index = pos i })
        → IsBest
            (ys ++ y ∷ [])
            (suc i)
            (record { cur = cur; res_op = y.op; res_gen = y.gen; res_idx = pos i })
    replaced same = record {
      same = same.0;
      below = rw same.1 (omega arith);
      least =
          All-append (Bound y.op) ys (y ∷ [])
            (All-imp ys (λ x. Bound-Precedes best.res_op y.op x precedes) b.least)
            ((λ c a. (a, omega arith)), tt);
      among = inr (y, In-append_right y ys (y ∷ []) (inl refl), counts, refl, refl);
    }
      where
        precedes : Precedes y.op best.res_op
        precedes =
            subst (λ (o : Operation). Precedes y.op o) b.same
              (subst (λ (n : Operation). Precedes n (best.cur).op) same.0 sooner.first)

    choose-IsBest : IsBest (ys ++ y ∷ []) (suc i) (choose i y best cur)
    choose-IsBest = elim sooner.chosen [
      | inl h ↦ rw (old h.0) (kept h.0 h.1)
      | inr h ↦ rw (new h) (replaced h)
    ]
      where
        old : Same cur best.cur → eqb_ℤ cur.index (pos i) ≡ false
        old same = ground (arith, b.below, eqb_ℤ_iff cur.index (pos i))

        new :
            Same cur (record { op = y.op; weight = 1; index = pos i })
            → eqb_ℤ cur.index (pos i) ≡ true
        new same = (eqb_ℤ_iff cur.index (pos i)).1 same.1

  not_counted :
      (ys : List (Yield State)) (i : ℕ) (y : Yield State) (best : Best State)
      → IsBest ys i best
      → not_nil y.op y.gen ≡ false
      → IsBest (ys ++ y ∷ []) (suc i) best
  not_counted ys i y best b ended = record {
    same = b.same;
    below = omega (arith, b.below);
    least = All-append (Bound best.res_op) ys (y ∷ []) b.least ((λ c a. cc), tt);
    among = elim b.among [
      | inl h ↦ inl (h.0, All-append (λ x. not_nil x.op x.gen ≡ false) ys (y ∷ []) h.1 (ended, tt))
      | inr h ↦ inr (h.0, In-append_left h.0 ys (y ∷ []) h.1, h.2, h.3, h.4)
    ];
  }

  pub any_round-IsBest :
      (call : Call State) (ys : List (Yield State)) (i : ℕ) (y : Yield State) (best : Best State)
      → IsBest ys i best
      → Ensures (IsBest (ys ++ y ∷ []) (suc i)) (any_round w call i y best)
  unfolding any_round
  any_round-IsBest call ys i y best b =
      Ensures-if (not_nil y.op y.gen) _ _
        (λ counts.
          Ensures-bind _ _
            (soonest_op_map-IsSooner best.cur (record { op = y.op; weight = 1; index = pos i }))
            λ cur sooner. Ensures-pure _ (choose-IsBest ys i y best cur b counts sooner))
        (λ ended. Ensures-pure _ (not_counted ys i y best b ended))
