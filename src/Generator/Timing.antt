-- ===== src/Generator/Timing.antt =====
-- The times that `TimeLimit` and `Stagger` keep.
use mathlib.Core.Option
use jepsen_in_cpp.Prelude.{
  ℕ, zero, suc, false, if◌then◌else◌, ◌≡◌, refl, sym, subst, ◌≢◌, arith, done, some, List, [], ◌∷◌,
  All,
}
use jepsen_in_cpp.Prelude.Int.{ℤ, eqb_ℤ, eqb_ℤ_iff, ltb_ℤ, ltb_ℤ_iff, ◌+ℤ◌, ◌<ℤ◌}
use jepsen_in_cpp.Prelude.Ensures.{Ensures, Ensures-pure, Ensures-if, Ensures-bind}
use jepsen_in_cpp.Operation.{Operation, is_nil, is_pending, invalid_time}
use jepsen_in_cpp.Context.{Context, World}
use jepsen_in_cpp.Generator.Types.{GeneratorPtr, time_limit, Yield, Call, not_nil, new_time_limit}
use jepsen_in_cpp.Generator.Op.{op, time_limit_op}
use jepsen_in_cpp.Generator.Update.{update}

-- The operation asks for something: it is neither `nil` nor `pending`.
abbrev pub Asks : Operation → Type 0
Asks o = (is_nil o.type ≡ false) × (is_pending o.type ≡ false)

-- A time limit whose cutoff is `c`.
abbrev Cuts : {S : Type 0} → ℤ → GeneratorPtr S → Type 0
Cuts {S} c g = (limit : ℤ) × (inner : GeneratorPtr S) × (g ≡ time_limit limit c inner)

update-Cuts :
    {S : Type 0} (c : ℤ) (g next : GeneratorPtr S) (ctx : Context) (event : Operation)
    → Cuts c g
    → update g ctx event ≡ some next
    → Cuts c next
unfolding update
update-Cuts c g next ctx event (limit, inner, is) e =
    let (u, _, made) =
      (Option.map-eq-some_iff (time_limit limit c) (update inner ctx event)).0 (rw is at e) in
    (limit, u, sym made)

module _ (w : World) where
  open w use {State, rand}

  -- A call of `op` on a time limit with its cutoff set.
  record IsCut (c : ℤ) (y : Yield State) : Type 0 where
    before : Asks y.op → (y.op).time <ℤ c
    gen_Cuts : Asks y.op → Cuts c y.gen
    self_Cuts : Cuts c y.self

  module _ (call : Call State) where
    time_limit_op-IsCut :
        (limit c : ℤ) (g : GeneratorPtr State) (ctx : Context)
        → c ≢ invalid_time
        → Ensures (IsCut c) (time_limit_op w call limit c g ctx)
    unfolding time_limit_op
    time_limit_op-IsCut limit c g ctx set =
        Ensures-bind {P = λ a. Unit {0}} _ _ (record { apply = λ s a s' e. tt })
          λ y _.
            let same : (if eqb_ℤ c invalid_time then (y.op).time +ℤ limit else c) ≡ c =
              ground (arith, eqb_ℤ_iff c invalid_time) in
            rw same (
              Ensures-if (not_nil y.op y.gen) _ _
                (λ e.
                  Ensures-if (is_pending (y.op).type) _ _
                    (λ k. Ensures-pure _ (record {
                      before = λ a. cc;
                      gen_Cuts = λ a. cc;
                      self_Cuts = (limit, y.self, refl);
                    }))
                    (λ k.
                      Ensures-if (ltb_ℤ (y.op).time c) _ _
                        (λ l. Ensures-pure _ (record {
                          before = λ a. (ltb_ℤ_iff _ c).0 l;
                          gen_Cuts = λ a. (limit, y.gen, refl);
                          self_Cuts = (limit, y.self, refl);
                        }))
                        (λ l. Ensures-pure _ (record {
                          before = λ a. cc;
                          gen_Cuts = λ a. cc;
                          self_Cuts = (limit, y.self, refl);
                        }))))
                (λ e. Ensures-pure _ (record {
                  before = λ a. cc;
                  gen_Cuts = λ a. cc;
                  self_Cuts = (limit, y.self, refl);
                })))

    -- A call of `op` on a time limit whose cutoff is not set yet sets it by what it yields.
    time_limit_op-sets :
        (limit : ℤ) (g : GeneratorPtr State) (ctx : Context)
        → Ensures
            (λ y.
              Asks y.op → Cuts ((y.op).time +ℤ limit) y.gen × Cuts ((y.op).time +ℤ limit) y.self)
            (time_limit_op w call limit invalid_time g ctx)
    unfolding time_limit_op
    time_limit_op-sets limit g ctx =
        Ensures-bind {P = λ a. Unit {0}} _ _ (record { apply = λ s a s' e. tt })
          λ y _.
            let cutoff : ℤ = (y.op).time +ℤ limit in
            Ensures-if (not_nil y.op y.gen) _ _
              (λ e.
                Ensures-if (is_pending (y.op).type) _ _ (λ k. Ensures-pure _ (λ a. cc))
                  (λ k.
                    Ensures-if (ltb_ℤ (y.op).time cutoff) _ _
                      (λ l. Ensures-pure _ (λ a. ((limit, y.gen, refl), (limit, y.self, refl))))
                      (λ l. Ensures-pure _ (λ a. cc))))
              (λ e. Ensures-pure _ (λ a. cc))

  -- What the runner does with a generator, and the operations that it takes from it: it calls `op`
  -- and drops or takes what is yielded, and it tells the generator of events.
  pub data Uses (fuel : ℕ) : GeneratorPtr State → List Operation → Type 0 where
    unused : (g : GeneratorPtr State) → Uses fuel g []
    dropped :
        {g : GeneratorPtr State} {os : List Operation} (ctx : Context) (s s' : State)
        (y : Yield State)
        → op w fuel g ctx s ≡ done (y, s')
        → Uses fuel y.self os
        → Uses fuel g os
    taken :
        {g : GeneratorPtr State} {os : List Operation} (ctx after : Context) (s s' : State)
        (y : Yield State) (next : GeneratorPtr State)
        → op w fuel g ctx s ≡ done (y, s')
        → Asks y.op
        → update y.gen after y.op ≡ some next
        → Uses fuel next os
        → Uses fuel g (y.op ∷ os)
    told :
        {g : GeneratorPtr State} {os : List Operation} (ctx : Context) (event : Operation)
        (next : GeneratorPtr State)
        → update g ctx event ≡ some next
        → Uses fuel next os
        → Uses fuel g os

  op-IsCut :
      (fuel : ℕ) (c : ℤ) (g : GeneratorPtr State) (ctx : Context)
      → c ≢ invalid_time
      → Cuts c g
      → Ensures (IsCut c) (op w fuel g ctx)
  unfolding op
  op-IsCut zero c g ctx set cuts = record { apply = λ s a s' e. cc }
  op-IsCut (suc fuel) c g ctx set (limit, inner, is) =
      subst (λ h. Ensures (IsCut c) (op w (suc fuel) h ctx)) (sym is)
        (time_limit_op-IsCut (op w fuel) limit c inner ctx set)

  -- All operations that are taken from a time limit come before its cutoff, once that is set.
  Uses-before_cutoff :
      (fuel : ℕ) (c : ℤ) {g : GeneratorPtr State} {os : List Operation}
      → c ≢ invalid_time
      → Cuts c g
      → Uses fuel g os
      → All (λ o. o.time <ℤ c) os
  Uses-before_cutoff fuel c set cuts (unused g) = tt
  Uses-before_cutoff fuel c {g = g} set cuts (dropped ctx s s' y e rest) =
      let cut : IsCut c y = (op-IsCut fuel c g ctx set cuts).apply s y s' e in
      Uses-before_cutoff fuel c set cut.self_Cuts rest
  Uses-before_cutoff fuel c {g = g} set cuts (taken ctx after s s' y next e asks told_e rest) =
      let cut : IsCut c y = (op-IsCut fuel c g ctx set cuts).apply s y s' e in
      (
        cut.before asks,
        Uses-before_cutoff fuel c set
            (update-Cuts c y.gen next after y.op (cut.gen_Cuts asks) told_e) rest,
      )
  Uses-before_cutoff fuel c {g = g} set cuts (told ctx event next e rest) =
      Uses-before_cutoff fuel c set (update-Cuts c g next ctx event cuts e) rest

  op-sets :
      (fuel : ℕ) (limit : ℤ) (g : GeneratorPtr State) (ctx : Context)
      → Ensures
          (λ y. Asks y.op → Cuts ((y.op).time +ℤ limit) y.gen × Cuts ((y.op).time +ℤ limit) y.self)
          (op w fuel (new_time_limit limit g) ctx)
  unfolding op
  op-sets zero limit g ctx = record { apply = λ s a s' e. cc }
  op-sets (suc fuel) limit g ctx = time_limit_op-sets (op w fuel) limit g ctx

  -- The operations that are taken after a yield, whether that one is taken or dropped.
  pub data UsesAfter (fuel : ℕ) (y : Yield State) (os : List Operation) : Type 0 where
    dropped_first : Uses fuel y.self os → UsesAfter fuel y os
    taken_first :
        (after : Context) (next : GeneratorPtr State)
        → update y.gen after y.op ≡ some next
        → Uses fuel next os
        → UsesAfter fuel y os

  -- The first operation that a new time limit yields, neither `nil` nor `pending`, fixes the end of
  -- its window at `limit` after that operation's time. All operations that are taken from it later
  -- come before that end, whether the first one is taken or dropped. The premise on the sum holds
  -- unless it is the mark for a cutoff that is not set.
  pub time_limit_window :
      (fuel : ℕ) (limit : ℤ) (g : GeneratorPtr State) (ctx : Context) (s s' : State)
      (y : Yield State) (os : List Operation)
      → op w fuel (new_time_limit limit g) ctx s ≡ done (y, s')
      → Asks y.op
      → (y.op).time +ℤ limit ≢ invalid_time
      → UsesAfter fuel y os
      → All (λ o. o.time <ℤ (y.op).time +ℤ limit) os
  time_limit_window fuel limit g ctx s s' y os e asks set (dropped_first uses) =
      Uses-before_cutoff fuel _ set ((op-sets fuel limit g ctx).apply s y s' e asks).1 uses
  time_limit_window fuel limit g ctx s s' y os e asks set (taken_first after next told_e uses) =
      Uses-before_cutoff fuel _ set
        (update-Cuts _ y.gen next after y.op ((op-sets fuel limit g ctx).apply s y s' e asks).0
          told_e)
        uses
