-- ===== src/Generator/Sequence.antt =====
-- Lists of operations as `createGenerator` makes them: what `op` yields of them, one call after the other.
use mathlib.Core.Option
use jepsen_in_cpp.Prelude.{
  ℕ, zero, suc, ◌≤◌, ltb, true, false, if◌then◌else◌, ◌&&◌, Option, none, some, List, [], ◌∷◌, ◌≡◌,
  refl, sym, ◌∙◌, ap, subst, ◌⊎◌, inl, inr, arith, done, if_ind, All, Option-cases,
}
use jepsen_in_cpp.Prelude.Int.{ℤ}
use jepsen_in_cpp.Prelude.Ensures.{
  Ensures, Ensures-pure, Ensures-or_fault, Ensures-if, Ensures-bind, Ensures-anything,
}
use jepsen_in_cpp.Operation.{Operation, is_nil, is_pending, nil_type}
use jepsen_in_cpp.Context.{Context, World}
use jepsen_in_cpp.Context.Staffed.{IsStaffed, DrawsInRange}
use jepsen_in_cpp.Generator.Steady.{IsSteady, AllSteady, rank}
use jepsen_in_cpp.Generator.Totality.{op-returns}
use jepsen_in_cpp.Generator.Types.{
  GeneratorPtr, Generators, null, operation, list, end, link, Yield, nil, is_null, count, put,
  pop_front, of_operations,
}
use jepsen_in_cpp.Generator.Copy.{copy_list, copy_one}
use jepsen_in_cpp.Generator.Op.{op, operation_op, list_op, fill_in_operation, fill_in}

module _ {S : Type 0} where
  -- The operations that are left in a list whose elements are operations or used up.
  abbrev left_in : Generators S → Option (List Operation)
  left_in end = some []
  left_in (link null gs) = left_in gs
  left_in (link (operation o) gs) = Option.map (λ os. o ∷ os) (left_in gs)
  left_in _ = none

  -- The operations that a generator has left, where it is such a list, an operation or used up.
  abbrev pub left : GeneratorPtr S → Option (List Operation)
  left null = some []
  left (operation o) = some (o ∷ [])
  left (list gs) = left_in gs
  left _ = none

  copy_list-left :
      (gs : Generators S) (os : List Operation) → left_in gs ≡ some os → copy_list gs ≡ some gs
  unfolding copy_list copy_one
  copy_list-left end os e = refl
  copy_list-left (link null gs) os e = rw (copy_list-left gs os e) refl
  copy_list-left (link (operation o) gs) os e = elim (Option-cases (left_in gs)) [
    | inl k ↦ cc (rw (left_in, k) at e)
    | inr (rest, k) ↦ rw (copy_list-left gs rest k) refl
  ]
  copy_list-left (link _ gs) os e = cc

  -- What a call yields where `os` is left: the next operation, for a process that was drawn, or that it
  -- is to be waited for; `nil` only once nothing is left.
  abbrev pub YieldsNext : List Operation → Operation → GeneratorPtr S → Type 0
  YieldsNext [] r gen = (r.type ≡ nil_type) × (left gen ≡ some [])
  YieldsNext (o ∷ os) r gen =
      ((is_pending r.type ≡ true) × (left gen ≡ some (o ∷ os)))
      ⊎ ((is_pending r.type ≡ false)
          × ((process : ℤ) × (time : ℤ) × (r ≡ fill_in process time o))
          × (left gen ≡ some os))

  pub some-injective :
      {a b : Generators S} → ◌≡◌ {A = Option (Generators S)} (some a) (some b) → a ≡ b
  some-injective e = cc

  -- The list after a call of its first element, which is `o`, and before the elements of `rest`.
  abbrev after_first : Generators S → GeneratorPtr S → GeneratorPtr S
  after_first copy gen = if ltb 1 (count copy) then list (put copy 0 gen) else gen

  left-after_first :
      (g : GeneratorPtr S) (rest : Generators S) (gen : GeneratorPtr S) (os : List Operation)
      → left_in (link gen rest) ≡ some os
      → left_in (link gen end) ≡ left gen
      → left (after_first (link g rest) gen) ≡ some os
  left-after_first g end gen os h single = sym single ∙ h
  left-after_first g (link f rest) gen os h single =
      let more : ltb 1 (suc (suc (count rest))) ≡ true = ground arith in rw more h

pub left-of_operations :
    (S : Type 0) (os : List Operation) → left {S = S} (list (of_operations os)) ≡ some os
left-of_operations S [] = refl
left-of_operations S (o ∷ os) = ap (λ l. Option.map (λ os. o ∷ os) l) (left-of_operations S os)

-- Each operation asks for something.
abbrev pub Ask : List Operation → Type 0
Ask os = All (λ (o : Operation). is_nil o.type ≡ false) os

module _ (w : World) where
  open w use {State}

  null-yields : (fuel : ℕ) (ctx : Context) → Ensures (λ y. y ≡ nil null) (op w fuel null ctx)
  unfolding op
  null-yields zero ctx = record { apply = λ s a s' e. cc }
  null-yields (suc fuel) ctx = Ensures-pure _ refl

  -- What a call of an operation yields.
  abbrev Asked : Operation → Operation → GeneratorPtr State → Type 0
  Asked o r gen =
      ((is_pending r.type ≡ true) × (gen ≡ operation o))
      ⊎ ((is_pending r.type ≡ false)
          × ((process : ℤ) × (time : ℤ) × (r ≡ fill_in process time o))
          × (gen ≡ null))

  abbrev Asks : Operation → Yield State → Type 0
  Asks o y = (y.self ≡ operation o) × (is_nil y.op.type ≡ false) × Asked o y.op y.gen

  fill_in-ne-nil :
      (p now : ℤ) (o : Operation) → is_nil o.type ≡ false → is_nil (fill_in p now o).type ≡ false
  unfolding fill_in
  fill_in-ne-nil p now o h = ground arith

  operation-yields :
      (fuel : ℕ) (o : Operation) (ctx : Context)
      → is_nil o.type ≡ false
      → Ensures (Asks o) (op w fuel (operation o) ctx)
  unfolding op operation_op fill_in_operation
  operation-yields zero o ctx asked = record { apply = λ s a s' e. cc }
  operation-yields (suc fuel) o ctx asked =
      Ensures-bind {P = λ r. (process : ℤ) × (r ≡ fill_in process ctx.time o)} _ _
        (Ensures-bind _ _ (Ensures-anything _) λ p _. Ensures-pure _ (p, refl))
        λ r (p, e). Ensures-pure _ (
          refl,
          rw e (fill_in-ne-nil p ctx.time o asked),
          if_ind (Asked o r) (is_pending r.type) _ _ (λ k. inl (k, refl))
              (λ k. inr (k, (p, ctx.time, e), refl)),
        )

  operations-injective :
      {a b : List Operation} → ◌≡◌ {A = Option (List Operation)} (some a) (some b) → a ≡ b
  operations-injective e = cc

  -- The operation that stands first in a list is the first that is left.
  first_left :
      (o : Operation) (rest : Generators State) (os : List Operation)
      → left_in (link (operation o) rest) ≡ some os
      → (more : List Operation) × (left_in rest ≡ some more) × (o ∷ more ≡ os)
  first_left o rest os e = elim (Option-cases (left_in rest)) [
    | inl k ↦ cc (rw (left_in, k) at e)
    | inr (more, k) ↦ (more, k, operations-injective (rw (left_in, k) at e))
  ]

  YieldsNext-first :
      (o : Operation) (rest copy : Generators State) (more : List Operation) (r : Operation)
      (gen : GeneratorPtr State)
      → left_in rest ≡ some more
      → copy ≡ link (operation o) rest
      → Asked o r gen
      → YieldsNext (o ∷ more) r (after_first copy gen)
  YieldsNext-first o rest copy more r gen e k (inl (pending, same)) = inl (
    pending,
    rw (k, same) (left-after_first (operation o) rest (operation o) (o ∷ more) (rw e refl) refl),
  )
  YieldsNext-first o rest copy more r gen e k (inr (due, filled, same)) =
      inr (due, filled, rw (k, same) (left-after_first (operation o) rest null more e refl))

  list-YieldsNext :
      (fuel : ℕ) (gs : Generators State) (os : List Operation) (ctx : Context)
      → ((hs : Generators State)
          → left_in hs ≡ some os
          → Ensures (λ y. YieldsNext os y.op y.gen) (op w fuel (list hs) ctx))
      → left_in gs ≡ some os
      → Ask os
      → Ensures (λ y. YieldsNext os y.op y.gen) (list_op w (op w fuel) gs ctx)
  unfolding list_op
  list-YieldsNext fuel end [] ctx below e asks =
      Ensures-bind _ _ (null-yields fuel ctx) λ y h. Ensures-pure _ (rw h (refl, refl))
  list-YieldsNext fuel end (o ∷ os) ctx below e asks = cc
  list-YieldsNext fuel (link null rest) os ctx below e asks =
      Ensures-bind _ _ (null-yields fuel ctx) λ y h. rw h (
        Ensures-bind {P = λ copy. copy ≡ link null rest} _ _
          (Ensures-or_fault _
            (λ copy k. some-injective (sym k ∙ copy_list-left (link null rest) os e)))
          λ copy k. Ensures-bind _ _ (below (pop_front copy) (rw k e)) λ z t. Ensures-pure _ t)
  list-YieldsNext fuel (link (operation o) rest) os ctx below e asks =
      let (more, k, same) = first_left o rest os e in
      subst
        (λ l.
          Ask l
          → Ensures (λ y. YieldsNext l y.op y.gen)
              (list_op w (op w fuel) (link (operation o) rest) ctx))
        same
        (λ asked. Ensures-bind _ _ (operation-yields fuel o ctx asked.0) λ y h.
          Ensures-bind {P = λ copy. copy ≡ link (operation o) rest} _ _
            (Ensures-or_fault _ (λ copy c. some-injective (
              sym (rw h.0 at c) ∙ copy_list-left (link (operation o) rest) (o ∷ more) (rw k refl))))
            λ copy c.
              Ensures-if (is_null y.gen && is_nil y.op.type) _ _
                (λ ended. absurd (ground (arith, h.1, ended)))
                (λ _. Ensures-pure _ (YieldsNext-first o rest copy more y.op y.gen k c h.2)))
        asks
  list-YieldsNext fuel (link _ rest) os ctx below e asks = cc

  YieldsNext-single :
      (o r : Operation) (gen : GeneratorPtr State) → Asked o r gen → YieldsNext (o ∷ []) r gen
  YieldsNext-single o r gen (inl (pending, same)) = inl (pending, rw same refl)
  YieldsNext-single o r gen (inr (due, filled, same)) = inr (due, filled, rw same refl)

  op-YieldsNext :
      (fuel : ℕ) (g : GeneratorPtr State) (os : List Operation) (ctx : Context)
      → left g ≡ some os
      → Ask os
      → Ensures (λ y. YieldsNext os y.op y.gen) (op w fuel g ctx)
  unfolding op
  op-YieldsNext zero g os ctx e asks = record { apply = λ s a s' k. cc }
  op-YieldsNext (suc fuel) null [] ctx e asks = Ensures-pure _ (refl, refl)
  op-YieldsNext (suc fuel) null (o ∷ os) ctx e asks = cc
  op-YieldsNext (suc fuel) (operation o) os ctx e asks =
      subst (λ l. Ask l → Ensures (λ y. YieldsNext l y.op y.gen) (operation_op w o ctx))
        (operations-injective e)
        (λ asked. record {
          apply = λ s y s' k.
              YieldsNext-single o y.op y.gen
                ((operation-yields (suc fuel) o ctx asked.0).apply s y s' k).2;
        })
        asks
  op-YieldsNext (suc fuel) (list gs) os ctx e asks =
      list-YieldsNext fuel gs os ctx (λ hs k. op-YieldsNext fuel (list hs) os ctx k asks) e asks
  op-YieldsNext (suc fuel) _ os ctx e asks = cc

left_in-AllSteady :
    {S : Type 0} (gs : Generators S) (os : List Operation)
    → left_in gs ≡ some os
    → AllSteady true gs
left_in-AllSteady end os e = tt
left_in-AllSteady (link null gs) os e = (tt, left_in-AllSteady gs os e)
left_in-AllSteady (link (operation o) gs) os e = elim (Option-cases (left_in gs)) [
  | inl k ↦ cc (rw (left_in, k) at e)
  | inr (more, k) ↦ (tt, left_in-AllSteady gs more k)
]
left_in-AllSteady (link _ gs) os e = cc

left-IsSteady :
    {S : Type 0} (g : GeneratorPtr S) (os : List Operation) → left g ≡ some os → IsSteady true g
left-IsSteady null os e = tt
left-IsSteady (operation o) os e = tt
left-IsSteady (list gs) os e = left_in-AllSteady gs os e
left-IsSteady _ os e = cc

-- A call of `op` on a list of operations returns, and the calls yield them in the order of the list, each
-- once: where `os` is left, `op` yields the first of them, filled in with a process and a time, and leaves
-- the others; or it yields `pending`, and leaves them all; where none is left it yields `nil`. Premises:
-- none of the operations is itself `nil`, each free thread runs a process, the random draws stay in their
-- bounds, and the fuel is for the depth of the generator.
pub op-in_order :
    (w : World) (fuel : ℕ) (g : GeneratorPtr w.State) (os : List Operation) (ctx : Context)
    (s : w.State)
    → left g ≡ some os
    → Ask os
    → DrawsInRange w
    → IsStaffed ctx
    → rank g ≤ fuel
    → (y : Yield w.State) × (s' : w.State) × (op w fuel g ctx s ≡ done (y, s'))
      × YieldsNext os y.op y.gen
op-in_order w fuel g os ctx s e asks fair staffed le =
    let (y, s', k) = op-returns w fuel g ctx s fair le (left-IsSteady g os e) staffed in
    (y, s', k, (op-YieldsNext w fuel g os ctx e asks).apply s y s' k)
