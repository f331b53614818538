-- ===== src/Runner/Queues.antt =====
-- The queues of the workers and the processes of the threads, which the loop of `runCases` only adds to.
use jepsen_in_cpp.Prelude.{
  not, ◌&&◌, Option, none, some, ◌≡◌, refl, ◌∙◌, ap, List, [], ◌∷◌, ◌++◌, map, In, arith, inl, inr,
  Bool-cases, Option-cases, if_ind,
}
use jepsen_in_cpp.Prelude.Int.{ℤ, pos, eqb_ℤ, eqb_ℤ_iff}
use jepsen_in_cpp.Prelude.Options.{OnSome}
use jepsen_in_cpp.Operation.{Operation, nemesis_process, is_info}
use jepsen_in_cpp.Context.{Context, Threads, Workers, lookup, assign, next_process, at_or_insert}
use jepsen_in_cpp.Runner.{Inboxes, put_op, after_crash}
use jepsen_in_cpp.Runner.Load.{lookup-assign_eq, lookup-assign_ne}
use jepsen_in_cpp.Runner.Steps.{Takes, here, later}

-- The threads that have a queue.
abbrev pub queues : Inboxes → Threads
queues inboxes = map (λ (x : ℤ × List Operation). x.0) inboxes

pub put_op-queues :
    (t : ℤ) (o : Operation) (ib : Inboxes) → OnSome (λ ib'. queues ib' ≡ queues ib) (put_op t o ib)
unfolding put_op
put_op-queues t o [] = tt
put_op-queues t o ((u, os) ∷ ib) =
    if_ind (OnSome (λ ib'. queues ib' ≡ u ∷ queues ib)) (eqb_ℤ t u) _ _ (λ _. refl)
      (λ _. behind (put_op t o ib) (put_op-queues t o ib))
  where
    behind :
        (later : Option Inboxes)
        → OnSome (λ ib'. queues ib' ≡ queues ib) later
        → OnSome
            (λ ib'. queues ib' ≡ u ∷ queues ib)
            (elim later [ none ↦ none | some ib' ↦ some ((u, os) ∷ ib') ])
    behind none h = tt
    behind (some ib') h = ap (λ us. u ∷ us) h

pub put_op-In :
    (t : ℤ) (o : Operation) (ib : Inboxes)
    → In t (queues ib)
    → (ib' : Inboxes) × (put_op t o ib ≡ some ib')
unfolding put_op
put_op-In t o [] m = elim m [ ]
put_op-In t o ((u, os) ∷ ib) (inl e) = ((u, os ++ o ∷ []) ∷ ib, ground (arith, eqb_ℤ_iff t u))
put_op-In t o ((u, os) ∷ ib) (inr m) =
    let (ib', e) = put_op-In t o ib m in
    elim (Bool-cases (eqb_ℤ t u)) [
      | inl k ↦ ((u, os ++ o ∷ []) ∷ ib, rw k refl)
      | inr k ↦ ((u, os) ∷ ib', rw (k, e) refl)
    ]

pub Takes-queues : {o : Operation} {ib ib' : Inboxes} → Takes ib o ib' → queues ib' ≡ queues ib
Takes-queues here = refl
Takes-queues (later {x} t) = ap (λ us. x.0 ∷ us) (Takes-queues t)

-- The thread runs a process.
abbrev pub HasProcess : Workers → ℤ → Type 0
HasProcess w t = (p : ℤ) × (lookup t w ≡ some p)

pub assign-HasProcess : (w : Workers) (u q t : ℤ) → HasProcess w t → HasProcess (assign u q w) t
assign-HasProcess w u q t (p, e) = elim (Bool-cases (eqb_ℤ t u)) [
  | inl k ↦ (q, rw ((eqb_ℤ_iff t u).0 k) (lookup-assign_eq w u q))
  | inr k ↦ (p, lookup-assign_ne w t u q (λ same. ground (arith, eqb_ℤ_iff t u)) ∙ e)
]

next_process-HasProcess :
    (ctx : Context) (u t : ℤ)
    → HasProcess ctx.workers t
    → HasProcess (next_process ctx u).0.workers t
unfolding next_process at_or_insert
next_process-HasProcess ctx u t h =
    if_ind (λ (r : Context × ℤ). HasProcess r.0.workers t) (eqb_ℤ u nemesis_process) _ _ (λ _. h)
      (λ _. elim (Option-cases (lookup u ctx.workers)) [
        | inl e ↦ rw (at_or_insert, e) (assign-HasProcess ctx.workers u (pos 0) t h)
        | inr (p, e) ↦ rw (at_or_insert, e) h
      ])

pub after_crash-HasProcess :
    (ctx : Context) (u t : ℤ) (o : Operation)
    → HasProcess ctx.workers t
    → HasProcess (after_crash ctx u o).workers t
unfolding after_crash
after_crash-HasProcess ctx u t o h =
    if_ind (λ (c : Context). HasProcess c.workers t)
      (not (eqb_ℤ o.process nemesis_process) && is_info o.type) _ _
      (λ _. assign-HasProcess _ u _ t (next_process-HasProcess ctx u t h)) (λ _. h)
