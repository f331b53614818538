-- ===== src/Runner/Outgrown.antt =====
-- The process of a thread after a crash: a later one than the thread had.
use jepsen_in_cpp.Prelude.{
  ℕ, ◌<◌, Bool, true, false, not, ◌&&◌, Bool-cases, inl, inr, if◌then◌else◌, if_ind, Option, some,
  ◌≡◌, ◌≢◌, ◌⊎◌, refl, sym, ◌∙◌, ap, subst, arith,
}
use jepsen_in_cpp.Prelude.Int.{ℤ, pos, ◌+ℤ◌, ◌<ℤ◌, +ℤ_parts, eqb_ℤ, eqb_ℤ_iff}
use jepsen_in_cpp.Operation.{Operation, info, is_info, nemesis_process}
use jepsen_in_cpp.Context.{Context, Workers, lookup, assign, count_clients}
use jepsen_in_cpp.Context.Processes.{IsOwn, IsOwn-nemesis, IsAssigned, next_process_lem}
use jepsen_in_cpp.Runner.{after_crash}
use jepsen_in_cpp.Runner.Load.{lookup-assign_ne, lookup-assign_eq}

-- The thread runs a later process than `p`.
abbrev pub Outgrown : (thread p : ℤ) → Workers → Type 0
Outgrown thread p w = (q : ℤ) → lookup thread w ≡ some q → p <ℤ q

some-injective : {a b : ℤ} → ◌≡◌ {A = Option ℤ} (some a) (some b) → a ≡ b
some-injective e = cc

workers-if :
    (b : Bool) (c d : Context) → (if b then c else d).workers ≡ (if b then c.workers else d.workers)
workers-if true c d = refl
workers-if false c d = refl

module _ (n : ℕ) (some_client : 0 < n) where
  -- The workers after a crash.
  after_crash-workers :
      (ctx : Context) (t : ℤ) (o : Operation)
      → IsOwn n (t, o.process)
      → lookup t ctx.workers ≡ some o.process
      → (after_crash ctx t o).workers ≡ (
          if not (eqb_ℤ o.process nemesis_process) && is_info o.type
          then assign t (o.process +ℤ pos (count_clients ctx.workers)) ctx.workers
          else ctx.workers)
  unfolding after_crash
  after_crash-workers ctx t o own runs = elim (Bool-cases (eqb_ℤ o.process nemesis_process)) [
    | inl e ↦ rw e refl
    | inr e ↦ rw (next_process_lem ctx t o.process (client e) runs) (
        workers-if (not (eqb_ℤ o.process nemesis_process) && is_info o.type)
          (record ctx {
            workers = assign t (o.process +ℤ pos (count_clients ctx.workers)) ctx.workers;
          })
          ctx)
  ]
    where
      client : eqb_ℤ o.process nemesis_process ≡ false → t ≢ nemesis_process
      client e k =
          ground (arith, IsOwn-nemesis n t o.process own k, e, eqb_ℤ_iff o.process nemesis_process)

  -- A process that the thread has outgrown stays so, whichever operation comes back.
  pub after_crash-Outgrown :
      (thread p : ℤ) (ctx : Context) (t : ℤ) (o : Operation)
      → IsOwn n (t, o.process)
      → lookup t ctx.workers ≡ some o.process
      → Outgrown thread p ctx.workers
      → Outgrown thread p (after_crash ctx t o).workers
  after_crash-Outgrown thread p ctx t o own runs h =
      subst (Outgrown thread p) (sym (after_crash-workers ctx t o own runs)) (
        if_ind (Outgrown thread p) (not (eqb_ℤ o.process nemesis_process) && is_info o.type) _ _
          (λ e. λ q l. by_thread q l (Bool-cases (eqb_ℤ thread t))) (λ e. h))
    where
      later : ℤ
      later = o.process +ℤ pos (count_clients ctx.workers)

      by_thread :
          (q : ℤ)
          → lookup thread (assign t later ctx.workers) ≡ some q
          → (eqb_ℤ thread t ≡ true) ⊎ (eqb_ℤ thread t ≡ false)
          → p <ℤ q
      by_thread q l (inl e) =
          let k : thread ≡ t = (eqb_ℤ_iff thread t).0 e in
          let lt = h o.process (ap (λ u. lookup u ctx.workers) k ∙ runs) in
          subst (λ x. p <ℤ x)
            (some-injective (
              sym (lookup-assign_eq ctx.workers t later)
              ∙ ap (λ u. lookup u (assign t later ctx.workers)) (sym k)
              ∙ l))
            (omega (arith, lt, +ℤ_parts o.process (pos (count_clients ctx.workers))))
      by_thread q l (inr e) = h q (
          sym (lookup-assign_ne ctx.workers thread t later (λ k. cc (e, (eqb_ℤ_iff thread t).1 k)))
          ∙ l)

  -- The thread of a process that crashes outgrows it.
  pub after_crash-outgrows :
      (ctx : Context) (t : ℤ) (o : Operation)
      → IsAssigned n ctx.workers
      → IsOwn n (t, o.process)
      → lookup t ctx.workers ≡ some o.process
      → o.process ≢ nemesis_process
      → o.type ≡ info
      → Outgrown t o.process (after_crash ctx t o).workers
  after_crash-outgrows ctx t o assigned own runs client crashed q l =
      subst (λ x. o.process <ℤ x)
        (some-injective
          (sym (lookup-assign_eq ctx.workers t later) ∙ ap (lookup t) (sym moved) ∙ l))
        (omega (
          arith,
          some_client,
          assigned.counted,
          +ℤ_parts o.process (pos (count_clients ctx.workers)),
        ))
    where
      later : ℤ
      later = o.process +ℤ pos (count_clients ctx.workers)

      moved : (after_crash ctx t o).workers ≡ assign t later ctx.workers
      moved = after_crash-workers ctx t o own runs ∙ rw (not_nemesis, crashed) refl
        where
          not_nemesis : eqb_ℤ o.process nemesis_process ≡ false
          not_nemesis = ground (arith, client, eqb_ℤ_iff o.process nemesis_process)
