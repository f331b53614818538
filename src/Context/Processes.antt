-- ===== src/Context/Processes.antt =====
-- Which processes the threads run: `nextProcess` keeps them apart, and `processToThread` finds the
-- thread of each, in whatever order the hash map is walked.
use native.Mathlib.Nat.{add-mod_right}
use jepsen_in_cpp.Prelude.{
  ℕ, ◌+◌, ◌%◌, ◌<◌, ◌≡◌, refl, sym, subst, ◌≢◌, ◌∙◌, ap, ◌⊎◌, inl, inr, List, [], ◌∷◌, some, arith,
  In, All, Bool-cases,
}
use jepsen_in_cpp.Prelude.Int.{ℤ, pos, ◌+ℤ◌, ◌<ℤ◌, +ℤ_parts, eqb_ℤ, eqb_ℤ_iff}
use jepsen_in_cpp.Operation.{nemesis_process}
use jepsen_in_cpp.Context.{
  Context, Workers, lookup, assign, count_clients, at_or_insert, next_process, thread_of,
}

-- The nemesis runs as itself, and a client thread of `n` runs a process that is it modulo `n`.
abbrev pub IsOwn : ℕ → ℤ × ℤ → Type 0
IsOwn n (t, p) =
    ((t ≡ nemesis_process) × (p ≡ nemesis_process)) ⊎ ((q : ℕ) × (p ≡ pos q) × (t ≡ pos (q % n)))

pub IsOwn-thread : (n : ℕ) (t u p : ℤ) → IsOwn n (t, p) → IsOwn n (u, p) → t ≡ u
IsOwn-thread n t u p (inl a) (inl b) = cc
IsOwn-thread n t u p (inl a) (inr b) = ground arith
IsOwn-thread n t u p (inr a) (inl b) = ground arith
IsOwn-thread n t u p (inr a) (inr b) = ground arith

pub All-In : {A : Type 0} (P : A → Type 0) (xs : List A) (a : A) → All P xs → In a xs → P a
All-In P [] a h m = elim m [ ]
All-In P (x ∷ xs) a h (inl e) = subst P (sym e) h.0
All-In P (x ∷ xs) a h (inr m) = All-In P xs a h.1 m

-- Where each worker runs a process of its own, the thread of a process is the one that runs it.
pub thread_of-In :
    (n : ℕ) (w : Workers) (t p : ℤ) → All (IsOwn n) w → In (t, p) w → thread_of p w ≡ t
unfolding thread_of
thread_of-In n [] t p own h = elim h [ ]
thread_of-In n ((u, q) ∷ w) t p own (inl e) =
    ground (arith, eqb_ℤ_iff q p, ap (λ (x : ℤ × ℤ). x.0) e, ap (λ (x : ℤ × ℤ). x.1) e)
thread_of-In n ((u, q) ∷ w) t p own (inr m) = elim (Bool-cases (eqb_ℤ q p)) [
  | inl e ↦
      rw e (
        IsOwn-thread n u t p (rw ((eqb_ℤ_iff q p).0 e) at own.0)
          (All-In (IsOwn n) w (t, p) own.1 m))
  | inr e ↦ rw e (thread_of-In n w t p own.1 m)
]

pub lookup-In : (w : Workers) (t p : ℤ) → lookup t w ≡ some p → In (t, p) w
unfolding lookup
lookup-In [] t p h = cc
lookup-In ((u, q) ∷ w) t p h = elim (Bool-cases (eqb_ℤ t u)) [
  | inl e ↦ inl (ground (arith, eqb_ℤ_iff t u))
  | inr e ↦ inr (lookup-In w t p (rw e at h))
]

-- The next process of a client's thread is its own too.
IsOwn-next : (n : ℕ) (t p : ℤ) → IsOwn n (t, p) → t ≢ nemesis_process → IsOwn n (t, p +ℤ pos n)
unfolding ◌+ℤ◌
IsOwn-next n t p (inl a) h = absurd (h a.0)
IsOwn-next n t p (inr (q, e, f)) h =
    inr (q + n, rw e (ground arith), f ∙ ap pos (sym (add-mod_right q n)))

pub assign-IsOwn :
    (n : ℕ) (w : Workers) (t p : ℤ)
    → All (IsOwn n) w
    → IsOwn n (t, p)
    → All (IsOwn n) (assign t p w)
unfolding assign
assign-IsOwn n [] t p own h = (h, tt)
assign-IsOwn n ((u, q) ∷ w) t p own h = elim (Bool-cases (eqb_ℤ t u)) [
  | inl e ↦ rw e (rw ((eqb_ℤ_iff t u).0 e) at h, own.1)
  | inr e ↦ rw e (own.0, assign-IsOwn n w t p own.1 h)
]

count_clients-assign :
    (w : Workers) (t p q : ℤ)
    → lookup t w ≡ some p
    → p ≢ nemesis_process
    → q ≢ nemesis_process
    → count_clients (assign t q w) ≡ count_clients w
unfolding count_clients assign lookup
count_clients-assign [] t p q h k l = cc
count_clients-assign ((u, r) ∷ w) t p q h k l =
    ground (
      arith,
      eqb_ℤ_iff r nemesis_process,
      eqb_ℤ_iff q nemesis_process,
      count_clients-assign w t p q,
    )

lookup-assign_self : (w : Workers) (t q : ℤ) → In (t, q) (assign t q w)
unfolding assign
lookup-assign_self [] t q = inl refl
lookup-assign_self ((u, r) ∷ w) t q = elim (Bool-cases (eqb_ℤ t u)) [
  | inl e ↦ rw e (inl (ap (λ (x : ℤ). (x, q)) ((eqb_ℤ_iff t u).0 e)))
  | inr e ↦ rw e (inr (lookup-assign_self w t q))
]

-- The `n` clients and the nemesis, each with a process of its own.
pub record IsAssigned (n : ℕ) (w : Workers) : Type 0 where
  pub owned : All (IsOwn n) w
  pub counted : count_clients w ≡ n

pub next_process_lem :
    (ctx : Context) (t p : ℤ)
    → t ≢ nemesis_process
    → lookup t ctx.workers ≡ some p
    → next_process ctx t ≡ (ctx, p +ℤ pos (count_clients ctx.workers))
unfolding next_process at_or_insert
next_process_lem ctx t p h e = ground (arith, eqb_ℤ_iff t nemesis_process)

pub IsOwn-nemesis : (n : ℕ) (t p : ℤ) → IsOwn n (t, p) → t ≡ nemesis_process → nemesis_process ≡ p
IsOwn-nemesis n t p (inl a) e = cc
IsOwn-nemesis n t p (inr a) e = ground arith

IsOwn-client : (n : ℕ) (t p : ℤ) → IsOwn n (t, p) → t ≢ nemesis_process → p ≢ nemesis_process
IsOwn-client n t p (inl a) h = absurd (h a.0)
IsOwn-client n t p (inr a) h = ground arith

-- A client thread whose operation came back without a result gets a new process: a later one than
-- the thread had, found under its own thread, and the processes of all threads stay apart.
pub next_process-IsAssigned :
    (n : ℕ) (ctx : Context) (t p : ℤ)
    → 0 < n
    → IsAssigned n ctx.workers
    → t ≢ nemesis_process
    → lookup t ctx.workers ≡ some p
    → let (ctx', q) = next_process ctx t in
      let workers = assign t q ctx'.workers in
      IsAssigned n workers × (p <ℤ q) × (thread_of q workers ≡ t)
next_process-IsAssigned n ctx t p some_client a client runs =
    rw (next_process_lem ctx t p client runs, a.counted)
      (
        record {
          owned = owned;
          counted =
              count_clients-assign ctx.workers t p q runs (IsOwn-client n t p own client)
                (IsOwn-client n t q next client)
              ∙ a.counted;
        },
        omega (arith, +ℤ_parts p (pos n)),
        thread_of-In n (assign t q ctx.workers) t q owned (lookup-assign_self ctx.workers t q),
      )
  where
    q : ℤ
    q = p +ℤ pos n

    own : IsOwn n (t, p)
    own = All-In (IsOwn n) ctx.workers (t, p) a.owned (lookup-In ctx.workers t p runs)

    next : IsOwn n (t, q)
    next = IsOwn-next n t p own client

    owned : All (IsOwn n) (assign t q ctx.workers)
    owned = assign-IsOwn n ctx.workers t q a.owned next
