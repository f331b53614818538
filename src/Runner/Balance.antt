-- ===== src/Runner/Balance.antt =====
-- Who has each thread: it is free, or one operation is on its way for it.
use jepsen_in_cpp.Prelude.{
  ℕ, ◌+◌, ◌≤◌, ◌<◌, not, ◌&&◌, some, ◌≡◌, refl, sym, ◌≢◌, List, arith, All, if_ind, subst,
}
use jepsen_in_cpp.Prelude.Int.{ℤ, pos, ◌+ℤ◌, eqb_ℤ, eqb_ℤ_iff}
use jepsen_in_cpp.Operation.{Operation, nemesis_process, is_info}
use jepsen_in_cpp.Context.{
  Context, Threads, count_clients, insert, erase, lookup, assign, next_process, thread_of,
}
use jepsen_in_cpp.Context.Processes.{
  IsAssigned, IsOwn, IsOwn-nemesis, All-In, lookup-In, next_process_lem, next_process-IsAssigned,
}
use jepsen_in_cpp.Context.Ready.{IsReady}
use jepsen_in_cpp.Runner.{after_crash}
use jepsen_in_cpp.Runner.Load.{
  times_in, times_in-insert, times_in-erase, times_in-In, load, IsHosted, IsHosted-thread,
  load-moved, OneMore, OneMore-load, OneMore-All,
}

-- The operations of `flying` are for processes that threads run, and each of the threads is free or
-- has one of them, no more.
pub record IsBalanced (n : ℕ) (threads : Threads) (ctx : Context) (flying : List Operation)
    : Type 0 where
  pub assigned : IsAssigned n ctx.workers
  pub hosted : All (IsHosted ctx.workers) flying
  pub conserved :
      (t : ℤ) → times_in t ctx.free_threads + load ctx.workers t flying ≡ times_in t threads

module _ (n : ℕ) (threads : Threads) (once : (t : ℤ) → times_in t threads ≤ 1) where
  -- A thread that has an operation is not free, and it has no second one.
  pub busy :
      (ctx : Context) {o : Operation} {fewer more : List Operation}
      → IsBalanced n threads ctx more
      → OneMore o fewer more
      → let u = thread_of o.process ctx.workers in
        (times_in u ctx.free_threads ≡ 0) × (load ctx.workers u fewer ≡ 0)
  busy ctx {o} {fewer} b m =
      let u : ℤ = thread_of o.process ctx.workers in
      let e = b.conserved u in
      let l = OneMore-load ctx.workers u m in
      let le = once u in
      let k = (eqb_ℤ_iff u u).1 refl in (ground (arith, e, l, le, k), ground (arith, e, l, le, k))

  -- The thread of an operation that came back is free again.
  pub IsBalanced-insert :
      (ctx : Context) {o : Operation} {fewer more : List Operation} (time : ℤ)
      → IsBalanced n threads ctx more
      → OneMore o fewer more
      → IsBalanced n threads
          (record ctx {
            time = time;
            free_threads = insert (thread_of o.process ctx.workers) ctx.free_threads;
          })
          fewer
  IsBalanced-insert ctx {o} time b one = record {
    assigned = b.assigned;
    hosted = ((OneMore-All (IsHosted ctx.workers) one).0 b.hosted).1;
    conserved = λ t. omega (
      arith,
      b.conserved t,
      OneMore-load ctx.workers t one,
      times_in-insert t (thread_of o.process ctx.workers) ctx.free_threads (busy ctx b one).0,
    );
  }

  -- The thread that an operation is handed to is free no more.
  pub IsBalanced-erase :
      (ctx : Context) {o : Operation} {fewer more : List Operation} (time : ℤ)
      → IsBalanced n threads ctx fewer
      → IsReady ctx o.process
      → OneMore o fewer more
      → IsBalanced n threads
          (record ctx {
            time = time;
            free_threads = erase (thread_of o.process ctx.workers) ctx.free_threads;
          })
          more
  IsBalanced-erase ctx {o} time b ready one =
      let u : ℤ = thread_of o.process ctx.workers in
      let same = IsHosted-thread n ctx.workers ready.thread o.process b.assigned.owned ready.runs in
      let free = times_in-In u ctx.free_threads (rw same ready.is_free) in
      record {
        assigned = b.assigned;
        hosted = (OneMore-All (IsHosted ctx.workers) one).1 ((ready.thread, ready.runs), b.hosted);
        conserved = λ t. omega (
          arith,
          b.conserved t,
          OneMore-load ctx.workers t one,
          times_in-erase t u ctx.free_threads free,
        );
      }

  crashed :
      (ctx : Context) (t p : ℤ) {flying : List Operation}
      → 0 < n
      → IsBalanced n threads ctx flying
      → lookup t ctx.workers ≡ some p
      → p ≢ nemesis_process
      → load ctx.workers t flying ≡ 0
      → let (ctx', q) = next_process ctx t in
        IsBalanced n threads (record ctx' { workers = assign t q ctx'.workers }) flying
  crashed ctx t p {flying} some_client b runs client idle =
      rw (next_process_lem ctx t p not_nemesis runs) (record {
        assigned = next;
        hosted = moves.0;
        conserved = λ u. rw (moves.1 u) (b.conserved u);
      })
    where
      own : IsOwn n (t, p)
      own = All-In (IsOwn n) ctx.workers (t, p) b.assigned.owned (lookup-In ctx.workers t p runs)

      not_nemesis : t ≢ nemesis_process
      not_nemesis e = client (sym (IsOwn-nemesis n t p own e))

      q : ℤ
      q = p +ℤ pos (count_clients ctx.workers)

      next : IsAssigned n (assign t q ctx.workers)
      next =
          (rw (next_process_lem ctx t p not_nemesis runs) at
            (next_process-IsAssigned n ctx t p some_client b.assigned not_nemesis runs)).0

      moves :
          All (IsHosted (assign t q ctx.workers)) flying
          × ((u : ℤ) → load (assign t q ctx.workers) u flying ≡ load ctx.workers u flying)
      moves = load-moved n ctx.workers t q b.assigned.owned next.owned flying b.hosted idle

  -- A thread whose operation came back without a result gets its new process, and every operation
  -- that is on its way is still for the thread that it was for.
  pub IsBalanced-after_crash :
      (ctx : Context) (o : Operation) {flying : List Operation}
      → 0 < n
      → IsBalanced n threads ctx flying
      → IsHosted ctx.workers o
      → load ctx.workers (thread_of o.process ctx.workers) flying ≡ 0
      → IsBalanced n threads (after_crash ctx (thread_of o.process ctx.workers) o) flying
  unfolding after_crash
  IsBalanced-after_crash ctx o {flying} some_client b (t, runs) idle =
      let same = IsHosted-thread n ctx.workers t o.process b.assigned.owned runs in
      if_ind (λ c. IsBalanced n threads c flying)
        (not (eqb_ℤ o.process nemesis_process) && is_info o.type) _ _
        (λ e.
          subst
            (λ u.
              let (ctx', q) = next_process ctx u in
              IsBalanced n threads (record ctx' { workers = assign u q ctx'.workers }) flying)
            (sym same)
            (crashed ctx t o.process some_client b runs
              (ground (arith, eqb_ℤ_iff o.process nemesis_process, e)) (rw same at idle)))
        (λ e. b)

  -- An operation that comes back for the process that it was for takes the place of that one.
  pub IsBalanced-swap :
      (ctx : Context) {o o' : Operation} {fewer more back : List Operation}
      → o'.process ≡ o.process
      → IsBalanced n threads ctx more
      → OneMore o fewer more
      → OneMore o' fewer back
      → IsBalanced n threads ctx back
  IsBalanced-swap ctx same b out one =
      let h = (OneMore-All (IsHosted ctx.workers) out).0 b.hosted in
      record {
        assigned = b.assigned;
        hosted = (OneMore-All (IsHosted ctx.workers) one).1 (rw same h.0, h.1);
        conserved = λ t. omega (
          arith,
          b.conserved t,
          OneMore-load ctx.workers t out,
          rw same at (OneMore-load ctx.workers t one),
        );
      }
