-- ===== src/Worker/Session.antt =====
-- The sessions of a worker's clients: each client is made, opened, used and closed, in that order,
-- and every operation that the worker takes is answered.
use mathlib.Core.List.{append-nil}
use jepsen_in_cpp.Prelude.{
  String, Bool, true, false, ◌||◌, if◌then◌else◌, Option, none, some, List, [], ◌∷◌, ◌++◌, map, ◌≡◌,
  refl, sym, ◌∙◌, ap, subst, Bool-cases, Option-cases, inl, inr, arith,
}
use jepsen_in_cpp.Prelude.Int.{ℤ, eqb_ℤ_iff}
use jepsen_in_cpp.Operation.{Operation, invalid_process}
use jepsen_in_cpp.Worker.{
  Client, ClientCall, created, opened, invoked, closed, ClientWorker, Progress, is_exit, run_async,
  close, restart, invoke_client, needs_restart, invoke, run_client, new_worker,
}

-- What a worker holds: no client, one that is not opened yet, or one that is open on a node.
pub data Session : Type 0 where
  idle fresh : Session
  open_at : String → Session

-- The calls that a session allows, one after the other.
abbrev pub after_call : Session → ClientCall → Option Session
after_call idle created = some fresh
after_call fresh (opened node) = some (open_at node)
after_call (open_at node) (invoked o) = some (open_at node)
after_call (open_at node) closed = some idle
after_call _ _ = none

abbrev pub after_calls : Session → List ClientCall → Option Session
after_calls s [] = some s
after_calls s (c ∷ cs) = elim (after_call s c) [ none ↦ none | some s' ↦ after_calls s' cs ]

after_calls-append :
    (s s' : Session) (cs ds : List ClientCall)
    → after_calls s cs ≡ some s'
    → after_calls s (cs ++ ds) ≡ after_calls s' ds
after_calls-append s s' [] ds e = cc
after_calls-append s s' (c ∷ cs) ds e = elim (Option-cases (after_call s c)) [
  | inl h ↦ cc (rw (after_calls, h) at e)
  | inr (t, h) ↦ rw (after_calls, h) (after_calls-append t s' cs ds (rw (after_calls, h) at e))
]

-- The operations that a worker answers: those before the first exit.
abbrev pub before_exit : List Operation → List Operation
before_exit [] = []
before_exit (o ∷ os) = let later = before_exit os in if is_exit o.type then [] else o ∷ later

abbrev pub has_exit : List Operation → Bool
has_exit [] = false
has_exit (o ∷ os) = is_exit o.type || has_exit os

abbrev pub processes : List Operation → List ℤ
processes os = map (λ (o : Operation). o.process) os

module _ {C S : Type 0} (api : Client C S) where
  open api use {invoke_it}

  abbrev holds : String → Option C → Session
  holds node none = idle
  holds node (some c) = open_at node

  -- The calls so far make a session that the worker is still in, and a worker without a client
  -- has no process.
  record IsLive (wk : ClientWorker C) : Type 0 where
    session : after_calls idle wk.calls ≡ some (holds wk.node wk.client)
    unused : wk.client ≡ none → wk.process ≡ invalid_process

  close-idle :
      (wk : ClientWorker C) (s : S)
      → after_calls idle wk.calls ≡ some (holds wk.node wk.client)
      → let wk' = (close api wk s).0 in
        (after_calls idle wk'.calls ≡ some idle) × (wk'.client ≡ none) × (wk'.node ≡ wk.node)
  unfolding close
  close-idle wk s h = elim (Option-cases wk.client) [
    | inl e ↦ rw e (rw e at h, refl, refl)
    | inr (c, e) ↦
        rw e
          (after_calls-append idle (open_at wk.node) wk.calls (closed ∷ []) (rw e at h), refl, refl)
  ]

  restart-IsLive :
      (wk : ClientWorker C) (p : ℤ) (s : S)
      → after_calls idle wk.calls ≡ some (holds wk.node wk.client)
      → let (wk', c, s') = restart api wk p s in
        (after_calls idle wk'.calls ≡ some (open_at wk'.node))
  unfolding restart
  restart-IsLive wk p s h =
      let (k, e, same) = close-idle wk s h in
      after_calls-append idle idle (close api wk s).0.calls _ k

  invoke_client-IsLive :
      (wk : ClientWorker C) (c : C) (o : Operation) (s : S)
      → after_calls idle wk.calls ≡ some (open_at wk.node)
      → IsLive (invoke_client api wk c o s).1
  unfolding invoke_client
  invoke_client-IsLive wk c o s h = record {
    session = after_calls-append idle (open_at wk.node) wk.calls (invoked o ∷ []) h;
    unused = λ e. cc;
  }

  -- A worker answers an operation, whatever it held before, and its session goes on.
  invoke-IsLive :
      (wk : ClientWorker C) (o : Operation) (s : S)
      → IsLive wk
      → (r : Operation × ClientWorker C × S) × (invoke api wk o s ≡ some r)
        × IsLive r.1
        × ((c : C) × (t : S) × (r.0 ≡ (invoke_it o c t).0))
  unfolding invoke invoke_client
  invoke-IsLive wk o s live = elim (Bool-cases (needs_restart api wk o)) [
    | inl e ↦
        let (wk', c, s') = restart api wk o.process s in
        (
          invoke_client api wk' c o s',
          rw e refl,
          invoke_client-IsLive wk' c o s' (restart-IsLive wk o.process s live.session),
          (c, s', refl),
        )
    | inr e ↦ elim (Option-cases wk.client) [
      | inl k ↦ absurd (kept (live.unused k) e)
      | inr (c, k) ↦ (
        invoke_client api wk c o s,
        rw (e, k) refl,
        invoke_client-IsLive wk c o s (rw k at live.session),
        (c, s, refl),
      )
    ]
  ]
    where
      kept : wk.process ≡ invalid_process → needs_restart api wk o ≡ false → ⊥
      kept h k = ground (arith, eqb_ℤ_iff wk.process invalid_process)

  -- What the worker has done with the operations that it took, after the completions `out`.
  pub record IsAnswered (ops out : List Operation) (p : Progress (ClientWorker C) S) : Type 0 where
    pub allowed :
        after_calls idle p.worker.calls
        ≡ some (if p.ended then idle else holds p.worker.node p.worker.client)
    pub answered : processes p.out ≡ processes out ++ processes (before_exit ops)
    pub exited : p.ended ≡ has_exit ops

  new_worker-IsLive : (node : String) → IsLive (new_worker node)
  unfolding new_worker
  new_worker-IsLive node = record { session = refl; unused = λ e. refl }

  module _ (kept : (o : Operation) (c : C) (s : S) → (invoke_it o c s).0.process ≡ o.process) where
    processes-out :
        (o r : Operation) (out rest : List Operation)
        → r.process ≡ o.process
        → processes (out ++ r ∷ []) ++ processes rest ≡ processes out ++ o.process ∷ processes rest
    processes-out o r [] rest e = ap (λ x. x ∷ processes rest) e
    processes-out o r (x ∷ out) rest e = ap (λ l. x.process ∷ l) (processes-out o r out rest e)

    run_async-IsAnswered :
        (wk : ClientWorker C) (ops out : List Operation) (s : S)
        → IsLive wk
        → (p : Progress (ClientWorker C) S) × (run_async (invoke api) (close api) wk ops out s
            ≡ some p)
          × IsAnswered ops out p
          × (p.ended ≡ false → IsLive p.worker)
    unfolding run_async
    run_async-IsAnswered wk [] out s live = (
      record { worker = wk; out = out; ended = false; world = s },
      refl,
      record { allowed = live.session; answered = sym (append-nil (processes out)); exited = refl },
      λ e. live,
    )
    run_async-IsAnswered wk (o ∷ os) out s live = elim (Bool-cases (is_exit o.type)) [
      | inl e ↦
          let (k, gone, same) = close-idle wk s live.session in
          (
            record {
              worker = (close api wk s).0;
              out = out;
              ended = true;
              world = (close api wk s).1;
            },
            rw e refl,
            record {
              allowed = k;
              answered = rw e (sym (append-nil (processes out)));
              exited = rw e refl;
            },
            λ f. cc,
          )
      | inr e ↦
          let (r, called, live', (c, t, result)) = invoke-IsLive wk o s live in
          let (p, ran, h, waits) = run_async-IsAnswered r.1 os (out ++ r.0 ∷ []) r.2 live' in
          (
            p,
            rw (e, called) ran,
            record {
              allowed = h.allowed;
              answered = rw e (
                  h.answered
                  ∙ processes-out o r.0 out (before_exit os)
                      (ap (λ (x : Operation). x.process) result ∙ kept o c t));
              exited = rw e h.exited;
            },
            waits,
          )
    ]

    -- With a client that keeps the process of each operation, a client worker never follows a null
    -- pointer, whatever operations it takes: it answers each one before the first exit, in order and
    -- for the process that it was for, and ends exactly if there is an exit. It makes, opens, uses
    -- and closes its clients in that order, and leaves none open where it ends.
    pub run_client-answers :
        (node : String) (ops : List Operation) (s : S)
        → (p : Progress (ClientWorker C) S) × (run_client api (new_worker node) ops s ≡ some p)
          × IsAnswered ops [] p
    unfolding run_client new_worker
    run_client-answers node ops s =
        let (p, ran, h, _) =
          run_async-IsAnswered (new_worker node) ops [] s (new_worker-IsLive node) in
        (p, ran, h)

    -- The worker of a thread that waits for operations: a new one, or one that has taken operations
    -- and none of them an exit.
    pub data IsWaiting : ClientWorker C → Type 0 where
      hired : (node : String) → IsWaiting (new_worker node)
      went_on :
          {wk : ClientWorker C} (ops : List Operation) (s : S) (p : Progress (ClientWorker C) S)
          → IsWaiting wk
          → run_client api wk ops s ≡ some p
          → p.ended ≡ false
          → IsWaiting p.worker

    IsWaiting-IsLive : (wk : ClientWorker C) → IsWaiting wk → IsLive wk
    unfolding run_client
    IsWaiting-IsLive wk (hired node) = new_worker-IsLive node
    IsWaiting-IsLive wk' (went_on {wk} ops s p waiting ran open_ended) =
        let (q, e, h, waits) = run_async-IsAnswered wk ops [] s (IsWaiting-IsLive wk waiting) in
        same (sym e ∙ ran) (waits (cc (sym e ∙ ran, open_ended)))
      where
        same :
            {q : Progress (ClientWorker C) S}
            → ◌≡◌ {A = Option (Progress (ClientWorker C) S)} (some q) (some p)
            → IsLive q.worker
            → IsLive p.worker
        same e l = subst (λ (x : Progress (ClientWorker C) S). IsLive x.worker) (injective e) l
          where
            injective :
                {q : Progress (ClientWorker C) S}
                → ◌≡◌ {A = Option (Progress (ClientWorker C) S)} (some q) (some p)
                → q ≡ p
            injective e = cc

    -- Such a worker answers what it takes next.
    pub IsWaiting-answers :
        (wk : ClientWorker C) (ops : List Operation) (s : S)
        → IsWaiting wk
        → (p : Progress (ClientWorker C) S) × (run_client api wk ops s ≡ some p)
          × IsAnswered ops [] p
    unfolding run_client
    IsWaiting-answers wk ops s waiting =
        let (p, ran, h, _) = run_async-IsAnswered wk ops [] s (IsWaiting-IsLive wk waiting) in
        (p, ran, h)
