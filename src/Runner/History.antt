-- ===== src/Runner/History.antt =====
-- What a run adds to the history: the operations that are handed out, and those that come back.
use mathlib.Core.List.{append-nil, append_assoc, map-append}
use jepsen_in_cpp.Prelude.{
  ℕ, ◌≤◌, ltb, true, some, ◌≡◌, refl, sym, ◌∙◌, ap, List, [], ◌∷◌, ◌++◌, map, arith,
}
use jepsen_in_cpp.Prelude.Int.{ℤ, pos, eqb_ℤ, ltb_ℤ}
use jepsen_in_cpp.Prelude.Ensures.{
  Ensures, Ensures-pure, Ensures-or_fault, Ensures-lift, Ensures-if, Ensures-bind,
}
use jepsen_in_cpp.Operation.{Operation}
use jepsen_in_cpp.Context.{Context, World, Threads, thread_of, process_to_thread}
use jepsen_in_cpp.Context.Ready.{IsReady, IsRunning}
use jepsen_in_cpp.Generator.Types.{GeneratorPtr, Yield}
use jepsen_in_cpp.Generator.Ready.{op-Serves}
use jepsen_in_cpp.Runner.{
  Runner, Kind, stop, wait, go, kind_of, put_op, complete, dispatch, by_kind, ask,
}
use jepsen_in_cpp.Runner.Load.{
  one_if, times_in, jobs, OneMore, OneMore-beside, OneMore-under, put_op-OneMore, Takes-OneMore,
  OneMore-last,
}
use jepsen_in_cpp.Runner.Steps.{Step, completes, asks, works, Reach, start, next}
use jepsen_in_cpp.Runner.Balance.{IsBalanced}
use jepsen_in_cpp.Runner.Invariant.{in_flight, IsSound, anyone, kind_of-go}
use jepsen_in_cpp.Runner.Turns.{
  is_among, turns-handed, turns-returned, new_in-known, count, OneMore-count, count-le-one,
  count-IsReady, Entry, handed, returned, entry_op, new_in, entries_of, entries, turns,
  turns-append,
}

-- What a step does to the operations on their way: those that it hands out, and the entries for those
-- that come back.
data Moves (flying flying' : List Operation) : List Operation → List Operation → Type 0 where
  nothing : flying' ≡ flying → Moves flying flying' [] []
  out :
      (o : Operation)
      → OneMore o flying flying'
      → count o.process flying ≡ 0
      → Moves flying flying' (o ∷ []) []
  back :
      (o o' : Operation)
      → o'.process ≡ o.process
      → OneMore o flying' flying
      → Moves flying flying' [] (o' ∷ [])

module _ (w : World) where
  open w use {State}

  -- The history after a step that moves operations so.
  abbrev Adds : Runner State → (handed returned : List Operation) → Runner State → Type 0
  Adds r hs rs r' =
      Moves (in_flight r) (in_flight r') hs rs × (r'.history ≡ r.history ++ (hs ++ rs))

  complete-Adds :
      (r : Runner State) (o : Operation) (before after : List Operation)
      → r.completions ≡ before ++ o ∷ after
      → Ensures
          (λ r'. (o' : Operation) × Adds r [] (o' ∷ []) r')
          (complete w (record r { completions = before ++ after }) o)
  unfolding complete
  complete-Adds r o before after e =
      Ensures-bind {P = λ t. Unit {0}} _ _ (Ensures-lift _ (λ s. tt)) λ time _.
        Ensures-bind {P = λ g. Unit {0}} _ _ (Ensures-or_fault _ (λ g e. tt)) λ g _.
          Ensures-pure _ (
            record o { time = time },
            (
              back o _ refl (
                  OneMore-under (jobs r.inboxes)
                    (record { before = before; after = after; without = refl; with_it = e })),
              refl,
            ),
          )

  -- What a turn of the loop that takes no completion does.
  abbrev Hands : Runner State → Runner State → Type 0
  Hands r r' = (hs : List Operation) × Adds r hs [] r'

  module _ (n : ℕ) (threads : Threads) (once : (t : ℤ) → times_in t threads ≤ 1) where
    dispatch-Hands :
        (r : Runner State) (o : Operation) (gen : GeneratorPtr State)
        → IsBalanced n threads r.ctx (in_flight r)
        → IsReady r.ctx o.process
        → Ensures (Hands r) (dispatch w r o gen)
    unfolding dispatch process_to_thread
    dispatch-Hands r o gen balanced ready =
        let thread = thread_of o.process r.ctx.workers in
        Ensures-bind {P = λ ib. put_op thread o r.inboxes ≡ some ib} _ _
          (Ensures-or_fault _ (λ ib e. e))
          λ ib e. Ensures-bind {P = λ g. Unit {0}} _ _ (Ensures-or_fault _ (λ g e. tt)) λ g _.
            Ensures-pure _ (
              o ∷ [],
              (
                out o (OneMore-beside r.completions (put_op-OneMore thread o r.inboxes ib e))
                    (count-IsReady n threads once r.ctx o.process balanced ready),
                refl,
              ),
            )

    by_kind-Hands :
        (k : Kind) (time : ℤ) (r : Runner State) (y : Yield State)
        → IsBalanced n threads r.ctx (in_flight r)
        → (k ≡ go → IsReady r.ctx (y.op).process)
        → Ensures (λ r'. r'.flag ≡ true → Hands r r') (by_kind w k time r y)
    unfolding by_kind
    by_kind-Hands stop time r y balanced ready =
        Ensures-if (ltb_ℤ (pos 0) r.outstanding) _ _
          (λ e. Ensures-pure _ (λ f. ([], (nothing refl, sym (append-nil r.history)))))
          (λ e. Ensures-pure _ (λ f. cc))
    by_kind-Hands wait time r y balanced ready =
        Ensures-pure _ (λ f. ([], (nothing refl, sym (append-nil r.history))))
    by_kind-Hands go time r y balanced ready =
        Ensures-if (ltb_ℤ time (y.op).time) _ _
          (λ e. Ensures-pure _ (λ f. ([], (nothing refl, sym (append-nil r.history)))))
          λ e. record {
            apply =
                λ s a s' k f. (dispatch-Hands r y.op y.gen balanced (ready refl)).apply s a s' k;
          }

    ask-Hands :
        (fuel : ℕ) (r : Runner State)
        → IsSound n threads r
        → Ensures (λ r'. r'.flag ≡ true → Hands r r') (ask w fuel r)
    unfolding ask
    ask-Hands fuel r sound =
        Ensures-bind {P = λ t. Unit {0}} _ _ (Ensures-lift _ (λ s. tt)) λ time _.
          let ctx : Context = record (r.ctx) { time = time } in
          Ensures-bind _ _ (op-Serves w n fuel anyone r.generator ctx idle sound.fits) λ y good.
            by_kind-Hands (kind_of (y.op).type) time (record r { ctx = ctx; generator = y.self }) y
              (record {
                assigned = sound.balanced.assigned;
                hosted = sound.balanced.hosted;
                conserved = sound.balanced.conserved;
              })
              (λ e. let (a, b) = kind_of-go (y.op).type e in good.served a b)
      where
        idle : {time : ℤ} → IsRunning n anyone (record (r.ctx) { time = time })
        idle = record { owned = sound.balanced.assigned.owned; allowed = λ t m. refl }

    -- The history after a step, and whose operations are on their way then.
    abbrev Continues : ℤ → Runner State → List Entry → Runner State → Type 0
    Continues p r es r' =
        (r'.history ≡ r.history ++ map entry_op es)
        × (turns p (is_among p (in_flight r)) es ≡ some (is_among p (in_flight r')))

    handed-Continues :
        (p : ℤ) (r r' : Runner State)
        → Hands r r'
        → Continues p r (map (λ x. handed x) (new_in r r')) r'
    unfolding turns
    handed-Continues p r r' (_, (nothing e, h)) = rw (new_in-known r r' [] h, e) (h, refl)
    handed-Continues p r r' (_, (out o one free, h)) =
        rw (new_in-known r r' (o ∷ []) h) (h, turns-handed p o one free)

    returned-Continues :
        (p : ℤ) (r r' : Runner State)
        → IsBalanced n threads r.ctx (in_flight r)
        → (o' : Operation) × Adds r [] (o' ∷ []) r'
        → Continues p r (map (λ x. returned x) (new_in r r')) r'
    returned-Continues p r r' balanced (_, (back o o' same one, h)) =
        rw (new_in-known r r' (o' ∷ []) h)
          (h, turns-returned p o o' one same (count-le-one n threads once r.ctx p balanced))

    step-Continues :
        (fuel : ℕ) (p : ℤ) (r r' : Runner State)
        → IsSound n threads r
        → (step : Step w fuel r r') → r'.flag ≡ true
        → Continues p r (entries_of step) r'
    unfolding turns
    step-Continues fuel p r r' sound (completes before o after s s' f e k) running =
        returned-Continues p r r' sound.balanced
          ((complete-Adds r o before after e).apply s r' s' k)
    step-Continues fuel p r r' sound (asks s s' f k) running =
        handed-Continues p r r' ((ask-Hands fuel r sound).apply s r' s' k running)
    step-Continues fuel p r r' sound (works o o' inboxes t same k) running =
        let taken = OneMore-beside r.completions (Takes-OneMore t) in
        let put = OneMore-under (jobs inboxes) (OneMore-last o' r.completions) in
        rw k (
          sym (append-nil r.history),
          ap (λ c. some (ltb 0 c))
              (omega (
                arith,
                OneMore-count p taken,
                OneMore-count p put,
                ap (λ q. one_if (eqb_ℤ q p)) same,
              )),
        )

    pub Reach-Continues :
        (fuel : ℕ) (p : ℤ) (r : Runner State) {r' : Runner State}
        → ((q : Runner State) → Reach w fuel r q → IsSound n threads q)
        → (reached : Reach w fuel r r') → Continues p r (entries reached) r'
    unfolding turns
    Reach-Continues fuel p r sound start = (sym (append-nil r.history), refl)
    Reach-Continues fuel p r {r'} sound (next {q} before step running) =
        let (h, t) = Reach-Continues fuel p r sound before in
        let (h', t') = step-Continues fuel p q r' (sound q before) step running in
        (
          h'
              ∙ ap (λ os. os ++ map entry_op (entries_of step)) h
              ∙ append_assoc r.history (map entry_op (entries before))
                  (map entry_op (entries_of step))
              ∙ ap (λ os. r.history ++ os)
                  (sym (map-append entry_op (entries before) (entries_of step))),
          turns-append p _ _ (entries before) (entries_of step) t ∙ t',
        )
