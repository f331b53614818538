-- ===== src/Runner/Load.antt =====
-- How often a thread is free, and how many operations it has, in the queues and out of them.
use mathlib.Core.List.{append_assoc, append-nil}
use jepsen_in_cpp.Prelude.{
  ℕ, suc, ◌+◌, ◌<◌, Bool, if◌then◌else◌, Option, some, ◌≡◌, refl, sym, ◌∙◌, ap, ◌≢◌, inl, inr, List,
  [], ◌∷◌, ◌++◌, arith, In, All, Bool-cases, Option-cases, subst, length, length-append, ◌↔◌,
}
use jepsen_in_cpp.Prelude.Int.{ℤ, eqb_ℤ, eqb_ℤ_iff}
use jepsen_in_cpp.Operation.{Operation}
use jepsen_in_cpp.Context.{Threads, Workers, insert, erase, lookup, assign, thread_of}
use jepsen_in_cpp.Context.Processes.{IsOwn, thread_of-In, lookup-In}
use jepsen_in_cpp.Runner.{Inboxes, put_op}
use jepsen_in_cpp.Runner.Steps.{Takes, here, later}

abbrev pub one_if : Bool → ℕ
one_if b = if b then 1 else 0

-- How often the thread stands among the threads.
unfoldable pub times_in : ℤ → Threads → ℕ
times_in t [] = 0
times_in t (u ∷ us) = one_if (eqb_ℤ t u) + times_in t us

pub times_in-insert :
    (t u : ℤ) (us : Threads)
    → times_in u us ≡ 0
    → times_in t (insert u us) ≡ one_if (eqb_ℤ t u) + times_in t us
unfolding times_in insert
times_in-insert t u [] h = refl
times_in-insert t u (v ∷ us) h =
    ground (arith, eqb_ℤ_iff u v, eqb_ℤ_iff u u, times_in-insert t u us)

pub times_in-erase :
    (t u : ℤ) (us : Threads)
    → 0 < times_in u us
    → one_if (eqb_ℤ t u) + times_in t (erase u us) ≡ times_in t us
unfolding times_in erase
times_in-erase t u [] h = absurd (omega arith)
times_in-erase t u (v ∷ us) h =
    ground (arith, eqb_ℤ_iff u v, eqb_ℤ_iff t v, eqb_ℤ_iff t u, times_in-erase t u us)

pub times_in-In : (t : ℤ) (us : Threads) → In t us → 0 < times_in t us
unfolding times_in
times_in-In t [] m = elim m [ ]
times_in-In t (u ∷ us) (inl e) = ground (arith, eqb_ℤ_iff t u)
times_in-In t (u ∷ us) (inr m) = omega (arith, times_in-In t us m)

-- How many of the operations are with the thread.
unfoldable pub load : Workers → ℤ → List Operation → ℕ
load w t [] = 0
load w t (o ∷ os) = one_if (eqb_ℤ t (thread_of o.process w)) + load w t os

pub load-append :
    (w : Workers) (t : ℤ) (os ps : List Operation) → load w t (os ++ ps) ≡ load w t os + load w t ps
unfolding load
load-append w t [] ps = omega arith
load-append w t (o ∷ os) ps = omega (arith, load-append w t os ps)

-- A worker runs the process of the operation.
abbrev pub IsHosted : Workers → Operation → Type 0
IsHosted w o = (t : ℤ) × (lookup t w ≡ some o.process)

pub IsHosted-thread :
    (n : ℕ) (w : Workers) (t p : ℤ) → All (IsOwn n) w → lookup t w ≡ some p → thread_of p w ≡ t
IsHosted-thread n w t p own h = thread_of-In n w t p own (lookup-In w t p h)

pub lookup-assign_ne : (w : Workers) (t u q : ℤ) → t ≢ u → lookup t (assign u q w) ≡ lookup t w
unfolding lookup assign
lookup-assign_ne [] t u q h = ground (arith, eqb_ℤ_iff t u)
lookup-assign_ne ((v, p) ∷ w) t u q h =
    ground (arith, eqb_ℤ_iff t u, eqb_ℤ_iff u v, eqb_ℤ_iff t v, lookup-assign_ne w t u q)

pub lookup-assign_eq : (w : Workers) (t q : ℤ) → lookup t (assign t q w) ≡ some q
unfolding lookup assign
lookup-assign_eq [] t q = ground (arith, eqb_ℤ_iff t t)
lookup-assign_eq ((u, r) ∷ w) t q =
    ground (arith, eqb_ℤ_iff t u, eqb_ℤ_iff t t, lookup-assign_eq w t q)

-- Operations that are not with the thread stay where they are if the thread gets a new process.
module _ (n : ℕ) (w : Workers) (u q : ℤ) (own : All (IsOwn n) w)
    (next : All (IsOwn n) (assign u q w)) where
  pub moved :
      (o : Operation)
      → IsHosted w o
      → u ≢ thread_of o.process w
      → IsHosted (assign u q w) o × (thread_of o.process (assign u q w) ≡ thread_of o.process w)
  moved o (t, h) ne =
      let stays : lookup t (assign u q w) ≡ some o.process =
        lookup-assign_ne w t u q (λ e. ne (sym e ∙ sym (IsHosted-thread n w t o.process own h)))
        ∙ h in
      (
        (t, stays),
        IsHosted-thread n (assign u q w) t o.process next stays
            ∙ sym (IsHosted-thread n w t o.process own h),
      )

  pub load-moved :
      (os : List Operation)
      → All (IsHosted w) os
      → load w u os ≡ 0
      → All (IsHosted (assign u q w)) os × ((t : ℤ) → load (assign u q w) t os ≡ load w t os)
  unfolding load
  load-moved [] h e = (tt, λ t. refl)
  load-moved (o ∷ os) h e =
      let (hosted, same) = moved o h.0 (ground (arith, eqb_ℤ_iff u (thread_of o.process w))) in
      let (rest, loads) = load-moved os h.1 (omega (arith, e)) in
      ((hosted, rest), λ t. rw (same, loads t))

-- The operations in the queues of the workers.
unfoldable pub jobs : Inboxes → List Operation
jobs [] = []
jobs ((t, ops) ∷ rest) = ops ++ jobs rest

-- One list is the other with one more operation in it.
pub record OneMore (o : Operation) (fewer more : List Operation) : Type 0 where
  pub before : List Operation
  pub after : List Operation
  pub without : fewer ≡ before ++ after
  pub with_it : more ≡ before ++ o ∷ after

pub OneMore-under :
    {o : Operation} {fewer more : List Operation} (ops : List Operation)
    → OneMore o fewer more
    → OneMore o (ops ++ fewer) (ops ++ more)
OneMore-under ops m = record {
  before = ops ++ m.before;
  after = m.after;
  without = ap (λ l. ops ++ l) m.without ∙ sym (append_assoc ops m.before m.after);
  with_it = ap (λ l. ops ++ l) m.with_it ∙ sym (append_assoc ops m.before _);
}

pub OneMore-beside :
    {o : Operation} {fewer more : List Operation} (ops : List Operation)
    → OneMore o fewer more
    → OneMore o (fewer ++ ops) (more ++ ops)
OneMore-beside ops m = record {
  before = m.before;
  after = m.after ++ ops;
  without = ap (λ l. l ++ ops) m.without ∙ append_assoc m.before m.after ops;
  with_it = ap (λ l. l ++ ops) m.with_it ∙ append_assoc m.before _ ops;
}

pub OneMore-last : (o : Operation) (os : List Operation) → OneMore o os (os ++ o ∷ [])
OneMore-last o os = record {
  before = os;
  after = [];
  without = sym (append-nil os);
  with_it = refl;
}

pub put_op-OneMore :
    (thread : ℤ) (o : Operation) (ib ib' : Inboxes)
    → put_op thread o ib ≡ some ib'
    → OneMore o (jobs ib) (jobs ib')
unfolding put_op jobs
put_op-OneMore thread o [] ib' e = cc
put_op-OneMore thread o ((u, ops) ∷ rest) ib' e = elim (Bool-cases (eqb_ℤ thread u)) [
  | inl hit ↦
      subst (λ x. OneMore o (ops ++ jobs rest) (jobs x)) (placed (rw hit at e))
        (record {
          before = ops;
          after = jobs rest;
          without = refl;
          with_it = append_assoc ops (o ∷ []) (jobs rest);
        })
  | inr miss ↦ elim (Option-cases (put_op thread o rest)) [
    | inl lost ↦ cc (rw (miss, lost) at e)
    | inr (rest', found) ↦
        subst (λ x. OneMore o (ops ++ jobs rest) (jobs x)) (passed rest' (rw (miss, found) at e))
          (OneMore-under ops (put_op-OneMore thread o rest rest' found))
  ]
]
  where
    placed :
        ◌≡◌ {A = Option Inboxes} (some ((u, ops ++ o ∷ []) ∷ rest)) (some ib')
        → ◌≡◌ {A = Inboxes} ((u, ops ++ o ∷ []) ∷ rest) ib'
    placed k = cc

    passed :
        (rest' : Inboxes)
        → ◌≡◌ {A = Option Inboxes} (some ((u, ops) ∷ rest')) (some ib')
        → ◌≡◌ {A = Inboxes} ((u, ops) ∷ rest') ib'
    passed rest' k = cc

pub Takes-OneMore :
    {ib ib' : Inboxes} {o : Operation} → Takes ib o ib' → OneMore o (jobs ib') (jobs ib)
unfolding jobs
Takes-OneMore here = record { before = []; after = _; without = refl; with_it = refl }
Takes-OneMore (later {x = (t, ops)} h) = OneMore-under ops (Takes-OneMore h)

pub OneMore-load :
    (w : Workers) (t : ℤ) {o : Operation} {fewer more : List Operation}
    → OneMore o fewer more
    → load w t more ≡ one_if (eqb_ℤ t (thread_of o.process w)) + load w t fewer
unfolding load
OneMore-load w t {o} m =
    rw (m.without, m.with_it)
      (omega (arith, load-append w t m.before (o ∷ m.after), load-append w t m.before m.after))

pub OneMore-length :
    {o : Operation} {fewer more : List Operation}
    → OneMore o fewer more
    → length more ≡ suc (length fewer)
OneMore-length {o} m =
    rw (m.without, m.with_it)
      (omega (arith, length-append m.before (o ∷ m.after), length-append m.before m.after))

All-append_iff :
    {A : Type 0} (P : A → Type 0) (xs ys : List A) → All P (xs ++ ys) ↔ (All P xs × All P ys)
All-append_iff P [] ys = (λ h. (tt, h), λ h. h.1)
All-append_iff P (x ∷ xs) ys = (
  λ h. let (a, b) = (All-append_iff P xs ys).0 h.1 in ((h.0, a), b),
  λ h. (h.0.0, (All-append_iff P xs ys).1 (h.0.1, h.1)),
)

pub OneMore-All :
    (P : Operation → Type 0) {o : Operation} {fewer more : List Operation}
    → OneMore o fewer more
    → All P more ↔ (P o × All P fewer)
OneMore-All P {o} m =
    rw (m.without, m.with_it)
      (
        (λ h.
            let (a, b) = (All-append_iff P m.before (o ∷ m.after)).0 h in
            (b.0, (All-append_iff P m.before m.after).1 (a, b.1))),
        (λ h.
            let (a, b) = (All-append_iff P m.before m.after).0 h.1 in
            (All-append_iff P m.before (o ∷ m.after)).1 (a, (h.0, b))),
      )
