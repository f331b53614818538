-- ===== src/Context/Ready.antt =====
-- Which processes an operation may be handed to: those that a free thread runs.
use jepsen_in_cpp.Prelude.{
  Bool, true, false, ◌&&◌, ◌==◌, ◌≡◌, refl, ◌⊎◌, inl, inr, List, [], ◌∷◌, length, In, All, keep,
  In-get_elem?, Bool-cases, ℕ, some, arith,
}
use jepsen_in_cpp.Prelude.Int.{ℤ, eqb_ℤ_iff}
use jepsen_in_cpp.Prelude.Ensures.{
  Ensures, Ensures-pure, Ensures-or_fault, Ensures-lift, Ensures-if, Ensures-bind,
}
use jepsen_in_cpp.Operation.{Operation, is_nil, is_pending, invalid_process}
use jepsen_in_cpp.Context.{
  Context, Workers, World, lookup, on_threads_context, random_free_process, draw_process,
}
use jepsen_in_cpp.Context.Processes.{IsOwn}

-- A free thread runs the process.
pub record IsReady (ctx : Context) (process : ℤ) : Type 0 where
  pub thread : ℤ
  pub is_free : In thread ctx.free_threads
  pub runs : lookup thread ctx.workers ≡ some process

-- The threads of the context run processes of their own, and the free ones are among those of `F`.
pub record IsRunning (n : ℕ) (F : ℤ → Bool) (ctx : Context) : Type 0 where
  pub owned : All (IsOwn n) ctx.workers
  pub allowed : (t : ℤ) → In t ctx.free_threads → F t ≡ true

-- An operation that asks for something is for a free thread.
abbrev pub IsServed : Context → Operation → Type 0
IsServed ctx o = is_nil o.type ≡ false → is_pending o.type ≡ false → IsReady ctx o.process

pub In-keep :
    {A : Type 0} (test : A → Bool) (xs : List A) (a : A)
    → In a (keep test xs)
    → In a xs × (test a ≡ true)
In-keep test [] a h = elim h [ ]
In-keep test (x ∷ xs) a h = elim (Bool-cases (test x)) [
  | inl e ↦ elim (rw e at h) [
    | inl same ↦ (inl same, rw same e)
    | inr m ↦ let (m', k) = In-keep test xs a m in (inr m', k)
  ]
  | inr e ↦ let (m, k) = In-keep test xs a (rw e at h) in (inr m, k)
]

All-keep :
    {A : Type 0} (P : A → Type 0) (test : A → Bool) (xs : List A) → All P xs → All P (keep test xs)
All-keep P test [] h = tt
All-keep P test (x ∷ xs) h = elim (Bool-cases (test x)) [
  | inl e ↦ rw e (h.0, All-keep P test xs h.1)
  | inr e ↦ rw e (All-keep P test xs h.1)
]

lookup-keep_test :
    (test : ℤ → Bool) (w : Workers) (t p : ℤ)
    → lookup t (keep (λ (x : ℤ × ℤ). test x.0) w) ≡ some p
    → test t ≡ true
unfolding lookup
lookup-keep_test test [] t p h = cc
lookup-keep_test test ((u, q) ∷ w) t p h =
    ground (arith, eqb_ℤ_iff t u, lookup-keep_test test w t p)

-- A thread that is kept runs the process that it ran.
pub lookup-keep :
    (test : ℤ → Bool) (w : Workers) (t p : ℤ)
    → lookup t (keep (λ (x : ℤ × ℤ). test x.0) w) ≡ some p
    → lookup t w ≡ some p
unfolding lookup
lookup-keep test [] t p h = cc
lookup-keep test ((u, q) ∷ w) t p h =
    ground (arith, eqb_ℤ_iff t u, lookup-keep_test test w t p, lookup-keep test w t p)

pub IsRunning-on_threads :
    (n : ℕ) (F filter : ℤ → Bool) (ctx : Context)
    → IsRunning n F ctx
    → IsRunning n (λ t. F t && filter t) (on_threads_context filter ctx)
unfolding on_threads_context
IsRunning-on_threads n F filter ctx r = record {
  owned = All-keep (IsOwn n) _ ctx.workers r.owned;
  allowed = λ t m. let (m', k) = In-keep filter ctx.free_threads t m in rw (r.allowed t m', k) refl;
}

pub IsReady-on_threads :
    (filter : ℤ → Bool) (ctx : Context) (p : ℤ)
    → IsReady (on_threads_context filter ctx) p
    → IsReady ctx p
unfolding on_threads_context
IsReady-on_threads filter ctx p r = record {
  thread = r.thread;
  is_free = (In-keep filter ctx.free_threads r.thread r.is_free).0;
  runs = lookup-keep filter ctx.workers r.thread p r.runs;
}

-- A drawn process is that of a free thread, or there is no free thread.
abbrev pub Draws : Context → ℤ → Type 0
Draws ctx p = (p ≡ invalid_process) ⊎ IsReady ctx p

pub random_free_process-Draws :
    (w : World) (ctx : Context) → Ensures (Draws ctx) (random_free_process w ctx)
unfolding random_free_process draw_process
random_free_process-Draws w ctx =
    Ensures-if (length ctx.free_threads == 0) _ _ (λ _. Ensures-pure _ (inl refl))
      λ _. Ensures-bind {P = λ i. Unit {0}} _ _ (Ensures-lift _ (λ s. tt)) λ i _.
        Ensures-bind {P = λ t. In t ctx.free_threads} _ _
          (Ensures-or_fault _ (λ t e. In-get_elem? ctx.free_threads i t e))
          λ t m. Ensures-or_fault _ λ p e. inr (record { thread = t; is_free = m; runs = e })
