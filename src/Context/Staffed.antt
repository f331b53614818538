-- ===== src/Context/Staffed.antt =====
-- Contexts in which each free thread runs a process, so that a draw returns.
use jepsen_in_cpp.Prelude.{
  ℕ, zero, suc, ◌<◌, ◌==◌, ==_iff, Bool, true, some, ◌≡◌, refl, ◌∙◌, List, [], ◌∷◌, length,
  get_elem?, keep, In, In-get_elem?, arith,
}
use jepsen_in_cpp.Prelude.Int.{ℤ, eqb_ℤ_iff}
use jepsen_in_cpp.Prelude.Total.{
  Total, Total-pure, Total-or_fault, Total-lift, Total-if, Total-bind,
}
use jepsen_in_cpp.Context.{
  Context, Workers, World, lookup, on_threads_context, random_free_process, draw_process,
}
use jepsen_in_cpp.Context.Ready.{In-keep}

pub record IsStaffed (ctx : Context) : Type 0 where
  pub staffed : (t : ℤ) → In t ctx.free_threads → (p : ℤ) × (lookup t ctx.workers ≡ some p)

lookup-keep_allowed :
    (test : ℤ → Bool) (w : Workers) (t : ℤ)
    → test t ≡ true
    → lookup t (keep (λ (x : ℤ × ℤ). test x.0) w) ≡ lookup t w
unfolding lookup
lookup-keep_allowed test [] t h = refl
lookup-keep_allowed test ((u, q) ∷ w) t h =
    ground (arith, eqb_ℤ_iff t u, lookup-keep_allowed test w t h)

pub IsStaffed-on_threads :
    (filter : ℤ → Bool) (ctx : Context) → IsStaffed ctx → IsStaffed (on_threads_context filter ctx)
unfolding on_threads_context
IsStaffed-on_threads filter ctx h = record {
  staffed = λ t m.
      let (m', e) = In-keep filter ctx.free_threads t m in
      let (p, k) = h.staffed t m' in (p, lookup-keep_allowed filter ctx.workers t e ∙ k);
}

pub get_elem?-lt :
    {A : Type 0} (xs : List A) (i : ℕ) → i < length xs → (a : A) × (get_elem? xs i ≡ some a)
get_elem?-lt [] i h = absurd (omega arith)
get_elem?-lt (x ∷ xs) zero h = (x, refl)
get_elem?-lt (x ∷ xs) (suc i) h = get_elem?-lt xs i (omega arith)

-- `uniform_int_distribution` draws within its bounds.
abbrev pub DrawsInRange : World → Type 0
DrawsInRange w = (n : ℕ) (s : w.State) → 0 < n → (w.uniform n s).0 < n

pub random_free_process-Total :
    (w : World) (ctx : Context)
    → DrawsInRange w
    → IsStaffed ctx
    → Total (λ p. Unit {0}) (random_free_process w ctx)
unfolding random_free_process draw_process
random_free_process-Total w ctx fair h =
    Total-if (length ctx.free_threads == 0) _ _ (λ _. Total-pure _ tt)
      λ some_free.
        Total-bind {P = λ i. i < length ctx.free_threads} _ _
          (Total-lift _ (λ s.
            fair (length ctx.free_threads) s (ground (arith, ==_iff (length ctx.free_threads) 0))))
          λ i lt.
            let (t, e) = get_elem?-lt ctx.free_threads i lt in
            Total-bind {P = λ u. In u ctx.free_threads} _ _
              (Total-or_fault _ t e (In-get_elem? ctx.free_threads i t e))
              λ u m. let (p, k) = h.staffed u m in Total-or_fault _ p k tt
