-- ===== src/Generator/Lasting.antt =====
-- What `op` yields of a steady generator and what `update` makes of it is steady again, so that the
-- next call returns as well.
use jepsen_in_cpp.Prelude.{◌<◌, false, Option, ℕ, zero, suc, some, ◌≡◌, refl, if_ind, arith}
use jepsen_in_cpp.Prelude.Ensures.{Ensures, Ensures-pure, Ensures-both}
use jepsen_in_cpp.Prelude.Options.{OnSome-apply}
use jepsen_in_cpp.Operation.{Operation}
use jepsen_in_cpp.Context.{Context, World, on_threads_context, process_to_thread}
use jepsen_in_cpp.Generator.Types.{
  GeneratorPtr, Generators, null, operation, function, list, validate, on_threads, time_limit,
  stagger, mix, any, end, link, put, count, new_stagger,
}
use jepsen_in_cpp.Generator.Op.{op}
use jepsen_in_cpp.Generator.Like.{LikeAll, same_link, copy_list-Like}
use jepsen_in_cpp.Generator.Frame.{op-Keeps}
use jepsen_in_cpp.Generator.Steady.{IsSteady, AllSteady, IsSolid, AllSolid, copy_list-IsSome}
use jepsen_in_cpp.Generator.Parts.{put-AllSteady, put-IsSolid, copied-AllSteady}
use jepsen_in_cpp.Generator.Leaving.{
  Lasts, KeepsOn, nil-Lasts, operation_op-Lasts, function_op-Lasts, list_op-Lasts,
  validate_op-Lasts, on_threads_op-Lasts, time_limit_op-Lasts, stagger_op-Lasts, any_op-Lasts,
}
use jepsen_in_cpp.Generator.Update.{update, update_all}

module _ (w : World) where
  open w use {State}

  kept :
      (fuel : ℕ) (g : GeneratorPtr State) (ctx : Context)
      → Ensures (Lasts false g) (op w fuel g ctx)
      → Ensures (KeepsOn false g) (op w fuel g ctx)
  kept fuel g ctx h = Ensures-both _ (op-Keeps w fuel g ctx) h

  pub op-Lasts :
      (fuel : ℕ) (g : GeneratorPtr State) (ctx : Context)
      → IsSteady false g
      → Ensures (Lasts false g) (op w fuel g ctx)
  unfolding op
  op-Lasts zero g ctx steady = record { apply = λ s a s' e. cc }
  op-Lasts (suc fuel) null ctx steady = Ensures-pure _ (nil-Lasts false {S = State} null null)
  op-Lasts (suc fuel) (operation o) ctx steady = operation_op-Lasts false w o ctx
  op-Lasts (suc fuel) (function f) ctx steady =
      function_op-Lasts false w (op w fuel) (λ h c k. kept fuel h c (op-Lasts fuel h c k)) f ctx
        steady
  op-Lasts (suc fuel) (list gs) ctx steady =
      list_op-Lasts false w (op w fuel) (λ h c k. kept fuel h c (op-Lasts fuel h c k)) gs ctx steady
  op-Lasts (suc fuel) (validate g) ctx steady =
      validate_op-Lasts false w (op w fuel) (λ h c k. kept fuel h c (op-Lasts fuel h c k)) g ctx
        steady
  op-Lasts (suc fuel) (on_threads g filter) ctx steady =
      on_threads_op-Lasts false w (op w fuel) (λ h c k. kept fuel h c (op-Lasts fuel h c k)) g
        filter ctx steady
  op-Lasts (suc fuel) (time_limit limit cutoff g) ctx steady =
      time_limit_op-Lasts false w (op w fuel) (λ h c k. kept fuel h c (op-Lasts fuel h c k)) limit
        cutoff g ctx steady
  op-Lasts (suc fuel) (stagger dt next g) ctx steady =
      stagger_op-Lasts false w (op w fuel) (λ h c k. kept fuel h c (op-Lasts fuel h c k)) dt next g
        ctx steady.0 steady.1
  op-Lasts (suc fuel) (mix i gs) ctx steady = elim steady [ ]
  op-Lasts (suc fuel) (any gs) ctx steady =
      any_op-Lasts false w (op w fuel) (λ h c k. kept fuel h c (op-Lasts fuel h c k)) gs ctx
        steady.0 steady.1

-- What an update of the generator gives: a generator that is steady, and solid where it was.
abbrev pub Renews : {S : Type 0} → GeneratorPtr S → Option (GeneratorPtr S) → Type 0
Renews {S} g o =
    (u : GeneratorPtr S) × (o ≡ some u) × IsSteady false u × (IsSolid false g → IsSolid false u)

abbrev RenewsAll : {S : Type 0} → Generators S → Option (Generators S) → Type 0
RenewsAll {S} gs o =
    (us : Generators S) × (o ≡ some us)
    × AllSteady false us
    × (AllSolid false gs → AllSolid false us)

count-link :
    {S : Type 0} {g : GeneratorPtr S} {gs cs : Generators S} → LikeAll (link g gs) cs → 0 < count cs
count-link (same_link l ls) = omega arith

mutual
  unfolding update update_all

  pub update-Renews :
      {S : Type 0} (g : GeneratorPtr S) (ctx : Context) (event : Operation)
      → IsSteady false g
      → Renews g (update g ctx event)
  update-Renews null ctx event h = (null, refl, tt, λ k. k)
  update-Renews (operation o) ctx event h = (operation o, refl, tt, λ k. k)
  update-Renews (function f) ctx event h = (function f, refl, h, λ k. k)
  update-Renews (list end) ctx event h = (null, refl, tt, λ k. absurd (cc k))
  update-Renews (list (link g gs)) ctx event h =
      let (u, e, k, l) = update-Renews g ctx event h.0 in
      let (c, e') = copy_list-IsSome false (link g gs) h in
      (
        list (put c 0 u),
        rw (e, e') refl,
        put-AllSteady false c 0 u (copied-AllSteady false (link g gs) c h e') k,
        λ _.
            put-IsSolid false c u (count-link (OnSome-apply _ _ c (copy_list-Like (link g gs)) e')),
      )
  update-Renews (validate g) ctx event h =
      let (u, e, k, l) = update-Renews g ctx event h in (validate u, rw e refl, k, λ _. tt)
  update-Renews (on_threads g filter) ctx event h =
      let (u, e, k, l) = update-Renews g (on_threads_context filter ctx) event h in
      if_ind (Renews (on_threads g filter)) (filter (process_to_thread ctx event.process)) _ _
        (λ _. (on_threads u filter, rw e refl, k, λ _. tt))
        (λ _. (on_threads g filter, refl, h, λ _. tt))
  update-Renews (time_limit limit cutoff g) ctx event h =
      let (u, e, k, l) = update-Renews g ctx event h in (time_limit limit cutoff u, rw e refl, k, l)
  update-Renews (stagger dt next g) ctx event h =
      let (u, e, k, l) = update-Renews g ctx event h.1 in
      (new_stagger dt next u, rw e refl, (h.0, k), l)
  update-Renews (mix i gs) ctx event h = elim h [ ]
  update-Renews (any gs) ctx event h =
      let (us, e, k, l) = update_all-Renews gs ctx event h.1 in
      (any us, rw e refl, (l h.0, k), λ _. tt)

  update_all-Renews :
      {S : Type 0} (gs : Generators S) (ctx : Context) (event : Operation)
      → AllSteady false gs
      → RenewsAll gs (update_all gs ctx event)
  update_all-Renews end ctx event h = (end, refl, tt, λ k. k)
  update_all-Renews (link g gs) ctx event h =
      let (u, e, k, l) = update-Renews g ctx event h.0 in
      let (us, e', k', l') = update_all-Renews gs ctx event h.1 in
      (link u us, rw (e, e') refl, (k, k'), λ s. (l s.0, l' s.1))
