-- ===== src/Generator/Fits.antt =====
-- Which operations a generator may be asked for: where the free threads are among those of `F`,
-- each operation is left to the runner to assign, or it is for the nemesis, which is then the only
-- thread of `F`. Copies, updates and the parts of a generator stay within this.
use jepsen_in_cpp.Prelude.{
  ℕ, zero, suc, Bool, true, ◌&&◌, Option, none, some, ◌≡◌, ◌⊎◌, subst, if_ind,
}
use jepsen_in_cpp.Prelude.Int.{ℤ}
use jepsen_in_cpp.Prelude.Options.{OnSome, OnSome-apply, OnSome-map}
use jepsen_in_cpp.Operation.{Operation, invalid_process, nemesis_process}
use jepsen_in_cpp.Context.{Context, on_threads_context, process_to_thread}
use jepsen_in_cpp.Generator.Types.{
  GeneratorPtr, Generators, null, operation, function, list, validate, on_threads, time_limit,
  stagger, mix, any, end, link, at, put, without, pop_front, new_stagger,
}
use jepsen_in_cpp.Generator.Copy.{copy_list, copy_vector, link?}
use jepsen_in_cpp.Generator.Update.{update, update_all, replace_front}
use jepsen_in_cpp.Generator.Like.{
  Like, LikeAll, same_null, same_operation, same_function, same_list, same_validate,
  same_on_threads, same_time_limit, no_time_limit, same_stagger, no_stagger, same_mix, same_any,
  same_end, same_link, copy_list-Like, copy_vector-Like,
}

abbrev pub FitsOperation : (ℤ → Bool) → Operation → Type 0
FitsOperation F o =
    (o.process ≡ invalid_process)
    ⊎ ((o.process ≡ nemesis_process) × ((t : ℤ) → F t ≡ true → t ≡ nemesis_process))

abbrev mutual
  pub Fits : {S : Type 0} → (ℤ → Bool) → GeneratorPtr S → Type 0
  Fits F null = Unit {0}
  Fits F (operation o) = FitsOperation F o
  Fits {S} F (function f) = (ctx : Context) (s : S) → FitsOperation F (f ctx s).0
  Fits F (list gs) = FitsAll F gs
  Fits F (validate g) = Fits F g
  Fits F (on_threads g filter) = Fits (λ t. F t && filter t) g
  Fits F (time_limit limit cutoff g) = Fits F g
  Fits F (stagger dt next_time g) = Fits F g
  Fits F (mix i gs) = FitsAll F gs
  Fits F (any gs) = FitsAll F gs

  pub FitsAll : {S : Type 0} → (ℤ → Bool) → Generators S → Type 0
  FitsAll F end = Unit {0}
  FitsAll F (link g gs) = Fits F g × FitsAll F gs

mutual
  pub Like-Fits :
      {S : Type 0} (F : ℤ → Bool) {g c : GeneratorPtr S} → Like g c → Fits F g → Fits F c
  Like-Fits F same_null h = tt
  Like-Fits F (same_operation o) h = h
  Like-Fits F (same_function f) h = h
  Like-Fits F (same_list l) h = LikeAll-Fits F l h
  Like-Fits F (same_validate l) h = Like-Fits F l h
  Like-Fits F (same_on_threads filter l) h = Like-Fits (λ t. F t && filter t) l h
  Like-Fits F (same_time_limit limit x y l) h = Like-Fits F l h
  Like-Fits F (no_time_limit limit x l) h = tt
  Like-Fits F (same_stagger dt x y l) h = Like-Fits F l h
  Like-Fits F (no_stagger dt x l) h = tt
  Like-Fits F (same_mix i l) h = LikeAll-Fits F l h
  Like-Fits F (same_any l) h = LikeAll-Fits F l h

  pub LikeAll-Fits :
      {S : Type 0} (F : ℤ → Bool) {gs cs : Generators S}
      → LikeAll gs cs
      → FitsAll F gs
      → FitsAll F cs
  LikeAll-Fits F same_end h = tt
  LikeAll-Fits F (same_link l ls) h = (Like-Fits F l h.0, LikeAll-Fits F ls h.1)

module _ {S : Type 0} (F : ℤ → Bool) where
  pub copy_list-Fits : (gs cs : Generators S) → FitsAll F gs → copy_list gs ≡ some cs → FitsAll F cs
  copy_list-Fits gs cs h e =
      LikeAll-Fits F (OnSome-apply (LikeAll gs) (copy_list gs) cs (copy_list-Like gs) e) h

  pub copy_vector-Fits :
      (gs cs : Generators S) → FitsAll F gs → copy_vector gs ≡ some cs → FitsAll F cs
  copy_vector-Fits gs cs h e =
      LikeAll-Fits F (OnSome-apply (LikeAll gs) (copy_vector gs) cs (copy_vector-Like gs) e) h

  pub put-Fits :
      (gs : Generators S) (i : ℕ) (g : GeneratorPtr S)
      → FitsAll F gs
      → Fits F g
      → FitsAll F (put gs i g)
  put-Fits end i g h k = tt
  put-Fits (link f gs) zero g h k = (k, h.1)
  put-Fits (link f gs) (suc i) g h k = (h.0, put-Fits gs i g h.1 k)

  pub without-Fits : (gs : Generators S) (i : ℕ) → FitsAll F gs → FitsAll F (without gs i)
  without-Fits end i h = tt
  without-Fits (link f gs) zero h = h.1
  without-Fits (link f gs) (suc i) h = (h.0, without-Fits gs i h.1)

  pub pop_front-Fits : (gs : Generators S) → FitsAll F gs → FitsAll F (pop_front gs)
  pop_front-Fits end h = tt
  pop_front-Fits (link f gs) h = h.1

  pub at-Fits :
      (gs : Generators S) (i : ℕ) (g : GeneratorPtr S) → FitsAll F gs → at gs i ≡ some g → Fits F g
  at-Fits end i g h e = cc
  at-Fits (link f gs) zero g h e = subst (Fits F) {x = f} {y = g} (cc) h.0
  at-Fits (link f gs) (suc i) g h e = at-Fits gs i g h.1 e

replace_front-Fits :
    {S : Type 0} (F : ℤ → Bool) (u : Option (GeneratorPtr S)) (copy : Option (Generators S))
    → OnSome (Fits F) u
    → OnSome (FitsAll F) copy
    → OnSome (Fits F) (replace_front u copy)
replace_front-Fits F none copy h k = tt
replace_front-Fits F (some u) none h k = tt
replace_front-Fits F (some u) (some copy) h k = put-Fits F copy 0 u k h

link?-Fits :
    {S : Type 0} (F : ℤ → Bool) (u : Option (GeneratorPtr S)) (us : Option (Generators S))
    → OnSome (Fits F) u
    → OnSome (FitsAll F) us
    → OnSome (FitsAll F) (link? u us)
link?-Fits F none us h k = tt
link?-Fits F (some u) none h k = tt
link?-Fits F (some u) (some us) h k = (h, k)

copied-Fits :
    {S : Type 0} (F : ℤ → Bool) (gs : Generators S) (copy : Option (Generators S))
    → FitsAll F gs
    → OnSome (LikeAll gs) copy
    → OnSome (FitsAll F) copy
copied-Fits F gs none h l = tt
copied-Fits F gs (some cs) h l = LikeAll-Fits F l h

mutual
  unfolding update

  -- A generator that is told of an event still fits.
  pub update-Fits :
      {S : Type 0} (F : ℤ → Bool) (g : GeneratorPtr S) (ctx : Context) (event : Operation)
      → Fits F g
      → OnSome (Fits F) (update g ctx event)
  update-Fits F null ctx event h = tt
  update-Fits F (operation o) ctx event h = h
  update-Fits F (function f) ctx event h = h
  update-Fits F (list end) ctx event h = tt
  update-Fits F (list (link g gs)) ctx event h =
      replace_front-Fits F (update g ctx event) (copy_list (link g gs))
        (update-Fits F g ctx event h.0)
        (copied-Fits F (link g gs) (copy_list (link g gs)) h (copy_list-Like (link g gs)))
  update-Fits F (validate g) ctx event h =
      OnSome-map (Fits F) (Fits F) validate (update g ctx event) (update-Fits F g ctx event h)
        (λ u k. k)
  update-Fits F (on_threads g filter) ctx event h =
      let G : ℤ → Bool = λ t. F t && filter t in
      if_ind (OnSome (Fits F)) (filter (process_to_thread ctx event.process)) _ _
        (λ _.
          OnSome-map (Fits G) (Fits F) (λ u. on_threads u filter)
            (update g (on_threads_context filter ctx) event)
            (update-Fits G g (on_threads_context filter ctx) event h) (λ u k. k))
        (λ _. h)
  update-Fits F (time_limit limit cutoff g) ctx event h =
      OnSome-map (Fits F) (Fits F) (time_limit limit cutoff) (update g ctx event)
        (update-Fits F g ctx event h) (λ u k. k)
  update-Fits F (stagger dt next g) ctx event h =
      OnSome-map (Fits F) (Fits F) (new_stagger dt next) (update g ctx event)
        (update-Fits F g ctx event h) (λ u k. k)
  update-Fits F (mix i gs) ctx event h = h
  update-Fits F (any gs) ctx event h =
      OnSome-map (FitsAll F) (Fits F) any (update_all gs ctx event)
        (update_all-Fits F gs ctx event h) (λ u k. k)

  update_all-Fits :
      {S : Type 0} (F : ℤ → Bool) (gs : Generators S) (ctx : Context) (event : Operation)
      → FitsAll F gs
      → OnSome (FitsAll F) (update_all gs ctx event)
  update_all-Fits F end ctx event h = tt
  update_all-Fits F (link g gs) ctx event h =
      link?-Fits F (update g ctx event) (update_all gs ctx event) (update-Fits F g ctx event h.0)
        (update_all-Fits F gs ctx event h.1)
