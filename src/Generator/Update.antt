-- ===== src/Generator/Update.antt =====
-- `generator::update`: a case for each class. `none` is a call through the null pointer.
use mathlib.Core.Option
use jepsen_in_cpp.Prelude.Int.{ℤ}
use jepsen_in_cpp.Prelude.{ℕ, Bool, if◌then◌else◌, Option, none, some}
use jepsen_in_cpp.Operation.{Operation}
use jepsen_in_cpp.Context.{Context, process_to_thread, on_threads_context}
use jepsen_in_cpp.Generator.Types.{
  GeneratorPtr, Generators, null, operation, function, list, validate, on_threads, time_limit,
  stagger, mix, any, end, link, new_stagger, put,
}
use jepsen_in_cpp.Generator.Copy.{copy_list, link?}

-- `copy->generators.front() = upd`.
abbrev pub replace_front :
    {S : Type 0} → Option (GeneratorPtr S) → Option (Generators S) → Option (GeneratorPtr S)
replace_front none copy = none
replace_front (some upd) none = none
replace_front (some upd) (some copy) = some (list (put copy 0 upd))

-- `update` of `Validate`, `OnThreads`, `TimeLimit`, `Stagger` and `Mix`, given the updates below.
module _ {S : Type 0} where
  abbrev pub update_validate : Option (GeneratorPtr S) → Option (GeneratorPtr S)
  update_validate upd = Option.map validate upd

  abbrev pub update_on_threads :
      GeneratorPtr S → (ℤ → Bool) → ℤ → Option (GeneratorPtr S) → Option (GeneratorPtr S)
  update_on_threads g filter thread upd =
      if filter thread
      then Option.map (λ u. on_threads u filter) upd
      else some (on_threads g filter)

  abbrev pub update_time_limit : ℤ → ℤ → Option (GeneratorPtr S) → Option (GeneratorPtr S)
  update_time_limit limit cutoff upd = Option.map (time_limit limit cutoff) upd

  abbrev pub update_stagger : ℕ → ℤ → Option (GeneratorPtr S) → Option (GeneratorPtr S)
  update_stagger dt next_time upd = Option.map (new_stagger dt next_time) upd

  abbrev pub update_mix : ℕ → Generators S → Option (GeneratorPtr S)
  update_mix i gs = some (mix i gs)

unfoldable mutual
  unfolding copy_list

  pub update : {S : Type 0} → GeneratorPtr S → Context → Operation → Option (GeneratorPtr S)
  update null ctx event = some null
  update (operation o) ctx event = some (operation o)
  update (function f) ctx event = some (function f)
  update (list end) ctx event = some null
  update (list (link g gs)) ctx event = replace_front (update g ctx event) (copy_list (link g gs))
  update (validate g) ctx event = update_validate (update g ctx event)
  update (on_threads g filter) ctx event =
      update_on_threads g filter (process_to_thread ctx event.process)
        (update g (on_threads_context filter ctx) event)
  update (time_limit limit cutoff g) ctx event = update_time_limit limit cutoff (update g ctx event)
  update (stagger dt next_time g) ctx event = update_stagger dt next_time (update g ctx event)
  update (mix i gs) ctx event = update_mix i gs
  update (any gs) ctx event = Option.map any (update_all gs ctx event)

  -- The loop of `Any::update`.
  pub update_all : {S : Type 0} → Generators S → Context → Operation → Option (Generators S)
  update_all end ctx event = some end
  update_all (link g gs) ctx event = link? (update g ctx event) (update_all gs ctx event)
