-- ===== src/Generator/Copy.antt =====
-- `copyOne` of each class, and what a generator shares with its copy.
use mathlib.Core.Option
use jepsen_in_cpp.Prelude.Int.{ℤ}
use jepsen_in_cpp.Prelude.{Bool, if◌then◌else◌, ℕ, zero, suc, Option, none, some}
use jepsen_in_cpp.Generator.Types.{
  GeneratorPtr, Generators, null, operation, function, list, validate, on_threads, time_limit,
  stagger, mix, any, end, link, is_null, new_stagger,
}

-- A copy behind a test for the null pointer.
abbrev pub unless_null :
    {S : Type 0} → GeneratorPtr S → Option (GeneratorPtr S) → Option (GeneratorPtr S)
unless_null gen copied = if is_null gen then some null else copied

abbrev pub link? :
    {S : Type 0} → Option (GeneratorPtr S) → Option (Generators S) → Option (Generators S)
link? none gs = none
link? (some g) none = none
link? (some g) (some gs) = some (link g gs)

-- `copyOne` of `Validate`, `OnThreads`, `TimeLimit`, `Stagger` and `Mix`, given the copies below.
module _ {S : Type 0} where
  abbrev pub copy_validate : GeneratorPtr S → Option (GeneratorPtr S) → Option (GeneratorPtr S)
  copy_validate g copied = Option.map validate (unless_null g copied)

  abbrev pub copy_on_threads :
      GeneratorPtr S → (ℤ → Bool) → Option (GeneratorPtr S) → Option (GeneratorPtr S)
  copy_on_threads g filter copied = Option.map (λ c. on_threads c filter) (unless_null g copied)

  abbrev pub copy_time_limit :
      ℤ → ℤ → GeneratorPtr S → Option (GeneratorPtr S) → Option (GeneratorPtr S)
  copy_time_limit limit cutoff g copied =
      unless_null g (Option.map (time_limit limit cutoff) copied)

  abbrev pub copy_stagger :
      ℕ → ℤ → GeneratorPtr S → Option (GeneratorPtr S) → Option (GeneratorPtr S)
  copy_stagger dt next_time g copied = unless_null g (Option.map (new_stagger dt next_time) copied)

  -- The copies are dropped, and the new mix shares the elements.
  abbrev pub copy_mix : ℕ → Generators S → Option (Generators S) → Option (GeneratorPtr S)
  copy_mix i gs copied = Option.map (λ copies. mix i gs) copied

unfoldable mutual
  -- `copyOne` is a virtual call: `none` is a call through the null pointer.
  pub copy_one : {S : Type 0} → GeneratorPtr S → Option (GeneratorPtr S)
  copy_one null = none
  copy_one (operation o) = some (operation o)
  copy_one (function f) = some (function f)
  copy_one (list gs) = Option.map list (copy_list gs)
  copy_one (validate g) = copy_validate g (copy_one g)
  copy_one (on_threads g filter) = copy_on_threads g filter (copy_one g)
  copy_one (time_limit limit cutoff g) = copy_time_limit limit cutoff g (copy_one g)
  copy_one (stagger dt next_time g) = copy_stagger dt next_time g (copy_one g)
  copy_one (mix i gs) = copy_mix i gs (copy_vector gs)
  copy_one (any gs) = Option.map any (copy_vector gs)

  -- The loop of `ListGenerator::copyOne`, which tests for the null pointer.
  pub copy_list : {S : Type 0} → Generators S → Option (Generators S)
  copy_list end = some end
  copy_list (link g gs) = link? (unless_null g (copy_one g)) (copy_list gs)

  -- The loops of `Mix` and `Any`, which do not.
  pub copy_vector : {S : Type 0} → Generators S → Option (Generators S)
  copy_vector end = some end
  copy_vector (link g gs) = link? (copy_one g) (copy_vector gs)

-- A copy shares the elements of its mixes with the original. `share g c` is `g` after `op` has
-- written to the fields of its copy `c`.
unfoldable mutual
  pub share : {S : Type 0} → GeneratorPtr S → GeneratorPtr S → GeneratorPtr S
  share (list gs) (list cs) = list (share_all gs cs)
  share (validate g) (validate c) = validate (share g c)
  share (on_threads g filter) (on_threads c _) = on_threads (share g c) filter
  share (time_limit limit cutoff g) (time_limit _ _ c) = time_limit limit cutoff (share g c)
  share (stagger dt next_time g) (stagger _ _ c) = stagger dt next_time (share g c)
  share (mix i gs) (mix _ cs) = mix i cs
  share (any gs) (any cs) = any (share_all gs cs)
  share g _ = g

  pub share_all : {S : Type 0} → Generators S → Generators S → Generators S
  share_all (link g gs) (link c cs) = link (share g c) (share_all gs cs)
  share_all gs _ = gs

-- The same for a vector of which the element at `i` was left out of the copy.
unfoldable pub share_without : {S : Type 0} → Generators S → ℕ → Generators S → Generators S
unfolding share_all
share_without end i cs = end
share_without (link g gs) zero cs = link g (share_all gs cs)
share_without (link g gs) (suc i) end = link g gs
share_without (link g gs) (suc i) (link c cs) = link (share g c) (share_without gs i cs)
