-- ===== src/Generator/Steady.antt =====
-- Generators that `op` comes to an end of: no mix, which cannot end, no stagger with an interval of
-- 0, no function that yields `nil`, and under `Any` nothing that is or is copied to the null pointer.
use mathlib.Core.Option
use jepsen_in_cpp.Prelude.{Bool, true, ℕ, suc, ◌+◌, ◌≤◌, false, Option, some, ◌≡◌, ◌≢◌, refl, arith}
use jepsen_in_cpp.Operation.{is_nil}
use jepsen_in_cpp.Context.{Context}
use jepsen_in_cpp.Generator.Types.{
  GeneratorPtr, Generators, null, operation, function, list, validate, on_threads, time_limit,
  stagger, mix, any, end, link,
}
use jepsen_in_cpp.Generator.Copy.{copy_one, copy_list, copy_vector, link?, unless_null}
use jepsen_in_cpp.Generator.Like.{
  Like, LikeAll, same_null, same_operation, same_function, same_list, same_validate,
  same_on_threads, same_time_limit, no_time_limit, same_stagger, no_stagger, same_mix, same_any,
  same_end, same_link,
}

-- The fuel that `op` needs.
abbrev mutual
  pub rank : {S : Type 0} → GeneratorPtr S → ℕ
  rank null = 1
  rank (operation o) = 1
  rank (function f) = 3
  rank (list gs) = suc (rank_all gs)
  rank (validate g) = suc (rank g)
  rank (on_threads g filter) = suc (rank g)
  rank (time_limit limit cutoff g) = suc (rank g)
  rank (stagger dt next_time g) = suc (rank g)
  rank (mix i gs) = suc (rank_all gs)
  rank (any gs) = suc (rank_all gs)

  pub rank_all : {S : Type 0} → Generators S → ℕ
  rank_all end = 1
  rank_all (link g gs) = rank g + rank_all gs

mutual
  pub Like-rank : {S : Type 0} {g c : GeneratorPtr S} → Like g c → rank c ≤ rank g
  Like-rank same_null = omega arith
  Like-rank (same_operation o) = omega arith
  Like-rank (same_function f) = omega arith
  Like-rank (same_list l) = omega (arith, LikeAll-rank_all l)
  Like-rank (same_validate l) = omega (arith, Like-rank l)
  Like-rank (same_on_threads filter l) = omega (arith, Like-rank l)
  Like-rank (same_time_limit limit x y l) = omega (arith, Like-rank l)
  Like-rank (no_time_limit limit x l) = omega (arith, Like-rank l)
  Like-rank (same_stagger dt x y l) = omega (arith, Like-rank l)
  Like-rank (no_stagger dt x l) = omega (arith, Like-rank l)
  Like-rank (same_mix i l) = omega (arith, LikeAll-rank_all l)
  Like-rank (same_any l) = omega (arith, LikeAll-rank_all l)

  pub LikeAll-rank_all :
      {S : Type 0} {gs cs : Generators S} → LikeAll gs cs → rank_all cs ≤ rank_all gs
  LikeAll-rank_all same_end = omega arith
  LikeAll-rank_all (same_link l ls) = omega (arith, Like-rank l, LikeAll-rank_all ls)

pub rank-pos : {S : Type 0} (g : GeneratorPtr S) → 1 ≤ rank g
rank-pos null = omega arith
rank-pos (operation o) = omega arith
rank-pos (function f) = omega arith
rank-pos (list gs) = omega arith
rank-pos (validate g) = omega arith
rank-pos (on_threads g filter) = omega arith
rank-pos (time_limit limit cutoff g) = omega arith
rank-pos (stagger dt next_time g) = omega arith
rank-pos (mix i gs) = omega arith
rank-pos (any gs) = omega arith

-- `empty_lists` tells whether a list under `Any` may be empty.
module _ (empty_lists : Bool) where
  -- Neither the null pointer nor a time limit or a stagger over it, and the empty list, which an update
  -- turns into the null pointer, only where `empty_lists` says so.
  abbrev pub IsSolid : {S : Type 0} → GeneratorPtr S → Type 0
  IsSolid null = ⊥
  IsSolid (list end) = empty_lists ≡ true
  IsSolid (time_limit limit cutoff g) = IsSolid g
  IsSolid (stagger dt next_time g) = IsSolid g
  IsSolid _ = Unit {0}

  abbrev pub AllSolid : {S : Type 0} → Generators S → Type 0
  AllSolid end = Unit {0}
  AllSolid (link g gs) = IsSolid g × AllSolid gs

  abbrev mutual
    pub IsSteady : {S : Type 0} → GeneratorPtr S → Type 0
    IsSteady null = Unit {0}
    IsSteady (operation o) = Unit {0}
    IsSteady {S} (function f) = (ctx : Context) (s : S) → is_nil (f ctx s).0.type ≡ false
    IsSteady (list gs) = AllSteady gs
    IsSteady (validate g) = IsSteady g
    IsSteady (on_threads g filter) = IsSteady g
    IsSteady (time_limit limit cutoff g) = IsSteady g
    IsSteady (stagger dt next_time g) = (dt ≢ 0) × IsSteady g
    IsSteady (mix i gs) = ⊥
    IsSteady (any gs) = AllSolid gs × AllSteady gs

    pub AllSteady : {S : Type 0} → Generators S → Type 0
    AllSteady end = Unit {0}
    AllSteady (link g gs) = IsSteady g × AllSteady gs

  pub Like-IsSolid : {S : Type 0} {g c : GeneratorPtr S} → Like g c → IsSolid g → IsSolid c
  Like-IsSolid same_null h = h
  Like-IsSolid (same_operation o) h = tt
  Like-IsSolid (same_function f) h = tt
  Like-IsSolid (same_list same_end) h = h
  Like-IsSolid (same_list (same_link l ls)) h = tt
  Like-IsSolid (same_validate l) h = tt
  Like-IsSolid (same_on_threads filter l) h = tt
  Like-IsSolid (same_time_limit limit x y l) h = Like-IsSolid l h
  Like-IsSolid (no_time_limit limit x l) h = Like-IsSolid l h
  Like-IsSolid (same_stagger dt x y l) h = Like-IsSolid l h
  Like-IsSolid (no_stagger dt x l) h = Like-IsSolid l h
  Like-IsSolid (same_mix i l) h = tt
  Like-IsSolid (same_any l) h = tt

  pub LikeAll-AllSolid :
      {S : Type 0} {gs cs : Generators S} → LikeAll gs cs → AllSolid gs → AllSolid cs
  LikeAll-AllSolid same_end h = tt
  LikeAll-AllSolid (same_link l ls) h = (Like-IsSolid l h.0, LikeAll-AllSolid ls h.1)

  mutual
    pub Like-IsSteady : {S : Type 0} {g c : GeneratorPtr S} → Like g c → IsSteady g → IsSteady c
    Like-IsSteady same_null h = tt
    Like-IsSteady (same_operation o) h = tt
    Like-IsSteady (same_function f) h = h
    Like-IsSteady (same_list l) h = LikeAll-AllSteady l h
    Like-IsSteady (same_validate l) h = Like-IsSteady l h
    Like-IsSteady (same_on_threads filter l) h = Like-IsSteady l h
    Like-IsSteady (same_time_limit limit x y l) h = Like-IsSteady l h
    Like-IsSteady (no_time_limit limit x l) h = tt
    Like-IsSteady (same_stagger dt x y l) h = (h.0, Like-IsSteady l h.1)
    Like-IsSteady (no_stagger dt x l) h = tt
    Like-IsSteady (same_mix i l) h = h
    Like-IsSteady (same_any l) h = (LikeAll-AllSolid l h.0, LikeAll-AllSteady l h.1)

    pub LikeAll-AllSteady :
        {S : Type 0} {gs cs : Generators S} → LikeAll gs cs → AllSteady gs → AllSteady cs
    LikeAll-AllSteady same_end h = tt
    LikeAll-AllSteady (same_link l ls) h = (Like-IsSteady l h.0, LikeAll-AllSteady ls h.1)

  abbrev IsSome : {A : Type 0} → Option A → Type 0
  IsSome {A} o = (a : A) × (o ≡ some a)

  map-IsSome : {A B : Type 0} (f : A → B) (o : Option A) → IsSome o → IsSome (Option.map f o)
  map-IsSome f o (a, e) = (f a, rw e refl)

  link?-IsSome :
      {S : Type 0} (g : Option (GeneratorPtr S)) (gs : Option (Generators S))
      → IsSome g
      → IsSome gs
      → IsSome (link? g gs)
  link?-IsSome g gs (a, e) (b, k) = (link a b, rw (e, k) refl)

  solid_copy :
      {S : Type 0} (g : GeneratorPtr S) {o : Option (GeneratorPtr S)}
      → IsSolid g
      → IsSome (unless_null g o)
      → IsSome o
  solid_copy null h k = elim h [ ]
  solid_copy (operation o) h k = k
  solid_copy (function f) h k = k
  solid_copy (list end) h k = k
  solid_copy (list (link g gs)) h k = k
  solid_copy (validate g) h k = k
  solid_copy (on_threads g filter) h k = k
  solid_copy (time_limit limit cutoff g) h k = k
  solid_copy (stagger dt next_time g) h k = k
  solid_copy (mix i gs) h k = k
  solid_copy (any gs) h k = k

  -- A copy that is made behind a test for the null pointer, and wrapped.
  wrapped :
      {S : Type 0} (g : GeneratorPtr S) (f : GeneratorPtr S → GeneratorPtr S)
      (o : Option (GeneratorPtr S))
      → IsSome (unless_null g o)
      → IsSome (unless_null g (Option.map f o))
  wrapped null f o k = (null, refl)
  wrapped (operation r) f o k = map-IsSome f _ k
  wrapped (function h) f o k = map-IsSome f _ k
  wrapped (list gs) f o k = map-IsSome f _ k
  wrapped (validate g) f o k = map-IsSome f _ k
  wrapped (on_threads g filter) f o k = map-IsSome f _ k
  wrapped (time_limit limit cutoff g) f o k = map-IsSome f _ k
  wrapped (stagger dt next_time g) f o k = map-IsSome f _ k
  wrapped (mix i gs) f o k = map-IsSome f _ k
  wrapped (any gs) f o k = map-IsSome f _ k

  -- Copies of steady generators follow no null pointer.
  mutual
    unfolding copy_one copy_list copy_vector

    copy_one-IsSome :
        {S : Type 0} (g : GeneratorPtr S) → IsSteady g → IsSome (unless_null g (copy_one g))
    copy_one-IsSome null h = (null, refl)
    copy_one-IsSome (operation o) h = (operation o, refl)
    copy_one-IsSome (function f) h = (function f, refl)
    copy_one-IsSome (list gs) h = map-IsSome list _ (copy_list-IsSome gs h)
    copy_one-IsSome (validate g) h = map-IsSome validate _ (copy_one-IsSome g h)
    copy_one-IsSome (on_threads g filter) h = map-IsSome _ _ (copy_one-IsSome g h)
    copy_one-IsSome (time_limit limit cutoff g) h = wrapped g _ _ (copy_one-IsSome g h)
    copy_one-IsSome (stagger dt next_time g) h = wrapped g _ _ (copy_one-IsSome g h.1)
    copy_one-IsSome (mix i gs) h = elim h [ ]
    copy_one-IsSome (any gs) h = map-IsSome any _ (copy_vector-IsSome gs h.0 h.1)

    pub copy_list-IsSome : {S : Type 0} (gs : Generators S) → AllSteady gs → IsSome (copy_list gs)
    copy_list-IsSome end h = (end, refl)
    copy_list-IsSome (link g gs) h =
        link?-IsSome _ _ (copy_one-IsSome g h.0) (copy_list-IsSome gs h.1)

    pub copy_vector-IsSome :
        {S : Type 0} (gs : Generators S) → AllSolid gs → AllSteady gs → IsSome (copy_vector gs)
    copy_vector-IsSome end h k = (end, refl)
    copy_vector-IsSome (link g gs) h k =
        link?-IsSome _ _ (solid_copy g h.0 (copy_one-IsSome g k.0)) (copy_vector-IsSome gs h.1 k.1)
