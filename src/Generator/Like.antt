-- ===== src/Generator/Like.antt =====
-- What a call of `op` and a copy leave alone: `Like g c` says that `c` is `g` but for the times
-- that `TimeLimit` and `Stagger` hold, and for such generators over nothing, which `copyOne` turns
-- into the null pointer.
use mathlib.Core.Option
use jepsen_in_cpp.Prelude.{ℕ, zero, suc, Option, none, some, ◌≡◌, subst, Bool}
use jepsen_in_cpp.Prelude.Int.{ℤ}
use jepsen_in_cpp.Prelude.Options.{OnSome, OnSome-map}
use jepsen_in_cpp.Operation.{Operation, invalid_time}
use jepsen_in_cpp.Context.{Context}
use jepsen_in_cpp.Generator.Types.{
  GeneratorPtr, Generators, null, operation, function, list, validate, on_threads, time_limit,
  stagger, mix, any, end, link, new_stagger, without, at, put,
}
use jepsen_in_cpp.Generator.Op.{generators_of}
use jepsen_in_cpp.Generator.Copy.{
  copy_one, copy_list, copy_vector, share, share_all, share_without, link?, unless_null,
}

mutual
  pub data Like {S : Type 0} : GeneratorPtr S → GeneratorPtr S → Type 0 where
    same_null : Like null null
    same_operation : (o : Operation) → Like (operation o) (operation o)
    same_function : (f : Context → S → Operation × S) → Like (function f) (function f)
    same_list : {gs cs : Generators S} → LikeAll gs cs → Like (list gs) (list cs)
    same_validate : {g c : GeneratorPtr S} → Like g c → Like (validate g) (validate c)
    same_on_threads :
        {g c : GeneratorPtr S} (filter : ℤ → Bool)
        → Like g c
        → Like (on_threads g filter) (on_threads c filter)
    same_time_limit :
        {g c : GeneratorPtr S} (limit x y : ℤ)
        → Like g c
        → Like (time_limit limit x g) (time_limit limit y c)
    no_time_limit :
        {g : GeneratorPtr S} (limit x : ℤ) → Like g null → Like (time_limit limit x g) null
    same_stagger :
        {g c : GeneratorPtr S} (dt : ℕ) (x y : ℤ)
        → Like g c
        → Like (stagger dt x g) (stagger dt y c)
    no_stagger : {g : GeneratorPtr S} (dt : ℕ) (x : ℤ) → Like g null → Like (stagger dt x g) null
    same_mix : {gs cs : Generators S} (i : ℕ) → LikeAll gs cs → Like (mix i gs) (mix i cs)
    same_any : {gs cs : Generators S} → LikeAll gs cs → Like (any gs) (any cs)

  pub data LikeAll {S : Type 0} : Generators S → Generators S → Type 0 where
    same_end : LikeAll end end
    same_link :
        {g c : GeneratorPtr S} {gs cs : Generators S}
        → Like g c
        → LikeAll gs cs
        → LikeAll (link g gs) (link c cs)

mutual
  pub Like-refl : {S : Type 0} (g : GeneratorPtr S) → Like g g
  Like-refl null = same_null
  Like-refl (operation o) = same_operation o
  Like-refl (function f) = same_function f
  Like-refl (list gs) = same_list (LikeAll-refl gs)
  Like-refl (validate g) = same_validate (Like-refl g)
  Like-refl (on_threads g filter) = same_on_threads filter (Like-refl g)
  Like-refl (time_limit limit x g) = same_time_limit limit x x (Like-refl g)
  Like-refl (stagger dt x g) = same_stagger dt x x (Like-refl g)
  Like-refl (mix i gs) = same_mix i (LikeAll-refl gs)
  Like-refl (any gs) = same_any (LikeAll-refl gs)

  pub LikeAll-refl : {S : Type 0} (gs : Generators S) → LikeAll gs gs
  LikeAll-refl end = same_end
  LikeAll-refl (link g gs) = same_link (Like-refl g) (LikeAll-refl gs)

mutual
  pub Like-trans : {S : Type 0} {g c d : GeneratorPtr S} → Like g c → Like c d → Like g d
  Like-trans same_null k = k
  Like-trans (same_operation o) k = k
  Like-trans (same_function f) k = k
  Like-trans (same_list h) (same_list k) = same_list (LikeAll-trans h k)
  Like-trans (same_validate h) (same_validate k) = same_validate (Like-trans h k)
  Like-trans (same_on_threads filter h) (same_on_threads _ k) =
      same_on_threads filter (Like-trans h k)
  Like-trans (same_time_limit limit x y h) (same_time_limit _ _ z k) =
      same_time_limit limit x z (Like-trans h k)
  Like-trans (same_time_limit limit x y h) (no_time_limit _ _ k) =
      no_time_limit limit x (Like-trans h k)
  Like-trans (no_time_limit limit x h) same_null = no_time_limit limit x h
  Like-trans (same_stagger dt x y h) (same_stagger _ _ z k) = same_stagger dt x z (Like-trans h k)
  Like-trans (same_stagger dt x y h) (no_stagger _ _ k) = no_stagger dt x (Like-trans h k)
  Like-trans (no_stagger dt x h) same_null = no_stagger dt x h
  Like-trans (same_mix i h) (same_mix _ k) = same_mix i (LikeAll-trans h k)
  Like-trans (same_any h) (same_any k) = same_any (LikeAll-trans h k)

  pub LikeAll-trans :
      {S : Type 0} {gs cs ds : Generators S} → LikeAll gs cs → LikeAll cs ds → LikeAll gs ds
  LikeAll-trans same_end k = k
  LikeAll-trans (same_link h hs) (same_link k ks) = same_link (Like-trans h k) (LikeAll-trans hs ks)

mutual
  unfolding share share_all

  pub share-Like : {S : Type 0} {g c : GeneratorPtr S} → Like g c → Like g (share g c)
  share-Like same_null = same_null
  share-Like (same_operation o) = same_operation o
  share-Like (same_function f) = same_function f
  share-Like (same_list h) = same_list (share_all-Like h)
  share-Like (same_validate h) = same_validate (share-Like h)
  share-Like (same_on_threads filter h) = same_on_threads filter (share-Like h)
  share-Like (same_time_limit limit x y h) = same_time_limit limit x x (share-Like h)
  share-Like (no_time_limit limit x h) = Like-refl _
  share-Like (same_stagger dt x y h) = same_stagger dt x x (share-Like h)
  share-Like (no_stagger dt x h) = Like-refl _
  share-Like (same_mix i h) = same_mix i h
  share-Like (same_any h) = same_any (share_all-Like h)

  pub share_all-Like :
      {S : Type 0} {gs cs : Generators S} → LikeAll gs cs → LikeAll gs (share_all gs cs)
  share_all-Like same_end = same_end
  share_all-Like (same_link h hs) = same_link (share-Like h) (share_all-Like hs)

pub share_without-Like :
    {S : Type 0} (gs : Generators S) (i : ℕ) {cs : Generators S}
    → LikeAll (without gs i) cs
    → LikeAll gs (share_without gs i cs)
unfolding share_without
share_without-Like end i h = same_end
share_without-Like (link g gs) zero h = same_link (Like-refl g) (share_all-Like h)
share_without-Like (link g gs) (suc i) (same_link h hs) =
    same_link (share-Like h) (share_without-Like gs i hs)

unless_null-Like :
    {S : Type 0} (g : GeneratorPtr S) (c : Option (GeneratorPtr S))
    → OnSome (Like g) c
    → OnSome (Like g) (unless_null g c)
unless_null-Like null c h = same_null
unless_null-Like _ c h = h

time_limit-Like :
    {S : Type 0} (limit x : ℤ) (g : GeneratorPtr S) (c : Option (GeneratorPtr S))
    → OnSome (Like g) c
    → OnSome (Like (time_limit limit x g)) (unless_null g (Option.map (time_limit limit x) c))
time_limit-Like limit x null c h = no_time_limit limit x same_null
time_limit-Like limit x g c h =
    OnSome-map (Like g) _ (time_limit limit x) c h (λ d k. same_time_limit limit x x k)

stagger-Like :
    {S : Type 0} (dt : ℕ) (x : ℤ) (g : GeneratorPtr S) (c : Option (GeneratorPtr S))
    → OnSome (Like g) c
    → OnSome (Like (stagger dt x g)) (unless_null g (Option.map (new_stagger dt x) c))
stagger-Like dt x null c h = no_stagger dt x same_null
stagger-Like dt x g c h =
    OnSome-map (Like g) _ (new_stagger dt x) c h (λ d k. same_stagger dt x invalid_time k)

link?-Like :
    {S : Type 0} (g : GeneratorPtr S) (gs : Generators S) (c : Option (GeneratorPtr S))
    (cs : Option (Generators S))
    → OnSome (Like g) c
    → OnSome (LikeAll gs) cs
    → OnSome (LikeAll (link g gs)) (link? c cs)
link?-Like g gs none cs h k = tt
link?-Like g gs (some c) none h k = tt
link?-Like g gs (some c) (some cs) h k = same_link h k

mutual
  unfolding copy_one copy_list copy_vector

  pub copy_one-Like : {S : Type 0} (g : GeneratorPtr S) → OnSome (Like g) (copy_one g)
  copy_one-Like null = tt
  copy_one-Like (operation o) = same_operation o
  copy_one-Like (function f) = same_function f
  copy_one-Like (list gs) =
      OnSome-map (LikeAll gs) _ list (copy_list gs) (copy_list-Like gs) (λ c k. same_list k)
  copy_one-Like (validate g) =
      OnSome-map (Like g) _ validate _ (unless_null-Like g _ (copy_one-Like g))
        (λ c k. same_validate k)
  copy_one-Like (on_threads g filter) =
      OnSome-map (Like g) _ (λ c. on_threads c filter) _ (unless_null-Like g _ (copy_one-Like g))
        (λ c k. same_on_threads filter k)
  copy_one-Like (time_limit limit x g) = time_limit-Like limit x g _ (copy_one-Like g)
  copy_one-Like (stagger dt x g) = stagger-Like dt x g _ (copy_one-Like g)
  copy_one-Like (mix i gs) =
      OnSome-map (LikeAll gs) _ (λ c. mix i gs) (copy_vector gs) (copy_vector-Like gs)
        (λ c k. Like-refl _)
  copy_one-Like (any gs) =
      OnSome-map (LikeAll gs) _ any (copy_vector gs) (copy_vector-Like gs) (λ c k. same_any k)

  pub copy_list-Like : {S : Type 0} (gs : Generators S) → OnSome (LikeAll gs) (copy_list gs)
  copy_list-Like end = same_end
  copy_list-Like (link g gs) =
      link?-Like g gs (unless_null g (copy_one g)) (copy_list gs)
        (unless_null-Like g _ (copy_one-Like g)) (copy_list-Like gs)

  pub copy_vector-Like : {S : Type 0} (gs : Generators S) → OnSome (LikeAll gs) (copy_vector gs)
  copy_vector-Like end = same_end
  copy_vector-Like (link g gs) =
      link?-Like g gs (copy_one g) (copy_vector gs) (copy_one-Like g) (copy_vector-Like gs)

-- The lists that stand in generators of one class.
pub Like-list :
    {S : Type 0} {gs : Generators S} {c : GeneratorPtr S}
    → Like (list gs) c
    → LikeAll gs (generators_of c)
Like-list (same_list h) = h

pub Like-mix :
    {S : Type 0} {gs : Generators S} {i : ℕ} {c : GeneratorPtr S}
    → Like (mix i gs) c
    → LikeAll gs (generators_of c)
Like-mix (same_mix _ h) = h

pub put-Like :
    {S : Type 0} (gs : Generators S) (i : ℕ) (g c : GeneratorPtr S)
    → at gs i ≡ some g
    → Like g c
    → LikeAll gs (put gs i c)
put-Like end i g c e h = cc
put-Like (link f gs) zero g c e h = same_link (subst (λ x. Like x c) (cc) h) (LikeAll-refl gs)
put-Like (link f gs) (suc i) g c e h = same_link (Like-refl f) (put-Like gs i g c e h)

pub without-Like :
    {S : Type 0} (i : ℕ) {gs cs : Generators S}
    → LikeAll gs cs
    → LikeAll (without gs i) (without cs i)
without-Like i same_end = same_end
without-Like zero (same_link h hs) = hs
without-Like (suc i) (same_link h hs) = same_link h (without-Like i hs)
