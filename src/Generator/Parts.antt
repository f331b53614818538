-- ===== src/Generator/Parts.antt =====
-- What is put into a steady list, left of it or copied from it is steady again.
use jepsen_in_cpp.Prelude.{◌<◌, ◌≤◌, ℕ, zero, suc, Bool, some, ◌≡◌, arith}
use jepsen_in_cpp.Prelude.Options.{OnSome-apply}
use jepsen_in_cpp.Generator.Types.{GeneratorPtr, Generators, list, end, link, put, pop_front, count}
use jepsen_in_cpp.Generator.Copy.{copy_list}
use jepsen_in_cpp.Generator.Like.{LikeAll, same_link, copy_list-Like}
use jepsen_in_cpp.Generator.Steady.{
  IsSteady, AllSteady, IsSolid, AllSolid, LikeAll-AllSteady, rank_all, LikeAll-rank_all,
}

module _ {S : Type 0} where
  pub popped-rank :
      {first : GeneratorPtr S} {rest copy : Generators S}
      → LikeAll (link first rest) copy
      → rank_all (pop_front copy) ≤ rank_all rest
  popped-rank (same_link l ls) = LikeAll-rank_all ls

  pub copied-Like : (gs copy : Generators S) → copy_list gs ≡ some copy → LikeAll gs copy
  copied-Like gs copy e = OnSome-apply _ _ copy (copy_list-Like gs) e

  module _ (empty_lists : Bool) where
    pub put-AllSteady :
        (gs : Generators S) (i : ℕ) (g : GeneratorPtr S)
        → AllSteady empty_lists gs
        → IsSteady empty_lists g
        → AllSteady empty_lists (put gs i g)
    put-AllSteady end i g h k = tt
    put-AllSteady (link f gs) zero g h k = (k, h.1)
    put-AllSteady (link f gs) (suc i) g h k = (h.0, put-AllSteady gs i g h.1 k)

    pub put-AllSolid :
        (gs : Generators S) (i : ℕ) (g : GeneratorPtr S)
        → AllSolid empty_lists gs
        → IsSolid empty_lists g
        → AllSolid empty_lists (put gs i g)
    put-AllSolid end i g h k = tt
    put-AllSolid (link f gs) zero g h k = (k, h.1)
    put-AllSolid (link f gs) (suc i) g h k = (h.0, put-AllSolid gs i g h.1 k)

    pub popped-AllSteady :
        (gs : Generators S) → AllSteady empty_lists gs → AllSteady empty_lists (pop_front gs)
    popped-AllSteady end h = tt
    popped-AllSteady (link g gs) h = h.1

    pub put-IsSolid :
        (gs : Generators S) (g : GeneratorPtr S)
        → 0 < count gs
        → IsSolid empty_lists (list (put gs 0 g))
    put-IsSolid end g h = absurd (omega arith)
    put-IsSolid (link f gs) g h = tt

    pub copied-AllSteady :
        (gs copy : Generators S)
        → AllSteady empty_lists gs
        → copy_list gs ≡ some copy
        → AllSteady empty_lists copy
    copied-AllSteady gs copy h e = LikeAll-AllSteady empty_lists (copied-Like gs copy e) h
