-- ===== src/Generator/Types.antt =====
-- The classes of Generator.h, and the constructors that GeneratorFactory.h calls.
use jepsen_in_cpp.Prelude.{
  ℕ, zero, suc, Bool, true, false, not, ◌&&◌, Option, none, some, List, [], ◌∷◌, M,
}
use jepsen_in_cpp.Prelude.Int.{ℤ}
use jepsen_in_cpp.Operation.{Operation, invalid_time, nil_type, of_type, is_nil}
use jepsen_in_cpp.Context.{Context}

-- A `GeneratorPtr`: `null` is the null pointer, the others are the class behind the pointer with
-- its fields. `S` is the state of the outside world, which a function generator may use and change.
mutual
  pub data GeneratorPtr (S : Type 0) : Type 0 where
    null : GeneratorPtr S
    operation : Operation → GeneratorPtr S
    function : (Context → S → Operation × S) → GeneratorPtr S
    list : Generators S → GeneratorPtr S
    validate : GeneratorPtr S → GeneratorPtr S
    on_threads : GeneratorPtr S → (ℤ → Bool) → GeneratorPtr S
    time_limit : (limit cutoff : ℤ) → GeneratorPtr S → GeneratorPtr S
    stagger : ℕ → (next_time : ℤ) → GeneratorPtr S → GeneratorPtr S
    mix : ℕ → Generators S → GeneratorPtr S
    any : Generators S → GeneratorPtr S

  -- `std::list<GeneratorPtr>` and `std::vector<GeneratorPtr>`.
  pub data Generators (S : Type 0) : Type 0 where
    end : Generators S
    link : GeneratorPtr S → Generators S → Generators S

-- What `op` returns, with the generator that it was called on as the call leaves it: `TimeLimit`
-- and `Stagger` write to their own fields.
pub record Yield (S : Type 0) : Type 0 where
  pub op : Operation
  pub gen : GeneratorPtr S
  pub self : GeneratorPtr S

-- `op` as the classes call it.
abbrev pub Call : Type 0 → Type 0
Call S = GeneratorPtr S → Context → M S (Yield S)

module _ {S : Type 0} where
  abbrev pub is_null : GeneratorPtr S → Bool
  is_null null = true
  is_null _ = false

  -- `notNil`.
  abbrev pub not_nil : Operation → GeneratorPtr S → Bool
  not_nil op gen = not (is_nil op.type) && not (is_null gen)

  -- The constant `nil`, returned by the generator `self`.
  abbrev pub nil : GeneratorPtr S → Yield S
  nil self = record { op = of_type nil_type; gen = null; self = self }

  -- `createTimeLimit(dt, gen)`.
  abbrev pub new_time_limit : ℤ → GeneratorPtr S → GeneratorPtr S
  new_time_limit limit gen = time_limit limit invalid_time gen

  -- `Stagger(dt, nextTime, gen)`. The constructor does not read its `nextTime`.
  abbrev pub new_stagger : ℕ → ℤ → GeneratorPtr S → GeneratorPtr S
  new_stagger dt next_time gen = stagger dt invalid_time gen

  abbrev pub count : Generators S → ℕ
  count end = 0
  count (link g gs) = suc (count gs)

  -- `gens[i]`; reading out of range is undefined.
  abbrev pub at : Generators S → ℕ → Option (GeneratorPtr S)
  at end i = none
  at (link g gs) zero = some g
  at (link g gs) (suc i) = at gs i

  -- `gens[i] = gen`.
  abbrev pub put : Generators S → ℕ → GeneratorPtr S → Generators S
  put end i gen = end
  put (link g gs) zero gen = link gen gs
  put (link g gs) (suc i) gen = link g (put gs i gen)

  -- The elements but the one at `i`.
  abbrev pub without : Generators S → ℕ → Generators S
  without end i = end
  without (link g gs) zero = gs
  without (link g gs) (suc i) = link g (without gs i)

  -- `generators.pop_front()`.
  abbrev pub pop_front : Generators S → Generators S
  pop_front end = end
  pop_front (link g gs) = gs

  -- `createGenerator` of a list of operations.
  abbrev pub of_operations : List Operation → Generators S
  of_operations [] = end
  of_operations (o ∷ os) = link (operation o) (of_operations os)
