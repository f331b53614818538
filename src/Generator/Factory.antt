-- ===== src/Generator/Factory.antt =====
-- src/jepsen/generator/GeneratorFactory.h: the functions that make the generators.
use jepsen_in_cpp.Prelude.{ℕ, Bool, List}
use jepsen_in_cpp.Prelude.Int.{ℤ}
use jepsen_in_cpp.Operation.{Operation}
use jepsen_in_cpp.Context.{Context}
use jepsen_in_cpp.Generator.Types.{
  GeneratorPtr, Generators, null, operation, function, list, validate, on_threads, time_limit,
  stagger, mix, any, new_stagger, of_operations,
}

module _ {S : Type 0} where
  abbrev pub create_nullptr_generator : GeneratorPtr S
  create_nullptr_generator = null

  -- The `createGenerator`s: of an operation, of a function of the context, of a function without
  -- arguments, of operations, and of generators.
  abbrev pub create_generator : Operation → GeneratorPtr S
  create_generator op = operation op

  abbrev pub create_function_generator : (Context → S → Operation × S) → GeneratorPtr S
  create_function_generator func_with_context = function func_with_context

  abbrev pub create_base_generator : (S → Operation × S) → GeneratorPtr S
  create_base_generator func_base = function (λ ctx s. func_base s)

  abbrev pub create_operations_generator : List Operation → GeneratorPtr S
  create_operations_generator operations = list (of_operations operations)

  abbrev pub create_list_generator : Generators S → GeneratorPtr S
  create_list_generator generators = list generators

  abbrev pub create_validate : GeneratorPtr S → GeneratorPtr S
  create_validate gen = validate gen

  abbrev pub create_on_threads : GeneratorPtr S → (ℤ → Bool) → GeneratorPtr S
  create_on_threads gen filter = on_threads gen filter

  -- `createTimeLimit(dt, cutoff, gen)`. The other one is `new_time_limit`.
  abbrev pub create_time_limit : (dt cutoff : ℤ) → GeneratorPtr S → GeneratorPtr S
  create_time_limit dt cutoff gen = time_limit dt cutoff gen

  -- `createStagger(dt, gen)`, which leaves `next_time` with what the memory happens to hold.
  abbrev pub create_unset_stagger : (unset : ℤ) → ℕ → GeneratorPtr S → GeneratorPtr S
  create_unset_stagger unset dt gen = stagger dt unset gen

  -- `createStagger(dt, nextTime, gen)`.
  abbrev pub create_stagger : ℕ → (next_time : ℤ) → GeneratorPtr S → GeneratorPtr S
  create_stagger dt next_time gen = new_stagger dt next_time gen

  abbrev pub create_mix : ℕ → Generators S → GeneratorPtr S
  create_mix idx gens = mix idx gens

  abbrev pub create_any : Generators S → GeneratorPtr S
  create_any gens = any gens
