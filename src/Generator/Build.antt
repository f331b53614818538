-- ===== src/Generator/Build.antt =====
-- The functions by which a test builds its generator, such as `clients`, `timeLimit` and `mix`.
use jepsen_in_cpp.Prelude.{ℕ, ◌*◌, not, Bool, List, M}
use jepsen_in_cpp.Prelude.Int.{ℤ, pos, eqb_ℤ}
use jepsen_in_cpp.Operation.{Operation, nemesis_process}
use jepsen_in_cpp.Context.{World}
use jepsen_in_cpp.Generator.Types.{
  GeneratorPtr, Generators, null, end, link, new_time_limit, of_operations,
}
use jepsen_in_cpp.Generator.Factory.{create_on_threads, create_any, create_unset_stagger}
use jepsen_in_cpp.Generator.Op.{mix_of}

-- `sec2nanos`, whose product in floating point is exact up to 4611686018 seconds.
abbrev pub sec_to_nanos : ℕ → ℕ
sec_to_nanos seconds = seconds * 1000000000

abbrev pub is_client : ℤ → Bool
is_client id = not (eqb_ℤ id nemesis_process)

abbrev pub is_nemesis : ℤ → Bool
is_nemesis id = eqb_ℤ id nemesis_process

module _ {S : Type 0} where
  -- `any`.
  unfoldable pub any_of : Generators S → GeneratorPtr S
  any_of end = null
  any_of (link g end) = g
  any_of (link g (link h gs)) = create_any (link g (link h gs))

  -- `clients` and `nemesis` of one generator.
  unfoldable pub clients : GeneratorPtr S → GeneratorPtr S
  clients client_gen = create_on_threads client_gen is_client

  unfoldable pub nemesis : GeneratorPtr S → GeneratorPtr S
  nemesis nemesis_gen = create_on_threads nemesis_gen is_nemesis

  -- `clients` and `nemesis` of two.
  unfoldable pub clients_and_nemesis : GeneratorPtr S → GeneratorPtr S → GeneratorPtr S
  unfolding any_of clients nemesis
  clients_and_nemesis client_gen nemesis_gen =
      any_of (link (clients client_gen) (link (nemesis nemesis_gen) end))

  unfoldable pub nemesis_and_clients : GeneratorPtr S → GeneratorPtr S → GeneratorPtr S
  unfolding any_of clients nemesis
  nemesis_and_clients nemesis_gen client_gen =
      any_of (link (nemesis nemesis_gen) (link (clients client_gen) end))

  -- `timeLimit`, in seconds.
  unfoldable pub time_limit_seconds : ℕ → GeneratorPtr S → GeneratorPtr S
  time_limit_seconds dt gen = new_time_limit (pos (sec_to_nanos dt)) gen

  -- `stagger`, in seconds. `Stagger(dt, gen)` leaves `next_time` with the value `unset` that the
  -- memory happens to hold.
  unfoldable pub stagger_seconds : (unset : ℤ) → ℕ → GeneratorPtr S → GeneratorPtr S
  stagger_seconds unset dt gen = create_unset_stagger unset (2 * sec_to_nanos dt) gen

-- `mix` of a vector of operations.
unfoldable pub mix_of_operations : (w : World) → List Operation → M w.State (GeneratorPtr w.State)
unfolding mix_of
mix_of_operations w ops = mix_of w (of_operations ops)
