-- ===== src/Runner/Hiring.antt =====
-- src/jepsen/Runner.cpp, the start of `Runner::runCases` with the workers of the clients.
use jepsen_in_cpp.Prelude.{
  ℕ, zero, suc, ◌+◌, ◌%◌, ◌==◌, if◌then◌else◌, String, Option, none, some, ◌≡◌, List, [], ◌∷◌, In,
  length, get_elem?,
}
use jepsen_in_cpp.Prelude.Int.{ℤ, pos}
use jepsen_in_cpp.Generator.Types.{GeneratorPtr}
use jepsen_in_cpp.Worker.{ClientWorker, new_worker}
use jepsen_in_cpp.Runner.{Runner}
use jepsen_in_cpp.Runner.Start.{start_runner}

-- `nodes[i % nodes.size()]`.
unfoldable pub node_of : List String → ℕ → Option String
node_of nodes i = if length nodes == 0 then none else get_elem? nodes (i % length nodes)

-- The client workers from `i`; `none` where there is no node for them.
unfoldable pub client_workers :
    {C : Type 0} → List String → ℕ → ℕ → Option (List (ℤ × ClientWorker C))
unfolding node_of new_worker
client_workers nodes zero i = some []
client_workers nodes (suc left) i =
    let later = client_workers nodes left (i + 1) in
    elim (node_of nodes i) [
      | none ↦ none
      | some node ↦ elim later [ none ↦ none | some rest ↦ some ((pos i, new_worker node) ∷ rest) ]
    ]

-- The client workers and the runner where the loop begins. `none` is the remainder by the number of
-- nodes where there is none.
unfoldable pub start_cases :
    {C S : Type 0}
    → List String
    → ℤ
    → ℕ
    → GeneratorPtr S
    → Option (List (ℤ × ClientWorker C) × Runner S)
unfolding client_workers start_runner
start_cases nodes now concurrency generator = elim (client_workers nodes concurrency 0) [
  | none ↦ none
  | some workers ↦ some (workers, start_runner now concurrency generator)
]

module _ {C : Type 0} (nodes : List String) where
  -- The worker of a client that is new, on one of the nodes.
  abbrev pub IsHired : ℤ × ClientWorker C → Type 0
  IsHired w = (node : String) × In node nodes × (w.1 ≡ new_worker node)
