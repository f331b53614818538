-- ===== src/Runner/Lifecycle.antt =====
-- src/jepsen/Runner.cpp, `Runner::run` and the setup and teardown around the loop. The calls of the
-- operating system, the database, the clients and the nemesis are events.
use jepsen_in_cpp.Prelude.{
  String, Bool, if◌then◌else◌, Option, none, some, List, [], ◌∷◌, ◌++◌, map,
}

-- The calls, each with the node that it is for. `cases_run` is the loop of `runCases`.
pub data Event : Type 0 where
  os_setup os_teardown db_setup db_teardown primary_setup : String → Event
  client_open client_setup client_teardown client_close : String → Event
  nemesis_setup nemesis_teardown cases_run : Event

-- What is executed in parallel until all of it has ended: the calls of each thread, in order.
abbrev pub Phase : Type 0
Phase = List (List Event)

-- `std::for_each(std::execution::par, nodes.begin(), nodes.end(), f)`.
abbrev pub for_each : (String → List Event) → List String → Phase
for_each f nodes = map f nodes

-- What one thread does alone.
abbrev pub alone : List Event → Phase
alone events = events ∷ []

unfoldable pub setup_os : List String → List Phase
setup_os nodes = for_each (λ node. os_setup node ∷ []) nodes ∷ []

unfoldable pub teardown_os : List String → List Phase
teardown_os nodes = for_each (λ node. os_teardown node ∷ []) nodes ∷ []

-- `setupDB`, where the database names its primaries if it is a `DBPrimaryInterface`.
unfoldable pub setup_db : Option (List String) → List String → List Phase
setup_db primary_db nodes = for_each (λ node. db_setup node ∷ []) nodes ∷ elim primary_db [
  | none ↦ []
  | some primaries ↦ alone (map (λ primary. primary_setup primary) primaries) ∷ []
]

unfoldable pub teardown_db : List String → List Phase
teardown_db nodes = for_each (λ node. db_teardown node ∷ []) nodes ∷ []

-- The nemesis works in a thread of its own, whose end is waited for.
unfoldable pub setup_client_nemesis : List String → List Phase
setup_client_nemesis nodes =
    ((nemesis_setup ∷ []) ∷ for_each (λ node. client_open node ∷ client_setup node ∷ []) nodes) ∷ []

unfoldable pub teardown_client_nemesis : List String → List Phase
teardown_client_nemesis nodes =
    ((nemesis_teardown ∷ [])
      ∷ for_each (λ node. client_teardown node ∷ client_close node ∷ []) nodes)
    ∷ []

-- `Runner::run`.
unfoldable pub run : (leave_db_running : Bool) → Option (List String) → List String → List Phase
unfolding setup_os teardown_db setup_db setup_client_nemesis teardown_client_nemesis teardown_os
run leave_db_running primary_db nodes =
    setup_os nodes
    ++ teardown_db nodes
    ++ setup_db primary_db nodes
    ++ setup_client_nemesis nodes
    ++ alone (cases_run ∷ []) ∷ []
    ++ teardown_client_nemesis nodes
    ++ (if leave_db_running then [] else teardown_db nodes)
    ++ teardown_os nodes
