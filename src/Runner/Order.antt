-- ===== src/Runner/Order.antt =====
-- The order of the calls that `Runner::run` makes, however the threads of a phase take turns.
use jepsen_in_cpp.Prelude.{
  In, String, Bool, true, false, if◌then◌else◌, Option, none, some, List, [], ◌∷◌, ◌++◌, map, keep,
  All, Bool-cases, ◌≡◌, ◌≢◌, refl, sym, ◌∙◌, ap, inl, inr,
}
use jepsen_in_cpp.Runner.Lifecycle.{
  Event, Phase, for_each, alone, os_setup, os_teardown, db_setup, db_teardown, primary_setup,
  client_open, client_setup, client_teardown, client_close, nemesis_setup, nemesis_teardown,
  cases_run, run, setup_os, teardown_os, setup_db, teardown_db, setup_client_nemesis,
  teardown_client_nemesis,
}
use mathlib.Core.List.{append-nil, append_assoc}
use text.Mathlib.Text as Text
use text.Mathlib.TextEquality.{eq_iff}
use jepsen_in_cpp.Runner.Interleaving.{
  Merge, neither, first, Interleaved, no_thread, beside, IsTrace, no_phase, next_phase, IsDistinct,
  keep-Merge_second, keep-append, keep-for_each,
}

-- The calls for a node, and those that are not for a single node but for the tests themselves.
abbrev pub concerns : String → Event → Bool
concerns node (os_setup n) = Text.◌==◌ n node
concerns node (os_teardown n) = Text.◌==◌ n node
concerns node (db_setup n) = Text.◌==◌ n node
concerns node (db_teardown n) = Text.◌==◌ n node
concerns node (client_open n) = Text.◌==◌ n node
concerns node (client_setup n) = Text.◌==◌ n node
concerns node (client_teardown n) = Text.◌==◌ n node
concerns node (client_close n) = Text.◌==◌ n node
concerns node (primary_setup n) = true
concerns node cases_run = true
concerns node nemesis_setup = false
concerns node nemesis_teardown = false

same : (node : String) → Text.◌==◌ node node ≡ true
same node = (eq_iff node node).1 refl

other : (node n : String) → n ≢ node → Text.◌==◌ n node ≡ false
other node n ne = elim (Bool-cases (Text.◌==◌ n node)) [
  | inl e ↦ elim (ne ((eq_iff n node).0 e)) [ ]
  | inr e ↦ e
]

-- In every order of the calls of some phases, those that concern the node are `expected`.
record Keeps (node : String) (phases : List Phase) (expected : List Event) : Type 0 where
  kept : (t : List Event) → IsTrace phases t → keep (concerns node) t ≡ expected

-- A trace of phases in two parts.
split-IsTrace :
    (ps qs : List Phase) {t : List Event}
    → IsTrace (ps ++ qs) t
    → (t₁ t₂ : List Event) × (t ≡ t₁ ++ t₂) × IsTrace ps t₁ × IsTrace qs t₂
split-IsTrace [] qs {t} h = ([], t, refl, no_phase, h)
split-IsTrace (p ∷ ps) qs (next_phase {ys = ys} i h) =
    let (t₁, t₂, e, h₁, h₂) = split-IsTrace ps qs h in
    (ys ++ t₁, t₂, ap (λ l. ys ++ l) e ∙ sym (append_assoc ys t₁ t₂), next_phase i h₁, h₂)

Keeps-append :
    {node : String} (ps qs : List Phase) {xs ys : List Event}
    → Keeps node ps xs
    → Keeps node qs ys
    → Keeps node (ps ++ qs) (xs ++ ys)
Keeps-append {node} ps qs h k = record {
  kept = λ t r.
      let (t₁, t₂, e, r₁, r₂) = split-IsTrace ps qs r in
      ap (keep (concerns node)) e
      ∙ keep-append (concerns node) t₁ t₂
      ∙ cc (h.kept t₁ r₁, k.kept t₂ r₂);
}

Keeps-phase :
    {node : String} (p : Phase) {xs : List Event}
    → ((t : List Event) → Interleaved p t → keep (concerns node) t ≡ xs)
    → Keeps node (p ∷ []) xs
Keeps-phase {node} p {xs} h = record { kept = kept }
  where
    kept : (t : List Event) → IsTrace (p ∷ []) t → keep (concerns node) t ≡ xs
    kept t (next_phase {ys = ys} i no_phase) = ap (keep (concerns node)) (append-nil ys) ∙ h ys i

Merge-nil : {xs zs : List Event} → Merge xs [] zs → xs ≡ zs
Merge-nil neither = refl
Merge-nil (first {e = e} m) = ap (λ l. e ∷ l) (Merge-nil m)

Keeps-alone :
    {node : String} (xs : List Event) → keep (concerns node) xs ≡ xs → Keeps node (alone xs ∷ []) xs
Keeps-alone {node} xs h = Keeps-phase _ kept
  where
    kept : (t : List Event) → Interleaved (alone xs) t → keep (concerns node) t ≡ xs
    kept t (beside m no_thread) = ap (keep (concerns node)) (sym (Merge-nil m)) ∙ h

-- What concerns a node in a whole run.
abbrev pub node_calls : (leave_db_running : Bool) → Option (List String) → String → List Event
node_calls leave_db_running primary_db node =
    os_setup node ∷ []
    ++ db_teardown node ∷ []
    ++ (db_setup node ∷ [] ++ elim primary_db [
      | none ↦ []
      | some primaries ↦ map (λ primary. primary_setup primary) primaries
    ])
    ++ client_open node ∷ client_setup node ∷ []
    ++ cases_run ∷ []
    ++ client_teardown node ∷ client_close node ∷ []
    ++ (if leave_db_running then [] else db_teardown node ∷ [])
    ++ os_teardown node ∷ []

module _ (node : String) (nodes : List String) (among : In node nodes)
    (distinct : IsDistinct nodes) where
  -- The phases in which each node has its own thread.
  Keeps-for_each :
      (f : String → List Event)
      → ((n : String) → n ≢ node → All (λ e. concerns node e ≡ false) (f n))
      → keep (concerns node) (f node) ≡ f node
      → Keeps node (for_each f nodes ∷ []) (f node)
  Keeps-for_each f foreign own =
      Keeps-phase _ λ t i. keep-for_each (concerns node) node f foreign nodes among distinct i ∙ own

  Keeps-with_nemesis :
      (f : String → List Event) (e : Event)
      → concerns node e ≡ false
      → ((n : String) → n ≢ node → All (λ e. concerns node e ≡ false) (f n))
      → keep (concerns node) (f node) ≡ f node
      → Keeps node (((e ∷ []) ∷ for_each f nodes) ∷ []) (f node)
  Keeps-with_nemesis f e silent foreign own = Keeps-phase _ kept
    where
      kept :
          (t : List Event)
          → Interleaved ((e ∷ []) ∷ for_each f nodes) t
          → keep (concerns node) t ≡ f node
      kept t (beside m rest) =
          keep-Merge_second (concerns node) (silent, tt) m
          ∙ keep-for_each (concerns node) node f foreign nodes among distinct rest
          ∙ own

  Keeps-setup_db :
      (primary_db : Option (List String))
      → Keeps node (setup_db primary_db nodes) (
          db_setup node ∷ [] ++ elim primary_db [
            | none ↦ []
            | some primaries ↦ map (λ primary. primary_setup primary) primaries
          ])
  unfolding setup_db
  Keeps-setup_db none =
      Keeps-for_each (λ n. db_setup n ∷ []) (λ n ne. (other node n ne, tt)) (rw (same node) refl)
  Keeps-setup_db (some primaries) =
      Keeps-append (_ ∷ []) _
        (Keeps-for_each (λ n. db_setup n ∷ []) (λ n ne. (other node n ne, tt))
          (rw (same node) refl))
        (Keeps-alone (map (λ primary. primary_setup primary) primaries) (all_kept primaries))
    where
      all_kept :
          (ps : List String)
          → keep (concerns node) (map (λ p. primary_setup p) ps) ≡ map (λ p. primary_setup p) ps
      all_kept [] = refl
      all_kept (p ∷ ps) = ap (λ l. primary_setup p ∷ l) (all_kept ps)

  Keeps-run :
      (leave_db_running : Bool) (primary_db : Option (List String))
      → Keeps node
          (run leave_db_running primary_db nodes)
          (node_calls leave_db_running primary_db node)
  unfolding run setup_os teardown_db setup_client_nemesis teardown_client_nemesis teardown_os
  Keeps-run leave_db_running primary_db =
      (Keeps-append _ _
        (Keeps-append _ _
          (Keeps-append _ _
            (Keeps-append _ _
              (Keeps-append _ _
                (Keeps-append _ _
                  (Keeps-append _ _
                    (Keeps-for_each (λ n. os_setup n ∷ []) (λ n ne. (other node n ne, tt))
                      (rw (same node) refl))
                    torn_down)
                  (Keeps-setup_db primary_db))
                (Keeps-with_nemesis (λ n. client_open n ∷ client_setup n ∷ []) nemesis_setup refl
                  (λ n ne. (other node n ne, (other node n ne, tt))) (rw (same node) refl)))
              (Keeps-alone (cases_run ∷ []) refl))
            (Keeps-with_nemesis (λ n. client_teardown n ∷ client_close n ∷ []) nemesis_teardown refl
              (λ n ne. (other node n ne, (other node n ne, tt))) (rw (same node) refl)))
          (last leave_db_running))
        (Keeps-for_each (λ n. os_teardown n ∷ []) (λ n ne. (other node n ne, tt))
          (rw (same node) refl)))
    where
      torn_down : Keeps node (teardown_db nodes) (db_teardown node ∷ [])
      torn_down =
          Keeps-for_each (λ n. db_teardown n ∷ []) (λ n ne. (other node n ne, tt))
            (rw (same node) refl)

      last :
          (leave : Bool)
          → Keeps node
              (if leave then [] else teardown_db nodes)
              (if leave then [] else db_teardown node ∷ [])
      last true = record { kept = none_left }
        where
          none_left : (t : List Event) → IsTrace [] t → keep (concerns node) t ≡ []
          none_left t no_phase = refl
      last false = torn_down

-- In a run over nodes none of which is listed twice: the calls that concern a node, in the order in which they happen, however the threads take
-- turns: the operating system is set up, the database torn down and set up, then the primaries, the
-- client is opened and set up, the cases run, the client is torn down and closed, the database is torn
-- down unless it is left running, and the operating system is torn down.
pub run-node_calls :
    (leave_db_running : Bool) (primary_db : Option (List String)) (nodes : List String)
    (node : String) (t : List Event)
    → In node nodes
    → IsDistinct nodes
    → IsTrace (run leave_db_running primary_db nodes) t
    → keep (concerns node) t ≡ node_calls leave_db_running primary_db node
run-node_calls leave_db_running primary_db nodes node t among distinct trace =
    (Keeps-run node nodes among distinct leave_db_running primary_db).kept t trace
