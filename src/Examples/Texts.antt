-- ===== src/Examples/Texts.antt =====
-- Concrete inputs: base64, the text of operations, and the order of the calls of a run.
use text.Mathlib.TextEquality.{eq_iff}
use jepsen_in_cpp.Prelude.{
  ◌==◌, ℕ, ◌+◌, ◌*◌, ◌/◌, true, some, none, inl, keep, List, [], ◌∷◌, ◌++◌, ◌≡◌, refl, length,
  if◌then◌else◌, arith, String, ◌≢◌,
}
use jepsen_in_cpp.Prelude.Int.{negsuc}
use jepsen_in_cpp.Base64.{base64_encode, base64_decode}
use jepsen_in_cpp.Base64.Roundtrip.{standard, base64_encode-sextets, base64_decode-encode}
use jepsen_in_cpp.Operation.{
  OpInfo, int_value, string_value, array_value, object_value, null_value, element, no_more, member,
  no_member,
}
use jepsen_in_cpp.Operation.Text.{to_string}
use jepsen_in_cpp.Operation.Printing.{to_string-shown, has_ints, shown}
use jepsen_in_cpp.Runner.Lifecycle.{
  Event, run, setup_os, teardown_os, setup_db, teardown_db, setup_client_nemesis,
  teardown_client_nemesis, os_setup, os_teardown, db_setup, db_teardown, primary_setup, client_open,
  client_setup, client_teardown, client_close, nemesis_setup, nemesis_teardown, cases_run,
}
use jepsen_in_cpp.Runner.Interleaving.{
  neither, first, second, Interleaved, no_thread, beside, IsTrace, no_phase, next_phase,
}
use jepsen_in_cpp.Runner.Order.{concerns, node_calls, run-node_calls}

abbrev two_bytes : List ℕ
two_bytes = 77 ∷ 97 ∷ []

base64_encode-sextets_example :
    (base64_encode two_bytes ≡ (if length two_bytes == 0 then none else some (standard two_bytes)))
    × (length (standard two_bytes) ≡ (length two_bytes + 2) / 3 * 4)
base64_encode-sextets_example = base64_encode-sextets two_bytes (omega arith) (omega arith)

base64_decode-encode_example :
    (cs : List ℕ) × (base64_encode two_bytes ≡ some cs) × (base64_decode cs ≡ some two_bytes)
base64_decode-encode_example =
    base64_decode-encode two_bytes (omega arith) (omega arith) (omega arith)

no_bytes : base64_encode [] ≡ none
unfolding base64_encode
no_bytes = refl

abbrev swap : OpInfo
swap = object_value (
    member "key" (int_value (negsuc 4)) (
      member "pair" (array_value (element null_value (element (string_value "b") no_more)))
        no_member))

swap_text : to_string swap ≡ some "{key:-5, pair:[nil b]}"
unfolding to_string
swap_text = refl

to_string-shown_example : to_string swap ≡ (if has_ints swap then some (shown swap) else none)
to_string-shown_example = to_string-shown swap

in_order : {x y : Event} → Interleaved ((x ∷ []) ∷ (y ∷ []) ∷ []) (x ∷ y ∷ [])
in_order = beside (first (second neither)) (beside (first neither) no_thread)

abbrev whole_run : List Event
whole_run =
    (os_setup "b" ∷ os_setup "a" ∷ [])
    ++ ((db_teardown "a" ∷ db_teardown "b" ∷ [])
        ++ ((db_setup "a" ∷ db_setup "b" ∷ [])
            ++ ((primary_setup "b" ∷ [])
                ++ ((client_open "a"
                      ∷ nemesis_setup
                      ∷ client_open "b"
                      ∷ client_setup "b"
                      ∷ client_setup "a"
                      ∷ [])
                    ++ ((cases_run ∷ [])
                        ++ ((nemesis_teardown
                              ∷ client_teardown "a"
                              ∷ client_close "a"
                              ∷ client_teardown "b"
                              ∷ client_close "b"
                              ∷ [])
                            ++ ((os_teardown "a" ∷ os_teardown "b" ∷ []) ++ [])))))))

whole_run-IsTrace : IsTrace (run true (some ("b" ∷ [])) ("a" ∷ "b" ∷ [])) whole_run
unfolding run setup_os teardown_os setup_db teardown_db setup_client_nemesis teardown_client_nemesis
whole_run-IsTrace =
    next_phase (beside (second (first neither)) (beside (first neither) no_thread)) (
      next_phase in_order (
        next_phase in_order (
          next_phase (beside (first neither) no_thread) (
            next_phase
              (beside (second (first (second (second (second neither))))) (
                beside (first (second (second (first neither))))
                  (beside (first (first neither)) no_thread)))
              (next_phase (beside (first neither) no_thread) (
                next_phase
                  (beside (first (second (second (second (second neither))))) (
                    beside (first (first (second (second neither))))
                      (beside (first (first neither)) no_thread)))
                  (next_phase in_order no_phase)))))))

b_not_a : ◌≢◌ {A = String} "b" "a"
b_not_a = ground (arith, eq_iff "b" "a")

run-node_calls_example : keep (concerns "a") whole_run ≡ node_calls true (some ("b" ∷ [])) "a"
run-node_calls_example =
    run-node_calls true (some ("b" ∷ [])) ("a" ∷ "b" ∷ []) "a" whole_run (inl refl)
      ((b_not_a, tt), (tt, tt)) whole_run-IsTrace
