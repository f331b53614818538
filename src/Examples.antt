-- ===== src/Examples.antt =====
-- Concrete inputs: small runs of the generators, the worker and the runner, and the theorems on them.
mod Texts
mod Hosts
mod Servers
mod Runners
mod Runs
mod Crash
use jepsen_in_cpp.Prelude.{
  In, ℕ, ◌+◌, ◌≤◌, ◌||◌, ◌>>=◌, pure, or_fault, lift, true, false, ◌≡◌, refl, inl, inr, some, List,
  [], ◌∷◌, M, done, fault, exits, out_of_fuel, arith, All, length, map,
}
use jepsen_in_cpp.Prelude.Int.{ℤ, pos, negsuc, ◌+ℤ◌, ◌<ℤ◌}
use jepsen_in_cpp.Operation.{
  Operation, init, success, info, exited, null_value, invalid_process, of_type, is_nil, is_pending,
}
use jepsen_in_cpp.Context.{
  World, Context, assign, lookup, next_process, thread_of, process_to_thread,
}
use jepsen_in_cpp.Context.Processes.{IsAssigned, next_process-IsAssigned, thread_of-In}
use jepsen_in_cpp.Context.Ready.{IsReady}
use jepsen_in_cpp.Context.Staffed.{IsStaffed}
use jepsen_in_cpp.Generator.Totality.{op-returns}
use jepsen_in_cpp.Generator.Types.{
  GeneratorPtr, Generators, operation, list, mix, any, on_threads, link, end, of_operations, Yield,
  nil, null, new_time_limit, new_stagger,
}
use jepsen_in_cpp.Generator.Copy.{copy_list, copy_vector}
use jepsen_in_cpp.Generator.Op.{op}
use jepsen_in_cpp.Generator.Update.{update}
use jepsen_in_cpp.Generator.Build.{is_client, clients}
use jepsen_in_cpp.Generator.Confined.{on_threads-confined}
use jepsen_in_cpp.Generator.Like.{Like}
use jepsen_in_cpp.Generator.Sequence.{YieldsNext, op-in_order, left-of_operations}
use jepsen_in_cpp.Generator.Frame.{op-keeps_generator}
use jepsen_in_cpp.Generator.Ready.{op-served}
use jepsen_in_cpp.Generator.Soonest.{Called, IsSoonest, op-IsSoonest}
use jepsen_in_cpp.Generator.Timing.{time_limit_window, taken_first, taken, unused}
use jepsen_in_cpp.Generator.Exhaustion.{last_operation_lost, mix_never_ends, restricted}
use jepsen_in_cpp.Base64.{base64_encode, base64_decode}
use jepsen_in_cpp.Worker.{
  Client, Progress, ClientWorker, run_client, new_worker, run_nemesis, noop_nemesis,
}
use jepsen_in_cpp.Worker.Nemesis.{succeeded, run_nemesis-succeeded}
use jepsen_in_cpp.Worker.Session.{before_exit, has_exit, IsAnswered, run_client-answers}
use jepsen_in_cpp.Runner.{Runner, ask, complete}
use jepsen_in_cpp.Runner.Load.{times_in, load}
use jepsen_in_cpp.Runner.Steps.{Reach, start, next, asks, works, completes, here, later}
use jepsen_in_cpp.Runner.Start.{start_runner, start_context, start-IsAssigned}
use jepsen_in_cpp.Runner.Invariant.{in_flight, anyone}
use jepsen_in_cpp.Runner.Conservation.{run-conserves_threads}
use jepsen_in_cpp.Runner.Liveness.{run-goes_on}
use jepsen_in_cpp.Runner.Safety.{run-one_at_a_time, run-outstanding, run-ends_empty}

-- A world whose clock stands still, whose dice count, and which draws the first of what it is offered.
abbrev pub counting : World
counting = record {
  State = ℕ;
  rand = λ s. (s, s + 1);
  uniform = λ n s. (0, s);
  now = λ s. (pos 7, s);
}

abbrev pub result : {A : Type 0} → A → M ℕ A → A
result a m = elim (m 0) [ done (b, s) ↦ b | fault ↦ a | exits n ↦ a | out_of_fuel ↦ a ]

abbrev pub read : Operation
read = record {
  type = init;
  func = "read";
  op = null_value;
  helper = null_value;
  time = pos 0;
  process = invalid_process;
}

abbrev reads : GeneratorPtr ℕ
reads = list (of_operations (read ∷ read ∷ read ∷ []))

abbrev reading : M ℕ (Yield ℕ) → Yield ℕ
reading m = result (nil null) m

-- A single operation.
abbrev pub one_read : GeneratorPtr ℕ
one_read = list (of_operations (read ∷ []))

abbrev two_clients : Context
unfolding start_context
two_clients = start_context (pos 7) 2

next_process-IsAssigned_example :
    let (ctx, q) = next_process two_clients (pos 1) in
    let workers = assign (pos 1) q ctx.workers in
    IsAssigned 2 workers × (pos 1 <ℤ q) × (thread_of q workers ≡ pos 1)
unfolding two_clients lookup
next_process-IsAssigned_example =
    next_process-IsAssigned 2 two_clients (pos 1) (pos 1) (omega arith) (start-IsAssigned (pos 7) 2)
      (λ e. ground (arith, e)) refl

thread_of-In_example : thread_of (pos 1) two_clients.workers ≡ pos 1
unfolding two_clients
thread_of-In_example =
    thread_of-In 2 two_clients.workers (pos 1) (pos 1) (start-IsAssigned (pos 7) 2).owned
      (inr (inl refl))

abbrev first_read : Yield ℕ
unfolding op ◌>>=◌ lift or_fault pure copy_list two_clients
first_read = reading (op counting 3 reads two_clients)

op-served_example : IsReady two_clients (first_read.op).process
unfolding op ◌>>=◌ lift or_fault pure copy_list two_clients first_read
op-served_example =
    op-served counting 2 3 anyone reads two_clients 0 0 first_read
      (record { owned = (start-IsAssigned (pos 7) 2).owned; allowed = λ t m. refl })
      (inl refl, (inl refl, (inl refl, tt))) refl refl refl

abbrev client_read : Yield ℕ
unfolding op ◌>>=◌ lift or_fault pure copy_list two_clients clients
client_read = reading (op counting 4 (clients reads) two_clients)

on_threads-confined_example :
    IsReady two_clients (client_read.op).process
    × (is_client (process_to_thread two_clients (client_read.op).process) ≡ true)
unfolding op ◌>>=◌ lift or_fault pure copy_list two_clients client_read clients
on_threads-confined_example =
    on_threads-confined counting 2 4 anyone is_client reads two_clients 0 0 client_read
      (record { owned = (start-IsAssigned (pos 7) 2).owned; allowed = λ t m. refl })
      (inl refl, (inl refl, (inl refl, tt))) refl refl refl

abbrev limited_read : Yield ℕ
unfolding op ◌>>=◌ lift or_fault pure copy_list two_clients
limited_read = reading (op counting 4 (new_time_limit (pos 5) reads) two_clients)

abbrev second_read : Yield ℕ
unfolding op ◌>>=◌ lift or_fault pure copy_list two_clients limited_read ◌+ℤ◌
second_read = reading (op counting 4 limited_read.gen two_clients)

op-keeps_generator_example : Like (new_time_limit (pos 5) reads) limited_read.self
unfolding op ◌>>=◌ lift or_fault pure copy_list two_clients limited_read ◌+ℤ◌
op-keeps_generator_example =
    op-keeps_generator counting 4 (new_time_limit (pos 5) reads) two_clients 0 0 limited_read refl

time_limit_window_example :
    All (λ o. o.time <ℤ (limited_read.op).time +ℤ pos 5) (second_read.op ∷ [])
unfolding op ◌>>=◌ lift or_fault pure copy_list two_clients limited_read second_read update ◌+ℤ◌
time_limit_window_example =
    time_limit_window counting 4 (pos 5) reads two_clients 0 0 limited_read (second_read.op ∷ [])
      refl (refl, refl) (λ e. ground (arith, e))
      (taken_first two_clients limited_read.gen refl (
        taken two_clients two_clients 0 0 second_read second_read.gen refl (refl, refl) refl
          (unused _)))

abbrev two_readers : Generators ℕ
two_readers = link reads (link (operation (record read { time = pos 9 })) end)

abbrev soonest : Yield ℕ
unfolding op ◌>>=◌ lift or_fault pure copy_list copy_vector two_clients
soonest = reading (op counting 5 (any two_readers) two_clients)

op-IsSoonest_example :
    (ys : List (Yield ℕ)) × Called counting (op counting 4) two_clients two_readers 0 ys 0
    × IsSoonest counting ys soonest.op
unfolding op ◌>>=◌ lift or_fault pure copy_list copy_vector two_clients soonest
op-IsSoonest_example = op-IsSoonest counting 4 two_readers two_clients 0 0 soonest refl

abbrev mixed : Yield ℕ
unfolding op ◌>>=◌ lift or_fault pure copy_list copy_vector two_clients
mixed = reading (op counting 4 (mix 0 (link reads (link reads end))) two_clients)

mix_never_ends_example : is_nil (mixed.op).type ≡ false
unfolding op ◌>>=◌ lift or_fault pure copy_list copy_vector two_clients mixed
mix_never_ends_example =
    mix_never_ends counting 4 0 reads (link reads end) two_clients 0 1 mixed refl

abbrev lost : Yield ℕ
unfolding op ◌>>=◌ lift or_fault pure two_clients
lost = reading (op counting 4 (on_threads (operation read) is_client) two_clients)

last_operation_lost_example : (is_nil (lost.op).type || is_pending (lost.op).type) ≡ true
unfolding op ◌>>=◌ lift or_fault pure two_clients lost
last_operation_lost_example =
    last_operation_lost counting 4 read (on_threads (operation read) is_client) two_clients 0 0 lost
      (restricted is_client) refl

abbrev staggered : Yield ℕ
unfolding op ◌>>=◌ lift or_fault pure copy_list two_clients
staggered = reading (op counting 4 (new_stagger 5 (pos 100) reads) two_clients)

-- A client that answers each operation with a success.
abbrev echo : Client ℕ ℕ
echo = record {
  create_one = λ s. (s, s + 1);
  open_on = λ node c s. (c, s);
  close_it = λ c s. (c, s);
  invoke_it = λ o c s. (record o { type = success }, c, s);
}

-- Two operations of a process, one of the next, and the exit.
abbrev served : List Operation
served =
    record read { process = pos 0 }
    ∷ record read { process = pos 0 }
    ∷ record read { process = pos 2 }
    ∷ of_type exited
    ∷ []

run_client-answers_example :
    (p : Progress (ClientWorker ℕ) ℕ) × (run_client echo (new_worker "n1") served 0 ≡ some p)
    × IsAnswered echo served [] p
run_client-answers_example = run_client-answers echo (λ o c s. refl) "n1" served 0

run_nemesis-succeeded_example :
    run_nemesis {S = ℕ} noop_nemesis tt served 0
    ≡ some (record {
      worker = tt;
      out = map succeeded (before_exit served);
      ended = has_exit served;
      world = 0;
    })
run_nemesis-succeeded_example = run_nemesis-succeeded served 0

two_clients-IsStaffed : IsStaffed two_clients
unfolding two_clients lookup
two_clients-IsStaffed = record { staffed = runs }
  where
    runs :
        (t : ℤ) → In t two_clients.free_threads → (p : ℤ) × (lookup t two_clients.workers ≡ some p)
    runs t (inl e) = (negsuc 0, rw e refl)
    runs t (inr (inl e)) = (pos 0, rw e refl)
    runs t (inr (inr (inl e))) = (pos 1, rw e refl)
    runs t (inr (inr (inr m))) = elim m [ ]

op-in_order_example :
    (y : Yield ℕ) × (s : ℕ) × (op counting 9 reads two_clients 0 ≡ done (y, s))
    × YieldsNext (read ∷ read ∷ read ∷ []) y.op y.gen
op-in_order_example =
    op-in_order counting 9 reads (read ∷ read ∷ read ∷ []) two_clients 0
      (left-of_operations ℕ (read ∷ read ∷ read ∷ [])) (refl, (refl, (refl, tt))) (λ n s h. h)
      two_clients-IsStaffed (omega arith)

op-returns_example :
    (y : Yield ℕ) × (s : ℕ) × (op counting 20
        (new_time_limit (pos 5) (any two_readers))
        two_clients
        0
      ≡ done (y, s))
op-returns_example =
    op-returns counting 20 (new_time_limit (pos 5) (any two_readers)) two_clients 0 (λ n s h. h)
      (omega arith) ((tt, (tt, tt)), ((tt, (tt, (tt, tt))), (tt, tt))) two_clients-IsStaffed

-- "Ma" there and back.
Ma_encoded : base64_encode (77 ∷ 97 ∷ []) ≡ some (84 ∷ 87 ∷ 69 ∷ 61 ∷ [])
unfolding base64_encode
Ma_encoded = refl

Ma_decoded : base64_decode (84 ∷ 87 ∷ 69 ∷ 61 ∷ []) ≡ some (77 ∷ 97 ∷ [])
unfolding base64_decode
Ma_decoded = refl
