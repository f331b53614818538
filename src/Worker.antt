-- ===== src/Worker.antt =====
-- src/jepsen/Worker.h and Worker.cpp, with the interface of Client.h: a worker thread takes
-- operations from its queue, has its client invoke them, and puts them into the queue of completions.
pub mod Session
pub mod Nemesis
use jepsen_in_cpp.Prelude.{
  String, Bool, true, false, ◌||◌, not, if◌then◌else◌, Option, none, some, List, [], ◌∷◌, ◌++◌,
}
use jepsen_in_cpp.Prelude.Int.{ℤ, eqb_ℤ}
use jepsen_in_cpp.Operation.{Operation, OpType, success, exited, invalid_process}

-- `Client::createOne` and the methods of a client. `C` is the client object, `S` the outside world.
pub record Client (C S : Type 0) : Type 0 where
  pub create_one : S → C × S
  pub open_on : String → C → S → C × S
  pub close_it : C → S → C × S
  pub invoke_it : Operation → C → S → Operation × C × S

-- `NoopClient`, which leaves each operation as it is.
abbrev pub noop_client : {S : Type 0} → Client (Unit {0}) S
noop_client = record {
  create_one = λ s. (tt, s);
  open_on = λ node c s. (c, s);
  close_it = λ c s. (c, s);
  invoke_it = λ o c s. (o, c, s);
}

-- `NoopNemesis`, without the time that it sleeps.
abbrev pub noop_nemesis : {S : Type 0} → Client (Unit {0}) S
noop_nemesis = record {
  create_one = λ s. (tt, s);
  open_on = λ node c s. (c, s);
  close_it = λ c s. (c, s);
  invoke_it = λ o c s. (record o { type = success }, c, s);
}

-- The calls that a worker makes on its clients.
pub data ClientCall : Type 0 where
  created : ClientCall
  opened : String → ClientCall
  invoked : Operation → ClientCall
  closed : ClientCall

-- `ClientWorker`, with the calls that it has made.
pub record ClientWorker (C : Type 0) : Type 0 where
  pub node : String
  pub process : ℤ
  pub client : Option C
  pub calls : List ClientCall

abbrev pub is_exit : OpType → Bool
is_exit exited = true
is_exit _ = false

-- What `runAsync` has done with the operations that it took: the completions in order, and whether
-- it has ended.
pub record Progress (W S : Type 0) : Type 0 where
  pub worker : W
  pub out : List Operation
  pub ended : Bool
  pub world : S

-- `invoke` and `close` are the virtual methods of the worker's class; `none` is a call through the
-- null pointer.
module _ {W S : Type 0} (invoke : W → Operation → S → Option (Operation × W × S))
    (close : W → S → W × S) where
  -- `Worker::runAsync` over the operations that it takes from its queue, in order. It ends at an
  -- operation of the type `exited`, and waits where the operations run out.
  unfoldable pub run_async : W → List Operation → List Operation → S → Option (Progress W S)
  run_async wk [] out s = some (record { worker = wk; out = out; ended = false; world = s })
  run_async wk (o ∷ os) out s =
      let rest = λ (r : Operation × W × S). run_async r.1 os (out ++ r.0 ∷ []) r.2 in
      if is_exit o.type
      then (let (wk', s') = close wk s in
          some (record { worker = wk'; out = out; ended = true; world = s' }))
      else elim (invoke wk o s) [ none ↦ none | some r ↦ rest r ]

module _ {C S : Type 0} (api : Client C S) where
  open api use {create_one, open_on, close_it, invoke_it}

  -- `ClientWorker::close`.
  unfoldable pub close : ClientWorker C → S → ClientWorker C × S
  close wk s = elim wk.client [
    | none ↦ (wk, s)
    | some c ↦
        let (_, s') = close_it c s in
        (record wk { client = none; calls = wk.calls ++ closed ∷ [] }, s')
  ]

  -- The client of a worker for the process, after `close`: a new one that is opened on the node.
  unfoldable pub restart : ClientWorker C → ℤ → S → ClientWorker C × C × S
  unfolding close
  restart wk process s =
      let (wk', s₁) = close wk s in
      let (c, s₂) = create_one s₁ in
      let (c', s₃) = open_on wk'.node c s₂ in
      (
        record wk' {
          process = process;
          client = some c';
          calls = wk'.calls ++ created ∷ opened wk'.node ∷ [];
        },
        c',
        s₃,
      )

  -- `client->invoke(op)` of the client that the worker holds.
  unfoldable pub invoke_client : ClientWorker C → C → Operation → S → Operation × ClientWorker C × S
  invoke_client wk c o s =
      let (o', c', s') = invoke_it o c s in
      (o', record wk { client = some c'; calls = wk.calls ++ invoked o ∷ [] }, s')

  abbrev needs_restart : ClientWorker C → Operation → Bool
  needs_restart wk o = eqb_ℤ wk.process invalid_process || not (eqb_ℤ wk.process o.process)

  -- `ClientWorker::invoke`; `none` is a call through the null pointer.
  unfoldable pub invoke : ClientWorker C → Operation → S → Option (Operation × ClientWorker C × S)
  unfolding restart invoke_client
  invoke wk o s =
      if needs_restart wk o
      then (let (wk', c, s') = restart wk o.process s in some (invoke_client wk' c o s'))
      else elim wk.client [ none ↦ none | some c ↦ some (invoke_client wk c o s) ]

  -- The thread of a `ClientWorker`.
  unfoldable pub run_client :
      ClientWorker C → List Operation → S → Option (Progress (ClientWorker C) S)
  unfolding run_async
  run_client wk ops s = run_async invoke close wk ops [] s

  -- `NemesisWorker::invoke`, on the nemesis that the constructor made.
  unfoldable pub nemesis_invoke : C → Operation → S → Option (Operation × C × S)
  nemesis_invoke c o s = some (invoke_it o c s)

  -- `NemesisWorker::close` does nothing.
  unfoldable pub nemesis_close : C → S → C × S
  nemesis_close c s = (c, s)

  -- The thread of a `NemesisWorker`.
  unfoldable pub run_nemesis : C → List Operation → S → Option (Progress C S)
  unfolding run_async nemesis_invoke nemesis_close
  run_nemesis c ops s = run_async nemesis_invoke nemesis_close c ops [] s

-- `ClientWorker(id, out, node)`.
unfoldable pub new_worker : {C : Type 0} → String → ClientWorker C
new_worker node = record { node = node; process = invalid_process; client = none; calls = [] }
