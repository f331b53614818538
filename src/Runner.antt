-- ===== src/Runner.antt =====
-- src/jepsen/Runner.h and Runner.cpp: the loop of `Runner::runCases`, which hands operations to the
-- workers and takes their completions.
pub mod Load
pub mod Steps
pub mod Working
pub mod Remotes
pub mod Setup
pub mod Balance
pub mod Invariant
pub mod Start
pub mod Hiring
pub mod Safety
pub mod Conservation
pub mod Lifecycle
pub mod Interleaving
pub mod Outgrown
pub mod Retired
pub mod Turns
pub mod History
pub mod Queues
pub mod Progress
pub mod Liveness
pub mod Order
use jepsen_in_cpp.Prelude.{
  ℕ, ◌+◌, ◌-◌, ◌/◌, Bool, false, not, ◌&&◌, if◌then◌else◌, Option, none, some, List, [], ◌∷◌, ◌++◌,
  M, ◌>>=◌, pure, or_fault, lift,
}
use jepsen_in_cpp.Prelude.Int.{ℤ, pos, negsuc, ◌+ℤ◌, pos_part, neg_part, eqb_ℤ, ltb_ℤ}
use jepsen_in_cpp.Operation.{
  Operation, OpType, exit, exited, nil_type, pending_type, operation, null_value, is_info,
  nemesis_process,
}
use jepsen_in_cpp.Context.{Context, World, insert, erase, assign, next_process, process_to_thread}
use jepsen_in_cpp.Generator.Types.{GeneratorPtr, Yield}
use jepsen_in_cpp.Generator.Op.{op}
use jepsen_in_cpp.Generator.Update.{update}

-- The queue `in` of each worker, by its thread, the first operation first.
abbrev pub Inboxes : Type 0
Inboxes = List (ℤ × List Operation)

-- The local variables of `runCases`, the fields of the runner that it changes, and the queues.
-- `flag` is false once the loop has ended.
pub record Runner (S : Type 0) : Type 0 where
  pub ctx : Context
  pub generator : GeneratorPtr S
  pub outstanding : ℤ
  pub poll_timeout : ℕ
  pub history : List Operation
  pub flag : Bool
  pub inboxes : Inboxes
  pub completions : List Operation

-- `workers[thread]->putOp(op)`: where no worker has the thread, the map gives a null pointer.
unfoldable pub put_op : ℤ → Operation → Inboxes → Option Inboxes
put_op thread o [] = none
put_op thread o ((t, ops) ∷ rest) =
    let later = put_op thread o rest in
    if eqb_ℤ thread t
    then some ((t, ops ++ o ∷ []) ∷ rest)
    else elim later [ none ↦ none | some rest' ↦ some ((t, ops) ∷ rest') ]

-- `OperationFactory::exit()` into every queue.
unfoldable pub put_exit : Inboxes → Inboxes
put_exit [] = []
put_exit ((t, ops) ∷ rest) = (t, ops ++ exit ∷ []) ∷ put_exit rest

-- `kMaxPendingInterval`, in microseconds.
abbrev pub max_pending_interval : ℕ
max_pending_interval = 1000

-- What the switch over the type of a new operation tells apart.
pub data Kind : Type 0 where
  stop wait go : Kind

abbrev pub kind_of : OpType → Kind
kind_of nil_type = stop
kind_of exited = stop
kind_of pending_type = wait
kind_of _ = go

-- The new process of the thread where a client operation came back without a result.
unfoldable pub after_crash : Context → ℤ → Operation → Context
unfolding next_process assign
after_crash ctx thread o =
    let (ctx', process) = next_process ctx thread in
    if not (eqb_ℤ o.process nemesis_process) && is_info o.type
    then record ctx' { workers = assign thread process ctx'.workers }
    else ctx

module _ (w : World) where
  open w use {State, now}

  -- The branch for a completed operation.
  unfoldable pub complete : Runner State → Operation → M State (Runner State)
  unfolding insert process_to_thread after_crash
  complete r o = do
    time ← lift now
    let thread = process_to_thread r.ctx o.process
    let o' = record o { time = time }
    let ctx = record (r.ctx) { time = time; free_threads = insert thread (r.ctx).free_threads }
    generator ← or_fault (update r.generator ctx o')
    pure (record r {
      ctx = after_crash ctx thread o';
      generator = generator;
      outstanding = r.outstanding +ℤ negsuc 0;
      poll_timeout = 0;
      history = r.history ++ o' ∷ [];
    })

  -- The `default` case where the operation is due: it goes to the worker of its process.
  unfoldable pub dispatch : Runner State → Operation → GeneratorPtr State → M State (Runner State)
  unfolding erase process_to_thread put_op
  dispatch r o gen = do
    let thread = process_to_thread r.ctx o.process
    inboxes ← or_fault (put_op thread o r.inboxes)
    let ctx = record (r.ctx) { time = o.time; free_threads = erase thread (r.ctx).free_threads }
    generator ← or_fault (update gen ctx o)
    pure (record r {
      ctx = ctx;
      generator = generator;
      outstanding = r.outstanding +ℤ pos 1;
      poll_timeout = 0;
      history = r.history ++ o ∷ [];
      inboxes = inboxes;
    })

  -- `microseconds((op.time - time) / 1000)`, for a time before that of the operation.
  abbrev until : ℤ → ℤ → ℕ
  until time due = (pos_part due + neg_part time - (pos_part time + neg_part due)) / 1000

  unfoldable pub by_kind : Kind → ℤ → Runner State → Yield State → M State (Runner State)
  unfolding dispatch put_exit
  by_kind stop time r y =
      if ltb_ℤ (pos 0) r.outstanding
      then pure (record r { poll_timeout = max_pending_interval })
      else pure (record r { flag = false; inboxes = put_exit r.inboxes })
  by_kind wait time r y = pure (record r { poll_timeout = max_pending_interval })
  by_kind go time r y =
      if ltb_ℤ time (y.op).time
      then pure (record r { poll_timeout = until time (y.op).time })
      else dispatch r y.op y.gen

  module _ (fuel : ℕ) where
    -- The branch for a poll that ended with no completed operation.
    unfoldable pub ask : Runner State → M State (Runner State)
    unfolding by_kind op
    ask r = do
      time ← lift now
      let ctx = record (r.ctx) { time = time }
      y ← op w fuel r.generator ctx
      by_kind (kind_of (y.op).type) time (record r { ctx = ctx; generator = y.self }) y
