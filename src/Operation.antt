-- ===== src/Operation.antt =====
-- src/jepsen/Operation.h and Operation.cpp, with the constants of include/constant.h: operations,
-- their types and payloads, and the factory that makes them.
pub mod Text
pub mod Printing
use jepsen_in_cpp.Prelude.{ℕ, String, Bool, true, false}
use jepsen_in_cpp.Prelude.Int.{ℤ, pos, negsuc}

abbrev pub nemesis_process : ℤ
nemesis_process = negsuc 0

abbrev pub invalid_process : ℤ
invalid_process = negsuc 1

abbrev pub invalid_time : ℤ
invalid_time = negsuc 2

-- `Json::Value` by the value types that `Operation::toString` tells apart. A real stands for itself
-- by the text that `std::to_string` gives of it.
mutual
  pub data OpInfo : Type 0 where
    null_value : OpInfo
    int_value : ℤ → OpInfo
    uint_value : ℕ → OpInfo
    real_value : String → OpInfo
    string_value : String → OpInfo
    boolean_value : Bool → OpInfo
    array_value : Elements → OpInfo
    object_value : Members → OpInfo

  pub data Elements : Type 0 where
    no_more : Elements
    element : OpInfo → Elements → Elements

  pub data Members : Type 0 where
    no_member : Members
    member : String → OpInfo → Members → Members

-- `Operation::Type`.
pub data OpType : Type 0 where
  init invoke success failed info exited nil_type pending_type : OpType

pub record Operation : Type 0 where
  pub type : OpType
  pub func : String
  pub op : OpInfo
  pub helper : OpInfo
  pub time : ℤ
  pub process : ℤ

-- `Operation(type)`, and `Operation()` at `init`.
abbrev pub of_type : OpType → Operation
of_type t = record {
  type = t;
  func = "";
  op = null_value;
  helper = null_value;
  time = pos 0;
  process = invalid_process;
}

-- `Operation(func, op, type)`.
abbrev pub operation : String → OpInfo → OpType → Operation
operation f o t = record {
  type = t;
  func = f;
  op = o;
  helper = null_value;
  time = pos 0;
  process = invalid_process;
}

-- `operator=(const Operation&)`: what the operation holds after it.
abbrev pub assigned_from : (rhs : Operation) → Operation
assigned_from rhs = record {
  type = rhs.type;
  func = rhs.func;
  op = rhs.op;
  helper = rhs.helper;
  time = rhs.time;
  process = rhs.process;
}

-- `getOp(key)`, where `at` is the index of jsoncpp: the member, and the payload with the member that
-- the index may have put there.
abbrev pub get_op :
    (at : String → OpInfo → OpInfo × OpInfo) → String → Operation → OpInfo × Operation
get_op at key o = let (value, payload) = at key o.op in (value, record o { op = payload })

-- `op.type == Operation::kNil`, and so on.
abbrev pub is_nil : OpType → Bool
is_nil nil_type = true
is_nil _ = false

abbrev pub is_pending : OpType → Bool
is_pending pending_type = true
is_pending _ = false

abbrev pub is_init : OpType → Bool
is_init init = true
is_init _ = false

abbrev pub is_info : OpType → Bool
is_info info = true
is_info _ = false

-- `OperationFactory`. `Json::Value::append` makes an array of a null value.
unfoldable pub write : OpInfo → OpInfo → Operation
write key value = operation "write" (array_value (element key (element value no_more))) invoke

unfoldable pub read : OpInfo → Operation
read key = operation "read" (array_value (element key (element null_value no_more))) invoke

unfoldable pub cas : OpInfo → OpInfo → OpInfo → Operation
cas key value old =
    operation "cas" (array_value (element key (element value (element old no_more)))) invoke

unfoldable pub exit : Operation
exit = operation "exit" null_value exited

unfoldable pub pending : Operation
pending = operation "pending" null_value pending_type

unfoldable pub fake_partition : Operation
fake_partition =
    record (operation "partition"
      (object_value (member "class" (string_value "partition") no_member)) invoke) {
        process = nemesis_process;
      }
