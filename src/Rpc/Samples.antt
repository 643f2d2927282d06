-- ===== src/Rpc/Samples.antt =====
-- One service, with a method that answers and a method that never runs its closure: what the tests
-- call.
use netrpc.Base.{ℕ, zero, suc, Bytes, codes, Option, none, some, List, [], ◌∷◌, if◌then◌else◌}
use netrpc.StdMap.{bytes_eq}
use netrpc.Rpc.Dispatcher.{Protobuf, ServiceMap, RunTime}

-- The method 0 is makeOrder, the method 1 shortBalance.
abbrev method_of : Bytes → Option ℕ
method_of name =
    if bytes_eq name (codes "makeOrder")
    then some 0
    else if bytes_eq name (codes "shortBalance")
    then some 1
    else none

abbrev message_of : Bytes → Option Bytes
message_of [] = none
message_of (c ∷ cs) = some (c ∷ cs)

abbrev answers_of : ℕ → Bytes → List Bytes
answers_of zero message = message ∷ []
answers_of (suc n) message = []

abbrev pub orders_api : Protobuf
orders_api = record {
  Service = ℕ;
  Method = ℕ;
  Message = Bytes;
  service_name = λ s. codes "Order";
  find_method = λ s name. method_of name;
  parse_request = λ s m bytes. message_of bytes;
  serialize = λ message. some message;
  unserialized = λ message. [];
  call_method = λ s m msg_id message. answers_of m message;
}

abbrev pub services : ServiceMap orders_api
services = (codes "Order", 0) ∷ []

abbrev pub idle : RunTime
idle = record { msg_id = []; method_name = [] }
