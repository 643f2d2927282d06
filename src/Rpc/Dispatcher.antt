-- ===== src/Rpc/Dispatcher.antt =====
-- RpcDispatcher of netrpc/net/rpc/rpc_dispatcher.{h,cc}, with RpcClosure::Run of rpc_closure.h and
-- the two fields of RunTime (netrpc/common/run_time.h). Protobuf and the registered services are
-- not part of the repository: they are the section's parameter. A service's handler may run its
-- `done` closure during the call, any number of times; what it does later is not a part of the call.
pub mod Branches
pub mod Register
use netrpc.Base.{ℕ, Bytes, codes, ℤ, pos, length, Option, none, some, List, [], ◌∷◌, Option-cases}
use netrpc.StdMap.{find, insert, bytes_key}
use netrpc.TinyPb.Protocol.{TinyPbProtocol}
use netrpc.Rpc.ErrorCode.{
  error_failed_deserialize, error_failed_serialize, error_service_not_found,
  error_parse_service_name,
}
use netrpc.Rpc.ServiceName.{parse_service_full_name}

-- google::protobuf as the dispatcher uses it, and the user's services.
pub record Protobuf : Type 1 where
  pub Service : Type 0
  pub Method : Type 0
  pub Message : Type 0
  -- GetDescriptor()->name() and FindMethodByName
  pub service_name : Service → Bytes
  pub find_method : Service → Bytes → Option Method
  -- GetRequestPrototype(method).New() and ParseFromString
  pub parse_request : Service → Method → Bytes → Option Message
  -- SerializeToString, and what it leaves in the caller's string where it returns false
  pub serialize : Message → Option Bytes
  pub unserialized : Message → Bytes
  -- CallMethod, for the message id of its controller: the response message at each run of `done`.
  pub call_method : Service → Method → Bytes → Message → List Message

-- RunTime: the request that the thread is working on.
pub record RunTime : Type 0 where
  pub msg_id : Bytes
  pub method_name : Bytes

unfoldable pub set_tiny_pb_error : TinyPbProtocol → ℤ → Bytes → TinyPbProtocol
set_tiny_pb_error msg err_code err_info = record msg {
  err_code = err_code;
  err_info = err_info;
  err_info_len = pos (length err_info);
}

-- What a call of dispatch leaves (encode writes the lengths and the id of a reply into the message
-- that the closure shares; it would write the same ones again, so they are not carried back): the response that it was given, the messages that the closure
-- passed to TcpConnection::reply, each as it was then, and the thread's RunTime.
pub record Dispatched : Type 0 where
  pub response : TinyPbProtocol
  pub replies : List TinyPbProtocol
  pub run_time : RunTime

module _ (p : Protobuf) where
  open p use {
    Service, Message, service_name, find_method, parse_request, serialize, unserialized,
    call_method,
  }

  -- m_service_map
  abbrev pub ServiceMap : Type 0
  ServiceMap = List (Bytes × Service)

  -- The part of registerService that changes the dispatcher: a name keeps its first service.
  unfoldable pub register_service : Service → ServiceMap → ServiceMap
  register_service s services = insert (service_name s) s services

  -- The body of the closure, up to its call of reply.
  unfoldable pub complete : TinyPbProtocol → Message → TinyPbProtocol
  complete rsp rsp_msg = elim (serialize rsp_msg) [
    | none ↦
        set_tiny_pb_error (record rsp { pb_data = unserialized rsp_msg }) error_failed_serialize
          (codes "serilize error")
    | some pb_data ↦ record rsp { pb_data = pb_data; err_code = pos 0; err_info = [] }
  ]

  -- The runs of the closure in order: they share the response.
  unfoldable pub run_closure : TinyPbProtocol → List Message → List TinyPbProtocol × TinyPbProtocol
  run_closure rsp [] = ([], rsp)
  run_closure rsp (msg ∷ msgs) =
      let done = complete rsp msg in
      let (replies, last) = run_closure done msgs in (done ∷ replies, last)

  abbrev refuse : TinyPbProtocol → ℤ → Bytes → RunTime → Dispatched
  refuse rsp code info run_time = record {
    response = set_tiny_pb_error rsp code info;
    replies = [];
    run_time = run_time;
  }

  -- dispatch behind the lookup of the service.
  unfoldable pub dispatch_to :
      Service → Bytes → TinyPbProtocol → TinyPbProtocol → RunTime → Dispatched
  dispatch_to service method_name request rsp run_time = elim (find_method service method_name) [
    | none ↦ refuse rsp error_service_not_found (codes "method not found") run_time
    | some method ↦ elim (parse_request service method request.pb_data) [
      | none ↦ refuse rsp error_failed_deserialize (codes "deserilize error") run_time
      | some req_msg ↦
          let (replies, last) =
            run_closure rsp (call_method service method request.msg_id req_msg) in
          record {
            response = last;
            replies = replies;
            run_time = record { msg_id = request.msg_id; method_name = method_name };
          }
    ]
  ]

  unfoldable pub dispatch : ServiceMap → TinyPbProtocol → TinyPbProtocol → RunTime → Dispatched
  dispatch services request response run_time =
      let rsp = record response { msg_id = request.msg_id; method_name = request.method_name } in
      elim (parse_service_full_name request.method_name) [
        | none ↦ refuse rsp error_parse_service_name (codes "parse service name error") run_time
        | some (service_name, method_name) ↦ elim (find service_name services) [
          | none ↦ refuse rsp error_service_not_found (codes "service not found") run_time
          | some service ↦ dispatch_to service method_name request rsp run_time
        ]
      ]
