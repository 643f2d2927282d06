-- ===== src/Rpc/Dispatcher/Branches.antt =====
-- What RpcDispatcher::dispatch answers, on every branch.
use netrpc.Base.{
  ◌≡◌, refl, inl, inr, Bytes, pos, Option, none, some, List, [], ◌∷◌, arith, Option-cases, All, ℤ,
  codes, length,
}
use netrpc.StdMap.{find, bytes_key}
use netrpc.TinyPb.Protocol.{TinyPbProtocol}
use netrpc.Rpc.ErrorCode.{
  error_failed_deserialize, error_service_not_found, error_parse_service_name,
}
use netrpc.Rpc.ServiceName.{parse_service_full_name}
use netrpc.Rpc.Dispatcher.{
  Protobuf, RunTime, Dispatched, ServiceMap, set_tiny_pb_error, complete, run_closure, dispatch_to,
  dispatch,
}

-- The response is for this request.
pub record Answers (request rsp : TinyPbProtocol) : Type 0 where
  pub same_id : rsp.msg_id ≡ request.msg_id
  pub same_name : rsp.method_name ≡ request.method_name

module _ (p : Protobuf) (request : TinyPbProtocol) where
  open p use {Service, Method, Message, find_method, parse_request, serialize, call_method}

  complete-Answers :
      (rsp : TinyPbProtocol) (msg : Message)
      → Answers request rsp
      → Answers request (complete p rsp msg)
  unfolding complete set_tiny_pb_error
  complete-Answers rsp msg h = ground (arith, Option-cases (serialize msg))

  run_closure-Answers :
      (rsp : TinyPbProtocol) (msgs : List Message)
      → Answers request rsp
      → All (Answers request) (run_closure p rsp msgs).0
        × Answers request (run_closure p rsp msgs).1
  unfolding run_closure
  run_closure-Answers rsp [] h = (tt, h)
  run_closure-Answers rsp (msg ∷ msgs) h =
      let done = complete-Answers rsp msg h in
      let rest = run_closure-Answers (complete p rsp msg) msgs done in ((done, rest.0), rest.1)

  dispatch_to-Answers :
      (s : Service) (name : Bytes) (rsp : TinyPbProtocol) (rt : RunTime)
      → Answers request rsp
      → All (Answers request) (dispatch_to p s name request rsp rt).replies
        × Answers request (dispatch_to p s name request rsp rt).response
  unfolding dispatch_to set_tiny_pb_error
  dispatch_to-Answers s name rsp rt h = elim (Option-cases (find_method s name)) [
    | inl e ↦ rw (e, dispatch_to) (tt, record { same_id = h.same_id; same_name = h.same_name })
    | inr (m, e) ↦ elim (Option-cases (parse_request s m request.pb_data)) [
      | inl e' ↦
          rw (e, dispatch_to)
            (rw (e', dispatch_to) (tt, record { same_id = h.same_id; same_name = h.same_name }))
      | inr (msg, e') ↦
          rw (e, dispatch_to)
            (rw (e', dispatch_to) (run_closure-Answers rsp (call_method s m request.msg_id msg) h))
    ]
  ]

  -- Whatever the request, the response and every reply carry its message id and its method name.
  pub dispatch-Answers :
      (services : ServiceMap p) (response : TinyPbProtocol) (rt : RunTime)
      → All (Answers request) (dispatch p services request response rt).replies
        × Answers request (dispatch p services request response rt).response
  unfolding dispatch set_tiny_pb_error
  dispatch-Answers services response rt =
      let rsp = record response { msg_id = request.msg_id; method_name = request.method_name } in
      elim (Option-cases (parse_service_full_name request.method_name)) [
        | inl e ↦ rw (e, dispatch) (tt, record { same_id = refl; same_name = refl })
        | inr (names, e) ↦ elim (Option-cases (find names.0 services)) [
          | inl e' ↦
              rw (e, dispatch) (rw (e', dispatch) (tt, record { same_id = refl; same_name = refl }))
          | inr (s, e') ↦
              rw (e, dispatch)
                (rw (e', dispatch)
                  (dispatch_to-Answers s names.1 rsp rt
                    (record { same_id = refl; same_name = refl })))
        ]
      ]

  -- The request resolved: the service that its name registers, the method, and the message in it.
  abbrev pub Target : Type 0
  Target = Service × Method × Message × Bytes

  abbrev pub bind {ℓ κ} : {A : Type ℓ} {B : Type κ} → Option A → (A → Option B) → Option B
  bind none f = none
  bind (some a) f = f a

  unfoldable pub resolve : ServiceMap p → Option Target
  resolve services = bind (parse_service_full_name request.method_name) λ names.
      bind (find names.0 services) λ s.
        bind (find_method s names.1)
          λ m. bind (parse_request s m request.pb_data) λ msg. some (s, m, msg, names.1)

  -- Why a request is refused, with the error code and the text that its response then carries.
  pub data Refusal (services : ServiceMap p) : ℤ → Bytes → Type 0 where
    bad_name :
        parse_service_full_name request.method_name ≡ none
        → Refusal services error_parse_service_name (codes "parse service name error")
    no_service :
        (service method : Bytes)
        → parse_service_full_name request.method_name ≡ some (service, method)
        → find service services ≡ none
        → Refusal services error_service_not_found (codes "service not found")
    no_method :
        (service method : Bytes) (s : Service)
        → parse_service_full_name request.method_name ≡ some (service, method)
        → find service services ≡ some s
        → find_method s method ≡ none
        → Refusal services error_service_not_found (codes "method not found")
    unreadable :
        (service method : Bytes) (s : Service) (m : Method)
        → parse_service_full_name request.method_name ≡ some (service, method)
        → find service services ≡ some s
        → find_method s method ≡ some m
        → parse_request s m request.pb_data ≡ none
        → Refusal services error_failed_deserialize (codes "deserilize error")

  -- The response and all that a refusal with this code and text leaves.
  abbrev pub refused_with : TinyPbProtocol → RunTime → ℤ → Bytes → Dispatched
  refused_with response rt code info = record {
    response = record response {
      msg_id = request.msg_id;
      method_name = request.method_name;
      err_code = code;
      err_info = info;
      err_info_len = pos (length info);
    };
    replies = [];
    run_time = rt;
  }

  -- For a request that resolves, the replies and the response are what the runs of the closure make
  -- of the messages of its handler, called once with the request's id and message, and the
  -- thread's RunTime is this request.
  pub dispatch-handled :
      (services : ServiceMap p) (response : TinyPbProtocol) (rt : RunTime) (s : Service)
      (m : Method) (msg : Message) (name : Bytes)
      → resolve services ≡ some (s, m, msg, name)
      → let d = dispatch p services request response rt in
        let rsp = record response { msg_id = request.msg_id; method_name = request.method_name } in
        ((d.replies, d.response) ≡ run_closure p rsp (call_method s m request.msg_id msg))
        × (d.run_time ≡ record { msg_id = request.msg_id; method_name = name })
  unfolding resolve dispatch dispatch_to
  dispatch-handled services response rt s m msg name h = ground arith

  -- A resolved request whose handler runs `done` once, with a message that serializes, is answered
  -- by one reply, which is the response: its payload, and no error.
  pub dispatch-success :
      (services : ServiceMap p) (response : TinyPbProtocol) (rt : RunTime) (s : Service)
      (m : Method) (msg : Message) (name : Bytes) (answer : Message) (pb_data : Bytes)
      → resolve services ≡ some (s, m, msg, name)
      → call_method s m request.msg_id msg ≡ answer ∷ []
      → serialize answer ≡ some pb_data
      → let d = dispatch p services request response rt in
        (d.replies ≡ d.response ∷ [])
        × (d.response ≡ record response {
          msg_id = request.msg_id;
          method_name = request.method_name;
          pb_data = pb_data;
          err_code = pos 0;
          err_info = [];
        })
  unfolding run_closure complete
  dispatch-success services response rt s m msg name answer pb_data h once good =
      let handled = dispatch-handled services response rt s m msg name h in ground arith

  -- A resolved request whose handler returns without a run of `done` gets no reply, and its response
  -- keeps the payload and the error code it was made with.
  pub dispatch-unfinished :
      (services : ServiceMap p) (response : TinyPbProtocol) (rt : RunTime) (s : Service)
      (m : Method) (msg : Message) (name : Bytes)
      → resolve services ≡ some (s, m, msg, name)
      → call_method s m request.msg_id msg ≡ []
      → let d = dispatch p services request response rt in
        (d.replies ≡ [])
        × (d.response.pb_data ≡ response.pb_data)
        × (d.response.err_code ≡ response.err_code)
  unfolding run_closure
  dispatch-unfinished services response rt s m msg name h never =
      let handled = dispatch-handled services response rt s m msg name h in ground arith
