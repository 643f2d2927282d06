-- ===== src/Rpc/RoundTrip.antt =====
-- A call over both machines: RpcChannel of the client, excute and dispatch of the server, and the
-- decoder of the client.
mod Tests
pub mod Upload
use mathlib.Core.List.{append_assoc, append-nil}
use mathlib.Core.Path.{subst}
use netrpc.Base.{
  ℕ, suc, ◌+◌, ◌<◌, ◌≡◌, refl, sym, ◌∙◌, ap, Bytes, true, false, Bool, ok, Returns, ℤ, pos, not,
  Option, none, some, List, [], ◌∷◌, ◌++◌, map, length, arith,
}
use netrpc.StdMap.{bytes_eq, bytes_eq_iff}
use netrpc.TcpBuffer.{TcpBuffer}
use netrpc.TcpBuffer.Contents.{readable, IsValid, IsOpen}
use netrpc.TinyPb.Protocol.{TinyPbProtocol, new_message}
use netrpc.TinyPb.Encoder.{with_msg_id, wire}
use netrpc.TinyPb.Decoder.{decode}
use netrpc.TinyPb.Frame.{IsSendable, received}
use netrpc.TinyPb.RoundTrip.{wires, AllSendable}
use netrpc.TinyPb.Delivery.{delivered, decode-wires}
use netrpc.MsgIdUtil.{MsgIdState}
use netrpc.Tcp.Connection.{TcpConnection, connected, excute_server}
use netrpc.Tcp.Connection.Events.{fill_out, pending_bytes}
use netrpc.Tcp.Client.{TcpClient}
use netrpc.Rpc.RoundTrip.Upload.{fill_out-with_request}
use netrpc.Tcp.Connection.Server.{responses, all_replies, excute_server-Sends}
use netrpc.Rpc.Dispatcher.{Protobuf, ServiceMap, RunTime, dispatch}
use netrpc.Rpc.Dispatcher.Branches.{resolve, dispatch-success}
use netrpc.Rpc.Controller.{RpcController, set_msg_id}
use netrpc.Rpc.Channel.{RpcChannel, ChannelEvent, written, arrived}
use netrpc.Rpc.Channel.CallMethod.{Call, call_method, session}
use netrpc.Rpc.Channel.Answer.{outcome}
use netrpc.Rpc.Channel.Outcome.{IsSent, request_of, sent, call_method-sent, session-outcome}

-- The answer to a request.
abbrev pub response_to : TinyPbProtocol → Bytes → TinyPbProtocol
response_to request pb_data = record new_message {
  msg_id = request.msg_id;
  method_name = request.method_name;
  pb_data = pb_data;
}

outcome-success :
    (parse_response : Bytes → Bool) (m : TinyPbProtocol) (k : RpcController)
    → parse_response m.pb_data ≡ true
    → m.err_code ≡ pos 0
    → outcome parse_response m k ≡ k
outcome-success parse_response m k parses good = simp (parses, good)

module _ (p : Protobuf) (services : ServiceMap p) where
  open p use {Service, Method, Message, serialize}

  -- A handler that answers the request once.
  pub record Serves (request : TinyPbProtocol) (pb_data : Bytes) : Type 0 where
    pub service : Service
    pub method : Method
    pub message : Message
    pub name : Bytes
    pub resolves : resolve p request services ≡ some (service, method, message, name)
    pub answer : Message
    pub answers : p.call_method service method request.msg_id message ≡ answer ∷ []
    pub serializes : serialize answer ≡ some pb_data

  served :
      (request : TinyPbProtocol) (pb_data : Bytes) (rt : RunTime)
      → Serves request pb_data
      → (responses p services (request ∷ []) rt ≡ response_to request pb_data ∷ [])
        × (all_replies p services (request ∷ []) rt ≡ response_to request pb_data ∷ [])
  served request pb_data rt h =
      let (replies, response) =
        dispatch-success p request services new_message rt h.service h.method h.message h.name
          h.answer pb_data h.resolves h.answers h.serializes in
      (ap (λ r. r ∷ []) response, append-nil _ ∙ replies ∙ ap (λ r. r ∷ []) response)

  -- A connection of the server that holds just these bytes of a client, and nothing to write.
  pub record Receives (server : TcpConnection) (bytes : Bytes) : Type 0 where
    pub open_ : IsOpen server.in_buffer
    pub whole : readable server.in_buffer ≡ bytes
    pub out_valid : IsValid server.out_buffer
    pub empty : readable server.out_buffer ≡ []

  -- Such a call, and such a server behind the arrival of the request's frame.
  answered :
      (parse_response : Bytes → Bool) (call : Call) (ids : MsgIdState) (c : ℕ) (cs : Bytes)
      (ch : RpcChannel) (bytes : Bytes) (s : IsSent call ids (c ∷ cs) bytes ch) (all : Bool)
      (server : TcpConnection) (rt : RunTime) (fuel : ℕ) (pb_data : Bytes)
      (arrive : Bytes → TcpBuffer)
      → ch.runs ≡ []
      → Receives server (wires (request_of call (c ∷ cs) bytes ∷ []))
      → IsSendable (request_of call (c ∷ cs) bytes)
      → Serves (received (request_of call (c ∷ cs) bytes)) pb_data
      → IsSendable (response_to (request_of call (c ∷ cs) bytes) pb_data)
      → parse_response pb_data ≡ true
      → ((sent : Bytes) → IsOpen (arrive sent) × (readable (arrive sent) ≡ sent))
      → (rt' : RunTime) × (server' : TcpConnection) × (messages : List TinyPbProtocol)
        × (rest : TcpBuffer) × (excute_server p services (suc (suc fuel)) rt server
            ≡ ok (rt', server'))
        × (decode 3 [] (arrive (readable server'.out_buffer)) ≡ ok (messages, rest))
        × Returns
            (λ ch'. ch'.runs ≡ (set_msg_id (c ∷ cs) ch.controller, some pb_data) ∷ [])
            (session parse_response call (written all ∷ map arrived messages) ids ch)
  unfolding with_msg_id
  answered parse_response call ids c cs ch bytes s all server rt fuel pb_data arrive fresh held
        sendable serves answerable parses arrives =
      let request : TinyPbProtocol = request_of call (c ∷ cs) bytes in
      let response : TinyPbProtocol = response_to request pb_data in
      let (once, replied) = served (received request) pb_data rt serves in
      let (server', e, _, out, _) =
        excute_server-Sends p services (request ∷ []) (suc (suc fuel)) rt server held.open_
          held.out_valid (sendable, tt) (omega arith) held.whole
          (subst AllSendable (sym replied) (answerable, tt))
          (subst AllSendable (sym once) (answerable, tt)) in
      let put_out : readable server'.out_buffer ≡ wires (response ∷ response ∷ []) =
        out
        ∙ ap
            (λ (x : Bytes).
              x
              ++ (wires (all_replies p services (received request ∷ []) rt)
                  ++ wires (responses p services (received request ∷ []) rt)))
            held.empty
        ∙ ap (λ ms. wires ms ++ wires (responses p services (received request ∷ []) rt)) replied
        ∙ ap (λ ms. wires (response ∷ []) ++ wires ms) once
        ∙ ap (λ (x : Bytes). x ++ (wire response ++ [])) (append-nil (wire response)) in
      let (rest, d, _, _) =
        decode-wires (response ∷ response ∷ []) 3 [] (arrive (readable server'.out_buffer))
          (arrives (readable server'.out_buffer)).0 (answerable, (answerable, tt)) (omega arith)
          ((arrives (readable server'.out_buffer)).1 ∙ put_out) in
      let (ch', ran, runs) =
        session-outcome parse_response call ids (c ∷ cs) bytes ch s all (received response)
          (arrived (received response) ∷ []) refl fresh in
      (
        _,
        server',
        delivered (response ∷ response ∷ []),
        rest,
        e,
        d,
        (
          ch',
          ran,
          runs
              ∙ ap (λ k. (k, some pb_data) ∷ [])
                  (outcome-success parse_response (received response)
                    (set_msg_id (c ∷ cs) ch.controller) parses refl),
        ),
      )

  -- A call, whose closure has not run, that sends its request at its first attempt to connect; a way
  -- (`upload`) of the client's bytes into the buffer of a server's connection, which has nothing else
  -- to read or to write, and one (`arrive`) of the server's bytes into a client's buffer, that keep
  -- them whole; and a server whose handler answers the request, by the call's method name and with
  -- the call's serialized payload, once, with a payload that the client can parse; both messages fit
  -- into the arrays of decode. Then CallMethod returns with a connected client; onWrite of this
  -- client has some bytes to write; excute of the server, with fuel for two rounds, returns on these
  -- bytes; decode of the client returns on what the server has put out; and the events of the decoded
  -- messages run the closure of the call exactly once (the server answers twice), with the payload of
  -- the handler's answer and no error: the controller is as before, but for the id.
  pub session-excute_server :
      (parse_response : Bytes → Bool) (call : Call) (ids : MsgIdState) (c : ℕ) (cs : Bytes)
      (ch : RpcChannel) (bytes : Bytes) (s : IsSent call ids (c ∷ cs) bytes ch) (all : Bool)
      (run_done : ℕ → TinyPbProtocol → TcpConnection → TcpConnection)
      (upload : Bytes → TcpConnection) (rt : RunTime) (fuel : ℕ) (pb_data : Bytes)
      (arrive : Bytes → TcpBuffer)
      → ch.runs ≡ []
      → ((sent : Bytes) → Receives (upload sent) sent)
      → IsSendable (request_of call (c ∷ cs) bytes)
      → Serves (received (request_of call (c ∷ cs) bytes)) pb_data
      → IsSendable (response_to (request_of call (c ∷ cs) bytes) pb_data)
      → parse_response pb_data ≡ true
      → ((sent : Bytes) → IsOpen (arrive sent) × (readable (arrive sent) ≡ sent))
      → (ids' : MsgIdState) × (ch₁ : RpcChannel) × (client : TcpClient) × (filled : TcpConnection)
        × (out : Bytes) × (rt' : RunTime) × (server' : TcpConnection) × (messages : List
            TinyPbProtocol)
        × (rest : TcpBuffer) × (call_method parse_response call ids ch ≡ ok (ids', ch₁))
        × (ch₁.client ≡ some client)
        × (client.connection.state ≡ connected)
        × (fill_out run_done client.connection ≡ ok filled)
        × (pending_bytes filled.out_buffer ≡ ok out)
        × (excute_server p services (suc (suc fuel)) rt (upload out) ≡ ok (rt', server'))
        × (decode 3 [] (arrive (readable server'.out_buffer)) ≡ ok (messages, rest))
        × Returns
            (λ ch'. ch'.runs ≡ (set_msg_id (c ∷ cs) ch.controller, some pb_data) ∷ [])
            (session parse_response call (written all ∷ map arrived messages) ids ch)
  unfolding with_msg_id
  session-excute_server parse_response call ids c cs ch bytes s all run_done upload rt fuel pb_data
        arrive fresh uploads sendable serves answerable parses arrives =
      let request : TinyPbProtocol = request_of call (c ∷ cs) bytes in
      let (linked, (filled, e₁, e₂)) = fill_out-with_request request run_done (sendable, tt) in
      let (rt', server', messages, rest, served_, decoded, closed_) =
        answered parse_response call ids c cs ch bytes s all (upload (wires (request ∷ []))) rt fuel
          pb_data arrive fresh (uploads (wires (request ∷ []))) sendable serves answerable parses
          arrives in
      (
        s.next_ids,
        sent parse_response call ids (c ∷ cs) bytes ch s,
        _,
        filled,
        wires (request ∷ []),
        rt',
        server',
        messages,
        rest,
        call_method-sent parse_response call ids (c ∷ cs) bytes ch s,
        refl,
        linked,
        e₁,
        e₂,
        served_,
        decoded,
        closed_,
      )
