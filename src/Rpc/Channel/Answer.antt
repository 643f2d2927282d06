-- ===== src/Rpc/Channel/Answer.antt =====
-- How a call on RpcChannel ends: by a response, or by the timeout.
use netrpc.Base.{
  ℕ, zero, suc, ◌+◌, ◌≡◌, refl, ◌∙◌, ap, Bytes, codes, Bool, true, false, not, ok, Returns, ◌>>=◌,
  pos, pos_part, some, [], ◌∷◌, ◌++◌, is_zero, if◌then◌else◌, Bool-cases, inl, inr, arith,
}
use netrpc.StdMap.{bytes_eq_iff, find, insert, place, bytes_key}
use netrpc.TinyPb.Protocol.{TinyPbProtocol}
use netrpc.Tcp.Connection.{
  set_state, open_connection, push_send_message, push_read_message, listen_read, listen_write,
}
use netrpc.Tcp.Connection.Events.{stop_writing}
use netrpc.Tcp.Client.{
  TcpClient, new_tcp_client, connect, set_connected, success, write_message, read_message,
}
use netrpc.Rpc.Controller.{set_finished, RpcController, set_error}
use netrpc.Rpc.ErrorCode.{error_failed_serialize}
use netrpc.Rpc.Channel.{
  RpcChannel, written, arrived, put_client, update_connection, update_controller, close_call,
  call_back, fail_with, on_connect_done, on_sent, run_sent, run_sent_dones, on_written, on_response,
  on_arrived, on_client_event, on_event, run_events,
}
use netrpc.Rpc.Channel.CallMethod.{
  Call, Attempt, is_connected, attempt_connect, try_connect, send_request,
}

-- The channel once its request is queued for the peer.
abbrev pub requested : TinyPbProtocol → RpcChannel → RpcChannel
requested req ch = record ch {
  client = some (record new_tcp_client {
    connection = write_message req 0 (set_connected new_tcp_client).connection;
  });
  req_protocol = req;
  timer_event = some ch.controller.timeout;
}

-- The channel at the first attempt to connect.
abbrev started : TinyPbProtocol → RpcChannel → RpcChannel
started req ch = record ch {
  client = some new_tcp_client;
  req_protocol = req;
  timer_event = some ch.controller.timeout;
}

on_connect_done-success :
    (req : TinyPbProtocol) (ch : RpcChannel)
    → on_connect_done (put_client (set_connected new_tcp_client) (started req ch))
      ≡ ok (requested req ch)
unfolding on_connect_done update_connection set_connected new_tcp_client
on_connect_done-success req ch = refl

module _ (parse_response : Bytes → Bool) where
  try_connect-connected :
      (n i : ℕ) (attempts : ℕ → Attempt) (req : TinyPbProtocol) (ch : RpcChannel)
      → try_connect parse_response n i attempts (requested req ch) ≡ ok (requested req ch)
  unfolding try_connect is_connected write_message set_connected set_state listen_write
      push_send_message
  try_connect-connected zero i attempts req ch = refl
  try_connect-connected (suc n) i attempts req ch = refl

  attempt_connect-success :
      (a : Attempt) (req : TinyPbProtocol) (ch : RpcChannel)
      → a.result ≡ success
      → attempt_connect parse_response a new_tcp_client (started req ch) ≡ ok (requested req ch)
  unfolding attempt_connect connect
  attempt_connect-success a req ch h =
      ap
        (λ r.
          if (connect r new_tcp_client).1
          then on_connect_done (put_client (connect r new_tcp_client).0 (started req ch))
          else run_events parse_response a.handled
              (put_client (connect r new_tcp_client).0 (started req ch)))
        h
      ∙ on_connect_done-success req ch

  try_connect-success :
      (n k : ℕ) (attempts : ℕ → Attempt) (req : TinyPbProtocol) (ch : RpcChannel)
      → k ≡ suc n
      → (attempts 0).result ≡ success
      → try_connect parse_response k 0 attempts (started req ch) ≡ ok (requested req ch)
  unfolding try_connect is_connected new_tcp_client open_connection
  try_connect-success n zero attempts req ch e h = absurd (omega (arith, e))
  try_connect-success n (suc k) attempts req ch e h =
      ap (λ r. r >>= try_connect parse_response k (0 + 1) attempts)
        (attempt_connect-success (attempts 0) req ch h)
      ∙ try_connect-connected k (0 + 1) attempts req ch

  pub send_request-success :
      (call : Call) (req : TinyPbProtocol) (ch : RpcChannel) (n : ℕ)
      → ch.controller.max_retry ≡ pos (suc n)
      → (call.attempts 0).result ≡ success
      → send_request parse_response call req ch ≡ ok (requested req ch)
  unfolding send_request
  send_request-success call req ch n retries connects =
      try_connect-success n _ call.attempts req ch (ap pos_part retries) connects

-- The channel once its callback waits for the response.
abbrev pub awaiting : TinyPbProtocol → Bool → RpcChannel → RpcChannel
awaiting req all ch =
    let c = stop_writing all (write_message req 0 (set_connected new_tcp_client).connection) in
    put_client
      (record new_tcp_client {
        connection = record (read_message req.msg_id 1 c) { write_dones = [] };
      })
      (requested req ch)

pub on_written-requested :
    (parse_response : Bytes → Bool) (req : TinyPbProtocol) (all : Bool) (ch : RpcChannel)
    → on_event parse_response (written all) (requested req ch) ≡ ok (awaiting req all ch)
unfolding on_event on_client_event on_written run_sent_dones run_sent on_sent update_connection
    write_message listen_write push_send_message set_connected set_state new_tcp_client stop_writing
    open_connection
on_written-requested parse_response req true ch = refl
on_written-requested parse_response req false ch = refl

-- What a response makes of the controller.
abbrev pub outcome : (Bytes → Bool) → TinyPbProtocol → RpcController → RpcController
outcome parse_response m c =
    if not (parse_response m.pb_data)
    then set_error error_failed_serialize (codes "serialize error") c
    else if not (is_zero m.err_code)
    then set_error m.err_code m.err_info c
    else c

-- The closure is there and has not run.
abbrev pub IsOpen : RpcChannel → Type 0
IsOpen ch = (ch.is_init ≡ true) × (ch.has_closure ≡ true) × (ch.controller.is_finished ≡ false)

call_back-open : (ch : RpcChannel) → IsOpen ch → call_back ch ≡ ok (close_call ch)
unfolding call_back
call_back-open ch (i, h, e) = simp (i, h, e, call_back)

abbrev parsed_as : TinyPbProtocol → RpcChannel → RpcChannel
parsed_as m ch = record ch { response = some m.pb_data }

on_response-open :
    (parse_response : Bytes → Bool) (m : TinyPbProtocol) (ch : RpcChannel)
    → IsOpen ch
    → on_response parse_response m ch
      ≡ ok (close_call (update_controller (outcome parse_response m) (parsed_as m ch)))
unfolding on_response fail_with set_error
on_response-open parse_response m ch o = elim (Bool-cases (parse_response m.pb_data)) [
  | inl e ↦ elim (Bool-cases (is_zero m.err_code)) [
    | inl z ↦ rw (e, on_response) (rw z (call_back-open (parsed_as m ch) o))
    | inr z ↦
        rw (e, on_response)
          (rw z (
            call_back-open (update_controller (set_error m.err_code m.err_info) (parsed_as m ch))
              o))
  ]
  | inr e ↦
      rw (e, on_response)
        (call_back-open
          (update_controller (set_error error_failed_serialize (codes "serialize error"))
            (parsed_as m ch))
          o)
]

find-insert_nil : (k j : Bytes) (v : ℕ) → k ≡ j → find k (insert j v []) ≡ some v
unfolding find insert place
find-insert_nil k j v same = rw ((bytes_eq_iff k j).1 same) refl

-- The closure has run on the message, and the call is over.
abbrev pub Answered : (Bytes → Bool) → TinyPbProtocol → RpcChannel → RpcChannel → Type 0
Answered parse_response m ch ch' =
    (ch'.runs ≡ ch.runs ++ ((outcome parse_response m ch.controller, some m.pb_data) ∷ []))
    × (ch'.is_init ≡ true)
    × (ch'.controller.is_finished ≡ true)

on_arrived-found :
    (parse_response : Bytes → Bool) (m : TinyPbProtocol) (done : ℕ) (c : TcpClient)
    (ch : RpcChannel)
    → IsOpen ch
    → ch.client ≡ some c
    → find m.msg_id c.connection.read_dones ≡ some done
    → Returns (Answered parse_response m ch) (on_arrived parse_response m c ch)
unfolding on_arrived update_connection close_call set_finished
on_arrived-found parse_response m done c ch o h found =
    rw (found, on_arrived)
      (rw (on_response-open parse_response m ch o)
        (rw (h, update_connection) (_, refl, (refl, o.0, refl))))

pub on_arrived-awaiting :
    (parse_response : Bytes → Bool) (req m : TinyPbProtocol) (all : Bool) (ch : RpcChannel)
    → IsOpen ch
    → m.msg_id ≡ req.msg_id
    → Returns
        (Answered parse_response m ch)
        (on_event parse_response (arrived m) (awaiting req all ch))
unfolding on_event on_client_event read_message listen_read push_read_message stop_writing
    write_message listen_write push_send_message set_connected set_state new_tcp_client
    open_connection
on_arrived-awaiting parse_response req m true ch o same =
    on_arrived-found parse_response m 1 _ (awaiting req true ch) o refl
      (find-insert_nil m.msg_id req.msg_id 1 same)
on_arrived-awaiting parse_response req m false ch o same =
    on_arrived-found parse_response m 1 _ (awaiting req false ch) o refl
      (find-insert_nil m.msg_id req.msg_id 1 same)
