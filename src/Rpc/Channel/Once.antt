-- ===== src/Rpc/Channel/Once.antt =====
-- The closure of a call: what every step of the channel keeps of the controller's finished flag
-- and of the runs of the closure.
use mathlib.Core.Path.{subst}
use netrpc.Base.{
  ℕ, ◌≡◌, refl, ◌∙◌, ap, inl, inr, Bytes, Bool, true, false, not, ok, Result, Returns, Returns-bind,
  ◌>>=◌, ℤ, Option, none, some, List, [], ◌∷◌, Bool-cases, Option-cases, if_both, is_zero,
}
use netrpc.StdMap.{find, erase, bytes_key}
use netrpc.Tcp.Connection.Events.{stop_writing}
use netrpc.TinyPb.Protocol.{TinyPbProtocol}
use netrpc.Tcp.Connection.{TcpConnection}
use netrpc.Tcp.Client.{TcpClient, ConnectResult, end_connect, write_message, read_message}
use netrpc.Rpc.Controller.{set_error, set_finished, start_cancel}
use netrpc.Rpc.Channel.Keeps.{Run, Keeps, AnyClient}
use netrpc.Rpc.Channel.{
  RpcChannel, update_controller, put_client, put_connection, update_connection, close_call,
  call_back, fail_with, on_timeout, on_connect_done, on_sent, run_sent, ChannelEvent,
  on_connect_ready, run_sent_dones, on_written, on_response, on_arrived, on_client_event, on_event,
  run_events, connect_ready, written, arrived, timer_fired,
}

module _ (P : Bool → List Run → Type 0) (Q : TcpClient → Type 0) (keeps : Keeps P Q) where
  abbrev pub Kept : RpcChannel → Type 0
  Kept ch = (ch.is_init ≡ true) × P ch.controller.is_finished ch.runs

  -- The client is that of before.
  abbrev KeptAs : Option TcpClient → RpcChannel → Type 0
  KeptAs client ch = Kept ch × (ch.client ≡ client)

  close_call-Kept :
      (ch : RpcChannel)
      → Kept ch
      → ch.controller.is_finished ≡ false
      → KeptAs ch.client (close_call ch)
  unfolding close_call set_finished
  close_call-Kept ch (i, p) open_ =
      ((i, keeps.run ch.runs (ch.controller, ch.response) (subst (λ b. P b ch.runs) open_ p)), refl)

  call_back-Kept : (ch : RpcChannel) → Kept ch → Returns (KeptAs ch.client) (call_back ch)
  unfolding call_back
  call_back-Kept ch (i, p) = elim (Bool-cases ch.controller.is_finished) [
    | inl e ↦ (ch, rw (i, call_back) (rw e refl), ((i, p), refl))
    | inr e ↦ elim (Bool-cases ch.has_closure) [
      | inl h ↦ (close_call ch, rw (i, call_back) (rw e (rw h refl)), close_call-Kept ch (i, p) e)
      | inr h ↦ (ch, rw (i, call_back) (rw e (rw h refl)), ((i, p), refl))
    ]
  ]

  pub fail_with-Kept :
      (code : ℤ) (info : Bytes) (ch : RpcChannel)
      → Kept ch
      → Returns (KeptAs ch.client) (fail_with code info ch)
  unfolding fail_with set_error
  fail_with-Kept code info ch k = call_back-Kept (update_controller (set_error code info) ch) k

  on_timeout-Kept : (ch : RpcChannel) → Kept ch → Returns (KeptAs ch.client) (on_timeout ch)
  unfolding on_timeout start_cancel set_finished
  on_timeout-Kept ch (i, p) = elim (Bool-cases ch.controller.is_finished) [
    | inl e ↦ (ch, rw (e, on_timeout) refl, ((i, p), refl))
    | inr e ↦
        rw (e, on_timeout)
          (fail_with-Kept _ _ (update_controller start_cancel ch) (i, keeps.cancel _ ch.runs p))
  ]

  -- There is a client, with its property.
  abbrev pub Ready : RpcChannel → Type 0
  Ready ch = Kept ch × (c : TcpClient) × (ch.client ≡ some c) × Q c

  ready :
      (r : Result RpcChannel) (o : Option TcpClient) (c : TcpClient)
      → o ≡ some c
      → Q c
      → Returns (KeptAs o) r
      → Returns Ready r
  ready r o c same q (ch, e, (k, h)) = (ch, e, (k, c, h ∙ same, q))

  update_client :
      (f : TcpConnection → TcpConnection) (c : TcpClient) (ch : RpcChannel)
      → Q (put_connection (f c.connection) c)
      → ch.client ≡ some c
      → Kept ch
      → Returns Ready (update_connection f ch)
  unfolding update_connection
  update_client f c ch q h k = (
    put_client (put_connection (f c.connection) c) ch,
    rw (h, update_connection) refl,
    (k, put_connection (f c.connection) c, refl, q),
  )

  update_connection-Ready :
      (f : TcpConnection → TcpConnection) (ch : RpcChannel)
      → ((c : TcpClient) → Q c → Q (put_connection (f c.connection) c))
      → Ready ch
      → Returns Ready (update_connection f ch)
  update_connection-Ready f ch step (k, c, h, q) = update_client f c ch (step c q) h k

  pub on_connect_done-Ready : (ch : RpcChannel) → Ready ch → Returns Ready (on_connect_done ch)
  unfolding on_connect_done
  on_connect_done-Ready ch (k, c, h, q) = elim (Bool-cases (is_zero c.connect_error_code)) [
    | inl e ↦
        rw (h, on_connect_done)
          (rw e (
            update_client (write_message ch.req_protocol 0) c ch
              (keeps.writes ch.req_protocol c e q) h k))
    | inr e ↦
        rw (h, on_connect_done)
          (rw e (
            ready _ ch.client c h q
              (fail_with-Kept c.connect_error_code c.connect_error_info ch k)))
  ]

  run_sent-Ready :
      (dones : List (TinyPbProtocol × ℕ)) (ch : RpcChannel)
      → Ready ch
      → Returns Ready (run_sent dones ch)
  unfolding run_sent on_sent
  run_sent-Ready [] ch h = (ch, refl, h)
  run_sent-Ready ((message, done) ∷ dones) ch h =
      Returns-bind _ (run_sent dones)
        (update_connection-Ready (read_message message.msg_id 1) ch (keeps.reads message.msg_id) h)
        (run_sent-Ready dones)

  on_written-Ready :
      (all : Bool) (c : TcpClient) (ch : RpcChannel)
      → Ready ch
      → Returns Ready (on_written all c ch)
  unfolding on_written run_sent_dones
  on_written-Ready all c ch h =
      if_both (Returns Ready) c.connection.listens_out
        (Returns-bind _ _ (update_connection-Ready (stop_writing all) ch (keeps.stops all) h)
          (λ ch₁ h₁.
            Returns-bind _ _ (run_sent-Ready c.connection.write_dones ch₁ h₁)
              (λ ch₂ h₂. update_connection-Ready _ ch₂ keeps.clears h₂)))
        (ch, refl, h)

  on_connect_ready-Ready :
      (result : ConnectResult) (text : Bytes) (c : TcpClient) (ch : RpcChannel)
      → Q c
      → Ready ch
      → Returns Ready (on_connect_ready result text c ch)
  unfolding on_connect_ready
  on_connect_ready-Ready result text c ch q (k, d, h, r) =
      if_both (Returns Ready) c.is_connecting
        (on_connect_done-Ready (put_client (end_connect result text c) ch)
          (k, end_connect result text c, refl, keeps.ends result text c q))
        (ch, refl, (k, d, h, r))

  module _ (parse_response : Bytes → Bool) where
    on_response-Ready :
        (m : TinyPbProtocol) (ch : RpcChannel)
        → Ready ch
        → Returns Ready (on_response parse_response m ch)
    unfolding on_response
    on_response-Ready m ch (k, c, h, q) =
        let parsed : RpcChannel = record ch { response = some m.pb_data } in
        if_both (Returns Ready) (not (parse_response m.pb_data))
          (ready _ ch.client c h q (fail_with-Kept _ _ parsed k))
          (if_both (Returns Ready) (not (is_zero m.err_code))
            (ready _ ch.client c h q (fail_with-Kept _ _ parsed k))
            (ready _ ch.client c h q (call_back-Kept parsed k)))

    on_arrived-Ready :
        (m : TinyPbProtocol) (c : TcpClient) (ch : RpcChannel)
        → Ready ch
        → Returns Ready (on_arrived parse_response m c ch)
    unfolding on_arrived
    on_arrived-Ready m c ch h = elim (Option-cases (find m.msg_id c.connection.read_dones)) [
      | inl e ↦ rw (e, on_arrived) (ch, refl, h)
      | inr (done, e) ↦
          rw (e, on_arrived)
            (Returns-bind _ _ (on_response-Ready m ch h) (λ ch' h'.
              update_connection-Ready _ ch'
                (λ d q. keeps.takes (erase m.msg_id d.connection.read_dones) d q) h'))
    ]

    on_client_event-Ready :
        (e : ChannelEvent) (c : TcpClient) (ch : RpcChannel)
        → Q c
        → Ready ch
        → Returns Ready (on_client_event parse_response e c ch)
    unfolding on_client_event
    on_client_event-Ready (connect_ready result text) c ch q h =
        on_connect_ready-Ready result text c ch q h
    on_client_event-Ready (written all) c ch q h = on_written-Ready all c ch h
    on_client_event-Ready (arrived m) c ch q h = on_arrived-Ready m c ch h
    on_client_event-Ready timer_fired c ch _ (k, d, h, q) = elim (Option-cases ch.timer_event) [
      | inl e ↦ rw (e, on_client_event) (ch, refl, (k, d, h, q))
      | inr (t, e) ↦
          rw (e, on_client_event)
            (ready _ ch.client d h q (on_timeout-Kept (record ch { timer_event = none }) k))
    ]

    on_event-Ready :
        (e : ChannelEvent) (ch : RpcChannel)
        → Ready ch
        → Returns Ready (on_event parse_response e ch)
    unfolding on_event
    on_event-Ready e ch (k, c, h, q) =
        rw (h, on_event) (on_client_event-Ready e c ch q (k, c, h, q))

    pub run_events-Ready :
        (es : List ChannelEvent) (ch : RpcChannel)
        → Ready ch
        → Returns Ready (run_events parse_response es ch)
    unfolding run_events
    run_events-Ready [] ch h = (ch, refl, h)
    run_events-Ready (e ∷ es) ch h = Returns-bind _ _ (on_event-Ready e ch h) (run_events-Ready es)

    on_event-none :
        (e : ChannelEvent) (ch : RpcChannel)
        → ch.client ≡ none
        → on_event parse_response e ch ≡ ok ch
    unfolding on_event
    on_event-none e ch h = simp (h, on_event)

    pub run_events-none :
        (es : List ChannelEvent) (ch : RpcChannel)
        → ch.client ≡ none
        → run_events parse_response es ch ≡ ok ch
    unfolding run_events
    run_events-none [] ch h = refl
    run_events-none (e ∷ es) ch h =
        ap (λ r. r >>= run_events parse_response es) (on_event-none e ch h)
        ∙ run_events-none es ch h

pub run_events-Kept :
    (P : Bool → List Run → Type 0) (keeps : Keeps P AnyClient) (parse_response : Bytes → Bool)
    (es : List ChannelEvent) (ch : RpcChannel)
    → Kept P AnyClient keeps ch
    → Returns (Kept P AnyClient keeps) (run_events parse_response es ch)
run_events-Kept P keeps parse_response es ch k = elim (Option-cases ch.client) [
  | inl h ↦ (ch, run_events-none P AnyClient keeps parse_response es ch h, k)
  | inr (c, h) ↦
      let (ch', same, (k', _, _, _)) =
        run_events-Ready P AnyClient keeps parse_response es ch (k, c, h, tt) in
      (ch', same, k')
]
