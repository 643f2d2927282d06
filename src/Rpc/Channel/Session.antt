-- ===== src/Rpc/Channel/Session.antt =====
-- What a whole call keeps of the finished flag and of the runs of its closure.
use netrpc.Base.{
  ℕ, zero, suc, ◌+◌, ◌≡◌, refl, ◌⊎◌, inl, inr, Bytes, Bool, true, false, Result, Returns,
  Returns-bind, pos_part, ℤ, some, List, [], ◌∷◌, ◌++◌, length, Bool-cases, Option-cases, if_both,
}
use netrpc.MsgIdUtil.{MsgIdState}
use netrpc.TinyPb.Protocol.{TinyPbProtocol}
use netrpc.Tcp.Client.{TcpClient, connect, new_tcp_client}
use netrpc.Rpc.Controller.{set_msg_id}
use netrpc.Rpc.Channel.{RpcChannel, ChannelEvent, put_client, update_controller, fail_with}
use netrpc.Rpc.Channel.CallMethod.{
  Call, Attempt, take_msg_id, is_connected, attempt_connect, try_connect, send_request,
  call_with_id, call_addressed, refuse_call, call_method, session,
}
use netrpc.Rpc.Channel.Keeps.{Run, Keeps, AnyClient, any_client}
use netrpc.Rpc.Channel.Once.{
  Kept, Ready, fail_with-Kept, on_connect_done-Ready, run_events-Ready, run_events-Kept,
}

-- A controller, a request and a response are given, and an id for the request can be had.
abbrev pub IsComplete : Call → MsgIdState → RpcChannel → Type 0
IsComplete call ids ch =
    (call.has_controller ≡ true)
    × (call.has_request ≡ true)
    × (call.has_response ≡ true)
    × Returns (λ _. Unit {0}) (take_msg_id call ch ids)

module _ (P : Bool → List Run → Type 0) (Q : TcpClient → Type 0) (keeps : Keeps P Q)
    (parse_response : Bytes → Bool) where
  pub attempt_connect-Ready :
      (a : Attempt) (c : TcpClient) (ch : RpcChannel)
      → Q c
      → Kept P Q keeps ch
      → Returns (Ready P Q keeps) (attempt_connect parse_response a c ch)
  unfolding attempt_connect
  attempt_connect-Ready a c ch q k =
      let (client, is_done) = connect a.result c in
      if_both (Returns (Ready P Q keeps)) is_done
        (on_connect_done-Ready P Q keeps (put_client client ch)
          (k, client, refl, keeps.connects a.result c q))
        (run_events-Ready P Q keeps parse_response a.handled (put_client client ch)
          (k, client, refl, keeps.connects a.result c q))

  pub try_connect-Ready :
      (n i : ℕ) (attempts : ℕ → Attempt) (ch : RpcChannel)
      → Ready P Q keeps ch
      → Returns (Ready P Q keeps) (try_connect parse_response n i attempts ch)
  unfolding try_connect
  try_connect-Ready zero i attempts ch h = (ch, refl, h)
  try_connect-Ready (suc n) i attempts ch (k, c, h, q) =
      elim (Bool-cases (is_connected c.connection.state)) [
        | inl e ↦ rw (h, try_connect) (rw e (ch, refl, (k, c, h, q)))
        | inr e ↦
            rw (h, try_connect)
              (rw e (
                Returns-bind _ _ (attempt_connect-Ready (attempts i) c ch q k)
                  (try_connect-Ready n (i + 1) attempts)))
      ]

module _ (P : Bool → List Run → Type 0) (keeps : Keeps P AnyClient)
    (parse_response : Bytes → Bool) where
  send_request-Kept :
      (call : Call) (req : TinyPbProtocol) (ch : RpcChannel)
      → Kept P AnyClient keeps ch
      → Returns (Kept P AnyClient keeps) (send_request parse_response call req ch)
  unfolding send_request
  send_request-Kept call req ch k =
      let (ch', same, (k', _, _, _)) =
        try_connect-Ready P AnyClient keeps parse_response (pos_part ch.controller.max_retry) 0
          call.attempts
          (record ch {
            client = some new_tcp_client;
            req_protocol = req;
            timer_event = some ch.controller.timeout;
          })
          (k, new_tcp_client, refl, tt) in
      (ch', same, k')

  fails :
      (code : ℤ) (info : Bytes) (ch : RpcChannel)
      → Kept P AnyClient keeps ch
      → Returns (Kept P AnyClient keeps) (fail_with code info ch)
  fails code info ch k =
      let (ch', same, (k', _)) = fail_with-Kept P AnyClient keeps code info ch k in (ch', same, k')

  call_with_id-Kept :
      (call : Call) (id : Bytes) (ch : RpcChannel)
      → Kept P AnyClient keeps ch
      → Returns (Kept P AnyClient keeps) (call_with_id parse_response call id ch)
  unfolding call_with_id
  call_with_id-Kept call id ch k = elim (Option-cases call.serialized) [
    | inl e ↦ rw (k.0, call_with_id) (rw e (fails _ _ ch k))
    | inr (bytes, e) ↦ rw (k.0, call_with_id) (rw e (send_request-Kept call _ ch k))
  ]

  call_addressed-Kept :
      (call : Call) (ids : MsgIdState) (ch : RpcChannel)
      → Returns (λ _. Unit {0}) (take_msg_id call ch ids)
      → Kept P AnyClient keeps ch
      → Returns (λ r. Kept P AnyClient keeps r.1) (call_addressed parse_response call ids ch)
  unfolding call_addressed take_msg_id set_msg_id
  call_addressed-Kept call ids ch drawn k = Returns-bind (take_msg_id call ch ids) _ drawn (λ t _.
      Returns-bind (call_with_id parse_response call t.0 (update_controller (set_msg_id t.0) ch)) _
        (call_with_id-Kept call t.0 (update_controller (set_msg_id t.0) ch) k)
        (λ ch' k'. ((t.1, ch'), refl, k')))

  call_method-Kept :
      (call : Call) (ids : MsgIdState) (ch : RpcChannel)
      → IsComplete call ids ch
      → Kept P AnyClient keeps ch
      → Returns (λ r. Kept P AnyClient keeps r.1) (call_method parse_response call ids ch)
  unfolding call_method refuse_call
  call_method-Kept call ids ch (c, q, r, drawn) k = elim (Option-cases ch.peer_addr) [
    | inl e ↦ rw (c, call_method) (rw q (rw r (rw e (refused _ ids (fails _ _ ch k)))))
    | inr (addr, e) ↦
        rw (c, call_method) (rw q (rw r (rw e (call_addressed-Kept call ids ch drawn k))))
  ]
    where
      refused :
          (result : Result RpcChannel) (i : MsgIdState)
          → Returns (Kept P AnyClient keeps) result
          → Returns (λ x. Kept P AnyClient keeps x.1) (refuse_call parse_response result i)
      refused result i h = Returns-bind result _ h (λ ch' k'. ((i, ch'), refl, k'))

  pub session-Kept :
      (call : Call) (events : List ChannelEvent) (ids : MsgIdState) (ch : RpcChannel)
      → IsComplete call ids ch
      → Kept P AnyClient keeps ch
      → Returns (Kept P AnyClient keeps) (session parse_response call events ids ch)
  unfolding session
  session-Kept call events ids ch complete k =
      Returns-bind (call_method parse_response call ids ch) _
        (call_method-Kept call ids ch complete k)
        (λ r. run_events-Kept P keeps parse_response events r.1)

-- At most one run, and none while the call is open.
abbrev pub AtMostOnce : Bool → List Run → Type 0
AtMostOnce is_finished runs = (runs ≡ []) ⊎ ((is_finished ≡ true) × (length runs ≡ 1))

run-AtMostOnce :
    (runs : List Run) (r : Run) → AtMostOnce false runs → AtMostOnce true (runs ++ (r ∷ []))
run-AtMostOnce runs r (inl e) = inr (refl, rw e refl)
run-AtMostOnce runs r (inr (bad, _)) = absurd (cc bad)

cancel-AtMostOnce : (b : Bool) (runs : List Run) → AtMostOnce b runs → AtMostOnce true runs
cancel-AtMostOnce b runs (inl e) = inl e
cancel-AtMostOnce b runs (inr (_, e)) = inr (refl, e)

-- On a channel that Init was called on and whose closure has not run, a call that is given its
-- controller, request and response, and that can have an id, returns, whatever ::connect says in
-- each attempt and whatever events (the socket ready, writes, responses, the timeout) the loop
-- handles within connect or behind the call; and then the closure has run once or not at all, once
-- only where the controller is finished.
pub session-AtMostOnce :
    (parse_response : Bytes → Bool) (call : Call) (events : List ChannelEvent) (ids : MsgIdState)
    (ch : RpcChannel)
    → IsComplete call ids ch
    → ch.is_init ≡ true
    → ch.runs ≡ []
    → Returns
        (λ ch'. AtMostOnce ch'.controller.is_finished ch'.runs)
        (session parse_response call events ids ch)
session-AtMostOnce parse_response call events ids ch complete i fresh =
    let (ch', same, (_, once)) =
      session-Kept AtMostOnce (any_client AtMostOnce run-AtMostOnce cancel-AtMostOnce)
        parse_response call events ids ch complete (i, inl fresh) in
    (ch', same, once)
