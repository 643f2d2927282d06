-- ===== src/Rpc/Channel/Outcome.antt =====
-- The two ends of a call on RpcChannel whose request goes out: its response, and its timeout.
use netrpc.Base.{
  ℕ, suc, ◌≡◌, refl, ◌∙◌, ap, Bytes, codes, Bool, true, false, ok, Result, Returns, ◌>>=◌, ℤ, pos,
  none, some, List, [], ◌∷◌, ◌++◌,
}
use netrpc.Decimal.{decimal_int}
use netrpc.MsgIdUtil.{MsgIdState}
use netrpc.NetAddr.{IpNetAddr}
use netrpc.TinyPb.Protocol.{TinyPbProtocol, new_message}
use netrpc.Tcp.Client.{TcpClient, success}
use netrpc.Rpc.Controller.{set_error, set_msg_id, set_finished, start_cancel}
use netrpc.Rpc.ErrorCode.{error_rpc_call_timeout}
use netrpc.Rpc.Channel.{
  RpcChannel, ChannelEvent, written, arrived, timer_fired, update_controller, call_back, fail_with,
  on_timeout, on_client_event, on_event, run_events,
}
use netrpc.Rpc.Channel.CallMethod.{
  Call, take_msg_id, call_with_id, call_addressed, call_method, send_request, session,
}
use netrpc.Rpc.Channel.Keeps.{Run, any_client}
use netrpc.Rpc.Channel.Once.{run_events-Kept}
use netrpc.Rpc.Channel.Answer.{
  requested, send_request-success, on_written-requested, outcome, IsOpen, on_arrived-awaiting,
}

-- The closure has not run since.
abbrev StaysFinished : List Run → Bool → List Run → Type 0
StaysFinished before is_finished runs = (is_finished ≡ true) × (runs ≡ before)

run-StaysFinished :
    (before runs : List Run) (r : Run)
    → StaysFinished before false runs
    → StaysFinished before true (runs ++ (r ∷ []))
run-StaysFinished before runs r (bad, _) = absurd (cc bad)

cancel-StaysFinished :
    (before : List Run) (b : Bool) (runs : List Run)
    → StaysFinished before b runs
    → StaysFinished before true runs
cancel-StaysFinished before b runs (_, e) = (refl, e)

-- Once the call is over the closure does not run, whatever happens.
run_events-finished :
    (parse_response : Bytes → Bool) (events : List ChannelEvent) (ch : RpcChannel)
    → ch.is_init ≡ true
    → ch.controller.is_finished ≡ true
    → Returns
        (λ ch'. (ch'.controller.is_finished ≡ true) × (ch'.runs ≡ ch.runs))
        (run_events parse_response events ch)
run_events-finished parse_response events ch i f =
    let (ch', e, (_, stays)) =
      run_events-Kept (StaysFinished ch.runs)
        (any_client (StaysFinished ch.runs) (run-StaysFinished ch.runs)
          (cancel-StaysFinished ch.runs))
        parse_response events ch (i, (f, refl)) in
    (ch', e, stays)

-- A call on an open channel that sends its request under the id at its first attempt to connect.
pub record IsSent (call : Call) (ids : MsgIdState) (id bytes : Bytes) (ch : RpcChannel)
    : Type 0 where
  pub has_controller : call.has_controller ≡ true
  pub has_request : call.has_request ≡ true
  pub has_response : call.has_response ≡ true
  pub addr : IpNetAddr
  pub has_addr : ch.peer_addr ≡ some addr
  pub next_ids : MsgIdState
  pub has_id : take_msg_id call ch ids ≡ ok (id, next_ids)
  pub is_open : IsOpen ch
  pub is_serialized : call.serialized ≡ some bytes
  pub retries : ℕ
  pub has_retries : ch.controller.max_retry ≡ pos (suc retries)
  pub connects : (call.attempts 0).result ≡ success

abbrev pub request_of : Call → Bytes → Bytes → TinyPbProtocol
request_of call id bytes = record new_message {
  msg_id = id;
  method_name = call.full_name;
  pb_data = bytes;
}

module _ (parse_response : Bytes → Bool) (call : Call) (ids : MsgIdState) (id bytes : Bytes)
    (ch : RpcChannel) (s : IsSent call ids id bytes ch) where
  abbrev named : RpcChannel
  named = update_controller (set_msg_id id) ch

  abbrev pub sent : RpcChannel
  sent = requested (request_of call id bytes) named

  call_with_id-sent : call_with_id parse_response call id named ≡ ok sent
  unfolding call_with_id set_msg_id
  call_with_id-sent =
      serialized
      ∙ send_request-success parse_response call (request_of call id bytes) named s.retries
          s.has_retries s.connects
    where
      serialized :
          call_with_id parse_response call id named
          ≡ send_request parse_response call (request_of call id bytes) named
      serialized = simp (s.is_open.0, s.is_serialized, call_with_id)

  pub call_method-sent : call_method parse_response call ids ch ≡ ok (s.next_ids, sent)
  unfolding call_method call_addressed
  call_method-sent =
      addressed
      ∙ ap
          (λ (r : Result (Bytes × MsgIdState)). do
            t ← r
            ch' ← call_with_id parse_response call t.0 (update_controller (set_msg_id t.0) ch)
            ok (t.1, ch'))
          s.has_id
      ∙ ap (λ r. r >>= (λ ch'. ok (s.next_ids, ch'))) call_with_id-sent
    where
      addressed : call_method parse_response call ids ch ≡ call_addressed parse_response call ids ch
      addressed = simp (s.has_controller, s.has_request, s.has_response, s.has_addr, call_method)

  -- A call that sends its request at its first attempt to connect, whose request is then written,
  -- in part or whole, and whose response with the request's id arrives, returns, and runs its
  -- closure exactly once, whatever events follow. The closure sees the payload in the response, and
  -- in the controller, which carries the id, the error of a payload that cannot be parsed, else the
  -- error code and text of the response, else nothing new.
  pub session-outcome :
      (all : Bool) (m : TinyPbProtocol) (later : List ChannelEvent)
      → m.msg_id ≡ id
      → ch.runs ≡ []
      → Returns
          (λ ch'.
            ch'.runs
            ≡ (outcome parse_response m (set_msg_id id ch.controller), some m.pb_data) ∷ [])
          (session parse_response call (written all ∷ arrived m ∷ later) ids ch)
  unfolding session run_events set_msg_id
  session-outcome all m later same fresh =
      let req : TinyPbProtocol = request_of call id bytes in
      let run : Run = (outcome parse_response m (set_msg_id id ch.controller), some m.pb_data) in
      let (ch₁, e₁, (h₁, i₁, f₁)) =
        on_arrived-awaiting parse_response req m all named s.is_open same in
      let (ch₂, e₂, (_, h₂)) = run_events-finished parse_response later ch₁ i₁ f₁ in
      (
        ch₂,
        ap (λ r. r >>= (λ t. run_events parse_response (written all ∷ arrived m ∷ later) t.1))
              call_method-sent
            ∙ ap
                (λ r. r >>= (λ c.
                  on_event parse_response (arrived m) c >>= run_events parse_response later))
                (on_written-requested parse_response req all named)
            ∙ ap (λ r. r >>= run_events parse_response later) e₁
            ∙ e₂,
        h₂ ∙ h₁ ∙ ap (λ runs. runs ++ (run ∷ [])) fresh,
      )

abbrev timed_out : RpcChannel → RpcChannel
timed_out ch = record ch {
  timer_event = none;
  controller =
      set_error error_rpc_call_timeout
        (codes "rpc call timeout " ++ decimal_int ch.controller.timeout)
        (start_cancel ch.controller);
}

on_timeout-open :
    (ch : RpcChannel)
    → ch.is_init ≡ true
    → ch.controller.is_finished ≡ false
    → on_timeout (record ch { timer_event = none }) ≡ ok (timed_out ch)
unfolding on_timeout fail_with call_back set_error start_cancel set_finished
on_timeout-open ch i open_ = simp (i, open_, on_timeout)

timer_fired-open :
    (parse_response : Bytes → Bool) (ch : RpcChannel) (client : TcpClient) (timeout : ℤ)
    → ch.client ≡ some client
    → ch.timer_event ≡ some timeout
    → on_event parse_response timer_fired ch ≡ on_timeout (record ch { timer_event = none })
unfolding on_event on_client_event
timer_fired-open parse_response ch client timeout c t = simp (c, t, on_event, on_client_event)

-- Where the timer's event fires on an unfinished call, the controller gets the timeout's error and
-- is cancelled, which finishes it, and from then on the closure never runs, whatever events follow.
pub timer_fired-runs :
    (parse_response : Bytes → Bool) (ch : RpcChannel) (client : TcpClient) (timeout : ℤ)
    (events : List ChannelEvent)
    → ch.is_init ≡ true
    → ch.client ≡ some client
    → ch.timer_event ≡ some timeout
    → ch.controller.is_finished ≡ false
    → Returns
        (λ late.
          (late.controller
            ≡ set_error error_rpc_call_timeout
                (codes "rpc call timeout " ++ decimal_int ch.controller.timeout)
                (start_cancel ch.controller))
          × Returns
              (λ ch'. (ch'.controller.is_finished ≡ true) × (ch'.runs ≡ ch.runs))
              (run_events parse_response events late))
        (on_event parse_response timer_fired ch)
unfolding set_error start_cancel set_finished
timer_fired-runs parse_response ch client timeout events i c t open_ = (
  timed_out ch,
  timer_fired-open parse_response ch client timeout c t ∙ on_timeout-open ch i open_,
  (refl, run_events-finished parse_response events (timed_out ch) i refl),
)
