-- ===== src/Rpc/Channel/Tests.antt =====
-- A call of Order.makeOrder on an address of the loopback interface.
use netrpc.TinyPb.Samples.{order}
use netrpc.Rpc.Channel.Silent.{IsSilent, send_request-IsSilent}
use netrpc.Base.{
  ◌>>=◌, ◌==◌, if◌then◌else◌, ◌≡◌, refl, Bytes, codes, Bool, true, false, Returns, pos, some, [],
  ◌∷◌, ◌++◌,
}
use netrpc.Decimal.{decimal_int}
use netrpc.StdMap.{bytes_eq}
use netrpc.TinyPb.Protocol.{TinyPbProtocol, new_message}
use netrpc.Tcp.Client.{TcpClient, success, new_tcp_client, refused}
use netrpc.Rpc.Controller.{new_controller, new_controller, set_msg_id, set_error, start_cancel}
use netrpc.Rpc.ErrorCode.{error_rpc_call_timeout}
use netrpc.Rpc.Channel.{
  init, new_channel, RpcChannel, new_channel, init, written, arrived, timer_fired, on_event,
  run_events,
}
use netrpc.Rpc.Channel.CallMethod.{send_request, Call, take_msg_id, session}
use netrpc.Rpc.Channel.Samples.{channel, ids, call, channel-init, channel-fresh, call-IsSent}
use netrpc.Rpc.Channel.Session.{IsComplete, AtMostOnce, session-AtMostOnce}
use netrpc.Rpc.Channel.Answer.{outcome}
use netrpc.Rpc.Channel.Outcome.{session-outcome, timer_fired-runs}

abbrev unlucky : Call
unlucky = record call { attempts = λ i. record { result = refused (codes "no"); handled = [] } }

abbrev answer : TinyPbProtocol
answer = record new_message { msg_id = codes "99"; pb_data = codes "paid" }

abbrev is_paid : Bytes → Bool
is_paid payload = bytes_eq payload (codes "paid")

call-IsComplete : IsComplete unlucky ids channel
unfolding take_msg_id bytes_eq init new_channel new_controller set_msg_id
call-IsComplete = (refl, refl, refl, ((codes "99", ids), refl, tt))

session-AtMostOnce_example :
    Returns
      (λ ch'. AtMostOnce ch'.controller.is_finished ch'.runs)
      (session is_paid unlucky (timer_fired ∷ arrived answer ∷ []) ids channel)
session-AtMostOnce_example =
    session-AtMostOnce is_paid unlucky (timer_fired ∷ arrived answer ∷ []) ids channel
      call-IsComplete channel-init channel-fresh

session-outcome_example :
    Returns
      (λ ch'.
        ch'.runs
        ≡ (outcome is_paid answer (set_msg_id (codes "99") channel.controller), some (codes "paid"))
          ∷ [])
      (session is_paid call (written true ∷ arrived answer ∷ timer_fired ∷ []) ids channel)
session-outcome_example =
    session-outcome is_paid call ids (codes "99") (codes "price") channel call-IsSent true answer
      (timer_fired ∷ []) refl channel-fresh

abbrev waiting : RpcChannel
waiting = record channel { client = some new_tcp_client; timer_event = some (pos 1000) }

waiting-open : waiting.controller.is_finished ≡ false
unfolding init new_channel new_controller set_msg_id
waiting-open = refl

timer_fired-runs_example :
    Returns
      (λ late.
        (late.controller
          ≡ set_error error_rpc_call_timeout
              (codes "rpc call timeout " ++ decimal_int waiting.controller.timeout)
              (start_cancel waiting.controller))
        × Returns
            (λ ch'. (ch'.controller.is_finished ≡ true) × (ch'.runs ≡ waiting.runs))
            (run_events is_paid (arrived answer ∷ []) late))
      (on_event is_paid timer_fired waiting)
timer_fired-runs_example =
    timer_fired-runs is_paid waiting new_tcp_client (pos 1000) (arrived answer ∷ []) channel-init
      refl refl waiting-open

-- The second attempt connects.
abbrev second_try : Call
second_try = record call {
  attempts = λ i.
      if i == 0
      then record { result = refused (codes "no"); handled = [] }
      else record { result = success; handled = [] };
}

two_retries : channel.controller.max_retry ≡ pos 2
unfolding init new_channel new_controller set_msg_id
two_retries = refl

send_request-IsSilent_example :
    Returns
      (λ ch'. (c : TcpClient) × (ch'.client ≡ some c) × IsSilent c)
      (send_request is_paid second_try order channel >>= run_events is_paid (written true ∷ []))
send_request-IsSilent_example =
    send_request-IsSilent is_paid second_try order channel 1 (codes "no") (written true ∷ [])
      channel-init two_retries refl
