-- ===== src/Rpc/CallRpc.antt =====
-- CALLRPC of netrpc/net/rpc/rpc_channel.h: a channel for one call, from the text of an address or the
-- name of a stub.
mod Tests
use netrpc.Base.{
  ◌≡◌, refl, ap, ◌∙◌, sym, Bytes, codes, Bool, true, false, not, ◌||◌, Result, ok, ◌>>=◌, Returns,
  ℤ, none, some, List, [], ◌∷◌, ◌++◌, if◌then◌else◌, arith,
}
use netrpc.StdMap.{find, bytes_key}
use netrpc.Config.{RpcStub}
use netrpc.MsgIdUtil.{MsgIdState}
use netrpc.NetAddr.{is_valid_text}
use netrpc.Rpc.Controller.{RpcController, set_error, set_finished}
use netrpc.Rpc.ErrorCode.{error_rpc_peer_addr}
use netrpc.Rpc.Channel.{
  RpcChannel, ChannelEvent, new_channel, find_addr, map_addr, init, update_controller, call_back,
  close_call, fail_with, run_events,
}
use netrpc.Rpc.Channel.CallMethod.{Call, refuse_call, call_method, session}
use netrpc.Rpc.Channel.Keeps.{Run, AnyClient, any_client}
use netrpc.Rpc.Channel.Once.{run_events-none}
use netrpc.Rpc.Channel.Session.{IsComplete, session-Kept, AtMostOnce, session-AtMostOnce}

-- The channel of NEWRPCCHANNEL, behind its Init.
unfoldable pub new_rpc_channel : List (Bytes × RpcStub) → Bytes → Bool → RpcController → RpcChannel
new_rpc_channel stubs addr has_closure controller =
    init has_closure (new_channel (find_addr stubs addr) controller)

-- CALLRPC and the events behind it.
unfoldable pub call_rpc :
    (Bytes → Bool)
    → List (Bytes × RpcStub)
    → Bytes
    → RpcController
    → Bool
    → Call
    → List ChannelEvent
    → MsgIdState
    → Result RpcChannel
call_rpc parse_response stubs addr controller has_closure call events ids =
    session parse_response call events ids (new_rpc_channel stubs addr has_closure controller)

-- What a new channel has.
record IsNew (controller : RpcController) (has_closure : Bool) (ch : RpcChannel) : Type 0 where
  is_init : ch.is_init ≡ true
  closure : ch.has_closure ≡ has_closure
  controlled : ch.controller ≡ controller
  no_client : ch.client ≡ none
  no_response : ch.response ≡ none
  no_runs : ch.runs ≡ []

new_rpc_channel-IsNew :
    (stubs : List (Bytes × RpcStub)) (addr : Bytes) (has_closure : Bool)
    (controller : RpcController)
    → IsNew controller has_closure (new_rpc_channel stubs addr has_closure controller)
unfolding new_rpc_channel init new_channel
new_rpc_channel-IsNew stubs addr has_closure controller = record {
  is_init = refl;
  closure = refl;
  controlled = refl;
  no_client = refl;
  no_response = refl;
  no_runs = refl;
}

-- The call of a finished controller stays one without runs.
abbrev NoRun : Bool → List Run → Type 0
NoRun is_finished runs = (is_finished ≡ true) × (runs ≡ [])

NoRun-run : (runs : List Run) (r : Run) → NoRun false runs → NoRun true (runs ++ (r ∷ []))
NoRun-run runs r (bad, _) = absurd (cc bad)

NoRun-cancel : (b : Bool) (runs : List Run) → NoRun b runs → NoRun true runs
NoRun-cancel b runs (_, e) = (refl, e)

fail_with-open :
    (code : ℤ) (info : Bytes) (ch : RpcChannel)
    → ch.is_init ≡ true
    → ch.has_closure ≡ true
    → ch.controller.is_finished ≡ false
    → fail_with code info ch ≡ ok (close_call (update_controller (set_error code info) ch))
unfolding fail_with call_back set_error
fail_with-open code info ch i h open_ = simp (i, h, open_)

unknown_peer :
    (stubs : List (Bytes × RpcStub)) (addr : Bytes) (has_closure : Bool)
    (controller : RpcController)
    → is_valid_text addr ≡ false
    → find addr stubs ≡ none
    → (new_rpc_channel stubs addr has_closure controller).peer_addr ≡ none
unfolding new_rpc_channel init new_channel find_addr
unknown_peer stubs addr has_closure controller no_text no_stub = rw no_text (ap map_addr no_stub)

call_method-refused :
    (parse_response : Bytes → Bool) (call : Call) (ids : MsgIdState) (ch closed : RpcChannel)
    → call.has_controller ≡ true
    → call.has_request ≡ true
    → call.has_response ≡ true
    → ch.peer_addr ≡ none
    → fail_with error_rpc_peer_addr (codes "peer addr nullptr") ch ≡ ok closed
    → call_method parse_response call ids ch ≡ ok (ids, closed)
unfolding call_method refuse_call
call_method-refused parse_response call ids ch closed c q r unknown failed =
    rw (c, call_method) (rw q (rw r (rw unknown (rw failed refl))))

module _ (parse_response : Bytes → Bool) (stubs : List (Bytes × RpcStub)) (addr : Bytes)
    (controller : RpcController) (events : List ChannelEvent) (call : Call) (ids : MsgIdState) where
  -- Whatever the address is a text of, or not, CALLRPC with a controller, a request and a response
  -- returns, whatever ::connect says and whatever events follow; and the closure has run once or not
  -- at all, once only where the controller is finished.
  pub call_rpc-AtMostOnce :
      (has_closure : Bool)
      → IsComplete call ids (new_rpc_channel stubs addr has_closure controller)
      → Returns
          (λ ch. AtMostOnce ch.controller.is_finished ch.runs)
          (call_rpc parse_response stubs addr controller has_closure call events ids)
  unfolding call_rpc
  call_rpc-AtMostOnce has_closure complete =
      session-AtMostOnce parse_response call events ids
        (new_rpc_channel stubs addr has_closure controller) complete
        (new_rpc_channel-IsNew stubs addr has_closure controller).is_init
        (new_rpc_channel-IsNew stubs addr has_closure controller).no_runs

  -- A controller that an earlier call has finished, and that has not been Reset: the closure of this
  -- call never runs, whatever the server answers and whatever else happens.
  pub call_rpc-reused :
      (has_closure : Bool)
      → IsComplete call ids (new_rpc_channel stubs addr has_closure controller)
      → controller.is_finished ≡ true
      → Returns
          (λ ch. (ch.controller.is_finished ≡ true) × (ch.runs ≡ []))
          (call_rpc parse_response stubs addr controller has_closure call events ids)
  unfolding call_rpc
  call_rpc-reused has_closure complete finished =
      let ch : RpcChannel = new_rpc_channel stubs addr has_closure controller in
      let new : IsNew controller has_closure ch =
        new_rpc_channel-IsNew stubs addr has_closure controller in
      let (ch', same, (_, silent)) =
        session-Kept NoRun (any_client NoRun NoRun-run NoRun-cancel) parse_response call events ids
          ch complete
          (new.is_init, (ap (λ k. k.is_finished) new.controlled ∙ finished, new.no_runs)) in
      (ch', same, silent)

  -- An address that is neither a text ip:port nor the name of a stub: the closure runs exactly once,
  -- with the error of a missing address, and whatever events come then changes nothing.
  pub call_rpc-unknown :
      is_valid_text addr ≡ false
      → find addr stubs ≡ none
      → call.has_controller ≡ true
      → call.has_request ≡ true
      → call.has_response ≡ true
      → controller.is_finished ≡ false
      → Returns
          (λ ch.
            ch.runs
            ≡ (set_error error_rpc_peer_addr (codes "peer addr nullptr") controller, none) ∷ [])
          (call_rpc parse_response stubs addr controller true call events ids)
  unfolding call_rpc session close_call
  call_rpc-unknown no_text no_stub has_controller has_request has_response open_ =
      let ch : RpcChannel = new_rpc_channel stubs addr true controller in
      let new : IsNew controller true ch = new_rpc_channel-IsNew stubs addr true controller in
      let info : Bytes = codes "peer addr nullptr" in
      let closed : RpcChannel =
        close_call (update_controller (set_error error_rpc_peer_addr info) ch) in
      let called : call_method parse_response call ids ch ≡ ok (ids, closed) =
        call_method-refused parse_response call ids ch closed has_controller has_request
          has_response (unknown_peer stubs addr true controller no_text no_stub)
          (fail_with-open error_rpc_peer_addr info ch new.is_init new.closure
            (ap (λ k. k.is_finished) new.controlled ∙ open_)) in
      (
        closed,
        ap (λ r. r >>= λ x. run_events parse_response events x.1) called
            ∙ run_events-none NoRun AnyClient (any_client NoRun NoRun-run NoRun-cancel)
                parse_response events closed new.no_client,
        ap (λ runs. runs ++ ((set_error error_rpc_peer_addr info ch.controller, ch.response) ∷ []))
              new.no_runs
            ∙ ap (λ k. (set_error error_rpc_peer_addr info k, ch.response) ∷ []) new.controlled
            ∙ ap (λ o. (set_error error_rpc_peer_addr info controller, o) ∷ []) new.no_response,
      )
