-- ===== src/Rpc/CallRpc/Tests.antt =====
-- A call of a service whose name no stub has.
use netrpc.Base.{◌≡◌, refl, codes, true, false, Returns, none, [], ◌∷◌}
use netrpc.StdMap.{find, bytes_key}
use netrpc.NetAddr.{is_valid_text, split_addr}
use netrpc.Rpc.ServiceName.{find_first_of}
use netrpc.TinyPb.Protocol.{new_message}
use netrpc.Rpc.Controller.{RpcController, new_controller, set_error}
use netrpc.Rpc.ErrorCode.{error_rpc_peer_addr}
use netrpc.Rpc.Channel.{arrived, timer_fired}
use netrpc.Rpc.Channel.Samples.{call, ids}
use netrpc.Rpc.CallRpc.{call_rpc, call_rpc-unknown}

abbrev controller : RpcController
controller = new_controller

controller-open : controller.is_finished ≡ false
unfolding new_controller
controller-open = refl

no_text : is_valid_text (codes "Order") ≡ false
unfolding is_valid_text split_addr find_first_of
no_text = refl

call_rpc-unknown_example :
    Returns
      (λ ch.
        ch.runs ≡ (set_error error_rpc_peer_addr (codes "peer addr nullptr") controller, none) ∷ [])
      (call_rpc
        (λ bytes. true)
        []
        (codes "Order")
        controller
        true
        call
        (arrived new_message ∷ timer_fired ∷ [])
        ids)
unfolding find
call_rpc-unknown_example =
    call_rpc-unknown (λ bytes. true) [] (codes "Order") controller
      (arrived new_message ∷ timer_fired ∷ []) call ids no_text refl refl refl refl controller-open
