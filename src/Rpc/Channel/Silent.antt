-- ===== src/Rpc/Channel/Silent.antt =====
-- The retries of CallMethod behind an attempt to connect that failed at once.
use mathlib.Core.Path.{subst}
use netrpc.Base.{
  ℕ, zero, suc, ◌+◌, ◌≡◌, refl, sym, ap, Bytes, Bool, true, false, Returns, Returns-bind, ◌>>=◌,
  pos, pos_part, is_zero, some, List, [], arith, if◌then◌else◌,
}
use netrpc.TinyPb.Protocol.{TinyPbProtocol}
use netrpc.Tcp.Connection.{open_connection, set_state, listen_read, push_read_message}
use netrpc.Tcp.Connection.Events.{stop_writing}
use netrpc.Tcp.Client.{
  TcpClient, ConnectResult, success, in_progress, refused, failed, new_tcp_client, connect,
  end_connect, set_connect_error, set_connected, read_message,
}
use netrpc.Rpc.Channel.{
  RpcChannel, ChannelEvent, put_client, put_connection, on_connect_done, run_events,
}
use netrpc.Rpc.Channel.CallMethod.{
  Call, Attempt, is_connected, attempt_connect, try_connect, send_request,
}
use netrpc.Rpc.Channel.Keeps.{Run, Keeps}
use netrpc.Rpc.Channel.Once.{Ready, on_connect_done-Ready, run_events-Ready}
use netrpc.Rpc.Channel.Session.{try_connect-Ready}

-- A client with a connect error and nothing to send.
abbrev pub IsSilent : TcpClient → Type 0
IsSilent c = (is_zero c.connect_error_code ≡ false) × (c.connection.write_dones ≡ [])

connect-IsSilent :
    (result : ConnectResult) (c : TcpClient) → IsSilent c → IsSilent (connect result c).0
unfolding connect set_connected set_connect_error set_state
connect-IsSilent success c q = q
connect-IsSilent in_progress c q = q
connect-IsSilent (refused text) c (_, d) = (refl, d)
connect-IsSilent (failed text) c (_, d) = (refl, d)

end_connect-IsSilent :
    (result : ConnectResult) (text : Bytes) (c : TcpClient)
    → IsSilent c
    → IsSilent (end_connect result text c)
unfolding end_connect set_connected set_connect_error set_state
end_connect-IsSilent success text c q = q
end_connect-IsSilent in_progress text c (_, d) = (refl, d)
end_connect-IsSilent (refused info) text c (_, d) = (refl, d)
end_connect-IsSilent (failed info) text c (_, d) = (refl, d)

abbrev AnyRuns : Bool → List Run → Type 0
AnyRuns b runs = Unit

stop_writing-IsSilent :
    (all : Bool) (c : TcpClient)
    → IsSilent c
    → IsSilent (put_connection (stop_writing all c.connection) c)
unfolding stop_writing
stop_writing-IsSilent true c q = q
stop_writing-IsSilent false c q = q

keeps_IsSilent : Keeps AnyRuns IsSilent
unfolding read_message listen_read push_read_message
keeps_IsSilent = record {
  run = λ runs r p. tt;
  cancel = λ b runs p. tt;
  connects = connect-IsSilent;
  ends = end_connect-IsSilent;
  writes = λ req c e q. absurd (cc (e, q.0));
  reads = λ id c q. q;
  stops = λ all c q. stop_writing-IsSilent all c q;
  clears = λ c q. (q.0, refl);
  takes = λ dones c q. q;
}

module _ (parse_response : Bytes → Bool) where
  -- Ready, with a silent client.
  abbrev ReadySilent : RpcChannel → Type 0
  ReadySilent = Ready AnyRuns IsSilent keeps_IsSilent

  attempt_connect-refused :
      (a : Attempt) (text : Bytes) (ch : RpcChannel)
      → a.result ≡ refused text
      → ch.is_init ≡ true
      → Returns ReadySilent (attempt_connect parse_response a new_tcp_client ch)
  unfolding attempt_connect connect set_connect_error new_tcp_client open_connection
  attempt_connect-refused a text ch h i =
      subst
        (λ r. Returns ReadySilent (
          if (connect r new_tcp_client).1
          then on_connect_done (put_client (connect r new_tcp_client).0 ch)
          else run_events parse_response a.handled (put_client (connect r new_tcp_client).0 ch)))
        (sym h)
        (on_connect_done-Ready AnyRuns IsSilent keeps_IsSilent
          (put_client (connect (refused text) new_tcp_client).0 ch)
          ((i, tt), (connect (refused text) new_tcp_client).0, refl, (refl, refl)))

  try_connect-refused :
      (k n : ℕ) (attempts : ℕ → Attempt) (text : Bytes) (ch : RpcChannel)
      → k ≡ suc n
      → (attempts 0).result ≡ refused text
      → ch.is_init ≡ true
      → ch.client ≡ some new_tcp_client
      → Returns ReadySilent (try_connect parse_response k 0 attempts ch)
  unfolding try_connect is_connected new_tcp_client open_connection
  try_connect-refused zero n attempts text ch e h i c = absurd (omega (arith, e))
  try_connect-refused (suc k) n attempts text ch e h i c =
      rw (c, try_connect)
        (Returns-bind _ _ (attempt_connect-refused (attempts 0) text ch h i)
          (try_connect-Ready AnyRuns IsSilent keeps_IsSilent parse_response k (0 + 1) attempts))

  -- From the point of CallMethod on that makes the client, on a channel that Init was called on,
  -- where the first ::connect is refused at once: whatever the further attempts say, a success
  -- included, and whatever events follow, the code returns, and at no time has the client a message
  -- to send: the request stays unsent. The client keeps a connect error.
  pub send_request-IsSilent :
      (call : Call) (req : TinyPbProtocol) (ch : RpcChannel) (n : ℕ) (text : Bytes)
      (events : List ChannelEvent)
      → ch.is_init ≡ true
      → ch.controller.max_retry ≡ pos (suc n)
      → (call.attempts 0).result ≡ refused text
      → Returns
          (λ ch'. (c : TcpClient) × (ch'.client ≡ some c) × IsSilent c)
          (send_request parse_response call req ch >>= run_events parse_response events)
  unfolding send_request
  send_request-IsSilent call req ch n text events i retries refuses =
      let started : RpcChannel = record ch {
        client = some new_tcp_client;
        req_protocol = req;
        timer_event = some ch.controller.timeout;
      } in
      let (ch', e, (_, c, h, q)) =
        Returns-bind (send_request parse_response call req ch) (run_events parse_response events)
          (try_connect-refused (pos_part ch.controller.max_retry) n call.attempts text started
            (ap pos_part retries) refuses i refl)
          (run_events-Ready AnyRuns IsSilent keeps_IsSilent parse_response events) in
      (ch', e, (c, h, q))
