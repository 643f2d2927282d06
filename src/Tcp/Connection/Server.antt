-- ===== src/Tcp/Connection/Server.antt =====
-- TcpConnection::excute on the server's side, in bytes: what a connection sends for the requests
-- that its buffer holds.
use mathlib.Core.List.{append_assoc, append-nil}
use netrpc.Base.{ℕ, ◌<◌, ◌≡◌, refl, sym, ◌∙◌, ap, Bytes, ok, true, length, List, [], ◌∷◌, ◌++◌}
use netrpc.TcpBuffer.Contents.{readable, IsValid, IsOpen}
use netrpc.TinyPb.Protocol.{TinyPbProtocol, new_message}
use netrpc.TinyPb.Encoder.{wire, with_msg_id}
use netrpc.TinyPb.RoundTrip.{wires, AllSendable, encode-wires}
use netrpc.TinyPb.Delivery.{delivered, decode-wires}
use netrpc.Rpc.Dispatcher.{Protobuf, ServiceMap, RunTime, dispatch}
use netrpc.Tcp.Connection.{
  TcpConnection, listen_write, reply, reply_each, serve_requests, excute_server,
}

wires-append : (ms ns : List TinyPbProtocol) → wires (ms ++ ns) ≡ wires ms ++ wires ns
wires-append [] ns = refl
wires-append (m ∷ ms) ns =
    ap (λ (x : Bytes). wire (with_msg_id m) ++ x) (wires-append ms ns)
    ∙ sym (append_assoc (wire (with_msg_id m)) (wires ms) (wires ns))

-- A connection that differs from `c` in its out buffer and its interest in writing alone, with
-- `bytes` behind what the out buffer held.
pub record Sends (c : TcpConnection) (bytes : Bytes) (c' : TcpConnection) : Type 0 where
  pub valid : IsValid c'.out_buffer
  pub sent : readable c'.out_buffer ≡ readable c.out_buffer ++ bytes
  pub in_same : c'.in_buffer ≡ c.in_buffer
  pub state_same : c'.state ≡ c.state
  pub type_same : c'.connection_type ≡ c.connection_type

Sends-trans :
    {c c₁ c₂ : TcpConnection} {x y : Bytes} → Sends c x c₁ → Sends c₁ y c₂ → Sends c (x ++ y) c₂
Sends-trans {c} {c₁} {c₂} {x} {y} h k = record {
  valid = k.valid;
  sent = k.sent ∙ ap (λ (z : Bytes). z ++ y) h.sent ∙ append_assoc (readable c.out_buffer) x y;
  in_same = k.in_same ∙ h.in_same;
  state_same = k.state_same ∙ h.state_same;
  type_same = k.type_same ∙ h.type_same;
}

Sends-refl : (c : TcpConnection) → IsValid c.out_buffer → Sends c [] c
Sends-refl c v = record {
  valid = v;
  sent = sym (append-nil (readable c.out_buffer));
  in_same = refl;
  state_same = refl;
  type_same = refl;
}

-- reply puts the frames of its messages behind the out buffer, and listens for room to write.
pub reply-Sends :
    (ms : List TinyPbProtocol) (c : TcpConnection)
    → IsValid c.out_buffer
    → AllSendable ms
    → (c' : TcpConnection) × (reply ms c ≡ ok c') × Sends c (wires ms) c' × (c'.listens_out ≡ true)
unfolding reply listen_write
reply-Sends ms c v s =
    let (b', e, v', r) = encode-wires ms c.out_buffer v s in
    (
      record c { out_buffer = b'; listens_out = true },
      rw e,
      record { valid = v'; sent = r; in_same = refl; state_same = refl; type_same = refl },
      refl,
    )

module _ (p : Protobuf) (services : ServiceMap p) where
  -- The thread's RunTime behind the requests, and what dispatch makes of each.
  abbrev pub responses : List TinyPbProtocol → RunTime → List TinyPbProtocol
  responses [] rt = []
  responses (r ∷ rs) rt =
      let d = dispatch p services r new_message rt in d.response ∷ responses rs d.run_time

  abbrev pub all_replies : List TinyPbProtocol → RunTime → List TinyPbProtocol
  all_replies [] rt = []
  all_replies (r ∷ rs) rt =
      let d = dispatch p services r new_message rt in d.replies ++ all_replies rs d.run_time

  abbrev pub last_run_time : List TinyPbProtocol → RunTime → RunTime
  last_run_time [] rt = rt
  last_run_time (r ∷ rs) rt = last_run_time rs (dispatch p services r new_message rt).run_time

  reply_each-Sends :
      (ms : List TinyPbProtocol) (c : TcpConnection)
      → IsValid c.out_buffer
      → AllSendable ms
      → (c' : TcpConnection) × (reply_each p services ms c ≡ ok c') × Sends c (wires ms) c'
  unfolding reply_each
  reply_each-Sends [] c v s = (c, refl, Sends-refl c v)
  reply_each-Sends (m ∷ ms) c v s =
      let (c₁, e₁, h₁, _) = reply-Sends (m ∷ []) c v (s.0, tt) in
      let (c₂, e₂, h₂) = reply_each-Sends ms c₁ h₁.valid s.1 in
      let one : wires (m ∷ []) ≡ wire (with_msg_id m) = append-nil (wire (with_msg_id m)) in
      let h : Sends c (wires (m ∷ []) ++ wires ms) c₂ = Sends-trans h₁ h₂ in
      (c₂, rw (e₁, e₂), rw one at h)

  AllSendable-append :
      (ms ns : List TinyPbProtocol) → AllSendable (ms ++ ns) → AllSendable ms × AllSendable ns
  AllSendable-append [] ns h = (tt, h)
  AllSendable-append (m ∷ ms) ns h = let (a, b) = AllSendable-append ms ns h.1 in ((h.0, a), b)

  serve_requests-Sends :
      (rs : List TinyPbProtocol) (rt : RunTime) (c : TcpConnection)
      → IsValid c.out_buffer
      → AllSendable (all_replies rs rt)
      → (c' : TcpConnection) × (serve_requests p services rs rt c
          ≡ ok (responses rs rt, last_run_time rs rt, c'))
        × Sends c (wires (all_replies rs rt)) c'
  unfolding serve_requests
  serve_requests-Sends [] rt c v s = (c, refl, Sends-refl c v)
  serve_requests-Sends (r ∷ rs) rt c v s =
      let d = dispatch p services r new_message rt in
      let (a, b) = AllSendable-append d.replies (all_replies rs d.run_time) s in
      let (c₁, e₁, h₁) = reply_each-Sends d.replies c v a in
      let (c₂, e₂, h₂) = serve_requests-Sends rs d.run_time c₁ h₁.valid b in
      (c₂, rw (e₁, e₂), rw (wires-append d.replies (all_replies rs d.run_time)) (Sends-trans h₁ h₂))

  -- On whole frames of sendable requests, where all replies and responses are sendable, and with
  -- more fuel than requests, excute of a server decodes them all, dispatches each in
  -- order and leaves the in buffer empty. What it puts behind the out buffer is first the replies
  -- of the closures that ran, then one response for every request, so a request whose closure ran
  -- is answered twice.
  pub excute_server-Sends :
      (requests : List TinyPbProtocol) (fuel : ℕ) (rt : RunTime) (c : TcpConnection)
      → IsOpen c.in_buffer
      → IsValid c.out_buffer
      → AllSendable requests
      → length requests < fuel
      → readable c.in_buffer ≡ wires requests
      → AllSendable (all_replies (delivered requests) rt)
      → AllSendable (responses (delivered requests) rt)
      → (c' : TcpConnection) × (excute_server p services fuel rt c
          ≡ ok (last_run_time (delivered requests) rt, c'))
        × IsValid c'.out_buffer
        × (readable c'.out_buffer
            ≡ readable c.out_buffer
              ++ (wires (all_replies (delivered requests) rt)
                  ++ wires (responses (delivered requests) rt)))
        × (readable c'.in_buffer ≡ [])
  unfolding excute_server
  excute_server-Sends requests fuel rt c o v s lt held s₁ s₂ =
      let (b, e, _, r) = decode-wires requests fuel [] c.in_buffer o s lt held in
      let (c₁, e₁, h₁) =
        serve_requests-Sends (delivered requests) rt (record c { in_buffer = b }) v s₁ in
      let (c₂, e₂, h₂, _) = reply-Sends (responses (delivered requests) rt) c₁ h₁.valid s₂ in
      let h = Sends-trans h₁ h₂ in (c₂, rw (e, e₁, e₂), h.valid, h.sent, ap readable h.in_same ∙ r)
