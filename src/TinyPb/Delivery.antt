-- ===== src/TinyPb/Delivery.antt =====
-- The whole `while (1)` of TinyPBCoder::decode on a buffer that holds whole frames, and the round
-- trip through an encoder's buffer, the socket and a decoder's buffer.
use mathlib.Core.List.{append_assoc, append-nil}
use netrpc.Base.{
  ℕ, zero, suc, ◌-◌, ◌<◌, ◌≡◌, sym, ◌∙◌, ap, Bytes, ok, arith, length, List, [], ◌∷◌, ◌++◌, map,
}
use netrpc.TcpBuffer.{TcpBuffer}
use netrpc.TcpBuffer.Contents.{readable, IsValid, IsOpen, length-readable}
use netrpc.TinyPb.Protocol.{TinyPbProtocol}
use netrpc.TinyPb.Encoder.{with_msg_id, sealed, encode}
use netrpc.TinyPb.Decoder.{find_frame, decode}
use netrpc.TinyPb.Frame.{received}
use netrpc.TinyPb.RoundTrip.{wires, AllSendable, encode-wires, decode-frame}

-- The messages that the peer's decoder hands on for the ones that were sent.
abbrev pub delivered : List TinyPbProtocol → List TinyPbProtocol
delivered = map (λ m. received (with_msg_id m))

-- With nothing to read the loop returns at once.
decode-empty :
    (fuel : ℕ) (out : List TinyPbProtocol) (b : TcpBuffer)
    → IsValid b
    → readable b ≡ []
    → decode (suc fuel) out b ≡ ok (out, b)
unfolding decode find_frame
decode-empty fuel out b v e =
    let nothing : b.write_index - b.read_index ≡ 0 =
      omega (arith, length-readable b v, ap length e) in
    rw (nothing, find_frame)

-- On a buffer that holds the frames of sendable messages and nothing else, decode returns with
-- more fuel than messages: it appends all of them in order, and leaves the buffer empty.
pub decode-wires :
    (ms : List TinyPbProtocol) (fuel : ℕ) (out : List TinyPbProtocol) (b : TcpBuffer)
    → IsOpen b
    → AllSendable ms
    → length ms < fuel
    → readable b ≡ wires ms
    → (b' : TcpBuffer) × (decode fuel out b ≡ ok (out ++ delivered ms, b'))
      × IsOpen b'
      × (readable b' ≡ [])
decode-wires ms zero out b o s lt e = elim lt [ ]
decode-wires [] (suc fuel) out b o s lt e =
    (b, decode-empty fuel out b o.valid e ∙ ap (λ l. ok (l, b)) (sym (append-nil out)), o, e)
decode-wires (m ∷ ms) (suc fuel) out b o s lt e =
    let (b₁, e₁, o₁, r₁) = decode-frame fuel out b (with_msg_id m) (wires ms) o s.0 e in
    let next : List TinyPbProtocol = received (with_msg_id m) ∷ [] in
    let (b₂, e₂, o₂, r₂) = decode-wires ms fuel (out ++ next) b₁ o₁ s.1 (omega arith) r₁ in
    (b₂, e₁ ∙ e₂ ∙ ap (λ l. ok (l, b₂)) (append_assoc out next (delivered ms)), o₂, r₂)

-- Sendable messages that are encoded into an empty buffer, and whose bytes reach a peer's buffer
-- that held nothing else and is not full, are decoded there: the same messages in the same order,
-- the empty ids replaced by the default one, with nothing left over.
pub decode-encode :
    (ms ms' : List TinyPbProtocol) (out_buffer sent in_buffer : TcpBuffer) (fuel : ℕ)
    → IsValid out_buffer
    → readable out_buffer ≡ []
    → AllSendable ms
    → encode ms out_buffer ≡ ok (ms', sent)
    → IsOpen in_buffer
    → readable in_buffer ≡ readable sent
    → length ms < fuel
    → (ms' ≡ map (λ m. sealed (with_msg_id m)) ms)
      × ((b' : TcpBuffer) × (decode fuel [] in_buffer ≡ ok (delivered ms, b')) × (readable b' ≡ []))
decode-encode ms ms' out_buffer sent in_buffer fuel v empty s e o same lt =
    let (sent', e', v', r') = encode-wires ms out_buffer v s in
    let agree = sym e ∙ e' in
    let held : readable in_buffer ≡ wires ms =
      same
      ∙ ap readable {x = sent} {y = sent'} (cc agree)
      ∙ r'
      ∙ ap (λ (x : Bytes). x ++ wires ms) empty in
    let (b', d, _, r) = decode-wires ms fuel [] in_buffer o s lt held in (cc agree, (b', d, r))
