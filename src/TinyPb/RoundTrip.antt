-- ===== src/TinyPb/RoundTrip.antt =====
-- What TinyPBCoder::encode writes, TinyPBCoder::decode reads back.
use mathlib.Core.List.{append_assoc, append-nil}
use netrpc.Base.{
  ℕ, zero, suc, ◌+◌, ◌-◌, ◌%◌, ◌^◌, ◌≤◌, ◌<◌, ◌≡◌, refl, sym, ◌∙◌, ap, Bytes, ok, pos, arith, ◌+ℤ◌,
  ◌-ℤ◌, +ℤ_pos, -ℤ_pos, to_int32-small, length, length-append, drop, take-append-drop,
  drop-append_eq, List, [], ◌∷◌, ◌++◌, map, le→leb, lt→ltb, some,
}
use netrpc.TcpBuffer.{TcpBuffer}
use netrpc.TcpBuffer.Contents.{readable, IsValid, IsOpen, length-readable}
use netrpc.TcpBuffer.Safety.{write_to_buffer-appends}
use netrpc.TcpBuffer.Moves.{move_read_index-Leaves, move_read_index-write_index}
use netrpc.TinyPb.Protocol.{TinyPbProtocol}
use netrpc.TinyPb.Encoder.{wire, with_msg_id, total_len, sealed, encode_tiny_pb, encode}
use netrpc.TinyPb.Decoder.{Found, frame_at, find_frame, decode}
use netrpc.TinyPb.Cursor.{At}
use netrpc.TinyPb.Frame.{IsSendable, received, found, frame_at-found, length-wire, total_pos}
use netrpc.TinyPb.Parse.{parse_message-received}

-- The bytes of the messages, one frame behind the other.
abbrev pub wires : List TinyPbProtocol → Bytes
wires [] = []
wires (m ∷ ms) = wire (with_msg_id m) ++ wires ms

abbrev pub AllSendable : List TinyPbProtocol → Type 0
AllSendable [] = Unit {0}
AllSendable (m ∷ ms) = IsSendable (with_msg_id m) × AllSendable ms

-- A message is encoded whole, and keeps its fields but for the lengths.
encode_tiny_pb_ok :
    (m : TinyPbProtocol)
    → IsSendable (with_msg_id m)
    → encode_tiny_pb m ≡ ok (wire (with_msg_id m), sealed (with_msg_id m))
unfolding encode_tiny_pb
encode_tiny_pb_ok m s =
    let n = with_msg_id m in
    let low : total_len n % 2 ^ 32 ≡ total_len n = omega (arith, s.small) in
    rw (
      low,
      to_int32-small (total_len n) s.small,
      le→leb (length (wire n)) (total_len n) (omega (arith, length-wire n)),
    )

-- encode never faults on sendable messages: it appends their frames to the readable bytes of the
-- buffer, in order.
pub encode-wires :
    (ms : List TinyPbProtocol) (b : TcpBuffer)
    → IsValid b
    → AllSendable ms
    → (b' : TcpBuffer) × (encode ms b ≡ ok (map (λ m. sealed (with_msg_id m)) ms, b'))
      × IsValid b'
      × (readable b' ≡ readable b ++ wires ms)
unfolding encode
encode-wires [] b v s = (b, refl, v, sym (append-nil (readable b)))
encode-wires (m ∷ ms) b v s =
    let (b₁, e₁, h₁) = write_to_buffer-appends b (wire (with_msg_id m)) v in
    let (b₂, e₂, v₂, r₂) = encode-wires ms b₁ h₁.valid s.1 in
    (
      b₂,
      rw (encode_tiny_pb_ok m s.0, e₁, e₂),
      v₂,
      r₂
          ∙ ap (λ (x : Bytes). x ++ wires ms) h₁.bytes_eq
          ∙ append_assoc (readable b) (wire (with_msg_id m)) (wires ms),
    )

find_frame-hit :
    (tmp : Bytes) (w rounds i : ℕ) (f : Found)
    → 0 < rounds
    → frame_at tmp w i ≡ ok (some f)
    → find_frame tmp w rounds i ≡ ok (some f)
unfolding find_frame
find_frame-hit tmp w zero i f h e = absurd (omega arith)
find_frame-hit tmp w (suc rounds) i f h e = rw e

-- The readable bytes stand behind the read index of the vector.
pub readable-At :
    (b : TcpBuffer) (s : Bytes)
    → IsValid b
    → readable b ≡ s
    → At b.buffer b.read_index
        (s ++ drop (b.write_index - b.read_index) (drop b.read_index b.buffer))
readable-At b s v e = record {
  rest =
      sym (take-append-drop (b.write_index - b.read_index) (drop b.read_index b.buffer))
      ∙ ap (λ (x : Bytes). x ++ drop (b.write_index - b.read_index) (drop b.read_index b.buffer)) e;
  within = omega (arith, v.ordered, v.inside);
}

-- One round of `while (1)` on a buffer whose readable bytes begin with a frame takes that frame
-- off, appends its message, and leaves the bytes behind it.
pub decode-frame :
    (fuel : ℕ) (out : List TinyPbProtocol) (b : TcpBuffer) (m : TinyPbProtocol) (rest : Bytes)
    → IsOpen b
    → IsSendable m
    → readable b ≡ wire m ++ rest
    → (b' : TcpBuffer) × (decode (suc fuel) out b ≡ decode fuel (out ++ (received m ∷ [])) b')
      × IsOpen b'
      × (readable b' ≡ rest)
unfolding decode
decode-frame fuel out b m rest o s e =
    let w : ℕ = b.write_index in
    let r : ℕ = b.read_index in
    let n : ℕ = total_len m in
    let behind : Bytes = drop (w - r) (drop r b.buffer) in
    let cursor : At b.buffer r (wire m ++ (rest ++ behind)) =
      rw (← append_assoc (wire m) rest behind) (readable-At b (wire m ++ rest) o.valid e) in
    let big : 26 ≤ n = total_pos m (rest ++ behind) b.buffer r s cursor in
    let len : w - r ≡ n + length rest =
      omega (
        arith,
        length-readable b o.valid,
        ap length e,
        length-append (wire m) rest,
        length-wire m,
      ) in
    let f : Found = found m (rest ++ behind) b.buffer r s cursor in
    let hit : find_frame b.buffer w (w - r) r ≡ ok (some f) =
      find_frame-hit b.buffer w (w - r) r f (omega arith)
        (frame_at-found m (rest ++ behind) b.buffer r s cursor w (omega arith)) in
    let step : pos (r + n - 1) -ℤ pos r +ℤ pos 1 ≡ pos n =
      rw (-ℤ_pos (r + n - 1) r (omega arith), +ℤ_pos (r + n - 1 - r) 1) (ap pos (omega arith)) in
    let fits : n ≤ length (readable b) = omega (arith, length-readable b o.valid) in
    let (b', moved, h) = move_read_index-Leaves b n o.valid fits in
    (
      b',
      rw (hit, step, moved, parse_message-received m (rest ++ behind) b.buffer r s cursor),
      record {
        valid = h.valid;
        slack = omega (
          arith,
          h.size_eq,
          move_read_index-write_index b n {b' = b'} o.valid fits moved,
          o.slack,
        );
      },
      h.bytes_eq
          ∙ rw (lt→ltb (r + n) (length b.buffer) (omega (arith, o.slack)), e)
              (drop-append_eq n (wire m) rest (length-wire m)),
    )
