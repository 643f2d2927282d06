-- ===== src/TinyPb/Stall.antt =====
-- A buffer on which TinyPBCoder::decode never returns: a frame length of zero.
use mathlib.Core.List.{append_assoc}
use netrpc.Base.{
  ℕ, zero, suc, ◌+◌, ◌-◌, ◌≤◌, ◌<◌, ◌≡◌, refl, ◌∙◌, ap, Bytes, ok, err, out_of_fuel, pos, arith,
  ◌+ℤ◌, ◌-ℤ◌, +ℤ_pos, -ℤ_pos, to_int32-small, net_bytes, length, length-append, drop, List, [], ◌∷◌,
  ◌++◌, le→leb, lt→ltb, lt→leb, some, none,
}
use netrpc.TcpBuffer.{TcpBuffer}
use netrpc.TcpBuffer.Contents.{readable, IsValid, length-readable}
use netrpc.TcpBuffer.Moves.{move_read_index-Leaves}
use netrpc.TinyPb.Protocol.{TinyPbProtocol, pb_start, pb_end}
use netrpc.TinyPb.Decoder.{Found, frame_from, frame_at, find_frame, parse_message, decode}
use netrpc.TinyPb.Cursor.{At, At-at, At-skip, At-get_int32, length-net_bytes}
use netrpc.TinyPb.RoundTrip.{readable-At}

-- PB_END, PB_START and the length 0.
abbrev pub poison : Bytes
poison = pb_end ∷ pb_start ∷ net_bytes 0

-- What the search stops at: a frame that ends before it starts.
abbrev backwards : ℕ → Found
backwards r = record { start_index = r + 1; end_index = r; pk_len = pos 0 }

find_frame-poison :
    (tmp rest : Bytes) (w rounds r : ℕ)
    → At tmp r (poison ++ rest)
    → r + 6 ≤ w
    → 2 ≤ rounds
    → find_frame tmp w rounds r ≡ ok (some (backwards r))
unfolding find_frame frame_at frame_from
find_frame-poison tmp rest w zero r h room two = absurd (omega arith)
find_frame-poison tmp rest w (suc zero) r h room two = absurd (omega arith)
find_frame-poison tmp rest w (suc (suc rounds)) r h room two =
    let start = At-skip (pb_end ∷ []) (pb_start ∷ (net_bytes 0 ++ rest)) h 1 refl in
    let len = At-skip (pb_start ∷ []) (net_bytes 0 ++ rest) start 1 refl in
    let back : pos (r + 1) +ℤ pos 0 -ℤ pos 1 ≡ pos r =
      rw (+ℤ_pos (r + 1) 0, -ℤ_pos (r + 1 + 0) 1 (omega arith)) (ap pos (omega arith)) in
    rw (
      At-at h,
      At-at start,
      lt→ltb (r + 1 + 1) w (omega arith),
      At-get_int32 0 rest len (omega arith),
      to_int32-small 0 (omega arith),
      back,
      lt→leb (w + 0) (r + 0) (omega arith),
      At-at h,
    )

parse_message-backwards : (tmp : Bytes) (r : ℕ) → parse_message tmp (backwards r) ≡ ok none
unfolding parse_message
parse_message-backwards tmp r = rw (le→leb r (r + 1 + 1 + 4) (omega arith))

one_back : (r : ℕ) → pos r -ℤ pos (r + 1) +ℤ pos 1 ≡ pos 0
unfolding ◌-ℤ◌ ◌+ℤ◌
one_back r = ground arith

-- One round leaves the same bytes to read and adds no message.
decode-poison_round :
    (fuel : ℕ) (out : List TinyPbProtocol) (b : TcpBuffer) (rest : Bytes)
    → IsValid b
    → readable b ≡ poison ++ rest
    → (b' : TcpBuffer) × (decode (suc fuel) out b ≡ decode fuel out b')
      × IsValid b'
      × (readable b' ≡ poison ++ rest)
unfolding decode
decode-poison_round fuel out b rest v e =
    let w : ℕ = b.write_index in
    let r : ℕ = b.read_index in
    let behind : Bytes = drop (w - r) (drop r b.buffer) in
    let cursor : At b.buffer r (poison ++ (rest ++ behind)) =
      rw (← append_assoc poison rest behind) (readable-At b (poison ++ rest) v e) in
    let six : 6 ≤ w - r = omega (
      arith,
      length-readable b v,
      ap length e,
      length-append (net_bytes 0) rest,
      length-net_bytes 0,
    ) in
    let inside : r + 0 < length b.buffer = omega (arith, v.inside) in
    let (b', moved, h) = move_read_index-Leaves b 0 v (omega arith) in
    (
      b',
      rw (
        find_frame-poison b.buffer (rest ++ behind) w (w - r) r cursor (omega arith) (omega arith),
        one_back r,
        moved,
        parse_message-backwards b.buffer r,
      ),
      h.valid,
      h.bytes_eq ∙ rw (lt→ltb (r + 0) (length b.buffer) inside) e,
    )

-- Whatever the fuel, decode does not return on a valid buffer whose readable bytes begin with
-- 03 02 00 00 00 00.
pub decode-poison :
    (fuel : ℕ) (out : List TinyPbProtocol) (b : TcpBuffer) (rest : Bytes)
    → IsValid b
    → readable b ≡ poison ++ rest
    → decode fuel out b ≡ err out_of_fuel
unfolding decode
decode-poison zero out b rest v e = refl
decode-poison (suc fuel) out b rest v e =
    let (b', same, v', e') = decode-poison_round fuel out b rest v e in
    same ∙ decode-poison fuel out b' rest v' e'
