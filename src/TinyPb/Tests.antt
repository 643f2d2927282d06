-- ===== src/TinyPb/Tests.antt =====
-- Runs of the encoder and the decoder, and concrete messages for the theorems about them.
use netrpc.Base.{
  slice, ok, err, out_of_fuel, codes, [], ◌∷◌, ◌++◌, net_bytes, to_word, to_int32, ◌-ℤ◌, ◌+ℤ◌, ◌≡◌,
  refl, arith, length, map,
}
use netrpc.TcpBuffer.{
  TcpBuffer, write_to_buffer, make_room, resize_buffer, move_to_head, copy_into, min_ℤ, read_able,
  write_able,
}
use netrpc.TcpBuffer.Contents.{readable, IsOpen}
use netrpc.TinyPb.Encoder.{encode, encode_tiny_pb, wire, with_msg_id, sealed, total_len}
use netrpc.TinyPb.Decoder.{decode}
use netrpc.TinyPb.RoundTrip.{wires, AllSendable}
use netrpc.TinyPb.Delivery.{delivered, decode-wires, decode-encode}
use netrpc.TinyPb.Stall.{poison, decode-poison}
use netrpc.TinyPb.Samples.{orders, AllSendable-of_all}

orders-AllSendable : AllSendable orders
unfolding total_len with_msg_id
orders-AllSendable = AllSendable-of_all orders refl

abbrev empty : TcpBuffer
empty = record { read_index = 1; write_index = 1; size = 4; buffer = codes "nets" }

empty-IsOpen : IsOpen empty
empty-IsOpen = record {
  valid = record { ordered = omega arith; inside = omega arith };
  slack = omega arith;
}

-- A peer's buffer that holds the frames, and one byte of room.
abbrev full : TcpBuffer
full = record {
  read_index = 0;
  write_index = length (wires orders);
  size = 0;
  buffer = wires orders ++ (0 ∷ []);
}

full-IsOpen : IsOpen full
unfolding wire with_msg_id net_bytes to_word total_len
full-IsOpen = record {
  valid = record { ordered = omega arith; inside = omega arith };
  slack = omega arith;
}

decode-wires_example :
    (b' : TcpBuffer) × (decode 3 [] full ≡ ok (delivered orders, b'))
    × IsOpen b'
    × (readable b' ≡ [])
unfolding wire with_msg_id net_bytes to_word total_len
decode-wires_example =
    decode-wires orders 3 [] full full-IsOpen orders-AllSendable (omega arith) refl

-- What the encoder leaves, and the bytes that go out.
abbrev encoded : TcpBuffer
encoded = elim (encode orders empty) [ ok (_, b) ↦ b | err _ ↦ empty ]

decode-encode_example :
    (map (λ m. sealed (with_msg_id m)) orders ≡ map (λ m. sealed (with_msg_id m)) orders)
    × ((b' : TcpBuffer) × (decode 3 [] full ≡ ok (delivered orders, b')) × (readable b' ≡ []))
unfolding wire with_msg_id net_bytes to_word total_len encode encode_tiny_pb write_to_buffer
    make_room resize_buffer move_to_head copy_into min_ℤ read_able write_able sealed slice to_int32
    ◌-ℤ◌ ◌+ℤ◌
decode-encode_example =
    decode-encode orders (map (λ m. sealed (with_msg_id m)) orders) empty encoded full 3
      empty-IsOpen.valid refl orders-AllSendable refl full-IsOpen refl (omega arith)

poisoned : TcpBuffer
poisoned = record { read_index = 1; write_index = 9; size = 9; buffer = 0 ∷ poison ++ (2 ∷ 0 ∷ []) }

decode-poison_example : decode 1000 [] poisoned ≡ err out_of_fuel
unfolding poisoned net_bytes
decode-poison_example =
    decode-poison 1000 [] poisoned (2 ∷ 0 ∷ [])
      (record { ordered = omega arith; inside = omega arith }) refl
