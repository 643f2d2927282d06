-- ===== src/TcpBuffer.antt =====
-- netrpc/net/tcp/tcp_buffer.{h,cc}: the byte buffer that a connection reads into and writes from.
-- A method returns the buffer that it leaves; `Result` holds the faults of memcpy on a buffer
-- whose indices are out of order. Fields and methods have the source's names.
pub mod Contents
pub mod Safety
pub mod Reads
pub mod Moves
mod Tests
use netrpc.Base.{
  ℕ, zero, ◌+◌, ◌-◌, ◌*◌, ◌/◌, ◌≤◌, ◌++◌, Bytes, Result, ok, err, fault, ◌>>=◌, ℤ, pos, negsuc,
  ◌-ℤ◌, ◌+ℤ◌, leb_ℤ, leb, ltb, ◌==◌, if◌then◌else◌, take, drop, length, zeros, slice, to_size, [],
}

pub record TcpBuffer : Type 0 where
  pub read_index : ℕ
  pub write_index : ℕ
  pub size : ℕ
  pub buffer : Bytes

-- TcpBuffer::TcpBuffer: `resize` fills with zeros.
unfoldable pub create : ℕ → TcpBuffer
create n = record { read_index = 0; write_index = 0; size = n; buffer = zeros n }

-- int readAble(), which is negative if the read index has passed the write index.
unfoldable pub read_able : TcpBuffer → ℤ
read_able b = pos b.write_index -ℤ pos b.read_index

unfoldable pub write_able : TcpBuffer → ℤ
write_able b = pos (length b.buffer) -ℤ pos b.write_index

-- memcpy of `src` to `&dst[i]`; the callers have checked that it fits, or it faults.
unfoldable pub copy_into : Bytes → ℕ → Bytes → Result Bytes
copy_into dst i src =
    if leb (i + length src) (length dst)
    then ok (take i dst ++ (src ++ drop (i + length src) dst))
    else err fault

-- `vector<char> tmp(n)`, and memcpy of `count` readable bytes to its head.
unfoldable pub move_to_head : TcpBuffer → ℕ → ℤ → Result TcpBuffer
move_to_head b n count = do
  k ← to_size count
  readable ← slice b.buffer b.read_index k
  fresh ← copy_into (zeros n) 0 readable
  ok (record b { read_index = 0; write_index = k; buffer = fresh })

unfoldable pub min_ℤ : ℤ → ℤ → ℤ
min_ℤ a b = if leb_ℤ a b then a else b

unfoldable pub resize_buffer : TcpBuffer → ℕ → Result TcpBuffer
resize_buffer b new_size = move_to_head b new_size (min_ℤ (pos new_size) (read_able b))

unfoldable pub adjust_buffer : TcpBuffer → Result TcpBuffer
adjust_buffer b =
    if ltb b.read_index (length b.buffer / 3)
    then ok b
    else move_to_head b (length b.buffer) (read_able b)

-- The growth at the head of writeToBuffer: `(int)(1.5 * (m_write_index + size))`, exactly, also where
-- it is more than an int holds, which the code leaves undefined.
unfoldable pub make_room : TcpBuffer → ℕ → Result TcpBuffer
make_room b n =
    if leb_ℤ (pos n) (write_able b) then ok b else resize_buffer b (3 * (b.write_index + n) / 2)

unfoldable pub write_to_buffer : TcpBuffer → Bytes → Result TcpBuffer
write_to_buffer b buf = do
  b' ← make_room b (length buf)
  stored ← copy_into b'.buffer b'.write_index buf
  ok (record b' { write_index = b'.write_index + length buf; buffer = stored })

-- The first component is what the vector `re` of the caller holds afterwards.
unfoldable pub read_from_buffer : TcpBuffer → Bytes → ℤ → Result (Bytes × TcpBuffer)
read_from_buffer b re n = elim (read_able b) [
  | pos zero ↦ ok (re, b)
  | able ↦ do
    k ← to_size (min_ℤ able n)
    tmp ← slice b.buffer b.read_index k
    b' ← adjust_buffer (record b { read_index = b.read_index + k })
    ok (tmp, b')
]

-- `size_t j = m_read_index + size`: a negative sum is larger than any size.
unfoldable pub move_read_index : TcpBuffer → ℤ → Result TcpBuffer
move_read_index b n = elim (pos b.read_index +ℤ n) [
  | pos j ↦ if leb (length b.buffer) j then ok b else adjust_buffer (record b { read_index = j })
  | negsuc _ ↦ ok b
]

unfoldable pub move_write_index : TcpBuffer → ℤ → Result TcpBuffer
move_write_index b n = elim (pos b.write_index +ℤ n) [
  | pos j ↦ if leb (length b.buffer) j then ok b else adjust_buffer (record b { write_index = j })
  | negsuc _ ↦ ok b
]
