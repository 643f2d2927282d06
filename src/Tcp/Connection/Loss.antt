-- ===== src/Tcp/Connection/Loss.antt =====
-- The whole loop of TcpConnection::onRead: a read that fills the buffer to its end is lost.
use mathlib.Core.Path.{ap₂}
use native.Mathlib.Decide.{dec_lt}
use native.Mathlib.Nat.{mod-eq-sub-mod, mod-eq_of_lt, mod-le}
use mathlib.Core.List.{append-nil}
use netrpc.Base.{
  ℕ, zero, suc, ◌+◌, ◌-◌, ◌%◌, ◌≤◌, ◌<◌, ◌≡◌, ◌≢◌, refl, sym, ◌∙◌, ap, Bytes, Result, ok, pos,
  arith, true, false, if◌then◌else◌, take, drop, length, length-take, length-drop, drop-drop,
  take-all, drop-nil, [], ◌∷◌, ◌++◌, ◌==◌, eq→==,
}
use netrpc.TcpBuffer.{TcpBuffer, write_able}
use netrpc.TcpBuffer.Contents.{readable, IsOpen}
use netrpc.TcpBuffer.Safety.{write_able_ok}
use netrpc.Tcp.Connection.{
  ReadEnd, would_block, peer_closed, failed, socket_read, ReadStop, read_all, closing, receive,
}
use netrpc.Tcp.Connection.Receive.{room_to_read-open, take_in-kept, take_in-lost}

-- How the loop stops where the last read found nothing.
abbrev pub stop_at : ReadEnd → ReadStop
stop_at would_block = read_all
stop_at peer_closed = closing
stop_at failed = read_all

-- The bytes that are left after as many reads of `n` bytes as there are.
abbrev pub remainder : ℕ → Bytes → Bytes
remainder n arrived = drop (length arrived - length arrived % n) arrived

-- What a run of the loop leaves, for `kept` bytes handed to the reader.
abbrev Keeps : Result (TcpBuffer × ReadStop) → TcpBuffer → Bytes → ReadStop → Type 0
Keeps r b kept stop =
    (b' : TcpBuffer) × (r ≡ ok (b', stop)) × IsOpen b' × (readable b' ≡ readable b ++ kept)

receive-none :
    (fuel : ℕ) (b : TcpBuffer) (k : ℕ) (end : ReadEnd)
    → IsOpen b
    → length b.buffer - b.write_index ≡ suc k
    → end ≢ failed
    → Keeps (receive (suc fuel) b [] end) b [] (stop_at end)
unfolding receive socket_read
receive-none fuel b k would_block o e ne = (
  b,
  rw (room_to_read-open b o, write_able_ok b o.valid, e, receive),
  o,
  sym (append-nil (readable b)),
)
receive-none fuel b k peer_closed o e ne = (
  b,
  rw (room_to_read-open b o, write_able_ok b o.valid, e, receive),
  o,
  sym (append-nil (readable b)),
)
receive-none fuel b k failed o e ne = absurd (ne refl)

-- A short read ends the loop, and is kept.
receive-short :
    (fuel : ℕ) (b : TcpBuffer) (k x : ℕ) (xs : Bytes) (end : ReadEnd)
    → IsOpen b
    → length b.buffer - b.write_index ≡ suc k
    → length (x ∷ xs) < suc k
    → Keeps (receive (suc fuel) b (x ∷ xs) end) b (x ∷ xs) read_all
unfolding receive socket_read
receive-short fuel b k x xs end o e short =
    let all : take k xs ≡ xs = take-all k xs (omega arith) in
    let (b', took, o', r) = take_in-kept b (x ∷ xs) o (omega arith) (omega arith) in
    let differ : (length (x ∷ xs) == suc k) ≡ false = ground arith in
    let able : write_able b ≡ pos (suc k) = write_able_ok b o.valid ∙ ap pos e in
    (b', rw (room_to_read-open b o, able, all, took, differ, receive), o', r)

-- A full read goes round again with the buffer as it was.
receive-full :
    (fuel : ℕ) (b : TcpBuffer) (k x : ℕ) (xs : Bytes) (end : ReadEnd)
    → IsOpen b
    → length b.buffer - b.write_index ≡ suc k
    → suc k ≤ length (x ∷ xs)
    → (b' : TcpBuffer) × (receive (suc fuel) b (x ∷ xs) end ≡ receive fuel b' (drop k xs) end)
      × IsOpen b'
      × (readable b' ≡ readable b)
      × (length b'.buffer - b'.write_index ≡ suc k)
unfolding receive socket_read
receive-full fuel b k x xs end o e long =
    let count : length (x ∷ take k xs) ≡ suc k = omega (arith, length-take k xs) in
    let (b', took, o', r, free) = take_in-lost b (x ∷ take k xs) o (omega arith) (omega arith) in
    let able : write_able b ≡ pos (suc k) = write_able_ok b o.valid ∙ ap pos e in
    let same : (length (x ∷ take k xs) == suc k) ≡ true = eq→== _ _ count in
    (b', rw (room_to_read-open b o, able, took, same, receive), o', r, free ∙ e)

abbrev stop_after : ℕ → Bytes → ReadEnd → ReadStop
stop_after n arrived end = if length arrived % n == 0 then stop_at end else read_all

receive-rounds :
    (fuel : ℕ) (b : TcpBuffer) (k : ℕ) (arrived : Bytes) (end : ReadEnd)
    → IsOpen b
    → length b.buffer - b.write_index ≡ suc k
    → end ≢ failed
    → length arrived < fuel
    → Keeps
        (receive fuel b arrived end)
        b
        (remainder (suc k) arrived)
        (stop_after (suc k) arrived end)
receive-rounds zero b k arrived end o e ne lt = elim lt [ ]
receive-rounds (suc fuel) b k [] end o e ne lt =
    let none_left : 0 % suc k ≡ 0 = omega arith in
    rw (none_left, drop-nil ℕ (0 - 0)) (receive-none fuel b k end o e ne)
receive-rounds (suc fuel) b k (x ∷ xs) end o e ne lt =
    let n : ℕ = length (x ∷ xs) in
    elim (dec_lt n (suc k)) [
      | yes short ↦
          let whole : n % suc k ≡ n = mod-eq_of_lt short in
          let differ : (n % suc k == 0) ≡ false = ground arith in
          let all : remainder (suc k) (x ∷ xs) ≡ x ∷ xs =
            ap (λ j. drop j (x ∷ xs)) {x = n - n % suc k} {y = 0} (omega arith) in
          rw (differ, all) (receive-short fuel b k x xs end o e short)
      | no long ↦
          let (b₁, step, o₁, r₁, e₁) = receive-full fuel b k x xs end o e (omega arith) in
          let (b₂, last, o₂, r₂) =
            receive-rounds fuel b₁ k (drop k xs) end o₁ e₁ ne (omega (arith, length-drop k xs)) in
          let l : ℕ = length (drop k xs) in
          let less : l ≡ n - suc k = omega (arith, length-drop k xs) in
          let same : l % suc k ≡ n % suc k =
            ap (λ j. j % suc k) less ∙ sym (mod-eq-sub-mod {n = n} {m = suc k} (omega arith)) in
          let rest : remainder (suc k) (drop k xs) ≡ remainder (suc k) (x ∷ xs) =
            drop-drop (l - l % suc k) (suc k) (x ∷ xs)
            ∙ ap (λ j. drop j (x ∷ xs)) {x = suc k + (l - l % suc k)} {y = n - n % suc k}
                (omega (arith, mod-le l (suc k))) in
          (
            b₂,
            step ∙ last ∙ ap (λ j. ok (b₂, (if j == 0 then stop_at end else read_all))) same,
            o₂,
            r₂ ∙ ap₂ ◌++◌ r₁ rest,
          )
    ]

-- With `n` bytes free behind the write index, the loop of onRead returns, and hands the reader
-- only what is left of the arrived bytes after as many whole reads of `n` bytes as they have: the
-- bytes of each read that fills the buffer are lost. It stops for a closed peer only if nothing is
-- left. (A read fails for no other reason than EAGAIN, and there is more fuel than bytes.)
pub receive-remainder :
    (fuel : ℕ) (b : TcpBuffer) (arrived : Bytes) (end : ReadEnd)
    → IsOpen b
    → end ≢ failed
    → length arrived < fuel
    → let n = length b.buffer - b.write_index in
      Keeps
        (receive fuel b arrived end)
        b
        (remainder n arrived)
        (if length arrived % n == 0 then stop_at end else read_all)
receive-remainder fuel b arrived end o ne lt = go (length b.buffer - b.write_index) refl
  where
    go :
        (n : ℕ)
        → length b.buffer - b.write_index ≡ n
        → Keeps
            (receive fuel b arrived end)
            b
            (remainder (length b.buffer - b.write_index) arrived)
            (stop_after (length b.buffer - b.write_index) arrived end)
    go zero e = absurd (omega (arith, o.slack))
    go (suc k) e = rw e (receive-rounds fuel b k arrived end o e ne lt)

-- Fewer bytes than are free all reach the reader, in one read.
pub receive-all :
    (fuel : ℕ) (b : TcpBuffer) (x : ℕ) (xs : Bytes) (end : ReadEnd)
    → IsOpen b
    → length (x ∷ xs) < length b.buffer - b.write_index
    → Keeps (receive (suc fuel) b (x ∷ xs) end) b (x ∷ xs) read_all
receive-all fuel b x xs end o short = go (length b.buffer - b.write_index) refl
  where
    go :
        (n : ℕ)
        → length b.buffer - b.write_index ≡ n
        → Keeps (receive (suc fuel) b (x ∷ xs) end) b (x ∷ xs) read_all
    go zero e = absurd (omega arith)
    go (suc k) e = receive-short fuel b k x xs end o e (omega arith)
