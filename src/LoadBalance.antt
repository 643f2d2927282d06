-- ===== src/LoadBalance.antt =====
-- netrpc/net/load_balance.{h,cpp}: the names of the strategies and the round robin, and getIOThread
-- of netrpc/net/io_thread_group.cc, which goes round in the same way.
pub mod Rotation
pub mod Selector
pub mod Stale
mod Tests
use netrpc.Base.{
  ℕ, zero, suc, ◌+◌, ◌*◌, ◌/◌, Bytes, codes, Bool, true, false, ◌||◌, ◌==◌, leb, ltb, Result, ok,
  err, fault, ◌>>=◌, ℤ, pos, negsuc, Option, none, some, List, [], ◌∷◌, length, get_elem?,
  if◌then◌else◌,
}
use netrpc.StdMap.{bytes_eq}

pub data LoadBalanceCategory : Type 0 where
  random round consistent_hash : LoadBalanceCategory

unfoldable pub strategy_to_str : LoadBalanceCategory → Bytes
strategy_to_str random = codes "Random"
strategy_to_str round = codes "Round"
strategy_to_str consistent_hash = codes "ConsistentHash"

unfoldable pub str_to_strategy : Bytes → LoadBalanceCategory
str_to_strategy s =
    if bytes_eq s (codes "Round")
    then round
    else if bytes_eq s (codes "ConsistentHash")
    then consistent_hash
    else random

-- An element of a vector, and a fault out of range.
abbrev pub elem {ℓ} : {A : Type ℓ} → List A → ℕ → Result A
elem xs i = elim (get_elem? xs i) [ none ↦ err fault | some x ↦ ok x ]

-- RoundLoadBalanceStrategy::select, with the index_ that it keeps.
unfoldable pub select_round {ℓ} : {A : Type ℓ} → List A → ℕ → Result (A × ℕ)
select_round addrs index = do
  let i = if leb (length addrs) index then 0 else index
  addr ← elem addrs i
  ok (addr, i + 1)

-- The number of threads of IOThreadGroup::IOThreadGroup, by the four comparisons of the load.
unfoldable pub thread_count : ℕ → Bool → Bool → Bool → Bool → ℕ
thread_count size cpu_high load_high cpu_low load_low =
    let grown = if cpu_high || load_high then size * 2 else size in
    if cpu_low || load_low then if ltb (grown / 2) 2 then 2 else grown / 2 else grown

-- IOThreadGroup::getIOThread, with m_index.
unfoldable pub get_io_thread {ℓ} : {A : Type ℓ} → List A → ℤ → Result (A × ℤ)
get_io_thread threads (negsuc zero) = do thread ← elem threads 0; ok (thread, pos 1)
get_io_thread threads (negsuc (suc n)) = err fault
get_io_thread threads (pos index) = do
  let i = if index == length threads then 0 else index
  thread ← elem threads i
  ok (thread, pos (i + 1))

-- `n` selections in a row.
unfoldable pub select_rounds {ℓ} : {A : Type ℓ} → List A → ℕ → ℕ → Result (List A × ℕ)
select_rounds addrs zero index = ok ([], index)
select_rounds addrs (suc n) index = do
  (addr, index') ← select_round addrs index
  (rest, last) ← select_rounds addrs n index'
  ok (addr ∷ rest, last)
