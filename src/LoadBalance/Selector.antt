-- ===== src/LoadBalance/Selector.antt =====
-- The random strategy and ConsistentHashLoadBalanceStrategy of netrpc/net/load_balance.h, whose
-- selectors are rings of virtual nodes under MD5. std::hash and rand are arguments.
use Prim.Native.Nat.{bit_and, bit_or}
use netrpc.Base.{
  ℕ, zero, suc, ◌+◌, ◌-◌, ◌*◌, ◌/◌, ◌%◌, ◌^◌, Bytes, true, false, Result, ok, err, fault, ◌>>=◌, ℤ,
  pos, negsuc, at, to_int32, none, some, List, [], ◌∷◌, ◌++◌, ◌==◌, length,
}
use netrpc.StdMap.{find, insert, assign, lower_bound, nat_key, bytes_key}
use netrpc.Decimal.{decimal}
use netrpc.NetAddr.{IpNetAddr, to_string}
use netrpc.Md5.{digest}
use netrpc.TinyPb.Protocol.{TinyPbProtocol}
use netrpc.LoadBalance.{elem}

-- RandomLoadBalanceStrategy::select, for what rand gives.
unfoldable pub select_random {ℓ} : {A : Type ℓ} → ℕ → List A → Result A
select_random rand [] = err fault
select_random rand (addr ∷ addrs) = elem (addr ∷ addrs) (rand % length (addr ∷ addrs))

pub record ConsistentHashSelector : Type 0 where
  pub virtual_invokers : List (ℕ × IpNetAddr)
  -- an int
  pub identity_hash_code : ℤ

-- Four bytes of a digest, from the lowest; a digest that is too short is read past its end.
unfoldable pub hash : Bytes → ℕ → Result ℕ
hash digest number = do
  b₃ ← at digest (pos (3 + number * 4))
  b₂ ← at digest (pos (2 + number * 4))
  b₁ ← at digest (pos (1 + number * 4))
  b₀ ← at digest (pos (number * 4))
  let high = bit_or (bit_and b₃ 0xff * 2 ^ 24) (bit_and b₂ 0xff * 2 ^ 16)
  ok (bit_and (bit_or (bit_or high (bit_and b₁ 0xff * 2 ^ 8)) (bit_and b₀ 0xff)) 0xffffffff)

-- The loop over h, of whose rounds `n` are left.
unfoldable pub add_group :
    ℕ → ℕ → Bytes → IpNetAddr → List (ℕ × IpNetAddr) → Result (List (ℕ × IpNetAddr))
add_group zero h digest invoker nodes = ok nodes
add_group (suc n) h digest invoker nodes = do
  m ← hash digest h
  add_group n (h + 1) digest invoker (assign m invoker nodes)

-- The loop over i.
unfoldable pub add_groups : ℕ → ℕ → IpNetAddr → List (ℕ × IpNetAddr) → Result (List (ℕ × IpNetAddr))
add_groups zero i invoker nodes = ok nodes
add_groups (suc n) i invoker nodes = do
  group_digest ← digest (to_string invoker ++ decimal i)
  nodes' ← add_group 4 0 group_digest invoker nodes
  add_groups n (i + 1) invoker nodes'

unfoldable pub add_invokers :
    ℕ → List IpNetAddr → List (ℕ × IpNetAddr) → Result (List (ℕ × IpNetAddr))
add_invokers replica_number [] nodes = ok nodes
add_invokers replica_number (invoker ∷ invokers) nodes = do
  nodes' ← add_groups (replica_number / 4) 0 invoker nodes
  add_invokers replica_number invokers nodes'

-- The constructor; the hash code of the addresses is a size_t that is stored in an int.
unfoldable pub new_selector : List IpNetAddr → ℕ → ℕ → Result ConsistentHashSelector
new_selector invokers replica_number identity_hash_code = do
  nodes ← add_invokers replica_number invokers []
  ok (record { virtual_invokers = nodes; identity_hash_code = to_int32 identity_hash_code })

-- The first node at or behind the hash, or else the first of all; an empty map has none.
unfoldable pub select_for_key : ℕ → List (ℕ × IpNetAddr) → Result IpNetAddr
select_for_key hash_code [] = err fault
select_for_key hash_code (node ∷ nodes) = elim (lower_bound hash_code (node ∷ nodes)) [
  | none ↦ ok node.1
  | some found ↦ ok found.1
]

-- ConsistentHashSelector::select
unfoldable pub select_key : Bytes → ConsistentHashSelector → Result IpNetAddr
select_key rpc_service_key s = do
  key_digest ← digest rpc_service_key
  hash_code ← hash key_digest 0
  select_for_key hash_code s.virtual_invokers

-- An int that is compared with a size_t.
abbrev pub as_size : ℤ → ℕ
as_size (pos n) = n
as_size (negsuc n) = 2 ^ 64 - 1 - n

-- insert keeps the selector that a name has; operator[] then reads the map.
unfoldable pub insert_selector :
    Bytes
    → List (Bytes × ConsistentHashSelector)
    → ConsistentHashSelector
    → Result (ConsistentHashSelector × List (Bytes × ConsistentHashSelector))
insert_selector name selectors made =
    let selectors' = insert name made selectors in
    elim (find name selectors') [ none ↦ err fault | some selector ↦ ok (selector, selectors') ]

-- What depends on std::hash.
module _ (std_hash : Bytes → ℕ) where
  -- hashCode, from the result so far.
  unfoldable pub hash_code : ℕ → List IpNetAddr → ℕ
  hash_code result [] = result
  hash_code result (item ∷ addrs) =
      hash_code ((31 * result + std_hash (to_string item)) % 2 ^ 64) addrs

  -- The `if` of select.
  unfoldable pub add_selector :
      List IpNetAddr
      → ℕ
      → Bytes
      → List (Bytes × ConsistentHashSelector)
      → Result (ConsistentHashSelector × List (Bytes × ConsistentHashSelector))
  add_selector addrs code name selectors =
      new_selector addrs 160 code >>= insert_selector name selectors

  -- The selector of a method.
  unfoldable pub selector_for :
      List IpNetAddr
      → Bytes
      → List (Bytes × ConsistentHashSelector)
      → Result (ConsistentHashSelector × List (Bytes × ConsistentHashSelector))
  selector_for addrs name selectors =
      let code = hash_code 1 addrs in
      elim (find name selectors) [
        | none ↦ add_selector addrs code name selectors
        | some selector ↦ elim (as_size selector.identity_hash_code == code) [
          | true ↦ ok (selector, selectors)
          | false ↦ add_selector addrs code name selectors
        ]
      ]

  -- ConsistentHashLoadBalanceStrategy::select, with the selectors_ that it keeps.
  unfoldable pub select_consistent :
      List IpNetAddr
      → TinyPbProtocol
      → List (Bytes × ConsistentHashSelector)
      → Result (IpNetAddr × List (Bytes × ConsistentHashSelector))
  select_consistent addrs invocation selectors = do
    (selector, selectors') ← selector_for addrs invocation.method_name selectors
    addr ← select_key invocation.pb_data selector
    ok (addr, selectors')
