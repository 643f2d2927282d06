-- ===== src/ConsistentHash.antt =====
-- ConsistentHash of netrpc/common/consistent_hash.{h,cc}: the ring of virtual nodes.
pub mod Stability
mod Tests
use netrpc.Base.{
  ℕ, zero, suc, ◌+◌, ◌/◌, ◌%◌, Bytes, codes, Result, ok, err, fault, Option, none, some, List, [],
  ◌∷◌, ◌++◌, ltb, if◌then◌else◌,
}
use netrpc.StdMap.{find, insert, erase, lower_bound, nat_key}
use netrpc.Decimal.{decimal_from}
use netrpc.Murmur.{murmur3_32}

pub record ConsistentHash : Type 0 where
  pub server_nodes : List (ℕ × ℕ)
  pub node_num : ℕ
  pub virtual_node_num : ℕ

-- The constructor; the server map is empty.
unfoldable pub new_hash : ℕ → ℕ → ConsistentHash
new_hash node_num virtual_node_num = record {
  server_nodes = [];
  node_num = node_num;
  virtual_node_num = virtual_node_num;
}

-- `partition`, of the key "SHARD-<index>-NODE-<j>"; the default seed is 17.
unfoldable pub partition : ℕ → ℕ → ℕ
partition index j =
    murmur3_32
      (codes "SHARD-"
        ++ (decimal_from (suc index) index ++ (codes "-NODE-" ++ decimal_from (suc j) j)))
      17

-- The rounds of the loops over j, of which `n` are left.
unfoldable pub add_nodes : ℕ → ℕ → ℕ → List (ℕ × ℕ) → List (ℕ × ℕ)
add_nodes index zero j nodes = nodes
add_nodes index (suc n) j nodes = add_nodes index n (j + 1) (insert (partition index j) index nodes)

unfoldable pub delete_nodes : ℕ → ℕ → ℕ → List (ℕ × ℕ) → List (ℕ × ℕ)
delete_nodes index zero j nodes = nodes
delete_nodes index (suc n) j nodes = delete_nodes index n (j + 1) (erase (partition index j) nodes)

unfoldable pub add_new_node : ℕ → ConsistentHash → ConsistentHash
add_new_node index c = record c {
  server_nodes = add_nodes index c.virtual_node_num 0 c.server_nodes;
}

unfoldable pub delete_node : ℕ → ConsistentHash → ConsistentHash
delete_node index c = record c {
  server_nodes = delete_nodes index c.virtual_node_num 0 c.server_nodes;
}

unfoldable pub initialize_from : ℕ → ℕ → ConsistentHash → ConsistentHash
initialize_from zero i c = c
initialize_from (suc n) i c = initialize_from n (i + 1) (add_new_node i c)

unfoldable pub initialize : ConsistentHash → ConsistentHash
initialize c = initialize_from c.node_num 0 c

-- The virtual node that a hash belongs to: the first one at or behind it, or else the first of all.
unfoldable pub successor : ℕ → List (ℕ × ℕ) → Option (ℕ × ℕ)
successor hash [] = none
successor hash (e ∷ nodes) = elim (lower_bound hash (e ∷ nodes)) [ none ↦ some e | some f ↦ some f ]

-- begin() of an empty map is not an element: reading it is a fault.
unfoldable pub get_server_index : Bytes → ConsistentHash → Result ℕ
get_server_index key c = elim (successor (murmur3_32 key 17) c.server_nodes) [
  | none ↦ err fault
  | some (_, index) ↦ ok index
]
