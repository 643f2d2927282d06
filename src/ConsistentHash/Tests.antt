-- ===== src/ConsistentHash/Tests.antt =====
-- A ring of two servers with two virtual nodes each, and the hash on a known input.
use netrpc.Base.{◌≡◌, ◌⊎◌, refl, ok, codes, [], ◌∷◌, arith}
use netrpc.StdMap.{lower_bound}
use netrpc.Decimal.{decimal_from}
use netrpc.Murmur.{murmur3_32, rotate_left, scramble, mix_blocks, avalanche}
use netrpc.ConsistentHash.{
  ConsistentHash, new_hash, partition, add_new_node, delete_node, successor, initialize,
  get_server_index,
}
use netrpc.ConsistentHash.Stability.{
  Spares, get_server_index-add_new_node, get_server_index-delete_node,
}

murmur_run : murmur3_32 (codes "test") 0 ≡ 0xba6bd213
unfolding murmur3_32 rotate_left scramble mix_blocks avalanche
murmur_run = refl

abbrev ring : ConsistentHash
ring = initialize (new_hash 2 2)

get_server_index-add_new_node_example :
    (get_server_index (codes "key") (add_new_node 2 ring) ≡ get_server_index (codes "key") ring)
    ⊎ (get_server_index (codes "key") (add_new_node 2 ring) ≡ ok 2)
get_server_index-add_new_node_example = get_server_index-add_new_node (codes "key") 2 ring

-- A ring with one place below every hash and one above.
abbrev edges : ConsistentHash
edges = record { server_nodes = (0, 0) ∷ (4294967295, 1) ∷ []; node_num = 2; virtual_node_num = 2 }

edges-Spares : Spares 0 2 0 4294967295
unfolding partition decimal_from murmur3_32 rotate_left scramble mix_blocks avalanche
edges-Spares = (ground arith, (ground arith, tt))

get_server_index-delete_node_example :
    (get_server_index (codes "key") edges ≡ ok 1)
    × (get_server_index (codes "key") (delete_node 0 edges) ≡ ok 1)
unfolding successor lower_bound murmur3_32 rotate_left scramble mix_blocks avalanche
get_server_index-delete_node_example =
    get_server_index-delete_node (codes "key") 0 4294967295 1 edges refl edges-Spares
