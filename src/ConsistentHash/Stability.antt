-- ===== src/ConsistentHash/Stability.antt =====
-- What the ring promises its clients: a server that joins or leaves moves its own keys alone.
use netrpc.Base.{
  ℕ, zero, suc, ◌+◌, ◌≡◌, ◌≢◌, refl, ◌⊎◌, inl, inr, Bytes, ok, Option, none, some, Option-cases,
  List, [], ◌∷◌, arith,
}
use netrpc.StdMap.{find, place, insert, erase, lower_bound, nat_key}
use netrpc.Murmur.{murmur3_32}
use netrpc.ConsistentHash.{
  ConsistentHash, partition, add_nodes, delete_nodes, add_new_node, delete_node, successor,
  get_server_index,
}

-- A new entry takes over the bound or leaves it.
lower_bound-place :
    (h k v : ℕ) (m : List (ℕ × ℕ))
    → (lower_bound h (place k v m) ≡ lower_bound h m) ⊎ (lower_bound h (place k v m) ≡ some (k, v))
unfolding lower_bound place
lower_bound-place h k v [] = ground arith
lower_bound-place h k v ((j, w) ∷ m) = ground (arith, lower_bound-place h k v m)

successor-place :
    (h k v : ℕ) (m : List (ℕ × ℕ))
    → (successor h (place k v m) ≡ successor h m) ⊎ (successor h (place k v m) ≡ some (k, v))
unfolding successor place lower_bound
successor-place h k v [] = ground arith
successor-place h k v ((j, w) ∷ m) =
    ground (arith, lower_bound-place h k v m, Option-cases (lower_bound h m))

successor-insert :
    (h k v : ℕ) (m : List (ℕ × ℕ))
    → (successor h (insert k v m) ≡ successor h m) ⊎ (successor h (insert k v m) ≡ some (k, v))
unfolding insert
successor-insert h k v m = elim (Option-cases (find k m)) [
  | inl e ↦ rw (e, insert) (successor-place h k v m)
  | inr (w, e) ↦ rw (e, insert) (inl refl)
]

-- The server of a hash is not moved by a round, or it is the new one.
abbrev server : ℕ → List (ℕ × ℕ) → Option ℕ
server h nodes = elim (successor h nodes) [ none ↦ none | some (_, index) ↦ some index ]

server-add_nodes :
    (h index n j : ℕ) (nodes : List (ℕ × ℕ))
    → (server h (add_nodes index n j nodes) ≡ server h nodes)
      ⊎ (server h (add_nodes index n j nodes) ≡ some index)
unfolding add_nodes
server-add_nodes h index zero j nodes = inl refl
server-add_nodes h index (suc n) j nodes =
    let one = successor-insert h (partition index j) index nodes in
    let rest = server-add_nodes h index n (j + 1) (insert (partition index j) index nodes) in
    ground arith

-- When a server is added, every key keeps its server or moves to the new one.
pub get_server_index-add_new_node :
    (key : Bytes) (index : ℕ) (c : ConsistentHash)
    → (get_server_index key (add_new_node index c) ≡ get_server_index key c)
      ⊎ (get_server_index key (add_new_node index c) ≡ ok index)
unfolding get_server_index add_new_node
get_server_index-add_new_node key index c =
    let moved = server-add_nodes (murmur3_32 key 17) index c.virtual_node_num 0 c.server_nodes in
    ground arith

lower_bound-erase :
    (h k j w : ℕ) (m : List (ℕ × ℕ))
    → j ≢ k
    → lower_bound h m ≡ some (j, w)
    → lower_bound h (erase k m) ≡ some (j, w)
unfolding lower_bound erase
lower_bound-erase h k j w [] ne e = cc
lower_bound-erase h k j w ((i, x) ∷ m) ne e = ground (arith, lower_bound-erase h k j w m ne)

lower_bound-erase-none :
    (h k : ℕ) (m : List (ℕ × ℕ)) → lower_bound h m ≡ none → lower_bound h (erase k m) ≡ none
unfolding lower_bound erase
lower_bound-erase-none h k [] e = refl
lower_bound-erase-none h k ((i, x) ∷ m) e = ground (arith, lower_bound-erase-none h k m)

-- The virtual node of a hash stays while another one goes.
successor-erase :
    (h k j w : ℕ) (m : List (ℕ × ℕ))
    → j ≢ k
    → successor h m ≡ some (j, w)
    → successor h (erase k m) ≡ some (j, w)
unfolding successor erase lower_bound
successor-erase h k j w [] ne e = cc
successor-erase h k j w ((i, x) ∷ m) ne e = ground (
  arith,
  lower_bound-erase h k j w m ne,
  lower_bound-erase-none h k m,
  Option-cases (lower_bound h m),
)

-- None of the `n` virtual nodes of the server from the `j`th on stands at `pos`.
abbrev pub Spares : ℕ → ℕ → ℕ → ℕ → Type 0
Spares index zero j pos = Unit {0}
Spares index (suc n) j pos = (pos ≢ partition index j) × Spares index n (j + 1) pos

successor-delete_nodes :
    (h index n j pos w : ℕ) (nodes : List (ℕ × ℕ))
    → Spares index n j pos
    → successor h nodes ≡ some (pos, w)
    → successor h (delete_nodes index n j nodes) ≡ some (pos, w)
unfolding delete_nodes
successor-delete_nodes h index zero j pos w nodes spares e = e
successor-delete_nodes h index (suc n) j pos w nodes spares e =
    successor-delete_nodes h index n (j + 1) pos w (erase (partition index j) nodes) spares.1
      (successor-erase h (partition index j) pos w nodes spares.0 e)

-- When a server is deleted, every key keeps its server whose virtual node stands at none of the
-- places of the deleted server's virtual nodes.
pub get_server_index-delete_node :
    (key : Bytes) (index pos w : ℕ) (c : ConsistentHash)
    → successor (murmur3_32 key 17) c.server_nodes ≡ some (pos, w)
    → Spares index c.virtual_node_num 0 pos
    → (get_server_index key c ≡ ok w) × (get_server_index key (delete_node index c) ≡ ok w)
unfolding get_server_index delete_node
get_server_index-delete_node key index pos w c e spares =
    let kept =
      successor-delete_nodes (murmur3_32 key 17) index c.virtual_node_num 0 pos w c.server_nodes
        spares e in
    (ground arith, ground arith)
