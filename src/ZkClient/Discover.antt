-- ===== src/ZkClient/Discover.antt =====
-- From registerService to FindAddr: the address that a server publishes is the one that a client's
-- channel gets.
use mathlib.Core.Path.{fun_ext}
use netrpc.Base.{
  ℕ, zero, suc, ◌^◌, ◌<◌, take-all, length-drop, length-append, lt→ltb, ◌≡◌, refl, ap, ◌∙◌, sym,
  Bytes, true, false, ok, ◌>>=◌, Returns, >>=-then, ℤ, pos, some, List, [], ◌∷◌, ◌++◌, length, drop,
  ltb, arith,
}
use netrpc.StdMap.{find, bytes_key}
use netrpc.NetAddr.{IpNetAddr, colon, to_string, is_valid_text}
use netrpc.NetAddr.RoundTrip.{addr_text_lem}
use netrpc.Rpc.ServiceName.{Without}
use netrpc.Rpc.Dispatcher.{Protobuf, ServiceMap, register_service}
use netrpc.Config.{RpcStub}
use netrpc.Rpc.Channel.{find_addr}
use netrpc.ZkClient.{
  ZooKeeper, znonode, zok, connected_late, start, host_text, service_path, method_path, create,
  array_string, buffer_of, get_data, register_methods, register_nodes, register_and_publish,
}
use netrpc.ZkClient.Text.{until_nul-append, until_nul-all, Without-to_string, to_string-nonempty}
use netrpc.ZkClient.Register.{
  Nodes, Allowed, create_all, create_all-steps, steps, steps-present, steps-found,
}
use netrpc.ZkClient.Allowed.{IsServer, Named, AllLasting, method_nodes, nodes_of, nodes-Allowed}

module _ (zk : ZooKeeper) (p : Protobuf) (methods : p.Service → List Bytes) (ip : Bytes)
    (port : ℤ) where
  register_methods-then :
      (text name : Bytes) (names : List Bytes) (rest : Nodes zk) (zoo : zk.Zoo)
      → host_text ip port ≡ ok text
      → (register_methods zk p methods ip port name names zoo >>= create_all zk rest)
        ≡ create_all zk (method_nodes text name names ++ rest) zoo
  unfolding register_methods
  register_methods-then text name [] rest zoo h = refl
  register_methods-then text name (method ∷ names) rest zoo h = rw h (
      >>=-then (create zk (method_path name method) text true zoo) _ _ _
        (λ zoo'. register_methods-then text name names rest zoo' h))

  register_nodes-create_all :
      (text : Bytes) (services : ServiceMap p) (zoo : zk.Zoo)
      → host_text ip port ≡ ok text
      → register_nodes zk p methods ip port services zoo
        ≡ create_all zk (nodes_of p methods text services) zoo
  unfolding register_nodes
  register_nodes-create_all text [] zoo h = refl
  register_nodes-create_all text ((name, s) ∷ services) zoo h =
      ap (λ f. create zk (service_path name) [] false zoo >>= f)
        (fun_ext (λ zoo₁.
          ap (λ f. register_methods zk p methods ip port name (methods s) zoo₁ >>= f)
            (fun_ext (λ zoo₂. register_nodes-create_all text services zoo₂ h))
          ∙ register_methods-then text name (methods s) (nodes_of p methods text services) zoo₁ h))

length-buffer_of : (n : ℕ) (memory : ℕ → ℕ) → length (buffer_of n memory) ≡ n
unfolding buffer_of
length-buffer_of zero memory = refl
length-buffer_of (suc n) memory = ap suc (length-buffer_of n (λ i. memory (suc i)))

-- GetData, where a NUL stands in the array behind the data.
get_data-text :
    (zk : ZooKeeper) (path : Bytes) (memory : ℕ → ℕ) (text rest : Bytes) (zoo : zk.Zoo)
    → zk.zoo_get path zoo ≡ some text
    → Without 0 text
    → drop (length text) (buffer_of 64 memory) ≡ 0 ∷ rest
    → get_data zk path memory zoo ≡ ok text
unfolding get_data array_string
get_data-text zk path memory text rest zoo got whole behind =
    let shorter : length text < 64 = omega (
      arith,
      ap length behind,
      length-drop {A = ℕ} (length text) (buffer_of 64 memory),
      length-buffer_of 64 memory,
    ) in
    let filled : Bytes = text ++ (0 ∷ rest) in
    let room : ltb (length text) (length filled) ≡ true =
      lt→ltb _ _ (omega (arith, length-append text (0 ∷ rest))) in
    rw (got, get_data)
      (rw (take-all 64 text (omega arith), behind, until_nul-append text rest whole, room) refl)

host_text-to_string :
    (a : IpNetAddr)
    → Without 0 a.ip
    → length (to_string a) < 128
    → host_text a.ip (pos a.port) ≡ ok (to_string a)
unfolding host_text to_string
host_text-to_string a whole fits = rw (until_nul-all a.ip whole) (rw (lt→ltb _ 128 fits) refl)

find_addr-to_string :
    (stubs : List (Bytes × RpcStub)) (a : IpNetAddr)
    → is_valid_text (to_string a) ≡ true
    → Without colon a.ip
    → a.port < 2 ^ 16
    → find_addr stubs (to_string a) ≡ some a
unfolding find_addr
find_addr-to_string stubs a valid no_colon small =
    rw valid (ap some (addr_text_lem a no_colon small).0)

register_and_publish-steps :
    (zk : ZooKeeper) (p : Protobuf) (methods : p.Service → List Bytes) (ip : Bytes) (port : ℤ)
    (text : Bytes) (s : p.Service) (services : ServiceMap p) (zoo : zk.Zoo)
    → host_text ip port ≡ ok text
    → Allowed zk (nodes_of p methods text (register_service p s services)) zoo
    → register_and_publish zk p methods ip port connected_late s services zoo
      ≡ ok (
        register_service p s services,
        steps zk (nodes_of p methods text (register_service p s services)) zoo,
      )
unfolding register_and_publish start
register_and_publish-steps zk p methods ip port text s services zoo written allowed =
    ap (λ r. r >>= λ z. ok (register_service p s services, z))
      (register_nodes-create_all zk p methods ip port text (register_service p s services) zoo
          written
        ∙ create_all-steps zk (nodes_of p methods text (register_service p s services)) zoo allowed)

-- On a ZooKeeper that does what it documents (a create of a path that has no node is accepted where
-- the path is one name, or where its first name has a node that is not ephemeral; what is created is
-- kept) and that answers every call, where the session's event comes behind zoo_set_context:
-- registerService returns, for a server whose settings are an address that CheckValid accepts (its
-- text of less than 128 bytes, its ip without NUL or colon, its port of 16 bits), whose services and
-- methods have names of letters, digits and underscores, none of the services with an ephemeral node.
-- And at the path of a method that had no node, the first of that path that the dispatcher makes, a
-- client reads this address: GetData, where the memory of its array of 64 bytes has a NUL right behind
-- the text, and FindAddr give it back.
pub register_and_publish-find_addr :
    (zk : ZooKeeper) (p : Protobuf) (methods : p.Service → List Bytes) (s : p.Service)
    (services : ServiceMap p) (a : IpNetAddr) (zoo : zk.Zoo) (path rest : Bytes) (memory : ℕ → ℕ)
    (stubs : List (Bytes × RpcStub)) (server : IsServer zk)
    → Named p methods (register_service p s services)
    → AllLasting p zk (register_service p s services) zoo
    → Without colon a.ip
    → Without 0 a.ip
    → a.port < 2 ^ 16
    → is_valid_text (to_string a) ≡ true
    → length (to_string a) < 128
    → find path (nodes_of p methods (to_string a) (register_service p s services))
      ≡ some (to_string a, true)
    → zk.zoo_exists path zoo ≡ znonode
    → drop (length (to_string a)) (buffer_of 64 memory) ≡ 0 ∷ rest
    → Returns
        (λ done.
          (done.0 ≡ register_service p s services)
          × ((get_data zk path memory done.1 >>= λ host. ok (find_addr stubs host)) ≡ ok (some a)))
        (register_and_publish zk p methods a.ip (pos a.port) connected_late s services zoo)
register_and_publish-find_addr zk p methods s services a zoo path rest memory stubs server named
      lasting no_colon whole small valid fits found absent behind =
    let services' : ServiceMap p = register_service p s services in
    let text : Bytes = to_string a in
    let nodes : Nodes zk = nodes_of p methods text services' in
    let allowed = nodes-Allowed zk server p methods text services' zoo named lasting in
    let (c, cs, same) = to_string-nonempty a in
    let got : zk.zoo_get path (steps zk nodes zoo) ≡ some (c ∷ cs) =
      steps-found zk server.store nodes path c cs true zoo allowed
        (found ∙ ap (λ t. some (t, true)) same) absent in
    (
      (services', steps zk nodes zoo),
      register_and_publish-steps zk p methods a.ip (pos a.port) text s services zoo
          (host_text-to_string a whole fits) allowed,
      (
        refl,
        ap (λ r. r >>= λ host. ok (find_addr stubs host))
              (get_data-text zk path memory text rest (steps zk nodes zoo)
                (got ∙ ap some (sym same)) (Without-to_string a whole) behind)
            ∙ ap ok (find_addr-to_string stubs a valid no_colon small),
      ),
    )

-- On a ZooKeeper that does what it documents and answers every call, where the session's event comes
-- behind zoo_set_context, with services and methods whose names are letters, digits and underscores,
-- none of the services with an ephemeral node, and settings whose text ip:port fits in the array of
-- registerService: registerService returns, and a node that was there before it keeps its data.
-- Whatever address the settings hold, a client goes on to read there what it read before, into the
-- same memory. (So a server that comes back at another address stays unknown while the node of its
-- earlier session lives.)
pub register_and_publish-present :
    (zk : ZooKeeper) (p : Protobuf) (methods : p.Service → List Bytes) (s : p.Service)
    (services : ServiceMap p) (ip : Bytes) (port : ℤ) (text : Bytes) (zoo : zk.Zoo) (path : Bytes)
    (memory : ℕ → ℕ) (server : IsServer zk)
    → Named p methods (register_service p s services)
    → AllLasting p zk (register_service p s services) zoo
    → host_text ip port ≡ ok text
    → zk.zoo_exists path zoo ≡ zok
    → Returns
        (λ done.
          (done.0 ≡ register_service p s services)
          × (get_data zk path memory done.1 ≡ get_data zk path memory zoo))
        (register_and_publish zk p methods ip port connected_late s services zoo)
unfolding get_data
register_and_publish-present zk p methods s services ip port text zoo path memory server named
      lasting written there =
    let services' : ServiceMap p = register_service p s services in
    let nodes : Nodes zk = nodes_of p methods text services' in
    let kept = steps-present zk server.store nodes path zoo there in
    (
      (services', steps zk nodes zoo),
      register_and_publish-steps zk p methods ip port text s services zoo written
          (nodes-Allowed zk server p methods text services' zoo named lasting),
      (refl, rw (kept, get_data) refl),
    )
