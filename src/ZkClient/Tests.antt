-- ===== src/ZkClient/Tests.antt =====
-- Registrations with a ZooKeeper that is a tree, of the service of the other tests.
use netrpc.Base.{
  ◌≡◌, refl, true, false, Bytes, codes, Returns, ok, ◌>>=◌, pos, none, some, [], ◌∷◌, arith, zeros,
}
use netrpc.StdMap.{find, bytes_eq, bytes_key, insert, place}
use netrpc.Decimal.{decimal_from, atoi, is_space, read_digits, is_digit}
use netrpc.TinyPb.Decoder.{until_nul}
use netrpc.NetAddr.{IpNetAddr, to_string, is_valid_text, split_addr}
use netrpc.Rpc.ServiceName.{find_first_of}
use netrpc.Rpc.Channel.{find_addr}
use netrpc.Rpc.Dispatcher.{register_service}
use netrpc.Rpc.Samples.{orders_api}
use netrpc.ZkClient.{
  buffer_of, connected_late, host_text, method_path, get_data, register_and_publish,
}
use netrpc.ZkClient.Allowed.{Named, AllLasting}
use netrpc.ZkClient.Discover.{register_and_publish-find_addr, register_and_publish-present}
use netrpc.ZkClient.Tree.{Tree, put, tree, put_self, tree-IsServer}

abbrev host : IpNetAddr
host = record { ip = codes "10.0.0.7"; port = 12346 }

abbrev order_path : Bytes
order_path = method_path (codes "Order") (codes "makeOrder")

names-Named : Named orders_api (λ s. codes "makeOrder" ∷ []) (register_service orders_api 0 [])
unfolding find bytes_eq register_service insert place
names-Named = (
  (
    (λ same. cc, (refl, (refl, (refl, (refl, (refl, tt)))))),
    ((λ same. cc, (refl, (refl, (refl, (refl, (refl, (refl, (refl, (refl, (refl, tt)))))))))), tt),
  ),
  tt,
)

register_and_publish-find_addr_example :
    Returns
      (λ done.
        (done.0 ≡ register_service orders_api 0 [])
        × ((get_data tree order_path (λ i. 0) done.1 >>= λ text. ok (find_addr [] text))
            ≡ ok (some host)))
      (register_and_publish tree orders_api
        (λ s. codes "makeOrder" ∷ [])
        host.ip
        (pos host.port)
        connected_late
        0
        []
        (λ q. none))
unfolding is_valid_text to_string find bytes_eq register_service insert place decimal_from
    split_addr find_first_of atoi is_space read_digits is_digit buffer_of
register_and_publish-find_addr_example =
    register_and_publish-find_addr tree orders_api (λ s. codes "makeOrder" ∷ []) 0 [] host
      (λ q. none) order_path (zeros 49) (λ i. 0) [] tree-IsServer names-Named (λ there. cc, tt)
      (omega arith) (omega arith) (omega arith) refl (omega arith) refl refl refl

-- The nodes of an earlier session.
abbrev earlier : Tree
earlier = put order_path (codes "10.0.0.3:80") true (put (codes "/Order") [] false (λ q. none))

earlier-order_path : earlier order_path ≡ some (codes "10.0.0.3:80", true)
earlier-order_path =
    put_self order_path (codes "10.0.0.3:80") true (put (codes "/Order") [] false (λ q. none))

earlier-AllLasting : AllLasting orders_api tree (register_service orders_api 0 []) earlier
unfolding bytes_eq register_service insert find place
earlier-AllLasting = (λ there. refl, tt)

host-text : host_text host.ip (pos host.port) ≡ ok (codes "10.0.0.7:12346")
unfolding host_text until_nul decimal_from
host-text = refl

register_and_publish-present_example :
    Returns
      (λ done.
        (done.0 ≡ register_service orders_api 0 [])
        × (get_data tree order_path (λ i. 0) done.1 ≡ get_data tree order_path (λ i. 0) earlier))
      (register_and_publish tree orders_api
        (λ s. codes "makeOrder" ∷ [])
        host.ip
        (pos host.port)
        connected_late
        0
        []
        earlier)
register_and_publish-present_example =
    register_and_publish-present tree orders_api (λ s. codes "makeOrder" ∷ []) 0 [] host.ip
      (pos host.port) (codes "10.0.0.7:12346") earlier order_path (λ i. 0) tree-IsServer names-Named
      earlier-AllLasting host-text (rw earlier-order_path refl)
