-- ===== src/Rpc/Tests.antt =====
-- Concrete requests for the theorems about the dispatcher.
use netrpc.Base.{codes, some, ◌∷◌, ◌++◌, ◌≡◌, ◌↔◌}
use netrpc.StdMap.{bytes_key}
use netrpc.TinyPb.Protocol.{TinyPbProtocol}
use netrpc.TinyPb.Samples.{order}
use netrpc.Rpc.ServiceName.{parse_service_full_name, parse_service_full_name_iff, Without, dot}

parse_service_full_name_iff_example :
    (parse_service_full_name (codes "Order.make.Order") ≡ some (codes "Order", codes "make.Order"))
    ↔ ((codes "Order.make.Order" ≡ codes "Order" ++ (dot ∷ codes "make.Order"))
        × Without dot (codes "Order"))
parse_service_full_name_iff_example =
    parse_service_full_name_iff (codes "Order.make.Order") (codes "Order") (codes "make.Order")

abbrev unknown : TinyPbProtocol
unknown = record order { method_name = codes "Order.cancel" }
