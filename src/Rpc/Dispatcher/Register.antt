-- ===== src/Rpc/Dispatcher/Register.antt =====
-- RpcDispatcher::registerService: the service that a name stands for.
use netrpc.Base.{◌≡◌, Bytes, none, some, if◌then◌else◌, arith, Option-cases, inl, inr}
use netrpc.StdMap.{find, bytes_eq, bytes_key, bytes_eq_iff}
use netrpc.StdMap.Laws.{find-insert, insert-present}
use netrpc.Rpc.Dispatcher.{Protobuf, ServiceMap, register_service}

module _ (p : Protobuf) where
  open p use {Service, service_name}

  -- After registerService a name stands for the service that it stood for before; a name that
  -- stood for none stands for the new service if it is that service's name, and for none if not.
  pub register_service_lem :
      (s : Service) (services : ServiceMap p) (name : Bytes)
      → find name (register_service p s services) ≡ (elim (find name services) [
        | some first ↦ some first
        | none ↦ if bytes_eq name (service_name s) then some s else none
      ])
  unfolding register_service
  register_service_lem s services name = elim (Option-cases (find (service_name s) services)) [
    | inl e ↦ ground (
      arith,
      bytes_eq_iff name (service_name s),
      find-insert (service_name s) name s services e,
      Option-cases (find name services),
    )
    | inr (t, e) ↦ ground (
      arith,
      bytes_eq_iff name (service_name s),
      insert-present (service_name s) s t services e,
      Option-cases (find name services),
    )
  ]
