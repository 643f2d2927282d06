-- ===== src/ZkClient.antt =====
-- ZkClient of netrpc/common/zookeeperutil.h, zookeeperuitl.cc, and the part of
-- RpcDispatcher::registerService that publishes the services through it. ZooKeeper's client library
-- and server are a parameter.
pub mod Text
pub mod Register
pub mod Allowed
pub mod Discover
mod Tree
mod Tests
use netrpc.Base.{
  ℕ, zero, suc, Bytes, codes, Bool, true, false, ltb, Result, ok, err, fault, out_of_fuel, exited,
  ◌>>=◌, ℤ, Option, none, some, List, [], ◌∷◌, ◌++◌, length, take, drop, if◌then◌else◌,
}
use netrpc.StdMap.{find, bytes_key}
use netrpc.Decimal.{decimal_int}
use netrpc.TinyPb.Decoder.{until_nul}
use netrpc.NetAddr.{colon}
use netrpc.Rpc.Dispatcher.{Protobuf, ServiceMap, register_service}

-- ZOK, ZNONODE, any other code.
pub data ZooCode : Type 0 where
  zok znonode zerror : ZooCode

-- What the code calls of ZooKeeper's library, on the state of the server.
pub record ZooKeeper : Type 1 where
  pub Zoo : Type 0
  pub zoo_exists : Bytes → Zoo → ZooCode
  -- the data, and whether the node is ephemeral
  pub zoo_create : Bytes → Bytes → Bool → Zoo → ZooCode × Zoo
  -- the data of the node, where the call returns ZOK
  pub zoo_get : Bytes → Zoo → Option Bytes
  -- of its Stat: whether a node that is there is ephemeral; the code does not ask
  pub is_ephemeral : Bytes → Zoo → Bool

-- What zookeeper_init leads to: a null handle; the session's event before zoo_set_context has set the
-- semaphore, behind it, or never.
pub data Session : Type 0 where
  no_handle connected_early connected_late never_connected : Session

-- ZkClient::Start, with the post of global_watcher: one on the null context is a fault, and without
-- one the wait does not end.
unfoldable pub start : Session → Result (Unit {0})
start no_handle = err exited
start connected_early = err fault
start connected_late = ok tt
start never_connected = err out_of_fuel

-- The sprintf of registerService to an array of 128 bytes.
unfoldable pub host_text : Bytes → ℤ → Result Bytes
host_text ip port =
    let text = until_nul ip ++ (colon ∷ decimal_int port) in
    if ltb (length text) 128 then ok text else err fault

-- An array of `n` bytes that is not initialised.
unfoldable pub buffer_of : ℕ → (ℕ → ℕ) → Bytes
buffer_of zero memory = []
buffer_of (suc n) memory = memory 0 ∷ buffer_of n (λ i. memory (suc i))

abbrev pub service_path : Bytes → Bytes
service_path name = codes "/" ++ name

abbrev pub method_path : Bytes → Bytes → Bytes
method_path name method = service_path name ++ codes "/" ++ method

module _ (zk : ZooKeeper) where
  open zk use {Zoo, zoo_exists, zoo_create, zoo_get}

  unfoldable pub created : ZooCode × Zoo → Result Zoo
  created (zok, zoo) = ok zoo
  created (znonode, zoo) = err exited
  created (zerror, zoo) = err exited

  -- ZkClient::Create: a node that is there, or that cannot be looked for, is left alone.
  unfoldable pub create : Bytes → Bytes → Bool → Zoo → Result Zoo
  create path bytes is_ephemeral zoo = elim (zoo_exists path zoo) [
    | znonode ↦ created (zoo_create path bytes is_ephemeral zoo)
    | _ ↦ ok zoo
  ]

  -- The std::string of an array: a fault where it holds no NUL.
  unfoldable pub array_string : Bytes → Result Bytes
  array_string array =
      if ltb (length (until_nul array)) (length array) then ok (until_nul array) else err fault

  -- ZkClient::GetData, with the memory in which its array of 64 bytes is made: zoo_get stores the
  -- data in it, as much as fits, and no NUL behind.
  unfoldable pub get_data : Bytes → (ℕ → ℕ) → Zoo → Result Bytes
  get_data path memory zoo = elim (zoo_get path zoo) [
    | none ↦ ok []
    | some bytes ↦ array_string (take 64 bytes ++ drop (length bytes) (buffer_of 64 memory))
  ]

  -- `methods` is the order of the service's m_methodMap, an unordered map.
  module _ (p : Protobuf) (methods : p.Service → List Bytes) (ip : Bytes) (port : ℤ) where
    unfoldable pub register_methods : Bytes → List Bytes → Zoo → Result Zoo
    register_methods name [] zoo = ok zoo
    register_methods name (method ∷ rest) zoo = do
      text ← host_text ip port
      zoo' ← create (method_path name method) text true zoo
      register_methods name rest zoo'

    unfoldable pub register_nodes : ServiceMap p → Zoo → Result Zoo
    register_nodes [] zoo = ok zoo
    register_nodes ((name, s) ∷ services) zoo = do
      zoo₁ ← create (service_path name) [] false zoo
      zoo₂ ← register_methods name (methods s) zoo₁
      register_nodes services zoo₂

    -- RpcDispatcher::registerService, on the settings of Config.
    unfoldable pub register_and_publish :
        Session → p.Service → ServiceMap p → Zoo → Result (ServiceMap p × Zoo)
    register_and_publish session s services zoo = do
      let services' = register_service p s services
      _ ← start session
      zoo' ← register_nodes services' zoo
      ok (services', zoo')
