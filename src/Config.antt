-- ===== src/Config.antt =====
-- Config::Init of netrpc/common/config.{h,cc}. TinyXML is not part of the repository: a document
-- that it has loaded is a parameter. The two macros exit where a node or its text is missing; a text
-- that is null where the code does not look is a fault.
use netrpc.Base.{
  Bytes, codes, Result, Error, ok, err, fault, exited, ◌>>=◌, ℤ, pos, Option, none, some, List, [],
  ◌∷◌,
}
use netrpc.StdMap.{insert, bytes_key}
use netrpc.Decimal.{atoi}
use netrpc.NetAddr.{IpNetAddr, to_uint16}

-- The elements of a document: the children of a name, in the order in which FirstChildElement and
-- NextSiblingElement give them, and GetText.
pub record Xml : Type 1 where
  pub Node : Type 0
  pub children : Node → Bytes → List Node
  pub text : Node → Option Bytes

pub record RpcStub : Type 0 where
  pub name : Bytes
  pub addr : IpNetAddr
  pub timeout : ℤ

pub record Config : Type 0 where
  pub log_level : Bytes
  pub log_file_name : Bytes
  pub log_file_path : Bytes
  pub log_max_file_size : ℤ
  pub log_sync_interval : ℤ
  pub ip : Bytes
  pub port : ℤ
  pub io_threads : ℤ
  pub rpc_stubs : List (Bytes × RpcStub)
  pub zk_ip : Bytes
  pub zk_port : Bytes

module _ (xml : Xml) where
  open xml use {Node, children, text}

  abbrev pub first_child : Node → Bytes → Option Node
  first_child parent name = elim (children parent name) [ [] ↦ none | node ∷ _ ↦ some node ]

  -- READ_XML_NODE
  unfoldable pub read_node : Node → Bytes → Result Node
  read_node parent name = elim (first_child parent name) [ none ↦ err exited | some node ↦ ok node ]

  abbrev pub text_or : Error → Option Bytes → Result Bytes
  text_or error none = err error
  text_or error (some t) = ok t

  -- READ_STR_FROM_XML_NODE
  unfoldable pub read_str : Node → Bytes → Result Bytes
  read_str parent name = do node ← read_node parent name; text_or exited (text node)

  -- node->FirstChildElement(name)->GetText(), as a std::string or for atoi.
  unfoldable pub child_text : Node → Bytes → Result Bytes
  child_text parent name = elim (first_child parent name) [
    | none ↦ err fault
    | some node ↦ text_or fault (text node)
  ]

  -- The body of the loop over the stubs.
  unfoldable pub read_stub : Node → Result RpcStub
  read_stub node = do
    name ← child_text node (codes "name")
    timeout ← child_text node (codes "timeout")
    ip ← child_text node (codes "ip")
    port ← child_text node (codes "port")
    ok (record {
      name = name;
      addr = record { ip = ip; port = to_uint16 (atoi port) };
      timeout = atoi timeout;
    })

  unfoldable pub read_stubs : List Node → List (Bytes × RpcStub) → Result (List (Bytes × RpcStub))
  read_stubs [] stubs = ok stubs
  read_stubs (node ∷ nodes) stubs = do
    stub ← read_stub node
    read_stubs nodes (insert stub.name stub stubs)

  -- The stubs of the node "stubs", where there is one.
  unfoldable pub read_all_stubs : Node → List (Bytes × RpcStub) → Result (List (Bytes × RpcStub))
  read_all_stubs root stubs = elim (first_child root (codes "stubs")) [
    | none ↦ ok stubs
    | some node ↦ read_stubs (children node (codes "rpc_server")) stubs
  ]

  unfoldable pub read_log : Node → Config → Result Config
  read_log node config = do
    log_level ← read_str node (codes "log_level")
    log_file_name ← read_str node (codes "log_file_name")
    log_file_path ← read_str node (codes "log_file_path")
    log_max_file_size ← read_str node (codes "log_max_file_size")
    log_sync_interval ← read_str node (codes "log_sync_interval")
    ok (record config {
      log_level = log_level;
      log_file_name = log_file_name;
      log_file_path = log_file_path;
      log_max_file_size = atoi log_max_file_size;
      log_sync_interval = atoi log_sync_interval;
    })

  unfoldable pub read_server : Node → Config → Result Config
  read_server node config = do
    ip ← read_str node (codes "ip")
    port ← read_str node (codes "port")
    io_threads ← read_str node (codes "io_threads")
    ok (record config { ip = ip; port = atoi port; io_threads = atoi io_threads })

  unfoldable pub read_zk_config : Node → Config → Result Config
  read_zk_config node config = do
    zk_ip ← read_str node (codes "zk_ip")
    zk_port ← read_str node (codes "zk_port")
    ok (record config { zk_ip = zk_ip; zk_port = zk_port })

  -- Init, on a document that LoadFile has read; its child `root` is the root of the settings.
  unfoldable pub init_config : Node → Config → Result Config
  init_config document config = do
    root ← read_node document (codes "root")
    log ← read_node root (codes "log")
    server ← read_node root (codes "server")
    zk_config ← read_node root (codes "zk_config")
    with_log ← read_log log config
    with_server ← read_server server with_log
    with_zk ← read_zk_config zk_config with_server
    rpc_stubs ← read_all_stubs root config.rpc_stubs
    ok (record with_zk { rpc_stubs = rpc_stubs })

-- The Config of the process before Init.
abbrev pub new_config : Config
new_config = record {
  log_level = codes "DEBUG";
  log_file_name = [];
  log_file_path = [];
  log_max_file_size = pos 0;
  log_sync_interval = pos 0;
  ip = [];
  port = pos 0;
  io_threads = pos 0;
  rpc_stubs = [];
  zk_ip = codes "127.0.0.1";
  zk_port = codes "0";
}
