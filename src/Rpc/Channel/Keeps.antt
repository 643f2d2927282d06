-- ===== src/Rpc/Channel/Keeps.antt =====
-- What a property of the controller's finished flag and of the runs of the closure needs, for each
-- step of the channel to keep it.
use netrpc.Base.{ℕ, ◌≡◌, Bytes, Bool, true, false, Option, List, [], ◌∷◌, ◌++◌, is_zero}
use netrpc.Tcp.Connection.Events.{stop_writing}
use netrpc.TinyPb.Protocol.{TinyPbProtocol}
use netrpc.Tcp.Client.{TcpClient, ConnectResult, connect, end_connect, write_message, read_message}
use netrpc.Rpc.Controller.{RpcController}
use netrpc.Rpc.Channel.{put_connection}

abbrev pub Run : Type 0
Run = RpcController × Option Bytes

-- A property of the finished flag and the runs, and one of the client, which the steps keep.
pub record Keeps (P : Bool → List Run → Type 0) (Q : TcpClient → Type 0) : Type 0 where
  pub run : (runs : List Run) (r : Run) → P false runs → P true (runs ++ (r ∷ []))
  pub cancel : (b : Bool) (runs : List Run) → P b runs → P true runs
  pub connects : (result : ConnectResult) (c : TcpClient) → Q c → Q (connect result c).0
  pub ends :
      (result : ConnectResult) (text : Bytes) (c : TcpClient) → Q c → Q (end_connect result text c)
  pub writes :
      (req : TinyPbProtocol) (c : TcpClient)
      → is_zero c.connect_error_code ≡ true
      → Q c
      → Q (put_connection (write_message req 0 c.connection) c)
  pub reads :
      (id : Bytes) (c : TcpClient) → Q c → Q (put_connection (read_message id 1 c.connection) c)
  pub stops :
      (all : Bool) (c : TcpClient) → Q c → Q (put_connection (stop_writing all c.connection) c)
  pub clears :
      (c : TcpClient) → Q c → Q (put_connection (record c.connection { write_dones = [] }) c)
  pub takes :
      (dones : List (Bytes × ℕ)) (c : TcpClient)
      → Q c
      → Q (put_connection (record c.connection { read_dones = dones }) c)

-- The property of the client that says nothing.
abbrev pub AnyClient : TcpClient → Type 0
AnyClient c = Unit

pub any_client :
    (P : Bool → List Run → Type 0)
    → ((runs : List Run) (r : Run) → P false runs → P true (runs ++ (r ∷ [])))
    → ((b : Bool) (runs : List Run) → P b runs → P true runs)
    → Keeps P AnyClient
any_client P run cancel = record {
  run = run;
  cancel = cancel;
  connects = λ result c q. tt;
  ends = λ result text c q. tt;
  writes = λ req c e q. tt;
  reads = λ id c q. tt;
  stops = λ all c q. tt;
  clears = λ c q. tt;
  takes = λ dones c q. tt;
}
