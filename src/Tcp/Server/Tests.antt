-- ===== src/Tcp/Server/Tests.antt =====
-- A server on the loopback interface, with two IO threads, and three clients.
use netrpc.Base.{
  ℕ, ◌<◌, ◌≡◌, ok, some, pos, false, true, none, refl, List, [], ◌∷◌, ◌%◌, codes, length, get_elem?,
  map, arith,
}
use netrpc.StdMap.{bytes_eq}
use netrpc.FdEvent.{new_fd_event, handler, in_event, new_group}
use netrpc.FdEvent.Group.{Indexed, new_events-Indexed, length-new_events}
use netrpc.EventLoop.{EventLoop, has_fd}
use netrpc.Timer.{Timer, new_event}
use netrpc.NetAddr.{IpNetAddr, check_valid}
use netrpc.Tcp.Acceptor.{SocketResults}
use mathlib.Core.List.{Perm}
use netrpc.Tcp.Connection.{TcpConnection}
use netrpc.Tcp.Server.{TcpServer}
use netrpc.Tcp.Server.Turns.{accept_all, AllConnected}
use netrpc.Tcp.Server.Init.{Load, Running, init, init-accept_all}

abbrev local_addr : IpNetAddr
local_addr = record { ip = codes "127.0.0.1"; port = 12346 }

abbrev results : SocketResults
results = record { socket = pos 6; is_bound = true; listens = true }

abbrev load : Load
load = record { cpu_high = false; load_high = false; cpu_low = true; load_low = false }

abbrev main_loop : EventLoop
main_loop = record {
  event = new_fd_event;
  listen_fds = 5 ∷ 4 ∷ [];
  pending_tasks = [];
  epoll_calls = [];
  wakeups = 0;
  quit = false;
}

abbrev timer : Timer
timer = record {
  event = λ i. new_event (pos 0) (pos 0) false none;
  pending_events = [];
  value = none;
  clock = λ i. pos i;
  reads = 0;
}

abbrev accepted : List (ℕ × (ℕ × IpNetAddr))
accepted = (0, (7, local_addr)) ∷ (0, (200, local_addr)) ∷ (1, (8, local_addr)) ∷ []

is_valid : check_valid (λ ip. 127) local_addr ≡ true
unfolding check_valid bytes_eq
is_valid = refl

group-Indexed : Indexed 0 (new_group 128)
unfolding new_group
group-Indexed = new_events-Indexed 128 0

length-group : length (new_group 128) ≡ 128
unfolding new_group
length-group = length-new_events 128 0

init-accept_all_example :
    (r : Running) × (s : TcpServer) × (init 1 2 0
        (λ ip. 127)
        results
        load
        4
        (new_group 128)
        local_addr
        main_loop
        timer
      ≡ ok r)
    × (has_fd 6 r.main_loop.listen_fds ≡ true)
    × (handler in_event (r.main_loop.event 6) ≡ some 1)
    × (accept_all r.threads accepted r.server ≡ ok s)
    × (s.client_counts ≡ 3)
    × ((new : List (ℕ × TcpConnection)) × Perm s.clients new
        × AllConnected new
        × (length new ≡ 3)
        × ((i : ℕ) → i < 3 → get_elem? (map (λ c. c.0) new) i ≡ some (i % length r.threads)))
init-accept_all_example =
    init-accept_all 1 2 0 (λ ip. 127) results load 4 (new_group 128) local_addr main_loop timer 6
      accepted is_valid refl refl refl (omega arith) group-Indexed (omega (arith, length-group))
