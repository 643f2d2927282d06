-- ===== src/Tcp/Server/Init.antt =====
-- TcpServer::init, with the constructor of its IOThreadGroup: the listening socket, the threads by
-- number, and what the main loop and its timer get.
use mathlib.Core.List.{Perm}
use native.Mathlib.Nat.{mod-lt}
use netrpc.Base.{
  ℕ, zero, suc, ◌+◌, ◌%◌, ◌<◌, ◌≤◌, ◌≡◌, refl, ◌∙◌, ap, Bytes, Bool, true, ◌==◌, Result, ok, ◌>>=◌,
  pos, none, some, List, [], ◌∷◌, length, get_elem?, map, if◌then◌else◌, Bool-cases, inl, inr,
  arith,
}
use netrpc.FdEvent.{FdEvent, in_event, new_fd_event, listen, handler}
use netrpc.FdEvent.Group.{Indexed}
use netrpc.EventLoop.{EventLoop, has_fd, add_to_epoll, add_epoll_event}
use netrpc.Timer.{Timer, now_ms, new_event, set_event, add_timer_event}
use netrpc.NetAddr.{IpNetAddr, check_valid}
use netrpc.LoadBalance.{thread_count}
use netrpc.Tcp.Acceptor.{TcpAcceptor, SocketResults, listen_on, new_tcp_acceptor}
use netrpc.Tcp.Connection.{TcpConnection}
use netrpc.Tcp.Server.{TcpServer}
use netrpc.Tcp.Server.Turns.{accept_all, AllConnected, accept_all-turns}

-- The IO threads of a group, by their places in its vector.
unfoldable pub thread_ids : ℕ → ℕ → List ℕ
thread_ids zero i = []
thread_ids (suc n) i = i ∷ thread_ids n (i + 1)

-- The four comparisons of the load in the constructor of IOThreadGroup.
pub record Load : Type 0 where
  pub cpu_high : Bool
  pub load_high : Bool
  pub cpu_low : Bool
  pub load_low : Bool

pub record Running : Type 0 where
  pub server : TcpServer
  pub acceptor : TcpAcceptor
  pub threads : List ℕ
  pub main_loop : EventLoop
  pub timer : Timer

-- m_listen_fd_event, an event of its own, with the number of its callback.
unfoldable pub listen_event : ℕ → ℕ → FdEvent
listen_event on_accept_cb fd = listen in_event (some on_accept_cb) none (new_fd_event fd)

unfoldable pub put_event : ℕ → FdEvent → EventLoop → EventLoop
put_event fd e l = record l { event = λ g. if g == fd then e else l.event g }

-- addEpollEvent of the listening event, from the thread of the main loop.
unfoldable pub add_listen_event : ℕ → ℕ → EventLoop → EventLoop
add_listen_event on_accept_cb fd l =
    add_epoll_event true fd (put_event fd (listen_event on_accept_cb fd) l)

-- The event of 5000 ms, and its add to the timer of the main loop.
unfoldable pub add_clear_event : ℕ → ℕ → Timer → Timer
add_clear_event clear_cb clear_event t = add_timer_event clear_event (
    set_event clear_event (new_event (now_ms t) (pos 5000) true (some clear_cb))
      (record t { reads = t.reads + 1 }))

-- The numbers stand for the two callbacks, and for the timer event.
module _ (on_accept_cb clear_cb clear_event : ℕ) where
  unfoldable pub init :
      (Bytes → ℕ)
      → SocketResults
      → Load
      → ℕ
      → List FdEvent
      → IpNetAddr
      → EventLoop
      → Timer
      → Result Running
  init inet_addr results load io_threads group local_addr main_loop timer = do
    acceptor ← new_tcp_acceptor inet_addr results local_addr
    ok (record {
      server = record { client_counts = 0; clients = []; thread_index = pos 0; fd_group = group };
      acceptor = acceptor;
      threads =
          thread_ids
            (thread_count io_threads load.cpu_high load.load_high load.cpu_low load.load_low) 0;
      main_loop = add_listen_event on_accept_cb acceptor.listen_fd main_loop;
      timer = add_clear_event clear_cb clear_event timer;
    })

thread_count_pos : (n : ℕ) (a b c d : Bool) → 0 < n → 0 < thread_count n a b c d
unfolding thread_count
thread_count_pos n a b c d h = ground arith

length-thread_ids : (n i : ℕ) → length (thread_ids n i) ≡ n
unfolding thread_ids
length-thread_ids zero i = refl
length-thread_ids (suc n) i = ap suc (length-thread_ids n (i + 1))

get_elem?-thread_ids : (n i k : ℕ) → k < n → get_elem? (thread_ids n i) k ≡ some (i + k)
unfolding thread_ids
get_elem?-thread_ids zero i k h = absurd (omega arith)
get_elem?-thread_ids (suc n) i zero h = ap some (omega arith)
get_elem?-thread_ids (suc n) i (suc k) h =
    get_elem?-thread_ids n (i + 1) k (omega arith) ∙ ap some (omega arith)

has_fd_self : (fd : ℕ) (fds : List ℕ) → has_fd fd (fd ∷ fds) ≡ true
unfolding has_fd
has_fd_self fd fds = ground arith

add_to_epoll-has_fd :
    (fd : ℕ) (l : EventLoop)
    → (has_fd fd (add_to_epoll fd l).listen_fds ≡ true) × ((add_to_epoll fd l).event ≡ l.event)
unfolding add_to_epoll
add_to_epoll-has_fd fd l = elim (Bool-cases (has_fd fd l.listen_fds)) [
  | inl e ↦ rw e (e, refl)
  | inr e ↦ rw e (has_fd_self fd l.listen_fds, refl)
]

listen_on_ok :
    (inet_addr : Bytes → ℕ) (results : SocketResults) (addr : IpNetAddr) (fd : ℕ)
    → check_valid inet_addr addr ≡ true
    → results.socket ≡ pos fd
    → results.is_bound ≡ true
    → results.listens ≡ true
    → new_tcp_acceptor inet_addr results addr ≡ ok (record { local_addr = addr; listen_fd = fd })
unfolding new_tcp_acceptor listen_on
listen_on_ok inet_addr results addr fd valid socket bound listens =
    rw (valid, socket, listen_on) (rw (bound, listens) refl)

listening :
    (cb fd : ℕ) (l : EventLoop)
    → (has_fd fd (add_listen_event cb fd l).listen_fds ≡ true)
      × (handler in_event ((add_listen_event cb fd l).event fd) ≡ some cb)
unfolding add_listen_event add_epoll_event put_event listen_event listen handler
listening cb fd l =
    let (has, same) = add_to_epoll-has_fd fd (put_event fd (listen_event cb fd) l) in
    (has, ap (λ event. handler in_event (event fd)) same ∙ ground arith)

-- On an address that checkValid accepts, with a socket that is bound and listens, some threads in the
-- settings, and a sound FdEventGroup: init returns; the main loop listens for the socket, with onAccept
-- as the callback; and then onAccept takes any clients in a row, wherever the addresses of their
-- connections fall: it counts them, and keeps one connection for each, connected, that of the `i`th
-- with the thread `i`, counted modulo the threads of the group.
pub init-accept_all :
    (on_accept_cb clear_cb clear_event : ℕ) (inet_addr : Bytes → ℕ) (results : SocketResults)
    (load : Load) (io_threads : ℕ) (group : List FdEvent) (addr : IpNetAddr) (main_loop : EventLoop)
    (timer : Timer) (fd : ℕ) (accepted : List (ℕ × (ℕ × IpNetAddr)))
    → check_valid inet_addr addr ≡ true
    → results.socket ≡ pos fd
    → results.is_bound ≡ true
    → results.listens ≡ true
    → 0 < io_threads
    → Indexed 0 group
    → 2 ≤ length group
    → (r : Running) × (s : TcpServer) × (init on_accept_cb clear_cb clear_event inet_addr results
          load io_threads group addr main_loop timer
        ≡ ok r)
      × (has_fd fd r.main_loop.listen_fds ≡ true)
      × (handler in_event (r.main_loop.event fd) ≡ some on_accept_cb)
      × (accept_all r.threads accepted r.server ≡ ok s)
      × (s.client_counts ≡ length accepted)
      × ((new : List (ℕ × TcpConnection)) × Perm s.clients new
          × AllConnected new
          × (length new ≡ length accepted)
          × ((i : ℕ)
              → i < length accepted
              → get_elem? (map (λ c. c.0) new) i ≡ some (i % length r.threads)))
unfolding init
init-accept_all on_accept_cb clear_cb clear_event inet_addr results load io_threads group addr
      main_loop timer fd accepted valid socket bound listens some_threads sound two =
    let n : ℕ = thread_count io_threads load.cpu_high load.load_high load.cpu_low load.load_low in
    let threads : List ℕ = thread_ids n 0 in
    let ne : 0 < length threads = omega (
      arith,
      length-thread_ids n 0,
      thread_count_pos io_threads load.cpu_high load.load_high load.cpu_low load.load_low
          some_threads,
    ) in
    let server : TcpServer = record {
      client_counts = 0;
      clients = [];
      thread_index = pos 0;
      fd_group = group;
    } in
    let (s, new, e, count, kept, all, size, turn) =
      accept_all-turns threads accepted server 0 refl ne (omega arith) sound two in
    let (has, calls) = listening on_accept_cb fd main_loop in
    let made = listen_on_ok inet_addr results addr fd valid socket bound listens in
    (
      record {
        server = server;
        acceptor = record { local_addr = addr; listen_fd = fd };
        threads = threads;
        main_loop = add_listen_event on_accept_cb fd main_loop;
        timer = add_clear_event clear_cb clear_event timer;
      },
      s,
      rw made refl,
      has,
      calls,
      e,
      omega (arith, count),
      (
        new,
        kept,
        all,
        size,
        λ i lt.
            turn i lt
            ∙ ap (λ j. get_elem? threads (j % length threads)) {x = 0 + i} {y = i} (omega arith)
            ∙ get_elem?-thread_ids n 0 (i % length threads)
                (omega (arith, mod-lt i {m = length threads} ne, length-thread_ids n 0))
            ∙ ap some (omega arith),
      ),
    )
