-- ===== src/Tcp/Server/Turns.antt =====
-- Which IO thread serves each new client.
use mathlib.Core.Path.{subst}
use mathlib.Core.List.{append_assoc, append-nil, Perm, perm_middle}
use mathlib.Core.List.Perm
use netrpc.Base.{
  ℕ, suc, ◌+◌, ◌%◌, ◌<◌, ◌≤◌, ◌≡◌, refl, sym, ok, ◌>>=◌, Result, some, pos, List, [], ◌∷◌, ◌++◌,
  length, length-append, get_elem?, map, All, arith, take, drop, take-append-drop,
}
use netrpc.FdEvent.{FdEvent}
use netrpc.FdEvent.Group.{Indexed, get_fd_event-Indexed}
use netrpc.NetAddr.{IpNetAddr}
use netrpc.LoadBalance.Rotation.{get_io_thread-turn, turns_cons}
use netrpc.Tcp.Acceptor.{accept}
use netrpc.Tcp.Connection.{TcpConnection, connected, by_server, open_connection, set_state}
use netrpc.Tcp.Server.{TcpServer, fd_event_of, insert_client, on_accept}

-- With some threads, and an m_index that is not past their number, in a process whose FdEventGroup is
-- sound: onAccept takes any client that ::accept has a file descriptor for. It counts it, keeps it
-- with the others, connected, with the thread whose turn it is, and passes the turn on.
pub on_accept-turn :
    (threads : List ℕ) (place fd : ℕ) (addr : IpNetAddr) (s : TcpServer) (index : ℕ)
    → s.thread_index ≡ pos index
    → 0 < length threads
    → index ≤ length threads
    → Indexed 0 s.fd_group
    → 2 ≤ length s.fd_group
    → (thread : ℕ) × (c : TcpConnection) × (index' : ℕ) × (more : List FdEvent) × (on_accept threads
          place
          (pos fd)
          addr
          s
        ≡ ok (record {
          client_counts = suc s.client_counts;
          clients = insert_client place (thread, c) s.clients;
          thread_index = pos index';
          fd_group = s.fd_group ++ more;
        }))
      × (c.state ≡ connected)
      × (get_elem? threads (index % length threads) ≡ some thread)
      × (index' ≤ length threads)
      × (index' % length threads ≡ (index + 1) % length threads)
      × Indexed 0 (s.fd_group ++ more)
unfolding on_accept set_state fd_event_of accept
on_accept-turn threads place fd addr s index at ne h sound two =
    let (thread, index', e, got, low, next) = get_io_thread-turn threads index ne h in
    let (event, more, found, _, _, sound') = get_fd_event-Indexed fd s.fd_group sound two in
    (
      thread,
      set_state connected (open_connection 128 by_server),
      index',
      more,
      rw (at, e, found),
      refl,
      got,
      low,
      next,
      sound',
    )

-- A pointer more, wherever its address falls.
insert_client-Perm :
    (place : ℕ) (c : ℕ × TcpConnection) (cs : List (ℕ × TcpConnection))
    → Perm (insert_client place c cs) (cs ++ (c ∷ []))
unfolding insert_client
insert_client-Perm place c cs = Perm.trans (perm_middle (take place cs) (drop place cs)) (
    subst (λ xs. Perm (c ∷ xs) (cs ++ (c ∷ []))) (sym (take-append-drop place cs))
      (subst (λ xs. Perm (c ∷ xs) (cs ++ (c ∷ []))) (append-nil cs)
        (Perm.symm (perm_middle cs []))))

-- Clients in a row: the place of the pointer, the file descriptor and the address of each.
abbrev pub accept_all : List ℕ → List (ℕ × (ℕ × IpNetAddr)) → TcpServer → Result TcpServer
accept_all threads [] s = ok s
accept_all threads ((place, (fd, addr)) ∷ more) s =
    on_accept threads place (pos fd) addr s >>= accept_all threads more

abbrev pub AllConnected : List (ℕ × TcpConnection) → Type 0
AllConnected = All (λ c. c.1.state ≡ connected)

-- With some threads, and an m_index that is not past their number, in a process whose FdEventGroup
-- has two events at least, all at their indices: onAccept takes clients in a row, whatever file
-- descriptors they get. It counts each, and keeps them with the others, connected, and the `i`th
-- of those accepted is served by the thread at m_index + i, counted modulo the number of the threads.
pub accept_all-turns :
    (threads : List ℕ) (accepted : List (ℕ × (ℕ × IpNetAddr))) (s : TcpServer) (index : ℕ)
    → s.thread_index ≡ pos index
    → 0 < length threads
    → index ≤ length threads
    → Indexed 0 s.fd_group
    → 2 ≤ length s.fd_group
    → (s' : TcpServer) × (new : List (ℕ × TcpConnection)) × (accept_all threads accepted s ≡ ok s')
      × (s'.client_counts ≡ s.client_counts + length accepted)
      × Perm s'.clients (s.clients ++ new)
      × AllConnected new
      × (length new ≡ length accepted)
      × ((i : ℕ)
          → i < length accepted
          → get_elem? (map (λ c. c.0) new) i ≡ get_elem? threads ((index + i) % length threads))
accept_all-turns threads [] s index at ne h sound two = (
  s,
  [],
  refl,
  omega arith,
  subst (Perm s.clients) (sym (append-nil s.clients)) (Perm.refl s.clients),
  tt,
  refl,
  λ i lt. absurd (omega arith),
)
accept_all-turns threads ((place, (fd, addr)) ∷ accepted) s index at ne h sound two =
    let (thread, c, index', more, e, open_, got, low, next, sound') =
      on_accept-turn threads place fd addr s index at ne h sound two in
    let s₁ : TcpServer = record {
      client_counts = suc s.client_counts;
      clients = insert_client place (thread, c) s.clients;
      thread_index = pos index';
      fd_group = s.fd_group ++ more;
    } in
    let (s', new, e', count, kept, all, size, turn) =
      accept_all-turns threads accepted s₁ index' refl ne low sound'
        (omega (arith, length-append s.fd_group more)) in
    (
      s',
      (thread, c) ∷ new,
      rw e e',
      omega (arith, count),
      Perm.trans kept (
          subst (Perm (insert_client place (thread, c) s.clients ++ new))
            (append_assoc s.clients ((thread, c) ∷ []) new)
            (Perm.append_right new (insert_client-Perm place (thread, c) s.clients))),
      (open_, all),
      omega (arith, size),
      turns_cons threads (map (λ d. d.0) new) thread (length accepted) index index' got next turn,
    )
