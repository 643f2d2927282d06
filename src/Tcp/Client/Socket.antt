-- ===== src/Tcp/Client/Socket.antt =====
-- The socket of a TcpClient, in netrpc/net/tcp/tcp_client.{h,cc}: what the constructor, connect with
-- its callback, initLocalAddr and the destructor do to m_fd and m_local_addr, and stop. What the
-- calls of the socket library return is an argument; `load` is the constructor of an IPNetAddr from
-- what getsockname stores.
use mathlib.Core.List.{append-nil}
use netrpc.Base.{
  ℕ, zero, suc, ◌≡◌, refl, ap, ◌∙◌, Bool, ℤ, pos, negsuc, Option, none, some, List, [], ◌∷◌, ◌++◌,
  if◌then◌else◌, leb_ℤ, not, arith,
}
use netrpc.NetAddr.{IpNetAddr}
use netrpc.NetAddr.SockAddr.{SockaddrIn}
use netrpc.Tcp.Client.{ConnectResult, success, in_progress, refused, failed}
use netrpc.EventLoop.{EventLoop, stop}

-- The descriptors that ::socket has given the client and that it has closed, in order, stand for
-- those of the process.
pub record ClientSocket : Type 0 where
  pub fd : ℤ
  -- of m_fd_event and of m_connection, which a client without a first socket does not have
  pub event_fd : Option ℕ
  pub local_addr : Option IpNetAddr
  pub opened : List ℕ
  pub closed : List ℕ

-- A result of ::socket below 0 is no descriptor, and closing it does nothing.
abbrev pub descriptor : ℤ → List ℕ
descriptor (pos n) = n ∷ []
descriptor (negsuc n) = []

abbrev pub event_of : ℤ → Option ℕ
event_of (pos n) = some n
event_of (negsuc n) = none

-- The constructor, on what ::socket returns.
unfoldable pub open_socket : ℤ → ClientSocket
open_socket fd = record {
  fd = fd;
  event_fd = event_of fd;
  local_addr = none;
  opened = descriptor fd;
  closed = [];
}

unfoldable pub close_fd : ClientSocket → ClientSocket
close_fd s = record s { closed = s.closed ++ descriptor s.fd }

-- close, and another ::socket with the result `fd`; the events keep the old one.
unfoldable pub replace_fd : ℤ → ClientSocket → ClientSocket
replace_fd fd s = record (close_fd s) { fd = fd; opened = s.opened ++ descriptor fd }

-- The destructor.
unfoldable pub close_client : ClientSocket → ClientSocket
close_client s = if not (leb_ℤ s.fd (pos 0)) then close_fd s else s

-- Of the descriptors, the destructor takes 0 for none.
abbrev pub left_open : ℤ → List ℕ
left_open (pos zero) = 0 ∷ []
left_open (pos (suc n)) = []
left_open (negsuc n) = []

-- isLooping is true from the first call of loop on.
unfoldable pub stop_client : Bool → EventLoop → EventLoop
stop_client is_looping l = if is_looping then stop l else l

module _ (load : SockaddrIn → IpNetAddr) where
  -- Where getsockname fails the address stays.
  unfoldable pub init_local_addr : Option SockaddrIn → ClientSocket → ClientSocket
  init_local_addr none s = s
  init_local_addr (some addr) s = record s { local_addr = some (load addr) }

  -- connect, before it returns.
  unfoldable pub connect_socket : ConnectResult → Option SockaddrIn → ClientSocket → ClientSocket
  connect_socket success name s = init_local_addr name s
  connect_socket in_progress name s = s
  connect_socket (refused text) name s = s
  connect_socket (failed text) name s = s

  -- Its callback, where another ::socket returns `fd`.
  unfoldable pub end_connect_socket :
      ConnectResult → Option SockaddrIn → ℤ → ClientSocket → ClientSocket
  end_connect_socket success name fd s = init_local_addr name s
  end_connect_socket in_progress name fd s = replace_fd fd s
  end_connect_socket (refused text) name fd s = replace_fd fd s
  end_connect_socket (failed text) name fd s = replace_fd fd s

  -- The calls of connect and the runs of its callback, in their order.
  pub data SocketStep (s : ClientSocket) : ClientSocket → Type 0 where
    connects :
        (result : ConnectResult) (name : Option SockaddrIn)
        → SocketStep s (connect_socket result name s)
    ends :
        (result : ConnectResult) (name : Option SockaddrIn) (fd : ℤ)
        → SocketStep s (end_connect_socket result name fd s)

  pub data SocketSteps (s : ClientSocket) : ClientSocket → Type 0 where
    here : SocketSteps s s
    next : {t u : ClientSocket} → SocketSteps s t → SocketStep t u → SocketSteps s u

  -- What was opened is closed, but for the socket in hand.
  abbrev OneInHand : ClientSocket → Type 0
  OneInHand s = s.closed ++ descriptor s.fd ≡ s.opened

  replace_fd-OneInHand : (fd : ℤ) (s : ClientSocket) → OneInHand s → OneInHand (replace_fd fd s)
  unfolding replace_fd close_fd
  replace_fd-OneInHand fd s h = ap (λ fds. fds ++ descriptor fd) h

  init_local_addr-OneInHand :
      (name : Option SockaddrIn) (s : ClientSocket)
      → OneInHand s
      → OneInHand (init_local_addr name s)
  unfolding init_local_addr
  init_local_addr-OneInHand none s h = h
  init_local_addr-OneInHand (some addr) s h = h

  step-OneInHand : {s t : ClientSocket} → SocketStep s t → OneInHand s → OneInHand t
  unfolding connect_socket end_connect_socket
  step-OneInHand {s} (connects success name) h = init_local_addr-OneInHand name s h
  step-OneInHand (connects in_progress name) h = h
  step-OneInHand (connects (refused text) name) h = h
  step-OneInHand (connects (failed text) name) h = h
  step-OneInHand {s} (ends success name fd) h = init_local_addr-OneInHand name s h
  step-OneInHand {s} (ends in_progress name fd) h = replace_fd-OneInHand fd s h
  step-OneInHand {s} (ends (refused text) name fd) h = replace_fd-OneInHand fd s h
  step-OneInHand {s} (ends (failed text) name fd) h = replace_fd-OneInHand fd s h

  open_socket-OneInHand : (fd : ℤ) → OneInHand (open_socket fd)
  unfolding open_socket
  open_socket-OneInHand fd = refl

  steps-OneInHand : (first : ℤ) {s : ClientSocket} → SocketSteps (open_socket first) s → OneInHand s
  steps-OneInHand first here = open_socket-OneInHand first
  steps-OneInHand first (next steps step) = step-OneInHand step (steps-OneInHand first steps)

  close_client-OneInHand :
      (fd : ℤ) (s : ClientSocket)
      → OneInHand (record s { fd = fd })
      → ((close_client (record s { fd = fd })).opened ≡ s.opened)
        × ((close_client (record s { fd = fd })).closed ++ left_open fd ≡ s.opened)
  unfolding close_client close_fd
  close_client-OneInHand (pos zero) s h = (refl, h)
  close_client-OneInHand (pos (suc n)) s h =
      let all : s.closed ++ (suc n ∷ []) ++ [] ≡ s.opened = append-nil _ ∙ h in ground (arith, all)
  close_client-OneInHand (negsuc n) s h =
      let all : s.closed ++ [] ≡ s.opened = h in ground (arith, all)

  -- Behind any number of calls of connect and of runs of its callback, whatever their results: the
  -- destructor leaves every descriptor that ::socket gave the client closed, once each and in the
  -- order in which they were opened, but for the last one where that is the descriptor 0.
  pub close_client-SocketSteps :
      (first : ℤ) (s : ClientSocket)
      → SocketSteps (open_socket first) s
      → ((close_client s).opened ≡ s.opened)
        × ((close_client s).closed ++ left_open s.fd ≡ s.opened)
  close_client-SocketSteps first s steps =
      close_client-OneInHand s.fd s (steps-OneInHand first steps)
