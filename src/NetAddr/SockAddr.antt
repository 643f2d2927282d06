-- ===== src/NetAddr/SockAddr.antt =====
-- The sockaddr_in of an IPNetAddr, in netrpc/net/tcp/net_addr.cc: what the constructors store for
-- the socket library, and the constructor from one, which accept and getsockname lead to. AF_INET,
-- inet_addr, inet_ntoa, htons and ntohs are the C library's.
use netrpc.Base.{ℕ, ◌^◌, ◌<◌, ◌≡◌, Bytes, none, some}
use netrpc.NetAddr.{IpNetAddr, colon, split_addr, parse_addr, to_string}
use netrpc.NetAddr.RoundTrip.{split_addr-append, parse_addr-to_string}
use netrpc.Decimal.{decimal}
use netrpc.Rpc.ServiceName.{Without}

pub record SockaddrIn : Type 0 where
  pub sin_family : ℕ
  pub sin_addr : ℕ
  pub sin_port : ℕ

module _ (af_inet : ℕ) (inet_addr : Bytes → ℕ) (htons : ℕ → ℕ) where
  -- What the constructors from an ip and a port, and from a text, store in m_addr.
  unfoldable pub store_addr : IpNetAddr → SockaddrIn
  store_addr a = record { sin_family = af_inet; sin_addr = inet_addr a.ip; sin_port = htons a.port }

  -- m_addr behind the constructor from a text: without a colon nothing is stored in it, and it
  -- keeps what stood in its memory.
  unfoldable pub parse_sock_addr : Bytes → SockaddrIn → SockaddrIn
  parse_sock_addr addr uninitialised = elim (split_addr addr) [
    | none ↦ uninitialised
    | some parts ↦ store_addr (parse_addr addr)
  ]

-- The constructor from a sockaddr_in.
unfoldable pub load_addr : (ℕ → Bytes) → (ℕ → ℕ) → SockaddrIn → IpNetAddr
load_addr inet_ntoa ntohs addr = record { ip = inet_ntoa addr.sin_addr; port = ntohs addr.sin_port }

split_addr-to_string :
    (a : IpNetAddr) → Without colon a.ip → split_addr (to_string a) ≡ some (a.ip, decimal a.port)
unfolding to_string
split_addr-to_string a h = split_addr-append a.ip (decimal a.port) h

-- For an ip without a colon that inet_ntoa prints as it was read, and a port of 16 bits whose order
-- of bytes ntohs restores: the address that is built from the sockaddr_in of the text that toString
-- prints is the first address, whatever its memory held.
load_addr-parse_sock_addr :
    (af_inet : ℕ) (inet_addr : Bytes → ℕ) (inet_ntoa : ℕ → Bytes) (htons ntohs : ℕ → ℕ)
    (a : IpNetAddr) (uninitialised : SockaddrIn)
    → Without colon a.ip
    → a.port < 2 ^ 16
    → inet_ntoa (inet_addr a.ip) ≡ a.ip
    → ntohs (htons a.port) ≡ a.port
    → load_addr inet_ntoa ntohs
        (parse_sock_addr af_inet inet_addr htons (to_string a) uninitialised)
      ≡ a
unfolding load_addr parse_sock_addr store_addr
load_addr-parse_sock_addr af_inet inet_addr inet_ntoa htons ntohs a uninitialised h small same
      restored =
    rw (split_addr-to_string a h, parse_addr-to_string a h small, parse_sock_addr) cc
