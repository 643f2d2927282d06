-- ===== src/NetAddr.antt =====
-- IPNetAddr of netrpc/net/tcp/net_addr.{h,cc}: the text ip:port, its check and its parse; SockAddr
-- has the sockaddr_in that the constructors fill from the two fields.
pub mod RoundTrip
pub mod SockAddr
use netrpc.Base.{
  ℕ, ◌+◌, ◌-◌, ◌%◌, ◌^◌, Bytes, Bool, true, false, not, ◌||◌, ◌==◌, Option, none, some, [], ◌∷◌,
  ◌++◌, ℤ, pos, negsuc, leb_ℤ, ltb, length, drop, to_word, if◌then◌else◌,
}
use netrpc.StdMap.{bytes_eq}
use netrpc.Decimal.{decimal, atoi}
use netrpc.Rpc.ServiceName.{find_first_of, substr}

pub record IpNetAddr : Type 0 where
  pub ip : Bytes
  -- a uint16_t
  pub port : ℕ

abbrev pub colon : ℕ
colon = b':'

-- An int stored in a uint16_t.
unfoldable pub to_uint16 : ℤ → ℕ
to_uint16 n = to_word n % 2 ^ 16

-- The two parts that both the check and the constructor cut the text into at its first colon.
unfoldable pub split_addr : Bytes → Option (Bytes × Bytes)
split_addr addr = elim (find_first_of colon 0 addr) [
  | none ↦ none
  | some i ↦ some (substr addr 0 i, substr addr (i + 1) (length addr - i - 1))
]

-- IPNetAddr::CheckValid, of a text.
unfoldable pub is_valid_text : Bytes → Bool
is_valid_text addr = elim (split_addr addr) [
  | none ↦ false
  | some (ip, port) ↦
      if bytes_eq ip [] || bytes_eq port []
      then false
      else let iport = atoi port in
        if leb_ℤ iport (pos 0) || not (leb_ℤ iport (pos 65536)) then false else true
]

-- The constructor from a text; without a colon the fields keep what they are initialised with.
unfoldable pub parse_addr : Bytes → IpNetAddr
parse_addr addr = elim (split_addr addr) [
  | none ↦ record { ip = []; port = 0 }
  | some (ip, port) ↦ record { ip = ip; port = to_uint16 (atoi port) }
]

unfoldable pub to_string : IpNetAddr → Bytes
to_string a = a.ip ++ (colon ∷ decimal a.port)

-- The member checkValid. inet_addr is the C library's; INADDR_NONE is its result on a failure.
unfoldable pub check_valid : (Bytes → ℕ) → IpNetAddr → Bool
check_valid inet_addr a =
    if bytes_eq a.ip []
    then false
    else if ltb a.port 0 || ltb 65536 a.port
    then false
    else if inet_addr a.ip == 2 ^ 32 - 1
    then false
    else true
