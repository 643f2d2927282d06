-- ===== src/NetAddr/RoundTrip.antt =====
-- An address reads back what it prints.
use netrpc.Base.{
  ℕ, ◌^◌, ◌<◌, ◌≡◌, refl, ap, Bytes, not, ◌&&◌, ◌==◌, some, [], ◌∷◌, ◌++◌, pos, to_word, arith,
}
use netrpc.StdMap.{bytes_eq}
use netrpc.Decimal.{decimal}
use netrpc.Decimal.Laws.{atoi-decimal, decimal-nonempty}
use netrpc.Rpc.ServiceName.{Without, find_first_of-append, substr-append}
use netrpc.NetAddr.{IpNetAddr, colon, to_uint16, split_addr, is_valid_text, parse_addr, to_string}

pub split_addr-append :
    (ip port : Bytes) → Without colon ip → split_addr (ip ++ (colon ∷ port)) ≡ some (ip, port)
unfolding split_addr
split_addr-append ip port h =
    rw (find_first_of-append colon 0 ip port h, split_addr) (ap some (substr-append colon ip port))

to_uint16-pos : (n : ℕ) → n < 2 ^ 16 → to_uint16 (pos n) ≡ n
unfolding to_uint16 to_word
to_uint16-pos n h = omega arith

pub parse_addr-to_string :
    (a : IpNetAddr) → Without colon a.ip → a.port < 2 ^ 16 → parse_addr (to_string a) ≡ a
unfolding parse_addr to_string
parse_addr-to_string a h small =
    rw (split_addr-append a.ip (decimal a.port) h, parse_addr)
      (rw (atoi-decimal a.port) (rw (to_uint16-pos a.port small) refl))

-- The check reads the port as a number.
is_valid_text-to_string :
    (a : IpNetAddr)
    → Without colon a.ip
    → a.port < 2 ^ 16
    → is_valid_text (to_string a) ≡ not (bytes_eq a.ip []) && not (a.port == 0)
unfolding is_valid_text to_string bytes_eq
is_valid_text-to_string a h small =
    let (c, cs, same) = decimal-nonempty a.port in
    rw (split_addr-append a.ip (decimal a.port) h, is_valid_text)
      (rw (atoi-decimal a.port) (rw same (ground arith)))

-- For an address whose ip has no colon and whose port fits in 16 bits: the constructor reads back
-- the address that toString printed, and CheckValid accepts that text exactly when the ip is not
-- empty and the port is not 0.
pub addr_text_lem :
    (a : IpNetAddr)
    → Without colon a.ip
    → a.port < 2 ^ 16
    → (parse_addr (to_string a) ≡ a)
      × (is_valid_text (to_string a) ≡ not (bytes_eq a.ip []) && not (a.port == 0))
addr_text_lem a h small = (parse_addr-to_string a h small, is_valid_text-to_string a h small)
