-- ===== src/ZkClient/Text.antt =====
-- The NUL of a C string, and the text of an address, which holds none.
use netrpc.Base.{ℕ, zero, suc, ◌/◌, ◌≡◌, refl, Bytes, [], ◌∷◌, ◌++◌, ltb, if_both, arith}
use netrpc.Decimal.{decimal, decimal_from}
use netrpc.TinyPb.Decoder.{until_nul}
use netrpc.NetAddr.{IpNetAddr, colon, to_string}
use netrpc.Rpc.ServiceName.{Without}

-- A text without NUL, in front of one.
pub until_nul-append : (text rest : Bytes) → Without 0 text → until_nul (text ++ (0 ∷ rest)) ≡ text
unfolding until_nul
until_nul-append [] rest h = refl
until_nul-append (c ∷ cs) rest h = ground (arith, until_nul-append cs rest h.1, h.0)

pub until_nul-all : (text : Bytes) → Without 0 text → until_nul text ≡ text
unfolding until_nul
until_nul-all [] h = refl
until_nul-all (c ∷ cs) h = ground (arith, until_nul-all cs h.1, h.0)

Without-append : (c : ℕ) (xs ys : Bytes) → Without c xs → Without c ys → Without c (xs ++ ys)
Without-append c [] ys h k = k
Without-append c (x ∷ xs) ys h k = (h.0, Without-append c xs ys h.1 k)

Without-decimal_from : (fuel n : ℕ) → Without 0 (decimal_from fuel n)
unfolding decimal_from
Without-decimal_from zero n = tt
Without-decimal_from (suc fuel) n =
    Without-append 0 _ (_ ∷ [])
      (if_both (Without 0) (ltb n 10) tt (Without-decimal_from fuel (n / 10))) (ground arith, tt)

pub Without-to_string : (a : IpNetAddr) → Without 0 a.ip → Without 0 (to_string a)
unfolding to_string
Without-to_string a h =
    Without-append 0 a.ip (colon ∷ decimal a.port) h
      (ground arith, Without-decimal_from (suc a.port) a.port)

pub to_string-nonempty : (a : IpNetAddr) → (c : ℕ) × (cs : Bytes) × (to_string a ≡ c ∷ cs)
unfolding to_string
to_string-nonempty a = by_ip a.ip
  where
    by_ip : (ip : Bytes) → (c : ℕ) × (cs : Bytes) × (ip ++ (colon ∷ decimal a.port) ≡ c ∷ cs)
    by_ip [] = (colon, decimal a.port, refl)
    by_ip (c ∷ cs) = (c, cs ++ (colon ∷ decimal a.port), refl)
