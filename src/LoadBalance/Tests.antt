-- ===== src/LoadBalance/Tests.antt =====
-- Three addresses in turn, and the ring of one host.
use netrpc.Base.{
  to_int32, ℕ, ◌+◌, ◌%◌, ◌<◌, ◌≡◌, refl, ok, err, Result, Returns, ◌>>=◌, Bytes, codes, Bool, true,
  false, none, at, List, [], ◌∷◌, length, get_elem?, arith,
}
use netrpc.StdMap.{find, insert, assign, place, erase, bytes_key}
use netrpc.Decimal.{decimal_from}
use netrpc.Murmur.{rotate_left}
use netrpc.Md5.{
  to_uint64, f_function, g_function, h_function, i_function, mix, word_of, mix_four, mix_round,
  calculate_block, pad_zeros, fill, memory_bytes, padding, compute, digest_word, gen_digest, digest,
}
use netrpc.NetAddr.{IpNetAddr, to_string}
use netrpc.TinyPb.Protocol.{TinyPbProtocol, new_message}
use netrpc.LoadBalance.Selector.{
  ConsistentHashSelector, new_selector, add_invokers, add_groups, add_group, hash, hash_code,
  select_key, select_consistent,
}
use netrpc.LoadBalance.Stale.{select_consistent-stale}
use netrpc.LoadBalance.{select_rounds}
use netrpc.LoadBalance.Rotation.{select_rounds-turns}

abbrev addrs : List ℕ
addrs = 50 ∷ 51 ∷ 52 ∷ []

select_rounds-turns_example :
    (ys : List ℕ) × (last : ℕ) × (select_rounds addrs 5 3 ≡ ok (ys, last))
    × (length ys ≡ 5)
    × ((i : ℕ) → i < 5 → get_elem? ys i ≡ get_elem? addrs ((3 + i) % 3))
select_rounds-turns_example = select_rounds-turns addrs 5 3 (omega arith) (omega arith)

abbrev no_selectors : List (Bytes × ConsistentHashSelector)
no_selectors = []

-- A call of Order.makeOrder, whose addresses change from one host to two.
abbrev host : Bytes → IpNetAddr
host ip = record { ip = ip; port = 12346 }

abbrev one_host : List IpNetAddr
one_host = host (codes "127.0.0.1") ∷ []

abbrev two_hosts : List IpNetAddr
two_hosts = host (codes "127.0.0.2") ∷ host (codes "127.0.0.6") ∷ []

abbrev invocation : TinyPbProtocol
invocation = record new_message { method_name = codes "Order.makeOrder"; pb_data = codes "price" }

abbrev text_hash : Bytes → ℕ
text_hash text = length text

abbrev is_ok : Result ConsistentHashSelector → Bool
is_ok (ok s) = true
is_ok (err e) = false

returned : (r : Result ConsistentHashSelector) → is_ok r ≡ true → Returns (λ _. Unit {0}) r
returned (ok s) h = (s, refl, tt)
returned (err e) h = absurd (cc h)

one_host_made : is_ok (new_selector one_host 160 (hash_code text_hash 1 one_host)) ≡ true
unfolding to_string new_selector add_invokers add_groups add_group hash at assign place erase
    decimal_from rotate_left f_function g_function h_function i_function mix word_of mix_four
    mix_round calculate_block pad_zeros fill memory_bytes padding compute digest_word gen_digest
    digest to_int32 to_uint64
one_host_made = refl

two_hosts_made : is_ok (new_selector two_hosts 160 (hash_code text_hash 1 two_hosts)) ≡ true
unfolding to_string new_selector add_invokers add_groups add_group hash at assign place erase
    decimal_from rotate_left f_function g_function h_function i_function mix word_of mix_four
    mix_round calculate_block pad_zeros fill memory_bytes padding compute digest_word gen_digest
    digest to_int32 to_uint64
two_hosts_made = refl

abbrev first_ring :
    Returns (λ _. Unit {0}) (new_selector one_host 160 (hash_code text_hash 1 one_host))
first_ring = returned _ one_host_made

no_selector_yet : find invocation.method_name no_selectors ≡ none
unfolding find
no_selector_yet = refl

select_consistent-stale_example :
    (select_consistent text_hash one_host invocation no_selectors ≡ (
      select_key invocation.pb_data first_ring.0
      >>= (λ addr. ok (addr, insert invocation.method_name first_ring.0 no_selectors))))
    × (select_consistent text_hash two_hosts invocation
          (insert invocation.method_name first_ring.0 no_selectors)
        ≡ (select_key invocation.pb_data first_ring.0
            >>= (λ addr. ok (addr, insert invocation.method_name first_ring.0 no_selectors))))
select_consistent-stale_example =
    select_consistent-stale text_hash one_host two_hosts invocation invocation first_ring.0
      no_selectors no_selector_yet first_ring.1 (returned _ two_hosts_made) refl
