-- ===== src/LoadBalance/Stale.antt =====
-- The selector that ConsistentHashLoadBalanceStrategy keeps for a method.
use netrpc.Base.{
  ℕ, ◌≡◌, refl, ◌∙◌, ap, Bytes, ok, Returns, ◌>>=◌, none, some, List, ◌==◌, Bool-cases, inl, inr,
}
use netrpc.StdMap.{find, insert, bytes_key, bytes_eq_iff}
use netrpc.StdMap.Laws.{find-insert, insert-present}
use netrpc.NetAddr.{IpNetAddr}
use netrpc.TinyPb.Protocol.{TinyPbProtocol}
use netrpc.LoadBalance.Selector.{
  ConsistentHashSelector, new_selector, select_key, hash_code, insert_selector, add_selector,
  selector_for, select_consistent, as_size,
}

find-insert_same :
    (name : Bytes) (s : ConsistentHashSelector) (selectors : List (Bytes × ConsistentHashSelector))
    → find name selectors ≡ none
    → find name (insert name s selectors) ≡ some s
find-insert_same name s selectors fresh =
    find-insert name name s selectors fresh ∙ rw ((bytes_eq_iff name name).1 refl) refl

insert_selector-none :
    (name : Bytes) (s : ConsistentHashSelector) (selectors : List (Bytes × ConsistentHashSelector))
    → find name selectors ≡ none
    → insert_selector name selectors s ≡ ok (s, insert name s selectors)
unfolding insert_selector
insert_selector-none name s selectors fresh =
    rw (find-insert_same name s selectors fresh, insert_selector) refl

insert_selector-some :
    (name : Bytes) (s made : ConsistentHashSelector)
    (selectors : List (Bytes × ConsistentHashSelector))
    → find name selectors ≡ some s
    → insert_selector name selectors made ≡ ok (s, selectors)
unfolding insert_selector
insert_selector-some name s made selectors kept =
    rw (insert-present name made s selectors kept, insert_selector)
      (rw (kept, insert_selector) (ap (λ m. ok (s, m)) (insert-present name made s selectors kept)))

module _ (std_hash : Bytes → ℕ) where
  selector_for-none :
      (addrs : List IpNetAddr) (name : Bytes) (s : ConsistentHashSelector)
      (selectors : List (Bytes × ConsistentHashSelector))
      → find name selectors ≡ none
      → new_selector addrs 160 (hash_code std_hash 1 addrs) ≡ ok s
      → selector_for std_hash addrs name selectors ≡ ok (s, insert name s selectors)
  unfolding selector_for add_selector
  selector_for-none addrs name s selectors fresh made =
      rw (fresh, selector_for)
        (ap (λ r. r >>= insert_selector name selectors) made
          ∙ insert_selector-none name s selectors fresh)

  add_selector-some :
      (addrs : List IpNetAddr) (code : ℕ) (name : Bytes) (s : ConsistentHashSelector)
      (selectors : List (Bytes × ConsistentHashSelector))
      → find name selectors ≡ some s
      → Returns (λ _. Unit {0}) (new_selector addrs 160 code)
      → add_selector std_hash addrs code name selectors ≡ ok (s, selectors)
  unfolding add_selector
  add_selector-some addrs code name s selectors kept (made, e, _) =
      ap (λ r. r >>= insert_selector name selectors) e
      ∙ insert_selector-some name s made selectors kept

  selector_for-some :
      (addrs : List IpNetAddr) (name : Bytes) (s : ConsistentHashSelector)
      (selectors : List (Bytes × ConsistentHashSelector))
      → find name selectors ≡ some s
      → Returns (λ _. Unit {0}) (new_selector addrs 160 (hash_code std_hash 1 addrs))
      → selector_for std_hash addrs name selectors ≡ ok (s, selectors)
  unfolding selector_for
  selector_for-some addrs name s selectors kept made =
      elim (Bool-cases (as_size s.identity_hash_code == hash_code std_hash 1 addrs)) [
        | inl e ↦ rw (kept, selector_for) (rw (e, selector_for) refl)
        | inr e ↦
            rw (kept, selector_for)
              (rw (e, selector_for)
                (add_selector-some addrs (hash_code std_hash 1 addrs) name s selectors kept made))
      ]

  -- Where a method has no selector yet and one can be made of the addresses, the call of select
  -- answers from it; and any later call for the method, on whatever addresses a selector can be
  -- made of, answers from that first selector too and keeps it, its hash code telling the
  -- difference or not.
  pub select_consistent-stale :
      (addrs later : List IpNetAddr) (first m : TinyPbProtocol) (s : ConsistentHashSelector)
      (selectors : List (Bytes × ConsistentHashSelector))
      → find first.method_name selectors ≡ none
      → new_selector addrs 160 (hash_code std_hash 1 addrs) ≡ ok s
      → Returns (λ _. Unit {0}) (new_selector later 160 (hash_code std_hash 1 later))
      → m.method_name ≡ first.method_name
      → (select_consistent std_hash addrs first selectors ≡ (
          select_key first.pb_data s >>= (λ addr. ok (addr, insert first.method_name s selectors))))
        × (select_consistent std_hash later m (insert first.method_name s selectors) ≡ (
            select_key m.pb_data s >>= (λ addr. ok (addr, insert first.method_name s selectors))))
  unfolding select_consistent
  select_consistent-stale addrs later first m s selectors fresh made remade same = (
    ap (λ r. r >>= (λ t. select_key first.pb_data t.0 >>= (λ addr. ok (addr, t.1))))
        (selector_for-none addrs first.method_name s selectors fresh made),
    ap (λ r. r >>= (λ t. select_key m.pb_data t.0 >>= (λ addr. ok (addr, t.1))))
        (ap (λ name. selector_for std_hash later name (insert first.method_name s selectors)) same
          ∙ selector_for-some later first.method_name s (insert first.method_name s selectors)
              (find-insert_same first.method_name s selectors fresh) remade),
  )
