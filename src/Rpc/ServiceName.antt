-- ===== src/Rpc/ServiceName.antt =====
-- RpcDispatcher::parseServiceFullName of netrpc/net/rpc/rpc_dispatcher.cc, on std::string's
-- find_first_of and substr.
use mathlib.Core.Path.{ap₂, subst}
use netrpc.Base.{
  ℕ, suc, ◌+◌, ◌-◌, ◌≡◌, refl, sym, ◌∙◌, ap, ◌≢◌, ◌↔◌, ◌⊎◌, Bytes, Option, none, some, [], ◌∷◌,
  ◌++◌, ◌==◌, if◌then◌else◌, take, drop, length, length-append, arith, take-append_eq,
  drop-append_eq, take-all, drop-drop, Bool-cases, inl, inr,
}

-- `s.find_first_of(c)` for one character, counting from `i`.
unfoldable pub find_first_of : ℕ → ℕ → Bytes → Option ℕ
find_first_of c i [] = none
find_first_of c i (x ∷ xs) = if x == c then some i else find_first_of c (i + 1) xs

-- `s.substr(i, n)` for an `i` within the string.
abbrev pub substr : Bytes → ℕ → ℕ → Bytes
substr s i n = take n (drop i s)

abbrev pub dot : ℕ
dot = b'.'

-- `none` is the result false.
unfoldable pub parse_service_full_name : Bytes → Option (Bytes × Bytes)
parse_service_full_name [] = none
parse_service_full_name (c ∷ cs) =
    let full_name : Bytes = c ∷ cs in
    elim (find_first_of dot 0 full_name) [
      | none ↦ none
      | some i ↦ some (substr full_name 0 i, substr full_name (i + 1) (length full_name - i - 1))
    ]

-- No byte of the text is `c`.
abbrev pub Without : ℕ → Bytes → Type 0
Without c [] = Unit {0}
Without c (x ∷ xs) = (x ≢ c) × Without c xs

pub find_first_of-append :
    (c i : ℕ) (s rest : Bytes)
    → Without c s
    → find_first_of c i (s ++ (c ∷ rest)) ≡ some (i + length s)
unfolding find_first_of
find_first_of-append c i [] rest h = ground arith
find_first_of-append c i (x ∷ xs) rest h =
    ground (arith, find_first_of-append c (i + 1) xs rest h.1)

find_first_of-none : (c i : ℕ) (s : Bytes) → Without c s → find_first_of c i s ≡ none
unfolding find_first_of
find_first_of-none c i [] h = refl
find_first_of-none c i (x ∷ xs) h = ground (arith, find_first_of-none c (i + 1) xs h.1)

parse_nonempty :
    (full : Bytes) (i : ℕ)
    → full ≢ []
    → find_first_of dot 0 full ≡ some i
    → parse_service_full_name full
      ≡ some (substr full 0 i, substr full (i + 1) (length full - i - 1))
unfolding parse_service_full_name
parse_nonempty [] i ne e = absurd (ne refl)
parse_nonempty (c ∷ cs) i ne e = rw (e, parse_service_full_name)

-- What stands before and behind a character.
pub substr-append :
    (c : ℕ) (s rest : Bytes)
    → ◌≡◌ {A = Bytes × Bytes}
        (
          substr (s ++ (c ∷ rest)) 0 (0 + length s),
          substr
              (s ++ (c ∷ rest))
              (0 + length s + 1)
              (length (s ++ (c ∷ rest)) - (0 + length s) - 1),
        )
        (s, rest)
substr-append c s rest =
    let full : Bytes = s ++ (c ∷ rest) in
    let n : ℕ = length s in
    let len : length full ≡ n + suc (length rest) = length-append s (c ∷ rest) in
    let behind : drop (n + 1) full ≡ rest =
      sym (drop-drop 1 n full) ∙ ap (drop 1) (drop-append_eq n s (c ∷ rest) refl) in
    let head : take (0 + n) full ≡ s =
      ap (λ k. take k full) {x = 0 + n} {y = n} (omega arith)
      ∙ take-append_eq n s (c ∷ rest) refl in
    let tail : substr full (0 + n + 1) (length full - (0 + n) - 1) ≡ rest =
      ap (λ k. take (length full - (0 + n) - 1) (drop k full)) {x = 0 + n + 1} {y = n + 1}
        (omega arith)
      ∙ ap (take (length full - (0 + n) - 1)) behind
      ∙ take-all (length full - (0 + n) - 1) rest (omega arith) in
    ap₂ (λ a b. (a, b)) head tail

parse-append_dot :
    (service method : Bytes)
    → Without dot service
    → parse_service_full_name (service ++ (dot ∷ method)) ≡ some (service, method)
parse-append_dot service method h =
    parse_nonempty (service ++ (dot ∷ method)) (0 + length service) (ne service)
      (find_first_of-append dot 0 service method h)
    ∙ ap some (substr-append dot service method)
  where
    ne : (s : Bytes) → s ++ (dot ∷ method) ≢ []
    ne [] e = cc
    ne (x ∷ xs) e = cc

-- A name without a dot, the empty one included, is refused.
parse-Without-dot : (full : Bytes) → Without dot full → parse_service_full_name full ≡ none
unfolding parse_service_full_name
parse-Without-dot [] h = refl
parse-Without-dot (c ∷ cs) h = rw (find_first_of-none dot 0 (c ∷ cs) h, parse_service_full_name)

-- Every text has no dot, or is cut at its first one.
dot-cases :
    (s : Bytes) → Without dot s ⊎ ((a : Bytes) × (b : Bytes) × Without dot a × (s ≡ a ++ (dot ∷ b)))
dot-cases [] = inl tt
dot-cases (x ∷ xs) = elim (Bool-cases (x == dot)) [
  | inl hit ↦ inr ([], xs, tt, ap (λ c. c ∷ xs) (ground arith))
  | inr miss ↦ elim (dot-cases xs) [
    | inl h ↦ inl (ground arith, h)
    | inr (a, b, h, e) ↦ inr (x ∷ a, b, (ground arith, h), ap (◌∷◌ x) e)
  ]
]

-- A full name is accepted exactly when it has a dot, and is cut at the first one: the service is
-- all that stands before it, and the method all that stands behind it, further dots included.
pub parse_service_full_name_iff :
    (full service method : Bytes)
    → (parse_service_full_name full ≡ some (service, method))
      ↔ ((full ≡ service ++ (dot ∷ method)) × Without dot service)
parse_service_full_name_iff full service method = (to, from)
  where
    to :
        parse_service_full_name full ≡ some (service, method)
        → (full ≡ service ++ (dot ∷ method)) × Without dot service
    to e = elim (dot-cases full) [
      | inl h ↦ absurd (cc (parse-Without-dot full h))
      | inr (a, b, h, split) ↦
          let found : parse_service_full_name full ≡ some (a, b) =
            ap parse_service_full_name split ∙ parse-append_dot a b h in
          let same : a ≡ service = cc found in
          (split ∙ ap₂ (λ x y. x ++ (dot ∷ y)) same (cc found), subst (Without dot) same h)
    ]

    from :
        (full ≡ service ++ (dot ∷ method)) × Without dot service
        → parse_service_full_name full ≡ some (service, method)
    from (e, h) = ap parse_service_full_name e ∙ parse-append_dot service method h
