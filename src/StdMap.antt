-- ===== src/StdMap.antt =====
-- std::map as the sources use it: an association list in key order. `insert` keeps the entry that
-- a key has, `assign` (`m[k] = v`) replaces it, `erase` takes it out.
pub mod Laws
use netrpc.Base.{
  ℕ, Bytes, Bool, true, false, ◌≡◌, ◌↔◌, Option, none, some, List, [], ◌∷◌, ◌==◌, ltb, ◌&&◌, ◌||◌,
  if◌then◌else◌, arith,
}

-- The comparisons of a key type.
pub record Key {ℓ} (K : Type ℓ) : Type ℓ where
  pub eq : K → K → Bool
  pub lt : K → K → Bool
  pub eq_iff : (a b : K) → (eq a b ≡ true) ↔ (a ≡ b)

pub ℕ-eq_iff : (a b : ℕ) → ((a == b) ≡ true) ↔ (a ≡ b)
ℕ-eq_iff a b = ground arith

-- Integer keys.
instance abbrev pub nat_key : Key ℕ
nat_key = record { eq = ◌==◌; lt = ltb; eq_iff = ℕ-eq_iff }

-- std::string: byte by byte.
unfoldable pub bytes_eq : Bytes → Bytes → Bool
bytes_eq [] [] = true
bytes_eq [] (y ∷ ys) = false
bytes_eq (x ∷ xs) [] = false
bytes_eq (x ∷ xs) (y ∷ ys) = (x == y) && bytes_eq xs ys

unfoldable pub bytes_lt : Bytes → Bytes → Bool
bytes_lt xs [] = false
bytes_lt [] (y ∷ ys) = true
bytes_lt (x ∷ xs) (y ∷ ys) = ltb x y || ((x == y) && bytes_lt xs ys)

pub bytes_eq_iff : (a b : Bytes) → (bytes_eq a b ≡ true) ↔ (a ≡ b)
unfolding bytes_eq
bytes_eq_iff [] [] = ground arith
bytes_eq_iff [] (y ∷ ys) = ground arith
bytes_eq_iff (x ∷ xs) [] = ground arith
bytes_eq_iff (x ∷ xs) (y ∷ ys) = ground (arith, bytes_eq_iff xs ys)

instance abbrev pub bytes_key : Key Bytes
bytes_key = record { eq = bytes_eq; lt = bytes_lt; eq_iff = bytes_eq_iff }

module _ {K : Type 0} {V : Type 0} ⦃key : Key K⦄ where
  unfoldable pub find : K → List (K × V) → Option V
  find k [] = none
  find k ((j, v) ∷ m) = if key.eq k j then some v else find k m

  -- The new entry's place in key order.
  unfoldable pub place : K → V → List (K × V) → List (K × V)
  place k v [] = (k, v) ∷ []
  place k v ((j, w) ∷ m) = if key.lt k j then (k, v) ∷ (j, w) ∷ m else (j, w) ∷ place k v m

  unfoldable pub insert : K → V → List (K × V) → List (K × V)
  insert k v m = elim (find k m) [ none ↦ place k v m | some _ ↦ m ]

  unfoldable pub erase : K → List (K × V) → List (K × V)
  erase k [] = []
  erase k ((j, v) ∷ m) = if key.eq k j then erase k m else (j, v) ∷ erase k m

  unfoldable pub assign : K → V → List (K × V) → List (K × V)
  assign k v m = place k v (erase k m)

  -- The first entry whose key is not below `k`.
  unfoldable pub lower_bound : K → List (K × V) → Option (K × V)
  lower_bound k [] = none
  lower_bound k ((j, v) ∷ m) = if key.lt j k then lower_bound k m else some (j, v)
