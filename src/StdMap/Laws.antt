-- ===== src/StdMap/Laws.antt =====
-- How the operations of a std::map change what `find` returns.
use netrpc.Base.{◌≡◌, refl, none, some, List, [], ◌∷◌, if◌then◌else◌, arith}
use netrpc.StdMap.{Key, find, place, insert, erase, assign}

module _ {K : Type 0} {V : Type 0} ⦃key : Key K⦄ where
  find-place :
      (k j : K) (v : V) (m : List (K × V))
      → find k m ≡ none
      → find j (place k v m) ≡ (if key.eq j k then some v else find j m)
  unfolding find place
  find-place k j v [] h = refl
  find-place k j v ((i, w) ∷ m) h =
      ground
        (arith, key.eq_iff j k, key.eq_iff j i, key.eq_iff k i, key.eq_iff k k, find-place k j v m)

  -- insert gives the key its value, unless it has one: then nothing changes.
  pub find-insert :
      (k j : K) (v : V) (m : List (K × V))
      → find k m ≡ none
      → find j (insert k v m) ≡ (if key.eq j k then some v else find j m)
  unfolding insert
  find-insert k j v m h = rw (h, insert) (find-place k j v m h)

  pub insert-present : (k : K) (v w : V) (m : List (K × V)) → find k m ≡ some w → insert k v m ≡ m
  unfolding insert
  insert-present k v w m h = rw (h, insert)

  pub find-erase :
      (k j : K) (m : List (K × V)) → find j (erase k m) ≡ (if key.eq j k then none else find j m)
  unfolding find erase
  find-erase k j [] = ground arith
  find-erase k j ((i, w) ∷ m) =
      ground (arith, key.eq_iff j k, key.eq_iff j i, key.eq_iff k i, find-erase k j m)

  pub find-assign :
      (k j : K) (v : V) (m : List (K × V))
      → find j (assign k v m) ≡ (if key.eq j k then some v else find j m)
  unfolding assign
  find-assign k j v m =
      ground
        (arith, key.eq_iff k k, find-erase k k m, find-erase k j m, find-place k j v (erase k m))
