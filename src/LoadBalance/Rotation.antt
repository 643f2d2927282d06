-- ===== src/LoadBalance/Rotation.antt =====
-- Round robin: which address each of a row of selections gets.
use native.Mathlib.Nat.{mod-add-mod, mod-eq_of_lt, mod_self}
use netrpc.Base.{
  pos, ℕ, zero, suc, ◌+◌, ◌%◌, ◌<◌, ◌≤◌, ◌≡◌, refl, sym, ◌∙◌, ap, ok, some, List, [], ◌∷◌, length,
  get_elem?, arith, leb, Bool-cases, inl, inr,
}
use netrpc.LoadBalance.{get_io_thread, select_round, select_rounds}

module _ {ℓ} {A : Type ℓ} where
  get_elem?-some : (xs : List A) (i : ℕ) → i < length xs → (x : A) × (get_elem? xs i ≡ some x)
  get_elem?-some [] i h = absurd (omega arith)
  get_elem?-some (x ∷ xs) zero h = (x, refl)
  get_elem?-some (x ∷ xs) (suc i) h = get_elem?-some xs i (omega arith)

  -- One selection takes the element at the index, or the first one behind the last.
  pub select_round_lem :
      (xs : List A) (index : ℕ)
      → 0 < length xs
      → index ≤ length xs
      → (x : A) × (index' : ℕ) × (select_round xs index ≡ ok (x, index'))
        × (get_elem? xs (index % length xs) ≡ some x)
        × (index' ≤ length xs)
        × (index' % length xs ≡ (index + 1) % length xs)
  unfolding select_round
  select_round_lem xs index ne h = elim (Bool-cases (leb (length xs) index)) [
    | inl e ↦
        let (x, got) = get_elem?-some xs 0 ne in
        let whole : index ≡ length xs = ground arith in
        let none_left : index % length xs ≡ 0 =
          ap (λ j. j % length xs) whole ∙ mod_self (length xs) in
        (
          x,
          1,
          ground arith,
          rw none_left got,
          omega arith,
          ap (λ j. j % length xs) {x = 1} {y = 0 + 1} refl
              ∙ ap (λ j. (j + 1) % length xs) (sym none_left)
              ∙ mod-add-mod index (length xs) 1,
        )
    | inr e ↦
        let (x, got) = get_elem?-some xs index (ground arith) in
        let low : index % length xs ≡ index = mod-eq_of_lt (ground arith) in
        (x, index + 1, ground arith, rw low got, ground arith, refl)
  ]

  pub turns_cons :
      (xs ys : List A) (x : A) (n index index' : ℕ)
      → get_elem? xs (index % length xs) ≡ some x
      → index' % length xs ≡ (index + 1) % length xs
      → ((i : ℕ) → i < n → get_elem? ys i ≡ get_elem? xs ((index' + i) % length xs))
      → (i : ℕ) → i < suc n
      → get_elem? (x ∷ ys) i ≡ get_elem? xs ((index + i) % length xs)
  turns_cons xs ys x n index index' got next turn zero lt =
      sym got ∙ ap (λ j. get_elem? xs (j % length xs)) {x = index} {y = index + 0} (omega arith)
  turns_cons xs ys x n index index' got next turn (suc k) lt =
      turn k (omega arith)
      ∙ ap (get_elem? xs) (
          sym (mod-add-mod index' (length xs) k)
          ∙ ap (λ j. (j + k) % length xs) next
          ∙ mod-add-mod (index + 1) (length xs) k
          ∙ ap (λ j. j % length xs) {x = index + 1 + k} {y = index + suc k} (omega arith))

  -- A row of `n` selections, on addresses that are not none, takes them in turn: the `i`th
  -- selection from `index` on gets the address at `index + i`, counted modulo their number.
  pub select_rounds-turns :
      (xs : List A) (n index : ℕ)
      → 0 < length xs
      → index ≤ length xs
      → (ys : List A) × (last : ℕ) × (select_rounds xs n index ≡ ok (ys, last))
        × (length ys ≡ n)
        × ((i : ℕ) → i < n → get_elem? ys i ≡ get_elem? xs ((index + i) % length xs))
  unfolding select_rounds
  select_rounds-turns xs zero index ne h = ([], index, refl, refl, λ i lt. absurd (omega arith))
  select_rounds-turns xs (suc n) index ne h =
      let (x, index', e, got, h', next) = select_round_lem xs index ne h in
      let (ys, last, e', len, turn) = select_rounds-turns xs n index' ne h' in
      (x ∷ ys, last, rw (e, e'), ap suc len, turns_cons xs ys x n index index' got next turn)

module _ {A : Type 0} where
  -- getIOThread goes round as the strategy does.
  pub get_io_thread-turn :
      (xs : List A) (index : ℕ)
      → 0 < length xs
      → index ≤ length xs
      → (x : A) × (index' : ℕ) × (get_io_thread xs (pos index) ≡ ok (x, pos index'))
        × (get_elem? xs (index % length xs) ≡ some x)
        × (index' ≤ length xs)
        × (index' % length xs ≡ (index + 1) % length xs)
  unfolding get_io_thread select_round
  get_io_thread-turn xs index ne h =
      let (x, index', e, got, low, next) = select_round_lem xs index ne h in
      (x, index', ground arith, got, low, next)
