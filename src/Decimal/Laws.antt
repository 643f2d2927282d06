-- ===== src/Decimal/Laws.antt =====
-- What to_string writes, atoi reads.
use mathlib.Core.List.{append_assoc, append-nil}
use netrpc.Base.{
  ℕ, zero, suc, ◌+◌, ◌-◌, ◌*◌, ◌/◌, ◌%◌, ◌<◌, ◌≡◌, refl, sym, ◌∙◌, ap, Bytes, true, ltb, pos, [],
  ◌∷◌, ◌++◌, Bool-cases, inl, inr, arith,
}
use netrpc.Decimal.{decimal_from, decimal, is_digit, is_space, read_digits, atoi}

read_digits-cons :
    (n c : ℕ) (cs : Bytes)
    → is_digit c ≡ true
    → read_digits n (c ∷ cs) ≡ read_digits (n * 10 + (c - 48)) cs
unfolding read_digits
read_digits-cons n c cs h = rw (h, read_digits)

digit-is_digit : (n : ℕ) → is_digit (48 + n % 10) ≡ true
unfolding is_digit
digit-is_digit n = ground arith

read_digits-decimal_from :
    (fuel n : ℕ) (tail : Bytes)
    → n < fuel
    → read_digits 0 (decimal_from fuel n ++ tail) ≡ read_digits n tail
unfolding decimal_from
read_digits-decimal_from zero n tail lt = elim lt [ ]
read_digits-decimal_from (suc fuel) n tail lt =
    let last : ℕ = 48 + n % 10 in
    elim (Bool-cases (ltb n 10)) [
      | inl e ↦
          rw (e, decimal_from)
            (read_digits-cons 0 last tail (digit-is_digit n)
              ∙ ap (λ k. read_digits k tail) {x = 0 * 10 + (last - 48)} {y = n} (ground arith))
      | inr e ↦
          rw (e, decimal_from)
            (rw (append_assoc (decimal_from fuel (n / 10)) (last ∷ []) tail) (
              read_digits-decimal_from fuel (n / 10) (last ∷ tail) (ground arith)
              ∙ read_digits-cons (n / 10) last tail (digit-is_digit n)
              ∙ ap (λ k. read_digits k tail) {x = n / 10 * 10 + (last - 48)} {y = n} (omega arith)))
    ]

-- The text begins with a digit.
decimal_from-head :
    (fuel n : ℕ)
    → n < fuel
    → (c : ℕ) × (cs : Bytes) × (decimal_from fuel n ≡ c ∷ cs) × (is_digit c ≡ true)
unfolding decimal_from
decimal_from-head zero n lt = elim lt [ ]
decimal_from-head (suc fuel) n lt = elim (Bool-cases (ltb n 10)) [
  | inl e ↦ (48 + n % 10, [], rw e, digit-is_digit n)
  | inr e ↦
      let (c, cs, same, digit) = decimal_from-head fuel (n / 10) (ground arith) in
      (c, cs ++ ((48 + n % 10) ∷ []), rw (e, same), digit)
]

atoi-digit : (c : ℕ) (cs : Bytes) → is_digit c ≡ true → atoi (c ∷ cs) ≡ pos (read_digits 0 (c ∷ cs))
unfolding atoi is_digit is_space
atoi-digit c cs h = ground arith

pub atoi-decimal : (n : ℕ) → atoi (decimal n) ≡ pos n
unfolding read_digits
atoi-decimal n =
    let (c, cs, same, digit) = decimal_from-head (suc n) n (omega arith) in
    ap atoi same
    ∙ atoi-digit c cs digit
    ∙ ap (λ (s : Bytes). pos (read_digits 0 s)) (sym same ∙ sym (append-nil (decimal n)))
    ∙ ap pos (read_digits-decimal_from (suc n) n [] (omega arith) ∙ read_digits_nil n)
  where
    read_digits_nil : (k : ℕ) → read_digits k [] ≡ k
    read_digits_nil k = refl

pub decimal-nonempty : (n : ℕ) → (c : ℕ) × (cs : Bytes) × (decimal n ≡ c ∷ cs)
decimal-nonempty n =
    let (c, cs, same, _) = decimal_from-head (suc n) n (omega arith) in (c, cs, same)
