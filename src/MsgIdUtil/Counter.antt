-- ===== src/MsgIdUtil/Counter.antt =====
-- The message ids of a thread count up.
use native.Mathlib.Nat.{suc-mul, pow-suc}
use netrpc.Base.{
  ℕ, zero, suc, ◌+◌, ◌-◌, ◌*◌, ◌^◌, ◌<◌, ◌≤◌, ◌≡◌, ◌≢◌, refl, ap, Bytes, ok, Option, none, some,
  Option-cases, inl, inr, [], ◌∷◌, length, replicate, length-replicate, All, arith,
}
use netrpc.StdMap.{bytes_eq_iff}
use netrpc.MsgIdUtil.{MsgIdState, increment, advance, gen_msg_id}

abbrev pub IsDigit : ℕ → Type 0
IsDigit c = (48 ≤ c) × (c < 58)

-- The number that the digits write.
abbrev pub value : Bytes → ℕ
value [] = 0
value (c ∷ cs) = (c - 48) * 10 ^ length cs + value cs

value-zeros : (n : ℕ) → value (replicate n 48) ≡ 0
value-zeros zero = refl
value-zeros (suc n) = omega (arith, value-zeros n)

zeros-IsDigit : (n : ℕ) → All IsDigit (replicate n 48)
zeros-IsDigit zero = tt
zeros-IsDigit (suc n) = ((omega arith, omega arith), zeros-IsDigit n)

-- With nothing to count up the digits are all nines.
increment-none : (s : Bytes) → All IsDigit s → increment s ≡ none → value s + 1 ≡ 10 ^ length s
unfolding increment
increment-none [] h e = refl
increment-none (c ∷ cs) h e = elim (Option-cases (increment cs)) [
  | inl e' ↦
      let nine : c ≡ 57 = ground arith in
      let rest : value cs + 1 ≡ 10 ^ length cs = increment-none cs h.1 e' in
      rw nine (omega (arith, rest, pow-suc 10 (length cs)))
  | inr (ds, e') ↦ absurd (ground arith)
]

-- Counting up adds one, and leaves as many digits.
pub increment-some :
    (s t : Bytes)
    → All IsDigit s
    → increment s ≡ some t
    → (value t ≡ value s + 1) × (length t ≡ length s) × All IsDigit t
unfolding increment
increment-some [] t h e = cc
increment-some (c ∷ cs) t h e = elim (Option-cases (increment cs)) [
  | inl e' ↦
      let rest : value cs + 1 ≡ 10 ^ length cs = increment-none cs h.1 e' in
      let low : c ≢ 57 = λ nine. ground arith in
      let same : t ≡ (c + 1) ∷ replicate (length cs) 48 = ground arith in
      let len : length (replicate (length cs) 48) ≡ length cs =
        length-replicate {A = ℕ} (length cs) 48 in
      let up : c + 1 - 48 ≡ suc (c - 48) = omega (arith, h.0) in
      rw same (
        rw (len, value-zeros (length cs), up)
            (omega (arith, rest, suc-mul (c - 48) (10 ^ length cs))),
        ap suc len,
        ((omega (arith, h.0), ground (arith, h.0)), zeros-IsDigit (length cs)),
      )
  | inr (ds, e') ↦
      let (v, len, digits) = increment-some cs ds h.1 e' in
      let same : t ≡ c ∷ ds = ground arith in
      rw same (rw len (omega (arith, v)), ap suc len, (h.0, digits))
]

-- Where a thread has an id of digits that is neither its maximum nor all nines, GenMsgID returns
-- the id that follows it as a number, with as many digits, and keeps it.
pub gen_msg_id-next :
    (random : Option Bytes) (s : MsgIdState)
    → All IsDigit s.msg_id_no
    → s.msg_id_no ≢ []
    → s.msg_id_no ≢ s.max_msg_id_no
    → value s.msg_id_no + 1 ≢ 10 ^ length s.msg_id_no
    → (id : Bytes) × (gen_msg_id random s ≡ ok (id, record s { msg_id_no = id }))
      × (value id ≡ value s.msg_id_no + 1)
      × (length id ≡ length s.msg_id_no)
      × All IsDigit id
unfolding gen_msg_id advance
gen_msg_id-next random s h ne top nines = elim (Option-cases (increment s.msg_id_no)) [
  | inl e ↦ absurd (nines (increment-none s.msg_id_no h e))
  | inr (id, e) ↦
      let (v, len, digits) = increment-some s.msg_id_no id h e in
      (
        id,
        ground (arith, bytes_eq_iff s.msg_id_no [], bytes_eq_iff s.msg_id_no s.max_msg_id_no),
        v,
        len,
        digits,
      )
]
