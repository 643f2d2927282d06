-- ===== src/TinyPb/Cursor.antt =====
-- Reading through an array from an index: what the accesses of the decoder return where the bytes
-- behind the index are known.
use netrpc.Base.{
  ℕ, zero, suc, ◌+◌, ◌^◌, ◌≤◌, ◌<◌, ◌≡◌, refl, sym, ◌∙◌, ap, Bytes, ok, pos, arith, to_int32,
  to_int32-small, at, slice, slice_ok, get_int32_from_net_byte, net_bytes, net_value-net_bytes,
  take, drop, length, length-append, length-drop, take-append_eq, drop-append_eq, drop-drop, [],
  ◌∷◌, ◌++◌, ◌≢◌, some, get_elem?,
}
use netrpc.TinyPb.Decoder.{until_nul, c_string, read_text}

-- Behind index `i` stand exactly the bytes `s`.
pub record At (tmp : Bytes) (i : ℕ) (s : Bytes) : Type 0 where
  pub rest : drop i tmp ≡ s
  pub within : i ≤ length tmp

pub At-length : {tmp : Bytes} {i : ℕ} {s : Bytes} → At tmp i s → length tmp ≡ i + length s
At-length {tmp} {i} {s} h = omega (arith, length-drop i tmp, ap length h.rest, h.within)

module _ {tmp : Bytes} {i : ℕ} (ys zs : Bytes) (h : At tmp i (ys ++ zs)) where
  pub At-skip : (n : ℕ) → length ys ≡ n → At tmp (i + n) zs
  At-skip n e = record {
    rest = sym (drop-drop n i tmp) ∙ ap (drop n) h.rest ∙ drop-append_eq n ys zs e;
    within = omega (arith, At-length h, length-append ys zs);
  }

  pub At-slice : (n : ℕ) → length ys ≡ n → slice tmp i n ≡ ok ys
  At-slice n e =
      slice_ok tmp i n (omega (arith, At-length h, length-append ys zs))
      ∙ ap ok (ap (take n) h.rest ∙ take-append_eq n ys zs e)

pub At-at : {tmp : Bytes} {i : ℕ} {c : ℕ} {s : Bytes} → At tmp i (c ∷ s) → at tmp (pos i) ≡ ok c
unfolding at
At-at {tmp} {i} {c} {s} h = rw (found tmp i h.rest, at)
  where
    found : (a : Bytes) (k : ℕ) → drop k a ≡ c ∷ s → get_elem? a k ≡ some c
    found [] zero e = cc
    found [] (suc k) e = cc
    found (x ∷ xs) zero e = cc
    found (x ∷ xs) (suc k) e = found xs k e

pub length-net_bytes : (w : ℕ) → length (net_bytes w) ≡ 4
unfolding net_bytes
length-net_bytes w = refl

module _ {tmp : Bytes} {i : ℕ} (w : ℕ) (zs : Bytes) (h : At tmp i (net_bytes w ++ zs)) where
  pub At-skip_word : At tmp (i + 4) zs
  At-skip_word = At-skip (net_bytes w) zs h 4 (length-net_bytes w)

  pub At-get_int32 : w < 2 ^ 32 → get_int32_from_net_byte tmp i ≡ ok (to_int32 w)
  unfolding get_int32_from_net_byte
  At-get_int32 small =
      rw (At-slice (net_bytes w) zs h 4 (length-net_bytes w), net_value-net_bytes w small)

-- No byte of the text is the NUL that ends a C string.
abbrev pub NoNul : Bytes → Type 0
NoNul [] = Unit {0}
NoNul (c ∷ cs) = (c ≢ 0) × NoNul cs

until_nul-eq : (s : Bytes) → NoNul s → until_nul s ≡ s
unfolding until_nul
until_nul-eq [] h = refl
until_nul-eq (c ∷ cs) h = ground (arith, h.0, until_nul-eq cs h.1)

-- A text with no NUL that is shorter than the array comes through as it is.
pub c_string_ok : (cap : ℕ) (s : Bytes) → NoNul s → length s < cap → c_string cap s ≡ ok s
unfolding c_string
c_string_ok cap s h lt = rw (until_nul-eq s h) (ground arith)

pub read_text_ok :
    {tmp : Bytes} {i : ℕ} (cap : ℕ) (s zs : Bytes)
    → At tmp i (net_bytes (length s) ++ (s ++ zs))
    → NoNul s
    → length s < cap
    → cap < 2 ^ 31
    → read_text tmp i cap ≡ ok (pos (length s), s, i + 4 + length s)
unfolding read_text
read_text_ok {tmp} {i} cap s zs h clean lt small = rw (
  At-get_int32 (length s) (s ++ zs) h (omega arith),
  to_int32-small (length s) (omega arith),
  At-slice s zs (At-skip_word (length s) (s ++ zs) h) (length s) refl,
  c_string_ok cap s clean lt,
)

pub At-skip_text :
    {tmp : Bytes} {i : ℕ} (s zs : Bytes)
    → At tmp i (net_bytes (length s) ++ (s ++ zs))
    → At tmp (i + 4 + length s) zs
At-skip_text s zs h = At-skip s zs (At-skip_word (length s) (s ++ zs) h) (length s) refl
