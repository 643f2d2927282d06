-- ===== src/Base/Outcome.antt =====
-- What a run of the C++ code comes to: a value, a fault (an access outside an array, a memcpy or
-- a vector of a negative size), no return within the fuel that a loop was given, or the process's exit.
use Prim.Native.Nat.{ℕ, ◌+◌, ◌*◌, ◌/◌, ◌%◌, ◌^◌, ◌≤◌, ◌<◌}
use Prim.Native.Char.{code}
use Prim.Native.String.{String}
use native.Mathlib.Omega.{arith}
use mathlib.Core.Path.{◌≡◌, refl, ap, ◌∙◌}
use mathlib.Core.Option.{none, some}
use mathlib.Core.List.{List, [], ◌∷◌}
use netrpc.Base.Tests.{leb, if◌then◌else◌, le→leb}
use netrpc.Base.Lists.{length, take, drop, get_elem?, replicate, length-replicate}
use netrpc.Base.Int.{ℤ, pos, negsuc, to_int32}

pub data Error : Type 0 where
  fault out_of_fuel exited : Error

pub data Result {ℓ} (A : Type ℓ) : Type ℓ where
  ok : A → Result A
  err : Error → Result A

infixl 5 ◌>>=◌
abbrev pub ◌>>=◌ {ℓ κ} : {A : Type ℓ} {B : Type κ} → Result A → (A → Result B) → Result B
ok a >>= f = f a
err e >>= f = err e

-- The run gives a value, with the property.
abbrev pub Returns {ℓ κ} : {A : Type ℓ} → (A → Type κ) → Result A → Type (ℓ ⊔ κ)
Returns {A} P r = (a : A) × (r ≡ ok a) × P a

pub Returns-bind {ℓ κ ℓ' κ'} :
    {A : Type ℓ} {B : Type ℓ'} {P : A → Type κ} {Q : B → Type κ'} (r : Result A) (f : A → Result B)
    → Returns P r
    → ((a : A) → P a → Returns Q (f a))
    → Returns Q (r >>= f)
Returns-bind {Q} r f (a, e, h) k = let (b, e', h') = k a h in (b, ap (λ x. x >>= f) e ∙ e', h')

-- Two steps in a row that come to one.
pub >>=-then {ℓ κ μ} :
    {A : Type ℓ} {B : Type κ} {C : Type μ} (r : Result A) (f : A → Result B) (g : B → Result C)
    (h : A → Result C)
    → ((a : A) → (f a >>= g) ≡ h a)
    → ((r >>= f) >>= g) ≡ (r >>= h)
>>=-then (ok a) f g h k = k a
>>=-then (err e) f g h k = refl

abbrev pub Bytes : Type 0
Bytes = List ℕ

-- `a[i]` on a vector: a fault out of range.
unfoldable pub at : Bytes → ℤ → Result ℕ
at a (pos i) = elim (get_elem? a i) [ none ↦ err fault | some c ↦ ok c ]
at a (negsuc _) = err fault

-- memcpy of `n` bytes from `&a[i]`: a fault unless all of them lie in the array.
unfoldable pub slice : Bytes → ℕ → ℕ → Result Bytes
slice a i n = if leb (i + n) (length a) then ok (take n (drop i a)) else err fault

-- An int used as a size_t: a negative one is larger than any array.
abbrev pub to_size : ℤ → Result ℕ
to_size (pos n) = ok n
to_size (negsuc _) = err fault

pub slice_ok : (a : Bytes) (i n : ℕ) → i + n ≤ length a → slice a i n ≡ ok (take n (drop i a))
unfolding slice
slice_ok a i n h = rw (le→leb (i + n) (length a) h)

-- `std::vector<char> v(n)`.
abbrev pub zeros : ℕ → Bytes
zeros n = replicate n 0

pub length-zeros : (n : ℕ) → length (zeros n) ≡ n
length-zeros n = length-replicate {A = ℕ} n 0

-- Bytes of a text literal; the program's literals are ASCII.
abbrev pub codes : String → Bytes
codes String.[] = []
codes (String.◌∷◌ c s) = code c ∷ codes s

-- htonl and memcpy of a 32-bit word to the wire, and its value read back.
unfoldable pub net_bytes : ℕ → Bytes
net_bytes w = w / 2 ^ 24 % 256 ∷ w / 2 ^ 16 % 256 ∷ w / 2 ^ 8 % 256 ∷ w % 256 ∷ []

unfoldable pub net_value : ℕ → Bytes → ℕ
net_value acc [] = acc
net_value acc (c ∷ cs) = net_value (256 * acc + c) cs

-- int32_t getInt32FromNetByte(&a[i])
unfoldable pub get_int32_from_net_byte : Bytes → ℕ → Result ℤ
get_int32_from_net_byte a i = do word ← slice a i 4; ok (to_int32 (net_value 0 word))

pub net_value-net_bytes : (w : ℕ) → w < 2 ^ 32 → net_value 0 (net_bytes w) ≡ w
unfolding net_value net_bytes
net_value-net_bytes w h = omega arith
