-- ===== src/Prelude/Bytes.antt =====
-- Byte strings as lists of numbers, and Python's `struct.pack`, `struct.unpack` and slices on them.
use Prim.Native.Nat.{ℕ, zero, suc, ◌+◌, ◌-◌, ◌*◌, ◌/◌, ◌%◌, ◌^◌, ◌<◌}
use mathlib.Core.Path.{◌≡◌, refl, ap}
use mathlib.Core.List.{List, [], ◌∷◌, ◌++◌}
use mathlib.Core.Bool.{Bool, true, ◌&&◌}
use mathlib.Core.Option.{Option, none, some}
use native.Mathlib.Omega.{arith}
use pythonos.Prelude.Tests.{ltb, if◌then◌else◌}
use pythonos.Prelude.Lists.{length, take, drop, replicate, get_or}

abbrev pub Bytes : Type 0
Bytes = List ℕ

-- xs[a:b]
abbrev pub slice {ℓ} : {A : Type ℓ} → ℕ → ℕ → List A → List A
slice a b xs = take (b - a) (drop a xs)

-- xs[i], where the code has checked the length.
abbrev pub byte_at : Bytes → ℕ → ℕ
byte_at xs i = get_or xs i 0

-- The value of big-endian bytes, after those that have the value `acc`.
abbrev pub be_from : ℕ → Bytes → ℕ
be_from acc [] = acc
be_from acc (x ∷ xs) = be_from (acc * 256 + x) xs

abbrev pub be_value : Bytes → ℕ
be_value xs = be_from 0 xs

abbrev pub be16 : ℕ → Bytes
be16 v = (v / 256) ∷ (v % 256) ∷ []

abbrev pub be32 : ℕ → Bytes
be32 v = (v / 2 ^ 24) ∷ (v / 2 ^ 16 % 256) ∷ (v / 256 % 256) ∷ (v % 256) ∷ []

-- The formats B, H, I and ns of `struct`; a number out of range is `struct.error`.
abbrev pub pack_b : ℕ → Option Bytes
pack_b v = if ltb v 256 then some (v ∷ []) else none

abbrev pub pack_h : ℕ → Option Bytes
pack_h v = if ltb v 65536 then some (be16 v) else none

abbrev pub pack_i : ℕ → Option Bytes
pack_i v = if ltb v (2 ^ 32) then some (be32 v) else none

abbrev pub pack_s : ℕ → Bytes → Option Bytes
pack_s n xs = some (take n (xs ++ replicate n 0))

-- struct.pack: the fields one after the other, or an error if one of them is.
abbrev pub pack : List (Option Bytes) → Option Bytes
pack [] = some []
pack (none ∷ fields) = none
pack (some b ∷ fields) = elim (pack fields) [ none ↦ none | some rest ↦ some (b ++ rest) ]

-- Every byte is below 256.
abbrev pub AreBytes : Bytes → Type 0
AreBytes [] = Unit {0}
AreBytes (x ∷ xs) = (x < 256) × AreBytes xs

pub length_four :
    {A : Type 0} (xs : List A) → length xs ≡ 4 → (a b c d : A) × (xs ≡ a ∷ b ∷ c ∷ d ∷ [])
length_four [] h = absurd (omega arith)
length_four (a ∷ []) h = absurd (omega arith)
length_four (a ∷ b ∷ []) h = absurd (omega arith)
length_four (a ∷ b ∷ c ∷ []) h = absurd (omega arith)
length_four (a ∷ b ∷ c ∷ d ∷ []) h = (a, b, c, d, refl)
length_four (a ∷ b ∷ c ∷ d ∷ e ∷ xs) h = absurd (omega arith)

pub length_six :
    {A : Type 0} (xs : List A)
    → length xs ≡ 6
    → (a b c d e f : A) × (xs ≡ a ∷ b ∷ c ∷ d ∷ e ∷ f ∷ [])
length_six [] h = absurd (omega arith)
length_six (a ∷ []) h = absurd (omega arith)
length_six (a ∷ b ∷ xs) h =
    let (c, d, e, f, p) = length_four xs (omega arith) in (a, b, c, d, e, f, ap (λ t. a ∷ b ∷ t) p)

-- A table check: the test holds of each number under the limit, found by running it.
unfoldable pub table_ok : (ℕ → Bool) → ℕ → Bool
table_ok test zero = true
table_ok test (suc limit) = table_ok test limit && test limit

pub table_ok_at :
    (test : ℕ → Bool) (limit v : ℕ) → v < limit → table_ok test limit ≡ true → test v ≡ true
unfolding table_ok
table_ok_at test zero v under run = absurd (omega arith)
table_ok_at test (suc limit) v under run = ground (arith, table_ok_at test limit v)
