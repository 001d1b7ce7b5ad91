-- ===== src/Net/Ip/Checksum.antt =====
-- `inet_cksum`: the ones' complement sum of 16-bit words.
use pythonos.Prelude.{
  ℕ, zero, suc, ◌+◌, ◌-◌, ◌*◌, ◌/◌, ◌%◌, ◌≤◌, ◌≡◌, ◌∙◌, refl, ap, [], ◌∷◌, ◌++◌, arith, length,
  length-append, append_assoc, Bool-cases, true, false, inl, inr, ◌==◌, if◌then◌else◌,
}
use pythonos.Prelude.Bytes.{Bytes, be16}

-- `if len(bs) % 2: bs += b'\x00'`.
unfoldable pub pad_even : Bytes → Bytes
pad_even bs = if length bs % 2 == 0 then bs else bs ++ 0 ∷ []

-- The sum of the big-endian words of an even number of bytes.
unfoldable pub sum_words : Bytes → ℕ
sum_words [] = 0
sum_words (a ∷ []) = 0
sum_words (a ∷ b ∷ rest) = a * 256 + b + sum_words rest

-- `while s >> 16: s = (s & 0xFFFF) + (s >> 16)`, with fuel.
unfoldable pub fold_carry : ℕ → ℕ → ℕ
fold_carry zero s = s
fold_carry (suc fuel) s =
    let rest = fold_carry fuel (s % 65536 + s / 65536) in if s / 65536 == 0 then s else rest

-- A round takes at least 65535 away, so the sum itself is enough fuel.
unfoldable pub inet_cksum : Bytes → ℕ
unfolding pad_even sum_words fold_carry
inet_cksum bs = let s = sum_words (pad_even bs) in 65535 - fold_carry s s % 65536

-- What the loop computes: the representative of the sum in 1 to 65535 modulo 65535, or 0 for 0.
abbrev pub folded : ℕ → ℕ
folded s = if s == 0 then 0 else (s - 1) % 65535 + 1

pub fold_carry-folded : (fuel s : ℕ) → s ≤ fuel → fold_carry fuel s ≡ folded s
unfolding fold_carry
fold_carry-folded zero s h = ground arith
fold_carry-folded (suc fuel) s h = ground (arith, fold_carry-folded fuel (s % 65536 + s / 65536))

pub inet_cksum-folded : (bs : Bytes) → inet_cksum bs ≡ 65535 - folded (sum_words (pad_even bs))
unfolding inet_cksum
inet_cksum-folded bs = let s = sum_words (pad_even bs) in ground (arith, fold_carry-folded s s)

sum_words-append :
    (n : ℕ) (xs ys : Bytes) → length xs ≡ n + n → sum_words (xs ++ ys) ≡ sum_words xs + sum_words ys
unfolding sum_words
sum_words-append n [] ys h = omega arith
sum_words-append n (a ∷ []) ys h = absurd (omega arith)
sum_words-append zero (a ∷ b ∷ xs) ys h = absurd (omega arith)
sum_words-append (suc n) (a ∷ b ∷ xs) ys h = omega (arith, sum_words-append n xs ys)

sum_words_cons : (a b : ℕ) (ys : Bytes) → sum_words (a ∷ b ∷ ys) ≡ a * 256 + b + sum_words ys
unfolding sum_words
sum_words_cons a b ys = refl

pad_even-append :
    (n : ℕ) (xs ys : Bytes) → length xs ≡ n + n → pad_even (xs ++ ys) ≡ xs ++ pad_even ys
unfolding pad_even
pad_even-append n xs ys h = elim (Bool-cases (length ys % 2 == 0)) [
  | inl e ↦
      let f : (length (xs ++ ys) % 2 == 0) ≡ true = ground (arith, length-append xs ys) in rw (e, f)
  | inr e ↦
      let f : (length (xs ++ ys) % 2 == 0) ≡ false = ground (arith, length-append xs ys) in
      rw (e, f, append_assoc)
]

sum_around :
    (n : ℕ) (xs ys : Bytes) (hi lo : ℕ)
    → length xs ≡ n + n
    → sum_words (pad_even (xs ++ hi ∷ lo ∷ ys))
      ≡ sum_words xs + (hi * 256 + lo) + sum_words (pad_even ys)
sum_around n xs ys hi lo h =
    rw (pad_even-append n xs (hi ∷ lo ∷ ys) h, pad_even-append 1 (hi ∷ lo ∷ []) ys refl)
      (omega (
        arith,
        sum_words-append n xs (hi ∷ lo ∷ pad_even ys) h,
        sum_words_cons hi lo (pad_even ys),
      ))

-- A sum with the complement of its folding added folds to all ones.
folded_complement : (s : ℕ) → 65535 - folded (s + (65535 - folded s)) ≡ 0
folded_complement s = ground arith

-- A receiver that sums a message with its checksum in place finds 0: where the two bytes at an even
-- position were 0 when the checksum was taken, putting the checksum there makes the whole check.
pub inet_cksum_verifies :
    (n : ℕ) (xs ys : Bytes)
    → length xs ≡ n + n
    → inet_cksum (xs ++ (be16 (inet_cksum (xs ++ 0 ∷ 0 ∷ ys)) ++ ys)) ≡ 0
inet_cksum_verifies n xs ys h =
    let zeroed = xs ++ 0 ∷ 0 ∷ ys in
    let c = inet_cksum zeroed in
    let s = sum_words (pad_even zeroed) in
    let before : s ≡ sum_words xs + 0 + sum_words (pad_even ys) = sum_around n xs ys 0 0 h in
    let after : sum_words (pad_even (xs ++ (be16 c ++ ys))) ≡ s + (65535 - folded s) =
      omega (arith, sum_around n xs ys (c / 256) (c % 256) h, before, inet_cksum-folded zeroed) in
    inet_cksum-folded (xs ++ (be16 c ++ ys))
    ∙ ap (λ t. 65535 - folded t) after
    ∙ folded_complement s
