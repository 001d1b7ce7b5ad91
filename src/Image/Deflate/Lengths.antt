-- ===== src/Image/Deflate/Lengths.antt =====
-- The code lengths of a block: the fixed ones, and those that a dynamic block carries.
use pythonos.Prelude.{
  ℕ, zero, suc, ◌+◌, List, [], ◌∷◌, ◌++◌, true, false, ◌==◌, ltb, if◌then◌else◌, Outcome, ok, err,
  raise, pure, ◌>>=◌, set, replicate, take, length,
}
use pythonos.Image.Deflate.Bits.{
  DeflateError, repeat_at_start, bad_len_code, out_of_fuel, Read, read_bits,
}
use pythonos.Image.Deflate.Huffman.{Codes, huffman, decode}

abbrev pub fixed_lit_lengths : List ℕ
fixed_lit_lengths = replicate 144 8 ++ (replicate 112 9 ++ (replicate 24 7 ++ replicate 8 8))

abbrev pub fixed_dist_lengths : List ℕ
fixed_dist_lengths = replicate 32 5

abbrev pub code_len_order : List ℕ
code_len_order =
    16 ∷ 17 ∷ 18 ∷ 0 ∷ 8 ∷ 7 ∷ 9 ∷ 6 ∷ 10 ∷ 5 ∷ 11 ∷ 4 ∷ 12 ∷ 3 ∷ 13 ∷ 2 ∷ 14 ∷ 1 ∷ 15 ∷ []

-- `lit_lengths` and `dist_lengths`.
pub record Lengths : Type 0 where
  pub lit : List ℕ
  pub dist : List ℕ

abbrev pub count : Lengths → ℕ
count ls = length ls.lit + length ls.dist

abbrev pub last_or : List ℕ → ℕ → ℕ
last_or [] d = d
last_or (x ∷ xs) d = last_or xs x

-- The last length of all: of `dist_lengths` if there is one, else of `lit_lengths`.
abbrev pub previous : Lengths → ℕ
previous ls = last_or ls.dist (last_or ls.lit 0)

unfoldable pub add_length : ℕ → ℕ → Lengths → Lengths
add_length hlit l ls =
    if ltb (length ls.lit) hlit
    then record ls { lit = ls.lit ++ l ∷ [] }
    else record ls { dist = ls.dist ++ l ∷ [] }

-- `for _ in range(n)`.
unfoldable pub add_lengths : ℕ → ℕ → ℕ → Lengths → Lengths
unfolding add_length
add_lengths hlit l zero ls = ls
add_lengths hlit l (suc n) ls = add_lengths hlit l n (add_length hlit l ls)

unfoldable pub repeat_previous : ℕ → Lengths → Read Lengths
unfolding add_lengths
repeat_previous hlit ls = do
  n ← read_bits 2
  if count ls == 0 then raise repeat_at_start else pure (add_lengths hlit (previous ls) (n + 3) ls)

unfoldable pub add_zeros : ℕ → ℕ → ℕ → Lengths → Read Lengths
unfolding add_lengths
add_zeros hlit width base ls = do n ← read_bits width; pure (add_lengths hlit 0 (n + base) ls)

-- One round of the loop, after `sym` is decoded.
unfoldable pub take_symbol : ℕ → ℕ → Lengths → Read Lengths
unfolding add_length repeat_previous add_zeros
take_symbol hlit sym ls =
    if ltb sym 16
    then pure (add_length hlit sym ls)
    else if sym == 16
    then repeat_previous hlit ls
    else if sym == 17
    then add_zeros hlit 3 3 ls
    else if sym == 18
    then add_zeros hlit 7 11 ls
    else raise bad_len_code

-- The `while` loop, with fuel: a round reads a bit at least.
unfoldable pub read_lengths : ℕ → Codes → ℕ → ℕ → Lengths → Read Lengths
unfolding take_symbol
read_lengths zero codes hlit total ls = raise out_of_fuel
read_lengths (suc fuel) codes hlit total ls = elim (ltb (count ls) total) [
  | true ↦ (do
    sym ← decode codes
    ls' ← take_symbol hlit sym ls
    read_lengths fuel codes hlit total ls')
  | false ↦ pure ls
]

-- The loop that reads the lengths of the code length code, in their order.
unfoldable pub read_code_lens : List ℕ → List ℕ → Read (List ℕ)
read_code_lens [] lens = pure lens
read_code_lens (i ∷ order) lens = do l ← read_bits 3; read_code_lens order (set lens i l)

-- A constructor that may raise, inside code that reads.
unfoldable pub built : Outcome DeflateError Codes → Read Codes
built (ok codes) r = (ok codes, r)
built (err e) r = (err e, r)

unfoldable pub dynamic_lengths : ℕ → Read Lengths
unfolding read_lengths read_code_lens built
dynamic_lengths fuel = do
  hlit ← read_bits 5
  hdist ← read_bits 5
  hclen ← read_bits 4
  code_lens ← read_code_lens (take (hclen + 4) code_len_order) (replicate 19 0)
  codes ← built (huffman code_lens)
  let total = hlit + 257 + (hdist + 1)
  read_lengths fuel codes (hlit + 257) total (record { lit = []; dist = [] })
