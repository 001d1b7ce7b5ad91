-- ===== src/Image/Deflate/Inflate.antt =====
-- `inflate` and `zlib_inflate`.
use pythonos.Prelude.{
  ℕ, zero, suc, ◌+◌, ◌-◌, ◌*◌, ◌/◌, ◌%◌, List, [], ◌∷◌, ◌++◌, Option, none, some, true, false, ◌==◌,
  ltb, if◌then◌else◌, Outcome, err, raise, pure, ◌>>=◌, get_elem?, get_or, take, drop, length,
}
use pythonos.Prelude.Bytes.{Bytes}
use pythonos.Image.Deflate.Bits.{
  DeflateError, index_error, bad_length_code, bad_dist_code, before_start, reserved_type,
  stream_too_short, bad_method, bad_check, preset_dictionary, out_of_fuel, Read, read_bits,
  read_byte_aligned, read_le16_aligned,
}
use pythonos.Image.Deflate.Huffman.{Codes, huffman, decode}
use pythonos.Image.Deflate.Lengths.{
  Lengths, fixed_lit_lengths, fixed_dist_lengths, dynamic_lengths, built,
}

abbrev pub length_base : List ℕ
length_base =
    3 ∷ 4 ∷ 5 ∷ 6 ∷ 7 ∷ 8 ∷ 9 ∷ 10 ∷ 11 ∷ 13 ∷ 15 ∷ 17 ∷ 19 ∷ 23 ∷ 27 ∷ 31 ∷ 35 ∷ 43 ∷ 51 ∷ 59 ∷ 67
    ∷ 83 ∷ 99 ∷ 115 ∷ 131 ∷ 163 ∷ 195 ∷ 227 ∷ 258 ∷ []

abbrev pub length_extra : List ℕ
length_extra =
    0 ∷ 0 ∷ 0 ∷ 0 ∷ 0 ∷ 0 ∷ 0 ∷ 0 ∷ 1 ∷ 1 ∷ 1 ∷ 1 ∷ 2 ∷ 2 ∷ 2 ∷ 2 ∷ 3 ∷ 3 ∷ 3 ∷ 3 ∷ 4 ∷ 4 ∷ 4 ∷ 4
    ∷ 5 ∷ 5 ∷ 5 ∷ 5 ∷ 0 ∷ []

abbrev pub dist_base : List ℕ
dist_base =
    1 ∷ 2 ∷ 3 ∷ 4 ∷ 5 ∷ 7 ∷ 9 ∷ 13 ∷ 17 ∷ 25 ∷ 33 ∷ 49 ∷ 65 ∷ 97 ∷ 129 ∷ 193 ∷ 257 ∷ 385 ∷ 513 ∷ 769
    ∷ 1025 ∷ 1537 ∷ 2049 ∷ 3073 ∷ 4097 ∷ 6145 ∷ 8193 ∷ 12289 ∷ 16385 ∷ 24577 ∷ []

abbrev pub dist_extra : List ℕ
dist_extra =
    0 ∷ 0 ∷ 0 ∷ 0 ∷ 1 ∷ 1 ∷ 2 ∷ 2 ∷ 3 ∷ 3 ∷ 4 ∷ 4 ∷ 5 ∷ 5 ∷ 6 ∷ 6 ∷ 7 ∷ 7 ∷ 8 ∷ 8 ∷ 9 ∷ 9 ∷ 10 ∷ 10
    ∷ 11 ∷ 11 ∷ 12 ∷ 12 ∷ 13 ∷ 13 ∷ []

-- An entry of a table, or the exception for an index behind its end.
unfoldable pub entry : DeflateError → Option ℕ → Read ℕ
entry e none = raise e
entry e (some n) = pure n

-- `for k in range(length): out.append(out[src + k])`.
unfoldable pub copy_from : ℕ → ℕ → Bytes → Read Bytes
unfolding entry
copy_from src zero out = pure out
copy_from src (suc n) out = do
  b ← entry index_error (get_elem? out src)
  copy_from (suc src) n (out ++ b ∷ [])

unfoldable pub copy_back : ℕ → ℕ → Bytes → Read Bytes
unfolding copy_from
copy_back n dist out =
    if ltb (length out) dist then raise before_start else copy_from (length out - dist) n out

-- The branch for a length symbol.
unfoldable pub back_reference : Codes → ℕ → Bytes → Read Bytes
unfolding copy_back entry
back_reference dists sym out = do
  base ← entry bad_length_code (get_elem? length_base (sym - 257))
  extra ← read_bits (get_or length_extra (sym - 257) 0)
  dsym ← decode dists
  dbase ← entry bad_dist_code (get_elem? dist_base dsym)
  dextra ← read_bits (get_or dist_extra dsym 0)
  copy_back (base + extra) (dbase + dextra) out

-- The inner `while True`, with fuel: a round reads a bit at least.
unfoldable pub inflate_symbols : ℕ → Codes → Codes → Bytes → Read Bytes
unfolding back_reference
inflate_symbols zero lits dists out = raise out_of_fuel
inflate_symbols (suc fuel) lits dists out = do
  sym ← decode lits
  elim (ltb sym 256) [
    | true ↦ inflate_symbols fuel lits dists (out ++ sym ∷ [])
    | false ↦ elim (sym == 256) [
      | true ↦ pure out
      | false ↦ do out' ← back_reference dists sym out; inflate_symbols fuel lits dists out'
    ]
  ]

unfoldable pub stored_bytes : ℕ → Bytes → Read Bytes
stored_bytes zero out = pure out
stored_bytes (suc n) out = do b ← read_byte_aligned; stored_bytes n (out ++ b ∷ [])

unfoldable pub stored_block : Bytes → Read Bytes
unfolding stored_bytes
stored_block out = do n ← read_le16_aligned; _ ← read_le16_aligned; stored_bytes n out

-- A block of codes, from its lengths on.
unfoldable pub coded_block : ℕ → Lengths → Bytes → Read Bytes
unfolding inflate_symbols
coded_block fuel ls out = do
  lits ← built (huffman ls.lit)
  dists ← built (huffman ls.dist)
  inflate_symbols fuel lits dists out

unfoldable pub block : ℕ → ℕ → Bytes → Read Bytes
unfolding stored_block coded_block
block fuel btype out =
    if btype == 0
    then stored_block out
    else if btype == 1
    then coded_block fuel (record { lit = fixed_lit_lengths; dist = fixed_dist_lengths }) out
    else if btype == 2
    then (do ls ← dynamic_lengths fuel; coded_block fuel ls out)
    else raise reserved_type

-- The outer `while True`; `bits` is the fuel of the inner ones.
unfoldable pub inflate_blocks : ℕ → ℕ → Bytes → Read Bytes
unfolding block
inflate_blocks zero bits out = raise out_of_fuel
inflate_blocks (suc fuel) bits out = do
  bfinal ← read_bits 1
  btype ← read_bits 2
  out' ← block bits btype out
  elim (bfinal == 0) [ true ↦ inflate_blocks fuel bits out' | false ↦ pure out' ]

-- Each loop may have as many rounds as there are bits, and one to find that there are no more.
unfoldable pub inflate : Bytes → Outcome DeflateError Bytes
unfolding inflate_blocks
inflate bs =
    let fuel = 8 * length bs + 1 in (inflate_blocks fuel fuel [] (record { bytes = bs; pos = 0 })).0

-- `data[2:-4]`, for data of six bytes at least.
abbrev pub zlib_body : Bytes → Bytes
zlib_body bs = take (length bs - 6) (drop 2 bs)

unfoldable pub zlib_inflate : Bytes → Outcome DeflateError Bytes
zlib_inflate bs =
    let cmf = get_or bs 0 0 in
    let flg = get_or bs 1 0 in
    if ltb (length bs) 6
    then err stream_too_short
    else if cmf % 16 == 8
    then (if (cmf * 256 + flg) % 31 == 0
        then (if flg / 32 % 2 == 0 then inflate (zlib_body bs) else err preset_dictionary)
        else err bad_check)
    else err bad_method
