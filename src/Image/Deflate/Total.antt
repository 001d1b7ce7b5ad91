-- ===== src/Image/Deflate/Total.antt =====
-- Inflating ends: no loop uses up its fuel, since each of its rounds reads a bit.
use mathlib.Core.Path.{subst}
use pythonos.Prelude.{
  ℕ, zero, suc, ◌+◌, ◌-◌, ◌*◌, ◌/◌, ◌%◌, ◌<◌, ◌≤◌, ◌≢◌, ap, List, [], ◌∷◌, ◌++◌, Option, none, some,
  Bool, true, false, ◌==◌, ltb, if◌then◌else◌, Outcome, ok, err, raise, ◌>>=◌, get_elem?, get_or,
  length, set, replicate, arith,
}
use pythonos.Prelude.Bytes.{Bytes}
use pythonos.Image.Deflate.Bits.{
  DeflateError, out_of_fuel, index_error, before_start, bad_length_code, bad_dist_code,
  repeat_at_start, bad_len_code, bad_code_length, reserved_type, BitReader, Read, read_bits,
  read_byte_aligned, read_le16_aligned,
}
use pythonos.Image.Deflate.Huffman.{Codes, codes_from, huffman, decode, count_lengths}
use pythonos.Image.Deflate.Lengths.{
  Lengths, count, previous, add_length, add_lengths, repeat_previous, add_zeros, take_symbol,
  read_lengths, read_code_lens, built, dynamic_lengths,
}
use pythonos.Image.Deflate.Inflate.{
  entry, copy_from, copy_back, back_reference, inflate_symbols, stored_bytes, stored_block,
  coded_block, block, inflate_blocks, inflate, zlib_inflate, zlib_body, length_base, length_extra,
  dist_base, dist_extra,
}
use pythonos.Image.Deflate.Reads.{
  Fits, end_of, IsRaised, Ends, Goes, Ends-continue, Ends-le, pure-Goes, raise-Goes, read_bits-Goes,
  read_byte_aligned-Goes, read_le16_aligned-Goes, decode-Goes,
}

-- What code with the fuel `fuel` does from a reader that leaves fewer bits than that: it moves on
-- or raises an exception of the source.
record Works {A : Type 0} (fuel : ℕ) (m : Read A) : Type 0 where
  run : (r : BitReader) → Fits r → end_of r < r.pos + fuel → Ends 0 r (m r)

reads-Works : {A : Type 0} {k : ℕ} (fuel : ℕ) (m : Read A) → Goes k m → Works fuel m
reads-Works fuel m h = record { run = λ r fits e. Ends-le (m r) (omega arith) (h.run r fits) }

no_bits-Works : {A : Type 0} (m : Read A) → Works 0 m
no_bits-Works m = record { run = λ r fits e. absurd (omega (arith, fits, e)) }

bind-Works :
    {A B : Type 0} (fuel : ℕ) {m : Read A} {f : A → Read B}
    → Works fuel m
    → ((a : A) → Works fuel (f a))
    → Works fuel (m >>= f)
bind-Works fuel {m} {f} h g = record {
  run = λ r fits e.
      Ends-continue (m r) f (h.run r fits e)
        (λ a r' mv. (g a).run r' mv.fits (omega (arith, ap length mv.same, mv.further, e)));
}

-- A round that begins with a bit at least.
round-Works :
    {A B : Type 0} (fuel : ℕ) {m : Read A} {f : A → Read B}
    → Goes 1 m
    → ((a : A) → Works fuel (f a))
    → Works (suc fuel) (m >>= f)
round-Works fuel {m} {f} h g = record {
  run = λ r fits e. Ends-le _ (omega arith) (
      Ends-continue {k = 0} (m r) f (h.run r fits)
        (λ a r' mv. (g a).run r' mv.fits (omega (arith, ap length mv.same, mv.further, e))));
}

module _ (fuel : ℕ) {A : Type 0} where
  pure-Works : (a : A) → Works fuel (λ r. (ok a, r))
  pure-Works a = reads-Works fuel _ (pure-Goes a)

  raise-Works : (e : DeflateError) → IsRaised e → Works {A = A} fuel (raise e)
  raise-Works e h = reads-Works {k = 0} fuel (raise e) (raise-Goes e h)

  if-Works :
      (b : Bool) {m n : Read A} → Works fuel m → Works fuel n → Works fuel (if b then m else n)
  if-Works true g h = g
  if-Works false g h = h

  test-Works :
      (b : Bool) {m n : Read A}
      → Works fuel m
      → Works fuel n
      → Works fuel (elim b as (λ _. Read A) [ true ↦ m | false ↦ n ])
  test-Works true g h = g
  test-Works false g h = h

module _ (fuel : ℕ) where
  bits-Works : (n : ℕ) → Works fuel (read_bits n)
  bits-Works n = reads-Works fuel (read_bits n) (read_bits-Goes n)

  decode-Works : (codes : Codes) → Works fuel (decode codes)
  decode-Works codes = reads-Works fuel (decode codes) (decode-Goes codes)

  entry-Works : (e : DeflateError) (o : Option ℕ) → IsRaised e → Works fuel (entry e o)
  unfolding entry
  entry-Works e none h = raise-Works fuel e h
  entry-Works e (some n) h = pure-Works fuel n

  copy_from-Works : (src n : ℕ) (out : Bytes) → Works fuel (copy_from src n out)
  unfolding copy_from
  copy_from-Works src zero out = pure-Works fuel out
  copy_from-Works src (suc n) out =
      bind-Works fuel (entry-Works index_error (get_elem? out src) tt)
        (λ b. copy_from-Works (suc src) n (out ++ b ∷ []))

  copy_back-Works : (n dist : ℕ) (out : Bytes) → Works fuel (copy_back n dist out)
  unfolding copy_back
  copy_back-Works n dist out =
      if-Works fuel (ltb (length out) dist) (raise-Works fuel before_start tt)
        (copy_from-Works (length out - dist) n out)

  back_reference-Works :
      (dists : Codes) (s : ℕ) (out : Bytes) → Works fuel (back_reference dists s out)
  unfolding back_reference
  back_reference-Works dists s out =
      bind-Works fuel (entry-Works bad_length_code (get_elem? length_base (s - 257)) tt) (λ base.
        bind-Works fuel (bits-Works (get_or length_extra (s - 257) 0)) (λ extra.
          bind-Works fuel (decode-Works dists) (λ dsym.
            bind-Works fuel (entry-Works bad_dist_code (get_elem? dist_base dsym) tt) (λ dbase.
              bind-Works fuel (bits-Works (get_or dist_extra dsym 0))
                (λ dextra. copy_back-Works (base + extra) (dbase + dextra) out)))))

  add_zeros-Works : (hlit width base : ℕ) (ls : Lengths) → Works fuel (add_zeros hlit width base ls)
  unfolding add_zeros
  add_zeros-Works hlit width base ls =
      bind-Works fuel (bits-Works width) (λ n. pure-Works fuel (add_lengths hlit 0 (n + base) ls))

  repeat_previous-Works : (hlit : ℕ) (ls : Lengths) → Works fuel (repeat_previous hlit ls)
  unfolding repeat_previous
  repeat_previous-Works hlit ls = bind-Works fuel (bits-Works 2) (λ n.
      if-Works fuel (count ls == 0) (raise-Works fuel repeat_at_start tt)
        (pure-Works fuel (add_lengths hlit (previous ls) (n + 3) ls)))

  take_symbol-Works : (hlit s : ℕ) (ls : Lengths) → Works fuel (take_symbol hlit s ls)
  unfolding take_symbol
  take_symbol-Works hlit s ls = if-Works fuel (ltb s 16) (pure-Works fuel (add_length hlit s ls)) (
      if-Works fuel (s == 16) (repeat_previous-Works hlit ls) (
        if-Works fuel (s == 17) (add_zeros-Works hlit 3 3 ls) (
          if-Works fuel (s == 18) (add_zeros-Works hlit 7 11 ls)
            (raise-Works fuel bad_len_code tt))))

  read_code_lens-Works : (order lens : List ℕ) → Works fuel (read_code_lens order lens)
  unfolding read_code_lens
  read_code_lens-Works [] lens = pure-Works fuel lens
  read_code_lens-Works (i ∷ order) lens =
      bind-Works fuel (bits-Works 3) (λ l. read_code_lens-Works order (set lens i l))

  codes_from-Works : (ls : List ℕ) (o : Option (List ℕ)) → Works fuel (built (codes_from ls o))
  unfolding built codes_from
  codes_from-Works ls none = raise-Works fuel bad_code_length tt
  codes_from-Works ls (some counts) = pure-Works fuel _

  built-Works : (ls : List ℕ) → Works fuel (built (huffman ls))
  unfolding huffman
  built-Works ls = codes_from-Works ls (count_lengths ls (replicate 16 0))

  stored_bytes-Works : (n : ℕ) (out : Bytes) → Works fuel (stored_bytes n out)
  unfolding stored_bytes
  stored_bytes-Works zero out = pure-Works fuel out
  stored_bytes-Works (suc n) out =
      bind-Works fuel (reads-Works fuel read_byte_aligned read_byte_aligned-Goes)
        (λ b. stored_bytes-Works n (out ++ b ∷ []))

  stored_block-Works : (out : Bytes) → Works fuel (stored_block out)
  unfolding stored_block
  stored_block-Works out =
      bind-Works fuel (reads-Works fuel read_le16_aligned read_le16_aligned-Goes) (λ n.
        bind-Works fuel (reads-Works fuel read_le16_aligned read_le16_aligned-Goes)
          (λ _. stored_bytes-Works n out))

read_lengths-Works :
    (fuel : ℕ) (codes : Codes) (hlit total : ℕ) (ls : Lengths)
    → Works fuel (read_lengths fuel codes hlit total ls)
unfolding read_lengths
read_lengths-Works zero codes hlit total ls = no_bits-Works _
read_lengths-Works (suc fuel) codes hlit total ls =
    test-Works (suc fuel) (ltb (count ls) total)
      (round-Works fuel (decode-Goes codes) (λ s.
        bind-Works fuel (take_symbol-Works fuel hlit s ls)
          (λ ls'. read_lengths-Works fuel codes hlit total ls')))
      (pure-Works (suc fuel) ls)

inflate_symbols-Works :
    (fuel : ℕ) (lits dists : Codes) (out : Bytes) → Works fuel (inflate_symbols fuel lits dists out)
unfolding inflate_symbols
inflate_symbols-Works zero lits dists out = no_bits-Works _
inflate_symbols-Works (suc fuel) lits dists out = round-Works fuel (decode-Goes lits) (λ s.
    test-Works fuel (ltb s 256) (inflate_symbols-Works fuel lits dists (out ++ s ∷ [])) (
      test-Works fuel (s == 256) (pure-Works fuel out) (
        bind-Works fuel (back_reference-Works fuel dists s out)
          (λ out'. inflate_symbols-Works fuel lits dists out'))))

module _ (fuel : ℕ) where
  dynamic_lengths-Works : Works fuel (dynamic_lengths fuel)
  unfolding dynamic_lengths
  dynamic_lengths-Works = bind-Works fuel (bits-Works fuel 5) (λ hlit.
      bind-Works fuel (bits-Works fuel 5) (λ hdist. bind-Works fuel (bits-Works fuel 4) (λ hclen.
        bind-Works fuel (read_code_lens-Works fuel _ _) (λ lens.
          bind-Works fuel (built-Works fuel lens) (λ codes. read_lengths-Works fuel codes _ _ _)))))

  coded_block-Works : (ls : Lengths) (out : Bytes) → Works fuel (coded_block fuel ls out)
  unfolding coded_block
  coded_block-Works ls out = bind-Works fuel (built-Works fuel ls.lit) (λ lits.
      bind-Works fuel (built-Works fuel ls.dist)
        (λ dists. inflate_symbols-Works fuel lits dists out))

  block-Works : (btype : ℕ) (out : Bytes) → Works fuel (block fuel btype out)
  unfolding block
  block-Works btype out = if-Works fuel (btype == 0) (stored_block-Works fuel out) (
      if-Works fuel (btype == 1) (coded_block-Works _ out) (
        if-Works fuel (btype == 2)
          (bind-Works fuel dynamic_lengths-Works (λ ls. coded_block-Works ls out))
          (raise-Works fuel reserved_type tt)))

le-Works : {A : Type 0} (fuel bits : ℕ) (m : Read A) → fuel ≤ bits → Works bits m → Works fuel m
le-Works fuel bits m l h = record { run = λ r fits e. h.run r fits (omega (arith, e, l)) }

inflate_blocks-Works :
    (fuel bits : ℕ) (out : Bytes) → fuel ≤ bits → Works fuel (inflate_blocks fuel bits out)
unfolding inflate_blocks
inflate_blocks-Works zero bits out l = no_bits-Works _
inflate_blocks-Works (suc fuel) bits out l = round-Works fuel (read_bits-Goes 1) (λ bfinal.
    bind-Works fuel (bits-Works fuel 2) (λ btype.
      bind-Works fuel (le-Works fuel bits _ (omega (arith, l)) (block-Works bits btype out))
        (λ out'.
          test-Works fuel (bfinal == 0) (inflate_blocks-Works fuel bits out' (omega (arith, l)))
            (pure-Works fuel out'))))

abbrev IsSound : {A : Type 0} → Outcome DeflateError A → Type 0
IsSound (ok a) = Unit {0}
IsSound (err e) = IsRaised e

Ends-IsSound :
    {A : Type 0} {r : BitReader} (o : Outcome DeflateError A × BitReader) → Ends 0 r o → IsSound o.0
Ends-IsSound (ok a, r') h = tt
Ends-IsSound (err e, r') h = h.ends

IsSound-not_fuel : {A : Type 0} {o : Outcome DeflateError A} → IsSound o → o ≢ err out_of_fuel
IsSound-not_fuel h e = subst IsSound e h

inflate-IsSound : (bs : Bytes) → IsSound (inflate bs)
unfolding inflate
inflate-IsSound bs =
    let fuel = 8 * length bs + 1 in
    Ends-IsSound _ (
      (inflate_blocks-Works fuel fuel [] (omega arith)).run (record { bytes = bs; pos = 0 })
        (omega arith) (omega arith))

if-IsSound :
    {A : Type 0} (b : Bool) (x y : Outcome DeflateError A)
    → IsSound x
    → IsSound y
    → IsSound (if b then x else y)
if-IsSound true x y g h = g
if-IsSound false x y g h = h

zlib_inflate-IsSound : (bs : Bytes) → IsSound (zlib_inflate bs)
unfolding zlib_inflate
zlib_inflate-IsSound bs = if-IsSound (ltb (length bs) 6) _ _ tt (
    if-IsSound (get_or bs 0 0 % 16 == 8) _ _
      (if-IsSound ((get_or bs 0 0 * 256 + get_or bs 1 0) % 31 == 0) _ _
        (if-IsSound (get_or bs 1 0 / 32 % 2 == 0) _ _ (inflate-IsSound (zlib_body bs)) tt) tt)
      tt)

-- Decompression ends for any bytes: neither for a raw stream nor for one in a zlib wrapper does a
-- loop of the model stop for want of fuel, so the result is the data or an exception of the source.
pub inflate_total :
    (bs : Bytes) → (inflate bs ≢ err out_of_fuel) × (zlib_inflate bs ≢ err out_of_fuel)
inflate_total bs =
    (IsSound-not_fuel (inflate-IsSound bs), IsSound-not_fuel (zlib_inflate-IsSound bs))
