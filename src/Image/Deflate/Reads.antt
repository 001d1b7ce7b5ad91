-- ===== src/Image/Deflate/Reads.antt =====
-- What reading does to the reader: it moves forward inside the data, or stops with an exception of
-- the source. So do the reads of bits and bytes, and the decoding of a symbol.
use pythonos.Prelude.{
  ℕ, zero, suc, ◌+◌, ◌*◌, ◌/◌, ◌^◌, ◌<◌, ◌≤◌, ◌≡◌, ◌∙◌, refl, [], ◌∷◌, Option, none, some, Outcome,
  ok, err, raise, continue, ◌>>=◌, get_elem?, length, lookup, arith,
}
use pythonos.Prelude.Bytes.{Bytes}
use pythonos.Image.Deflate.Bits.{
  DeflateError, out_of_fuel, bad_code, BitReader, Read, bit_in, read_bit, read_bits_from, read_bits,
  align_to_byte, byte_in, read_byte_aligned, read_le16_aligned,
}
use pythonos.Image.Deflate.Huffman.{Codes, Eq-CodeKey, found_or, decode_from, decode}

abbrev pub end_of : BitReader → ℕ
end_of r = 8 * length r.bytes

abbrev pub Fits : BitReader → Type 0
Fits r = r.pos ≤ end_of r

-- From `r` to `r'`, over `k` bits at least.
pub record Moves (k : ℕ) (r r' : BitReader) : Type 0 where
  pub same : r'.bytes ≡ r.bytes
  pub further : r.pos + k ≤ r'.pos
  pub fits : Fits r'

-- An exception of the source.
abbrev pub IsRaised : DeflateError → Type 0
IsRaised out_of_fuel = ⊥
IsRaised _ = Unit {0}

abbrev EndsAs : {A : Type 0} → ℕ → BitReader → Outcome DeflateError A × BitReader → Type 0
EndsAs k r (ok a, r') = Moves k r r'
EndsAs k r (err e, r') = IsRaised e

-- How a read from `r` ends: `k` bits further at least, or by an exception of the source.
pub record Ends {A : Type 0} (k : ℕ) (r : BitReader) (o : Outcome DeflateError A × BitReader)
    : Type 0 where
  pub ends : EndsAs k r o

pub record Goes {A : Type 0} (k : ℕ) (m : Read A) : Type 0 where
  pub run : (r : BitReader) → Fits r → Ends k r (m r)

pub Moves-trans : {j k : ℕ} {a b c : BitReader} → Moves j a b → Moves k b c → Moves (j + k) a c
Moves-trans h h' = record {
  same = h'.same ∙ h.same;
  further = omega (arith, h.further, h'.further);
  fits = h'.fits;
}

Ends-Moves :
    {A : Type 0} {j k : ℕ} {r r' : BitReader} (o : Outcome DeflateError A × BitReader)
    → Moves j r r'
    → Ends k r' o
    → Ends (j + k) r o
Ends-Moves (ok a, r'') m h = record { ends = Moves-trans m h.ends }
Ends-Moves (err e, r'') m h = record { ends = h.ends }

pub Ends-continue :
    {A B : Type 0} {j k : ℕ} {r : BitReader} (o : Outcome DeflateError A × BitReader)
    (f : A → Read B)
    → Ends j r o
    → ((a : A) (r' : BitReader) → Moves j r r' → Ends k r' (f a r'))
    → Ends (j + k) r (continue o f)
Ends-continue (ok a, r') f h g = Ends-Moves (f a r') h.ends (g a r' h.ends)
Ends-continue (err e, r') f h g = record { ends = h.ends }

pub Ends-le :
    {A : Type 0} {j k : ℕ} {r : BitReader} (o : Outcome DeflateError A × BitReader)
    → j ≤ k
    → Ends k r o
    → Ends j r o
Ends-le (ok a, r') l h = record {
  ends = record {
    same = h.ends.same;
    further = omega (arith, l, h.ends.further);
    fits = h.ends.fits;
  };
}
Ends-le (err e, r') l h = record { ends = h.ends }

pub Goes-le : {A : Type 0} {j k : ℕ} (m : Read A) → j ≤ k → Goes k m → Goes j m
Goes-le m l h = record { run = λ r fits. Ends-le (m r) l (h.run r fits) }

-- A chain of reads goes as far as its parts.
pub Goes-bind :
    {A B : Type 0} {j k : ℕ} (m : Read A) (f : A → Read B)
    → Goes j m
    → ((a : A) → Goes k (f a))
    → Goes (j + k) (m >>= f)
Goes-bind m f h g = record {
  run = λ r fits. Ends-continue (m r) f (h.run r fits) (λ a r' mv. (g a).run r' mv.fits);
}

pub pure-Goes : {A : Type 0} (a : A) → Goes 0 (λ r. (ok a, r))
pure-Goes a = record {
  run = λ r fits. record { ends = record { same = refl; further = omega arith; fits = fits } };
}

pub raise-Goes : {A : Type 0} {k : ℕ} (e : DeflateError) → IsRaised e → Goes {A = A} k (raise e)
raise-Goes e h = record { run = λ r fits. record { ends = h } }

get_elem?-lt : (bs : Bytes) (i b : ℕ) → get_elem? bs i ≡ some b → i < length bs
get_elem?-lt [] i b h = ground (arith, h)
get_elem?-lt (x ∷ bs) zero b h = omega arith
get_elem?-lt (x ∷ bs) (suc i) b h = omega (arith, get_elem?-lt bs i b h)

bit_in-Ends :
    (o : Option ℕ) (r : BitReader)
    → get_elem? r.bytes (r.pos / 8) ≡ o
    → Fits r
    → Ends 1 r (bit_in o r)
unfolding bit_in
bit_in-Ends none r e fits = record { ends = tt }
bit_in-Ends (some b) r e fits = record {
  ends = record {
    same = refl;
    further = omega arith;
    fits = omega (arith, get_elem?-lt r.bytes (r.pos / 8) b e);
  };
}

read_bit-Goes : Goes 1 read_bit
unfolding read_bit
read_bit-Goes = record { run = λ r. bit_in-Ends (get_elem? r.bytes (r.pos / 8)) r refl }

read_bits_from-Goes : (i n v : ℕ) → Goes n (read_bits_from i n v)
unfolding read_bits_from
read_bits_from-Goes i zero v = pure-Goes v
read_bits_from-Goes i (suc n) v = Goes-le _ (omega arith) (
    Goes-bind read_bit (λ bit. read_bits_from (suc i) n (v + bit * 2 ^ i)) read_bit-Goes
      (λ bit. read_bits_from-Goes (suc i) n (v + bit * 2 ^ i)))

pub read_bits-Goes : (n : ℕ) → Goes n (read_bits n)
unfolding read_bits
read_bits-Goes n = read_bits_from-Goes 0 n 0

byte_in-Ends :
    (o : Option ℕ) (r : BitReader)
    → get_elem? r.bytes ((r.pos + 7) / 8) ≡ o
    → Fits r
    → Ends 0 r (byte_in o (align_to_byte r))
unfolding byte_in
byte_in-Ends none r e fits = record { ends = tt }
byte_in-Ends (some b) r e fits = record {
  ends = record {
    same = refl;
    further = omega arith;
    fits = omega (arith, get_elem?-lt r.bytes ((r.pos + 7) / 8) b e);
  };
}

mul_div_eight : (n : ℕ) → n * 8 / 8 ≡ n
mul_div_eight n = omega arith

pub read_byte_aligned-Goes : Goes 0 read_byte_aligned
unfolding read_byte_aligned
read_byte_aligned-Goes = record {
  run = λ r fits.
      (rw (mul_div_eight ((r.pos + 7) / 8))
        (byte_in-Ends (get_elem? r.bytes ((r.pos + 7) / 8)) r refl fits));
}

pub read_le16_aligned-Goes : Goes 0 read_le16_aligned
unfolding read_le16_aligned
read_le16_aligned-Goes =
    Goes-bind read_byte_aligned _ read_byte_aligned-Goes
      (λ lo. Goes-bind read_byte_aligned _ read_byte_aligned-Goes (λ hi. pure-Goes (lo + hi * 256)))

found_or-Goes : (o : Option ℕ) (more : Read ℕ) → Goes 0 more → Goes 0 (found_or o more)
unfolding found_or
found_or-Goes none more h = h
found_or-Goes (some s) more h = pure-Goes s

decode_from-Goes : (codes : Codes) (bits n code : ℕ) → Goes 1 (decode_from codes bits n code)
unfolding decode_from
decode_from-Goes codes bits zero code = raise-Goes bad_code tt
decode_from-Goes codes bits (suc n) code = Goes-bind (read_bits 1) _ (read_bits-Goes 1) (λ bit.
    found_or-Goes (lookup (record { bits = suc bits; code = code * 2 + bit }) codes) _
      (Goes-le _ (omega arith) (decode_from-Goes codes (suc bits) n (code * 2 + bit))))

pub decode-Goes : (codes : Codes) → Goes 1 (decode codes)
unfolding decode
decode-Goes codes = decode_from-Goes codes 0 15 0
