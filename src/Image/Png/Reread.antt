-- ===== src/Image/Png/Reread.antt =====
-- Chunks that are written one after the other are read back, and the loop over the chunks ends.
use pythonos.Prelude.{
  ℕ, zero, suc, ◌+◌, ◌-◌, ◌<◌, ◌≤◌, ◌≡◌, refl, sym, ap, subst, List, [], ◌∷◌, ◌++◌, Bool, true,
  false, Bool-cases, inl, inr, ltb, if◌then◌else◌, ok, All, bytes_eq, length, drop, length-append,
  length-drop, take-append_length, drop-append_length, arith,
}
use pythonos.Prelude.Bytes.{Bytes, be32, be_value, length_four}
use pythonos.Prelude.Text.{codes}
use pythonos.Image.Png.Chunks.{
  Chunk, png_sig, first_chunk, behind_chunk, u32_be, chunks_from, read_chunks,
}

-- A chunk in a file: its length, type, body and checksum, before the rest of the file.
abbrev pub chunk_bytes : Chunk → Bytes → Bytes → Bytes
chunk_bytes c crc rest = be32 (length c.body) ++ (c.ctype ++ (c.body ++ (crc ++ rest)))

-- A chunk with its checksum, which is four bytes of any value.
pub record Stored : Type 0 where
  pub chunk : Chunk
  pub crc : Bytes

abbrev is_end : Chunk → Bool
is_end c = bytes_eq c.ctype (codes "IEND")

pub record IsInner (s : Stored) : Type 0 where
  pub four : length s.chunk.ctype ≡ 4
  pub crc : length s.crc ≡ 4
  pub inner : is_end s.chunk ≡ false

abbrev pub iend : Chunk
iend = record { ctype = codes "IEND"; body = [] }

-- The chunks, the end, and what may follow it.
abbrev pub chunks_bytes : List Stored → Bytes → Bytes
chunks_bytes [] rest = chunk_bytes iend [] rest
chunks_bytes (s ∷ ss) rest = chunk_bytes s.chunk s.crc (chunks_bytes ss rest)

abbrev pub chunks_of : List Stored → List Chunk
chunks_of [] = iend ∷ []
chunks_of (s ∷ ss) = s.chunk ∷ chunks_of ss

u32_be_lem : (v : ℕ) → be_value (be32 v) ≡ v
u32_be_lem v = omega arith

read_first :
    (c : Chunk) (crc rest : Bytes)
    → length c.ctype ≡ 4
    → (first_chunk (chunk_bytes c crc rest) ≡ c)
      × (behind_chunk (chunk_bytes c crc rest) ≡ drop 4 (crc ++ rest))
read_first c crc rest h =
    let (p, q, r, s, e) = length_four c.ctype h in
    rw
      (
        e,
        u32_be_lem (length c.body),
        take-append_length c.body (crc ++ rest),
        drop-append_length (length c.body) c.body (crc ++ rest) refl,
      )
      (refl, refl)

twelve :
    (c : Chunk) (crc rest : Bytes)
    → length c.ctype ≡ 4
    → length (chunk_bytes c crc rest) ≡ 8 + length c.body + length (crc ++ rest)
twelve c crc rest h =
    omega (
      arith,
      h,
      length-append c.ctype (c.body ++ (crc ++ rest)),
      length-append c.body (crc ++ rest),
    )

short-chunks_from : (fuel : ℕ) (bs : Bytes) → length bs < 12 → chunks_from fuel bs ≡ []
unfolding chunks_from
short-chunks_from zero bs h = refl
short-chunks_from (suc fuel) bs h =
    let short : ltb (length bs) 12 ≡ true = ground (arith, h) in rw short refl

run-chunks_from :
    (fuel : ℕ) (bs : Bytes)
    → 12 ≤ length bs
    → chunks_from (suc fuel) bs ≡ (
        if is_end (first_chunk bs)
        then first_chunk bs ∷ []
        else first_chunk bs ∷ chunks_from fuel (behind_chunk bs))
unfolding chunks_from
run-chunks_from fuel bs long =
    let there : ltb (length bs) 12 ≡ false = ground (arith, long) in rw there refl

chunks_from-chunks_bytes :
    (ss : List Stored) (rest : Bytes) (fuel : ℕ)
    → All IsInner ss
    → 4 ≤ length rest
    → length ss < fuel
    → chunks_from fuel (chunks_bytes ss rest) ≡ chunks_of ss
chunks_from-chunks_bytes ss rest zero h k enough = absurd (omega (arith, enough))
chunks_from-chunks_bytes [] rest (suc fuel) h k enough =
    run-chunks_from fuel (chunk_bytes iend [] rest) (omega (arith, twelve iend [] rest refl, k))
chunks_from-chunks_bytes (s ∷ ss) rest (suc fuel) h k enough =
    let below = chunks_bytes ss rest in
    let (first, behind) = read_first s.chunk s.crc below h.0.four in
    let long : 12 ≤ length (chunk_bytes s.chunk s.crc below) =
      omega (arith, twelve s.chunk s.crc below h.0.four, length-append s.crc below, h.0.crc) in
    let run =
      subst
        (λ c. chunks_from (suc fuel) (chunk_bytes s.chunk s.crc below) ≡ (
          if is_end c
          then c ∷ []
          else c ∷ chunks_from fuel (behind_chunk (chunk_bytes s.chunk s.crc below))))
        first (run-chunks_from fuel (chunk_bytes s.chunk s.crc below) long) in
    rw
      (
        run,
        h.0.inner,
        behind,
        drop-append_length 4 s.crc below (sym h.0.crc),
        chunks_from-chunks_bytes ss rest fuel h.1 k (omega (arith, enough)),
      )
      refl

length-chunks_bytes :
    (ss : List Stored) (rest : Bytes) → All IsInner ss → length ss < length (chunks_bytes ss rest)
length-chunks_bytes [] rest h = omega (arith, twelve iend [] rest refl)
length-chunks_bytes (s ∷ ss) rest h =
    let below = chunks_bytes ss rest in
    omega (
      arith,
      twelve s.chunk s.crc below h.0.four,
      length-append s.crc below,
      length-chunks_bytes ss rest h.1,
    )

-- A file of any chunks before an IEND, with any checksums, is read as these chunks, whatever follows.
pub read_chunks-chunks_bytes :
    (ss : List Stored) (rest : Bytes)
    → All IsInner ss
    → 4 ≤ length rest
    → read_chunks (png_sig ++ chunks_bytes ss rest) ≡ ok (chunks_of ss)
unfolding read_chunks
read_chunks-chunks_bytes ss rest h k =
    let bs = png_sig ++ chunks_bytes ss rest in
    let enough : length ss < length bs =
      omega (arith, length-append png_sig (chunks_bytes ss rest), length-chunks_bytes ss rest h) in
    ap ok (chunks_from-chunks_bytes ss rest (length bs) h k enough)

shorter : (bs : Bytes) → length (behind_chunk bs) ≤ length bs - 12
shorter bs =
    let body = drop 8 bs in
    omega
      (arith, length-drop 8 bs, length-drop (u32_be bs) body, length-drop 4 (drop (u32_be bs) body))

-- The loop over the chunks ends by itself on any data: its fuel, the length of the data, changes nothing.
pub chunks_from_total :
    (n m : ℕ) (bs : Bytes) → length bs ≤ n → length bs ≤ m → chunks_from n bs ≡ chunks_from m bs
chunks_from_total zero m bs h k =
    rw (short-chunks_from zero bs (omega (arith, h)), short-chunks_from m bs (omega (arith, h)))
      refl
chunks_from_total (suc n) zero bs h k =
    rw
      (
        short-chunks_from zero bs (omega (arith, k)),
        short-chunks_from (suc n) bs (omega (arith, k)),
      )
      refl
chunks_from_total (suc n) (suc m) bs h k = elim (Bool-cases (ltb (length bs) 12)) [
  | inl e ↦
      let short : length bs < 12 = ground (arith, e) in
      rw (short-chunks_from (suc n) bs short, short-chunks_from (suc m) bs short) refl
  | inr e ↦
      let long : 12 ≤ length bs = ground (arith, e) in
      rw
        (
          run-chunks_from n bs long,
          run-chunks_from m bs long,
          chunks_from_total n m (behind_chunk bs) (omega (arith, shorter bs, h, long))
              (omega (arith, shorter bs, k, long)),
        )
        refl
]
