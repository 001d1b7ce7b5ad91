-- ===== src/Image/Png/Chunks.antt =====
-- `_read_chunks`. The generator raises only before its first chunk, so its chunks are a list.
use pythonos.Prelude.{
  ℕ, zero, suc, List, [], ◌∷◌, ltb, if◌then◌else◌, Outcome, ok, err, bytes_eq, take, drop, length,
}
use pythonos.Prelude.Bytes.{Bytes, be_value}
use pythonos.Prelude.Text.{codes, starts_with}
use pythonos.Image.Deflate.Bits.{DeflateError}

-- The exceptions of the module, and those of inflate.
pub data PngError : Type 0 where
  missing_signature short_ihdr bad_compression bad_filter_method bad_interlace : PngError
  bad_depth bad_color missing_ihdr missing_idat index_error : PngError
  unknown_filter : ℕ → PngError
  inflate_error : DeflateError → PngError

pub record Chunk : Type 0 where
  pub ctype : Bytes
  pub body : Bytes

abbrev pub png_sig : Bytes
png_sig = 137 ∷ 80 ∷ 78 ∷ 71 ∷ 13 ∷ 10 ∷ 26 ∷ 10 ∷ []

-- `_u32_be` at the start of bytes that are long enough.
abbrev pub u32_be : Bytes → ℕ
u32_be bs = be_value (take 4 bs)

-- The chunk at the start, and what is behind its checksum.
abbrev pub first_chunk : Bytes → Chunk
first_chunk bs = record { ctype = take 4 (drop 4 bs); body = take (u32_be bs) (drop 8 bs) }

abbrev pub behind_chunk : Bytes → Bytes
behind_chunk bs = drop 4 (drop (u32_be bs) (drop 8 bs))

-- The loop, on what is left of the data. Each round takes 12 bytes or more.
unfoldable pub chunks_from : ℕ → Bytes → List Chunk
chunks_from zero bs = []
chunks_from (suc fuel) bs =
    let c = first_chunk bs in
    let rest = chunks_from fuel (behind_chunk bs) in
    if ltb (length bs) 12 then [] else if bytes_eq c.ctype (codes "IEND") then c ∷ [] else c ∷ rest

unfoldable pub read_chunks : Bytes → Outcome PngError (List Chunk)
unfolding chunks_from starts_with
read_chunks bs =
    if starts_with png_sig bs
    then ok (chunks_from (length bs) (drop 8 bs))
    else err missing_signature
