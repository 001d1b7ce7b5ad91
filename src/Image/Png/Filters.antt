-- ===== src/Image/Png/Filters.antt =====
-- `_paeth` and `_unfilter`. The bytes of the output are kept as those written so far: the source writes
-- each once, from left to right, before it reads it.
use pythonos.Prelude.{
  ℕ, zero, suc, ◌+◌, ◌-◌, ◌*◌, ◌/◌, ◌%◌, [], ◌∷◌, ◌++◌, ◌&&◌, leb, ◌==◌, if◌then◌else◌, Outcome, ok,
  err, take, drop, length, replicate,
}
use pythonos.Prelude.Bytes.{Bytes, byte_at}
use pythonos.Image.Png.Chunks.{PngError, index_error, unknown_filter}

-- abs(a - b)
abbrev pub dist : ℕ → ℕ → ℕ
dist a b = a - b + (b - a)

-- With p = a + b - c: `pa`, `pb` and `pc` are the distances of `a + b` from `a + c`, `b + c` and `c + c`.
unfoldable pub paeth : ℕ → ℕ → ℕ → ℕ
paeth a b c =
    let pa = dist (a + b) (a + c) in
    let pb = dist (a + b) (b + c) in
    let pc = dist (a + b) (c + c) in
    if leb pa pb && leb pa pc then a else if leb pb pc then b else c

-- What the filters 1 to 4 add to a byte, from its neighbours `left`, `up` and `ul`.
unfoldable pub predict : ℕ → ℕ → ℕ → ℕ → ℕ
unfolding paeth
predict ftype left up ul =
    if ftype == 1
    then left
    else if ftype == 2
    then up
    else if ftype == 3
    then (left + up) / 2
    else paeth left up ul

-- `row[x - bpp] if x >= bpp else 0`.
abbrev pub back : ℕ → ℕ → Bytes → ℕ
back bpp x row = if leb bpp x then byte_at row (x - bpp) else 0

-- What is added to the byte behind `row`, the bytes that the row has so far.
unfoldable pub predicted : ℕ → ℕ → Bytes → Bytes → ℕ
unfolding predict
predicted ftype bpp prev row =
    let x = length row in predict ftype (back bpp x row) (byte_at prev x) (back bpp x prev)

-- The loop over the bytes of a row, with `n` of them to go.
unfoldable pub unfilter_bytes : ℕ → ℕ → Bytes → ℕ → Bytes → Bytes → Outcome PngError Bytes
unfolding predicted
unfilter_bytes ftype bpp prev zero raw row = ok row
unfilter_bytes ftype bpp prev (suc n) [] row = err index_error
unfilter_bytes ftype bpp prev (suc n) (b ∷ raw) row =
    unfilter_bytes ftype bpp prev n raw (row ++ (b + predicted ftype bpp prev row) % 256 ∷ [])

unfoldable pub unfilter_row : ℕ → ℕ → ℕ → Bytes → Bytes → Outcome PngError Bytes
unfolding unfilter_bytes
unfilter_row ftype bpp stride prev raw =
    if ftype == 0
    then ok (take stride raw)
    else if leb ftype 4
    then unfilter_bytes ftype bpp prev stride raw []
    else err (unknown_filter ftype)

-- The bytes that the rest of a loop adds to those it has.
abbrev pub behind : Bytes → Outcome PngError Bytes → Outcome PngError Bytes
behind row (ok bs) = ok (row ++ bs)
behind row (err e) = err e

-- The loop over the rows.
unfoldable pub unfilter_rows : ℕ → ℕ → ℕ → Bytes → Bytes → Outcome PngError Bytes
unfolding unfilter_row
unfilter_rows bpp stride zero prev raw = ok []
unfilter_rows bpp stride (suc h) prev [] = err index_error
unfilter_rows bpp stride (suc h) prev (ftype ∷ raw) =
    elim (unfilter_row ftype bpp stride prev raw) [
      | err e ↦ err e
      | ok row ↦ behind row (unfilter_rows bpp stride h row (drop stride raw))
    ]

unfoldable pub unfilter : Bytes → ℕ → ℕ → ℕ → Outcome PngError Bytes
unfolding unfilter_rows
unfilter raw width height bpp =
    unfilter_rows bpp (width * bpp) height (replicate (width * bpp) 0) raw
