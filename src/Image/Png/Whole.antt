-- ===== src/Image/Png/Whole.antt =====
-- A whole file is decoded to the picture that it was made from.
use pythonos.Prelude.{
  ℕ, ◌*◌, ◌<◌, ◌≤◌, ◌≡◌, ◌∙◌, refl, sym, ap, subst, List, [], ◌∷◌, ◌++◌, true, false, ◌==◌, ok, All,
  length, replicate, append-nil, append_assoc, arith,
}
use pythonos.Prelude.Bytes.{Bytes, be32}
use pythonos.Prelude.Text.{codes}
use pythonos.Image.Deflate.Inflate.{zlib_inflate}
use pythonos.Image.Png.Chunks.{png_sig, u32_be}
use pythonos.Image.Png.Filters.{behind, unfilter}
use pythonos.Image.Png.Decode.{
  Header, no_header, ihdr, chunk, read_header, bytes_per_pixel, from_rgb, from_rgba, from_gray,
  from_gray_alpha, to_bgra, paint, decode_raw, decode_header, decode_chunks, decode_png,
}
use pythonos.Image.Png.Refilter.{Row, IsRow, filter_rows, joined_rows, unfilter-filter_rows}
use pythonos.Image.Png.Reread.{Stored, IsInner, chunks_of, chunks_bytes, read_chunks-chunks_bytes}

pub data Color : Type 0 where
  gray rgb gray_alpha rgba : Color

abbrev pub number : Color → ℕ
number gray = 0
number rgb = 2
number gray_alpha = 4
number rgba = 6

-- A gray pixel has its brightness as red.
pub record Pixel : Type 0 where
  pub r : ℕ
  pub g : ℕ
  pub b : ℕ
  pub a : ℕ

-- The bytes of a pixel in the file, and on the surface: without an alpha it is opaque.
abbrev pub file_bytes : Color → List Pixel → Bytes
file_bytes c [] = []
file_bytes gray (p ∷ ps) = p.r ∷ file_bytes gray ps
file_bytes rgb (p ∷ ps) = p.r ∷ p.g ∷ p.b ∷ file_bytes rgb ps
file_bytes gray_alpha (p ∷ ps) = p.r ∷ p.a ∷ file_bytes gray_alpha ps
file_bytes rgba (p ∷ ps) = p.r ∷ p.g ∷ p.b ∷ p.a ∷ file_bytes rgba ps

abbrev pub shown_bytes : Color → List Pixel → Bytes
shown_bytes c [] = []
shown_bytes gray (p ∷ ps) = p.r ∷ p.r ∷ p.r ∷ 255 ∷ shown_bytes gray ps
shown_bytes rgb (p ∷ ps) = p.b ∷ p.g ∷ p.r ∷ 255 ∷ shown_bytes rgb ps
shown_bytes gray_alpha (p ∷ ps) = p.r ∷ p.r ∷ p.r ∷ p.a ∷ shown_bytes gray_alpha ps
shown_bytes rgba (p ∷ ps) = p.b ∷ p.g ∷ p.r ∷ p.a ∷ shown_bytes rgba ps

to_bgra-file_bytes :
    (c : Color) (ps : List Pixel)
    → to_bgra (number c) (length ps) (file_bytes c ps) ≡ ok (shown_bytes c ps)
unfolding to_bgra from_rgb from_rgba from_gray from_gray_alpha
to_bgra-file_bytes gray [] = refl
to_bgra-file_bytes rgb [] = refl
to_bgra-file_bytes gray_alpha [] = refl
to_bgra-file_bytes rgba [] = refl
to_bgra-file_bytes gray (p ∷ ps) =
    ap (behind (p.r ∷ p.r ∷ p.r ∷ 255 ∷ [])) (to_bgra-file_bytes gray ps)
to_bgra-file_bytes rgb (p ∷ ps) =
    ap (behind (p.b ∷ p.g ∷ p.r ∷ 255 ∷ [])) (to_bgra-file_bytes rgb ps)
to_bgra-file_bytes gray_alpha (p ∷ ps) =
    ap (behind (p.r ∷ p.r ∷ p.r ∷ p.a ∷ [])) (to_bgra-file_bytes gray_alpha ps)
to_bgra-file_bytes rgba (p ∷ ps) =
    ap (behind (p.b ∷ p.g ∷ p.r ∷ p.a ∷ [])) (to_bgra-file_bytes rgba ps)

-- A part of the compressed data, with its checksum.
pub record Part : Type 0 where
  pub body : Bytes
  pub crc : Bytes

abbrev pub IsPart : Part → Type 0
IsPart p = length p.crc ≡ 4

abbrev pub joined_parts : List Part → Bytes
joined_parts [] = []
joined_parts (p ∷ ps) = p.body ++ joined_parts ps

abbrev pub idats : List Part → List Stored
idats [] = []
idats (p ∷ ps) =
    record { chunk = record { ctype = codes "IDAT"; body = p.body }; crc = p.crc } ∷ idats ps

idats-IsInner : (ps : List Part) → All IsPart ps → All IsInner (idats ps)
idats-IsInner [] h = tt
idats-IsInner (p ∷ ps) h = (record { four = refl; crc = h.0; inner = refl }, idats-IsInner ps h.1)

abbrev pub ihdr_body : ℕ → ℕ → Color → Bytes
ihdr_body w h c = be32 w ++ (be32 h ++ (8 ∷ number c ∷ 0 ∷ 0 ∷ 0 ∷ []))

abbrev pub ihdr_stored : ℕ → ℕ → Color → Bytes → Stored
ihdr_stored w h c crc = record {
  chunk = record { ctype = codes "IHDR"; body = ihdr_body w h c };
  crc = crc;
}

-- The loop behind the first part.
read_header-idats :
    (ps : List Part) (h : Header)
    → read_header (chunks_of (idats ps)) (record h { has_idat = true })
      ≡ ok (record h { idat = h.idat ++ joined_parts ps; has_idat = true })
unfolding read_header chunk
read_header-idats [] h =
    ap (λ bs. ok (record h { idat = bs; has_idat = true })) (sym (append-nil h.idat))
read_header-idats (p ∷ ps) h =
    read_header-idats ps (record h { idat = h.idat ++ p.body })
    ∙ ap (λ bs. ok (record h { idat = bs; has_idat = true }))
        (append_assoc h.idat p.body (joined_parts ps))

abbrev made : ℕ → ℕ → Color → Bytes → Header
made w h c idat = record {
  width = w;
  height = h;
  color_type = number c;
  idat = idat;
  has_idat = true;
}

u32_be_lem : (v : ℕ) (rest : Bytes) → u32_be (be32 v ++ rest) ≡ v
u32_be_lem v rest = omega arith

run-ihdr :
    (w h : ℕ) (c : Color)
    → ihdr (ihdr_body w h c) no_header ≡ ok (record (made w h c []) { has_idat = false })
unfolding ihdr
run-ihdr w h gray = rw (u32_be_lem w, u32_be_lem h) refl
run-ihdr w h rgb = rw (u32_be_lem w, u32_be_lem h) refl
run-ihdr w h gray_alpha = rw (u32_be_lem w, u32_be_lem h) refl
run-ihdr w h rgba = rw (u32_be_lem w, u32_be_lem h) refl

abbrev pub png_bytes : ℕ → ℕ → Color → Bytes → List Part → Bytes → Bytes
png_bytes w h c crc ps rest = png_sig ++ chunks_bytes (ihdr_stored w h c crc ∷ idats ps) rest

read_header-file :
    (w h : ℕ) (c : Color) (crc : Bytes) (p : Part) (ps : List Part)
    → read_header (chunks_of (ihdr_stored w h c crc ∷ idats (p ∷ ps))) no_header
      ≡ ok (made w h c (joined_parts (p ∷ ps)))
unfolding read_header chunk
read_header-file w h c crc p ps =
    rw (run-ihdr w h c, read_header) (read_header-idats ps (made w h c p.body))

run-paint :
    (w h : ℕ) (c : Color) (z : Bytes) (px : List Pixel)
    → length px ≡ w * h
    → paint (made w h c z) (ok (file_bytes c px))
      ≡ ok (record { w = w; h = h; pixels = shown_bytes c px })
unfolding paint
run-paint w h c z px n =
    let converted : to_bgra (number c) (w * h) (file_bytes c px) ≡ ok (shown_bytes c px) =
      subst (λ k. to_bgra (number c) k (file_bytes c px) ≡ ok (shown_bytes c px)) n
        (to_bgra-file_bytes c px) in
    rw (converted, paint) refl

run-decode_header :
    (w h : ℕ) (c : Color) (z raw : Bytes) (px : List Pixel)
    → 0 < w
    → 0 < h
    → length px ≡ w * h
    → zlib_inflate z ≡ ok raw
    → unfilter raw w h (bytes_per_pixel (number c)) ≡ ok (file_bytes c px)
    → decode_header (ok (made w h c z)) ≡ ok (record { w = w; h = h; pixels = shown_bytes c px })
unfolding decode_header decode_raw paint
run-decode_header w h c z raw px hw hh n e k =
    let wide : (w == 0) ≡ false = ground (arith, hw) in
    let high : (h == 0) ≡ false = ground (arith, hh) in
    rw (wide, high, e, k) (run-paint w h c z px n)

-- The rows of a picture in any of the four colour types, each filtered by any filter, then compressed by
-- anything that `zlib_inflate` undoes, and cut into IDAT chunks anywhere, are decoded to the pixels of
-- the picture, with any checksums and whatever follows the last chunk.
pub decode_png-png_bytes :
    (width : ℕ) (c : Color) (rs : List Row) (px : List Pixel) (crc : Bytes) (p : Part)
    (ps : List Part) (extra rest : Bytes)
    → 0 < width
    → 0 < length rs
    → All (IsRow (width * bytes_per_pixel (number c))) rs
    → joined_rows rs ≡ file_bytes c px
    → length px ≡ width * length rs
    → length crc ≡ 4
    → All IsPart (p ∷ ps)
    → 4 ≤ length rest
    → zlib_inflate (joined_parts (p ∷ ps))
      ≡ ok (
          filter_rows
            (bytes_per_pixel (number c))
            rs
            (replicate (width * bytes_per_pixel (number c)) 0)
          ++ extra)
    → decode_png (png_bytes width (length rs) c crc (p ∷ ps) rest)
      ≡ ok (record { w = width; h = length rs; pixels = shown_bytes c px })
unfolding decode_png decode_chunks
decode_png-png_bytes width c rs px crc p ps extra rest hw hh rows same count four parts k z =
    let head : IsInner (ihdr_stored width (length rs) c crc) = record {
      four = refl;
      crc = four;
      inner = refl;
    } in
    let bpp = bytes_per_pixel (number c) in
    let ss = ihdr_stored width (length rs) c crc ∷ idats (p ∷ ps) in
    let unfiltered = unfilter-filter_rows width bpp rs extra rows ∙ ap ok same in
    ap decode_chunks (read_chunks-chunks_bytes ss rest (head, idats-IsInner (p ∷ ps) parts) k)
    ∙ ap decode_header (read_header-file width (length rs) c crc p ps)
    ∙ run-decode_header width (length rs) c (joined_parts (p ∷ ps))
        (filter_rows bpp rs (replicate (width * bpp) 0) ++ extra) px hw hh count z unfiltered
