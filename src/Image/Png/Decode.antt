-- ===== src/Image/Png/Decode.antt =====
-- `decode_png`. A surface is its width, height and pixels; memory for it is taken as given.
use pythonos.Prelude.{
  ℕ, zero, suc, ◌*◌, List, [], ◌∷◌, ◌++◌, Bool, true, false, ◌||◌, not, ltb, ◌==◌, if◌then◌else◌,
  Outcome, ok, err, bytes_eq, drop, length,
}
use pythonos.Prelude.Bytes.{Bytes, byte_at}
use pythonos.Prelude.Text.{codes}
use pythonos.Image.Deflate.Bits.{DeflateError}
use pythonos.Image.Deflate.Inflate.{zlib_inflate}
use pythonos.Image.Png.Chunks.{
  PngError, short_ihdr, bad_compression, bad_filter_method, bad_interlace, bad_depth, bad_color,
  missing_ihdr, missing_idat, index_error, inflate_error, Chunk, u32_be, read_chunks,
}
use pythonos.Image.Png.Filters.{behind, unfilter}

pub record Surface : Type 0 where
  pub w : ℕ
  pub h : ℕ
  pub pixels : Bytes

-- The variables of the loop over the chunks.
pub record Header : Type 0 where
  pub width : ℕ
  pub height : ℕ
  pub color_type : ℕ
  pub idat : Bytes
  pub has_idat : Bool

abbrev pub no_header : Header
no_header = record { width = 0; height = 0; color_type = 0; idat = []; has_idat = false }

abbrev pub is_color : ℕ → Bool
is_color c = c == 0 || (c == 2 || (c == 4 || c == 6))

unfoldable pub ihdr : Bytes → Header → Outcome PngError Header
ihdr body h =
    if ltb (length body) 13
    then err short_ihdr
    else if not (byte_at body 10 == 0)
    then err bad_compression
    else if not (byte_at body 11 == 0)
    then err bad_filter_method
    else if not (byte_at body 12 == 0)
    then err bad_interlace
    else if not (byte_at body 8 == 8)
    then err bad_depth
    else if not (is_color (byte_at body 9))
    then err bad_color
    else ok (record h {
      width = u32_be body;
      height = u32_be (drop 4 body);
      color_type = byte_at body 9;
    })

unfoldable pub chunk : Chunk → Header → Outcome PngError Header
unfolding ihdr
chunk c h =
    if bytes_eq c.ctype (codes "IHDR")
    then ihdr c.body h
    else if bytes_eq c.ctype (codes "IDAT")
    then ok (record h { idat = h.idat ++ c.body; has_idat = true })
    else ok h

-- The loop over the chunks; the last is the first IEND, if there is one.
unfoldable pub read_header : List Chunk → Header → Outcome PngError Header
unfolding chunk
read_header [] h = ok h
read_header (c ∷ cs) h = elim (chunk c h) [ err e ↦ err e | ok h' ↦ read_header cs h' ]

abbrev pub bytes_per_pixel : ℕ → ℕ
bytes_per_pixel c = if c == 0 then 1 else if c == 2 then 3 else if c == 4 then 2 else 4

-- The loops that turn the pixels of the four colour types into blue, green, red and alpha.
unfoldable pub from_rgb : ℕ → Bytes → Outcome PngError Bytes
from_rgb zero ps = ok []
from_rgb (suc n) (r ∷ g ∷ b ∷ ps) = behind (b ∷ g ∷ r ∷ 255 ∷ []) (from_rgb n ps)
from_rgb (suc n) _ = err index_error

unfoldable pub from_rgba : ℕ → Bytes → Outcome PngError Bytes
from_rgba zero ps = ok []
from_rgba (suc n) (r ∷ g ∷ b ∷ a ∷ ps) = behind (b ∷ g ∷ r ∷ a ∷ []) (from_rgba n ps)
from_rgba (suc n) _ = err index_error

unfoldable pub from_gray : ℕ → Bytes → Outcome PngError Bytes
from_gray zero ps = ok []
from_gray (suc n) (v ∷ ps) = behind (v ∷ v ∷ v ∷ 255 ∷ []) (from_gray n ps)
from_gray (suc n) _ = err index_error

unfoldable pub from_gray_alpha : ℕ → Bytes → Outcome PngError Bytes
from_gray_alpha zero ps = ok []
from_gray_alpha (suc n) (v ∷ a ∷ ps) = behind (v ∷ v ∷ v ∷ a ∷ []) (from_gray_alpha n ps)
from_gray_alpha (suc n) _ = err index_error

unfoldable pub to_bgra : ℕ → ℕ → Bytes → Outcome PngError Bytes
unfolding from_rgb from_rgba from_gray from_gray_alpha
to_bgra c n ps =
    if c == 2
    then from_rgb n ps
    else if c == 6
    then from_rgba n ps
    else if c == 0
    then from_gray n ps
    else from_gray_alpha n ps

-- What follows the loop, step by step.
unfoldable pub paint : Header → Outcome PngError Bytes → Outcome PngError Surface
unfolding to_bgra
paint h (err e) = err e
paint h (ok ps) = elim (to_bgra h.color_type (h.width * h.height) ps) [
  | err e ↦ err e
  | ok pixels ↦ ok (record { w = h.width; h = h.height; pixels = pixels })
]

unfoldable pub decode_raw : Header → Outcome DeflateError Bytes → Outcome PngError Surface
unfolding paint unfilter
decode_raw h (err e) = err (inflate_error e)
decode_raw h (ok raw) = paint h (unfilter raw h.width h.height (bytes_per_pixel h.color_type))

unfoldable pub decode_header : Outcome PngError Header → Outcome PngError Surface
unfolding decode_raw
decode_header (err e) = err e
decode_header (ok h) =
    if h.width == 0 || h.height == 0
    then err missing_ihdr
    else if not h.has_idat
    then err missing_idat
    else decode_raw h (zlib_inflate h.idat)

unfoldable pub decode_chunks : Outcome PngError (List Chunk) → Outcome PngError Surface
unfolding decode_header read_header
decode_chunks (err e) = err e
decode_chunks (ok cs) = decode_header (read_header cs no_header)

unfoldable pub decode_png : Bytes → Outcome PngError Surface
unfolding decode_chunks read_chunks
decode_png bs = decode_chunks (read_chunks bs)
