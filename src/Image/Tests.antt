-- ===== src/Image/Tests.antt =====
-- Runs of the decompressor and of the PNG decoder, and the witnesses of kernel/gui/image.
use pythonos.Prelude.{ℕ, [], ◌∷◌, ◌≡◌, ◌≢◌, refl, arith, ok, List, err, lookup, insert}
use pythonos.Prelude.Bytes.{Bytes}
use pythonos.Image.Deflate.Bits.{index_error, out_of_fuel, BitReader, read_bits, read_le16_aligned}
use pythonos.Image.Deflate.Huffman.{huffman, decode}
use pythonos.Image.Deflate.Lengths.{built}
use pythonos.Image.Deflate.Inflate.{zlib_inflate, inflate}
use pythonos.Image.Deflate.Total.{inflate_total}
use pythonos.Image.Deflate.Stored.{stored_stream, inflate-stored_stream}
use pythonos.Image.Png.Decode.{decode_png}
use pythonos.Image.Png.Refilter.{Row, sub, nearest, filter_rows}
use pythonos.Image.Png.Whole.{gray, Pixel, Part, png_bytes, decode_png-png_bytes}

abbrev fixed_stream : Bytes
fixed_stream = 120 ∷ 218 ∷ 75 ∷ 76 ∷ 74 ∷ 78 ∷ 132 ∷ 33 ∷ 69 ∷ 0 ∷ 34 ∷ 154 ∷ 4 ∷ 186 ∷ []

fixed_run :
    zlib_inflate fixed_stream
    ≡ ok (97 ∷ 98 ∷ 99 ∷ 97 ∷ 98 ∷ 99 ∷ 97 ∷ 98 ∷ 99 ∷ 97 ∷ 98 ∷ 99 ∷ 33 ∷ [])
unfolding zlib_inflate inflate read_bits built huffman decode lookup insert
fixed_run = refl

stored_run :
    zlib_inflate (120 ∷ 1 ∷ 1 ∷ 3 ∷ 0 ∷ 252 ∷ 255 ∷ 120 ∷ 121 ∷ 122 ∷ 2 ∷ 215 ∷ 1 ∷ 108 ∷ [])
    ≡ ok (120 ∷ 121 ∷ 122 ∷ [])
unfolding zlib_inflate inflate read_bits read_le16_aligned
stored_run = refl

-- A stream that stops in the middle of a block.
cut_run : inflate (75 ∷ 76 ∷ []) ≡ err index_error
unfolding inflate read_bits built huffman decode lookup insert
cut_run = refl

abbrev reader_at_start : BitReader
reader_at_start = record { bytes = []; pos = 0 }

inflate_total_example :
    (inflate fixed_stream ≢ err out_of_fuel) × (zlib_inflate fixed_stream ≢ err out_of_fuel)
inflate_total_example = inflate_total fixed_stream

inflate-stored_stream_example :
    inflate (stored_stream ((1 ∷ 2 ∷ []) ∷ [] ∷ []) (3 ∷ []) (9 ∷ [])) ≡ ok (1 ∷ 2 ∷ 3 ∷ [])
inflate-stored_stream_example = inflate-stored_stream ((1 ∷ 2 ∷ []) ∷ [] ∷ []) (3 ∷ []) (9 ∷ [])

-- Two rows of two gray pixels, the second filtered by Paeth.
abbrev two_rows : List Row
two_rows =
    record { filter = sub; row = 10 ∷ 20 ∷ [] }
    ∷ record { filter = nearest; row = 30 ∷ 5 ∷ [] }
    ∷ []

abbrev pixel : ℕ → Pixel
pixel v = record { r = v; g = 0; b = 0; a = 0 }

abbrev four_pixels : List Pixel
four_pixels = pixel 10 ∷ pixel 20 ∷ pixel 30 ∷ pixel 5 ∷ []

abbrev first_part : Part
first_part = record { body = 120 ∷ 1 ∷ 1 ∷ 6 ∷ 0 ∷ 249 ∷ 255 ∷ 1 ∷ []; crc = 1 ∷ 2 ∷ 3 ∷ 4 ∷ [] }

abbrev other_part : Part
other_part = record { body = 10 ∷ 10 ∷ 4 ∷ 20 ∷ 231 ∷ 0 ∷ 0 ∷ 0 ∷ 0 ∷ []; crc = 1 ∷ 2 ∷ 3 ∷ 4 ∷ [] }

decode_png-png_bytes_example :
    decode_png
      (png_bytes 2 2 gray (0 ∷ 0 ∷ 0 ∷ 0 ∷ []) (first_part ∷ other_part ∷ []) (9 ∷ 9 ∷ 9 ∷ 9 ∷ []))
    ≡ ok (record {
      w = 2;
      h = 2;
      pixels = 10 ∷ 10 ∷ 10 ∷ 255 ∷ 20 ∷ 20 ∷ 20 ∷ 255 ∷ 30 ∷ 30 ∷ 30 ∷ 255 ∷ 5 ∷ 5 ∷ 5 ∷ 255 ∷ [];
    })
unfolding zlib_inflate inflate read_bits read_le16_aligned filter_rows
decode_png-png_bytes_example =
    decode_png-png_bytes 2 gray two_rows four_pixels (0 ∷ 0 ∷ 0 ∷ 0 ∷ []) first_part
      (other_part ∷ []) [] (9 ∷ 9 ∷ 9 ∷ 9 ∷ []) (omega arith) (omega arith)
      (
        record { whole = refl; bytes = (omega arith, (omega arith, tt)) },
        (record { whole = refl; bytes = (omega arith, (omega arith, tt)) }, tt),
      )
      refl refl refl (refl, (refl, tt)) (omega arith) refl
