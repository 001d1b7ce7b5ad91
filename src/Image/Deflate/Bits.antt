-- ===== src/Image/Deflate/Bits.antt =====
-- `_BitReader`. A read past the end is Python's IndexError.
use pythonos.Prelude.{
  ℕ, zero, suc, ◌+◌, ◌*◌, ◌/◌, ◌%◌, ◌^◌, Option, none, some, Outcome, Exec, ok, err, pure, ◌>>=◌,
  get_elem?,
}
use pythonos.Prelude.Bytes.{Bytes}

-- The exceptions of the module. `out_of_fuel` is the model's own, for its loops.
pub data DeflateError : Type 0 where
  index_error bad_code_length bad_code repeat_at_start bad_len_code : DeflateError
  bad_length_code bad_dist_code before_start reserved_type : DeflateError
  stream_too_short bad_method bad_check preset_dictionary : DeflateError
  out_of_fuel : DeflateError

pub record BitReader : Type 0 where
  pub bytes : Bytes
  pub pos : ℕ

abbrev pub Read : Type 0 → Type 0
Read A = Exec BitReader DeflateError A

unfoldable pub bit_in : Option ℕ → BitReader → Outcome DeflateError ℕ × BitReader
bit_in none r = (err index_error, r)
bit_in (some byte) r = (ok (byte / 2 ^ (r.pos % 8) % 2), record r { pos = r.pos + 1 })

-- One round of the loop of `read_bits`: `self.data[self.pos >> 3]` and its bit `self.pos & 7`.
unfoldable pub read_bit : Read ℕ
unfolding bit_in
read_bit r = bit_in (get_elem? r.bytes (r.pos / 8)) r

-- The loop from round `i`, with `n` rounds to go. The new bit does not meet those of `v`, so `|=`
-- is a sum.
unfoldable pub read_bits_from : ℕ → ℕ → ℕ → Read ℕ
unfolding read_bit
read_bits_from i zero v = pure v
read_bits_from i (suc n) v = do bit ← read_bit; read_bits_from (suc i) n (v + bit * 2 ^ i)

unfoldable pub read_bits : ℕ → Read ℕ
unfolding read_bits_from
read_bits n = read_bits_from 0 n 0

abbrev pub align_to_byte : BitReader → BitReader
align_to_byte r = record r { pos = (r.pos + 7) / 8 * 8 }

unfoldable pub byte_in : Option ℕ → BitReader → Outcome DeflateError ℕ × BitReader
byte_in none r = (err index_error, r)
byte_in (some byte) r = (ok byte, record r { pos = r.pos + 8 })

unfoldable pub read_byte_aligned : Read ℕ
unfolding byte_in
read_byte_aligned r = let r' = align_to_byte r in byte_in (get_elem? r'.bytes (r'.pos / 8)) r'

-- Bytes are below 256, so `lo | (hi << 8)` is a sum.
unfoldable pub read_le16_aligned : Read ℕ
unfolding read_byte_aligned
read_le16_aligned = do lo ← read_byte_aligned; hi ← read_byte_aligned; pure (lo + hi * 256)
