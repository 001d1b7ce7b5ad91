-- ===== src/Fs/Ext2/Bitmap.antt =====
-- kernel/fs/ext2.py: bitmap allocation.
use pythonos.Prelude.{
  ℕ, zero, suc, ◌+◌, ◌-◌, ◌*◌, ◌/◌, ◌%◌, ◌^◌, [], ◌∷◌, Option, none, some, Bool, leb, ◌==◌,
  if◌then◌else◌, Outcome, ok, err, pure, raise, ◌>>=◌, ◌>>◌, set, get_elem?, get_or,
}
use pythonos.Prelude.Bytes.{Bytes}
use pythonos.Fs.Ext2.Fields.{Ext2Error, index_error, bitmap_full, lift}
use pythonos.Fs.Ext2.Device.{Run, read_block, write_block}

-- `byte & (1 << bit)`, `byte | (1 << bit)` and `byte & ~(1 << bit)`.
unfoldable pub has_bit : ℕ → ℕ → Bool
has_bit bit byte = byte / 2 ^ bit % 2 == 1

unfoldable pub with_bit : ℕ → ℕ → ℕ
unfolding has_bit
with_bit bit byte = if has_bit bit byte then byte else byte + 2 ^ bit

unfoldable pub without_bit : ℕ → ℕ → ℕ
unfolding has_bit
without_bit bit byte = if has_bit bit byte then byte - 2 ^ bit else byte

-- `for bit in range(8)`: the first index from `idx` on that is below `count` and clear.
unfoldable pub clear_in_byte : ℕ → ℕ → ℕ → ℕ → ℕ → Option ℕ
unfolding has_bit
clear_in_byte count byte zero bit idx = none
clear_in_byte count byte (suc left) bit idx =
    let rest = clear_in_byte count byte left (bit + 1) (idx + 1) in
    if leb count idx then none else if has_bit bit byte then rest else some idx

-- `for byte_i in range((count + 7) // 8)`, over the bytes from the index `byte_i` on.
unfoldable pub find_clear : ℕ → ℕ → ℕ → Bytes → Outcome Ext2Error ℕ
unfolding clear_in_byte
find_clear count zero byte_i bm = err bitmap_full
find_clear count (suc left) byte_i [] = err index_error
find_clear count (suc left) byte_i (byte ∷ bm) =
    let rest = find_clear count left (byte_i + 1) bm in
    if byte == 0xFF
    then rest
    else elim (clear_in_byte count byte 8 0 (byte_i * 8)) [ none ↦ rest | some idx ↦ ok idx ]

unfoldable pub first_clear : ℕ → Bytes → Outcome Ext2Error ℕ
unfolding find_clear
first_clear count bm = find_clear count ((count + 7) / 8) 0 bm

unfoldable pub set_at : ℕ → Bytes → Bytes
unfolding with_bit
set_at idx bm = set bm (idx / 8) (with_bit (idx % 8) (get_or bm (idx / 8) 0))

unfoldable pub clear_at : ℕ → Bytes → Bytes
unfolding without_bit
clear_at idx bm = set bm (idx / 8) (without_bit (idx % 8) (get_or bm (idx / 8) 0))

unfoldable pub bit_at : ℕ → Bytes → Bool
unfolding has_bit
bit_at idx bm = has_bit (idx % 8) (get_or bm (idx / 8) 0)

unfoldable pub alloc_in_bitmap : ℕ → ℕ → Run ℕ
unfolding read_block write_block first_clear set_at
alloc_in_bitmap bitmap_block count = do
  bm ← read_block bitmap_block
  idx ← lift (first_clear count bm)
  write_block bitmap_block (set_at idx bm)
  pure idx

unfoldable pub byte_of : ℕ → Bytes → Run ℕ
byte_of i bm = elim (get_elem? bm i) [ none ↦ raise index_error | some b ↦ pure b ]

-- A bit that is clear already is tolerated.
unfoldable pub free_in_bitmap : ℕ → ℕ → Run (Unit {0})
unfolding read_block write_block byte_of has_bit clear_at
free_in_bitmap bitmap_block idx = do
  bm ← read_block bitmap_block
  byte ← byte_of (idx / 8) bm
  if has_bit (idx % 8) byte then write_block bitmap_block (clear_at idx bm) else pure tt
