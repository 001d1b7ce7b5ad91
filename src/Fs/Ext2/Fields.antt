-- ===== src/Fs/Ext2/Fields.antt =====
-- kernel/fs/ext2.py: its errors, and `struct.unpack_from` and `struct.pack_into` with the
-- little-endian formats B, H and I. A buffer is a value: what a method writes into one, it returns.
use pythonos.Prelude.{
  ℕ, zero, suc, ◌+◌, ◌*◌, ◌/◌, ◌%◌, ◌^◌, [], ◌∷◌, ◌++◌, ltb, if◌then◌else◌, Outcome, Exec, ok, err,
  length, take, drop,
}
use pythonos.Prelude.Bytes.{Bytes}
use pythonos.Prelude.Text.{Text}

-- `bitmap_full`, `no_free_blocks`, `no_free_inodes` and `not_empty` are an OSError; `bad_magic`,
-- `bad_block_size`, `bad_write`, `bad_inode` and `bad_name` a ValueError; `unsupported` and
-- `triple_indirect` a NotImplementedError. `stuck` is the model's own: a loop out of fuel.
pub data Ext2Error : Type 0 where
  struct_error index_error zero_division : Ext2Error
  bad_magic bad_block_size bad_write bad_inode bad_name : Ext2Error
  unsupported triple_indirect : Ext2Error
  bitmap_full no_free_blocks no_free_inodes : Ext2Error
  is_a_directory not_a_directory : Ext2Error
  not_empty file_not_found file_exists : Text → Ext2Error
  stuck : Ext2Error

-- An integer that may have fallen below zero. `negsuc n` is -(n + 1).
pub data ℤ : Type 0 where
  pos : ℕ → ℤ
  negsuc : ℕ → ℤ

abbrev pub plus_one : ℤ → ℤ
plus_one (pos n) = pos (n + 1)
plus_one (negsuc zero) = pos 0
plus_one (negsuc (suc n)) = negsuc n

abbrev pub minus_one : ℤ → ℤ
minus_one (pos zero) = negsuc 0
minus_one (pos (suc n)) = pos n
minus_one (negsuc n) = negsuc (suc n)

abbrev pub lift : {S E A : Type 0} → Outcome E A → Exec S E A
lift o s = (o, s)

unfoldable pub le_value : Bytes → ℕ
le_value [] = 0
le_value (x ∷ xs) = x + 256 * le_value xs

unfoldable pub le_bytes : ℕ → ℕ → Bytes
le_bytes zero v = []
le_bytes (suc w) v = v % 256 ∷ le_bytes w (v / 256)

-- b[off:off + len(xs)] = xs
unfoldable pub splice : ℕ → Bytes → Bytes → Bytes
splice off xs b = take off b ++ (xs ++ drop (length xs) (drop off b))

-- One unsigned field of `w` bytes.
unfoldable pub unpack : ℕ → ℕ → Bytes → Outcome Ext2Error ℕ
unfolding le_value
unpack w off b =
    if ltb (length b) (off + w) then err struct_error else ok (le_value (take w (drop off b)))

unfoldable pub pack : ℕ → ℕ → ℕ → Bytes → Outcome Ext2Error Bytes
unfolding le_bytes splice
pack w off v b =
    if ltb (length b) (off + w)
    then err struct_error
    else if ltb v (256 ^ w)
    then ok (splice off (le_bytes w v) b)
    else err struct_error

unfoldable pub pack_int : ℕ → ℕ → ℤ → Bytes → Outcome Ext2Error Bytes
unfolding pack
pack_int w off (pos v) b = pack w off v b
pack_int w off (negsuc v) b = err struct_error
