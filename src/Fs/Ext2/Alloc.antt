-- ===== src/Fs/Ext2/Alloc.antt =====
-- kernel/fs/ext2.py: `_alloc_block`, `_free_block`, `_alloc_inode` and `_free_inode`.
use pythonos.Prelude.{
  ℕ, zero, suc, ◌+◌, ◌-◌, ◌*◌, ◌/◌, ◌%◌, Bool, leb, ◌==◌, if◌then◌else◌, Outcome, ok, err, pure,
  raise, modify, ◌>>=◌, ◌>>◌, length,
}
use pythonos.Fs.Ext2.Fields.{
  Ext2Error, index_error, zero_division, no_free_blocks, no_free_inodes, ℤ, pos, plus_one,
  minus_one, lift,
}
use pythonos.Fs.Ext2.Super.{Superblock, num_groups}
use pythonos.Fs.Ext2.Device.{
  Run, get, Descriptor, bgd_get, bgd_set_counters, flush_bgdt, flush_superblock,
}
use pythonos.Fs.Ext2.Bitmap.{alloc_in_bitmap, free_in_bitmap}

-- `divmod(a - b, n)` with the list index that the quotient is: a negative one counts from the end of
-- the `groups` descriptors.
unfoldable pub locate : ℕ → ℕ → ℕ → ℕ → Outcome Ext2Error (ℕ × ℕ)
locate groups a b zero = err zero_division
locate groups a b (suc m) =
    if leb b a
    then ok ((a - b) / suc m, (a - b) % suc m)
    else (let back = (b - a + m) / suc m in
        if leb back groups then ok (groups - back, back * suc m - (b - a)) else err index_error)

unfoldable pub add_free_blocks : (ℤ → ℤ) → Run (Unit {0})
add_free_blocks f =
    modify (λ fs. record fs { sb = record fs.sb { free_blocks_count = f fs.sb.free_blocks_count } })

unfoldable pub add_free_inodes : (ℤ → ℤ) → Run (Unit {0})
add_free_inodes f =
    modify (λ fs. record fs { sb = record fs.sb { free_inodes_count = f fs.sb.free_inodes_count } })

unfoldable pub flush : Run (Unit {0})
unfolding flush_bgdt flush_superblock
flush = flush_bgdt >> flush_superblock

-- The blocks of a group: the last one may be short.
unfoldable pub blocks_in_group : Superblock → ℕ → ℕ
unfolding num_groups
blocks_in_group sb g =
    if g + 1 == num_groups sb
    then sb.blocks_count - (sb.first_data_block + g * sb.blocks_per_group)
    else sb.blocks_per_group

unfoldable pub take_block : Superblock → ℕ → Descriptor → Run ℕ
unfolding blocks_in_group alloc_in_bitmap bgd_set_counters add_free_blocks flush
take_block sb g d = do
  local ← alloc_in_bitmap d.block_bitmap (blocks_in_group sb g)
  bgd_set_counters g (d.free_blocks - 1) d.free_inodes (pos d.used_dirs)
  add_free_blocks minus_one
  flush
  pure (sb.first_data_block + g * sb.blocks_per_group + local)

-- The loop of `_alloc_block` from group `g` on.
unfoldable pub alloc_block_from : ℕ → ℕ → Run ℕ
unfolding bgd_get take_block
alloc_block_from zero g = raise no_free_blocks
alloc_block_from (suc left) g = do
  sb ← get (λ fs. fs.sb)
  d ← bgd_get g
  let rest = alloc_block_from left (g + 1)
  if d.free_blocks == 0 then rest else take_block sb g d

unfoldable pub alloc_block : Run ℕ
unfolding num_groups alloc_block_from
alloc_block fs = alloc_block_from (num_groups fs.sb) 0 fs

unfoldable pub free_block : ℕ → Run (Unit {0})
unfolding locate bgd_get free_in_bitmap bgd_set_counters add_free_blocks flush
free_block block_no = do
  sb ← get (λ fs. fs.sb)
  groups ← get (λ fs. length fs.bgdt)
  (g, local) ← lift (locate groups block_no sb.first_data_block sb.blocks_per_group)
  d ← bgd_get g
  free_in_bitmap d.block_bitmap local
  bgd_set_counters g (d.free_blocks + 1) d.free_inodes (pos d.used_dirs)
  add_free_blocks plus_one
  flush

unfoldable pub take_inode : Superblock → ℕ → Bool → Descriptor → Run ℕ
unfolding alloc_in_bitmap bgd_set_counters add_free_inodes flush
take_inode sb g is_dir d = do
  local ← alloc_in_bitmap d.inode_bitmap sb.inodes_per_group
  bgd_set_counters g d.free_blocks (d.free_inodes - 1)
      (if is_dir then pos (d.used_dirs + 1) else pos d.used_dirs)
  add_free_inodes minus_one
  flush
  pure (g * sb.inodes_per_group + local + 1)

unfoldable pub alloc_inode_from : ℕ → ℕ → Bool → Run ℕ
unfolding bgd_get take_inode
alloc_inode_from zero g is_dir = raise no_free_inodes
alloc_inode_from (suc left) g is_dir = do
  sb ← get (λ fs. fs.sb)
  d ← bgd_get g
  let rest = alloc_inode_from left (g + 1) is_dir
  if d.free_inodes == 0 then rest else take_inode sb g is_dir d

unfoldable pub alloc_inode : Bool → Run ℕ
unfolding num_groups alloc_inode_from
alloc_inode is_dir fs = alloc_inode_from (num_groups fs.sb) 0 is_dir fs

unfoldable pub free_inode : ℕ → Bool → Run (Unit {0})
unfolding locate bgd_get free_in_bitmap bgd_set_counters add_free_inodes flush
free_inode ino was_dir = do
  sb ← get (λ fs. fs.sb)
  groups ← get (λ fs. length fs.bgdt)
  (g, local) ← lift (locate groups ino 1 sb.inodes_per_group)
  d ← bgd_get g
  free_in_bitmap d.inode_bitmap local
  bgd_set_counters g d.free_blocks (d.free_inodes + 1)
      (if was_dir then minus_one (pos d.used_dirs) else pos d.used_dirs)
  add_free_inodes plus_one
  flush
