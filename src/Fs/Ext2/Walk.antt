-- ===== src/Fs/Ext2/Walk.antt =====
-- kernel/fs/ext2.py: the walk over the block pointers of an inode.
use pythonos.Prelude.{
  ℕ, zero, suc, ◌+◌, ◌-◌, ◌*◌, ◌/◌, ◌%◌, ltb, if◌then◌else◌, pure, raise, ◌>>=◌, ◌>>◌,
}
use pythonos.Prelude.Bytes.{Bytes}
use pythonos.Fs.Ext2.Fields.{triple_indirect, lift, unpack, pack}
use pythonos.Fs.Ext2.Device.{Ext2Fs, Run, get, read_block, write_block, zero_block}
use pythonos.Fs.Ext2.Alloc.{alloc_block, free_block}
use pythonos.Fs.Ext2.Inode.{
  ndir_blocks, ind_block, dind_block, i_blocks, i_block_n, set_i_block_n, set_i_blocks,
}

unfoldable pub ptrs_per_block : Ext2Fs → ℕ
ptrs_per_block fs = fs.block_size / 4

-- The pointer at an index of a pointer block; a block that is not there has none.
unfoldable pub pointer_in : ℕ → ℕ → Run ℕ
unfolding read_block unpack
pointer_in zero i = pure 0
pointer_in (suc b) i = do blk ← read_block (suc b); lift (unpack 4 (i * 4) blk)

unfoldable pub resolve_indirect : ℕ → Bytes → ℕ → Run ℕ
unfolding pointer_in
resolve_indirect ppb raw rel =
    if ltb rel ppb
    then (do ind ← lift (i_block_n ind_block raw); pointer_in ind rel)
    else if ltb (rel - ppb) (ppb * ppb)
    then (do
      dind ← lift (i_block_n dind_block raw)
      ind ← pointer_in dind ((rel - ppb) / ppb)
      pointer_in ind ((rel - ppb) % ppb))
    else raise triple_indirect

-- 0 is a hole.
unfoldable pub resolve_block : Bytes → ℕ → Run ℕ
unfolding resolve_indirect ptrs_per_block
resolve_block raw file_block = do
  ppb ← get ptrs_per_block
  if ltb file_block ndir_blocks
      then lift (i_block_n file_block raw)
      else resolve_indirect ppb raw (file_block - ndir_blocks)

-- `_alloc_block` and the zeros written to it.
unfoldable pub new_block : Run ℕ
unfolding alloc_block write_block zero_block
new_block = do phys ← alloc_block; zeros ← get zero_block; write_block phys zeros; pure phys

unfoldable pub add_block_count : Bytes → Run Bytes
unfolding unpack pack
add_block_count raw = do
  spb ← get (λ fs. fs.sectors_per_block)
  n ← lift (i_blocks raw)
  lift (set_i_blocks (n + spb) raw)

-- The block of slot `n` of the inode, allocated if there is none.
unfoldable pub fill_slot : ℕ → Bytes → ℕ → Run (ℕ × Bytes)
unfolding new_block add_block_count pack
fill_slot n raw (suc b) = pure (suc b, raw)
fill_slot n raw zero = do
  phys ← new_block
  raw' ← lift (set_i_block_n n phys raw)
  raw'' ← add_block_count raw'
  pure (phys, raw'')

unfoldable pub ensure_slot : ℕ → Bytes → Run (ℕ × Bytes)
unfolding fill_slot unpack
ensure_slot n raw = do b ← lift (i_block_n n raw); fill_slot n raw b

-- The block of entry `i` of the pointer block `ind`, allocated if there is none.
unfoldable pub fill_entry : ℕ → Bytes → ℕ → Bytes → ℕ → Run (ℕ × Bytes)
unfolding new_block add_block_count pack write_block
fill_entry ind blk i raw (suc b) = pure (suc b, raw)
fill_entry ind blk i raw zero = do
  phys ← new_block
  blk' ← lift (pack 4 (i * 4) phys blk)
  write_block ind blk'
  raw' ← add_block_count raw
  pure (phys, raw')

unfoldable pub ensure_entry : ℕ → ℕ → Bytes → Run (ℕ × Bytes)
unfolding fill_entry read_block unpack
ensure_entry ind i raw = do
  blk ← read_block ind
  b ← lift (unpack 4 (i * 4) blk)
  fill_entry ind blk i raw b

unfoldable pub allocate_indirect : ℕ → Bytes → ℕ → Run (ℕ × Bytes)
unfolding ensure_slot ensure_entry
allocate_indirect ppb raw rel =
    if ltb rel ppb
    then (do (ind, raw') ← ensure_slot ind_block raw; ensure_entry ind rel raw')
    else if ltb (rel - ppb) (ppb * ppb)
    then (do
      (dind, raw') ← ensure_slot dind_block raw
      (ind, raw'') ← ensure_entry dind ((rel - ppb) / ppb) raw'
      ensure_entry ind ((rel - ppb) % ppb) raw'')
    else raise triple_indirect

-- The block and the inode, which the caller writes.
unfoldable pub allocate_block_for : Bytes → ℕ → Run (ℕ × Bytes)
unfolding ensure_slot allocate_indirect ptrs_per_block
allocate_block_for raw file_block = do
  ppb ← get ptrs_per_block
  if ltb file_block ndir_blocks
      then ensure_slot file_block raw
      else allocate_indirect ppb raw (file_block - ndir_blocks)

-- `if p: await self._free_block(p)`.
unfoldable pub free_if : ℕ → Run (Unit {0})
unfolding free_block
free_if zero = pure tt
free_if (suc b) = free_block (suc b)

-- The direct pointers from slot `n` on, freed and cleared.
unfoldable pub free_direct : ℕ → ℕ → Bytes → Run Bytes
unfolding free_if pack unpack
free_direct zero n raw = pure raw
free_direct (suc left) n raw = do
  b ← lift (i_block_n n raw)
  free_if b
  raw' ← lift (set_i_block_n n 0 raw)
  free_direct left (n + 1) raw'

-- The pointers of a block from entry `i` on.
unfoldable pub free_pointers : ℕ → ℕ → Bytes → Run (Unit {0})
unfolding free_if unpack
free_pointers zero i blk = pure tt
free_pointers (suc left) i blk = do
  p ← lift (unpack 4 (i * 4) blk)
  free_if p
  free_pointers left (i + 1) blk

-- A pointer block with what it points to; no block is nothing to free.
unfoldable pub free_indirect : ℕ → ℕ → Run (Unit {0})
unfolding free_pointers read_block free_block
free_indirect ppb zero = pure tt
free_indirect ppb (suc ind) = do
  blk ← read_block (suc ind)
  free_pointers ppb 0 blk
  free_block (suc ind)

unfoldable pub free_indirects : ℕ → ℕ → ℕ → Bytes → Run (Unit {0})
unfolding free_indirect unpack
free_indirects ppb zero i dblk = pure tt
free_indirects ppb (suc left) i dblk = do
  ind ← lift (unpack 4 (i * 4) dblk)
  free_indirect ppb ind
  free_indirects ppb left (i + 1) dblk

unfoldable pub free_double : ℕ → ℕ → Run (Unit {0})
unfolding free_indirects read_block free_block
free_double ppb zero = pure tt
free_double ppb (suc dind) = do
  dblk ← read_block (suc dind)
  free_indirects ppb ppb 0 dblk
  free_block (suc dind)

-- A pointer that is 0 is written as 0 again.
unfoldable pub free_all_blocks : Bytes → Run Bytes
unfolding free_direct free_indirect free_double ptrs_per_block pack unpack
free_all_blocks raw = do
  ppb ← get ptrs_per_block
  raw1 ← free_direct ndir_blocks 0 raw
  ind ← lift (i_block_n ind_block raw1)
  free_indirect ppb ind
  raw2 ← lift (set_i_block_n ind_block 0 raw1)
  dind ← lift (i_block_n dind_block raw2)
  free_double ppb dind
  raw3 ← lift (set_i_block_n dind_block 0 raw2)
  lift (set_i_blocks 0 raw3)
