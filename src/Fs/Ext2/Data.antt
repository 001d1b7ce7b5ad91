-- ===== src/Fs/Ext2/Data.antt =====
-- kernel/fs/ext2.py: `_read_file_data`, `_write_file_data` and `_truncate_file`. The fuel of a loop is
-- the number of bytes that it has to go over: each round goes over one at least.
use pythonos.Prelude.{
  ℕ, zero, suc, ◌+◌, ◌-◌, ◌*◌, ◌/◌, ◌%◌, [], ◌++◌, true, false, ltb, leb, ◌==◌, if◌then◌else◌, pure,
  raise, ◌>>=◌, ◌>>◌, length, take, drop, replicate, min,
}
use pythonos.Prelude.Bytes.{Bytes, slice}
use pythonos.Fs.Ext2.Fields.{stuck, lift, unpack, pack, splice}
use pythonos.Fs.Ext2.Device.{Run, get, read_block, write_block}
use pythonos.Fs.Ext2.Alloc.{free_block}
use pythonos.Fs.Ext2.Inode.{
  ndir_blocks, ind_block, dind_block, i_blocks, i_block_n, set_i_block_n, set_i_blocks, read_inode,
  write_inode, file_size, set_file_size,
}
use pythonos.Fs.Ext2.Walk.{resolve_block, allocate_block_for, ptrs_per_block}

-- `chunk` bytes from `in_blk` on of a block, or zeros for a hole.
unfoldable pub read_chunk : ℕ → ℕ → ℕ → Run Bytes
unfolding read_block
read_chunk zero in_blk chunk = pure (replicate chunk 0)
read_chunk (suc b) in_blk chunk = do
  blk ← read_block (suc b)
  pure (slice in_blk (in_blk + chunk) blk)

unfoldable pub read_loop : ℕ → ℕ → Bytes → ℕ → ℕ → Run Bytes
unfolding resolve_block read_chunk
read_loop zero bs raw cur end = if ltb cur end then raise stuck else pure []
read_loop (suc fuel) bs raw cur end = elim (ltb cur end) [
  | false ↦ pure []
  | true ↦ do
    let chunk = min (bs - cur % bs) (end - cur)
    phys ← resolve_block raw (cur / bs)
    part ← read_chunk phys (cur % bs) chunk
    rest ← read_loop fuel bs raw (cur + chunk) end
    pure (part ++ rest)
]

unfoldable pub read_file_data : ℕ → ℕ → ℕ → Run Bytes
unfolding read_inode file_size read_loop
read_file_data ino offset n = do
  raw ← read_inode ino
  size ← file_size raw
  bs ← get (λ fs. fs.block_size)
  let end = min (offset + n) size
  if leb size offset then pure [] else read_loop (end - offset) bs raw offset end

-- The inode after the loop. `content` is `data[di:]`.
unfoldable pub write_loop : ℕ → ℕ → Bytes → ℕ → ℕ → Bytes → Run Bytes
unfolding allocate_block_for read_block write_block splice
write_loop zero bs raw cur end content = if ltb cur end then raise stuck else pure raw
write_loop (suc fuel) bs raw cur end content = elim (ltb cur end) [
  | false ↦ pure raw
  | true ↦ do
    let chunk = min (bs - cur % bs) (end - cur)
    (phys, raw') ← allocate_block_for raw (cur / bs)
    blk ← read_block phys
    write_block phys (splice (cur % bs) (take chunk content) blk)
    write_loop fuel bs raw' (cur + chunk) end (drop chunk content)
]

unfoldable pub write_file_data : ℕ → ℕ → Bytes → Run ℕ
unfolding read_inode file_size set_file_size write_loop write_inode
write_file_data ino offset content = do
  raw ← read_inode ino
  bs ← get (λ fs. fs.block_size)
  let end = offset + length content
  raw' ← write_loop (length content) bs raw offset end content
  size ← file_size raw'
  raw'' ← (if ltb size end then set_file_size end raw' else pure raw')
  write_inode ino raw''
  pure (length content)

-- Entry `i` of the pointer block `ind` set to 0.
unfoldable pub clear_entry : ℕ → ℕ → Run (Unit {0})
unfolding read_block write_block pack
clear_entry ind i = do
  blk ← read_block ind
  blk' ← lift (pack 4 (i * 4) 0 blk)
  write_block ind blk'

-- The pointer of the logical block `fb` set to 0.
unfoldable pub clear_pointer : ℕ → Bytes → ℕ → Run Bytes
unfolding clear_entry unpack pack
clear_pointer ppb raw fb =
    if ltb fb ndir_blocks
    then lift (set_i_block_n fb 0 raw)
    else if ltb (fb - ndir_blocks) ppb
    then (do ind ← lift (i_block_n ind_block raw); clear_entry ind (fb - ndir_blocks); pure raw)
    else (do
      dind ← lift (i_block_n dind_block raw)
      dblk ← read_block dind
      ind ← lift (unpack 4 ((fb - ndir_blocks - ppb) / ppb * 4) dblk)
      clear_entry ind ((fb - ndir_blocks - ppb) % ppb)
      pure raw)

unfoldable pub drop_block : Bytes → ℕ → ℕ → Run Bytes
unfolding free_block clear_pointer ptrs_per_block
drop_block raw fb zero = pure raw
drop_block raw fb (suc b) = do
  free_block (suc b)
  ppb ← get ptrs_per_block
  raw' ← clear_pointer ppb raw fb
  n ← lift (i_blocks raw')
  spb ← get (λ fs. fs.sectors_per_block)
  lift (set_i_blocks (n - spb) raw')

-- `for fb in range(last_kept, max_blocks)`.
unfoldable pub drop_blocks : ℕ → ℕ → Bytes → Run Bytes
unfolding resolve_block drop_block
drop_blocks zero fb raw = pure raw
drop_blocks (suc left) fb raw = do
  phys ← resolve_block raw fb
  raw' ← drop_block raw fb phys
  drop_blocks left (fb + 1) raw'

-- The block from `tail` on zeroed; a hole is left.
unfoldable pub zero_tail : ℕ → ℕ → ℕ → Run (Unit {0})
unfolding read_block write_block splice
zero_tail bs zero tail = pure tt
zero_tail bs (suc b) tail = do
  blk ← read_block (suc b)
  write_block (suc b) (splice tail (replicate (bs - tail) 0) blk)

unfoldable pub cut_tail : ℕ → Bytes → ℕ → Run (Unit {0})
unfolding zero_tail resolve_block
cut_tail bs raw size =
    if size % bs == 0
    then pure tt
    else (do phys ← resolve_block raw (size / bs); zero_tail bs phys (size % bs))

unfoldable pub shrink : ℕ → Bytes → ℕ → ℕ → Run Bytes
unfolding drop_blocks cut_tail
shrink bs raw size cur_size = do
  let last_kept = (size + bs - 1) / bs
  let max_blocks = (cur_size + bs - 1) / bs
  raw' ← drop_blocks (max_blocks - last_kept) last_kept raw
  cut_tail bs raw' size
  pure raw'

unfoldable pub truncate_file : ℕ → ℕ → Run (Unit {0})
unfolding read_inode file_size set_file_size shrink write_inode
truncate_file ino size = do
  raw ← read_inode ino
  cur_size ← file_size raw
  bs ← get (λ fs. fs.block_size)
  raw' ← (if leb cur_size size then pure raw else shrink bs raw size cur_size)
  raw'' ← set_file_size size raw'
  write_inode ino raw''
