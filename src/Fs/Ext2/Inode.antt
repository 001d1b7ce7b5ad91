-- ===== src/Fs/Ext2/Inode.antt =====
-- kernel/fs/ext2.py: where an inode stands, its fields, and its size.
use pythonos.Prelude.{
  ℕ, ◌+◌, ◌*◌, ◌/◌, ◌%◌, ◌^◌, ◌==◌, if◌then◌else◌, Outcome, Exec, pure, ◌>>=◌, ◌>>◌, length,
}
use pythonos.Prelude.Bytes.{Bytes, slice}
use pythonos.Fs.Ext2.Fields.{Ext2Error, bad_inode, lift, unpack, pack, splice}
use pythonos.Fs.Ext2.Device.{Run, get, bgd_get, read_block, write_block}
use pythonos.Fs.Ext2.Mount.{require}
use pythonos.Fs.Ext2.Alloc.{locate}

-- `mode & EXT2_S_IFMT` and its values.
abbrev pub format_of : ℕ → ℕ
format_of mode = mode / 0x1000 % 16 * 0x1000

abbrev pub s_ifreg : ℕ
s_ifreg = 0x8000

abbrev pub s_ifdir : ℕ
s_ifdir = 0x4000

abbrev pub s_iflnk : ℕ
s_iflnk = 0xA000

abbrev pub ndir_blocks : ℕ
ndir_blocks = 12

abbrev pub ind_block : ℕ
ind_block = 12

abbrev pub dind_block : ℕ
dind_block = 13

unfoldable pub inode_location : ℕ → Run (ℕ × ℕ)
unfolding locate bgd_get
inode_location ino = do
  sb ← get (λ fs. fs.sb)
  groups ← get (λ fs. length fs.bgdt)
  (g, local) ← lift (locate groups ino 1 sb.inodes_per_group)
  d ← bgd_get g
  bs ← get (λ fs. fs.block_size)
  let byte_off = local * sb.inode_size
  pure (d.inode_table + byte_off / bs, byte_off % bs)

unfoldable pub read_inode : ℕ → Run Bytes
unfolding inode_location read_block
read_inode ino = do
  (block, off) ← inode_location ino
  buf ← read_block block
  size ← get (λ fs. fs.sb.inode_size)
  pure (slice off (off + size) buf)

unfoldable pub write_inode : ℕ → Bytes → Run (Unit {0})
unfolding inode_location read_block write_block require splice
write_inode ino raw = do
  size ← get (λ fs. fs.sb.inode_size)
  require (length raw == size) bad_inode
  (block, off) ← inode_location ino
  buf ← read_block block
  write_block block (splice off raw buf)

-- The fields, each at its offset.
abbrev pub i_mode : Bytes → Outcome Ext2Error ℕ
i_mode = unpack 2 0

abbrev pub i_size : Bytes → Outcome Ext2Error ℕ
i_size = unpack 4 4

abbrev pub i_links : Bytes → Outcome Ext2Error ℕ
i_links = unpack 2 26

abbrev pub i_blocks : Bytes → Outcome Ext2Error ℕ
i_blocks = unpack 4 28

abbrev pub i_block_n : ℕ → Bytes → Outcome Ext2Error ℕ
i_block_n n = unpack 4 (40 + n * 4)

abbrev pub set_i_block_n : ℕ → ℕ → Bytes → Outcome Ext2Error Bytes
set_i_block_n n = pack 4 (40 + n * 4)

abbrev pub set_i_mode : ℕ → Bytes → Outcome Ext2Error Bytes
set_i_mode = pack 2 0

abbrev pub set_i_size : ℕ → Bytes → Outcome Ext2Error Bytes
set_i_size size = pack 4 4 (size % 2 ^ 32)

abbrev pub set_i_links : ℕ → Bytes → Outcome Ext2Error Bytes
set_i_links = pack 2 26

abbrev pub set_i_blocks : ℕ → Bytes → Outcome Ext2Error Bytes
set_i_blocks = pack 4 28

abbrev pub set_i_mtime : ℕ → Bytes → Outcome Ext2Error Bytes
set_i_mtime = pack 4 16

abbrev pub set_i_ctime : ℕ → Bytes → Outcome Ext2Error Bytes
set_i_ctime = pack 4 12

abbrev pub set_i_atime : ℕ → Bytes → Outcome Ext2Error Bytes
set_i_atime = pack 4 8

-- `_file_size`: a regular file has the upper half at offset 108.
unfoldable pub with_high : {S : Type 0} → Bytes → ℕ → Exec S Ext2Error ℕ
unfolding unpack
with_high raw size = do high ← lift (unpack 4 108 raw); pure (size + high * 2 ^ 32)

unfoldable pub file_size : {S : Type 0} → Bytes → Exec S Ext2Error ℕ
unfolding with_high
file_size raw = do
  size ← lift (i_size raw)
  mode ← lift (i_mode raw)
  if format_of mode == s_ifreg then with_high raw size else pure size

unfoldable pub set_file_size : {S : Type 0} → ℕ → Bytes → Exec S Ext2Error Bytes
unfolding pack unpack
set_file_size size raw = do
  raw' ← lift (set_i_size size raw)
  mode ← lift (i_mode raw')
  if format_of mode == s_ifreg then lift (pack 4 108 (size / 2 ^ 32 % 2 ^ 32) raw') else pure raw'
