-- ===== src/Fs/Ext2/Super.antt =====
-- kernel/fs/ext2.py: `_Superblock`. A counter is an integer: a decrement may take it below zero, and
-- only writing it out raises.
use pythonos.Prelude.{
  ℕ, ◌+◌, ◌-◌, ◌*◌, ◌/◌, ◌^◌, leb, ◌==◌, if◌then◌else◌, Outcome, Exec, ok, err, pure, raise, ◌>>=◌,
  ◌>>◌,
}
use pythonos.Prelude.Bytes.{Bytes}
use pythonos.Fs.Ext2.Fields.{Ext2Error, bad_magic, ℤ, pos, lift, unpack, pack_int}

abbrev pub ext2_super_magic : ℕ
ext2_super_magic = 0xEF53

abbrev pub sector_size : ℕ
sector_size = 512

pub record Superblock : Type 0 where
  pub inodes_count : ℕ
  pub blocks_count : ℕ
  pub free_blocks_count : ℤ
  pub free_inodes_count : ℤ
  pub first_data_block : ℕ
  pub log_block_size : ℕ
  pub blocks_per_group : ℕ
  pub inodes_per_group : ℕ
  pub rev_level : ℕ
  pub first_ino : ℕ
  pub inode_size : ℕ
  pub feature_compat : ℕ
  pub feature_incompat : ℕ
  pub feature_ro_compat : ℕ
  pub raw : Bytes

-- A field that only a later revision has.
unfoldable pub since_rev_1 : ℕ → Outcome Ext2Error ℕ → ℕ → Outcome Ext2Error ℕ
since_rev_1 rev field default = if leb 1 rev then field else ok default

unfoldable pub parse : {S : Type 0} → Bytes → Exec S Ext2Error Superblock
unfolding unpack since_rev_1
parse blob = do
  inodes ← lift (unpack 4 0 blob)
  blocks ← lift (unpack 4 4 blob)
  free_blocks ← lift (unpack 4 12 blob)
  free_inodes ← lift (unpack 4 16 blob)
  first ← lift (unpack 4 20 blob)
  log ← lift (unpack 4 24 blob)
  per_group ← lift (unpack 4 32 blob)
  inodes_per ← lift (unpack 4 40 blob)
  magic ← lift (unpack 2 56 blob)
  (if magic == ext2_super_magic then pure tt else raise bad_magic)
  rev ← lift (unpack 4 76 blob)
  ino ← lift (since_rev_1 rev (unpack 4 84 blob) 11)
  size ← lift (since_rev_1 rev (unpack 2 88 blob) 128)
  compat ← lift (since_rev_1 rev (unpack 4 92 blob) 0)
  incompat ← lift (since_rev_1 rev (unpack 4 96 blob) 0)
  ro_compat ← lift (since_rev_1 rev (unpack 4 100 blob) 0)
  pure (record {
    inodes_count = inodes;
    blocks_count = blocks;
    free_blocks_count = pos free_blocks;
    free_inodes_count = pos free_inodes;
    first_data_block = first;
    log_block_size = log;
    blocks_per_group = per_group;
    inodes_per_group = inodes_per;
    rev_level = rev;
    first_ino = ino;
    inode_size = size;
    feature_compat = compat;
    feature_incompat = incompat;
    feature_ro_compat = ro_compat;
    raw = blob;
  })

-- `1024 << log_block_size`.
unfoldable pub block_size_of : Superblock → ℕ
block_size_of sb = 1024 * 2 ^ sb.log_block_size

-- No groups, where the source has a number that is not positive. A zero `blocks_per_group` is a
-- ZeroDivisionError, which `mount` raises.
unfoldable pub num_groups : Superblock → ℕ
num_groups sb =
    (sb.blocks_count - sb.first_data_block + sb.blocks_per_group - 1) / sb.blocks_per_group

-- The superblock with its raw bytes brought up to date, and what was written before an exception.
unfoldable pub serialize_counters : Exec Superblock Ext2Error (Unit {0})
unfolding pack_int
serialize_counters sb = elim (pack_int 4 12 sb.free_blocks_count sb.raw) [
  | err e ↦ (err e, sb)
  | ok raw ↦ elim (pack_int 4 16 sb.free_inodes_count raw) [
    | err e ↦ (err e, record sb { raw = raw })
    | ok raw' ↦ (ok tt, record sb { raw = raw' })
  ]
]
