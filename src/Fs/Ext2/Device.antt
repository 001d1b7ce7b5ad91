-- ===== src/Fs/Ext2/Device.antt =====
-- kernel/fs/ext2.py: `FileBlockDevice`, the fields of `Ext2FS`, its block cache, the group
-- descriptors and `mount`. The image is the list of its sectors.
use pythonos.Prelude.{
  ℕ, zero, suc, ◌+◌, ◌-◌, ◌*◌, ◌/◌, List, [], ◌∷◌, ◌++◌, none, some, not, leb, ◌==◌, if◌then◌else◌,
  Outcome, Exec, ok, err, pure, modify, ◌>>=◌, ◌>>◌, Dict, lookup, insert, Eq-ℕ, length, take, drop,
  replicate, set, get_elem?,
}
use pythonos.Prelude.Bytes.{Bytes, slice}
use pythonos.Fs.Ext2.Fields.{Ext2Error, index_error, bad_write, ℤ, pos, lift, unpack, pack_int}
use pythonos.Fs.Ext2.Super.{Superblock, sector_size, serialize_counters}

abbrev pub Sectors : Type 0
Sectors = List Bytes

unfoldable pub read_sector : ℕ → Sectors → Outcome Ext2Error Bytes
read_sector lba dev = elim (get_elem? dev lba) [ none ↦ err index_error | some s ↦ ok s ]

unfoldable pub write_sector : ℕ → Bytes → Sectors → Outcome Ext2Error Sectors
write_sector lba chunk dev =
    if not (length chunk == sector_size)
    then err bad_write
    else if leb (length dev) lba
    then err index_error
    else ok (set dev lba chunk)

pub record Ext2Fs : Type 0 where
  pub dev : Sectors
  pub sb : Superblock
  pub block_size : ℕ
  pub sectors_per_block : ℕ
  pub bgdt : List Bytes
  pub bgdt_block : ℕ
  pub block_cache : Dict ℕ Bytes

abbrev pub Run : Type 0 → Type 0
Run A = Exec Ext2Fs Ext2Error A

abbrev pub get : {A : Type 0} → (Ext2Fs → A) → Run A
get f fs = (ok (f fs), fs)

-- `b"".join` of the sectors from `lba` on, with `left` of them to go.
unfoldable pub read_sectors : ℕ → ℕ → Sectors → Outcome Ext2Error Bytes
unfolding read_sector
read_sectors zero lba dev = ok []
read_sectors (suc left) lba dev =
    let rest = read_sectors left (lba + 1) dev in
    elim (read_sector lba dev) [
      | err e ↦ err e
      | ok s ↦ elim rest [ err e ↦ err e | ok ss ↦ ok (s ++ ss) ]
    ]

-- The chunks of `chunk` into the sectors from `lba` on. What is written before an exception stays.
unfoldable pub write_sectors : ℕ → ℕ → Bytes → Sectors → Outcome Ext2Error (Unit {0}) × Sectors
unfolding write_sector
write_sectors zero lba chunk dev = (ok tt, dev)
write_sectors (suc left) lba chunk dev = elim (write_sector lba (take sector_size chunk) dev) [
  | err e ↦ (err e, dev)
  | ok dev' ↦ write_sectors left (lba + 1) (drop sector_size chunk) dev'
]

unfoldable pub fetched : ℕ → Outcome Ext2Error Bytes → Run Bytes
unfolding insert
fetched n (err e) fs = (err e, fs)
fetched n (ok buf) fs = (ok buf, record fs { block_cache = insert n buf fs.block_cache })

unfoldable pub read_block : ℕ → Run Bytes
unfolding read_sectors fetched lookup
read_block n fs = elim (lookup n fs.block_cache) [
  | some buf ↦ (ok buf, fs)
  | none ↦ fetched n (read_sectors fs.sectors_per_block (n * fs.sectors_per_block) fs.dev) fs
]

unfoldable pub stored : ℕ → Bytes → Outcome Ext2Error (Unit {0}) × Sectors → Run (Unit {0})
unfolding insert
stored n chunk (err e, dev) fs = (err e, record fs { dev = dev })
stored n chunk (ok done, dev) fs =
    (ok tt, record fs { dev = dev; block_cache = insert n chunk fs.block_cache })

unfoldable pub write_block : ℕ → Bytes → Run (Unit {0})
unfolding write_sectors stored
write_block n chunk fs =
    if not (length chunk == fs.block_size)
    then (err bad_write, fs)
    else stored n chunk (write_sectors fs.sectors_per_block (n * fs.sectors_per_block) chunk fs.dev)
        fs

unfoldable pub zero_block : Ext2Fs → Bytes
zero_block fs = replicate fs.block_size 0

-- What `_bgd_get` reads of a group descriptor.
pub record Descriptor : Type 0 where
  pub block_bitmap : ℕ
  pub inode_bitmap : ℕ
  pub inode_table : ℕ
  pub free_blocks : ℕ
  pub free_inodes : ℕ
  pub used_dirs : ℕ

unfoldable pub group_bytes : ℕ → Run Bytes
group_bytes g fs = elim (get_elem? fs.bgdt g) [ none ↦ (err index_error, fs) | some d ↦ (ok d, fs) ]

unfoldable pub bgd_get : ℕ → Run Descriptor
unfolding group_bytes unpack
bgd_get g = do
  d ← group_bytes g
  bb ← lift (unpack 4 0 d)
  ib ← lift (unpack 4 4 d)
  it ← lift (unpack 4 8 d)
  fb ← lift (unpack 2 12 d)
  fi ← lift (unpack 2 14 d)
  ud ← lift (unpack 2 16 d)
  pure (record {
    block_bitmap = bb;
    inode_bitmap = ib;
    inode_table = it;
    free_blocks = fb;
    free_inodes = fi;
    used_dirs = ud;
  })

-- The three counters one after the other: those before one that does not fit stay written.
unfoldable pub bgd_set_counters : ℕ → ℕ → ℕ → ℤ → Run (Unit {0})
unfolding group_bytes pack_int
bgd_set_counters g fb fi ud = do
  d ← group_bytes g
  d' ← lift (pack_int 2 12 (pos fb) d)
  modify (λ fs. record fs { bgdt = set fs.bgdt g d' })
  d'' ← lift (pack_int 2 14 (pos fi) d')
  modify (λ fs. record fs { bgdt = set fs.bgdt g d'' })
  d3 ← lift (pack_int 2 16 ud d'')
  modify (λ fs. record fs { bgdt = set fs.bgdt g d3 })

unfoldable pub join : List Bytes → Bytes
join [] = []
join (d ∷ ds) = d ++ join ds

-- The loop of `_flush_bgdt`, with the bytes from block `bi` on; the last one is padded with zeros.
unfoldable pub flush_blocks : ℕ → ℕ → Bytes → Run (Unit {0})
unfolding write_block
flush_blocks zero bi full = pure tt
flush_blocks (suc left) bi full = do
  bs ← get (λ fs. fs.block_size)
  first ← get (λ fs. fs.bgdt_block)
  write_block (first + bi) (take bs full ++ replicate (bs - length (take bs full)) 0)
  flush_blocks left (bi + 1) (drop bs full)

unfoldable pub flush_bgdt : Run (Unit {0})
unfolding join flush_blocks
flush_bgdt = do
  full ← get (λ fs. join fs.bgdt)
  bs ← get (λ fs. fs.block_size)
  flush_blocks ((length full + bs - 1) / bs) 0 full

unfoldable pub on_device : (Sectors → Outcome Ext2Error Sectors) → Run (Unit {0})
on_device f fs = elim (f fs.dev) [ err e ↦ (err e, fs) | ok dev ↦ (ok tt, record fs { dev = dev }) ]

unfoldable pub on_superblock : Exec Superblock Ext2Error (Unit {0}) → Run (Unit {0})
on_superblock m fs = let (o, sb) = m fs.sb in (o, record fs { sb = sb })

unfoldable pub flush_superblock : Run (Unit {0})
unfolding on_superblock serialize_counters on_device write_sector
flush_superblock = do
  on_superblock serialize_counters
  raw ← get (λ fs. fs.sb.raw)
  on_device (write_sector 2 (slice 0 512 raw))
  on_device (write_sector 3 (slice 512 1024 raw))
