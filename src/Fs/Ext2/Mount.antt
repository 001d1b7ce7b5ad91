-- ===== src/Fs/Ext2/Mount.antt =====
-- kernel/fs/ext2.py: `mount`, `_read_superblock` and `_read_bgdt`.
use pythonos.Prelude.{
  ℕ, zero, suc, ◌+◌, ◌-◌, ◌*◌, ◌/◌, ◌%◌, List, [], ◌∷◌, ◌++◌, Bool, ◌||◌, not, ltb, ◌==◌,
  if◌then◌else◌, Outcome, ok, err, pure, modify, Exec, ◌>>=◌, ◌>>◌, take, drop,
}
use pythonos.Prelude.Bytes.{Bytes}
use pythonos.Fs.Ext2.Fields.{Ext2Error, zero_division, bad_block_size, unsupported, lift}
use pythonos.Fs.Ext2.Super.{Superblock, sector_size, parse, block_size_of, num_groups}
use pythonos.Fs.Ext2.Device.{Sectors, Ext2Fs, Run, get, read_sector, read_block}

abbrev pub bgd_size : ℕ
bgd_size = 32

-- `guard(condition, e)`: raise unless it holds.
unfoldable pub require : {S : Type 0} → Bool → Ext2Error → Exec S Ext2Error (Unit {0})
require c e s = if c then (ok tt, s) else (err e, s)

-- `_read_superblock`. `feature_incompat & ~0x2` is zero for 0 and 2, `feature_ro_compat & ~0x7` is
-- zero below 8.
unfoldable pub read_superblock : Exec Sectors Ext2Error Superblock
unfolding read_sector parse require block_size_of
read_superblock dev = run dev
  where
    run : Exec Sectors Ext2Error Superblock
    run = do
      sec0 ← lift (read_sector 2 dev)
      sec1 ← lift (read_sector 3 dev)
      sb ← parse (sec0 ++ sec1)
      require (sb.feature_incompat == 0 || sb.feature_incompat == 2) unsupported
      require (ltb sb.feature_ro_compat 8) unsupported
      let bs = block_size_of sb
      require (not (ltb bs sector_size || not (bs % sector_size == 0))) bad_block_size
      pure sb

-- The blocks from `n` on, `left` of them to go, joined.
unfoldable pub read_blocks : ℕ → ℕ → Run Bytes
unfolding read_block
read_blocks zero n = pure []
read_blocks (suc left) n = do b ← read_block n; bs ← read_blocks left (n + 1); pure (b ++ bs)

-- The table cut into descriptors.
unfoldable pub descriptors : ℕ → Bytes → List Bytes
descriptors zero full = []
descriptors (suc n) full = take bgd_size full ∷ descriptors n (drop bgd_size full)

-- `_read_bgdt`. Its loop reads one block more for each time that `cursor`, which starts at one
-- block, lies before the end of the table.
unfoldable pub read_bgdt : Run (Unit {0})
unfolding require num_groups read_blocks descriptors
read_bgdt = do
  sb ← get (λ fs. fs.sb)
  bs ← get (λ fs. fs.block_size)
  let first = if bs == 1024 then sb.first_data_block + 1 else 1
  require (not (sb.blocks_per_group == 0)) zero_division
  let groups = num_groups sb
  start ← read_block first
  extra ← read_blocks ((groups * bgd_size - bs + bs - 1) / bs) (first + 1)
  modify (λ fs. record fs { bgdt = descriptors groups (start ++ extra); bgdt_block = first })

unfoldable pub mounted : Outcome Ext2Error Superblock × Sectors → Outcome Ext2Error Ext2Fs
unfolding read_bgdt block_size_of
mounted (err e, dev) = err e
mounted (ok sb, dev) =
    let fs : Ext2Fs = record {
      dev = dev;
      sb = sb;
      block_size = block_size_of sb;
      sectors_per_block = block_size_of sb / sector_size;
      bgdt = [];
      bgdt_block = 0;
      block_cache = [];
    } in
    finish (read_bgdt fs)
  where
    finish : Outcome Ext2Error (Unit {0}) × Ext2Fs → Outcome Ext2Error Ext2Fs
    finish (err e, fs) = err e
    finish (ok _, fs) = ok fs

unfoldable pub mount : Sectors → Outcome Ext2Error Ext2Fs
unfolding read_superblock mounted
mount dev = mounted (read_superblock dev)
