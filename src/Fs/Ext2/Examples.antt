-- ===== src/Fs/Ext2/Examples.antt =====
-- The theorems on the ext2 driver at concrete inputs.
use pythonos.Prelude.{
  ℕ, zero, suc, ◌<◌, ◌≤◌, ◌≡◌, ◌≢◌, refl, [], ◌∷◌, ◌++◌, Option, none, some, Outcome, ok, err, ◌||◌,
  ◌==◌, length, replicate, lookup, arith,
}
use pythonos.Prelude.Bytes.{Bytes, AreBytes}
use pythonos.Prelude.Text.{codes}
use pythonos.Fs.Ext2.Fields.{Ext2Error, pos, unpack}
use pythonos.Fs.Ext2.Super.{Superblock}
use pythonos.Fs.Ext2.Device.{Ext2Fs, read_block, write_block}
use pythonos.Fs.Ext2.Mount.{mount}
use pythonos.Fs.Ext2.Inode.{i_mode, i_block_n, ind_block}
use pythonos.Fs.Ext2.Bitmap.{alloc_in_bitmap, free_in_bitmap, bit_at}
use pythonos.Fs.Ext2.Walk.{allocate_indirect, resolve_indirect}
use pythonos.Fs.Ext2.Dir.{Entry, insert_entry, remove_entry, dirent_size}
use pythonos.Fs.Ext2.Image.{image}
use pythonos.Fs.Ext2.FirstFit.{IsFirstClear}
use pythonos.Fs.Ext2.Grants.{HasBitmap, alloc_in_bitmap-takes, free_in_bitmap-alloc_in_bitmap}
use pythonos.Fs.Ext2.Cache.{on_disk, IsCoherent, read_block-on_disk, write_block-IsCoherent}
use pythonos.Fs.Ext2.Format.{laid, head_of, IsDir, done}
use pythonos.Fs.Ext2.Insert.{Fits, Inserted, header_for, zeros_for, new_record-IsDir}
use pythonos.Fs.Ext2.Adding.{insert_entry-Inserted}
use pythonos.Fs.Ext2.Remove.{Absent, Removal}
use pythonos.Fs.Ext2.Erase.{remove_entry-Removal}
use pythonos.Fs.Ext2.AddRemove.{Undone, remove_entry-insert_entry}
use pythonos.Fs.Ext2.Sizes.{IsResized, file_size-set_file_size}
use pythonos.Fs.Ext2.Resolves.{resolve_indirect-allocate_indirect}

abbrev no_super : Superblock
no_super = record {
  inodes_count = 0;
  blocks_count = 0;
  free_blocks_count = pos 0;
  free_inodes_count = pos 0;
  first_data_block = 1;
  log_block_size = 0;
  blocks_per_group = 8;
  inodes_per_group = 8;
  rev_level = 1;
  first_ino = 11;
  inode_size = 128;
  feature_compat = 0;
  feature_incompat = 0;
  feature_ro_compat = 0;
  raw = [];
}

-- Four blocks of one sector each.
abbrev blank : Ext2Fs
blank = record {
  dev = replicate 4 (replicate 512 0);
  sb = no_super;
  block_size = 512;
  sectors_per_block = 1;
  bgdt = [];
  bgdt_block = 2;
  block_cache = [];
}

blank-IsCoherent : IsCoherent blank
unfolding lookup
blank-IsCoherent = record { sized = refl; cached = λ n b e. cc }

read_block-on_disk_example :
    ((read_block 1 blank).0 ≡ on_disk 1 1 blank.dev) × IsCoherent (read_block 1 blank).1
read_block-on_disk_example = read_block-on_disk 1 blank blank-IsCoherent

write_block-IsCoherent_example : IsCoherent (write_block 1 (replicate 512 7) blank).1
write_block-IsCoherent_example = write_block-IsCoherent 1 (replicate 512 7) blank blank-IsCoherent

zeros-AreBytes : (n : ℕ) → AreBytes (replicate n 0)
zeros-AreBytes zero = tt
zeros-AreBytes (suc n) = (omega arith, zeros-AreBytes n)

bitmap : HasBitmap 1 blank (replicate 512 0)
unfolding read_block
bitmap = record { bytes = zeros-AreBytes 512; after = (read_block 1 blank).1; read = refl }

abbrev granted : Ext2Fs
unfolding alloc_in_bitmap
granted = (alloc_in_bitmap 1 10 blank).1

granted_run : alloc_in_bitmap 1 10 blank ≡ (ok 0, (alloc_in_bitmap 1 10 blank).1)
unfolding alloc_in_bitmap
granted_run = refl

alloc_in_bitmap-takes_example :
    IsFirstClear 10 (replicate 512 0) 0
    × ((bm' : Bytes) × HasBitmap 1 (alloc_in_bitmap 1 10 blank).1 bm'
        × (length bm' ≡ length {A = ℕ} (replicate 512 0))
        × ((j : ℕ) → bit_at j bm' ≡ (0 == j || bit_at j (replicate 512 0))))
alloc_in_bitmap-takes_example =
    alloc_in_bitmap-takes 1 blank (replicate 512 0) bitmap 10 granted_run

freed_run :
    free_in_bitmap 1 0 (alloc_in_bitmap 1 10 blank).1
    ≡ (ok tt, (free_in_bitmap 1 0 (alloc_in_bitmap 1 10 blank).1).1)
unfolding alloc_in_bitmap free_in_bitmap
freed_run = refl

free_in_bitmap-alloc_in_bitmap_example :
    (bm'' : Bytes) × HasBitmap 1 (free_in_bitmap 1 0 (alloc_in_bitmap 1 10 blank).1).1 bm''
    × ((j : ℕ) → bit_at j bm'' ≡ bit_at j (replicate 512 0))
free_in_bitmap-alloc_in_bitmap_example =
    free_in_bitmap-alloc_in_bitmap 1 blank (replicate 512 0) bitmap 10 granted_run freed_run

-- A block of 64 bytes with the entry `.`, and an entry to add.
abbrev dot : Entry
dot = record { name = codes "."; ino = 2; file_type = 2 }

abbrev added : Entry
added = record { name = codes "f"; ino = 12; file_type = 1 }

dot-Fits : Fits dot
dot-Fits = record {
  in_use = omega arith;
  ino_fits = omega arith;
  name_fits = omega arith;
  type_fits = omega arith;
}

added-Fits : Fits added
added-Fits = record {
  in_use = omega arith;
  ino_fits = omega arith;
  name_fits = omega arith;
  type_fits = omega arith;
}

abbrev dot_block : Bytes
dot_block = laid (head_of (header_for 64 dot)) (dot.name ++ (zeros_for 64 dot ++ []))

dot_room : dirent_size 1 ≤ 64
unfolding dirent_size
dot_room = omega arith

dot_block-IsDir : IsDir dot_block (dot ∷ [])
dot_block-IsDir = new_record-IsDir dot dot-Fits 64 (omega arith) dot_room done

insert_entry-Inserted_example : Inserted (insert_entry added dot_block) added dot_block (dot ∷ [])
insert_entry-Inserted_example = insert_entry-Inserted added added-Fits dot_block-IsDir

remove_entry-Removal_example :
    Removal (remove_entry (codes ".") dot_block) (codes ".") 64 (dot ∷ [])
remove_entry-Removal_example = remove_entry-Removal (codes ".") dot_block-IsDir (omega arith)

abbrev inode : Bytes
inode = 0xA4 ∷ 0x81 ∷ replicate 126 0

inode_mode : i_mode inode ≡ ok 0x81A4
unfolding unpack
inode_mode = refl

file_size-set_file_size_example : IsResized tt inode 0x81A4 5000000000
file_size-set_file_size_example =
    file_size-set_file_size tt inode 0x81A4 5000000000 inode_mode (omega arith) (omega arith)

-- The block with the new entry.
block_of : Outcome Ext2Error (Option Bytes) → Bytes
block_of (ok (some b)) = b
block_of (ok none) = []
block_of (err e) = []

inserted_run : insert_entry added dot_block ≡ ok (some (block_of (insert_entry added dot_block)))
unfolding insert_entry block_of
inserted_run = refl

absent : Absent (codes "f") (dot ∷ [])
absent = (λ e. ground (arith, e), tt)

remove_entry-insert_entry_example :
    Undone (codes "f") (block_of (insert_entry added dot_block)) added (dot ∷ [])
remove_entry-insert_entry_example =
    remove_entry-insert_entry added added-Fits dot_block-IsDir (omega arith) absent inserted_run

-- The image when it is mounted.
fs_of : Outcome Ext2Error Ext2Fs → Ext2Fs
fs_of (ok fs) = fs
fs_of (err e) = blank

inode_of : Outcome Ext2Error (ℕ × Bytes) → Bytes
inode_of (ok (b, raw)) = raw
inode_of (err e) = []

abbrev raw : Bytes
raw = replicate 128 0

allocated_run : allocate_indirect 256 raw 3 (fs_of (mount image)) ≡ (
  ok (9, inode_of (allocate_indirect 256 raw 3 (fs_of (mount image))).0),
  (allocate_indirect 256 raw 3 (fs_of (mount image))).1,
)
unfolding allocate_indirect fs_of mount image inode_of
allocated_run = refl

no_hole :
    i_block_n ind_block (inode_of (allocate_indirect 256 raw 3 (fs_of (mount image))).0) ≢ ok 0
unfolding allocate_indirect fs_of mount image inode_of unpack
no_hole = λ e. cc (e)

resolve_indirect-allocate_indirect_example :
    (resolve_indirect 256
        (inode_of (allocate_indirect 256 raw 3 (fs_of (mount image))).0)
        3
        (allocate_indirect 256 raw 3 (fs_of (mount image))).1
      ≡ (ok 9, (allocate_indirect 256 raw 3 (fs_of (mount image))).1))
    × ((m : ℕ)
        → m < 15
        → m ≢ ind_block
        → i_block_n m (inode_of (allocate_indirect 256 raw 3 (fs_of (mount image))).0)
          ≡ i_block_n m raw)
resolve_indirect-allocate_indirect_example =
    resolve_indirect-allocate_indirect 256 3 raw (fs_of (mount image)) (omega arith) (omega arith)
      allocated_run no_hole
