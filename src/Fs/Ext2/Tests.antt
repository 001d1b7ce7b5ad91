-- ===== src/Fs/Ext2/Tests.antt =====
-- Runs of the ext2 driver on a small image, and the theorems at concrete inputs.
use pythonos.Prelude.{◌≡◌, refl, [], ◌∷◌, Outcome, ok, err, ◌>>=◌, ◌>>◌, replicate}
use pythonos.Prelude.Text.{codes}
use pythonos.Fs.Tmpfs.Defs.{file, dir}
use pythonos.Fs.Ext2.Fields.{Ext2Error, pos, ℤ, bad_name, not_a_directory}
use pythonos.Fs.Ext2.Alloc.{free_block}
use pythonos.Fs.Ext2.Device.{Run}
use pythonos.Fs.Ext2.Mount.{mount}
use pythonos.Fs.Ext2.Names.{Utf8}
use pythonos.Fs.Ext2.Node
use pythonos.Fs.Ext2.Image.{image}

-- Codes below 128 are their own encoding.
abbrev ascii : Utf8
ascii = record { encode = λ s. s; decode = λ b. b; decode_encode = λ s. refl }

-- Mount the image and run there.
on_image : {A : Type 0} → Run A → Outcome Ext2Error A
on_image m = elim (mount image) [ err e ↦ err e | ok fs ↦ (m fs).0 ]

-- Go on after an exception, as a caller that catches it does.
caught : {A : Type 0} → Run A → Run (Unit {0})
caught m fs = (ok tt, (m fs).1)

-- What a run leaves of the file system, exceptions included.
count_after : {A : Type 0} → Run A → Outcome Ext2Error (Outcome Ext2Error A × ℤ × ℤ)
count_after m = elim (mount image) [
  | err e ↦ err e
  | ok fs ↦ (let (o, fs') = m fs in ok (o, fs'.sb.free_blocks_count, fs'.sb.free_inodes_count))
]

-- What is written is read back, with zeros in the gap.
written_back :
    on_image (do
      f ← Node.create ascii 2 (codes "a.txt") file
      Node.write f 1000 (1 ∷ 2 ∷ 3 ∷ [])
      Node.write f 1005 (4 ∷ 5 ∷ [])
      Node.read f 999 99)
    ≡ ok (0 ∷ 1 ∷ 2 ∷ 3 ∷ 0 ∷ 0 ∷ 4 ∷ 5 ∷ [])
unfolding on_image mount image Node.create Node.write Node.read
written_back = refl

-- A name that is refused has cost an inode: 4 of 5 are left.
inode_lost : count_after (Node.create ascii 2 [] file) ≡ ok (err bad_name, pos 17, pos 4)
unfolding count_after mount image Node.create
inode_lost = refl

-- Freeing a block that is free counts it: 18 of 17.
block_counted_twice : count_after (free_block 20) ≡ ok (ok tt, pos 18, pos 5)
unfolding count_after mount image free_block
block_counted_twice = refl

-- A directory that unlinks itself by the name `.` stays in its parent and is none any more.
unlinked_itself :
    (on_image (do
      d ← Node.create ascii 2 (codes "d") dir
      Node.unlink ascii d (codes ".")
      Node.readdir ascii 2)
      ≡ ok (codes "." ∷ codes ".." ∷ codes "d" ∷ []))
    × (on_image (do
      d ← Node.create ascii 2 (codes "d") dir
      Node.unlink ascii d (codes ".")
      Node.readdir ascii d)
        ≡ err not_a_directory)
unfolding on_image mount image Node.create Node.unlink Node.readdir
unlinked_itself = (refl, refl)

-- The blocks of a write that runs out of space are lost, also when the file is removed.
blocks_lost :
    count_after (do
      f ← Node.create ascii 2 (codes "f") file
      caught (Node.write f 0 (replicate 18000 7))
      Node.unlink ascii 2 (codes "f"))
    ≡ ok (ok tt, pos 0, pos 5)
unfolding count_after caught mount image Node.create Node.unlink Node.write
blocks_lost = refl
