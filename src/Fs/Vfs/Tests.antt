-- ===== src/Fs/Vfs/Tests.antt =====
-- Runs of the file system switch over the in-memory file system, and the witnesses of its theorems.
use pythonos.Prelude.{
  ◌≡◌, ◌≢◌, ◌⊎◌, ◌↔◌, refl, List, [], ◌∷◌, some, ok, lookup, insert, Eq-ℕ, Eq-Bytes,
}
use pythonos.Prelude.Text.{Text, codes, join}
use pythonos.Fs.PurePath
use pythonos.Fs.Tmpfs.Defs.{
  file, dir, Heap, new_heap, new_node, create, find, path_parts, stat, read, write,
}
use pythonos.Fs.Tmpfs.Names.{create_op, apply_all, IsValid, apply_all-IsValid}
use pythonos.Fs.Vfs.Defs.{
  World, Filesystem, new_world, mount, mount_point, unmount, norm, resolve, select, appends,
  from_start, from_current, from_end,
}
use pythonos.Fs.Vfs.Calls.{open_file, mkdir}
use pythonos.Fs.Vfs.Table.{Mount, In, mount_op, remount_all}
use pythonos.Fs.Vfs.Effects.{IsUnmounted}
use pythonos.Fs.Vfs.Mounts.{IsLongest, select-IsLongest}
use pythonos.Fs.Vfs.Files.{
  File, FdOp, read_op, write_op, seek_op, got, count, spec_all, perform_all, perform_all-spec,
  Shows,
}
use pythonos.Fs.Vfs.Directories.{HasUnnamed, mkdir_slash_tmpfs}
use pythonos.Fs.Vfs.OnTmpfs.{tmpfs, tmp_fs, tmpfs_laws}

abbrev empty_world : World tmpfs
empty_world = mount tmpfs (codes "/") tmp_fs (new_world tmpfs new_heap)

-- One file, open for appending.
abbrev opened_world : World tmpfs
opened_world = (open_file tmpfs (codes "log") 0x442 empty_world).1

abbrev some_calls : List FdOp
some_calls =
    write_op (1 ∷ 2 ∷ 3 ∷ [])
    ∷ seek_op 1 from_start
    ∷ read_op 9
    ∷ seek_op 5 from_current
    ∷ seek_op 2 from_end
    ∷ write_op (4 ∷ [])
    ∷ []

open_run : (open_file tmpfs (codes "log") 0x442 empty_world).0 ≡ ok 3
unfolding open_file lookup insert resolve mount find path_parts join create
open_run = refl

calls_run :
    (perform_all tmpfs 3 some_calls opened_world).0
    ≡ ok (count 3 ∷ count 1 ∷ got (2 ∷ 3 ∷ []) ∷ count 8 ∷ count 8 ∷ count 1 ∷ [])
unfolding open_file perform_all lookup insert resolve mount find path_parts join create stat write
    read
calls_run = refl

abbrev mounted_world : World tmpfs
mounted_world =
    remount_all tmpfs (mount_op (codes "/") tmp_fs ∷ mount_op (codes "/home/") tmp_fs ∷ [])
      (new_world tmpfs new_heap)

select-IsLongest_example :
    IsLongest tmpfs
      (norm (codes "home/me"))
      mounted_world.mounts
      (select tmpfs (norm (codes "home/me")) mounted_world.mounts)
    × ((at : Text) (f : Filesystem tmpfs) (m : Mount tmpfs)
        → In tmpfs m (mount tmpfs at f mounted_world).mounts
          ↔ (((mount_point at, f) ≡ m) ⊎ (In tmpfs m mounted_world.mounts × m.0 ≢ mount_point at)))
    × ((at : Text)
        → IsUnmounted tmpfs (mount_point at) mounted_world.mounts (unmount tmpfs at mounted_world))
select-IsLongest_example =
    select-IsLongest tmpfs new_heap
      (mount_op (codes "/") tmp_fs ∷ mount_op (codes "/home/") tmp_fs ∷ []) (codes "home/me")

abbrev empty_file : File
empty_file = record { content = []; offset = 0 }

opened_world-Shows : Shows tmpfs tmpfs_laws 3 1 0x442 empty_file opened_world
unfolding open_file lookup insert resolve mount find path_parts join create
opened_world-Shows = record {
  there = refl;
  holds = record { node = new_node file; found = refl; kind = refl; bytes = refl };
}

perform_all-spec_example :
    (w' : World tmpfs) × (perform_all tmpfs 3 some_calls opened_world
      ≡ (ok (spec_all (appends 0x442) some_calls empty_file).0, w'))
    × Shows tmpfs tmpfs_laws 3 1 0x442 (spec_all (appends 0x442) some_calls empty_file).1 w'
perform_all-spec_example =
    perform_all-spec tmpfs tmpfs_laws some_calls 3 1 0x442 empty_file opened_world
      opened_world-Shows

-- A directory a in the root.
abbrev world_with_a : World tmpfs
world_with_a =
    mount tmpfs (codes "/") tmp_fs
      (new_world tmpfs (apply_all (create_op 0 (codes "a") dir ∷ []) new_heap))

a_resolves : resolve tmpfs (codes "/a") world_with_a ≡ (ok 1, world_with_a)
unfolding resolve mount lookup insert find apply_all
a_resolves = refl

a_there : lookup 1 world_with_a.disk.nodes ≡ some (new_node dir)
unfolding mount lookup insert apply_all
a_there = refl

a_IsValid : IsValid world_with_a.disk
unfolding mount
a_IsValid = apply_all-IsValid (create_op 0 (codes "a") dir ∷ [])

mkdir_slash_tmpfs_example :
    (h : Heap) × (mkdir tmpfs (codes "/a//") world_with_a
      ≡ (ok tt, record world_with_a { disk = h }))
    × HasUnnamed 1 (new_node dir) world_with_a.disk h
unfolding PurePath.pure_path
mkdir_slash_tmpfs_example =
    mkdir_slash_tmpfs (codes "/a//") b'/' (codes "a") 1 (new_node dir) world_with_a world_with_a
      refl a_resolves a_IsValid a_there refl
