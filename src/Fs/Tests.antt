-- ===== src/Fs/Tests.antt =====
-- Runs of the in-memory file system, and the witnesses of kernel/fs.
use pythonos.Prelude.{
  ℕ, ◌≡◌, ◌≢◌, ◌⊎◌, refl, List, [], ◌∷◌, some, none, ok, err, lookup, insert, if◌then◌else◌, Eq-ℕ,
  Eq-Bytes, false,
}
use pythonos.Prelude.Bytes.{Bytes}
use pythonos.Prelude.Text.{Text, codes}
use pythonos.Fs.Tmpfs.Defs.{
  file, dir, TmpfsNode, Heap, file_not_found, new_heap, new_node, put, read, write, create, unlink,
  find, read_sync, isdir_sync, resolve, path_parts, is_file, is_dir,
}
use pythonos.Fs.Tmpfs.Files.{IsWritten, read-write}
use pythonos.Fs.Tmpfs.Names.{
  Op, write_op, create_op, unlink_op, apply_all, IsValid, apply_all-IsValid,
}
use pythonos.Fs.Tmpfs.Paths.{IsName, read_sync-resolve}
use pythonos.Fs.Tmpfs.Entries.{created, removed, create-find-unlink}

abbrev motd_path : Text
motd_path = codes "/etc/motd"

-- A directory with a file in it, made by the operations.
abbrev some_ops : List Op
some_ops =
    create_op 0 (codes "etc") dir
    ∷ create_op 1 (codes "motd") file
    ∷ write_op 2 1 (7 ∷ 8 ∷ [])
    ∷ unlink_op 0 (codes "no")
    ∷ []

abbrev two_levels : Heap
two_levels = apply_all some_ops new_heap

-- The gap before the written bytes holds a zero.
read_run : read_sync motd_path two_levels ≡ some (0 ∷ 7 ∷ 8 ∷ [])
unfolding read_sync apply_all lookup insert
read_run = refl

-- A second mkdir of the same name hides what the first directory holds.
create_twice :
    read_sync (codes "/etc/motd") (apply_all (create_op 0 (codes "etc") dir ∷ []) two_levels) ≡ none
unfolding read_sync apply_all lookup insert
create_twice = refl

apply_all-IsValid_example : IsValid two_levels
apply_all-IsValid_example = apply_all-IsValid some_ops

abbrev motd : TmpfsNode
motd = record { inode_type = file; mode = 0o644; content = 0 ∷ 7 ∷ 8 ∷ []; children = [] }

motd_there : lookup 2 two_levels.nodes ≡ some motd
unfolding apply_all lookup insert
motd_there = refl

-- Overwriting across the old end.
read-write_example :
    (new : Bytes) × IsWritten 2 (5 ∷ 6 ∷ []) motd.content new
    × (write 2 2 (5 ∷ 6 ∷ []) two_levels ≡ (ok 2, put 2 (record motd { content = new }) two_levels))
    × (read 2 2 2 (put 2 (record motd { content = new }) two_levels)
        ≡ (ok (5 ∷ 6 ∷ []), put 2 (record motd { content = new }) two_levels))
    × ((m : ℕ)
        → m ≢ 2
        → lookup m (put 2 (record motd { content = new }) two_levels).nodes
          ≡ lookup m two_levels.nodes)
read-write_example = read-write 2 2 (5 ∷ 6 ∷ []) motd two_levels motd_there refl

abbrev root_node : TmpfsNode
root_node = record {
  inode_type = dir;
  mode = 0o755;
  content = [];
  children = (codes "etc", 1) ∷ [];
}

root_there : lookup 0 two_levels.nodes ≡ some root_node
unfolding apply_all lookup insert
root_there = refl

read_sync-resolve_example :
    ((name : Text) × (resolve 0 (path_parts motd_path) two_levels
        ≡ (err (file_not_found name), two_levels))
      × (read_sync motd_path two_levels ≡ none)
      × (isdir_sync motd_path two_levels ≡ false))
    ⊎ ((target : ℕ) × (node : TmpfsNode) × (resolve 0 (path_parts motd_path) two_levels
          ≡ (ok target, two_levels))
        × (lookup target two_levels.nodes ≡ some node)
        × (read_sync motd_path two_levels
            ≡ (if is_file node.inode_type then some node.content else none))
        × (isdir_sync motd_path two_levels ≡ is_dir node.inode_type))
unfolding path_parts
read_sync-resolve_example =
    read_sync-resolve motd_path root_node two_levels (apply_all-IsValid some_ops) root_there
      (refl, (refl, tt))

create-find-unlink_example :
    (create 0 (codes "tmp") dir two_levels
      ≡ (ok 3, created 0 root_node (codes "tmp") dir two_levels))
    × (lookup 3 (created 0 root_node (codes "tmp") dir two_levels).nodes ≡ some (new_node dir))
    × ((find 0 (codes "tmp") (created 0 root_node (codes "tmp") dir two_levels)).0 ≡ ok 3)
    × ((other : Text)
        → IsName other
        → other ≢ (codes "tmp")
        → (find 0 other (created 0 root_node (codes "tmp") dir two_levels)).0
          ≡ (find 0 other two_levels).0)
    × (unlink 0 (codes "tmp") (created 0 root_node (codes "tmp") dir two_levels)
        ≡ (ok tt, removed 0 root_node (codes "tmp") dir two_levels))
    × ((find 0 (codes "tmp") (removed 0 root_node (codes "tmp") dir two_levels)).0
        ≡ err (file_not_found (codes "tmp")))
unfolding apply_all lookup insert
create-find-unlink_example =
    create-find-unlink 0 root_node (codes "tmp") dir two_levels (apply_all-IsValid some_ops)
      root_there refl refl
