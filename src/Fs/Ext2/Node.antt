-- ===== src/Fs/Ext2/Node.antt =====
-- kernel/fs/ext2.py: `Ext2Node`. A node is the number of its inode. A method holds the lock of the
-- file system from its first step to its last, so each is one step here.
use pythonos.Prelude.{
  ℕ, ◌+◌, ◌-◌, ◌%◌, List, Option, none, some, Bool, true, false, ◌||◌, leb, ◌==◌, if◌then◌else◌,
  Outcome, Exec, pure, raise, ◌>>=◌, ◌>>◌, replicate, map, bytes_eq,
}
use pythonos.Prelude.Bytes.{Bytes, slice}
use pythonos.Prelude.Text.{Text, codes, is_empty}
use pythonos.Fs.Tmpfs.Defs.{InodeType, file, dir, symlink, device, pipe, is_dir, Stat}
use pythonos.Fs.Ext2.Fields.{
  Ext2Error, is_a_directory, not_a_directory, file_exists, file_not_found, not_empty, lift,
}
use pythonos.Fs.Ext2.Device.{Run, get}
use pythonos.Fs.Ext2.Mount.{require}
use pythonos.Fs.Ext2.Alloc.{alloc_inode, free_inode}
use pythonos.Fs.Ext2.Inode.{
  format_of, s_ifreg, s_ifdir, s_iflnk, read_inode, write_inode, file_size, i_mode, i_links,
  set_i_mode, set_i_size, set_i_links, set_i_blocks, set_i_atime, set_i_ctime, set_i_mtime,
}
use pythonos.Fs.Ext2.Walk.{free_all_blocks}
use pythonos.Fs.Ext2.Data.{read_file_data, write_file_data, truncate_file}
use pythonos.Fs.Ext2.Dir.{Entry}
use pythonos.Fs.Ext2.Names.{
  Utf8, read_dir_entries, add_dir_entry, remove_dir_entry, find_entry, dir_is_empty,
}

unfoldable pub mode_to_inode_type : ℕ → InodeType
mode_to_inode_type mode =
    let fmt = format_of mode in
    if fmt == s_ifreg
    then file
    else if fmt == s_ifdir
    then dir
    else if fmt == s_iflnk
    then symlink
    else if fmt == 0x2000 || fmt == 0x6000
    then device
    else if fmt == 0x1000
    then pipe
    else file

-- `perm & 0o7777` is the remainder by 0o10000.
unfoldable pub inode_type_to_mode : InodeType → ℕ → ℕ
inode_type_to_mode dir perm = s_ifdir + perm % 4096
inode_type_to_mode symlink perm = s_iflnk + perm % 4096
inode_type_to_mode _ perm = s_ifreg + perm % 4096

unfoldable pub inode_type_to_filetype : InodeType → ℕ
inode_type_to_filetype dir = 2
inode_type_to_filetype symlink = 7
inode_type_to_filetype _ = 1

abbrev pub root_ino : ℕ
root_ino = 2

unfoldable pub stat : ℕ → Run Stat
unfolding read_inode file_size mode_to_inode_type
stat ino = do
  raw ← read_inode ino
  mode ← lift (i_mode raw)
  size ← file_size raw
  links ← lift (i_links raw)
  pure (record {
    inode_type = mode_to_inode_type mode;
    size = size;
    mode = mode % 4096;
    nlink = links;
  })

-- A link of at most 60 bytes stands in the inode.
unfoldable pub read_link : ℕ → Bytes → ℕ → ℕ → Run Bytes
unfolding file_size read_file_data
read_link ino raw offset n = do
  size ← file_size raw
  if leb size 60
      then pure (slice offset (offset + n) (slice 40 (40 + size) raw))
      else read_file_data ino offset n

unfoldable pub read : ℕ → ℕ → ℕ → Run Bytes
unfolding read_inode read_link read_file_data
read ino offset n = do
  raw ← read_inode ino
  mode ← lift (i_mode raw)
  if format_of mode == s_ifdir
      then raise is_a_directory
      else if format_of mode == s_iflnk
      then read_link ino raw offset n
      else read_file_data ino offset n

-- The test of `write` and `truncate`, and that of the directory methods.
unfoldable pub require_format : ℕ → Ext2Error → ℕ → Run (Unit {0})
unfolding read_inode require
require_format format e ino = do
  raw ← read_inode ino
  mode ← lift (i_mode raw)
  require (format_of mode == format) e

unfoldable pub write : ℕ → ℕ → Bytes → Run ℕ
unfolding require_format write_file_data
write ino offset content = do
  require_format s_ifreg is_a_directory ino
  write_file_data ino offset content

unfoldable pub truncate : ℕ → ℕ → Run (Unit {0})
unfolding require_format truncate_file
truncate ino size = do require_format s_ifreg is_a_directory ino; truncate_file ino size

-- The fields that `create` sets in a new inode.
unfoldable pub new_inode : ℕ → ℕ → Outcome Ext2Error Bytes
new_inode size mode = (run tt).0
  where
    run : Exec (Unit {0}) Ext2Error Bytes
    run = do
      r1 ← lift (set_i_mode mode (replicate size 0))
      r2 ← lift (set_i_size 0 r1)
      r3 ← lift (set_i_links 1 r2)
      r4 ← lift (set_i_blocks 0 r3)
      r5 ← lift (set_i_atime 0 r4)
      r6 ← lift (set_i_ctime 0 r5)
      lift (set_i_mtime 0 r6)

-- Read the inode, set its link count by `f`, and write it.
unfoldable pub relink : (ℕ → ℕ) → ℕ → Run (Unit {0})
unfolding read_inode write_inode
relink f ino = do
  raw ← read_inode ino
  n ← lift (i_links raw)
  raw' ← lift (set_i_links (f n) raw)
  write_inode ino raw'

unfoldable pub zero_inode : ℕ → Bool → Run (Unit {0})
unfolding write_inode free_inode
zero_inode ino was_dir = do
  size ← get (λ fs. fs.sb.inode_size)
  write_inode ino (replicate size 0)
  free_inode ino was_dir

module _ (utf8 : Utf8) where
  open utf8 use {decode}

  unfoldable pub readdir : ℕ → Run (List Text)
  unfolding require_format read_dir_entries
  readdir ino = do
    require_format s_ifdir not_a_directory ino
    es ← read_dir_entries ino
    pure (map (λ e. decode e.name) es)

  unfoldable pub entry_or_raise : Text → Option Entry → Run Entry
  entry_or_raise name none = raise (file_not_found name)
  entry_or_raise name (some e) = pure e

  unfoldable pub find_in : ℕ → Text → Run ℕ
  unfolding require_format read_dir_entries find_entry entry_or_raise
  find_in ino name = do
    require_format s_ifdir not_a_directory ino
    es ← read_dir_entries ino
    e ← entry_or_raise name (find_entry utf8 name es)
    pure e.ino

  unfoldable pub lookup : ℕ → Text → Run ℕ
  unfolding find_in
  lookup ino name =
      if is_empty name || bytes_eq name (codes ".") then pure ino else find_in ino name

  -- `.` and `..` of a new directory, its link count and that of its parent.
  unfoldable pub init_dir : ℕ → ℕ → Run (Unit {0})
  unfolding add_dir_entry relink
  init_dir parent ino = do
    add_dir_entry utf8 ino (codes ".") ino 2
    add_dir_entry utf8 ino (codes "..") parent 2
    relink (λ _. 2) ino
    relink (λ n. n + 1) parent

  unfoldable pub absent : Text → Option Entry → Run (Unit {0})
  absent name none = pure tt
  absent name (some e) = raise (file_exists name)

  unfoldable pub create : ℕ → Text → InodeType → Run ℕ
  unfolding require_format read_dir_entries find_entry absent alloc_inode new_inode write_inode
      init_dir add_dir_entry inode_type_to_mode inode_type_to_filetype
  create ino name t = do
    require_format s_ifdir not_a_directory ino
    es ← read_dir_entries ino
    absent name (find_entry utf8 name es)
    new_ino ← alloc_inode (is_dir t)
    size ← get (λ fs. fs.sb.inode_size)
    raw ← lift (new_inode size (inode_type_to_mode t (if is_dir t then 0o755 else 0o644)))
    write_inode new_ino raw
    (if is_dir t then init_dir ino new_ino else pure tt)
    add_dir_entry utf8 ino name new_ino (inode_type_to_filetype t)
    pure new_ino

  unfoldable pub check_empty : ℕ → Text → Run (Unit {0})
  unfolding dir_is_empty require
  check_empty ino name = do empty ← dir_is_empty utf8 ino; require empty (not_empty name)

  unfoldable pub release_dir : ℕ → ℕ → Bytes → Run (Unit {0})
  unfolding relink free_all_blocks zero_inode
  release_dir parent ino raw = do
    relink (λ n. n - 1) parent
    free_all_blocks raw
    zero_inode ino true

  unfoldable pub release_file : ℕ → Bytes → Run (Unit {0})
  unfolding free_all_blocks zero_inode write_inode
  release_file ino raw = do
    links ← lift (i_links raw)
    raw' ← lift (set_i_links (links - 1) raw)
    let last = (do free_all_blocks raw'; zero_inode ino false)
    if leb links 1 then last else write_inode ino raw'

  unfoldable pub unlink : ℕ → Text → Run (Unit {0})
  unfolding require_format read_dir_entries find_entry entry_or_raise check_empty remove_dir_entry
      release_dir release_file read_inode
  unlink ino name = do
    require_format s_ifdir not_a_directory ino
    es ← read_dir_entries ino
    target ← entry_or_raise name (find_entry utf8 name es)
    raw ← read_inode target.ino
    mode ← lift (i_mode raw)
    let is_directory = format_of mode == s_ifdir
    (if is_directory then check_empty target.ino name else pure tt)
    remove_dir_entry utf8 ino name
    if is_directory then release_dir ino target.ino raw else release_file target.ino raw
