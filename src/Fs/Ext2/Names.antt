-- ===== src/Fs/Ext2/Names.antt =====
-- kernel/fs/ext2.py: the directories of a file system, block after block.
use pythonos.Prelude.{
  ℕ, zero, suc, ◌+◌, ◌-◌, ◌*◌, ◌/◌, List, [], ◌∷◌, ◌++◌, Option, none, some, Bool, true, false,
  ◌||◌, ◌&&◌, not, leb, if◌then◌else◌, pure, raise, ◌>>=◌, ◌>>◌, length, bytes_eq, ◌≡◌,
}
use pythonos.Prelude.Bytes.{Bytes}
use pythonos.Prelude.Text.{Text, codes, is_empty}
use pythonos.Fs.Ext2.Fields.{bad_name, file_not_found, lift}
use pythonos.Fs.Ext2.Device.{Run, get, read_block, write_block}
use pythonos.Fs.Ext2.Mount.{require}
use pythonos.Fs.Ext2.Inode.{read_inode, write_inode, file_size, set_file_size}
use pythonos.Fs.Ext2.Walk.{resolve_block, allocate_block_for}
use pythonos.Fs.Ext2.Dir.{Entry, Removed, block_entries, insert_entry, remove_entry, new_record}

-- `str.encode("utf-8")` and `bytes.decode("utf-8", errors="replace")`, for texts that have an
-- encoding.
pub record Utf8 : Type 0 where
  pub encode : Text → Bytes
  pub decode : Bytes → Text
  pub decode_encode : (s : Text) → decode (encode s) ≡ s

-- The entries of the block `phys`, and none for a hole.
unfoldable pub entries_of : ℕ → Run (List Entry)
unfolding read_block block_entries
entries_of zero = pure []
entries_of (suc b) = do blk ← read_block (suc b); lift (block_entries blk)

-- The blocks of a directory from `fb` on, `left` of them to go.
unfoldable pub entries_loop : ℕ → ℕ → Bytes → Run (List Entry)
unfolding resolve_block entries_of
entries_loop zero fb raw = pure []
entries_loop (suc left) fb raw = do
  phys ← resolve_block raw fb
  es ← entries_of phys
  more ← entries_loop left (fb + 1) raw
  pure (es ++ more)

unfoldable pub read_dir_entries : ℕ → Run (List Entry)
unfolding read_inode file_size entries_loop
read_dir_entries ino = do
  raw ← read_inode ino
  size ← file_size raw
  bs ← get (λ fs. fs.block_size)
  entries_loop ((size + bs - 1) / bs) 0 raw

-- Write the block with the new entry, and tell whether there was room.
unfoldable pub put_entry : ℕ → Option Bytes → Run Bool
unfolding write_block
put_entry phys none = pure false
put_entry phys (some blk) = do write_block phys blk; pure true

unfoldable pub insert_in : Entry → ℕ → Run Bool
unfolding read_block insert_entry put_entry
insert_in e zero = pure false
insert_in e (suc b) = do
  blk ← read_block (suc b)
  found ← lift (insert_entry e blk)
  put_entry (suc b) found

unfoldable pub insert_loop : Entry → ℕ → ℕ → Bytes → Run Bool
unfolding resolve_block insert_in
insert_loop e zero fb raw = pure false
insert_loop e (suc left) fb raw = do
  phys ← resolve_block raw fb
  done ← insert_in e phys
  let more = insert_loop e left (fb + 1) raw
  if done then pure true else more

-- A new block with the entry alone.
unfoldable pub append_block : ℕ → Entry → ℕ → Bytes → Run (Unit {0})
unfolding allocate_block_for read_block write_block new_record set_file_size write_inode
append_block dir_ino e size raw = do
  bs ← get (λ fs. fs.block_size)
  (phys, raw') ← allocate_block_for raw (size / bs)
  read_block phys
  blk ← lift (new_record bs e)
  write_block phys blk
  raw'' ← set_file_size ((size / bs + 1) * bs) raw'
  write_inode dir_ino raw''

unfoldable pub remove_in : Bytes → ℕ → Run (Option Removed)
unfolding read_block remove_entry
remove_in name zero = pure none
remove_in name (suc b) = do blk ← read_block (suc b); lift (remove_entry name blk)

module _ (utf8 : Utf8) where
  open utf8 use {encode, decode}

  unfoldable pub add_dir_entry : ℕ → Text → ℕ → ℕ → Run (Unit {0})
  unfolding require read_inode file_size insert_loop append_block
  add_dir_entry dir_ino name child_ino file_type = do
    let name_b = encode name
    require (not (is_empty name_b) && leb (length name_b) 255) bad_name
    let e = entry name_b
    raw ← read_inode dir_ino
    size ← file_size raw
    bs ← get (λ fs. fs.block_size)
    done ← insert_loop e ((size + bs - 1) / bs) 0 raw
    if done then pure tt else append_block dir_ino e size raw
    where
      entry : Bytes → Entry
      entry b = record { name = b; ino = child_ino; file_type = file_type }

  -- The loop of `_remove_dir_entry`: the inode and the file type of the entry.
  unfoldable pub remove_loop : Text → ℕ → ℕ → Bytes → Run (ℕ × ℕ)
  unfolding resolve_block remove_in write_block
  remove_loop name zero fb raw = raise (file_not_found name)
  remove_loop name (suc left) fb raw = do
    phys ← resolve_block raw fb
    found ← remove_in (encode name) phys
    let more = remove_loop name left (fb + 1) raw
    elim found [ none ↦ more | some r ↦ do write_block phys r.block; pure (r.ino, r.file_type) ]

  unfoldable pub remove_dir_entry : ℕ → Text → Run (ℕ × ℕ)
  unfolding read_inode file_size remove_loop
  remove_dir_entry dir_ino name = do
    raw ← read_inode dir_ino
    size ← file_size raw
    bs ← get (λ fs. fs.block_size)
    remove_loop name ((size + bs - 1) / bs) 0 raw

  -- The first entry with this name.
  unfoldable pub find_entry : Text → List Entry → Option Entry
  find_entry name [] = none
  find_entry name (e ∷ es) =
      let rest = find_entry name es in if bytes_eq (decode e.name) name then some e else rest

  unfoldable pub only_dots : List Entry → Bool
  only_dots [] = true
  only_dots (e ∷ es) =
      (bytes_eq (decode e.name) (codes ".") || bytes_eq (decode e.name) (codes ".."))
      && only_dots es

  unfoldable pub dir_is_empty : ℕ → Run Bool
  unfolding read_dir_entries only_dots
  dir_is_empty dir_ino = do es ← read_dir_entries dir_ino; pure (only_dots es)
