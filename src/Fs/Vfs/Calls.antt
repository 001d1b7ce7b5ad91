-- ===== src/Fs/Vfs/Calls.antt =====
-- The calls of `VFS` on descriptors and paths. One task runs at a time from start to end: what other
-- tasks do while a file system waits is not modelled. Offsets are not negative.
use pythonos.Prelude.{
  ℕ, ◌+◌, List, [], ◌∷◌, ◌++◌, none, some, Bool, true, false, ◌||◌, ◌==◌, if◌then◌else◌, Outcome,
  ok, err, pure, raise, modify, ◌>>=◌, ◌>>◌, lookup, insert, erase, Eq-ℕ, bytes_eq, length, drop,
}
use pythonos.Prelude.Bytes.{Bytes}
use pythonos.Prelude.Text.{Text, codes, starts_with, join}
use pythonos.Fs.PurePath
use pythonos.Fs.Tmpfs.Defs.{file, dir, Stat, path_parts}
use pythonos.Fs.Vfs.Defs.{
  FsNode, Filesystem, FileDescription, World, VfsError, node_error, no_filesystem, root_exists,
  no_fd, Vfs, call, after_call, resolve, norm, init, last, creates, truncates, appends, SeekWhence,
  from_start, from_current, from_end,
}

abbrev contains : Text → List Text → Bool
contains t [] = false
contains t (x ∷ xs) = bytes_eq x t || contains t xs

abbrev has_slash : Text → Bool
has_slash [] = false
has_slash (x ∷ s) = x == b'/' || has_slash s

unfoldable pub new_offset : SeekWhence → ℕ → ℕ → ℕ
new_offset from_start offset old = offset
new_offset from_current offset old = old + offset
new_offset from_end offset old = old

module _ (fs : FsNode) where
  open fs use {State, Node, Error, not_found}

  unfoldable pub is_not_found : VfsError fs → Bool
  is_not_found (node_error e) = not_found e
  is_not_found (no_filesystem path) = true
  is_not_found _ = false

  -- What `open` does where the path is not found.
  unfoldable pub create_file : List Text → Vfs fs Node
  unfolding init last after_call
  create_file [] = raise root_exists
  create_file (p ∷ ps) = do
    parent ← resolve fs (b'/' ∷ join b'/' (init p ps))
    call fs (fs.create parent (last p ps) file)

  unfoldable pub or_create :
      Text → Outcome (VfsError fs) Node × World fs → Outcome (VfsError fs) Node × World fs
  unfolding is_not_found create_file
  or_create path (ok node, w) = (ok node, w)
  or_create path (err e, w) = if is_not_found e then create_file (path_parts path) w else (err e, w)

  -- The node that `open` works on.
  unfoldable pub find_node : Text → ℕ → Vfs fs Node
  unfolding or_create
  find_node path flags w =
      if creates flags then or_create path (resolve fs path w) else resolve fs path w

  unfoldable pub new_fd : Node → ℕ → Vfs fs ℕ
  new_fd node flags w = (
    ok w.next_fd,
    record w {
      fds = insert w.next_fd (record { node = node; flags = flags; offset = 0 }) w.fds;
      next_fd = w.next_fd + 1;
    },
  )

  unfoldable pub truncate_if : Bool → Node → Vfs fs (Unit {0})
  unfolding after_call
  truncate_if false node = pure tt
  truncate_if true node = call fs (fs.truncate node 0)

  unfoldable pub open_file : Text → ℕ → Vfs fs ℕ
  unfolding find_node new_fd truncate_if
  open_file path flags = do
    node ← find_node path flags
    truncate_if (truncates flags) node
    new_fd node flags

  -- `self._fds[fd]`.
  unfoldable pub description : ℕ → Vfs fs (FileDescription fs)
  description fd w = elim (lookup fd w.fds) [ none ↦ (err (no_fd fd), w) | some d ↦ (ok d, w) ]

  -- `desc.offset = offset`.
  abbrev pub move_to : ℕ → FileDescription fs → ℕ → Vfs fs (Unit {0})
  move_to fd desc offset =
      modify (λ w. record w { fds = insert fd (record desc { offset = offset }) w.fds })

  unfoldable pub read : ℕ → ℕ → Vfs fs Bytes
  unfolding description after_call
  read fd n = do
    desc ← description fd
    bs ← call fs (fs.read desc.node desc.offset n)
    move_to fd desc (desc.offset + length bs)
    pure bs

  -- Where `write` begins: at the end of the file for a descriptor that appends.
  unfoldable pub write_offset : Bool → FileDescription fs → Vfs fs ℕ
  unfolding after_call
  write_offset false desc = pure desc.offset
  write_offset true desc = do st ← call fs (fs.stat desc.node); pure st.size

  unfoldable pub write : ℕ → Bytes → Vfs fs ℕ
  unfolding description after_call write_offset
  write fd bs = do
    desc ← description fd
    offset ← write_offset (appends desc.flags) desc
    move_to fd desc offset
    n ← call fs (fs.write desc.node offset bs)
    move_to fd desc (offset + n)
    pure n

  unfoldable pub seek : ℕ → ℕ → SeekWhence → Vfs fs ℕ
  unfolding description new_offset
  seek fd offset whence = do
    desc ← description fd
    move_to fd desc (new_offset whence offset desc.offset)
    pure (new_offset whence offset desc.offset)

  unfoldable pub close : ℕ → World fs → World fs
  close fd w = record w { fds = erase fd w.fds }

  unfoldable pub stat : Text → Vfs fs Stat
  unfolding after_call
  stat path = do node ← resolve fs path; call fs (fs.stat node)

  unfoldable pub mkdir : Text → Vfs fs (Unit {0})
  unfolding after_call
  mkdir path = do
    parent ← resolve fs (PurePath.parent (PurePath.pure_path path))
    _ ← call fs (fs.create parent (PurePath.name (PurePath.pure_path path)) dir)
    pure tt

  unfoldable pub unlink : Text → Vfs fs (Unit {0})
  unfolding after_call
  unlink path = do
    parent ← resolve fs (PurePath.parent (PurePath.pure_path path))
    call fs (fs.unlink parent (PurePath.name (PurePath.pure_path path)))

  -- A mount just below `path` shows as an entry, unless its name is there.
  unfoldable pub add_mount : Text → Text → List Text → List Text
  add_mount here mp entries =
      let prefix = if bytes_eq here (codes "/") then codes "/" else here ++ codes "/" in
      let child = drop (length prefix) mp in
      if bytes_eq mp (codes "/") || bytes_eq mp here
      then entries
      else if starts_with prefix mp
      then (if has_slash child || contains child entries then entries else entries ++ child ∷ [])
      else entries

  unfoldable pub add_mounts : Text → List (Text × Filesystem fs) → List Text → List Text
  unfolding add_mount
  add_mounts here [] entries = entries
  add_mounts here ((mp, f) ∷ ms) entries = add_mounts here ms (add_mount here mp entries)

  unfoldable pub readdir : Text → Vfs fs (List Text)
  unfolding add_mounts after_call
  readdir path = do
    node ← resolve fs path
    entries ← call fs (fs.readdir node)
    (λ w. (ok (add_mounts (norm path) w.mounts entries), w))

  -- `opened`: the body runs on the descriptor, which is closed however the body ends.
  unfoldable pub and_close :
      {A : Type 0} → ℕ → Outcome (VfsError fs) A × World fs → Outcome (VfsError fs) A × World fs
  unfolding close
  and_close fd (result, w) = (result, close fd w)

  unfoldable pub opened : {A : Type 0} → Text → ℕ → (ℕ → Vfs fs A) → Vfs fs A
  unfolding open_file and_close
  opened path flags body = do fd ← open_file path flags; (λ w. and_close fd (body fd w))
