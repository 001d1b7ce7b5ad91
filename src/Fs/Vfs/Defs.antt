-- ===== src/Fs/Vfs/Defs.antt =====
-- `FSNode`, `Filesystem` and `VFS`. The nodes of all file systems are one type, and what they keep
-- is one state; the calls of a node are operations on it that may raise.
use pythonos.Prelude.{
  ℕ, ◌+◌, List, [], ◌∷◌, ◌++◌, Option, none, some, Bool, false, ltb, ◌==◌, if◌then◌else◌, Outcome,
  Exec, ok, err, pure, raise, modify, ◌>>=◌, ◌>>◌, Dict, Eq-ℕ, bytes_eq, length, drop, ◌/◌, ◌%◌,
}
use pythonos.Prelude.Bytes.{Bytes}
use pythonos.Prelude.Text.{Text, codes, is_empty, strip, rstrip, split, non_empty, starts_with}
use pythonos.Fs.Tmpfs.Defs.{InodeType, Stat}

-- `FSNode`. `not_found` tells whether an exception is a FileNotFoundError.
pub record FsNode : Type 1 where
  pub State : Type 0
  pub Node : Type 0
  pub Error : Type 0
  pub not_found : Error → Bool
  pub stat : Node → Exec State Error Stat
  pub read : Node → ℕ → ℕ → Exec State Error Bytes
  pub write : Node → ℕ → Bytes → Exec State Error ℕ
  pub truncate : Node → ℕ → Exec State Error (Unit {0})
  pub readdir : Node → Exec State Error (List Text)
  pub lookup : Node → Text → Exec State Error Node
  pub create : Node → Text → InodeType → Exec State Error Node
  pub unlink : Node → Text → Exec State Error (Unit {0})

-- `flags & CREAT`, `flags & TRUNC` and `flags & APPEND`.
abbrev pub creates : ℕ → Bool
creates flags = flags / 0x040 % 2 == 1

abbrev pub truncates : ℕ → Bool
truncates flags = flags / 0x200 % 2 == 1

abbrev pub appends : ℕ → Bool
appends flags = flags / 0x400 % 2 == 1

pub data SeekWhence : Type 0 where
  from_start from_current from_end : SeekWhence

-- `path.rstrip("/") or "/"`.
unfoldable pub mount_point : Text → Text
unfolding rstrip
mount_point path = let p = rstrip b'/' path in if is_empty p then codes "/" else p

-- `"/" + path.strip("/")`.
unfoldable pub norm : Text → Text
unfolding strip
norm path = b'/' ∷ strip b'/' path

-- What a path has behind a mount point, where it lies below it.
unfoldable pub relative : Text → Text → Option Text
unfolding starts_with
relative mp s =
    if bytes_eq mp (codes "/")
    then some (drop 1 s)
    else if bytes_eq s mp
    then some []
    else if starts_with (mp ++ codes "/") s
    then some (drop (length mp + 1) s)
    else none

-- All parts but the last, and the last.
unfoldable pub init : Text → List Text → List Text
init p [] = []
init p (q ∷ ps) = p ∷ init q ps

unfoldable pub last : Text → List Text → Text
last p [] = p
last p (q ∷ ps) = last q ps

module _ (fs : FsNode) where
  open fs use {State, Node, Error, not_found}

  -- `Filesystem`: its root, and the optional methods.
  pub record Filesystem : Type 0 where
    pub root : Node
    pub flush : Option (Exec State Error (Unit {0}))
    pub read_sync : Option (Text → State → Option Bytes)
    pub isdir_sync : Option (Text → State → Bool)

  pub record FileDescription : Type 0 where
    pub node : Node
    pub flags : ℕ
    pub offset : ℕ

  -- `VFS`, with the state of the file systems.
  pub record World : Type 0 where
    pub disk : State
    pub mounts : List (Text × Filesystem)
    pub fds : Dict ℕ FileDescription
    pub next_fd : ℕ

  pub data VfsError : Type 0 where
    node_error : Error → VfsError
    no_filesystem : Text → VfsError
    not_mounted : Text → VfsError
    root_exists : VfsError
    no_fd : ℕ → VfsError

  abbrev pub Vfs : Type 0 → Type 0
  Vfs A = Exec World VfsError A

  -- A call of a node inside a method.
  unfoldable pub after_call :
      {A : Type 0} → Outcome Error A × State → World → Outcome VfsError A × World
  after_call (ok a, d) w = (ok a, record w { disk = d })
  after_call (err e, d) w = (err (node_error e), record w { disk = d })

  abbrev pub call : {A : Type 0} → Exec State Error A → Vfs A
  call m w = after_call (m w.disk) w

  -- `VFS()`.
  abbrev pub new_world : State → World
  new_world d = record { disk = d; mounts = []; fds = []; next_fd = 3 }

  -- `[(p, f) for p, f in mounts if p != norm]`.
  unfoldable pub without : Text → List (Text × Filesystem) → List (Text × Filesystem)
  without mp [] = []
  without mp ((p, f) ∷ ms) =
      let rest = without mp ms in if bytes_eq p mp then rest else (p, f) ∷ rest

  -- Appending and sorting by length, longest first: a stable sort puts the new mount, the last, behind
  -- all that are as long, and leaves the others, which are sorted, as they stand.
  unfoldable pub place : Text × Filesystem → List (Text × Filesystem) → List (Text × Filesystem)
  place m [] = m ∷ []
  place m (n ∷ ms) = if ltb (length n.0) (length m.0) then m ∷ n ∷ ms else n ∷ place m ms

  unfoldable pub mount : Text → Filesystem → World → World
  unfolding without place mount_point
  mount path f w = record w {
    mounts = place (mount_point path, f) (without (mount_point path) w.mounts);
  }

  unfoldable pub flush_of : Option (Exec State Error (Unit {0})) → Vfs (Unit {0})
  flush_of none = pure tt
  flush_of (some m) = call m

  -- The loop of `unmount`: the file system that is mounted there, and the others.
  unfoldable pub mounted :
      Text → List (Text × Filesystem) → Option (Filesystem × List (Text × Filesystem))
  mounted mp [] = none
  mounted mp ((p, f) ∷ ms) =
      if bytes_eq p mp
      then some (f, ms)
      else elim (mounted mp ms) [ none ↦ none | some (g, rest) ↦ some (g, (p, f) ∷ rest) ]

  unfoldable pub unmount_found :
      Text → Option (Filesystem × List (Text × Filesystem)) → Vfs (Unit {0})
  unfolding flush_of after_call
  unmount_found path none = raise (not_mounted path)
  unmount_found path (some (f, rest)) = do
    flush_of f.flush
    modify (λ w. record w { mounts = rest })

  unfoldable pub unmount : Text → Vfs (Unit {0})
  unfolding mounted unmount_found mount_point
  unmount path w = unmount_found path (mounted (mount_point path) w.mounts) w

  -- The loop over the mounts that the three ways to resolve a path share.
  unfoldable pub select : Text → List (Text × Filesystem) → Option (Filesystem × Text)
  unfolding relative
  select s [] = none
  select s ((mp, f) ∷ ms) = elim (relative mp s) [ none ↦ select s ms | some rest ↦ some (f, rest) ]

  unfoldable pub read_sync_in : Option (Filesystem × Text) → State → Option Bytes
  read_sync_in none d = none
  read_sync_in (some (f, rest)) d = elim f.read_sync [
    | none ↦ none
    | some reader ↦ reader (b'/' ∷ rest) d
  ]

  unfoldable pub read_sync : Text → World → Option Bytes
  unfolding select read_sync_in norm
  read_sync path w = read_sync_in (select (norm path) w.mounts) w.disk

  unfoldable pub isdir_sync_in : Option (Filesystem × Text) → State → Bool
  isdir_sync_in none d = false
  isdir_sync_in (some (f, rest)) d = elim f.isdir_sync [
    | none ↦ false
    | some checker ↦ checker (b'/' ∷ rest) d
  ]

  unfoldable pub isdir_sync : Text → World → Bool
  unfolding select isdir_sync_in norm
  isdir_sync path w = isdir_sync_in (select (norm path) w.mounts) w.disk

  unfoldable pub walk : Node → List Text → Vfs Node
  unfolding after_call
  walk node [] = pure node
  walk node (part ∷ parts) = do next ← call (fs.lookup node part); walk next parts

  unfoldable pub resolve_in : Text → Option (Filesystem × Text) → Vfs Node
  unfolding walk split non_empty
  resolve_in path none = raise (no_filesystem path)
  resolve_in path (some (f, rest)) = walk f.root (non_empty (split b'/' rest))

  unfoldable pub resolve : Text → Vfs Node
  unfolding resolve_in select norm
  resolve path w = resolve_in path (select (norm path) w.mounts) w
