-- ===== src/Fs/Tmpfs/Defs.antt =====
-- `TmpfsNode` and the synchronous reads of `TmpFS`. Nodes are objects: the heap has them by number,
-- and a directory holds numbers, so an unlinked node stays as long as somebody holds it.
use pythonos.Prelude.{
  ℕ, suc, ◌+◌, ◌-◌, List, [], ◌∷◌, ◌++◌, Option, none, some, Bool, true, false, ◌||◌, ltb,
  if◌then◌else◌, Exec, ok, err, pure, raise, ◌>>=◌, Dict, lookup, insert, erase, keys, has_key,
  Eq-ℕ, Eq-Bytes, bytes_eq, length, take, drop, replicate,
}
use pythonos.Prelude.Bytes.{Bytes}
use pythonos.Prelude.Text.{Text, codes, is_empty, strip, split, non_empty}

pub data InodeType : Type 0 where
  file dir symlink device pipe : InodeType

abbrev pub is_dir : InodeType → Bool
is_dir dir = true
is_dir _ = false

abbrev pub is_file : InodeType → Bool
is_file file = true
is_file _ = false

pub record TmpfsNode : Type 0 where
  pub inode_type : InodeType
  pub mode : ℕ
  pub content : Bytes
  pub children : Dict Text ℕ

pub record Heap : Type 0 where
  pub nodes : Dict ℕ TmpfsNode
  pub next : ℕ

pub record Stat : Type 0 where
  pub inode_type : InodeType
  pub size : ℕ
  pub mode : ℕ
  pub nlink : ℕ

-- `dangling` is the model's own, for a number that is no node.
pub data FsError : Type 0 where
  is_a_directory not_a_directory : FsError
  file_not_found : Text → FsError
  dangling : FsError

abbrev pub Fs : Type 0 → Type 0
Fs A = Exec Heap FsError A

-- `TmpfsNode(inode_type)`.
abbrev pub new_node : InodeType → TmpfsNode
new_node t = record { inode_type = t; mode = 0o644; content = []; children = [] }

-- `TmpFS()`: the root alone, as node 0.
abbrev pub new_heap : Heap
new_heap = record {
  nodes = (0, record { inode_type = dir; mode = 0o755; content = []; children = [] }) ∷ [];
  next = 1;
}

unfoldable pub node_of : ℕ → Fs TmpfsNode
node_of id h = elim (lookup id h.nodes) [ none ↦ (err dangling, h) | some node ↦ (ok node, h) ]

abbrev pub put : ℕ → TmpfsNode → Heap → Heap
put id node h = record h { nodes = insert id node h.nodes }

abbrev pub store : ℕ → TmpfsNode → Fs (Unit {0})
store id node h = (ok tt, put id node h)

unfoldable pub stat : ℕ → Fs Stat
unfolding node_of
stat id = do
  node ← node_of id
  pure (record {
    inode_type = node.inode_type;
    size = length node.content;
    mode = node.mode;
    nlink = if is_dir node.inode_type then 1 + length node.children else 1;
  })

-- The offset is not negative.
unfoldable pub read : ℕ → ℕ → ℕ → Fs Bytes
unfolding node_of
read id offset n = do
  node ← node_of id
  if is_file node.inode_type then pure (take n (drop offset node.content)) else raise is_a_directory

-- The data after `write`: filled up with zeros as far as the end, and the slice replaced.
unfoldable pub written : ℕ → Bytes → Bytes → Bytes
written offset bs old =
    let end = offset + length bs in
    let filled = if ltb (length old) end then old ++ replicate (end - length old) 0 else old in
    take offset filled ++ (bs ++ drop end filled)

unfoldable pub write_to : ℕ → ℕ → Bytes → TmpfsNode → Fs ℕ
unfolding written
write_to id offset bs node h =
    if is_file node.inode_type
    then (ok (length bs), put id (record node { content = written offset bs node.content }) h)
    else (err is_a_directory, h)

unfoldable pub write : ℕ → ℕ → Bytes → Fs ℕ
unfolding node_of write_to
write id offset bs = do node ← node_of id; write_to id offset bs node

unfoldable pub truncate : ℕ → ℕ → Fs (Unit {0})
unfolding node_of
truncate id size = do
  node ← node_of id
  (if is_file node.inode_type
      then store id (record node { content = take size node.content })
      else raise is_a_directory)

unfoldable pub readdir : ℕ → Fs (List Text)
unfolding node_of
readdir id = do
  node ← node_of id
  if is_dir node.inode_type
      then pure (codes "." ∷ codes ".." ∷ keys node.children)
      else raise not_a_directory

unfoldable pub child : Text → Option ℕ → Fs ℕ
child name none = raise (file_not_found name)
child name (some id) = pure id

-- `name in ('.', '')`.
abbrev pub is_self : Text → Bool
is_self name = bytes_eq name (codes ".") || is_empty name

-- `TmpfsNode.lookup`.
unfoldable pub find : ℕ → Text → Fs ℕ
unfolding node_of child
find id name = do
  node ← node_of id
  if is_self name then pure id else child name (lookup name node.children)

-- An entry of the same name is replaced.
unfoldable pub create : ℕ → Text → InodeType → Fs ℕ
unfolding node_of
create id name t = do
  node ← node_of id
  (if is_dir node.inode_type
      then (λ h. (
        ok h.next,
        record {
          nodes =
              insert id (record node { children = insert name h.next node.children })
                (insert h.next (new_node t) h.nodes);
          next = suc h.next;
        },
      ))
      else raise not_a_directory)

unfoldable pub unlink : ℕ → Text → Fs (Unit {0})
unfolding node_of
unlink id name = do
  node ← node_of id
  (if has_key name node.children
      then store id (record node { children = erase name node.children })
      else raise (file_not_found name))

unfoldable pub kid_of : Heap → Option ℕ → Option TmpfsNode
kid_of h none = none
kid_of h (some id) = lookup id h.nodes

-- The walk of `read_sync` and `isdir_sync` over the parts of a path.
unfoldable pub walk : Heap → Option TmpfsNode → List Text → Option TmpfsNode
unfolding kid_of
walk h none parts = none
walk h (some node) [] = some node
walk h (some node) (part ∷ parts) =
    let rest = walk h (kid_of h (lookup part node.children)) parts in
    if is_dir node.inode_type then rest else none

unfoldable pub file_content : Option TmpfsNode → Option Bytes
file_content none = none
file_content (some node) = if is_file node.inode_type then some node.content else none

-- The parts of a path: `s = "/" + path.strip("/")`, cut at the slashes, without the empty ones.
unfoldable pub path_parts : Text → List Text
unfolding strip split non_empty
path_parts path = non_empty (split b'/' (b'/' ∷ strip b'/' path))

-- The root is node 0.
unfoldable pub read_sync : Text → Heap → Option Bytes
unfolding walk file_content path_parts
read_sync path h = file_content (walk h (lookup 0 h.nodes) (path_parts path))

unfoldable pub names_dir : Option TmpfsNode → Bool
names_dir none = false
names_dir (some node) = is_dir node.inode_type

unfoldable pub isdir_sync : Text → Heap → Bool
unfolding walk names_dir path_parts
isdir_sync path h = names_dir (walk h (lookup 0 h.nodes) (path_parts path))

-- The loop of `VFS._resolve`: from a node, by the parts of a path.
unfoldable pub resolve : ℕ → List Text → Fs ℕ
resolve id [] = pure id
resolve id (part ∷ parts) = do next ← find id part; resolve next parts
