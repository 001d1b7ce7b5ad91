-- ===== src/Fs/Tmpfs/Paths.antt =====
-- The two ways to a node: the synchronous walk, and lookup by lookup as the file system switch does.
use pythonos.Prelude.{
  ℕ, ◌≡◌, ◌⊎◌, inl, inr, refl, List, [], ◌∷◌, Option, none, some, true, false, Bool-cases,
  Option-cases, if◌then◌else◌, ok, err, lookup, has_key, Eq-ℕ, Eq-Bytes, All, arith,
}
use pythonos.Prelude.Text.{Text}
use pythonos.Fs.Tmpfs.Defs.{
  is_self, path_parts, is_dir, is_file, TmpfsNode, Heap, file_not_found, find, child, kid_of, walk,
  file_content, read_sync, isdir_sync, names_dir, resolve,
}
use pythonos.Fs.Tmpfs.Files.{node_of_found}
use pythonos.Fs.Tmpfs.Names.{IsValid}

-- A part of a path that is a name of its own: `TmpfsNode.lookup` takes the others for the node itself.

abbrev pub IsName : Text → Type 0
IsName part = is_self part ≡ false

-- The two walks end alike: both without a node, or at the same one.
pub data Agree (h : Heap) (id : ℕ) (parts : List Text) (seen : Option TmpfsNode) : Type 0 where
  both_missing :
      (name : Text)
      → seen ≡ none
      → resolve id parts h ≡ (err (file_not_found name), h)
      → Agree h id parts seen
  both_found :
      (target : ℕ) (node : TmpfsNode)
      → seen ≡ some node
      → lookup target h.nodes ≡ some node
      → resolve id parts h ≡ (ok target, h)
      → Agree h id parts seen

pub run-find :
    (id : ℕ) (node : TmpfsNode) (part : Text) (h : Heap)
    → lookup id h.nodes ≡ some node
    → IsName part
    → find id part h ≡ child part (lookup part node.children) h
unfolding find
run-find id node part h found name = rw (node_of_found id node h found, name) refl

node_at :
    (id : ℕ) (h : Heap)
    → has_key id h.nodes ≡ true
    → (node : TmpfsNode) × (lookup id h.nodes ≡ some node)
node_at id h live = elim (Option-cases (lookup id h.nodes)) [
  | inl e ↦ absurd (ground (arith, e, live))
  | inr found ↦ found
]

walk-none : (h : Heap) (parts : List Text) → walk h none parts ≡ none
unfolding walk
walk-none h [] = refl
walk-none h (part ∷ parts) = refl

-- A first part that is found, or not, decides for both walks.
missing-Agree :
    (id : ℕ) (node : TmpfsNode) (part : Text) (parts : List Text) (h : Heap)
    → lookup id h.nodes ≡ some node
    → IsName part
    → lookup part node.children ≡ none
    → Agree h id (part ∷ parts) (walk h (some node) (part ∷ parts))
unfolding walk resolve kid_of child
missing-Agree id node part parts h found name e =
    both_missing part
      (elim (Bool-cases (is_dir node.inode_type)) [
        | inl d ↦ rw (d, e, walk-none h parts) refl
        | inr d ↦ rw d refl
      ])
      (rw (run-find id node part h found name, e) refl)

step-Agree :
    (id kid : ℕ) (node kid_node : TmpfsNode) (part : Text) (parts : List Text) (h : Heap)
    → lookup id h.nodes ≡ some node
    → IsName part
    → lookup part node.children ≡ some kid
    → is_dir node.inode_type ≡ true
    → lookup kid h.nodes ≡ some kid_node
    → Agree h kid parts (walk h (some kid_node) parts)
    → Agree h id (part ∷ parts) (walk h (some node) (part ∷ parts))
unfolding walk resolve kid_of child
step-Agree id kid node kid_node part parts h found name e d k (both_missing n s r) =
    both_missing n (rw (d, e, k) s) (rw (run-find id node part h found name, e) r)
step-Agree id kid node kid_node part parts h found name e d k (both_found t tn s l r) =
    both_found t tn (rw (d, e, k) s) l (rw (run-find id node part h found name, e) r)

resolve-walk :
    (parts : List Text) (id : ℕ) (node : TmpfsNode) (h : Heap)
    → IsValid h
    → lookup id h.nodes ≡ some node
    → All IsName parts
    → Agree h id parts (walk h (some node) parts)
unfolding walk resolve
resolve-walk [] id node h v found names = both_found id node refl found refl
resolve-walk (part ∷ parts) id node h v found names =
    elim (Option-cases (lookup part node.children)) [
      | inl e ↦ missing-Agree id node part parts h found names.0 e
      | inr (kid, e) ↦
          let (d, live) = v.entries id node part kid found e in
          let (kid_node, k) = node_at kid h live in
          step-Agree id kid node kid_node part parts h found names.0 e d k
            (resolve-walk parts kid kid_node h v k names.1)
    ]

-- In a well-formed heap with a root, for a path of names, both ways give the same answer: where
-- the lookups fail, they fail with FileNotFoundError, `read_sync` gives nothing and `isdir_sync` says
-- no; where they reach a node, `read_sync` gives its bytes if it is a file and nothing else, and
-- `isdir_sync` tells whether it is a directory. No way changes the heap.
pub read_sync-resolve :
    (path : Text) (root : TmpfsNode) (h : Heap)
    → IsValid h
    → lookup 0 h.nodes ≡ some root
    → All IsName (path_parts path)
    → ((name : Text) × (resolve 0 (path_parts path) h ≡ (err (file_not_found name), h))
        × (read_sync path h ≡ none)
        × (isdir_sync path h ≡ false))
      ⊎ ((target : ℕ) × (node : TmpfsNode) × (resolve 0 (path_parts path) h ≡ (ok target, h))
          × (lookup target h.nodes ≡ some node)
          × (read_sync path h ≡ (if is_file node.inode_type then some node.content else none))
          × (isdir_sync path h ≡ is_dir node.inode_type))
unfolding read_sync isdir_sync file_content names_dir
read_sync-resolve path root h v found names =
    elim (resolve-walk (path_parts path) 0 root h v found names) [
      | both_missing name s r ↦ inl (name, r, rw (found, s) refl, rw (found, s) refl)
      | both_found target node s l r ↦
          inr (target, node, r, l, rw (found, s) refl, rw (found, s) refl)
    ]
