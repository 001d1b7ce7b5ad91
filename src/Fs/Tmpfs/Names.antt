-- ===== src/Fs/Tmpfs/Names.antt =====
-- Well-formed heaps, kept by every operation, and the names in a directory.
use pythonos.Prelude.{
  ℕ, suc, ◌≤◌, ◌≡◌, ◌∙◌, refl, sym, ap, [], Option, none, some, true, Bool-cases, Option-cases,
  List, ◌∷◌, inl, inr, err, lookup, insert, has_key, lookup-insert, lookup-erase, Eq-ℕ, Eq-Bytes,
  arith,
}
use pythonos.Prelude.Bytes.{Bytes}
use pythonos.Prelude.Text.{Text}
use pythonos.Fs.Tmpfs.Files.{node_of_found}
use pythonos.Fs.Tmpfs.Defs.{
  dangling, InodeType, dir, is_dir, is_file, TmpfsNode, Heap, node_of, put, truncate, write_to,
  write, create, unlink, new_node, new_heap,
}

-- Only a directory has entries, an entry names a node, and the next number is free.
pub record IsValid (h : Heap) : Type 0 where
  pub entries :
      (id : ℕ) (node : TmpfsNode) (name : Text) (kid : ℕ)
      → lookup id h.nodes ≡ some node
      → lookup name node.children ≡ some kid
      → (is_dir node.inode_type ≡ true) × (has_key kid h.nodes ≡ true)
  pub fresh : (id : ℕ) → h.next ≤ id → lookup id h.nodes ≡ none

-- A node is replaced by one of its kind with no entry that it did not have.
put-IsValid :
    (id : ℕ) (node node' : TmpfsNode) (h : Heap)
    → lookup id h.nodes ≡ some node
    → node'.inode_type ≡ node.inode_type
    → ((name : Text) (kid : ℕ)
        → lookup name node'.children ≡ some kid
        → lookup name node.children ≡ some kid)
    → IsValid h
    → IsValid (put id node' h)
put-IsValid id node node' h found kind sub v = record {
  entries = λ m k name kid e c. ground (
    arith,
    lookup-insert id m node' h.nodes,
    lookup-insert id kid node' h.nodes,
    v.entries m k name kid,
    v.entries id node name kid found,
    sub name kid,
    kind,
    e,
    c,
  );
  fresh =
      λ m le. ground (arith, lookup-insert id m node' h.nodes, v.fresh m le, v.fresh id, found, le);
}

-- The operations that change the heap. What an operation answers is left aside here.
pub data Op : Type 0 where
  write_op : ℕ → ℕ → Bytes → Op
  truncate_op : ℕ → ℕ → Op
  create_op : ℕ → Text → InodeType → Op
  unlink_op : ℕ → Text → Op

unfoldable pub apply : Op → Heap → Heap
unfolding write truncate create unlink
apply (write_op id offset bs) h = (write id offset bs h).1
apply (truncate_op id size) h = (truncate id size h).1
apply (create_op id name t) h = (create id name t h).1
apply (unlink_op id name) h = (unlink id name h).1

unfoldable pub apply_all : List Op → Heap → Heap
unfolding apply
apply_all [] h = h
apply_all (op ∷ ops) h = apply_all ops (apply op h)

node_of_missing : (id : ℕ) (h : Heap) → lookup id h.nodes ≡ none → node_of id h ≡ (err dangling, h)
unfolding node_of
node_of_missing id h e = rw (e, node_of) refl

-- A node that begins with no entries has none.
abbrev children_in : Text → Option TmpfsNode → Option ℕ
children_in n none = none
children_in n (some k) = lookup n k.children

no_entries :
    (k₀ k : TmpfsNode) (n : Text) → k₀.children ≡ [] → some k₀ ≡ some k → lookup n k.children ≡ none
unfolding lookup
no_entries k₀ k n e same = sym (ap (children_in n) same) ∙ ap (lookup n) e

create-IsValid :
    (id : ℕ) (node : TmpfsNode) (name : Text) (t : InodeType) (h : Heap)
    → lookup id h.nodes ≡ some node
    → is_dir node.inode_type ≡ true
    → IsValid h
    → IsValid (record {
      nodes =
          insert id
            (record node { children = insert name h.next node.children })
            (insert h.next (new_node t) h.nodes);
      next = suc h.next;
    })
create-IsValid id node name t h found d v =
    let node' = record node { children = insert name h.next node.children } in
    let inner = insert h.next (new_node t) h.nodes in
    record {
      entries = λ m k n kid e c. ground (
        arith,
        lookup-insert id m node' inner,
        lookup-insert h.next m (new_node t) h.nodes,
        lookup-insert id kid node' inner,
        lookup-insert h.next kid (new_node t) h.nodes,
        lookup-insert name n h.next node.children,
        v.entries m k n kid,
        v.entries id node n kid found,
        no_entries (new_node t) k n refl,
        d,
        e,
        c,
      );
      fresh = λ m le. ground (
        arith,
        lookup-insert id m node' inner,
        lookup-insert h.next m (new_node t) h.nodes,
        v.fresh m,
        v.fresh id,
        found,
        le,
      );
    }

apply-IsValid : (op : Op) (h : Heap) → IsValid h → IsValid (apply op h)
unfolding apply write write_to truncate create unlink
apply-IsValid (write_op id offset bs) h v = elim (Option-cases (lookup id h.nodes)) [
  | inl e ↦ rw (node_of_missing id h e, apply, write, write_to) v
  | inr (node, e) ↦ elim (Bool-cases (is_file node.inode_type)) [
    | inl f ↦
        rw (node_of_found id node h e, f, apply, write, write_to)
          (put-IsValid id node _ h e refl (λ n k c. c) v)
    | inr f ↦ rw (node_of_found id node h e, f, apply, write, write_to) v
  ]
]
apply-IsValid (truncate_op id size) h v = elim (Option-cases (lookup id h.nodes)) [
  | inl e ↦ rw (node_of_missing id h e, apply, truncate) v
  | inr (node, e) ↦ elim (Bool-cases (is_file node.inode_type)) [
    | inl f ↦
        rw (node_of_found id node h e, f, apply, truncate)
          (put-IsValid id node _ h e refl (λ n k c. c) v)
    | inr f ↦ rw (node_of_found id node h e, f, apply, truncate) v
  ]
]
apply-IsValid (create_op id name t) h v = elim (Option-cases (lookup id h.nodes)) [
  | inl e ↦ rw (node_of_missing id h e, apply, create) v
  | inr (node, e) ↦ elim (Bool-cases (is_dir node.inode_type)) [
    | inl f ↦
        rw (node_of_found id node h e, f, apply, create) (create-IsValid id node name t h e f v)
    | inr f ↦ rw (node_of_found id node h e, f, apply, create) v
  ]
]
apply-IsValid (unlink_op id name) h v = elim (Option-cases (lookup id h.nodes)) [
  | inl e ↦ rw (node_of_missing id h e, apply, unlink) v
  | inr (node, e) ↦ elim (Bool-cases (has_key name node.children)) [
    | inl f ↦
        rw (node_of_found id node h e, f, apply, unlink)
          (put-IsValid id node _ h e refl
            (λ n k c. ground (arith, lookup-erase name n node.children, c)) v)
    | inr f ↦ rw (node_of_found id node h e, f, apply, unlink) v
  ]
]

apply_all-keeps : (ops : List Op) (h : Heap) → IsValid h → IsValid (apply_all ops h)
unfolding apply_all
apply_all-keeps [] h v = v
apply_all-keeps (op ∷ ops) h v = apply_all-keeps ops (apply op h) (apply-IsValid op h v)

new_heap-IsValid : IsValid new_heap
unfolding lookup
new_heap-IsValid = record {
  entries = λ id node name kid e c. ground (
    arith,
    no_entries (record { inode_type = dir; mode = 0o755; content = []; children = [] }) node name
        refl,
    e,
    c,
  );
  fresh = λ id le. ground (arith, le);
}

-- After any operations on a new file system, failed ones included: only directories have entries,
-- every entry names a node, and the number of the next node is free.
pub apply_all-IsValid : (ops : List Op) → IsValid (apply_all ops new_heap)
apply_all-IsValid ops = apply_all-keeps ops new_heap new_heap-IsValid
