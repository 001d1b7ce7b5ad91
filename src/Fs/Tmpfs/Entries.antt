-- ===== src/Fs/Tmpfs/Entries.antt =====
-- One name in one directory: made, looked up, removed.
use pythonos.Prelude.{
  ℕ, suc, ◌≡◌, ◌≢◌, refl, Option, some, none, true, ok, err, lookup, insert, erase, has_key,
  lookup-insert, lookup-insert_self, lookup-erase_self, Eq-ℕ, Eq-Bytes, arith,
}
use pythonos.Prelude.Text.{Text}
use pythonos.Fs.Tmpfs.Defs.{
  InodeType, is_dir, TmpfsNode, Heap, file_not_found, new_node, put, child, find, create, unlink,
}
use pythonos.Fs.Tmpfs.Files.{node_of_found}
use pythonos.Fs.Tmpfs.Names.{IsValid}
use pythonos.Fs.Tmpfs.Paths.{IsName, run-find}

-- What `create` leaves.
abbrev pub created : ℕ → TmpfsNode → Text → InodeType → Heap → Heap
created id node name t h = record {
  nodes =
      insert id (record node { children = insert name h.next node.children })
        (insert h.next (new_node t) h.nodes);
  next = suc h.next;
}

-- What `unlink` of the same name leaves after that.
abbrev pub removed : ℕ → TmpfsNode → Text → InodeType → Heap → Heap
removed id node name t h =
    put id (record node { children = erase name (insert name h.next node.children) })
      (created id node name t h)

pub run-create :
    (id : ℕ) (node : TmpfsNode) (name : Text) (t : InodeType) (h : Heap)
    → lookup id h.nodes ≡ some node
    → is_dir node.inode_type ≡ true
    → create id name t h ≡ (ok h.next, created id node name t h)
unfolding create
run-create id node name t h found d = rw (node_of_found id node h found, d) refl

run-unlink :
    (id : ℕ) (node : TmpfsNode) (name : Text) (h : Heap)
    → lookup id h.nodes ≡ some node
    → has_key name node.children ≡ true
    → unlink id name h ≡ (ok tt, put id (record node { children = erase name node.children }) h)
unfolding unlink
run-unlink id node name h found k = rw (node_of_found id node h found, k) refl

child_heap : (name : Text) (o : Option ℕ) (h h' : Heap) → (child name o h).0 ≡ (child name o h').0
unfolding child
child_heap name none h h' = refl
child_heap name (some id) h h' = refl

-- In a well-formed heap, `create` in a directory makes an empty node of the kind asked for, also when
-- the name is taken: from then on the name leads to the new node, every other name leads where it led,
-- and after `unlink` the name leads nowhere.
pub create-find-unlink :
    (id : ℕ) (node : TmpfsNode) (name : Text) (t : InodeType) (h : Heap)
    → IsValid h
    → lookup id h.nodes ≡ some node
    → is_dir node.inode_type ≡ true
    → IsName name
    → (create id name t h ≡ (ok h.next, created id node name t h))
      × (lookup h.next (created id node name t h).nodes ≡ some (new_node t))
      × ((find id name (created id node name t h)).0 ≡ ok h.next)
      × ((other : Text)
          → IsName other
          → other ≢ name
          → (find id other (created id node name t h)).0 ≡ (find id other h).0)
      × (unlink id name (created id node name t h) ≡ (ok tt, removed id node name t h))
      × ((find id name (removed id node name t h)).0 ≡ err (file_not_found name))
unfolding child
create-find-unlink id node name t h v found d is_name =
    let h' = created id node name t h in
    let node' : TmpfsNode = record node { children = insert name h.next node.children } in
    let gone : TmpfsNode = record node { children = erase name node'.children } in
    let there : lookup id h'.nodes ≡ some node' = lookup-insert_self id node' _ in
    let mine = lookup-insert_self name h.next node.children in
    (
      run-create id node name t h found d,
      ground (
        arith,
        lookup-insert id h.next node' (insert h.next (new_node t) h.nodes),
        lookup-insert_self h.next (new_node t) h.nodes,
        v.fresh id,
        found,
      ),
      rw (run-find id node' name h' there is_name, mine) refl,
      λ other is_other ne.
          (let same : lookup other node'.children ≡ lookup other node.children = ground (
            arith,
            lookup-insert name other h.next node.children,
            Eq-Bytes.beq_iff name other,
            ne,
          ) in
            rw
              (
                run-find id node' other h' there is_other,
                run-find id node other h found is_other,
                same,
              )
              (child_heap other (lookup other node.children) h' h)),
      run-unlink id node' name h' there (ground (arith, mine)),
      rw
          (
            run-find id gone name (put id gone h') (lookup-insert_self id gone h'.nodes) is_name,
            lookup-erase_self name node'.children,
          )
          refl,
    )
