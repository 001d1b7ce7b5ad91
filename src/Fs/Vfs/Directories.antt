-- ===== src/Fs/Vfs/Directories.antt =====
-- `mkdir` of a path that ends in a slash.
use pythonos.Prelude.{
  ℕ, ◌≡◌, ◌≢◌, ◌∙◌, refl, ap, List, [], ◌∷◌, ◌++◌, some, Bool-cases, inl, inr, true, false, ◌==◌,
  ok, pure, continue, bytes_eq, lookup, insert, lookup-insert, lookup-insert_self, Eq-ℕ, Eq-Bytes,
  arith,
}
use pythonos.Prelude.Text.{Text, codes, split}
use pythonos.Fs.PurePath
use pythonos.Fs.PurePath.{before_last, parent_of, last_of, pure_path}
use pythonos.Fs.Tmpfs.Defs.{dir, is_dir, TmpfsNode, Heap, new_node, create}
use pythonos.Fs.Tmpfs.Names.{IsValid}
use pythonos.Fs.Tmpfs.Entries.{created, run-create}
use pythonos.Fs.Vfs.Defs.{FsNode, World, call, after_call, resolve}
use pythonos.Fs.Vfs.Calls.{mkdir}
use pythonos.Fs.Vfs.OnTmpfs.{tmpfs}

before_last_slash : (p : Text) → before_last (p ++ codes "/") ≡ some p
unfolding before_last
before_last_slash [] = refl
before_last_slash (x ∷ p) = rw (before_last_slash p, before_last) refl

-- The pieces of a text that ends in a slash end in an empty one.
split_slash :
    (p : Text)
    → (q : Text) × (qs : List Text) × (split b'/' (p ++ codes "/") ≡ q ∷ qs)
      × ((d : Text) → last_of d qs ≡ [])
unfolding split
split_slash [] = ([], [] ∷ [], refl, λ d. refl)
split_slash (x ∷ p) =
    let (q, qs, e, l) = split_slash p in
    elim (Bool-cases (x == b'/')) [
      | inl s ↦ ([], q ∷ qs, rw (s, e) refl, λ d. l q)
      | inr s ↦ (x ∷ q, qs, rw (s, e) refl, l)
    ]

name_slash : (p : Text) → PurePath.name (p ++ codes "/") ≡ []
unfolding PurePath.name
name_slash p = let (q, qs, e, l) = split_slash p in rw e (l q)

two_not_root : (x y : ℕ) (p : Text) → bytes_eq (x ∷ y ∷ p) (codes "/") ≡ false
two_not_root x y p = elim (Bool-cases (x == b'/')) [ inl e ↦ rw e refl | inr e ↦ rw e refl ]

parent_split :
    (s : Text) (x : ℕ) (p : Text)
    → bytes_eq s (codes "/") ≡ false
    → before_last s ≡ some (x ∷ p)
    → PurePath.parent s ≡ x ∷ p
unfolding PurePath.parent parent_of
parent_split s x p n e = rw (n, e) refl

parent_slash : (x : ℕ) (p : Text) → PurePath.parent (x ∷ p ++ codes "/") ≡ x ∷ p
parent_slash x [] =
    parent_split (x ∷ codes "/") x [] (two_not_root x b'/' []) (before_last_slash (x ∷ []))
parent_slash x (y ∷ p) =
    parent_split (x ∷ y ∷ p ++ codes "/") x (y ∷ p) (two_not_root x y (p ++ codes "/"))
      (before_last_slash (x ∷ y ∷ p))

-- A path that still ends in a slash when its runs of slashes are collapsed, and is not the root, is split
-- behind the slash: `mkdir` calls `create` with the empty name on the node that the path leads to.
mkdir_slash :
    (fs : FsNode) (path : Text) (x : ℕ) (p : Text) (w : World fs)
    → pure_path path ≡ x ∷ p ++ codes "/"
    → mkdir fs path w
      ≡ continue
          (resolve fs (x ∷ p) w)
          (λ parent w'. continue (call fs (fs.create parent [] dir) w') (λ _. pure tt))
unfolding mkdir
mkdir_slash fs path x p w e = rw (e, name_slash (x ∷ p), parent_slash x p) refl

-- The node `id` of the directory, and the new heap, after an entry of the empty name was made.
pub record HasUnnamed (id : ℕ) (node : TmpfsNode) (h h' : Heap) : Type 0 where
  pub parent : TmpfsNode
  pub there : lookup id h'.nodes ≡ some parent
  pub entry : lookup [] parent.children ≡ some h.next
  pub empty_dir : lookup h.next h'.nodes ≡ some (new_node dir)
  pub others : (name : Text) → name ≢ [] → lookup name parent.children ≡ lookup name node.children

-- `mkdir` on the in-memory file system, of a path that still ends in a slash when its runs of slashes are
-- collapsed and is not the root, where the path without the slash leads to a directory of a well-formed
-- heap: it succeeds, and makes a new empty directory under the empty name inside that directory, which
-- keeps all other entries.
pub mkdir_slash_tmpfs :
    (path : Text) (x : ℕ) (p : Text) (id : ℕ) (node : TmpfsNode) (w w1 : World tmpfs)
    → pure_path path ≡ x ∷ p ++ codes "/"
    → resolve tmpfs (x ∷ p) w ≡ (ok id, w1)
    → IsValid w1.disk
    → lookup id w1.disk.nodes ≡ some node
    → is_dir node.inode_type ≡ true
    → (h : Heap) × (mkdir tmpfs path w ≡ (ok tt, record w1 { disk = h }))
      × HasUnnamed id node w1.disk h
unfolding after_call
mkdir_slash_tmpfs path x p id node w w1 e r v found d =
    let h = created id node [] dir w1.disk in
    let parent : TmpfsNode = record node { children = insert [] w1.disk.next node.children } in
    (
      h,
      mkdir_slash tmpfs path x p w e
          ∙ (ap
                (λ q.
                  continue q
                    (λ parent w'. continue (call tmpfs (create parent [] dir) w') (λ _. pure tt)))
                r
              ∙ ap (λ q. continue (after_call tmpfs q w1) (λ _. pure tt))
                  (run-create id node [] dir w1.disk found d)),
      record {
        parent = parent;
        there = lookup-insert_self id parent _;
        entry = lookup-insert_self [] w1.disk.next node.children;
        empty_dir = ground (
          arith,
          lookup-insert id w1.disk.next parent (insert w1.disk.next (new_node dir) w1.disk.nodes),
          lookup-insert_self w1.disk.next (new_node dir) w1.disk.nodes,
          v.fresh id,
          found,
        );
        others = λ name ne.
            ground (
              arith,
              lookup-insert [] name w1.disk.next node.children,
              Eq-Bytes.beq_iff [] name,
              ne,
            );
      },
    )
