-- ===== src/Fs/Tmpfs/Files.antt =====
-- Files: what a write leaves in each byte, and that it is read back.
use pythonos.Prelude.{
  ℕ, ◌+◌, ◌-◌, ◌<◌, ◌≤◌, ◌≡◌, ◌≢◌, ◌∙◌, refl, sym, ◌++◌, some, Bool-cases, inl, inr, true, ltb,
  if◌then◌else◌, ok, lookup, lookup-insert, lookup-insert_self, Eq-ℕ, length, length-append, take,
  drop, replicate, get_elem?, arith, max, length-take, length-drop, length-replicate,
  get_elem?-append_lt, get_elem?-append_ge, get_elem?-none, get_elem?-take, get_elem?-drop,
  get_elem?-replicate, drop-append_length, take-append_length,
}
use pythonos.Prelude.Bytes.{Bytes}
use pythonos.Fs.Tmpfs.Defs.{file, TmpfsNode, Heap, node_of, put, read, written, write_to, write}

-- `filled` of `write`: at least as long as the end of the written part.
abbrev filled : ℕ → Bytes → Bytes
filled end old = if ltb (length old) end then old ++ replicate (end - length old) 0 else old

length-filled : (end : ℕ) (old : Bytes) → length (filled end old) ≡ max (length old) end
length-filled end old = ground (
  arith,
  length-append old (replicate (end - length old) 0),
  length-replicate {A = ℕ} (end - length old) 0,
)

filled_old :
    (end : ℕ) (old : Bytes) (i : ℕ)
    → i < length old
    → get_elem? (filled end old) i ≡ get_elem? old i
filled_old end old i h = elim (Bool-cases (ltb (length old) end)) [
  | inl e ↦ rw e (get_elem?-append_lt old (replicate (end - length old) 0) i h)
  | inr e ↦ rw e refl
]

filled_zero :
    (end : ℕ) (old : Bytes) (i : ℕ)
    → length old ≤ i
    → i < end
    → get_elem? (filled end old) i ≡ some 0
filled_zero end old i ge lt =
    let short : ltb (length old) end ≡ true = ground (arith, ge, lt) in
    rw short (
      get_elem?-append_ge old (replicate (end - length old) 0) i (i - length old)
        (omega (arith, ge))
      ∙ get_elem?-replicate (end - length old) 0 (i - length old) (omega (arith, ge, lt)))

filled_past :
    (end : ℕ) (old : Bytes) (i : ℕ) → end ≤ i → get_elem? (filled end old) i ≡ get_elem? old i
filled_past end old i h = elim (Bool-cases (ltb (length old) end)) [
  | inl e ↦
      get_elem?-none (filled end old) i (ground (arith, length-filled end old, e, h))
      ∙ sym (get_elem?-none old i (ground (arith, e, h)))
  | inr e ↦ rw e refl
]

-- The bytes of a file after a write of `bs` at `offset`.
pub record IsWritten (offset : ℕ) (bs old new : Bytes) : Type 0 where
  pub size : length new ≡ max (length old) (offset + length bs)
  pub here : take (length bs) (drop offset new) ≡ bs
  pub kept : (i : ℕ) → i < offset → i < length old → get_elem? new i ≡ get_elem? old i
  pub zeros : (i : ℕ) → length old ≤ i → i < offset → get_elem? new i ≡ some 0
  pub after : (i : ℕ) → offset + length bs ≤ i → get_elem? new i ≡ get_elem? old i

written-IsWritten : (offset : ℕ) (bs old : Bytes) → IsWritten offset bs old (written offset bs old)
unfolding written
written-IsWritten offset bs old =
    let end = offset + length bs in
    let full = filled end old in
    let tail = drop end full in
    let enough : end ≤ length full = ground (arith, length-filled end old) in
    let before : length (take offset full) ≡ offset =
      omega (arith, length-take offset full, enough) in
    record {
      size = omega (
        arith,
        length-append (take offset full) (bs ++ tail),
        length-append bs tail,
        before,
        length-drop end full,
        length-filled end old,
      );
      here =
          rw (drop-append_length offset (take offset full) (bs ++ tail) (sym before))
            (take-append_length bs tail);
      kept = λ i lt short.
          get_elem?-append_lt (take offset full) (bs ++ tail) i (omega (arith, before, lt))
          ∙ (get_elem?-take offset full i lt ∙ filled_old end old i short);
      zeros = λ i ge lt.
          get_elem?-append_lt (take offset full) (bs ++ tail) i (omega (arith, before, lt))
          ∙ (get_elem?-take offset full i lt ∙ filled_zero end old i ge (omega (arith, lt)));
      after = λ i ge.
          get_elem?-append_ge (take offset full) (bs ++ tail) i (i - offset)
            (omega (arith, before, ge))
          ∙ (get_elem?-append_ge bs tail (i - offset) (i - end) (omega (arith, ge))
              ∙ (get_elem?-drop end full (i - end) i (omega (arith, ge))
                  ∙ filled_past end old i ge));
    }

pub node_of_found :
    (id : ℕ) (node : TmpfsNode) (h : Heap)
    → lookup id h.nodes ≡ some node
    → node_of id h ≡ (ok node, h)
unfolding node_of
node_of_found id node h found = rw (found, node_of) refl

-- A write to a file succeeds whatever its offset, and tells the length of the data. The data is read
-- back at that offset; the size is at least the end of the data; the bytes before the offset and
-- behind the data stay, a gap behind the old end is filled with zeros, the kind and the mode of
-- the node stay, and no other node changes.
pub read-write :
    (id offset : ℕ) (bs : Bytes) (node : TmpfsNode) (h : Heap)
    → lookup id h.nodes ≡ some node
    → node.inode_type ≡ file
    → (new : Bytes) × IsWritten offset bs node.content new
      × (write id offset bs h ≡ (ok (length bs), put id (record node { content = new }) h))
      × (read id offset (length bs) (put id (record node { content = new }) h)
          ≡ (ok bs, put id (record node { content = new }) h))
      × ((m : ℕ)
          → m ≢ id
          → lookup m (put id (record node { content = new }) h).nodes ≡ lookup m h.nodes)
unfolding write write_to read
read-write id offset bs node h found is_file =
    let new = written offset bs node.content in
    let w = written-IsWritten offset bs node.content in
    (
      new,
      w,
      rw (node_of_found id node h found, is_file) refl,
      rw
          (
            node_of_found id (record node { content = new })
                (put id (record node { content = new }) h)
                (lookup-insert_self id (record node { content = new }) h.nodes),
            is_file,
            w.here,
          )
          refl,
      λ m ne. ground (arith, lookup-insert id m (record node { content = new }) h.nodes, ne),
    )
