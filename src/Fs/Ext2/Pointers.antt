-- ===== src/Fs/Ext2/Pointers.antt =====
-- The walk over block pointers finds the block that `_allocate_block_for` provided.
use pythonos.Prelude.{
  ℕ, zero, suc, ◌+◌, ◌*◌, ◌≤◌, ◌<◌, ◌≡◌, ◌≢◌, refl, sym, ap, ◌∙◌, subst, ltb, Bool-cases, inl, inr,
  ok, Outcome, continue, continue_ok, pure, ◌>>=◌, ◌>>◌, length, arith, ◌⊎◌,
}
use pythonos.Prelude.Bytes.{Bytes}
use pythonos.Fs.Ext2.Fields.{Ext2Error, lift, unpack, pack}
use pythonos.Fs.Ext2.Device.{Ext2Fs, read_block, write_block}
use pythonos.Fs.Ext2.Inode.{i_block_n, set_i_block_n, i_blocks, set_i_blocks}
use pythonos.Fs.Ext2.Walk.{
  new_block, add_block_count, fill_slot, ensure_slot, fill_entry, ensure_entry, pointer_in,
}
use pythonos.Fs.Ext2.Cache.{read_block_twice, read_block-write_block}
use pythonos.Fs.Ext2.Codec.{
  length-packed, pack-ok, unpack-ok, unpack-packed_self, unpack-packed_other,
}

-- Two inodes with the same pointers, but for one slot.
pub record SamePointers (raw raw' : Bytes) (but : ℕ) : Type 0 where
  pub long : length raw' ≡ length raw
  pub others : (m : ℕ) → m < 15 → m ≢ but → i_block_n m raw' ≡ i_block_n m raw

lift_ok :
    {A : Type 0} (o : Outcome Ext2Error A) (fs : Ext2Fs) {a : A} {fs' : Ext2Fs}
    → lift o fs ≡ (ok a, fs')
    → (o ≡ ok a) × (fs ≡ fs')
lift_ok o fs h = (ap (λ r. r.0) h, ap (λ r. r.1) h)

-- Counting a block changes no pointer, and nothing but the inode.
add_block_count-keeps :
    (raw : Bytes) (fs : Ext2Fs) {raw' : Bytes} {fs' : Ext2Fs}
    → 100 ≤ length raw
    → add_block_count raw fs ≡ (ok raw', fs')
    → (fs ≡ fs')
      × (length raw' ≡ length raw)
      × ((m : ℕ) → m < 15 → i_block_n m raw' ≡ i_block_n m raw)
unfolding add_block_count
add_block_count-keeps raw fs {raw'} {fs'} long h =
    let (n, (fs1, got, h1)) =
      continue_ok (i_blocks raw, fs) (λ n. lift (set_i_blocks (n + fs.sectors_per_block) raw)) h in
    let (lifted, same1) = lift_ok (i_blocks raw) fs got in
    let (set, same2) = lift_ok (set_i_blocks (n + fs.sectors_per_block) raw) fs1 h1 in
    let fits : 28 + 4 ≤ length raw = omega (arith, long) in
    let (_, e) = pack-ok 4 28 (n + fs.sectors_per_block) raw fits set in
    (
      same1 ∙ same2,
      ap length e ∙ length-packed 4 28 (n + fs.sectors_per_block) raw fits,
      λ m lt.
          ap (i_block_n m) e
          ∙ unpack-packed_other 4 28 (n + fs.sectors_per_block) raw fits 4 (40 + m * 4)
              (inr (omega arith)),
    )

apart : (m n : ℕ) → m ≢ n → (40 + m * 4 + 4 ≤ 40 + n * 4) ⊎ (40 + n * 4 + 4 ≤ 40 + m * 4)
apart m n ne = elim (Bool-cases (ltb m n)) [
  | inl lt ↦ inl (ground (arith, lt))
  | inr ge ↦ inr (ground (arith, ge, ne))
]

module _ (n : ℕ) (raw : Bytes) (slot : n < 15) (long : 100 ≤ length raw) where
  fill_slot-fills :
      (b : ℕ) (fs : Ext2Fs) {phys : ℕ} {raw' : Bytes} {fs' : Ext2Fs}
      → i_block_n n raw ≡ ok b
      → fill_slot n raw b fs ≡ (ok (phys, raw'), fs')
      → (i_block_n n raw' ≡ ok phys) × SamePointers raw raw' n
  unfolding fill_slot
  fill_slot-fills (suc b) fs {phys} {raw'} at h =
      let p : suc b ≡ phys = ground (arith, ap (λ r. r.0) h) in
      let q : raw ≡ raw' = ground (arith, ap (λ r. r.0) h) in
      (
        subst (λ r. i_block_n n r ≡ ok phys) q (at ∙ ap ok p),
        record { long = ap length (sym q); others = λ m _ _. ap (i_block_n m) (sym q) },
      )
  fill_slot-fills zero fs {phys} {raw'} at h =
      let fits : 40 + n * 4 + 4 ≤ length raw = unpack-ok 4 (40 + n * 4) raw at in
      let (p, (fs1, _, h1)) =
        continue_ok (new_block fs)
          (λ phys.
            lift (set_i_block_n n phys raw)
            >>= (λ raw'. add_block_count raw' >>= (λ raw''. pure (phys, raw''))))
          h in
      let (r1, (fs2, e2, h2)) =
        continue_ok (set_i_block_n n p raw, fs1)
          (λ raw'. add_block_count raw' >>= (λ raw''. pure (p, raw''))) h1 in
      let (r2, (fs3, e3, h3)) =
        continue_ok (add_block_count r1 fs2) (λ raw''. pure (p, raw'')) h2 in
      let (lt, e) = pack-ok 4 (40 + n * 4) p raw fits (lift_ok (set_i_block_n n p raw) fs1 e2).0 in
      let size : length r1 ≡ length raw = ap length e ∙ length-packed 4 (40 + n * 4) p raw fits in
      let (_, size2, kept) = add_block_count-keeps r1 fs2 (omega (arith, size, long)) e3 in
      let is_p : p ≡ phys = ground (arith, ap (λ r. r.0) h3) in
      let is_r : r2 ≡ raw' = ground (arith, ap (λ r. r.0) h3) in
      (
        ap (i_block_n n) (sym is_r)
            ∙ (kept n slot
                ∙ (ap (i_block_n n) e
                    ∙ (unpack-packed_self 4 (40 + n * 4) p raw fits lt ∙ ap ok is_p))),
        record {
          long = ap length (sym is_r) ∙ (size2 ∙ size);
          others = λ m lt ne.
              ap (i_block_n m) (sym is_r)
              ∙ (kept m lt
                  ∙ (ap (i_block_n m) e
                      ∙ unpack-packed_other 4 (40 + n * 4) p raw fits 4 (40 + m * 4)
                          (apart m n ne)));
        },
      )

  pub ensure_slot-fills :
      (fs : Ext2Fs) {phys : ℕ} {raw' : Bytes} {fs' : Ext2Fs}
      → ensure_slot n raw fs ≡ (ok (phys, raw'), fs')
      → (i_block_n n raw' ≡ ok phys) × SamePointers raw raw' n
  unfolding ensure_slot
  ensure_slot-fills fs h =
      let (b, (fs1, e, h1)) = continue_ok (i_block_n n raw, fs) (fill_slot n raw) h in
      fill_slot-fills b fs1 (lift_ok (i_block_n n raw) fs e).0 h1

module _ (ind i : ℕ) (raw : Bytes) (long : 100 ≤ length raw) where
  -- What is known after an entry was provided.
  record HasEntry (phys : ℕ) (raw' : Bytes) (fs' : Ext2Fs) : Type 0 where
    blk : Bytes
    read : read_block ind fs' ≡ (ok blk, fs')
    entry : unpack 4 (i * 4) blk ≡ ok phys
    same : (m : ℕ) → m < 15 → i_block_n m raw' ≡ i_block_n m raw

  fill_entry-fills :
      (blk : Bytes) (b : ℕ) (fs : Ext2Fs) {phys : ℕ} {raw' : Bytes} {fs' : Ext2Fs}
      → read_block ind fs ≡ (ok blk, fs)
      → unpack 4 (i * 4) blk ≡ ok b
      → fill_entry ind blk i raw b fs ≡ (ok (phys, raw'), fs')
      → HasEntry phys raw' fs'
  unfolding fill_entry
  fill_entry-fills blk (suc b) fs {phys} {raw'} {fs'} read at h =
      let p : suc b ≡ phys = ground (arith, ap (λ r. r.0) h) in
      let q : raw ≡ raw' = ground (arith, ap (λ r. r.0) h) in
      record {
        blk = blk;
        read = subst (λ f. read_block ind f ≡ (ok blk, f)) (ap (λ r. r.1) h) read;
        entry = at ∙ ap ok p;
        same = λ m _. ap (i_block_n m) (sym q);
      }
  fill_entry-fills blk zero fs {phys} {raw'} {fs'} read at h =
      let fits : i * 4 + 4 ≤ length blk = unpack-ok 4 (i * 4) blk at in
      let (p, (fs1, _, h1)) =
        continue_ok (new_block fs)
          (λ phys. lift (pack 4 (i * 4) phys blk) >>= (λ blk'.
            write_block ind blk' >> (add_block_count raw >>= (λ raw'. pure (phys, raw')))))
          h in
      let (b1, (fs2, e2, h2)) =
        continue_ok (pack 4 (i * 4) p blk, fs1)
          (λ blk'. write_block ind blk' >> (add_block_count raw >>= (λ raw'. pure (p, raw')))) h1 in
      let (_, (fs3, e3, h3)) =
        continue_ok (write_block ind b1 fs2) (λ _. add_block_count raw >>= (λ raw'. pure (p, raw')))
          h2 in
      let (r, (fs4, e4, h4)) = continue_ok (add_block_count raw fs3) (λ raw'. pure (p, raw')) h3 in
      let (lt, e) = pack-ok 4 (i * 4) p blk fits (lift_ok (pack 4 (i * 4) p blk) fs1 e2).0 in
      let (still, _, kept) = add_block_count-keeps raw fs3 long e4 in
      let is_p : p ≡ phys = ground (arith, ap (λ r. r.0) h4) in
      let is_r : r ≡ raw' = ground (arith, ap (λ r. r.0) h4) in
      record {
        blk = b1;
        read =
            subst (λ f. read_block ind f ≡ (ok b1, f)) (still ∙ ap (λ r. r.1) h4)
              (read_block-write_block ind b1 fs2 e3);
        entry = ap (unpack 4 (i * 4)) e ∙ (unpack-packed_self 4 (i * 4) p blk fits lt ∙ ap ok is_p);
        same = λ m lt. ap (i_block_n m) (sym is_r) ∙ kept m lt;
      }

  ensure_entry-fills :
      (fs : Ext2Fs) {phys : ℕ} {raw' : Bytes} {fs' : Ext2Fs}
      → ensure_entry ind i raw fs ≡ (ok (phys, raw'), fs')
      → HasEntry phys raw' fs'
  unfolding ensure_entry
  ensure_entry-fills fs h =
      let (blk, (fs1, e1, h1)) =
        continue_ok (read_block ind fs)
          (λ blk. lift (unpack 4 (i * 4) blk) >>= fill_entry ind blk i raw) h in
      let (b, (fs2, e2, h2)) =
        continue_ok (unpack 4 (i * 4) blk, fs1) (fill_entry ind blk i raw) h1 in
      let (at, same) = lift_ok (unpack 4 (i * 4) blk) fs1 e2 in
      fill_entry-fills blk b fs2
        (subst (λ f. read_block ind f ≡ (ok blk, f)) same (read_block_twice ind fs e1)) at h2

pub ensure_entry-keeps :
    (ind i : ℕ) (raw : Bytes) (fs : Ext2Fs) {phys : ℕ} {raw' : Bytes} {fs' : Ext2Fs}
    → 100 ≤ length raw
    → ensure_entry ind i raw fs ≡ (ok (phys, raw'), fs')
    → (m : ℕ) → m < 15
    → i_block_n m raw' ≡ i_block_n m raw
ensure_entry-keeps ind i raw fs long h = (ensure_entry-fills ind i raw long fs h).same

-- The pointer that was provided is found at once, for an index whose pointer block is not block 0.
pub pointer_in-ensure_entry :
    (ind i : ℕ) (raw : Bytes) (fs : Ext2Fs) {phys : ℕ} {raw' : Bytes} {fs' : Ext2Fs}
    → 100 ≤ length raw
    → ind ≢ 0
    → ensure_entry ind i raw fs ≡ (ok (phys, raw'), fs')
    → pointer_in ind i fs' ≡ (ok phys, fs')
unfolding pointer_in
pointer_in-ensure_entry zero i raw fs long ne h = absurd (ne refl)
pointer_in-ensure_entry (suc b) i raw fs {phys} {raw'} {fs'} long ne h =
    let f = ensure_entry-fills (suc b) i raw long fs h in
    ap (λ r. continue r (λ blk. lift (unpack 4 (i * 4) blk))) f.read ∙ ap (λ o. (o, fs')) f.entry
