-- ===== src/Fs/Ext2/Resolves.antt =====
-- `_resolve_block` after `_allocate_block_for`.
use pythonos.Prelude.{
  ℕ, ◌-◌, ◌*◌, ◌/◌, ◌%◌, ◌≤◌, ◌<◌, ◌≡◌, ◌≢◌, sym, ap, ◌∙◌, true, ltb, if◌then◌else◌, ok, continue,
  continue_ok, raise, ◌>>=◌, length, arith, lt→ltb,
}
use pythonos.Prelude.Bytes.{Bytes}
use pythonos.Fs.Ext2.Fields.{triple_indirect, lift}
use pythonos.Fs.Ext2.Device.{Ext2Fs}
use pythonos.Fs.Ext2.Inode.{i_block_n, ind_block, dind_block, ndir_blocks}
use pythonos.Fs.Ext2.Walk.{
  ensure_slot, ensure_entry, pointer_in, resolve_block, resolve_indirect, allocate_block_for,
  allocate_indirect, ptrs_per_block,
}
use pythonos.Fs.Ext2.Pointers.{
  SamePointers, ensure_slot-fills, ensure_entry-keeps, pointer_in-ensure_entry,
}

-- A direct block that was provided is the one that the walk over the new inode finds, and no other slot
-- of the inode is changed.
pub resolve_block-allocate_block_for :
    (raw : Bytes) (fb : ℕ) (fs : Ext2Fs) {phys : ℕ} {raw' : Bytes} {fs' : Ext2Fs}
    → fb < 12
    → 100 ≤ length raw
    → allocate_block_for raw fb fs ≡ (ok (phys, raw'), fs')
    → (resolve_block raw' fb fs' ≡ (ok phys, fs')) × SamePointers raw raw' fb
unfolding resolve_block allocate_block_for
resolve_block-allocate_block_for raw fb fs {phys} {raw'} {fs'} direct long h =
    let t : ltb fb 12 ≡ true = lt→ltb fb 12 direct in
    let made : ensure_slot fb raw fs ≡ (ok (phys, raw'), fs') =
      ap
        (λ c.
          (if c
              then ensure_slot fb raw
              else allocate_indirect (ptrs_per_block fs) raw (fb - ndir_blocks))
            fs)
        (sym t)
      ∙ h in
    let (found, same) = ensure_slot-fills fb raw (omega (arith, direct)) long fs made in
    (
      ap
            (λ c.
              (if c
                  then lift (i_block_n fb raw')
                  else resolve_indirect (ptrs_per_block fs') raw' (fb - ndir_blocks))
                fs')
            t
          ∙ ap (λ o. (o, fs')) found,
      same,
    )

-- A block that was provided behind the single indirect block of an inode is the one that the walk then finds,
-- unless the indirect block is block 0, which stands for a hole; of the inode only the slot of the indirect block may have changed.
pub resolve_indirect-allocate_indirect :
    (ppb rel : ℕ) (raw : Bytes) (fs : Ext2Fs) {phys : ℕ} {raw' : Bytes} {fs' : Ext2Fs}
    → rel < ppb
    → 100 ≤ length raw
    → allocate_indirect ppb raw rel fs ≡ (ok (phys, raw'), fs')
    → i_block_n ind_block raw' ≢ ok 0
    → (resolve_indirect ppb raw' rel fs' ≡ (ok phys, fs'))
      × ((m : ℕ) → m < 15 → m ≢ ind_block → i_block_n m raw' ≡ i_block_n m raw)
unfolding resolve_indirect allocate_indirect
resolve_indirect-allocate_indirect ppb rel raw fs {phys} {raw'} {fs'} single long h hole =
    let t : ltb rel ppb ≡ true = lt→ltb rel ppb single in
    let made : continue (ensure_slot 12 raw fs) (λ p. ensure_entry p.0 rel p.1)
        ≡ (ok (phys, raw'), fs') =
      ap
        (λ c.
          (if c
              then (do (ind, raw') ← ensure_slot ind_block raw; ensure_entry ind rel raw')
              else if ltb (rel - ppb) (ppb * ppb)
              then (do
                (dind, raw') ← ensure_slot dind_block raw
                (ind, raw'') ← ensure_entry dind ((rel - ppb) / ppb) raw'
                ensure_entry ind ((rel - ppb) % ppb) raw'')
              else raise triple_indirect)
            fs)
        (sym t)
      ∙ h in
    let (p, (fs1, e1, h1)) =
      continue_ok (ensure_slot 12 raw fs) (λ p. ensure_entry p.0 rel p.1) made in
    indirect_found p.0 p.1 fs1 (ensure_slot-fills 12 raw (omega arith) long fs e1) h1 t
  where
    indirect_found :
        (ind : ℕ) (r1 : Bytes) (fs1 : Ext2Fs)
        → (i_block_n 12 r1 ≡ ok ind) × SamePointers raw r1 12
        → ensure_entry ind rel r1 fs1 ≡ (ok (phys, raw'), fs')
        → ltb rel ppb ≡ true
        → (resolve_indirect ppb raw' rel fs' ≡ (ok phys, fs'))
          × ((m : ℕ) → m < 15 → m ≢ ind_block → i_block_n m raw' ≡ i_block_n m raw)
    indirect_found ind r1 fs1 (slot, same) h1 t =
        let long1 : 100 ≤ length r1 = omega (arith, same.long, long) in
        let kept : (m : ℕ) → m < 15 → i_block_n m raw' ≡ i_block_n m r1 =
          ensure_entry-keeps ind rel r1 fs1 long1 h1 in
        let ne : ind ≢ 0 = λ z. hole (kept 12 (omega arith) ∙ (slot ∙ ap ok z)) in
        let found = pointer_in-ensure_entry ind rel r1 fs1 long1 ne h1 in
        (
          ap
                (λ c.
                  (if c
                      then (do ind ← lift (i_block_n ind_block raw'); pointer_in ind rel)
                      else if ltb (rel - ppb) (ppb * ppb)
                      then (do
                        dind ← lift (i_block_n dind_block raw')
                        ind ← pointer_in dind ((rel - ppb) / ppb)
                        pointer_in ind ((rel - ppb) % ppb))
                      else raise triple_indirect)
                    fs')
                t
              ∙ (ap (λ o. continue (o, fs') (λ ind. pointer_in ind rel))
                    (kept 12 (omega arith) ∙ slot)
                  ∙ found),
          λ m lt ne. kept m lt ∙ same.others m lt ne,
        )
