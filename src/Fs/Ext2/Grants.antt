-- ===== src/Fs/Ext2/Grants.antt =====
-- What `_alloc_in_bitmap` and `_free_in_bitmap` do to a bitmap block.
use pythonos.Prelude.{
  ℕ, ◌/◌, ◌%◌, ◌<◌, ◌≡◌, refl, sym, ap, ◌∙◌, subst, false, ◌||◌, ◌==◌, if◌then◌else◌, Bool-cases,
  inl, inr, ok, err, Outcome, length, get_or, arith, continue, ◌>>=◌, pure, ==_iff, [], ◌∷◌, zero,
  suc, length-set, continue_ok,
}
use pythonos.Prelude.Bytes.{Bytes, AreBytes}
use pythonos.Fs.Ext2.Fields.{Ext2Error, lift}
use pythonos.Fs.Ext2.Device.{Ext2Fs, read_block, write_block}
use pythonos.Fs.Ext2.Bitmap.{
  first_clear, set_at, clear_at, bit_at, alloc_in_bitmap, free_in_bitmap, byte_of, has_bit,
}
use pythonos.Fs.Ext2.Bits.{bit_at-set_at, bit_at-clear_at, set_at_bytes, clear_at_bytes}
use pythonos.Fs.Ext2.FirstFit.{IsFirstClear, first_clear-IsFirstClear}
use pythonos.Fs.Ext2.Blocks.{Outcome-cases}
use pythonos.Fs.Ext2.Cache.{read_block-write_block, read_block_twice}

-- A bitmap block of a file system.
pub record HasBitmap (block : ℕ) (fs : Ext2Fs) (bm : Bytes) : Type 0 where
  pub bytes : AreBytes bm
  pub after : Ext2Fs
  pub read : read_block block fs ≡ (ok bm, after)

length-set_at : (i : ℕ) (bm : Bytes) → length (set_at i bm) ≡ length bm
unfolding set_at
length-set_at i bm = length-set bm (i / 8) _

module _ (block : ℕ) (fs : Ext2Fs) (bm : Bytes) (h : HasBitmap block fs bm) (count : ℕ) where
  -- The steps of an allocation behind the read.
  alloc_in_bitmap_run :
      alloc_in_bitmap block count fs
      ≡ continue
          (first_clear count bm, h.after)
          (λ idx fs1. continue (write_block block (set_at idx bm) fs1) (λ _ fs2. (ok idx, fs2)))
  unfolding alloc_in_bitmap
  alloc_in_bitmap_run =
      ap
        (λ r. continue r (λ b.
          lift (first_clear count b)
          >>= (λ idx. write_block block (set_at idx b) >>= (λ _ fs2. (ok idx, fs2)))))
        h.read

  alloc_in_bitmap_after :
      (o : Outcome Ext2Error ℕ)
      → first_clear count bm ≡ o
      → alloc_in_bitmap block count fs
        ≡ continue
            (o, h.after)
            (λ idx fs1. continue (write_block block (set_at idx bm) fs1) (λ _ fs2. (ok idx, fs2)))
  alloc_in_bitmap_after o e =
      alloc_in_bitmap_run
      ∙ ap
          (λ o.
            continue (o, h.after)
              (λ idx fs1.
                continue (write_block block (set_at idx bm) fs1) (λ _ fs2. (ok idx, fs2))))
          e

  -- Allocating in a bitmap takes the lowest clear index below `count` and sets it, and no other.
  pub alloc_in_bitmap-takes :
      {idx : ℕ} {fs' : Ext2Fs}
      → alloc_in_bitmap block count fs ≡ (ok idx, fs')
      → IsFirstClear count bm idx
        × ((bm' : Bytes) × HasBitmap block fs' bm'
            × (length bm' ≡ length bm)
            × ((j : ℕ) → bit_at j bm' ≡ (idx == j || bit_at j bm)))
  alloc_in_bitmap-takes {idx} {fs'} e = elim (Outcome-cases (first_clear count bm)) [
    | inl (i, found) ↦
        let run = sym (alloc_in_bitmap_after (ok i) found) ∙ e in
        let (_, (fs2, wrote, e2)) =
          continue_ok (write_block block (set_at i bm) h.after) (λ _ fs2. (ok i, fs2)) run in
        let same : i ≡ idx = ground (arith, ap (λ r. r.0) e2) in
        let wrote' : write_block block (set_at i bm) h.after ≡ (ok tt, fs') =
          subst (λ f. write_block block (set_at i bm) h.after ≡ (ok tt, f)) (ap (λ r. r.1) e2)
            wrote in
        let f = first_clear-IsFirstClear count bm (found ∙ ap ok same) in
        (
          f,
          (
            set_at i bm,
            record {
              bytes = set_at_bytes bm i h.bytes;
              after = fs';
              read = read_block-write_block block (set_at i bm) h.after wrote';
            },
            length-set_at i bm,
            λ j.
                subst (λ k. bit_at j (set_at k bm) ≡ (idx == j || bit_at j bm)) (sym same)
                  (bit_at-set_at bm h.bytes idx j f.held),
          ),
        )
    | inr (x, failed) ↦ absurd (ground (arith, sym (alloc_in_bitmap_after (err x) failed) ∙ e))
  ]

byte_of_run :
    (i : ℕ) (bm : Bytes) (fs : Ext2Fs) → i < length bm → byte_of i bm fs ≡ (ok (get_or bm i 0), fs)
unfolding byte_of
byte_of_run i [] fs h = absurd (omega arith)
byte_of_run zero (x ∷ bm) fs h = refl
byte_of_run (suc i) (x ∷ bm) fs h = byte_of_run i bm fs (omega arith)

module _ (block : ℕ) (fs : Ext2Fs) (bm : Bytes) (h : HasBitmap block fs bm) (idx : ℕ)
    (held : idx / 8 < length bm) where
  -- The steps behind the two reads.
  free_in_bitmap_run :
      free_in_bitmap block idx fs
      ≡ (if bit_at idx bm then write_block block (clear_at idx bm) else pure tt) h.after
  unfolding free_in_bitmap bit_at
  free_in_bitmap_run =
      ap
        (λ r. continue r (λ b.
          byte_of (idx / 8) b
          >>= (λ y. if has_bit (idx % 8) y then write_block block (clear_at idx b) else pure tt)))
        h.read
      ∙ ap
          (λ r.
            continue r
              (λ y. if has_bit (idx % 8) y then write_block block (clear_at idx bm) else pure tt))
          (byte_of_run (idx / 8) bm h.after held)

  -- Freeing clears the index and no other; one that is clear already is tolerated.
  pub free_in_bitmap-clears :
      {fs' : Ext2Fs}
      → free_in_bitmap block idx fs ≡ (ok tt, fs')
      → (bm' : Bytes) × HasBitmap block fs' bm'
        × ((j : ℕ) → bit_at j bm' ≡ (if idx == j then false else bit_at j bm))
  free_in_bitmap-clears {fs'} e = elim (Bool-cases (bit_at idx bm)) [
    | inl on ↦
        let wrote : write_block block (clear_at idx bm) h.after ≡ (ok tt, fs') =
          ap (λ c. (if c then write_block block (clear_at idx bm) else pure tt) h.after) (sym on)
          ∙ (sym free_in_bitmap_run ∙ e) in
        (
          clear_at idx bm,
          record {
            bytes = clear_at_bytes bm idx h.bytes;
            after = fs';
            read = read_block-write_block block (clear_at idx bm) h.after wrote;
          },
          λ j. bit_at-clear_at bm h.bytes idx j held,
        )
    | inr off ↦
        let done : h.after ≡ fs' =
          ap (λ r. r.1)
            (ap (λ c. (if c then write_block block (clear_at idx bm) else pure tt) h.after)
                (sym off)
              ∙ (sym free_in_bitmap_run ∙ e)) in
        (
          bm,
          record {
            bytes = h.bytes;
            after = fs';
            read =
                subst (λ f. read_block block f ≡ (ok bm, f)) done
                  (read_block_twice block fs h.read);
          },
          λ j. elim (Bool-cases (idx == j)) [
            | inl same ↦
                rw (same, if◌then◌else◌)
                  (subst (λ k. bit_at k bm ≡ false) ((==_iff idx j).0 same) off)
            | inr other ↦ rw (other, if◌then◌else◌) refl
          ],
        )
  ]

-- Freeing the index that an allocation took gives the bits back that were there before.
pub free_in_bitmap-alloc_in_bitmap :
    (block : ℕ) (fs : Ext2Fs) (bm : Bytes) (h : HasBitmap block fs bm) (count : ℕ) {idx : ℕ}
    {fs' fs'' : Ext2Fs}
    → alloc_in_bitmap block count fs ≡ (ok idx, fs')
    → free_in_bitmap block idx fs' ≡ (ok tt, fs'')
    → (bm'' : Bytes) × HasBitmap block fs'' bm'' × ((j : ℕ) → bit_at j bm'' ≡ bit_at j bm)
free_in_bitmap-alloc_in_bitmap block fs bm h count {idx} {fs'} {fs''} e f =
    let (first, (bm', has, size, bits)) = alloc_in_bitmap-takes block fs bm h count e in
    let (bm'', has'', bits'') =
      free_in_bitmap-clears block fs' bm' has idx (subst (λ n. idx / 8 < n) (sym size) first.held)
        f in
    (bm'', has'', λ j. restored j bm' bm'' (bits j) (bits'' j) first.clear)
  where
    restored :
        (j : ℕ) (bm' bm'' : Bytes)
        → bit_at j bm' ≡ (idx == j || bit_at j bm)
        → bit_at j bm'' ≡ (if idx == j then false else bit_at j bm')
        → bit_at idx bm ≡ false
        → bit_at j bm'' ≡ bit_at j bm
    restored j bm' bm'' p q r = ground (arith, p, q, r)
