-- ===== src/Fs/Ext2/Adding.antt =====
-- `_add_dir_entry` in one block, for every block of the format.
use pythonos.Prelude.{
  ℕ, zero, suc, ◌-◌, ◌≤◌, ◌≡◌, refl, sym, subst, List, [], ◌∷◌, ◌++◌, false, leb, ◌==◌, Bool-cases,
  inl, inr, length, arith, length-append, append_assoc,
}
use pythonos.Prelude.Bytes.{Bytes}
use pythonos.Fs.Ext2.Dir.{Entry, dirent_size, actual_size, insert_from, insert_entry}
use pythonos.Fs.Ext2.Format.{laid, value_of, IsDir, done, unused, used}
use pythonos.Fs.Ext2.Insert.{
  Fits, Inserted, at_end, short_unused, short_used, actual_unused, actual_used, entry_with,
}
use pythonos.Fs.Ext2.Adds.{Inserted-passes, Inserted-unused, Inserted-used}

module _ (e : Entry) (fits : Fits e) where
  insert_from-Inserted :
      (fuel : ℕ) {blk : Bytes} {es : List Entry}
      → IsDir blk es
      → length blk ≤ fuel
      → Inserted (insert_from fuel (dirent_size (length e.name)) e blk) e blk es
  unfolding Inserted insert_from
  insert_from-Inserted fuel done le = inl (refl, at_end)
  insert_from-Inserted zero (unused h body next es z len small d) le = absurd (omega (arith, le))
  insert_from-Inserted zero (used h name pad next es z nl len sz small d) le =
      absurd (omega (arith, le))
  insert_from-Inserted (suc fuel) (unused h body next es z len small d) le =
      let nz : ((value_of h).rec_len == 0) ≡ false = ground (arith, len) in
      elim (Bool-cases
        (leb (dirent_size (length e.name)) ((value_of h).rec_len - actual_size (value_of h)))) [
          | inl loose ↦ Inserted-unused e fits fuel h body next es z len small nz loose d
          | inr tight ↦
              Inserted-passes e fits fuel h body [] next es nz tight len
                (λ next' es' d'. unused h body next' es' z len small d')
                (short_unused h body next z len
                  (ground (arith, tight, actual_unused (value_of h) z)))
                (insert_from-Inserted fuel d (omega (arith, le, length-append body next)))
        ]
  insert_from-Inserted (suc fuel) (used h name pad next es z nl len sz small d) le =
      let nz : ((value_of h).rec_len == 0) ≡ false = ground (arith, len) in
      let e0 = entry_with name (value_of h) in
      subst
        (λ b.
          Inserted (insert_from (suc fuel) (dirent_size (length e.name)) e (laid h b)) e (laid h b)
            (e0 ∷ es))
        (append_assoc name pad next)
        (elim (Bool-cases
          (leb (dirent_size (length e.name)) ((value_of h).rec_len - actual_size (value_of h)))) [
            | inl loose ↦ Inserted-used e fits fuel h name pad next es z nl len sz small nz loose d
            | inr tight ↦
                Inserted-passes e fits fuel h (name ++ pad) (e0 ∷ []) next es nz tight len
                  (λ next' es' d'.
                    subst (λ b. IsDir (laid h b) (e0 ∷ es')) (sym (append_assoc name pad next'))
                      (used h name pad next' es' z nl len sz small d'))
                  (short_used h (name ++ pad) next z len
                    (ground (arith, tight, actual_used (value_of h) z)))
                  (insert_from-Inserted fuel d
                    (omega (arith, le, length-append name (pad ++ next), length-append pad next)))
          ])

  -- Adding an entry whose fields fit to a block in the format raises nothing: it finds no room, and then
  -- no record of the block has the bytes of the entry to spare, or it gives a block of the same length in
  -- the format, with the entry among those that were there.
  pub insert_entry-Inserted :
      {blk : Bytes} {es : List Entry} → IsDir blk es → Inserted (insert_entry e blk) e blk es
  unfolding insert_entry
  insert_entry-Inserted {blk} d = insert_from-Inserted (length blk) d (omega arith)
