-- ===== src/Fs/Ext2/Erase.antt =====
-- `_remove_dir_entry` in one block from its first record on.
use pythonos.Prelude.{
  ℕ, suc, ◌+◌, ◌<◌, ◌≡◌, refl, sym, ap, ◌∙◌, subst, List, [], ◌∷◌, ◌++◌, Option, none, some, Bool,
  false, ◌==◌, if◌then◌else◌, Bool-cases, inl, inr, ok, Outcome, length, arith, length-append,
  append_assoc,
}
use pythonos.Prelude.Bytes.{Bytes}
use pythonos.Fs.Ext2.Fields.{Ext2Error, pack}
use pythonos.Fs.Ext2.Dir.{Entry, Removed, names, remove_after, remove_entry, ◌>>=◌}
use pythonos.Fs.Ext2.Format.{
  Head, laid, value_of, IsDir, done, unused, used, header-laid, pack_ino, name_bytes-laid,
}
use pythonos.Fs.Ext2.Insert.{entry_with}
use pythonos.Fs.Ext2.Remove.{Removal}
use pythonos.Fs.Ext2.Removing.{names_unused, names_used, Front-unused, Front-used}
use pythonos.Fs.Ext2.Removals.{remove_after-Removal}

module _ (name : Bytes) (h : Head) (b : Bytes) (nonzero : ((value_of h).rec_len == 0) ≡ false) where
  erased : Outcome Ext2Error (Option Removed)
  erased = do
    blk ← pack 4 0 0 (laid h b)
    ok (some (record { ino = (value_of h).ino; file_type = (value_of h).file_type; block = blk }))

  later : Outcome Ext2Error (Option Removed)
  later = remove_after (length (laid h b)) name (value_of h) (laid h b)

  remove_entry_run :
      {t : Bool}
      → names (value_of h) (laid h b) name ≡ t
      → remove_entry name (laid h b) ≡ (if t then erased else later)
  unfolding remove_entry erased later
  remove_entry_run t =
      ap
        (λ o. o >>= (λ v.
          if v.rec_len == 0
          then ok none
          else if names v (laid h b) name
          then (do
            blk ← pack 4 0 0 (laid h b)
            ok (some (record { ino = v.ino; file_type = v.file_type; block = blk })))
          else remove_after (length (laid h b)) name v (laid h b)))
        (header-laid h b)
      ∙ (ap
            (λ z.
              if z then ok none else if names (value_of h) (laid h b) name then erased else later)
            nonzero
          ∙ ap (λ t. if t then erased else later) t)

-- The length of a block less its first byte.
abbrev behind : Head → Bytes → ℕ
behind h b = suc (suc (suc (suc (suc (suc (suc (length b)))))))

-- Removing a name from a block in the format, shorter than 65536 bytes, raises nothing: it finds none
-- with this name, or it takes the first one and leaves the others, in a block of the format that is as
-- long.
pub remove_entry-Removal :
    (name : Bytes) {blk : Bytes} {es : List Entry}
    → IsDir blk es
    → length blk < 65536
    → Removal (remove_entry name blk) name (length blk) es
unfolding Removal remove_entry erased later
remove_entry-Removal name done fits = inl (refl, tt)
remove_entry-Removal name (unused h body next es z len small d) fits =
    let nonzero : ((value_of h).rec_len == 0) ≡ false = ground (arith, len) in
    let b = body ++ next in
    let total : length (laid h b) ≡ 8 + length body + length next =
      omega (arith, length-append body next) in
    let rest =
      remove_after-Removal name (behind h b) d h body [] (Front-unused h body z len small) tt
        (omega (arith, total)) (omega (arith, fits, total)) in
    subst (λ o. Removal o name (length (laid h b)) es)
      (sym (remove_entry_run name h b nonzero (names_unused (value_of h) (laid h b) name z)))
      (subst (λ n. Removal (later name h b nonzero) name n es) (sym total) rest)
remove_entry-Removal name (used h found pad next es z nl len sz small d) fits =
    let nonzero : ((value_of h).rec_len == 0) ≡ false = ground (arith, len) in
    let b = found ++ (pad ++ next) in
    let e0 = entry_with found (value_of h) in
    let h0 = record h { i0 = 0; i1 = 0; i2 = 0; i3 = 0 } in
    let total : length (laid h b) ≡ 8 + length (found ++ pad) + length next =
      omega (
        arith,
        length-append found (pad ++ next),
        length-append pad next,
        length-append found pad,
      ) in
    let test =
      names_used (value_of h) (laid h b) found name z nl
        (name_bytes-laid h found (pad ++ next) nl) in
    elim (Bool-cases (names (value_of h) (laid h b) name)) [
      | inl match ↦ inr (record {
        removed = record {
          ino = (value_of h).ino;
          file_type = (value_of h).file_type;
          block = laid h0 b;
        };
        e = e0;
        xs = [];
        ys = es;
        gives =
            remove_entry_run name h b nonzero match
            ∙ ap
                (λ o. o >>= (λ blk. ok (
                  some (record {
                    ino = (value_of h).ino;
                    file_type = (value_of h).file_type;
                    block = blk;
                  }))))
                (pack_ino h b);
        split = refl;
        first = tt;
        named = test.0 match;
        ino_of = refl;
        type_of = refl;
        rest =
            subst (λ t. IsDir (laid h0 t) es) (append_assoc found pad next)
              (unused h0 (found ++ pad) next es refl len small d);
        sized = refl;
      })
      | inr other ↦
          let rest =
            remove_after-Removal name (behind h b) d h (found ++ pad) (e0 ∷ [])
              (Front-used h found pad z nl len sz small) (test.1 other, tt) (omega (arith, total))
              (omega (arith, fits, total)) in
          subst (λ o. Removal o name (length (laid h b)) (e0 ∷ es))
            (sym (remove_entry_run name h b nonzero other))
            (subst (λ n. Removal (later name h b nonzero) name n (e0 ∷ es)) (sym total)
              (subst
                (λ t.
                  Removal (remove_after (suc (behind h b)) name (value_of h) (laid h t)) name
                    (8 + length (found ++ pad) + length next) (e0 ∷ es))
                (append_assoc found pad next) rest))
    ]
