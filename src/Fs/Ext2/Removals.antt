-- ===== src/Fs/Ext2/Removals.antt =====
-- `_remove_dir_entry` in one block: the first entry with the name goes, the others stay.
use pythonos.Prelude.{
  ℕ, zero, suc, ◌+◌, ◌≤◌, ◌<◌, ◌≡◌, ◌≢◌, refl, sym, ap, ◌∙◌, subst, List, [], ◌∷◌, ◌++◌, some, true,
  false, ◌==◌, Bool-cases, inl, inr, ok, length, All-append, arith, length-append, append_assoc,
}
use pythonos.Prelude.Bytes.{Bytes}
use pythonos.Fs.Ext2.Dir.{Entry, names, remove_after, ◌>>=◌}
use pythonos.Fs.Ext2.Format.{
  Head, laid, value_of, with_len, IsDir, done, unused, used, pack_len, name_bytes-laid,
}
use pythonos.Fs.Ext2.Insert.{entry_with}
use pythonos.Fs.Ext2.Remove.{
  Absent, Removal, Front, remove_after_end, remove_after_at, Removal-passes, merged,
}
use pythonos.Fs.Ext2.Removing.{names_unused, names_used, Front-unused, Front-used}

module _ (name : Bytes) where
  -- The record behind the one at the front has the name, and is merged into it.
  Removal-merges :
      (fuel : ℕ) (h : Head) (body : Bytes) (pre : List Entry)
      → Front h body pre
      → Absent name pre
      → (g : Head) (found pad next : Bytes) (es : List Entry)
      → (value_of g).rec_len ≡ 8 + length (found ++ pad)
      → names (value_of g) (laid g (found ++ (pad ++ next))) name ≡ true
      → found ≡ name
      → IsDir next es
      → 8 + length body + length (laid g (found ++ (pad ++ next))) < 65536
      → Removal
          (remove_after
            (suc fuel)
            name
            (value_of h)
            (laid h (body ++ laid g (found ++ (pad ++ next)))))
          name
          (8 + length body + length (laid g (found ++ (pad ++ next))))
          (pre ++ entry_with found (value_of g) ∷ es)
  unfolding Removal merged
  Removal-merges fuel h body pre front clear g found pad next es len match same d fits =
      let c = found ++ (pad ++ next) in
      let sum = (value_of h).rec_len + (value_of g).rec_len in
      let extra = laid g (found ++ pad) in
      let together : (value_of h).rec_len + length extra ≡ sum = omega (arith, len) in
      let small : sum < 65536 = omega (
        arith,
        front.size,
        len,
        fits,
        length-append found (pad ++ next),
        length-append pad next,
        length-append found pad,
      ) in
      let nonzero : ((value_of g).rec_len == 0) ≡ false = ground (arith, len) in
      inr (record {
        removed = record {
          ino = (value_of g).ino;
          file_type = (value_of g).file_type;
          block = laid (with_len sum h) (body ++ laid g c);
        };
        e = entry_with found (value_of g);
        xs = pre;
        ys = es;
        gives =
            remove_after_at fuel name h body pre front g c nonzero match
            ∙ ap
                (λ o. o >>= (λ blk. ok (
                  some (record {
                    ino = (value_of g).ino;
                    file_type = (value_of g).file_type;
                    block = blk;
                  }))))
                (pack_len h (body ++ laid g c) sum small);
        split = refl;
        first = clear;
        named = same;
        ino_of = refl;
        type_of = refl;
        rest =
            subst (λ t. IsDir (laid (with_len sum h) (body ++ laid g t)) (pre ++ es))
              (append_assoc found pad next)
              (subst (λ n. IsDir (laid (with_len n h) (body ++ (extra ++ next))) (pre ++ es))
                together (front.grow extra next es (omega (arith, together, small)) d));
        sized = omega (arith, length-append body (laid g c));
      })

  pub remove_after-Removal :
      (fuel : ℕ) {next : Bytes} {es : List Entry}
      → IsDir next es
      → (h : Head) (body : Bytes) (pre : List Entry) → Front h body pre
      → Absent name pre
      → length next ≤ fuel
      → 8 + length body + length next < 65536
      → Removal
          (remove_after (suc fuel) name (value_of h) (laid h (body ++ next)))
          name
          (8 + length body + length next)
          (pre ++ es)
  unfolding Removal
  remove_after-Removal fuel done h body pre front clear le fits =
      inl (
        remove_after_end fuel name h body pre front,
        All-append (λ e. e.name ≢ name) pre [] clear tt,
      )
  remove_after-Removal zero (unused g c next es z len small d) h body pre front clear le fits =
      absurd (omega (arith, le))
  remove_after-Removal zero (used g found pad next es z nl len sz small d) h body pre front clear le
        fits =
      absurd (omega (arith, le))
  remove_after-Removal (suc fuel) (unused g c next es z len small d) h body pre front clear le
        fits =
      let total : length (laid g (c ++ next)) ≡ 8 + length c + length next =
        omega (arith, length-append c next) in
      let rest =
        remove_after-Removal fuel d g c [] (Front-unused g c z len small) tt
          (omega (arith, le, total)) (omega (arith, fits, total)) in
      Removal-passes (suc fuel) name h body pre front g (c ++ next) (ground (arith, len)) es
        (length (laid g (c ++ next))) (names_unused (value_of g) (laid g (c ++ next)) name z) clear
        (subst
          (λ n. Removal (remove_after (suc fuel) name (value_of g) (laid g (c ++ next))) name n es)
          (sym total) rest)
  remove_after-Removal (suc fuel) (used g found pad next es z nl len sz small d) h body pre front
        clear le fits =
      let c = found ++ (pad ++ next) in
      let test =
        names_used (value_of g) (laid g c) found name z nl
          (name_bytes-laid g found (pad ++ next) nl) in
      elim (Bool-cases (names (value_of g) (laid g c) name)) [
        | inl match ↦
            Removal-merges (suc fuel) h body pre front clear g found pad next es len match
              (test.0 match) d fits
        | inr other ↦
            let e0 = entry_with found (value_of g) in
            let total : length (laid g c) ≡ 8 + length (found ++ pad) + length next = omega (
              arith,
              length-append found (pad ++ next),
              length-append pad next,
              length-append found pad,
            ) in
            let rest =
              remove_after-Removal fuel d g (found ++ pad) (e0 ∷ [])
                (Front-used g found pad z nl len sz small) (test.1 other, tt)
                (omega (arith, le, total)) (omega (arith, fits, total)) in
            Removal-passes (suc fuel) name h body pre front g c (ground (arith, len)) (e0 ∷ es)
              (length (laid g c)) other clear
              (subst
                (λ n.
                  Removal (remove_after (suc fuel) name (value_of g) (laid g c)) name n (e0 ∷ es))
                (sym total)
                (subst
                  (λ t.
                    Removal (remove_after (suc fuel) name (value_of g) (laid g t)) name
                      (8 + length (found ++ pad) + length next) (e0 ∷ es))
                  (append_assoc found pad next) rest))
      ]
