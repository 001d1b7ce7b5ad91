-- ===== src/Fs/Ext2/Adds.antt =====
-- `_add_dir_entry` in one block: adding keeps the format, and the entries with the new one among them.
use pythonos.Prelude.{
  ℕ, suc, ◌+◌, ◌-◌, ◌≤◌, ◌<◌, ◌≡◌, ◌≢◌, refl, sym, ap, ◌∙◌, subst, List, [], ◌∷◌, ◌++◌, some, true,
  false, leb, ◌==◌, if◌then◌else◌, inl, inr, ok, length, take, drop, arith, length-append,
  append_assoc, length-replicate, take-append-drop, length-take,
}
use pythonos.Prelude.Bytes.{Bytes}
use pythonos.Fs.Ext2.Fields.{pack}
use pythonos.Fs.Ext2.Dir.{Entry, dirent_size, actual_size, new_record, before, insert_from}
use pythonos.Fs.Ext2.Format.{
  Head, laid, value_of, with_len, head_of, IsDir, used, pack_len, value_of-with_len, drop-laid,
  take-laid,
}
use pythonos.Fs.Ext2.Insert.{
  Fits, Inserted, IsFull, new_record_run, new_record-IsDir, insert_from-passes, insert_from-splits,
  split_record_run, actual_unused, actual_used, size_holds, header_for, zeros_for, entry_with,
}

module _ (e : Entry) (fits : Fits e) where
  abbrev pub need : ℕ
  need = dirent_size (length e.name)

  -- A record that the search passes over.
  pub Inserted-passes :
      (fuel : ℕ) (h : Head) (b : Bytes) (pre : List Entry) (next : Bytes) (es : List Entry)
      → ((value_of h).rec_len == 0) ≡ false
      → leb need ((value_of h).rec_len - actual_size (value_of h)) ≡ false
      → (value_of h).rec_len ≡ 8 + length b
      → ((next' : Bytes) (es' : List Entry)
          → IsDir next' es'
          → IsDir (laid h (b ++ next')) (pre ++ es'))
      → (IsFull need next → IsFull need (laid h (b ++ next)))
      → Inserted (insert_from fuel need e next) e next es
      → Inserted
          (insert_from (suc fuel) need e (laid h (b ++ next)))
          e
          (laid h (b ++ next))
          (pre ++ es)
  unfolding Inserted before
  Inserted-passes fuel h b pre next es nz tight len keep full (inl (nothing, no_room)) = inl (
    insert_from-passes fuel need e h (b ++ next) nz tight (drop-laid h b next len) nothing,
    full no_room,
  )
  Inserted-passes fuel h b pre next es nz tight len keep full
        (inr (b', xs, ys, o, split, d, size)) =
      inr (
        laid h (b ++ b'),
        pre ++ xs,
        ys,
        insert_from-passes fuel need e h (b ++ next) nz tight (drop-laid h b next len) o
            ∙ ap (λ t. ok (some (t ++ b'))) (take-laid h b next len),
        ap (λ t. pre ++ t) split ∙ sym (append_assoc pre xs ys),
        subst (IsDir (laid h (b ++ b'))) (sym (append_assoc pre xs (e ∷ ys)))
            (keep b' (xs ++ e ∷ ys) d),
        omega (arith, size, length-append b b', length-append b next),
      )

  -- The length of the new record with what follows it.
  record_length :
      (v : ℕ) (next : Bytes)
      → need ≤ v
      → length (laid (head_of (header_for v e)) (e.name ++ (zeros_for v e ++ next)))
        ≡ v + length next
  record_length v next room = omega (
    arith,
    length-append e.name (zeros_for v e ++ next),
    length-append (zeros_for v e) next,
    length-replicate {A = ℕ} (v - 8 - length e.name) 0,
    size_holds (length e.name),
    room,
  )

  -- The new entry in a record that is not in use.
  pub Inserted-unused :
      (fuel : ℕ) (h : Head) (body next : Bytes) (es : List Entry)
      → (value_of h).ino ≡ 0
      → (value_of h).rec_len ≡ 8 + length body
      → (value_of h).rec_len < 65536
      → ((value_of h).rec_len == 0) ≡ false
      → leb need ((value_of h).rec_len - actual_size (value_of h)) ≡ true
      → IsDir next es
      → Inserted
          (insert_from (suc fuel) need e (laid h (body ++ next)))
          e
          (laid h (body ++ next))
          es
  unfolding Inserted
  Inserted-unused fuel h body next es z len small nz loose d =
      let a = actual_unused (value_of h) z in
      let size : (value_of h).rec_len - actual_size (value_of h) ≡ (value_of h).rec_len =
        omega (arith, a) in
      let room : need ≤ (value_of h).rec_len = ground (arith, loose, size) in
      let v = (value_of h).rec_len in
      let made : new_record ((value_of h).rec_len - actual_size (value_of h)) e
          ≡ ok (laid (head_of (header_for v e)) (e.name ++ zeros_for v e)) =
        ap (λ n. new_record n e) size ∙ new_record_run e fits v small room in
      let front : (if (value_of h).ino == 0
            then ok (laid h (body ++ next))
            else pack 2 4 (actual_size (value_of h)) (laid h (body ++ next)))
          ≡ ok (laid h (body ++ next)) =
        ground (arith, z) in
      let r =
        split_record_run (value_of h) e (laid h (body ++ next))
          (ground (arith, len, length-append body next)) front made (drop-laid h body next len) in
      inr (
        laid (head_of (header_for v e)) (e.name ++ (zeros_for v e ++ next)),
        [],
        es,
        insert_from-splits fuel need e h (body ++ next) nz loose (
            r
            ∙ (ap
                  (λ n. ok (
                    take n (laid h (body ++ next))
                    ++ (laid (head_of (header_for v e)) (e.name ++ zeros_for v e) ++ next)))
                  a
                ∙ ap (λ t. ok (laid (head_of (header_for v e)) t))
                    (append_assoc e.name (zeros_for v e) next))),
        refl,
        new_record-IsDir e fits v small room d,
        omega (arith, record_length v next room, len, length-append body next),
      )

  -- Padding that is cut in two.
  split_pad :
      (name pad next : Bytes) (n : ℕ)
      → (name ++ pad) ++ next ≡ (name ++ take n pad) ++ (drop n pad ++ next)
  split_pad name pad next n =
      ap (λ p. (name ++ p) ++ next) (sym (take-append-drop n pad)) ∙ simp (append_assoc)

  -- The new entry in the slack of a record in use.
  pub Inserted-used :
      (fuel : ℕ) (h : Head) (name pad next : Bytes) (es : List Entry)
      → (value_of h).ino ≢ 0
      → (value_of h).name_len ≡ length name
      → (value_of h).rec_len ≡ 8 + length (name ++ pad)
      → dirent_size (length name) ≤ (value_of h).rec_len
      → (value_of h).rec_len < 65536
      → ((value_of h).rec_len == 0) ≡ false
      → leb need ((value_of h).rec_len - actual_size (value_of h)) ≡ true
      → IsDir next es
      → Inserted
          (insert_from (suc fuel) need e (laid h ((name ++ pad) ++ next)))
          e
          (laid h ((name ++ pad) ++ next))
          (entry_with name (value_of h) ∷ es)
  unfolding Inserted
  Inserted-used fuel h name pad next es nz nl len sz small nonzero loose d =
      let k : ℕ = dirent_size (length name) in
      let v : ℕ = (value_of h).rec_len in
      let a : actual_size (value_of h) ≡ k = actual_used (value_of h) nz ∙ ap dirent_size nl in
      let room : need ≤ v - k = ground (arith, loose, a) in
      let pad1 = take (k - 8 - length name) pad in
      let pad2 = drop (k - 8 - length name) pad in
      let h' = with_len k h in
      let set : (value_of h').rec_len ≡ k = value_of-with_len h k (omega (arith, sz, small)) in
      let fill : (value_of h').rec_len ≡ 8 + length (name ++ pad1) = omega (
        arith,
        set,
        len,
        sz,
        size_holds (length name),
        length-append name pad1,
        length-append name pad,
        length-take (k - 8 - length name) pad,
      ) in
      let b = (name ++ pad) ++ next in
      let parts : b ≡ (name ++ pad1) ++ (pad2 ++ next) =
        split_pad name pad next (k - 8 - length name) in
      let live : ((value_of h).ino == 0) ≡ false = ground (arith, nz) in
      let front : (if (value_of h).ino == 0
            then ok (laid h b)
            else pack 2 4 (actual_size (value_of h)) (laid h b))
          ≡ ok (laid h' b) =
        ap (λ c. if c then ok (laid h b) else pack 2 4 (actual_size (value_of h)) (laid h b)) live
        ∙ (ap (λ n. pack 2 4 n (laid h b)) a ∙ pack_len h b k (omega (arith, sz, small))) in
      let made : new_record (v - actual_size (value_of h)) e
          ≡ ok (laid (head_of (header_for (v - k) e)) (e.name ++ zeros_for (v - k) e)) =
        ap (λ n. new_record (v - n) e) a
        ∙ new_record_run e fits (v - k) (omega (arith, small)) room in
      let r =
        split_record_run (value_of h) e (laid h b)
          (ground (arith, len, length-append (name ++ pad) next)) front made
          (drop-laid h (name ++ pad) next len) in
      let x = laid (head_of (header_for (v - k) e)) (e.name ++ (zeros_for (v - k) e ++ next)) in
      let tail = laid (head_of (header_for (v - k) e)) (e.name ++ zeros_for (v - k) e) ++ next in
      let cut : take (actual_size (value_of h)) (laid h' b) ≡ laid h' (name ++ pad1) =
        ap (λ n. take n (laid h' b)) (a ∙ sym set)
        ∙ (ap (λ t. take (value_of h').rec_len (laid h' t)) parts
            ∙ take-laid h' (name ++ pad1) (pad2 ++ next) fill) in
      let shape : take (actual_size (value_of h)) (laid h' b) ++ tail
          ≡ laid h' (name ++ (pad1 ++ x)) =
        ap (λ t. t ++ tail) cut
        ∙ (ap (λ t. laid h' ((name ++ pad1) ++ laid (head_of (header_for (v - k) e)) t))
              (append_assoc e.name (zeros_for (v - k) e) next)
            ∙ ap (laid h') (append_assoc name pad1 x)) in
      inr (
        laid h' (name ++ (pad1 ++ x)),
        entry_with name (value_of h) ∷ [],
        es,
        insert_from-splits fuel need e h b nonzero loose (r ∙ ap ok shape),
        refl,
        used h' name pad1 x (e ∷ es) nz nl fill (omega (arith, set)) (omega (arith, set, sz, small))
            (new_record-IsDir e fits (v - k) (omega (arith, small)) room d),
        omega (
          arith,
          record_length (v - k) next room,
          length-append name (pad1 ++ x),
          length-append pad1 x,
          length-append (name ++ pad) next,
          length-append name pad1,
          fill,
          set,
          len,
          sz,
        ),
      )
