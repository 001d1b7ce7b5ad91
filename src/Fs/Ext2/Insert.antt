-- ===== src/Fs/Ext2/Insert.antt =====
-- Adding an entry to a directory block of the format: where a record has the slack, the block gets
-- the entry and stays in the format; otherwise nothing is found.
use pythonos.Prelude.{
  ℕ, suc, ◌+◌, ◌-◌, ◌^◌, ◌≤◌, ◌<◌, ◌≡◌, ◌≢◌, sym, ap, ◌∙◌, subst, List, [], ◌∷◌, ◌++◌, Option, none,
  some, true, false, ltb, leb, ◌==◌, if◌then◌else◌, ok, err, Outcome, length, take, drop, replicate,
  arith, length-append, ◌⊎◌, length-replicate,
}
use pythonos.Prelude.Bytes.{Bytes}
use pythonos.Fs.Ext2.Fields.{Ext2Error, pack}
use pythonos.Fs.Ext2.Dir.{
  Header, Entry, dirent_size, actual_size, new_record, past_end, split_record, before, insert_from,
  ◌>>=◌,
}
use pythonos.Fs.Ext2.Format.{
  Head, laid, value_of, head_of, IsDir, used, header-laid, header_bytes_run, value_of-head_of,
}

-- An entry whose fields fit.
pub record Fits (e : Entry) : Type 0 where
  pub in_use : e.ino ≢ 0
  pub ino_fits : e.ino < 2 ^ 32
  pub name_fits : length e.name < 256
  pub type_fits : e.file_type < 256

-- The header of an entry in a record of `size` bytes.
abbrev pub header_for : ℕ → Entry → Header
header_for size e = record {
  ino = e.ino;
  rec_len = size;
  name_len = length e.name;
  file_type = e.file_type;
}

abbrev pub zeros_for : ℕ → Entry → Bytes
zeros_for size e = replicate (size - 8 - length e.name) 0

abbrev pub entry_with : Bytes → Header → Entry
entry_with name h = record { name = name; ino = h.ino; file_type = h.file_type }

pub size_holds : (n : ℕ) → 8 + n ≤ dirent_size n
unfolding dirent_size
size_holds n = omega arith

module _ (e : Entry) (fits : Fits e) (size : ℕ) (small : size < 65536)
    (room : dirent_size (length e.name) ≤ size) where
  pub new_record_run :
      new_record size e ≡ ok (laid (head_of (header_for size e)) (e.name ++ zeros_for size e))
  unfolding new_record
  new_record_run =
      ap (λ o. o >>= (λ hd. ok (hd ++ (e.name ++ zeros_for size e))))
        (header_bytes_run (header_for size e) fits.ino_fits small fits.name_fits fits.type_fits)

  -- The new record before a row of records is a row with the entry.
  pub new_record-IsDir :
      {next : Bytes} {es : List Entry}
      → IsDir next es
      → IsDir (laid (head_of (header_for size e)) (e.name ++ (zeros_for size e ++ next))) (e ∷ es)
  new_record-IsDir {next} {es} d =
      let v =
        value_of-head_of (header_for size e) fits.ino_fits small fits.name_fits fits.type_fits in
      let h = head_of (header_for size e) in
      let n : length (e.name ++ zeros_for size e) ≡ length e.name + (size - 8 - length e.name) =
        omega (
          arith,
          length-append e.name (zeros_for size e),
          length-replicate {A = ℕ} (size - 8 - length e.name) 0,
        ) in
      let fill : size ≡ 8 + length (e.name ++ zeros_for size e) =
        omega (arith, n, size_holds (length e.name), room) in
      let d' =
        used h e.name (zeros_for size e) next es (subst (λ w. w.ino ≢ 0) (sym v) fits.in_use)
          (ap (λ w. w.name_len) v) (ap (λ w. w.rec_len) v ∙ fill)
          (subst (λ w. dirent_size (length e.name) ≤ w.rec_len) (sym v) room)
          (subst (λ w. w.rec_len < 65536) (sym v) small) d in
      subst (λ x. IsDir (laid h (e.name ++ (zeros_for size e ++ next))) (x ∷ es))
        (ap (entry_with e.name) v) d'

module _ (fuel need : ℕ) (e : Entry) (h : Head) (b : Bytes)
    (nz : ((value_of h).rec_len == 0) ≡ false) where
  insert_rest : Outcome Ext2Error (Option Bytes)
  insert_rest = do
    m ← insert_from fuel need e (drop (value_of h).rec_len (laid h b))
    ok (before (take (value_of h).rec_len (laid h b)) m)

  insert_here : Outcome Ext2Error (Option Bytes)
  insert_here = do blk ← split_record (value_of h) e (laid h b); ok (some blk)

  insert_from_run : insert_from (suc fuel) need e (laid h b) ≡ (
      if leb need ((value_of h).rec_len - actual_size (value_of h))
      then insert_here
      else insert_rest)
  unfolding insert_from insert_rest insert_here
  insert_from_run =
      ap
        (λ o. o >>= (λ v.
          if v.rec_len == 0
          then ok none
          else if leb need (v.rec_len - actual_size v)
          then (do blk ← split_record v e (laid h b); ok (some blk))
          else (do
            m ← insert_from fuel need e (drop v.rec_len (laid h b))
            ok (before (take v.rec_len (laid h b)) m))))
        (header-laid h b)
      ∙ ap
          (λ c.
            if c
            then ok none
            else if leb need ((value_of h).rec_len - actual_size (value_of h))
            then insert_here
            else insert_rest)
          nz

  pub insert_from-passes :
      {rest : Bytes} {o : Option Bytes}
      → leb need ((value_of h).rec_len - actual_size (value_of h)) ≡ false
      → drop (value_of h).rec_len (laid h b) ≡ rest
      → insert_from fuel need e rest ≡ ok o
      → insert_from (suc fuel) need e (laid h b)
        ≡ ok (before (take (value_of h).rec_len (laid h b)) o)
  unfolding insert_rest
  insert_from-passes {rest} {o} tight cut r =
      insert_from_run
      ∙ (ap (λ c. if c then insert_here else insert_rest) tight
          ∙ ap (λ m. m >>= (λ m. ok (before (take (value_of h).rec_len (laid h b)) m)))
              (ap (insert_from fuel need e) cut ∙ r))

  pub insert_from-splits :
      {blk : Bytes}
      → leb need ((value_of h).rec_len - actual_size (value_of h)) ≡ true
      → split_record (value_of h) e (laid h b) ≡ ok blk
      → insert_from (suc fuel) need e (laid h b) ≡ ok (some blk)
  unfolding insert_here
  insert_from-splits loose r =
      insert_from_run
      ∙ (ap (λ c. if c then insert_here else insert_rest) loose
          ∙ ap (λ m. m >>= (λ blk. ok (some blk))) r)

pub split_record_run :
    (v : Header) (e : Entry) (rest : Bytes) {front r tail : Bytes}
    → ltb (length rest) v.rec_len ≡ false
    → (if v.ino == 0 then ok rest else pack 2 4 (actual_size v) rest) ≡ ok front
    → new_record (v.rec_len - actual_size v) e ≡ ok r
    → drop v.rec_len rest ≡ tail
    → split_record v e rest ≡ ok (take (actual_size v) front ++ (r ++ tail))
unfolding split_record
split_record_run v e rest {front} {r} {tail} inside f n t =
    ap
      (λ c. if c then err (past_end (actual_size v) (length e.name) v.rec_len rest) else (do
        front ← (if v.ino == 0 then ok rest else pack 2 4 (actual_size v) rest)
        r ← new_record (v.rec_len - actual_size v) e
        ok (take (actual_size v) front ++ (r ++ drop v.rec_len rest))))
      inside
    ∙ (ap
          (λ o. o >>= (λ front.
            new_record (v.rec_len - actual_size v) e
            >>= (λ r. ok (take (actual_size v) front ++ (r ++ drop v.rec_len rest)))))
          f
        ∙ (ap (λ o. o >>= (λ r. ok (take (actual_size v) front ++ (r ++ drop v.rec_len rest)))) n
            ∙ ap (λ t. ok (take (actual_size v) front ++ (r ++ t))) t))

pub actual_unused : (v : Header) → v.ino ≡ 0 → actual_size v ≡ 0
unfolding actual_size
actual_unused v z = ground arith

pub actual_used : (v : Header) → v.ino ≢ 0 → actual_size v ≡ dirent_size v.name_len
unfolding actual_size
actual_used v nz = ground arith

-- No record of a rest has `need` bytes to spare: one that is not in use is shorter than that, and one in
-- use has less behind the room of its own entry.
pub data IsFull (need : ℕ) : Bytes → Type 0 where
  at_end : IsFull need []
  short_unused :
      (h : Head) (body next : Bytes)
      → (value_of h).ino ≡ 0
      → (value_of h).rec_len ≡ 8 + length body
      → (value_of h).rec_len < need
      → IsFull need next
      → IsFull need (laid h (body ++ next))
  short_used :
      (h : Head) (body next : Bytes)
      → (value_of h).ino ≢ 0
      → (value_of h).rec_len ≡ 8 + length body
      → (value_of h).rec_len < dirent_size (value_of h).name_len + need
      → IsFull need next
      → IsFull need (laid h (body ++ next))

-- What a search of the rest `b`, whose entries are `es`, gives: nothing, where no record has the room,
-- or the rest with the entry.
unfoldable pub Inserted : Outcome Ext2Error (Option Bytes) → Entry → Bytes → List Entry → Type 0
Inserted o e b es =
    ((o ≡ ok none) × IsFull (dirent_size (length e.name)) b)
    ⊎ ((b' : Bytes) × (xs ys : List Entry) × (o ≡ ok (some b'))
        × (es ≡ xs ++ ys)
        × IsDir b' (xs ++ e ∷ ys)
        × (length b' ≡ length b))
