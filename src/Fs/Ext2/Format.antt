-- ===== src/Fs/Ext2/Format.antt =====
-- The format of an ext2 directory block: records that tile it, used ones with an entry each. And what
-- the driver reads and packs of a record that stands at the front.
use pythonos.Prelude.{
  ℕ, zero, suc, ◌+◌, ◌*◌, ◌/◌, ◌%◌, ◌^◌, ◌≤◌, ◌<◌, ◌≡◌, ◌≢◌, refl, sym, ap, ◌∙◌, List, [], ◌∷◌,
  ◌++◌, false, ◌==◌, if◌then◌else◌, ok, Outcome, length, take, drop, arith, length-append, lt→ltb,
  append_assoc,
}
use pythonos.Prelude.Bytes.{Bytes}
use pythonos.Fs.Ext2.Fields.{Ext2Error, pack}
use pythonos.Fs.Ext2.Dir.{
  Header, header, Entry, listed, entries_from, block_entries, dirent_size, header_bytes, name_bytes,
  ◌>>=◌,
}

-- The eight bytes before a name.
pub record Head : Type 0 where
  pub i0 : ℕ
  pub i1 : ℕ
  pub i2 : ℕ
  pub i3 : ℕ
  pub r0 : ℕ
  pub r1 : ℕ
  pub n : ℕ
  pub t : ℕ

abbrev pub laid : Head → Bytes → Bytes
laid h b = h.i0 ∷ h.i1 ∷ h.i2 ∷ h.i3 ∷ h.r0 ∷ h.r1 ∷ h.n ∷ h.t ∷ b

abbrev pub value_of : Head → Header
value_of h = record {
  ino = h.i0 + 256 * (h.i1 + 256 * (h.i2 + 256 * (h.i3 + 256 * 0)));
  rec_len = h.r0 + 256 * (h.r1 + 256 * 0);
  name_len = h.n + 256 * 0;
  file_type = h.t + 256 * 0;
}

abbrev pub with_len : ℕ → Head → Head
with_len v h = record h { r0 = v % 256; r1 = v / 256 % 256 }

abbrev pub head_of : Header → Head
head_of h = record {
  i0 = h.ino % 256;
  i1 = h.ino / 256 % 256;
  i2 = h.ino / 256 / 256 % 256;
  i3 = h.ino / 256 / 256 / 256 % 256;
  r0 = h.rec_len % 256;
  r1 = h.rec_len / 256 % 256;
  n = h.name_len % 256;
  t = h.file_type % 256;
}

-- The block is a row of records, and these are the entries of those in use.
pub data IsDir : Bytes → List Entry → Type 0 where
  done : IsDir [] []
  unused :
      (h : Head) (body next : Bytes) (es : List Entry)
      → (value_of h).ino ≡ 0
      → (value_of h).rec_len ≡ 8 + length body
      → (value_of h).rec_len < 65536
      → IsDir next es
      → IsDir (laid h (body ++ next)) es
  used :
      (h : Head) (name pad next : Bytes) (es : List Entry)
      → (value_of h).ino ≢ 0
      → (value_of h).name_len ≡ length name
      → (value_of h).rec_len ≡ 8 + length (name ++ pad)
      → dirent_size (length name) ≤ (value_of h).rec_len
      → (value_of h).rec_len < 65536
      → IsDir next es
      → IsDir
          (laid h (name ++ (pad ++ next)))
          (record { name = name; ino = (value_of h).ino; file_type = (value_of h).file_type } ∷ es)

pub header-laid : (h : Head) (b : Bytes) → header (laid h b) ≡ ok (value_of h)
unfolding header
header-laid h b = ground arith

pub pack_len :
    (h : Head) (b : Bytes) (v : ℕ) → v < 65536 → pack 2 4 v (laid h b) ≡ ok (laid (with_len v h) b)
unfolding pack
pack_len h b v lt = ground arith

pub pack_ino :
    (h : Head) (b : Bytes)
    → pack 4 0 0 (laid h b) ≡ ok (laid (record h { i0 = 0; i1 = 0; i2 = 0; i3 = 0 }) b)
unfolding pack
pack_ino h b = ground arith

pub header_bytes_run :
    (h : Header)
    → h.ino < 2 ^ 32
    → h.rec_len < 65536
    → h.name_len < 256
    → h.file_type < 256
    → header_bytes h ≡ ok (laid (head_of h) [])
unfolding header_bytes
header_bytes_run h a b c d = rw (lt→ltb h.ino 4294967296 a) (
    rw (lt→ltb h.rec_len 65536 b)
      (rw (lt→ltb h.name_len 256 c) (rw (lt→ltb h.file_type 256 d) refl)))

pub value_of-head_of :
    (h : Header)
    → h.ino < 2 ^ 32
    → h.rec_len < 65536
    → h.name_len < 256
    → h.file_type < 256
    → value_of (head_of h) ≡ h
value_of-head_of h a b c d = ground arith

pub value_of-with_len : (h : Head) (v : ℕ) → v < 65536 → (value_of (with_len v h)).rec_len ≡ v
value_of-with_len h v lt = omega arith

pub take-append : (xs ys : Bytes) → take (length xs) (xs ++ ys) ≡ xs
take-append [] ys = refl
take-append (x ∷ xs) ys = ap (◌∷◌ x) (take-append xs ys)

drop-append : (xs ys : Bytes) → drop (length xs) (xs ++ ys) ≡ ys
drop-append [] ys = refl
drop-append (x ∷ xs) ys = drop-append xs ys

-- The rest behind a record, and the record.
pub drop-laid :
    (h : Head) (body next : Bytes)
    → (value_of h).rec_len ≡ 8 + length body
    → drop (value_of h).rec_len (laid h (body ++ next)) ≡ next
drop-laid h body next e =
    let k : (value_of h).rec_len ≡ length (laid h body) = omega (arith, e) in
    ap (λ k. drop k (laid h (body ++ next))) k ∙ drop-append body next

pub take-laid :
    (h : Head) (body next : Bytes)
    → (value_of h).rec_len ≡ 8 + length body
    → take (value_of h).rec_len (laid h (body ++ next)) ≡ laid h body
take-laid h body next e =
    let k : (value_of h).rec_len ≡ length (laid h body) = omega (arith, e) in
    ap (λ k. take k (laid h (body ++ next))) k ∙ ap (laid h) (take-append body next)

pub length-laid :
    (h : Head) (body next : Bytes) → length (laid h (body ++ next)) ≡ 8 + length body + length next
length-laid h body next = omega (arith, length-append body next)

-- The name of a used record.
pub name_bytes-laid :
    (h : Head) (name rest : Bytes)
    → (value_of h).name_len ≡ length name
    → name_bytes (value_of h) (laid h (name ++ rest)) ≡ name
name_bytes-laid h name rest e = ap (λ k. take k (name ++ rest)) e ∙ take-append name rest

-- Reading steps over a record in use, and over one that is not.
entries_from-listed :
    (fuel : ℕ) (h : Head) (b : Bytes)
    → ((value_of h).rec_len == 0) ≡ false
    → entries_from (suc fuel) (laid h b)
      ≡ listed (value_of h) (laid h b) (entries_from fuel (drop (value_of h).rec_len (laid h b)))
unfolding entries_from
entries_from-listed fuel h b nz =
    ap
      (λ o. o >>= (λ v.
        if v.rec_len == 0
        then ok []
        else listed v (laid h b) (entries_from fuel (drop v.rec_len (laid h b)))))
      (header-laid h b)
    ∙ ap
        (λ c.
          if c
          then ok []
          else listed (value_of h) (laid h b)
              (entries_from fuel (drop (value_of h).rec_len (laid h b))))
        nz

listed_unused :
    (h : Header) (b : Bytes) (o : Outcome Ext2Error (List Entry)) → h.ino ≡ 0 → listed h b o ≡ o
unfolding listed
listed_unused h b o z = ground arith

listed_used :
    (h : Header) (b name : Bytes) (es : List Entry)
    → h.ino ≢ 0
    → name_bytes h b ≡ name
    → listed h b (ok es) ≡ ok (record { name = name; ino = h.ino; file_type = h.file_type } ∷ es)
unfolding listed
listed_used h b name es nz e = ground (arith, e)

-- Reading a block of the format gives its entries.
pub entries_from_run :
    (fuel : ℕ) {blk : Bytes} {es : List Entry}
    → IsDir blk es
    → length blk ≤ fuel
    → entries_from fuel blk ≡ ok es
unfolding entries_from
entries_from_run fuel done le = refl
entries_from_run zero (unused h body next es z len small d) le = absurd (omega (arith, le))
entries_from_run zero (used h name pad next es z nl len sz small d) le = absurd (omega (arith, le))
entries_from_run (suc fuel) (unused h body next es z len small d) le =
    entries_from-listed fuel h (body ++ next) (ground (arith, len))
    ∙ (listed_unused (value_of h) (laid h (body ++ next)) _ z
        ∙ (ap (entries_from fuel) (drop-laid h body next len)
            ∙ entries_from_run fuel d (omega (arith, le, length-append body next))))
entries_from_run (suc fuel) (used h name pad next es z nl len sz small d) le =
    let behind : drop (value_of h).rec_len (laid h (name ++ (pad ++ next))) ≡ next =
      ap (λ b. drop (value_of h).rec_len (laid h b)) (sym (append_assoc name pad next))
      ∙ drop-laid h (name ++ pad) next len in
    let rest : entries_from fuel (drop (value_of h).rec_len (laid h (name ++ (pad ++ next))))
        ≡ ok es =
      ap (entries_from fuel) behind
      ∙ entries_from_run fuel d
          (omega (arith, le, length-append name (pad ++ next), length-append pad next)) in
    entries_from-listed fuel h (name ++ (pad ++ next)) (ground (arith, len))
    ∙ (ap (listed (value_of h) (laid h (name ++ (pad ++ next)))) rest
        ∙ listed_used (value_of h) (laid h (name ++ (pad ++ next))) name es z
            (name_bytes-laid h name (pad ++ next) nl))

-- Reading a directory block of the format gives the entries that its records in use stand for.
pub block_entries-IsDir : {blk : Bytes} {es : List Entry} → IsDir blk es → block_entries blk ≡ ok es
unfolding block_entries
block_entries-IsDir {blk} d = entries_from_run (length blk) d (omega arith)
