-- ===== src/Image/Png/Refilter.antt =====
-- Filtered rows are unfiltered to the rows.
use pythonos.Prelude.{
  ℕ, suc, ◌+◌, ◌-◌, ◌*◌, ◌%◌, ◌<◌, ◌≡◌, refl, sym, ap, List, [], ◌∷◌, ◌++◌, true, Bool-cases, inl,
  inr, false, leb, ltb, min, max, get_or, ◌/◌, ◌==◌, if◌then◌else◌, ok, length, replicate, All,
  take-append_length, subst, drop, drop-append_length, append_assoc, append-nil, arith,
}
use pythonos.Prelude.Bytes.{Bytes, AreBytes}
use pythonos.Image.Png.Filters.{
  paeth, predict, back, predicted, unfilter_bytes, unfilter_row, unfilter_rows, unfilter,
}

-- The five filters of the PNG specification.
pub data Filter : Type 0 where
  plain sub above average nearest : Filter

abbrev pub filter_type : Filter → ℕ
filter_type plain = 0
filter_type sub = 1
filter_type above = 2
filter_type average = 3
filter_type nearest = 4

-- Of the three neighbours the one that is nearest to a + b - c, the first of those that are as near.
abbrev closest : ℕ → ℕ → ℕ → ℕ
closest a b c =
    let to_a = max b c - min b c in
    let to_b = max a c - min a c in
    let to_c = max (a + b) (2 * c) - min (a + b) (2 * c) in
    let least = min to_a (min to_b to_c) in
    if to_a == least then a else if to_b == least then b else c

abbrev prediction : Filter → ℕ → ℕ → ℕ → ℕ
prediction plain left up corner = 0
prediction sub left up corner = left
prediction above left up corner = up
prediction average left up corner = (left + up) / 2
prediction nearest left up corner = closest left up corner

-- The byte `bpp` places before place `x`; there are zeros before the row.
abbrev earlier : ℕ → ℕ → Bytes → ℕ
earlier bpp x row = if ltb x bpp then 0 else get_or row (x - bpp) 0

-- What a filter predicts is taken from each byte, modulo 256.
unfoldable pub filter_bytes : Filter → ℕ → Bytes → Bytes → Bytes → Bytes
filter_bytes f bpp prev [] row = []
filter_bytes f bpp prev (b ∷ bs) row =
    let x = length row in
    let p = prediction f (earlier bpp x row) (get_or prev x 0) (earlier bpp x prev) in
    (b + (256 - p % 256)) % 256 ∷ filter_bytes f bpp prev bs (row ++ b ∷ [])

abbrev pub filter_row : Filter → ℕ → Bytes → Bytes → Bytes
filter_row f bpp prev row = filter_bytes f bpp prev row []

-- A row with the filter that is chosen for it.
pub record Row : Type 0 where
  pub filter : Filter
  pub row : Bytes

-- Each row goes behind its filter byte, filtered against the row above it.
unfoldable pub filter_rows : ℕ → List Row → Bytes → Bytes
unfolding filter_bytes
filter_rows bpp [] prev = []
filter_rows bpp (r ∷ rs) prev =
    filter_type r.filter ∷ filter_row r.filter bpp prev r.row ++ filter_rows bpp rs r.row

abbrev pub joined_rows : List Row → Bytes
joined_rows [] = []
joined_rows (r ∷ rs) = r.row ++ joined_rows rs

pub record IsRow (stride : ℕ) (r : Row) : Type 0 where
  pub whole : length r.row ≡ stride
  pub bytes : AreBytes r.row

unwrap : (b p : ℕ) → b < 256 → ((b + (256 - p % 256)) % 256 + p) % 256 ≡ b
unwrap b p h = omega arith

paeth-closest : (a b c : ℕ) → paeth a b c ≡ closest a b c
unfolding paeth
paeth-closest a b c = ground arith

back-earlier : (bpp x : ℕ) (row : Bytes) → back bpp x row ≡ earlier bpp x row
back-earlier bpp x row = elim (Bool-cases (ltb x bpp)) [
  | inl e ↦ let far : leb bpp x ≡ false = ground (arith, e) in rw (e, far) refl
  | inr e ↦ let near : leb bpp x ≡ true = ground (arith, e) in rw (e, near) refl
]

abbrev IsPredicting : Filter → Type 0
IsPredicting f = (l u c : ℕ) → predict (filter_type f) l u c ≡ prediction f l u c

unfilter_bytes-filter_bytes :
    (f : Filter) (bpp : ℕ) (prev bs row rest : Bytes)
    → IsPredicting f
    → AreBytes bs
    → unfilter_bytes
        (filter_type f)
        bpp
        prev
        (length bs)
        (filter_bytes f bpp prev bs row ++ rest)
        row
      ≡ ok (row ++ bs)
unfolding unfilter_bytes filter_bytes predicted
unfilter_bytes-filter_bytes f bpp prev [] row rest same h = ap ok (sym (append-nil row))
unfilter_bytes-filter_bytes f bpp prev (b ∷ bs) row rest same h =
    let x = length row in
    let l = earlier bpp x row in
    let u = get_or prev x 0 in
    let c = earlier bpp x prev in
    rw
      (
        back-earlier bpp x row,
        back-earlier bpp x prev,
        same l u c,
        unwrap b (prediction f l u c) h.0,
        unfilter_bytes-filter_bytes f bpp prev bs (row ++ b ∷ []) rest same h.1,
        append_assoc row (b ∷ []) bs,
      )
      refl

-- With nothing taken away the bytes stay.
plain-filter_bytes :
    (bpp : ℕ) (prev bs row : Bytes) → AreBytes bs → filter_bytes plain bpp prev bs row ≡ bs
unfolding filter_bytes
plain-filter_bytes bpp prev [] row h = refl
plain-filter_bytes bpp prev (b ∷ bs) row h =
    let same : (b + (256 - 0 % 256)) % 256 ≡ b = omega (arith, h.0) in
    rw (same, plain-filter_bytes bpp prev bs (row ++ b ∷ []) h.1) refl

length-filter_bytes :
    (f : Filter) (bpp : ℕ) (prev bs row : Bytes)
    → length (filter_bytes f bpp prev bs row) ≡ length bs
unfolding filter_bytes
length-filter_bytes f bpp prev [] row = refl
length-filter_bytes f bpp prev (b ∷ bs) row =
    ap suc (length-filter_bytes f bpp prev bs (row ++ b ∷ []))

unfilter_row-filter_row :
    (f : Filter) (bpp : ℕ) (prev row rest : Bytes)
    → AreBytes row
    → unfilter_row (filter_type f) bpp (length row) prev (filter_row f bpp prev row ++ rest)
      ≡ ok row
unfolding unfilter_row predict
unfilter_row-filter_row plain bpp prev row rest h =
    rw (plain-filter_bytes bpp prev row [] h, take-append_length row rest) refl
unfilter_row-filter_row sub bpp prev row rest h =
    unfilter_bytes-filter_bytes sub bpp prev row [] rest (λ l u c. refl) h
unfilter_row-filter_row above bpp prev row rest h =
    unfilter_bytes-filter_bytes above bpp prev row [] rest (λ l u c. refl) h
unfilter_row-filter_row average bpp prev row rest h =
    unfilter_bytes-filter_bytes average bpp prev row [] rest (λ l u c. refl) h
unfilter_row-filter_row nearest bpp prev row rest h =
    unfilter_bytes-filter_bytes nearest bpp prev row [] rest (λ l u c. paeth-closest l u c) h

unfilter_rows-cons :
    (bpp stride h ftype : ℕ) (prev raw row bs : Bytes)
    → unfilter_row ftype bpp stride prev raw ≡ ok row
    → unfilter_rows bpp stride h row (drop stride raw) ≡ ok bs
    → unfilter_rows bpp stride (suc h) prev (ftype ∷ raw) ≡ ok (row ++ bs)
unfolding unfilter_rows
unfilter_rows-cons bpp stride h ftype prev raw row bs e k = rw (e, unfilter_rows, k) refl

unfilter_rows-filter_rows :
    (bpp stride : ℕ) (rs : List Row) (prev rest : Bytes)
    → All (IsRow stride) rs
    → unfilter_rows bpp stride (length rs) prev (filter_rows bpp rs prev ++ rest)
      ≡ ok (joined_rows rs)
unfolding unfilter_rows filter_rows
unfilter_rows-filter_rows bpp stride [] prev rest h = refl
unfilter_rows-filter_rows bpp stride (r ∷ rs) prev rest h =
    let first = filter_row r.filter bpp prev r.row in
    let below = filter_rows bpp rs r.row in
    let end : length r.row ≡ length first = sym (length-filter_bytes r.filter bpp prev r.row []) in
    let raw = first ++ below ++ rest in
    let split : first ++ (below ++ rest) ≡ raw = sym (append_assoc first below rest) in
    let run : unfilter_row (filter_type r.filter) bpp stride prev raw ≡ ok r.row =
      subst (λ t. unfilter_row (filter_type r.filter) bpp stride prev t ≡ ok r.row) split
        (subst
          (λ n.
            unfilter_row (filter_type r.filter) bpp n prev (first ++ (below ++ rest)) ≡ ok r.row)
          h.0.whole (unfilter_row-filter_row r.filter bpp prev r.row (below ++ rest) h.0.bytes)) in
    let next : drop stride raw ≡ below ++ rest =
      rw (sym split)
        (drop-append_length stride first (below ++ rest) (omega (arith, end, h.0.whole))) in
    unfilter_rows-cons bpp stride (length rs) (filter_type r.filter) prev raw r.row (joined_rows rs)
      run (rw next (unfilter_rows-filter_rows bpp stride rs r.row rest h.1))

-- Rows of bytes of the right length, each filtered by any of the five filters against the row above it,
-- come out of `_unfilter` as they were, whatever follows them.
pub unfilter-filter_rows :
    (width bpp : ℕ) (rs : List Row) (rest : Bytes)
    → All (IsRow (width * bpp)) rs
    → unfilter (filter_rows bpp rs (replicate (width * bpp) 0) ++ rest) width (length rs) bpp
      ≡ ok (joined_rows rs)
unfolding unfilter
unfilter-filter_rows width bpp rs rest h =
    unfilter_rows-filter_rows bpp (width * bpp) rs (replicate (width * bpp) 0) rest h
