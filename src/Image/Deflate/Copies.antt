-- ===== src/Image/Deflate/Copies.antt =====
-- What a back-reference appends, also where the source meets the copy.
use pythonos.Prelude.{
  ℕ, zero, suc, ◌+◌, ◌-◌, ◌<◌, ◌≤◌, ◌≡◌, ◌∙◌, refl, sym, [], ◌∷◌, ◌++◌, some, ok, Bool-cases, inl,
  inr, false, ◌==◌, ltb, get_elem?, get_elem?-append_lt, length, length-append, arith,
}
use pythonos.Prelude.Bytes.{Bytes}
use pythonos.Image.Deflate.Bits.{BitReader}
use pythonos.Image.Deflate.Inflate.{entry, copy_from, copy_back}

get_elem?-snoc : (xs : Bytes) (y : ℕ) → get_elem? (xs ++ y ∷ []) (length xs) ≡ some y
get_elem?-snoc [] y = refl
get_elem?-snoc (x ∷ xs) y = get_elem?-snoc xs y

get_elem?-found : (xs : Bytes) (i : ℕ) → i < length xs → (b : ℕ) × get_elem? xs i ≡ some b
get_elem?-found [] i h = absurd (omega (arith, h))
get_elem?-found (x ∷ xs) zero h = (x, refl)
get_elem?-found (x ∷ xs) (suc i) h = get_elem?-found xs i (omega (arith, h))

-- `after` is `before` and `n` bytes more, each of them a copy of the byte `dist` places back.
pub record Repeats (n dist : ℕ) (before after : Bytes) : Type 0 where
  pub longer : length after ≡ length before + n
  pub kept : (i : ℕ) → i < length before → get_elem? after i ≡ get_elem? before i
  pub copied :
      (i : ℕ)
      → length before ≤ i
      → i < length after
      → get_elem? after i ≡ get_elem? after (i - dist)

Repeats-snoc :
    {n dist : ℕ} {out after : Bytes} (src b : ℕ)
    → src + dist ≡ length out
    → 1 ≤ dist
    → get_elem? out src ≡ some b
    → Repeats n dist (out ++ b ∷ []) after
    → Repeats (suc n) dist out after
Repeats-snoc {n} {dist} {out} {after} src b e d found h =
    let l = length-append out (b ∷ []) in
    let before =
      h.kept src (omega (arith, e, d, l))
      ∙ (get_elem?-append_lt out (b ∷ []) src (omega (arith, e, d)) ∙ found) in
    let last = h.kept (length out) (omega (arith, l)) ∙ get_elem?-snoc out b in
    record {
      longer = omega (arith, h.longer, l);
      kept = λ i lt. h.kept i (omega (arith, lt, l)) ∙ get_elem?-append_lt out (b ∷ []) i lt;
      copied = λ i ge lt. elim (Bool-cases (i == length out)) [
        | inl same ↦
            let at : i ≡ length out = ground (arith, same) in
            let back : length out - dist ≡ src = omega (arith, e) in
            rw (at, back) (last ∙ sym before)
        | inr other ↦ h.copied i (ground (arith, l, other, ge)) lt
      ];
    }

copy_from-Repeats :
    (src n dist : ℕ) (out : Bytes) (r : BitReader)
    → src + dist ≡ length out
    → 1 ≤ dist
    → (out' : Bytes) × (copy_from src n out r ≡ (ok out', r)) × Repeats n dist out out'
unfolding copy_from entry
copy_from-Repeats src zero dist out r e d = (
  out,
  refl,
  record {
    longer = omega arith;
    kept = λ i lt. refl;
    copied = λ i ge lt. absurd (omega (arith, ge, lt));
  },
)
copy_from-Repeats src (suc n) dist out r e d =
    let (b, found) = get_elem?-found out src (omega (arith, e, d)) in
    let (out', run, rest) =
      copy_from-Repeats (suc src) n dist (out ++ b ∷ []) r
        (omega (arith, e, length-append out (b ∷ []))) d in
    (out', rw found run, Repeats-snoc src b e d found rest)

-- A back-reference over `n` bytes and a distance of 1 at least that stays inside the output so far
-- always succeeds, reads nothing, keeps the output and appends `n` bytes, each equal to the byte
-- `dist` places before it in the new output, also when `n` is greater than `dist`.
pub copy_back-Repeats :
    (n dist : ℕ) (out : Bytes) (r : BitReader)
    → 1 ≤ dist
    → dist ≤ length out
    → (out' : Bytes) × (copy_back n dist out r ≡ (ok out', r)) × Repeats n dist out out'
unfolding copy_back
copy_back-Repeats n dist out r d le =
    let inside : ltb (length out) dist ≡ false = ground (arith, le) in
    rw inside (copy_from-Repeats (length out - dist) n dist out r (omega (arith, le)) d)
