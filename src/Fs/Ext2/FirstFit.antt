-- ===== src/Fs/Ext2/FirstFit.antt =====
-- The search of the allocation bitmap finds the lowest clear index, and fails only if there is none.
use pythonos.Prelude.{
  ℕ, zero, suc, ◌+◌, ◌-◌, ◌*◌, ◌/◌, ◌%◌, ◌≤◌, ◌<◌, ◌≡◌, refl, sym, ap, ◌∙◌, subst, [], ◌∷◌, some,
  true, false, ltb, ◌==◌, Bool-cases, Option-cases, inl, inr, ok, err, length, arith, ==_iff,
}
use pythonos.Prelude.Bytes.{Bytes}
use pythonos.Fs.Ext2.Fields.{bitmap_full}
use pythonos.Fs.Ext2.Bitmap.{has_bit, clear_in_byte, find_clear, first_clear, bit_at}
use pythonos.Fs.Ext2.ByteScan.{full_byte, IsHit, clear_in_byte-some, clear_in_byte-none}

bit_at-head : (byte : ℕ) (bm : Bytes) (j : ℕ) → j < 8 → bit_at j (byte ∷ bm) ≡ has_bit j byte
unfolding bit_at
bit_at-head byte bm j h =
    let e1 : j / 8 ≡ 0 = omega arith in let e2 : j % 8 ≡ j = omega arith in rw (e1, e2) refl

bit_at-tail : (byte : ℕ) (bm : Bytes) (j : ℕ) → bit_at (j + 8) (byte ∷ bm) ≡ bit_at j bm
unfolding bit_at
bit_at-tail byte bm j =
    let e1 : (j + 8) / 8 ≡ suc (j / 8) = omega arith in
    let e2 : (j + 8) % 8 ≡ j % 8 = omega arith in rw (e1, e2) refl

bit_at-cons :
    (byte : ℕ) (bm : Bytes) (j : ℕ)
    → (j < 8 → has_bit j byte ≡ true)
    → (8 ≤ j → bit_at (j - 8) bm ≡ true)
    → bit_at j (byte ∷ bm) ≡ true
bit_at-cons byte bm j head tail = elim (Bool-cases (ltb j 8)) [
  | inl low ↦ bit_at-head byte bm j (ground arith) ∙ head (ground arith)
  | inr high ↦
      subst (λ i. bit_at i (byte ∷ bm) ≡ true) (ground arith)
        (bit_at-tail byte bm (j - 8) ∙ tail (ground arith))
]

-- The indices of the bytes from `byte_i` on.
record IsFound (count byte_i : ℕ) (bm : Bytes) (r : ℕ) : Type 0 where
  q : ℕ
  at : r ≡ byte_i * 8 + q
  held : q / 8 < length bm
  below : r < count
  clear : bit_at q bm ≡ false
  first : (j : ℕ) → j < q → bit_at j bm ≡ true

module _ (count byte_i byte : ℕ) (bm : Bytes) where
  -- A byte of ones, or one that is taken below `count`, is passed over.
  skip :
      {r : ℕ}
      → ((m : ℕ) → m < 8 → has_bit m byte ≡ true)
      → IsFound count (byte_i + 1) bm r
      → IsFound count byte_i (byte ∷ bm) r
  skip taken f = record {
    q = f.q + 8;
    at = omega (arith, f.at);
    held = omega (arith, f.held);
    below = f.below;
    clear = bit_at-tail byte bm f.q ∙ f.clear;
    first = λ j lt.
        bit_at-cons byte bm j (λ low. taken j low) (λ high. f.first (j - 8) (omega (arith, high)));
  }

  hit : {r : ℕ} → IsHit count byte 8 0 (byte_i * 8) r → IsFound count byte_i (byte ∷ bm) r
  hit f = record {
    q = f.k;
    at = f.at;
    held = omega (arith, f.within);
    below = f.below;
    clear =
        bit_at-head byte bm f.k f.within
        ∙ subst (λ b. has_bit b byte ≡ false) (omega arith) f.clear;
    first = λ j lt.
        bit_at-head byte bm j (omega (arith, f.within))
        ∙ subst (λ b. has_bit b byte ≡ true) (omega arith) (f.first j lt);
  }

find_clear-ok :
    (count left byte_i : ℕ) (bm : Bytes) {r : ℕ}
    → find_clear count left byte_i bm ≡ ok r
    → IsFound count byte_i bm r
unfolding find_clear
find_clear-ok count zero byte_i bm h = cc
find_clear-ok count (suc left) byte_i [] h = cc
find_clear-ok count (suc left) byte_i (byte ∷ bm) {r} h = elim (Bool-cases (byte == 255)) [
  | inl ones ↦
      let e : byte ≡ 255 = (==_iff byte 255).0 ones in
      let rest : find_clear count left (byte_i + 1) bm ≡ ok r = ground (arith, ones) in
      skip count byte_i byte bm (λ m lt. subst (λ b. has_bit m b ≡ true) (sym e) (full_byte m lt))
        (find_clear-ok count left (byte_i + 1) bm rest)
  | inr other ↦ elim (Option-cases (clear_in_byte count byte 8 0 (byte_i * 8))) [
    | inl nothing ↦
        let rest : find_clear count left (byte_i + 1) bm ≡ ok r = ground (arith, other, nothing) in
        let f = find_clear-ok count left (byte_i + 1) bm rest in
        skip count byte_i byte bm
          (λ m lt.
            subst (λ b. has_bit b byte ≡ true) (omega arith)
              (clear_in_byte-none count byte 8 0 (byte_i * 8) nothing m lt
                (omega (arith, f.at, f.below))))
          f
    | inr (i, found) ↦
        let e : i ≡ r = ground (arith, other, found) in
        hit count byte_i byte bm
          (clear_in_byte-some count byte 8 0 (byte_i * 8) (found ∙ ap some e))
  ]
]

find_clear-full :
    (count left byte_i : ℕ) (bm : Bytes)
    → find_clear count left byte_i bm ≡ err bitmap_full
    → (j : ℕ) → j < left * 8
    → byte_i * 8 + j < count
    → bit_at j bm ≡ true
unfolding find_clear
find_clear-full count zero byte_i bm h j lt below = absurd (omega arith)
find_clear-full count (suc left) byte_i [] h j lt below = cc
find_clear-full count (suc left) byte_i (byte ∷ bm) h j lt below = elim (Bool-cases (byte == 255)) [
  | inl ones ↦
      let e : byte ≡ 255 = (==_iff byte 255).0 ones in
      let rest : find_clear count left (byte_i + 1) bm ≡ err bitmap_full = ground (arith, ones) in
      bit_at-cons byte bm j (λ low. subst (λ b. has_bit j b ≡ true) (sym e) (full_byte j low))
        (λ high.
          find_clear-full count left (byte_i + 1) bm rest (j - 8) (omega (arith, high))
            (omega (arith, high)))
  | inr other ↦ elim (Option-cases (clear_in_byte count byte 8 0 (byte_i * 8))) [
    | inl nothing ↦
        let rest : find_clear count left (byte_i + 1) bm ≡ err bitmap_full =
          ground (arith, other, nothing) in
        bit_at-cons byte bm j
          (λ low.
            subst (λ b. has_bit b byte ≡ true) (omega arith)
              (clear_in_byte-none count byte 8 0 (byte_i * 8) nothing j low below))
          (λ high.
            find_clear-full count left (byte_i + 1) bm rest (j - 8) (omega (arith, high))
              (omega (arith, high)))
    | inr (i, found) ↦ absurd (ground (arith, other, found))
  ]
]

-- The lowest clear index of a bitmap below `count`.
pub record IsFirstClear (count : ℕ) (bm : Bytes) (idx : ℕ) : Type 0 where
  pub below : idx < count
  pub held : idx / 8 < length bm
  pub clear : bit_at idx bm ≡ false
  pub first : (j : ℕ) → j < idx → bit_at j bm ≡ true

pub first_clear-IsFirstClear :
    (count : ℕ) (bm : Bytes) {idx : ℕ} → first_clear count bm ≡ ok idx → IsFirstClear count bm idx
unfolding first_clear
first_clear-IsFirstClear count bm {idx} h =
    let f = find_clear-ok count ((count + 7) / 8) 0 bm h in
    let e : f.q ≡ idx = omega (arith, f.at) in
    record {
      below = f.below;
      held = subst (λ i. i / 8 < length bm) e f.held;
      clear = subst (λ i. bit_at i bm ≡ false) e f.clear;
      first = λ j lt. f.first j (omega (arith, e, lt));
    }

pub first_clear-full :
    (count : ℕ) (bm : Bytes)
    → first_clear count bm ≡ err bitmap_full
    → (j : ℕ) → j < count
    → bit_at j bm ≡ true
unfolding first_clear
first_clear-full count bm h j lt =
    find_clear-full count ((count + 7) / 8) 0 bm h j (omega arith) (omega arith)
