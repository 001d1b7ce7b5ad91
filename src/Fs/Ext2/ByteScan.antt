-- ===== src/Fs/Ext2/ByteScan.antt =====
-- The inner loop of `_alloc_in_bitmap`: the first clear bit of one byte.
use pythonos.Prelude.{
  ℕ, zero, suc, ◌+◌, ◌-◌, ◌<◌, ◌≡◌, refl, subst, none, some, true, false, leb, ◌==◌, Bool-cases,
  inl, inr, arith,
}
use pythonos.Prelude.Bytes.{table_ok, table_ok_at}
use pythonos.Fs.Ext2.Bitmap.{has_bit, clear_in_byte}

full_table : table_ok (λ k. has_bit k 255) 8 ≡ true
unfolding has_bit table_ok
full_table = refl

pub full_byte : (k : ℕ) → k < 8 → has_bit k 255 ≡ true
full_byte k h = table_ok_at (λ k. has_bit k 255) 8 k h full_table

-- The bits of a byte from `bit` on, which stand for the indices from `idx` on.
pub record IsHit (count byte left bit idx r : ℕ) : Type 0 where
  pub k : ℕ
  pub at : r ≡ idx + k
  pub within : k < left
  pub below : r < count
  pub clear : has_bit (bit + k) byte ≡ false
  pub first : (m : ℕ) → m < k → has_bit (bit + m) byte ≡ true

pub clear_in_byte-some :
    (count byte left bit idx : ℕ) {r : ℕ}
    → clear_in_byte count byte left bit idx ≡ some r
    → IsHit count byte left bit idx r
unfolding clear_in_byte
clear_in_byte-some count byte zero bit idx h = cc
clear_in_byte-some count byte (suc left) bit idx {r} h = elim (Bool-cases (leb count idx)) [
  | inl out ↦ absurd (ground (arith, out))
  | inr here ↦ elim (Bool-cases (has_bit bit byte)) [
    | inl on ↦
        let rest : clear_in_byte count byte left (bit + 1) (idx + 1) ≡ some r =
          ground (arith, here, on) in
        let i = clear_in_byte-some count byte left (bit + 1) (idx + 1) rest in
        record {
          k = suc i.k;
          at = omega (arith, i.at);
          within = omega (arith, i.within);
          below = i.below;
          clear = subst (λ b. has_bit b byte ≡ false) (omega arith) i.clear;
          first = λ m lt. elim (Bool-cases (m == 0)) [
            | inl z ↦ subst (λ b. has_bit b byte ≡ true) (ground arith) on
            | inr nz ↦
                subst (λ b. has_bit b byte ≡ true) (ground arith) (i.first (m - 1) (ground arith))
          ];
        }
    | inr off ↦
        let e : idx ≡ r = ground (arith, here, off) in
        record {
          k = 0;
          at = omega (arith, e);
          within = omega arith;
          below = ground (arith, here, e);
          clear = subst (λ b. has_bit b byte ≡ false) (omega arith) off;
          first = λ m lt. absurd (omega arith);
        }
  ]
]

pub clear_in_byte-none :
    (count byte left bit idx : ℕ)
    → clear_in_byte count byte left bit idx ≡ none
    → (m : ℕ) → m < left
    → idx + m < count
    → has_bit (bit + m) byte ≡ true
unfolding clear_in_byte
clear_in_byte-none count byte zero bit idx h m lt below = absurd (omega arith)
clear_in_byte-none count byte (suc left) bit idx h m lt below =
    let here : leb count idx ≡ false = ground arith in
    elim (Bool-cases (has_bit bit byte)) [
      | inl on ↦
          let rest : clear_in_byte count byte left (bit + 1) (idx + 1) ≡ none =
            ground (arith, here, on) in
          elim (Bool-cases (m == 0)) [
            | inl z ↦ subst (λ b. has_bit b byte ≡ true) (ground arith) on
            | inr nz ↦
                subst (λ b. has_bit b byte ≡ true) (ground arith)
                  (clear_in_byte-none count byte left (bit + 1) (idx + 1) rest (m - 1)
                    (ground arith) (ground arith))
          ]
      | inr off ↦ absurd (ground (arith, here, off))
    ]
