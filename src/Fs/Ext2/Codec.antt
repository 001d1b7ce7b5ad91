-- ===== src/Fs/Ext2/Codec.antt =====
-- `struct.pack_into` and `struct.unpack_from`: a field that was packed is read back, and a field that
-- lies beside it is unchanged.
use pythonos.Prelude.{
  ℕ, zero, suc, ◌+◌, ◌-◌, ◌*◌, ◌/◌, ◌^◌, ◌≤◌, ◌<◌, ◌≡◌, refl, sym, ap, ◌∙◌, [], ◌∷◌, ◌++◌, false,
  ltb, if◌then◌else◌, inl, inr, ok, err, length, take, drop, arith, length-append, length-take,
  length-drop, ◌⊎◌, lt→ltb, drop-append_length, Bool-cases, ltb→lt,
}
use native.Mathlib.Nat.{pow-succ'}
use pythonos.Prelude.Bytes.{Bytes}
use pythonos.Fs.Ext2.Fields.{le_value, le_bytes, splice, unpack, pack, struct_error}

length-le_bytes : (w v : ℕ) → length (le_bytes w v) ≡ w
unfolding le_bytes
length-le_bytes zero v = refl
length-le_bytes (suc w) v = ap suc (length-le_bytes w (v / 256))

le_value-le_bytes : (w v : ℕ) → v < 256 ^ w → le_value (le_bytes w v) ≡ v
unfolding le_bytes le_value
le_value-le_bytes zero v h = omega (arith, h)
le_value-le_bytes (suc w) v h =
    let step : 256 ^ (suc w) ≡ 256 * 256 ^ w = pow-succ' 256 w in
    omega (arith, le_value-le_bytes w (v / 256) (omega (arith, step)))

take-take : (m n : ℕ) (xs : Bytes) → m ≤ n → take m (take n xs) ≡ take m xs
take-take zero n xs h = refl
take-take (suc m) zero xs h = absurd (omega arith)
take-take (suc m) (suc n) [] h = refl
take-take (suc m) (suc n) (x ∷ xs) h = ap (◌∷◌ x) (take-take m n xs (omega arith))

-- The bytes of a field lie in the prefix that it ends in.
field_of_prefix :
    (n o w : ℕ) (xs ys : Bytes)
    → take n xs ≡ take n ys
    → o + w ≤ n
    → take w (drop o xs) ≡ take w (drop o ys)
field_of_prefix n zero w xs ys h le =
    sym (take-take w n xs (omega (arith, le)))
    ∙ (ap (take w) h ∙ take-take w n ys (omega (arith, le)))
field_of_prefix zero (suc o) w xs ys h le = absurd (omega (arith, le))
field_of_prefix (suc n) (suc o) w [] [] h le = refl
field_of_prefix (suc n) (suc o) w [] (y ∷ ys) h le = cc
field_of_prefix (suc n) (suc o) w (x ∷ xs) [] h le = cc
field_of_prefix (suc n) (suc o) w (x ∷ xs) (y ∷ ys) h le =
    field_of_prefix n o w xs ys (ap (drop 1) h) (omega (arith, le))

drop-drop : (m n k : ℕ) (xs : Bytes) → k ≡ n + m → drop m (drop n xs) ≡ drop k xs
drop-drop m zero k xs e = ap (λ k. drop k xs) (omega (arith, e))
drop-drop m (suc n) zero xs e = absurd (omega (arith, e))
drop-drop zero (suc n) (suc k) [] e = refl
drop-drop (suc m) (suc n) (suc k) [] e = refl
drop-drop m (suc n) (suc k) (x ∷ xs) e = drop-drop m n k xs (omega (arith, e))

take-append_front : (n : ℕ) (xs ys : Bytes) → n ≡ length xs → take n (xs ++ ys) ≡ xs
take-append_front zero [] ys e = refl
take-append_front zero (x ∷ xs) ys e = absurd (omega (arith, e))
take-append_front (suc n) [] ys e = absurd (omega (arith, e))
take-append_front (suc n) (x ∷ xs) ys e = ap (◌∷◌ x) (take-append_front n xs ys (omega (arith, e)))

module _ (off : ℕ) (xs b : Bytes) (fits : off + length xs ≤ length b) where
  front_length : off ≡ length (take off b)
  front_length = omega (arith, length-take off b, fits)

  take-splice : take off (splice off xs b) ≡ take off b
  unfolding splice
  take-splice =
      take-append_front off (take off b) (xs ++ drop (length xs) (drop off b)) front_length

  drop-splice : drop off (splice off xs b) ≡ xs ++ drop (length xs) (drop off b)
  unfolding splice
  drop-splice =
      drop-append_length off (take off b) (xs ++ drop (length xs) (drop off b)) front_length

  pub length-splice : length (splice off xs b) ≡ length b
  unfolding splice
  length-splice = omega (
    arith,
    length-append (take off b) (xs ++ drop (length xs) (drop off b)),
    length-append xs (drop (length xs) (drop off b)),
    length-take off b,
    length-drop off b,
    length-drop (length xs) (drop off b),
    fits,
  )

  -- What was written is there.
  field-splice_self : take (length xs) (drop off (splice off xs b)) ≡ xs
  field-splice_self =
      ap (take (length xs)) drop-splice
      ∙ take-append_front (length xs) xs (drop (length xs) (drop off b)) refl

  -- A field before it, and one behind it.
  field-splice_other :
      (w o : ℕ)
      → (o + w ≤ off) ⊎ (off + length xs ≤ o)
      → take w (drop o (splice off xs b)) ≡ take w (drop o b)
  field-splice_other w o (inl le) = field_of_prefix off o w (splice off xs b) b take-splice le
  field-splice_other w o (inr le) =
      let k = o - (off + length xs) in
      let e : o ≡ off + (length xs + k) = omega (arith, le) in
      ap (take w) (
        sym (drop-drop (length xs + k) off o (splice off xs b) e)
        ∙ (ap (drop (length xs + k)) drop-splice
            ∙ (sym (
                  drop-drop k (length xs) (length xs + k) (xs ++ drop (length xs) (drop off b))
                    refl)
                ∙ (ap (drop k)
                      (drop-append_length (length xs) xs (drop (length xs) (drop off b)) refl)
                    ∙ (drop-drop k (length xs) (length xs + k) (drop off b) refl
                        ∙ drop-drop (length xs + k) off o b e)))))

module _ (w off v : ℕ) (b : Bytes) (fits : off + w ≤ length b) where
  inside : off + length (le_bytes w v) ≤ length b
  inside = omega (arith, length-le_bytes w v, fits)

  -- The buffer after the field is packed.
  pub packed : Bytes
  packed = splice off (le_bytes w v) b

  pub length-packed : length packed ≡ length b
  unfolding packed
  length-packed = length-splice off (le_bytes w v) b inside

  pub pack_run : v < 256 ^ w → pack w off v b ≡ ok packed
  unfolding pack packed
  pack_run lt =
      let there : ltb (length b) (off + w) ≡ false = ground (arith, fits) in
      rw there (rw (lt→ltb v (256 ^ w) lt) refl)

  pub unpack-packed_self : v < 256 ^ w → unpack w off packed ≡ ok v
  unfolding unpack packed
  unpack-packed_self lt =
      let there : ltb (length (splice off (le_bytes w v) b)) (off + w) ≡ false =
        ground (arith, fits, length-splice off (le_bytes w v) b inside) in
      rw there (
        ap ok (
          ap (λ n. le_value (take n (drop off (splice off (le_bytes w v) b))))
            (sym (length-le_bytes w v))
          ∙ (ap le_value (field-splice_self off (le_bytes w v) b inside)
              ∙ le_value-le_bytes w v lt)))

  pub unpack-packed_other :
      (w' o : ℕ) → (o + w' ≤ off) ⊎ (off + w ≤ o) → unpack w' o packed ≡ unpack w' o b
  unfolding unpack packed
  unpack-packed_other w' o apart =
      let size = length-splice off (le_bytes w v) b inside in
      let apart' : (o + w' ≤ off) ⊎ (off + length (le_bytes w v) ≤ o) = elim apart [
        | inl le ↦ inl le
        | inr le ↦ inr (omega (arith, le, length-le_bytes w v))
      ] in
      ap
        (λ n.
          if ltb n (o + w')
          then err struct_error
          else ok (le_value (take w' (drop o (splice off (le_bytes w v) b)))))
        size
      ∙ ap (λ t. if ltb (length b) (o + w') then err struct_error else ok (le_value t))
          (field-splice_other off (le_bytes w v) b inside w' o apart')

-- A field that could be read lies in the buffer.
pub unpack-ok : (w off : ℕ) (b : Bytes) {v : ℕ} → unpack w off b ≡ ok v → off + w ≤ length b
unfolding unpack
unpack-ok w off b h = ground (arith, h)

pub pack-ok :
    (w off v : ℕ) (b : Bytes) (fits : off + w ≤ length b) {b' : Bytes}
    → pack w off v b ≡ ok b'
    → (v < 256 ^ w) × (b' ≡ packed w off v b fits)
unfolding pack packed
pack-ok w off v b fits h = elim (Bool-cases (ltb v (256 ^ w))) [
  | inl lt ↦ (ltb→lt v (256 ^ w) lt, ground (arith, h, lt, fits))
  | inr ge ↦ absurd (ground (arith, h, ge, fits))
]
