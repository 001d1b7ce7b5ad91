-- ===== src/Image/Deflate/Stored.antt =====
-- Stored blocks: data cut into blocks comes back whole.
use pythonos.Prelude.{
  ℕ, zero, suc, ◌+◌, ◌-◌, ◌*◌, ◌/◌, ◌%◌, ◌^◌, ◌<◌, ◌≡◌, ◌∙◌, refl, sym, ap, List, [], ◌∷◌, ◌++◌,
  append_assoc, append-nil, some, ok, get_elem?, length, length-append, arith,
}
use pythonos.Prelude.Bytes.{Bytes}
use pythonos.Image.Deflate.Bits.{
  BitReader, bit_in, read_bit, read_bits_from, read_bits, byte_in, read_byte_aligned,
  read_le16_aligned,
}
use pythonos.Image.Deflate.Inflate.{stored_bytes, stored_block, block, inflate_blocks, inflate}

-- One stored block: the header byte, the length, its complement (which is not looked at), the data.
abbrev pub stored : ℕ → Bytes → Bytes → Bytes
stored header chunk rest =
    header
    ∷ length chunk % 256
    ∷ length chunk / 256
    ∷ (255 - length chunk % 256)
    ∷ (255 - length chunk / 256)
    ∷ (chunk ++ rest)

-- Data in stored blocks of which `last` is the final one.
abbrev pub stored_stream : List Bytes → Bytes → Bytes → Bytes
stored_stream [] last rest = stored 1 last rest
stored_stream (c ∷ cs) last rest = stored 0 c (stored_stream cs last rest)

abbrev pub joined : List Bytes → Bytes → Bytes
joined [] last = last
joined (c ∷ cs) last = c ++ joined cs last

-- The data from index `n` on.
record Follows (bs : Bytes) (n : ℕ) (ys : Bytes) : Type 0 where
  found : (i : ℕ) → get_elem? bs (n + i) ≡ get_elem? ys i

Follows-tail : {bs ys : Bytes} {n y : ℕ} → Follows bs n (y ∷ ys) → Follows bs (suc n) ys
Follows-tail {bs} {n = n} h = record {
  found = λ i. ap (get_elem? bs) (omega arith) ∙ h.found (suc i);
}

Follows-head : {bs ys : Bytes} {n y : ℕ} → Follows bs n (y ∷ ys) → get_elem? bs n ≡ some y
Follows-head {bs} {n = n} h = ap (get_elem? bs) (omega arith) ∙ h.found 0

abbrev at : Bytes → ℕ → BitReader
at bs p = record { bytes = bs; pos = p }

run-read_byte_aligned :
    (bs ys : Bytes) (p n y : ℕ)
    → (p + 7) / 8 ≡ n
    → Follows bs n (y ∷ ys)
    → read_byte_aligned (at bs p) ≡ (ok y, at bs (suc n * 8))
unfolding read_byte_aligned byte_in
run-read_byte_aligned bs ys p n y e h =
    let i : (p + 7) / 8 * 8 / 8 ≡ n = omega (arith, e) in
    let q : (p + 7) / 8 * 8 + 8 ≡ suc n * 8 = omega (arith, e) in rw (i, Follows-head h, q) refl

run-stored_bytes :
    (bs chunk rest out : Bytes) (n : ℕ)
    → Follows bs n (chunk ++ rest)
    → stored_bytes (length chunk) out (at bs (n * 8))
      ≡ (ok (out ++ chunk), at bs ((n + length chunk) * 8))
unfolding stored_bytes
run-stored_bytes bs [] rest out n h =
    let e : n * 8 ≡ (n + 0) * 8 = omega arith in
    ap (λ o. (ok o, at bs (n * 8))) (sym (append-nil out)) ∙ ap (λ p. (ok (out ++ []), at bs p)) e
run-stored_bytes bs (y ∷ chunk) rest out n h =
    let e : (suc n + length chunk) * 8 ≡ (n + suc (length chunk)) * 8 = omega arith in
    rw
      (
        run-read_byte_aligned bs (chunk ++ rest) (n * 8) n y (omega arith) h,
        run-stored_bytes bs chunk rest (out ++ y ∷ []) (suc n) (Follows-tail h),
        e,
      )
      (ap (λ o. (ok o, at bs ((n + suc (length chunk)) * 8))) (append_assoc out (y ∷ []) chunk))

run-read_bit :
    (bs : Bytes) (p n y : ℕ)
    → p / 8 ≡ n
    → get_elem? bs n ≡ some y
    → read_bit (at bs p) ≡ (ok (y / 2 ^ (p % 8) % 2), at bs (p + 1))
unfolding read_bit bit_in
run-read_bit bs p n y e h = rw (e, h) refl

-- The header of a stored block: the final bit, and the type 0.
read_header_at :
    (bs : Bytes) (n f : ℕ)
    → f < 2
    → get_elem? bs n ≡ some f
    → (read_bits 1 (at bs (n * 8)) ≡ (ok f, at bs (n * 8 + 1)))
      × (read_bits 2 (at bs (n * 8 + 1)) ≡ (ok 0, at bs (n * 8 + 1 + 1 + 1)))
unfolding read_bits read_bits_from
read_header_at bs n f lt h =
    let z : n * 8 % 8 ≡ 0 = omega arith in
    let one : (n * 8 + 1) % 8 ≡ 1 = omega arith in
    let two : (n * 8 + 1 + 1) % 8 ≡ 2 = omega arith in
    (
      rw (run-read_bit bs (n * 8) n f (omega arith) h, z)
          (ap (λ v. (ok v, at bs (n * 8 + 1))) (omega (arith, lt))),
      rw
          (
            run-read_bit bs (n * 8 + 1) n f (omega arith) h,
            run-read_bit bs (n * 8 + 1 + 1) n f (omega arith) h,
            one,
            two,
          )
          (ap (λ v. (ok v, at bs (n * 8 + 1 + 1 + 1))) (omega (arith, lt))),
    )

run-read_le16_aligned :
    (bs ys : Bytes) (p n lo hi : ℕ)
    → (p + 7) / 8 ≡ n
    → Follows bs n (lo ∷ hi ∷ ys)
    → read_le16_aligned (at bs p) ≡ (ok (lo + hi * 256), at bs (suc (suc n) * 8))
unfolding read_le16_aligned
run-read_le16_aligned bs ys p n lo hi e h =
    rw
      (
        run-read_byte_aligned bs (hi ∷ ys) p n lo e h,
        run-read_byte_aligned bs ys (suc n * 8) (suc n) hi (omega arith) (Follows-tail h),
      )
      refl

run-stored_block :
    (bs chunk rest out : Bytes) (p n header : ℕ)
    → (p + 7) / 8 ≡ suc n
    → Follows bs n (stored header chunk rest)
    → stored_block out (at bs p) ≡ (ok (out ++ chunk), at bs ((n + 5 + length chunk) * 8))
unfolding stored_block
run-stored_block bs chunk rest out p n header e h =
    let h1 = Follows-tail h in
    let h3 = Follows-tail (Follows-tail h1) in
    let n3 = suc (suc (suc n)) in
    let whole : length chunk % 256 + length chunk / 256 * 256 ≡ length chunk = omega arith in
    let five : suc (suc n3) ≡ n + 5 = omega arith in
    rw
      (
        run-read_le16_aligned bs _ p (suc n) _ _ e h1,
        run-read_le16_aligned bs _ (n3 * 8) n3 _ _ (omega arith) h3,
        whole,
        run-stored_bytes bs chunk rest out (suc (suc n3)) (Follows-tail (Follows-tail h3)),
        five,
      )
      refl

Follows-drop :
    {bs ys : Bytes} (n : ℕ) (xs : Bytes) → Follows bs n (xs ++ ys) → Follows bs (n + length xs) ys
Follows-drop {bs} n [] h = record { found = λ i. ap (get_elem? bs) (omega arith) ∙ h.found i }
Follows-drop {bs} n (x ∷ xs) h = record {
  found = λ i. ap (get_elem? bs) (omega arith) ∙ (Follows-drop (suc n) xs (Follows-tail h)).found i;
}

Follows-stored :
    {bs : Bytes} (chunk : Bytes) {rest : Bytes} {n : ℕ} (header : ℕ)
    → Follows bs n (stored header chunk rest)
    → Follows bs (n + 5 + length chunk) rest
Follows-stored {bs} chunk {n = n} header h = record {
  found = λ i.
      ap (get_elem? bs) (omega arith)
      ∙ (Follows-drop n
            (header
              ∷ length chunk % 256
              ∷ length chunk / 256
              ∷ (255 - length chunk % 256)
              ∷ (255 - length chunk / 256)
              ∷ chunk)
            h).found
          i;
}

-- The blocks of a stream that begins at index `n`, with fuel for one more than there are.
run-inflate_blocks :
    (cs : List Bytes) (bs last rest out : Bytes) (n fuel bits : ℕ)
    → length cs < fuel
    → Follows bs n (stored_stream cs last rest)
    → (q : ℕ) × (inflate_blocks fuel bits out (at bs (n * 8))
        ≡ (ok (out ++ joined cs last), at bs q))
unfolding inflate_blocks block
run-inflate_blocks cs bs last rest out n zero bits lt h = absurd (omega (arith, lt))
run-inflate_blocks [] bs last rest out n (suc fuel) bits lt h =
    let (final, type) = read_header_at bs n 1 (omega arith) (Follows-head h) in
    (
      (n + 5 + length last) * 8,
      rw (final, type, run-stored_block bs last rest out (n * 8 + 1 + 1 + 1) n 1 (omega arith) h)
          refl,
    )
run-inflate_blocks (c ∷ cs) bs last rest out n (suc fuel) bits lt h =
    let (final, type) = read_header_at bs n 0 (omega arith) (Follows-head h) in
    let m = n + 5 + length c in
    let (q, run) =
      run-inflate_blocks cs bs last rest (out ++ c) m fuel bits (omega (arith, lt))
        (Follows-stored c 0 h) in
    let block_run =
      run-stored_block bs c (stored_stream cs last rest) out (n * 8 + 1 + 1 + 1) n 0 (omega arith)
        h in
    (
      q,
      rw (final, type, block_run, run)
          (ap (λ o. (ok o, at bs q)) (append_assoc out c (joined cs last))),
    )

length-stored_stream :
    (cs : List Bytes) (last rest : Bytes) → length cs < length (stored_stream cs last rest)
length-stored_stream [] last rest = omega arith
length-stored_stream (c ∷ cs) last rest =
    omega (arith, length-append c (stored_stream cs last rest), length-stored_stream cs last rest)

-- Data that was cut into stored blocks, in any number, is inflated to the blocks in order, whatever
-- follows the final block. (The high half of a length is a byte where the block has less than 65536.)
pub inflate-stored_stream :
    (cs : List Bytes) (last rest : Bytes)
    → inflate (stored_stream cs last rest) ≡ ok (joined cs last)
unfolding inflate
inflate-stored_stream cs last rest =
    let bs = stored_stream cs last rest in
    let fuel = 8 * length bs + 1 in
    let enough : length cs < fuel = omega (arith, length-stored_stream cs last rest) in
    let (q, run) =
      run-inflate_blocks cs bs last rest [] 0 fuel fuel enough
        (record { found = λ i. ap (get_elem? bs) (omega arith) }) in
    ap (λ o. o.0) run
