-- ===== src/Fs/Ext2/Sizes.antt =====
-- The size of a file in its inode.
use pythonos.Prelude.{
  ℕ, ◌+◌, ◌*◌, ◌/◌, ◌%◌, ◌^◌, ◌≤◌, ◌<◌, ◌≡◌, ap, ◌∙◌, subst, true, false, ◌==◌, if◌then◌else◌,
  Bool-cases, inl, inr, ok, continue, pure, ◌>>=◌, length, arith,
}
use pythonos.Prelude.Bytes.{Bytes}
use pythonos.Fs.Ext2.Fields.{lift, unpack, pack}
use pythonos.Fs.Ext2.Inode.{
  format_of, s_ifreg, i_mode, i_size, i_block_n, with_high, file_size, set_file_size,
}
use pythonos.Fs.Ext2.Codec.{
  packed, length-packed, pack_run, unpack-packed_self, unpack-packed_other,
}

-- What an inode has room for: 32 bits, and 32 more for a regular file.
abbrev pub size_limit : ℕ → ℕ
size_limit mode = if format_of mode == s_ifreg then 2 ^ 64 else 2 ^ 32

module _ {S : Type 0} (s : S) (raw : Bytes) (mode low : ℕ) (is_mode : i_mode raw ≡ ok mode)
    (is_low : i_size raw ≡ ok low) where
  file_size_narrow : (format_of mode == s_ifreg) ≡ false → file_size raw s ≡ (ok low, s)
  unfolding file_size
  file_size_narrow other =
      ap
        (λ o.
          continue (o, s)
            (λ size.
              lift (i_mode raw)
              >>= (λ mode. if format_of mode == s_ifreg then with_high raw size else pure size)))
        is_low
      ∙ (ap
            (λ o.
              continue (o, s)
                (λ mode. if format_of mode == s_ifreg then with_high raw low else pure low))
            is_mode
          ∙ ap (λ c. (if c then with_high raw low else pure low) s) other)

  file_size_wide :
      (high : ℕ)
      → (format_of mode == s_ifreg) ≡ true
      → unpack 4 108 raw ≡ ok high
      → file_size raw s ≡ (ok (low + high * 2 ^ 32), s)
  unfolding file_size with_high
  file_size_wide high regular is_high =
      ap
        (λ o.
          continue (o, s)
            (λ size.
              lift (i_mode raw)
              >>= (λ mode. if format_of mode == s_ifreg then with_high raw size else pure size)))
        is_low
      ∙ (ap
            (λ o.
              continue (o, s)
                (λ mode. if format_of mode == s_ifreg then with_high raw low else pure low))
            is_mode
          ∙ (ap (λ c. (if c then with_high raw low else pure low) s) regular
              ∙ ap (λ o. continue (o, s) (λ high. pure (low + high * 2 ^ 32))) is_high))

-- An inode of 112 bytes or more with its size set: the size is read back, its length, its mode and
-- its block pointers are as before.
pub record IsResized {S : Type 0} (s : S) (raw : Bytes) (mode size : ℕ) : Type 0 where
  pub raw' : Bytes
  pub set : set_file_size size raw s ≡ (ok raw', s)
  pub read_back : file_size raw' s ≡ (ok size, s)
  pub long : length raw' ≡ length raw
  pub mode_kept : i_mode raw' ≡ ok mode
  pub pointers_kept : (n : ℕ) → n < 15 → i_block_n n raw' ≡ i_block_n n raw

module _ {S : Type 0} (s : S) (raw : Bytes) (mode size : ℕ) (is_mode : i_mode raw ≡ ok mode)
    (long : 112 ≤ length raw) where
  raw1 : Bytes
  raw1 = packed 4 4 (size % 4294967296) raw (omega arith)

  length-raw1 : length raw1 ≡ length raw
  unfolding raw1
  length-raw1 = length-packed 4 4 (size % 4294967296) raw (omega arith)

  mode1 : i_mode raw1 ≡ ok mode
  unfolding raw1
  mode1 =
      unpack-packed_other 4 4 (size % 4294967296) raw (omega arith) 2 0 (inl (omega arith))
      ∙ is_mode

  set_file_size_run :
      set_file_size size raw s
      ≡ (if format_of mode == s_ifreg
            then lift (pack 4 108 (size / 4294967296 % 4294967296) raw1)
            else pure raw1)
          s
  unfolding set_file_size raw1
  set_file_size_run =
      ap
        (λ o.
          continue (o, s)
            (λ raw'. lift (i_mode raw') >>= (λ mode.
              if format_of mode == s_ifreg
              then lift (pack 4 108 (size / 2 ^ 32 % 2 ^ 32) raw')
              else pure raw')))
        (pack_run 4 4 (size % 4294967296) raw (omega arith) (omega arith))
      ∙ ap
          (λ o.
            continue (o, s)
              (λ mode.
                if format_of mode == s_ifreg
                then lift (pack 4 108 (size / 2 ^ 32 % 2 ^ 32) raw1)
                else pure raw1))
          mode1

  pointers1 : (n : ℕ) → n < 15 → i_block_n n raw1 ≡ i_block_n n raw
  unfolding raw1
  pointers1 n lt =
      unpack-packed_other 4 4 (size % 4294967296) raw (omega arith) 4 (40 + n * 4)
        (inr (omega arith))

  low1 : i_size raw1 ≡ ok (size % 4294967296)
  unfolding raw1
  low1 = unpack-packed_self 4 4 (size % 4294967296) raw (omega arith) (omega arith)

  -- Setting the size of an inode and reading it gives the size back, where the inode has room for it:
  -- 64 bits for a regular file, 32 for any other.
  pub file_size-set_file_size : size < size_limit mode → IsResized s raw mode size
  file_size-set_file_size fits = elim (Bool-cases (format_of mode == s_ifreg)) [
    | inl regular ↦
        let wide : size < 2 ^ 64 =
          subst (λ c. size < (if c then 2 ^ 64 else 2 ^ 32)) regular fits in
        let there : 108 + 4 ≤ length raw1 = omega (arith, length-raw1, long) in
        let high = size / 4294967296 % 4294967296 in
        let raw2 = packed 4 108 high raw1 there in
        let other = unpack-packed_other 4 108 high raw1 there in
        record {
          raw' = raw2;
          set =
              set_file_size_run
              ∙ (ap (λ c. (if c then lift (pack 4 108 high raw1) else pure raw1) s) regular
                  ∙ ap (λ o. (o, s)) (pack_run 4 108 high raw1 there (omega arith)));
          read_back =
              file_size_wide s raw2 mode (size % 4294967296) (other 2 0 (inl (omega arith)) ∙ mode1)
                (other 4 4 (inl (omega arith)) ∙ low1) high regular
                (unpack-packed_self 4 108 high raw1 there (omega arith))
              ∙ ap (λ n. (ok n, s)) (whole wide);
          long = length-packed 4 108 high raw1 there ∙ length-raw1;
          mode_kept = other 2 0 (inl (omega arith)) ∙ mode1;
          pointers_kept = λ n lt. other 4 (40 + n * 4) (inl (omega arith)) ∙ pointers1 n lt;
        }
    | inr narrow ↦
        let short : size < 2 ^ 32 =
          subst (λ c. size < (if c then 2 ^ 64 else 2 ^ 32)) narrow fits in
        record {
          raw' = raw1;
          set =
              set_file_size_run
              ∙ ap
                  (λ c.
                    (if c
                        then lift (pack 4 108 (size / 4294967296 % 4294967296) raw1)
                        else pure raw1)
                      s)
                  narrow;
          read_back =
              file_size_narrow s raw1 mode (size % 4294967296) mode1 low1 narrow
              ∙ ap (λ n. (ok n, s)) (omega (arith, short));
          long = length-raw1;
          mode_kept = mode1;
          pointers_kept = pointers1;
        }
  ]
    where
      whole : size < 2 ^ 64 → size % 4294967296 + size / 4294967296 % 4294967296 * 2 ^ 32 ≡ size
      whole h = omega (arith, h)
