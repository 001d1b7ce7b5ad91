-- ===== src/Fs/Ext2/Cache.antt =====
-- The block cache of the ext2 driver is transparent: it holds what the device holds.
use pythonos.Prelude.{
  ℕ, ◌+◌, ◌*◌, ◌≤◌, ◌<◌, ◌≡◌, refl, sym, ap, ◌∙◌, subst, none, some, true, false, ◌==◌, Bool-cases,
  Option-cases, inl, inr, ok, err, Outcome, length, arith, ==_iff, ◌⊎◌, lookup, lookup-insert,
  lookup-insert_self, ltb, ltb→lt, Eq-ℕ,
}
use pythonos.Prelude.Bytes.{Bytes}
use pythonos.Fs.Ext2.Fields.{Ext2Error, bad_write}
use pythonos.Fs.Ext2.Device.{
  Sectors, Ext2Fs, read_sectors, write_sectors, read_block, write_block, fetched, stored,
}
use pythonos.Fs.Ext2.Blocks.{
  write_sectors_outside, read_sectors_same, read_sectors-write_sectors, write_sectors_run,
}

-- Block `n` as the device has it.
abbrev pub on_disk : ℕ → ℕ → Sectors → Outcome Ext2Error Bytes
on_disk spb n dev = read_sectors spb (n * spb) dev

-- A block is that many sectors, and each cached one is what the device has.
pub record IsCoherent (fs : Ext2Fs) : Type 0 where
  pub sized : fs.block_size ≡ fs.sectors_per_block * 512
  pub cached :
      (n : ℕ) (b : Bytes)
      → lookup n fs.block_cache ≡ some b
      → on_disk fs.sectors_per_block n fs.dev ≡ ok b

read_block_hit :
    (n : ℕ) (fs : Ext2Fs) (b : Bytes)
    → lookup n fs.block_cache ≡ some b
    → read_block n fs ≡ (ok b, fs)
unfolding read_block
read_block_hit n fs b e = ground (arith, e)

module _ (n : ℕ) (fs : Ext2Fs) where
  read_block_miss :
      lookup n fs.block_cache ≡ none
      → read_block n fs ≡ fetched n (on_disk fs.sectors_per_block n fs.dev) fs
  unfolding read_block
  read_block_miss e = ground (arith, e)

  fetched_hit :
      (o : Outcome Ext2Error Bytes) {b : Bytes}
      → (fetched n o fs).0 ≡ ok b
      → lookup n (fetched n o fs).1.block_cache ≡ some b
  unfolding fetched
  fetched_hit (ok c) h = lookup-insert_self n c fs.block_cache ∙ ground arith
  fetched_hit (err e) h = cc

  -- Reading a block again gives the same, and changes nothing.
  pub read_block_twice :
      {b : Bytes} {fs' : Ext2Fs} → read_block n fs ≡ (ok b, fs') → read_block n fs' ≡ (ok b, fs')
  read_block_twice {b} {fs'} h = elim (Option-cases (lookup n fs.block_cache)) [
    | inl miss ↦
        let e = sym (read_block_miss miss) ∙ h in
        let hit = fetched_hit (on_disk fs.sectors_per_block n fs.dev) (ap (λ r. r.0) e) in
        read_block_hit n fs' b (ap (λ r. lookup n r.1.block_cache) (sym e) ∙ hit)
    | inr (c, found) ↦
        let e = sym (read_block_hit n fs c found) ∙ h in
        let same : c ≡ b = ground (arith, ap (λ r. r.0) e) in
        read_block_hit n fs' b (ap (λ r. lookup n r.1.block_cache) (sym e) ∙ (found ∙ ap some same))
  ]

  fetched-IsCoherent :
      IsCoherent fs
      → (o : Outcome Ext2Error Bytes) → on_disk fs.sectors_per_block n fs.dev ≡ o
      → ((fetched n o fs).0 ≡ o) × IsCoherent (fetched n o fs).1
  unfolding fetched
  fetched-IsCoherent v (err e) h = (refl, v)
  fetched-IsCoherent v (ok b) h = (
    refl,
    record {
      sized = v.sized;
      cached = λ m c e. elim (Bool-cases (n == m)) [
        | inl same ↦
            let at : n ≡ m = (==_iff n m).0 same in
            let found : b ≡ c = ground (arith, lookup-insert n m b fs.block_cache, same) in
            subst (λ k. on_disk fs.sectors_per_block k fs.dev ≡ ok c) at (h ∙ ap ok found)
        | inr other ↦ v.cached m c (ground (arith, lookup-insert n m b fs.block_cache, other))
      ];
    },
  )

  -- On a coherent file system, reading a block gives exactly what the device has, its exceptions
  -- included, and the file system stays coherent.
  pub read_block-on_disk :
      IsCoherent fs
      → ((read_block n fs).0 ≡ on_disk fs.sectors_per_block n fs.dev)
        × IsCoherent (read_block n fs).1
  read_block-on_disk v = elim (Option-cases (lookup n fs.block_cache)) [
    | inl miss ↦
        subst (λ r. (r.0 ≡ on_disk fs.sectors_per_block n fs.dev) × IsCoherent r.1)
          (sym (read_block_miss miss)) (fetched-IsCoherent v _ refl)
    | inr (b, hit) ↦
        subst (λ r. (r.0 ≡ on_disk fs.sectors_per_block n fs.dev) × IsCoherent r.1)
          (sym (read_block_hit n fs b hit)) (sym (v.cached n b hit), v)
  ]

next_multiple : (a b k : ℕ) → a < b → a * k + k ≤ b * k
next_multiple a b k h = grind arith

disjoint :
    (n m spb i : ℕ)
    → (n == m) ≡ false
    → m * spb ≤ i
    → i < m * spb + spb
    → (i < n * spb) ⊎ (n * spb + spb ≤ i)
disjoint n m spb i ne lo hi = elim (Bool-cases (ltb n m)) [
  | inl lt ↦ inr (omega (arith, next_multiple n m spb (ltb→lt n m lt), lo))
  | inr ge ↦ inl (omega (arith, next_multiple m n spb (ground arith), hi))
]

-- The device after a write of block `n`, whatever its outcome.
written : ℕ → Bytes → Ext2Fs → Outcome Ext2Error (Unit {0}) × Sectors
written n b fs = write_sectors fs.sectors_per_block (n * fs.sectors_per_block) b fs.dev

module _ (n : ℕ) (b : Bytes) (fs : Ext2Fs) where
  other_block :
      (m : ℕ)
      → (n == m) ≡ false
      → on_disk fs.sectors_per_block m (written n b fs).1 ≡ on_disk fs.sectors_per_block m fs.dev
  unfolding written
  other_block m ne =
      read_sectors_same fs.sectors_per_block (m * fs.sectors_per_block) (written n b fs).1 fs.dev
        (λ i lo hi.
          write_sectors_outside fs.sectors_per_block (n * fs.sectors_per_block) b fs.dev i
            (disjoint n m fs.sectors_per_block i ne lo hi))

  -- A block that does not have the size is refused.
  write_block_size : (length b == fs.block_size) ≡ false → write_block n b fs ≡ (err bad_write, fs)
  unfolding write_block
  write_block_size h = ground (arith, h)

  write_block_run :
      (length b == fs.block_size) ≡ true → write_block n b fs ≡ stored n b (written n b fs) fs
  unfolding write_block written
  write_block_run h = ground (arith, h)

  module _ (v : IsCoherent fs) (size : (length b == fs.block_size) ≡ true) where
    length_sectors : length b ≡ fs.sectors_per_block * 512
    length_sectors = (==_iff _ _).0 size ∙ v.sized

    stored-IsCoherent :
        (o : Outcome Ext2Error (Unit {0})) (dev' : Sectors)
        → written n b fs ≡ (o, dev')
        → IsCoherent (stored n b (o, dev') fs).1
    unfolding stored written
    stored-IsCoherent (err e) dev' h = record {
      sized = v.sized;
      cached = λ m c found. elim (Bool-cases (n == m)) [
        | inl same ↦
            let at : n ≡ m = (==_iff n m).0 same in
            let ran : (written n b fs).0 ≡ ok tt =
              write_sectors_run fs.sectors_per_block (n * fs.sectors_per_block) b fs.dev {c = c}
                length_sectors
                (v.cached n c (subst (λ k. lookup k fs.block_cache ≡ some c) (sym at) found)) in
            absurd (ground (arith, ran, ap (λ r. r.0) h))
        | inr other ↦
            ap (on_disk fs.sectors_per_block m) (sym (ap (λ r. r.1) h))
            ∙ (other_block m other ∙ v.cached m c found)
      ];
    }
    stored-IsCoherent (ok done) dev' h = record {
      sized = v.sized;
      cached = λ m c found. elim (Bool-cases (n == m)) [
        | inl same ↦
            let at : n ≡ m = (==_iff n m).0 same in
            let new : b ≡ c = ground (arith, lookup-insert n m b fs.block_cache, same) in
            ap (on_disk fs.sectors_per_block m) (sym (ap (λ r. r.1) h))
            ∙ (subst (λ k. on_disk fs.sectors_per_block k (written n b fs).1 ≡ ok b) at
                  (read_sectors-write_sectors fs.sectors_per_block (n * fs.sectors_per_block) b
                    fs.dev length_sectors (ap (λ r. r.0) h))
                ∙ ap ok new)
        | inr other ↦
            ap (on_disk fs.sectors_per_block m) (sym (ap (λ r. r.1) h))
            ∙ (other_block m other
                ∙ v.cached m c (ground (arith, lookup-insert n m b fs.block_cache, other)))
      ];
    }

  -- Writing a block, whatever its outcome, keeps a file system coherent.
  pub write_block-IsCoherent : IsCoherent fs → IsCoherent (write_block n b fs).1
  write_block-IsCoherent v = elim (Bool-cases (length b == fs.block_size)) [
    | inl size ↦
        subst (λ r. IsCoherent r.1) (sym (write_block_run size))
          (stored-IsCoherent v size (written n b fs).0 (written n b fs).1 refl)
    | inr size ↦ subst (λ r. IsCoherent r.1) (sym (write_block_size size)) v
  ]

  stored_ok :
      (o : Outcome Ext2Error (Unit {0})) (dev' : Sectors)
      → (stored n b (o, dev') fs).0 ≡ ok tt
      → (o ≡ ok tt)
        × (lookup n (stored n b (o, dev') fs).1.block_cache ≡ some b)
        × ((stored n b (o, dev') fs).1.dev ≡ dev')
  unfolding stored
  stored_ok (err e) dev' h = cc
  stored_ok (ok done) dev' h = (refl, lookup-insert_self n b fs.block_cache, refl)

  -- After a write that succeeds, the block is read back at once.
  pub read_block-write_block :
      {fs' : Ext2Fs} → write_block n b fs ≡ (ok tt, fs') → read_block n fs' ≡ (ok b, fs')
  read_block-write_block {fs'} h = elim (Bool-cases (length b == fs.block_size)) [
    | inl size ↦
        let e = sym (write_block_run size) ∙ h in
        let (_, hit, _) = stored_ok (written n b fs).0 (written n b fs).1 (ap (λ r. r.0) e) in
        read_block_hit n fs' b (ap (λ r. lookup n r.1.block_cache) (sym e) ∙ hit)
    | inr size ↦ absurd (ground (arith, ap (λ r. r.0) (sym (write_block_size size) ∙ h)))
  ]
