-- ===== src/Memory/Pmm/Boot.antt =====
-- The constructor: what the memory map gives is page aligned, above the first MiB, and inside it.
use pythonos.Prelude.{
  ℕ, ◌+◌, ◌-◌, ◌*◌, ◌/◌, ◌%◌, ◌≤◌, ◌<◌, ◌≡◌, zero, suc, List, [], ◌∷◌, arith, length-append, ◌⊎◌,
  inl, inr, Bool-cases, ltb, ltb→lt, All, All-append, refl,
}
use pythonos.Memory.Pmm.Defs.{
  Pmm, page_size, low_limit, align_up, align_down, region_start, add_region, add_regions, init,
}
use pythonos.Memory.Pmm.Frames.{frames, frames_of, IsValid, pages_from, length-pages_from}

-- The frame lies within an entry of the memory map.
abbrev pub Usable : List (ℕ × ℕ) → ℕ → Type 0
Usable [] f = ⊥
Usable ((base, len) ∷ mmap) f = ((base ≤ f) × (f + page_size ≤ base + len)) ⊎ Usable mmap f

abbrev pub IsGood : List (ℕ × ℕ) → ℕ → Type 0
IsGood mmap f = (low_limit ≤ f) × (f % page_size ≡ 0) × Usable mmap f

region_start_lem :
    (base : ℕ)
    → (base ≤ region_start base)
      × (low_limit ≤ region_start base)
      × (region_start base % page_size ≡ 0)
unfolding region_start align_up
region_start_lem base = ground arith

align_down_lem : (a : ℕ) → (align_down a ≤ a) × (align_down a % page_size ≡ 0)
unfolding align_down
align_down_lem a = omega arith

add_region-IsValid : (p : Pmm) (r : ℕ × ℕ) → IsValid p → IsValid (add_region p r)
unfolding add_region frames
add_region-IsValid p (base, len) v =
    elim (Bool-cases (ltb (region_start base) (align_down (base + len)))) [
      | inl e ↦
          let start = region_start base in
          let end = align_down (base + len) in
          rw e (record {
            whole = (
              omega (arith, ltb→lt start end e),
              omega (arith, region_start_lem base, align_down_lem (base + len)),
              v.whole,
            );
            counted = omega (
              arith,
              v.counted,
              length-append (pages_from start ((end - start) / page_size)) (frames_of p.ranges),
              length-pages_from start ((end - start) / page_size),
            );
          })
      | inr e ↦ rw e v
    ]

add_regions-IsValid : (p : Pmm) (mmap : List (ℕ × ℕ)) → IsValid p → IsValid (add_regions p mmap)
unfolding add_regions
add_regions-IsValid p [] v = v
add_regions-IsValid p (r ∷ mmap) v =
    add_regions-IsValid (add_region p r) mmap (add_region-IsValid p r v)

pages_from-All :
    (P : ℕ → Type 0) (start k : ℕ)
    → ((i : ℕ) → i < k → P (start + i * page_size))
    → All P (pages_from start k)
pages_from-All P start zero h = tt
pages_from-All P start (suc k) h =
    (h k (omega arith), pages_from-All P start k (λ i lt. h i (omega arith)))

region-All :
    (mmap : List (ℕ × ℕ)) (p : Pmm) (base len : ℕ)
    → ((f : ℕ) → base ≤ f → f + page_size ≤ base + len → Usable mmap f)
    → All (IsGood mmap) (frames p)
    → All (IsGood mmap) (frames (add_region p (base, len)))
unfolding add_region frames
region-All mmap p base len inside h =
    elim (Bool-cases (ltb (region_start base) (align_down (base + len)))) [
      | inl e ↦ rw e (
          All-append (IsGood mmap) _ _
            (pages_from-All (IsGood mmap) _ _ (λ i lt. (
              omega (arith, region_start_lem base),
              omega (arith, region_start_lem base),
              inside _ (omega (arith, region_start_lem base))
                  (omega (arith, region_start_lem base, align_down_lem (base + len))),
            )))
            h)
      | inr e ↦ rw e h
    ]

regions-All :
    (all mmap : List (ℕ × ℕ)) (p : Pmm)
    → ((f : ℕ) → Usable mmap f → Usable all f)
    → All (IsGood all) (frames p)
    → All (IsGood all) (frames (add_regions p mmap))
unfolding add_regions
regions-All all [] p inside h = h
regions-All all ((base, len) ∷ mmap) p inside h =
    regions-All all mmap (add_region p (base, len)) (λ f u. inside f (inr u))
      (region-All all p base len (λ f lo hi. inside f (inl (lo, hi))) h)

-- After the constructor the counter counts the free frames, and each free frame is page aligned, at
-- or above the first MiB, and within an entry of the memory map.
pub init-IsValid :
    (mmap : List (ℕ × ℕ)) → IsValid (init mmap) × All (IsGood mmap) (frames (init mmap))
unfolding init frames
init-IsValid mmap =
    let start : Pmm = record { ranges = []; free_pages = 0 } in
    (
      add_regions-IsValid start mmap (record { whole = tt; counted = refl }),
      regions-All mmap mmap start (λ f u. u) tt,
    )
