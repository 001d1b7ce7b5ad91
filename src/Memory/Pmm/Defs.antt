-- ===== src/Memory/Pmm/Defs.antt =====
-- The state and the methods of `PhysicalMemoryManager`.
use pythonos.Prelude.{
  ℕ, zero, suc, ◌+◌, ◌-◌, ◌*◌, ◌/◌, List, [], ◌∷◌, Option, none, some, ltb, leb, if◌then◌else◌,
  Outcome, Exec, ok, err, pure, ◌>>=◌,
}

abbrev pub page_size : ℕ
page_size = 4096

abbrev pub reserved_mb : ℕ
reserved_mb = 1

pub record Pmm : Type 0 where
  pub ranges : List (ℕ × ℕ)
  pub free_pages : ℕ

pub data MemoryError : Type 0 where
  out_of_memory : MemoryError
  cannot_allocate : MemoryError

-- `(base + PAGE_SIZE - 1) & ~(PAGE_SIZE - 1)`: up to a page boundary.
unfoldable pub align_up : ℕ → ℕ
align_up a = (a + page_size - 1) / page_size * page_size

-- `(base + length) & ~(PAGE_SIZE - 1)`: down to a page boundary.
unfoldable pub align_down : ℕ → ℕ
align_down a = a / page_size * page_size

abbrev pub low_limit : ℕ
low_limit = reserved_mb * 1024 * 1024

-- The first page of an entry of the memory map that may be used.
unfoldable pub region_start : ℕ → ℕ
unfolding align_up
region_start base = let start = align_up base in if ltb start low_limit then low_limit else start

-- One round of the constructor's loop over the memory map.
unfoldable pub add_region : Pmm → ℕ × ℕ → Pmm
add_region p (base, length) =
    let start = region_start base in
    let end = align_down (base + length) in
    if ltb start end
    then record {
      ranges = (start, end) ∷ p.ranges;
      free_pages = p.free_pages + (end - start) / page_size;
    }
    else p

unfoldable pub add_regions : Pmm → List (ℕ × ℕ) → Pmm
unfolding add_region
add_regions p [] = p
add_regions p (r ∷ mmap) = add_regions (add_region p r) mmap

unfoldable pub init : List (ℕ × ℕ) → Pmm
unfolding add_regions region_start align_up align_down
init mmap = add_regions (record { ranges = []; free_pages = 0 }) mmap

-- The `while self._ranges` loop of `alloc`: the frame, and the ranges that are left. Empty ranges
-- are dropped, also when the loop ends with nothing found.
unfoldable pub take_frame : List (ℕ × ℕ) → Option ℕ × List (ℕ × ℕ)
take_frame [] = (none, [])
take_frame ((start, end) ∷ rest) =
    if leb end start
    then take_frame rest
    else (some (end - page_size), (start, end - page_size) ∷ rest)

unfoldable pub alloc_found : Pmm → Option ℕ × List (ℕ × ℕ) → Outcome MemoryError ℕ × Pmm
alloc_found p (none, rest) = (err out_of_memory, record p { ranges = rest })
alloc_found p (some frame, rest) =
    (ok frame, record { ranges = rest; free_pages = p.free_pages - 1 })

unfoldable pub alloc : Exec Pmm MemoryError ℕ
unfolding take_frame alloc_found
alloc p = alloc_found p (take_frame p.ranges)

-- `[self.alloc() for _ in range(n)]`.
unfoldable pub alloc_loop : ℕ → Exec Pmm MemoryError (List ℕ)
unfolding alloc
alloc_loop zero = pure []
alloc_loop (suc n) = do frame ← alloc; frames ← alloc_loop n; pure (frame ∷ frames)

unfoldable pub alloc_n : ℕ → Exec Pmm MemoryError (List ℕ)
unfolding alloc_loop
alloc_n n p = if ltb p.free_pages n then (err cannot_allocate, p) else alloc_loop n p

unfoldable pub free : ℕ → Pmm → Pmm
free frame p = record {
  ranges = (frame, frame + page_size) ∷ p.ranges;
  free_pages = p.free_pages + 1;
}

unfoldable pub free_many : List ℕ → Pmm → Pmm
unfolding free
free_many [] p = p
free_many (frame ∷ frames) p = free_many frames (free frame p)
