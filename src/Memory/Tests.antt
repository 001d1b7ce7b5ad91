-- ===== src/Memory/Tests.antt =====
-- The theorems on kernel/memory at concrete inputs, and runs of its code.
use pythonos.Prelude.{
  ℕ, ◌≡◌, refl, List, [], ◌∷◌, none, ok, lookup, Eq-ℕ, arith, if◌then◌else◌, ◌==◌, All, reverse,
  ◌++◌,
}
use pythonos.Memory.Pmm
use pythonos.Memory.Pmm.{Pmm, init, alloc, alloc_n, free, take_frame, alloc_found, frames}
use pythonos.Memory.Vmm
use pythonos.Memory.Vmm.{Mapping, AddressSpace, Vmm, destroy_space, rw_flags}

-- One free page below the first MiB, three above it.
abbrev memory_map : List (ℕ × ℕ)
memory_map = (0, 0x9F000) ∷ (0x100000, 0x3000) ∷ []

abbrev three_pages : Pmm
three_pages = record { ranges = (0x100000, 0x103000) ∷ []; free_pages = 3 }

init_runs : init memory_map ≡ three_pages
unfolding init
init_runs = refl

three_pages-IsValid : Pmm.IsValid three_pages
unfolding frames
three_pages-IsValid = record { whole = omega arith; counted = refl }

init-IsValid_example :
    Pmm.IsValid (init memory_map) × All (Pmm.IsGood memory_map) (frames (init memory_map))
init-IsValid_example = Pmm.init-IsValid memory_map

alloc-pops_example : Pmm.AllocSpec three_pages (alloc three_pages)
alloc-pops_example = Pmm.alloc-pops three_pages three_pages-IsValid

alloc_runs : (alloc three_pages).0 ≡ ok 0x102000
unfolding alloc
alloc_runs = refl

abbrev one_process : Vmm
one_process = record {
  pmm = three_pages;
  spaces =
      (
        1,
        record {
          mappings = (0x1000, record { vaddr = 0x1000; frame = 0x200000; flags = rw_flags }) ∷ [];
          next_vaddr = 0x2000;
        },
      )
      ∷ [];
}

destroy_space-frees_example :
    (frames (destroy_space 1 one_process).pmm
      ≡ reverse (Vmm.frames_held (lookup 1 one_process.spaces)) ++ frames three_pages)
    × Pmm.IsValid (destroy_space 1 one_process).pmm
    × ((q : ℕ)
        → lookup q (destroy_space 1 one_process).spaces
          ≡ (if 1 == q then none else lookup q one_process.spaces))
destroy_space-frees_example = Vmm.destroy_space-frees 1 one_process three_pages-IsValid
