-- ===== src/Memory/Vmm/Defs.antt =====
-- The state and the methods of `VirtualAddressSpace` and `VirtualMemoryManager`.
use pythonos.Prelude.{
  ℕ, suc, ◌+◌, ◌-◌, ◌*◌, ◌/◌, List, [], ◌∷◌, Option, none, some, Outcome, Exec, ok, err, pure,
  ◌>>=◌, ◌>>◌, Dict, lookup, insert, erase, values, Bool, has_key, Eq-ℕ, modify,
}
use pythonos.Memory.Pmm.{Pmm, MemoryError, page_size, alloc_n, free, free_many}

-- `PageFlags` is a set of bits.
abbrev pub PageFlags : Type 0
PageFlags = ℕ

-- PRESENT and WRITE are the first two values of `auto()`.
abbrev pub rw_flags : PageFlags
rw_flags = 1 + 2

pub record Mapping : Type 0 where
  pub vaddr : ℕ
  pub frame : ℕ
  pub flags : PageFlags

pub record MemoryRegion : Type 0 where
  pub vaddr : ℕ
  pub size : ℕ
  pub flags : PageFlags
  pub mappings : List Mapping

pub record AddressSpace : Type 0 where
  pub mappings : Dict ℕ Mapping
  pub next_vaddr : ℕ

pub data VmError : Type 0 where
  memory : MemoryError → VmError
  no_mapping : ℕ → VmError

abbrev pub new_space : AddressSpace
new_space = record { mappings = []; next_vaddr = 0x100000000000 }

unfoldable pub map_page : ℕ → ℕ → PageFlags → AddressSpace → AddressSpace
map_page vaddr frame flags s = record s {
  mappings = insert vaddr (record { vaddr = vaddr; frame = frame; flags = flags }) s.mappings;
}

unfoldable pub unmap_found : ℕ → Option Mapping → AddressSpace → Option ℕ × AddressSpace
unmap_found vaddr none s = (none, s)
unmap_found vaddr (some m) s = (some m.frame, record s { mappings = erase vaddr s.mappings })

unfoldable pub unmap : ℕ → AddressSpace → Option ℕ × AddressSpace
unfolding unmap_found
unmap vaddr s = unmap_found vaddr (lookup vaddr s.mappings) s

-- `__getitem__`.
unfoldable pub get_item : ℕ → Exec AddressSpace VmError Mapping
get_item vaddr s = elim (lookup vaddr s.mappings) [
  | none ↦ (err (no_mapping vaddr), s)
  | some m ↦ (ok m, s)
]

-- `__contains__`.
unfoldable pub contains : ℕ → AddressSpace → Bool
contains vaddr s = has_key vaddr s.mappings

unfoldable pub alloc_vrange : ℕ → AddressSpace → ℕ × AddressSpace
alloc_vrange n s = (s.next_vaddr, record s { next_vaddr = s.next_vaddr + n * page_size })

-- The loop of `region` over `enumerate(frames)`, from index `i`.
unfoldable pub map_pages : ℕ → PageFlags → ℕ → List ℕ → Exec AddressSpace VmError (List Mapping)
unfolding map_page get_item
map_pages vaddr flags i [] = pure []
map_pages vaddr flags i (f ∷ fs) = do
  modify (map_page (vaddr + i * page_size) f flags)
  m ← get_item (vaddr + i * page_size)
  ms ← map_pages vaddr flags (suc i) fs
  pure (m ∷ ms)

-- What `region` works on: the shared frame manager and the address space.
abbrev pub Machine : Type 0
Machine = Pmm × AddressSpace

unfoldable pub on_pmm :
    {A : Type 0} → Outcome MemoryError A × Pmm → AddressSpace → Outcome VmError A × Machine
on_pmm (ok a, p) s = (ok a, (p, s))
on_pmm (err e, p) s = (err (memory e), (p, s))

unfoldable pub on_space :
    {A : Type 0} → Pmm → Outcome VmError A × AddressSpace → Outcome VmError A × Machine
on_space p (r, s) = (r, (p, s))

abbrev pub page_count : ℕ → ℕ
page_count size = (size + page_size - 1) / page_size

-- `region` up to its `yield`: the frames that it holds, and the region that the body sees.
unfoldable pub enter_region : ℕ → PageFlags → Exec Machine VmError (List ℕ × MemoryRegion)
unfolding alloc_vrange map_pages on_pmm on_space
enter_region size flags = do
  frames ← (λ (p, s). on_pmm (alloc_n (page_count size) p) s)
  vaddr ← (λ (p, s). let (v, s') = alloc_vrange (page_count size) s in (ok v, (p, s')))
  mappings ← (λ (p, s). on_space p (map_pages vaddr flags 0 frames s))
  pure (frames, record { vaddr = vaddr; size = size; flags = flags; mappings = mappings })

unfoldable pub unmap_all : List Mapping → AddressSpace → AddressSpace
unfolding unmap
unmap_all [] s = s
unmap_all (m ∷ ms) s = unmap_all ms (unmap m.vaddr s).1

-- The `finally` of `region`.
unfoldable pub exit_region : List ℕ → MemoryRegion → Machine → Machine
unfolding unmap_all
exit_region frames region (p, s) = (free_many frames p, unmap_all region.mappings s)

-- `VirtualMemoryManager`: the frame manager and the spaces by process.
pub record Vmm : Type 0 where
  pub pmm : Pmm
  pub spaces : Dict ℕ AddressSpace

unfoldable pub create_space : ℕ → Vmm → Vmm
create_space pid k = record k { spaces = insert pid new_space k.spaces }

-- The loop of `destroy_space` over the mappings of the space.
unfoldable pub release_all : List Mapping → Machine → Machine
unfolding unmap
release_all [] st = st
release_all (m ∷ ms) (p, s) = release_all ms (free m.frame p, (unmap m.vaddr s).1)

unfoldable pub release_space : Option AddressSpace → Pmm → Pmm
unfolding release_all
release_space none p = p
release_space (some space) p = (release_all (values space.mappings) (p, space)).0

unfoldable pub destroy_space : ℕ → Vmm → Vmm
unfolding release_space
destroy_space pid k = record {
  pmm = release_space (lookup pid k.spaces) k.pmm;
  spaces = erase pid k.spaces;
}
