-- ===== src/Memory/Vmm/Region.antt =====
-- What `region` maps, and that leaving it restores the address space and the frame manager.
use pythonos.Prelude.{
  ℕ, suc, ◌+◌, ◌*◌, ◌≤◌, ◌<◌, ◌≡◌, refl, List, [], ◌∷◌, none, Outcome, ok, err, Dict, lookup,
  insert, lookup-insert_self, Bool, false, ◌||◌, Eq-ℕ, ◌==◌, length,
}
use pythonos.Memory.Pmm.{Pmm, page_size, free}
use pythonos.Memory.Pmm
use mathlib.Core.List.{Perm}
use mathlib.Core.List.Perm
use pythonos.Memory.Vmm.Defs.{
  PageFlags, Mapping, MemoryRegion, AddressSpace, VmError, map_page, get_item, map_pages, Machine,
  exit_region,
}

-- The mappings of consecutive pages, from index `i`.
abbrev pub page_mappings : ℕ → PageFlags → ℕ → List ℕ → List Mapping
page_mappings vaddr flags i [] = []
page_mappings vaddr flags i (f ∷ fs) =
    record { vaddr = vaddr + i * page_size; frame = f; flags = flags }
    ∷ page_mappings vaddr flags (suc i) fs

abbrev insert_all : List Mapping → Dict ℕ Mapping → Dict ℕ Mapping
insert_all [] d = d
insert_all (m ∷ ms) d = insert_all ms (insert m.vaddr m d)

-- No step of the loop fails, and it writes just these mappings.
pub map_pages_lem :
    (vaddr : ℕ) (flags : PageFlags) (i : ℕ) (fs : List ℕ) (s : AddressSpace)
    → map_pages vaddr flags i fs s ≡ (
      ok (page_mappings vaddr flags i fs),
      record s { mappings = insert_all (page_mappings vaddr flags i fs) s.mappings },
    )
unfolding map_pages map_page get_item
map_pages_lem vaddr flags i [] s = refl
map_pages_lem vaddr flags i (f ∷ fs) s =
    rw
      (
        lookup-insert_self (vaddr + i * page_size)
            (record { vaddr = vaddr + i * page_size; frame = f; flags = flags }) s.mappings,
        get_item,
      )
      (rw (map_pages_lem vaddr flags (suc i) fs (map_page (vaddr + i * page_size) f flags s)))

-- Is the address one of the mappings'?
abbrev covers : ℕ → List Mapping → Bool
covers v [] = false
covers v (m ∷ ms) = m.vaddr == v || covers v ms

-- Nothing is mapped from the next free address on.
abbrev pub IsFresh : AddressSpace → Type 0
IsFresh s = (v : ℕ) → s.next_vaddr ≤ v → lookup v s.mappings ≡ none

-- What a `with region(...)` statement leaves behind, its body aside: the free frames are the same up
-- to order, the counter too, and every address has the mapping, or none, that it had.
pub record Restored (before after : Machine) : Type 0 where
  pub frames_perm : Perm (Pmm.frames after.0) (Pmm.frames before.0)
  pub valid : Pmm.IsValid after.0
  pub counted : after.0.free_pages ≡ before.0.free_pages
  pub lookups : (v : ℕ) → lookup v after.1.mappings ≡ lookup v before.1.mappings

-- Entering fails, and changes nothing, exactly when there are too few frames; otherwise the body
-- sees the pages of the frames from the first fresh address on, and leaving restores the machine.
abbrev pub RegionSpec :
    Machine → ℕ → PageFlags → Outcome VmError (List ℕ × MemoryRegion) × Machine → Type 0
RegionSpec before n flags (err e, st) = (before.0.free_pages < n) × (st ≡ before)
RegionSpec before n flags (ok (fs, region), st) =
    (length fs ≡ n)
    × (region.mappings ≡ page_mappings before.1.next_vaddr flags 0 fs)
    × (st.1.next_vaddr ≡ before.1.next_vaddr + n * page_size)
    × Restored before (exit_region fs region st)
