-- ===== src/Memory/Vmm/Spaces.antt =====
-- What becomes of a process's frames when `VirtualMemoryManager.destroy_space` removes it.
use mathlib.Core.List.{reverse-cons}
use pythonos.Prelude.{
  ℕ, ◌≡◌, ◌∙◌, refl, List, [], ◌∷◌, ◌++◌, Option, none, some, lookup, lookup-erase, Eq-ℕ, ◌==◌,
  if◌then◌else◌, reverse, append_assoc, map, values,
}
use pythonos.Memory.Pmm
use pythonos.Memory.Pmm.{Pmm, free}
use pythonos.Memory.Vmm.Defs.{
  Mapping, AddressSpace, Vmm, unmap, release_all, release_space, destroy_space,
}

-- The frames of a space that is destroyed go back to the manager, the last mapped on top.
release_all-frames :
    (ms : List Mapping) (p : Pmm) (s : AddressSpace)
    → Pmm.frames (release_all ms (p, s)).0 ≡ reverse (map (λ m. m.frame) ms) ++ Pmm.frames p
unfolding release_all
release_all-frames [] p s = refl
release_all-frames (m ∷ ms) p s =
    release_all-frames ms (free m.frame p) (unmap m.vaddr s).1
    ∙ rw (Pmm.frames-free, reverse-cons, append_assoc)

release_all-IsValid :
    (ms : List Mapping) (p : Pmm) (s : AddressSpace)
    → Pmm.IsValid p
    → Pmm.IsValid (release_all ms (p, s)).0
unfolding release_all
release_all-IsValid [] p s v = v
release_all-IsValid (m ∷ ms) p s v =
    release_all-IsValid ms (free m.frame p) (unmap m.vaddr s).1 (Pmm.free-IsValid m.frame p v)

abbrev pub frames_held : Option AddressSpace → List ℕ
frames_held none = []
frames_held (some s) = map (λ m. m.frame) (values s.mappings)

release_space_lem :
    (o : Option AddressSpace) (p : Pmm)
    → Pmm.IsValid p
    → (Pmm.frames (release_space o p) ≡ reverse (frames_held o) ++ Pmm.frames p)
      × Pmm.IsValid (release_space o p)
unfolding release_space
release_space_lem none p v = (refl, v)
release_space_lem (some s) p v =
    (release_all-frames (values s.mappings) p s, release_all-IsValid (values s.mappings) p s v)

-- Destroying a process gives every frame that its space maps, and no other, back to a valid manager,
-- which stays valid; the process has no space afterwards and every other process keeps its own.
pub destroy_space-frees :
    (pid : ℕ) (k : Vmm)
    → Pmm.IsValid k.pmm
    → (Pmm.frames (destroy_space pid k).pmm
        ≡ reverse (frames_held (lookup pid k.spaces)) ++ Pmm.frames k.pmm)
      × Pmm.IsValid (destroy_space pid k).pmm
      × ((q : ℕ)
          → lookup q (destroy_space pid k).spaces ≡ (if pid == q then none else lookup q k.spaces))
unfolding destroy_space
destroy_space-frees pid k v =
    let r = release_space_lem (lookup pid k.spaces) k.pmm v in
    (r.0, r.1, λ q. lookup-erase pid q k.spaces)
