-- ===== src/Memory/Pmm/Bulk.antt =====
-- Several frames at once: `alloc_n` and `free_many`.
use pythonos.Prelude.{
  ℕ, zero, suc, ◌≤◌, ◌≡◌, ◌∙◌, refl, ap, List, [], ◌∷◌, ◌++◌, append_assoc, arith, length, Outcome,
  ok, err, continue, pure, reverse, ltb, Bool-cases, inl, inr, if◌then◌else◌,
}
use mathlib.Core.List.{reverse-cons}
use pythonos.Memory.Pmm.Defs.{
  Pmm, MemoryError, cannot_allocate, alloc, alloc_loop, alloc_n, free, free_many,
}
use pythonos.Memory.Pmm.Frames.{frames, IsValid, AllocSpec, alloc-pops, frames-free, free-IsValid}

-- The frames handed out are the first of the stack.
abbrev pub Granted : Pmm → ℕ → Outcome MemoryError (List ℕ) × Pmm → Type 0
Granted p n (ok fs, q) = (length fs ≡ n) × (frames p ≡ fs ++ frames q) × IsValid q
Granted p n (err e, q) = ⊥

push_frame :
    (p q : Pmm) (n f : ℕ) (r : Outcome MemoryError (List ℕ) × Pmm)
    → frames p ≡ f ∷ frames q
    → Granted q n r
    → Granted p (suc n) (continue r (λ fs. pure (f ∷ fs)))
push_frame p q n f (ok fs, q') h g = (ap suc g.0, h ∙ ap (◌∷◌ f) g.1, g.2)
push_frame p q n f (err e, q') h g = g

loop_step :
    (p : Pmm) (n : ℕ) (r : Outcome MemoryError ℕ × Pmm)
    → suc n ≤ length (frames p)
    → AllocSpec p r
    → ((q : Pmm) → IsValid q → n ≤ length (frames q) → Granted q n (alloc_loop n q))
    → Granted p (suc n) (continue r (λ f q. continue (alloc_loop n q) (λ fs. pure (f ∷ fs))))
loop_step p n (err e, q) le h ih = absurd (omega (arith, ap length h.0))
loop_step p n (ok f, q) le h ih =
    push_frame p q n f (alloc_loop n q) h.0 (ih q h.1 (omega (arith, ap length h.0)))

alloc_loop-Granted :
    (n : ℕ) (p : Pmm) → IsValid p → n ≤ length (frames p) → Granted p n (alloc_loop n p)
unfolding alloc_loop
alloc_loop-Granted zero p v h = (refl, refl, v)
alloc_loop-Granted (suc n) p v h = loop_step p n (alloc p) h (alloc-pops p v) (alloc_loop-Granted n)

abbrev pub AllocNSpec : Pmm → ℕ → Outcome MemoryError (List ℕ) × Pmm → Type 0
AllocNSpec p n r = if ltb p.free_pages n then r ≡ (err cannot_allocate, p) else Granted p n r

-- From a valid manager `alloc_n n` raises, and changes nothing, exactly when fewer than `n` frames
-- are free; otherwise it hands out the first `n` free frames and keeps the others in order.
pub alloc_n-grants : (n : ℕ) (p : Pmm) → IsValid p → AllocNSpec p n (alloc_n n p)
unfolding alloc_n
alloc_n-grants n p v = elim (Bool-cases (ltb p.free_pages n)) [
  | inl e ↦ rw e
  | inr e ↦ rw e (alloc_loop-Granted n p v (ground (arith, v.counted)))
]

pub frames-free_many : (fs : List ℕ) (p : Pmm) → frames (free_many fs p) ≡ reverse fs ++ frames p
unfolding free_many
frames-free_many [] p = refl
frames-free_many (f ∷ fs) p =
    frames-free_many fs (free f p) ∙ rw (frames-free f p, reverse-cons, append_assoc)

pub free_many-IsValid : (fs : List ℕ) (p : Pmm) → IsValid p → IsValid (free_many fs p)
unfolding free_many
free_many-IsValid [] p v = v
free_many-IsValid (f ∷ fs) p v = free_many-IsValid fs (free f p) (free-IsValid f p v)
