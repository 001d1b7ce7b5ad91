-- ===== src/Memory/Pmm/Frames.antt =====
-- The ranges stand for a stack of free frames: `alloc` pops it and `free` pushes.
use pythonos.Prelude.{
  ℕ, zero, suc, ◌+◌, ◌-◌, ◌*◌, ◌/◌, ◌%◌, ◌≤◌, ◌≡◌, refl, ap, List, [], ◌∷◌, ◌++◌, Option, none,
  some, arith, length, Outcome, ok, err, leb, Bool-cases, ◌<◌, inl, inr,
}
use pythonos.Memory.Pmm.Defs.{Pmm, MemoryError, page_size, take_frame, alloc_found, alloc, free}

-- The frames of a range of `k` pages, the highest first, as `alloc` hands them out.
abbrev pub pages_from : ℕ → ℕ → List ℕ
pages_from start zero = []
pages_from start (suc k) = (start + k * page_size) ∷ pages_from start k

abbrev pub range_pages : ℕ × ℕ → List ℕ
range_pages (start, end) = pages_from start ((end - start) / page_size)

abbrev pub frames_of : List (ℕ × ℕ) → List ℕ
frames_of [] = []
frames_of (r ∷ rest) = range_pages r ++ frames_of rest

-- Every free frame, in the order in which `alloc` hands them out.
unfoldable pub frames : Pmm → List ℕ
frames p = frames_of p.ranges

-- A range holds a whole number of pages.
abbrev pub AreWhole : List (ℕ × ℕ) → Type 0
AreWhole [] = Unit {0}
AreWhole ((start, end) ∷ rest) = (start ≤ end) × ((end - start) % page_size ≡ 0) × AreWhole rest

-- The ranges are whole, and the counter counts the free frames.
pub record IsValid (p : Pmm) : Type 0 where
  pub whole : AreWhole p.ranges
  pub counted : p.free_pages ≡ length (frames p)

pub length-pages_from : (start k : ℕ) → length (pages_from start k) ≡ k
length-pages_from start zero = refl
length-pages_from start (suc k) = ap suc (length-pages_from start k)

-- What the loop of `alloc` finds is the first frame of the stack, and the rest is left.
abbrev Popped : List ℕ → Option ℕ × List (ℕ × ℕ) → Type 0
Popped before (none, rest) = (before ≡ []) × (frames_of rest ≡ []) × AreWhole rest
Popped before (some f, rest) = (before ≡ f ∷ frames_of rest) × AreWhole rest

empty_range : (start end : ℕ) → end ≤ start → pages_from start ((end - start) / page_size) ≡ []
empty_range start end h = let e : (end - start) / page_size ≡ 0 = omega arith in rw e

whole_range :
    (start end : ℕ)
    → start < end
    → (end - start) % page_size ≡ 0
    → pages_from start ((end - start) / page_size)
      ≡ (end - page_size) ∷ pages_from start ((end - page_size - start) / page_size)
whole_range start end h w =
    let e : (end - start) / page_size ≡ suc ((end - page_size - start) / page_size) = omega arith in
    let f : start + (end - page_size - start) / page_size * page_size ≡ end - page_size =
      omega arith in
    rw e (rw f)

take_frame_lem : (rs : List (ℕ × ℕ)) → AreWhole rs → Popped (frames_of rs) (take_frame rs)
unfolding take_frame
take_frame_lem [] w = (refl, refl, tt)
take_frame_lem ((start, end) ∷ rest) w = elim (Bool-cases (leb end start)) [
  | inl e ↦ rw (e, empty_range start end (ground arith)) (take_frame_lem rest w.2)
  | inr e ↦
      rw (e, whole_range start end (ground arith) w.1) (refl, (ground arith, ground arith, w.2))
]

-- `alloc` refines the pop of a stack of frames: it raises exactly when no frame is free, and
-- otherwise hands out the first frame and keeps the others; the counter stays right.
abbrev pub AllocSpec : Pmm → Outcome MemoryError ℕ × Pmm → Type 0
AllocSpec p (ok f, q) = (frames p ≡ f ∷ frames q) × IsValid q
AllocSpec p (err e, q) = (frames p ≡ []) × (frames q ≡ []) × IsValid q

alloc_found-spec :
    (p : Pmm) (t : Option ℕ × List (ℕ × ℕ))
    → IsValid p
    → Popped (frames p) t
    → AllocSpec p (alloc_found p t)
unfolding alloc_found frames
alloc_found-spec p (none, rest) v h = (
  h.0,
  h.1,
  record { whole = h.2; counted = omega (arith, v.counted, ap length h.0, ap length h.1) },
)
alloc_found-spec p (some f, rest) v h =
    (h.0, record { whole = h.1; counted = omega (arith, v.counted, ap length h.0) })

-- From a valid manager `alloc` pops the first free frame and keeps the others in order, the
-- counter one less; with no free frame, and only then, it raises and the manager has none still.
pub alloc-pops : (p : Pmm) → IsValid p → AllocSpec p (alloc p)
unfolding alloc frames
alloc-pops p v = alloc_found-spec p (take_frame p.ranges) v (take_frame_lem p.ranges v.whole)

-- A freed frame is the next that `alloc` hands out.
pub frames-free : (f : ℕ) (p : Pmm) → frames (free f p) ≡ f ∷ frames p
unfolding free frames
frames-free f p =
    let e : (f + page_size - f) / page_size ≡ 1 = omega arith in
    let z : f + 0 * page_size ≡ f = omega arith in rw e (rw z)

pub free-IsValid : (f : ℕ) (p : Pmm) → IsValid p → IsValid (free f p)
unfolding free
free-IsValid f p v = record {
  whole = (omega arith, omega arith, v.whole);
  counted = omega (arith, v.counted, ap length (unfold free in frames-free f p));
}
