-- ===== src/Asyncio/Queues/Pending.antt =====
-- Futures that wait, and what a wake-up does to them.
use pythonos.Prelude.{
  ℕ, ◌+◌, ◌<◌, ◌≤◌, ◌≡◌, refl, sym, ap, subst, ◌∙◌, List, [], ◌∷◌, Option, none, some, Bool,
  Bool-cases, inl, inr, ◌⊎◌, true, false, not, ◌&&◌, ◌||◌, ◌==◌, if◌then◌else◌, All, lookup,
  lookup-insert, lookup-insert_self, Eq-ℕ, arith,
}
use pythonos.Asyncio.Waiters.{Board, pending, finished, is_pending, waits, signal, create_future}
use pythonos.Asyncio.Queues.Defs.{wake, set_woken}

abbrev pub any_pending : List ℕ → Board → Bool
any_pending [] b = false
any_pending (f ∷ fs) b = waits f b || any_pending fs b

-- What someone who waits asks for.
abbrev pub owed : Bool → ℕ → ℕ
owed true k = k
owed false k = 0

abbrev pub IsUnder : ℕ → ℕ → Type 0
IsUnder n f = f < n

pub owed_le : (b : Bool) (k : ℕ) → owed b k ≤ k
owed_le true k = omega arith
owed_le false k = omega arith

pub owed_suc : (b : Bool) (k m : ℕ) → owed b (k + 1) ≤ m + 1 → owed b k ≤ m
owed_suc true k m h = omega (arith, h)
owed_suc false k m h = omega arith

pub still_waits : (f g : ℕ) (b : Board) → waits g (signal f finished b) ≡ true → waits g b ≡ true
still_waits f g b h =
    let found : waits g (signal f finished b)
        ≡ is_pending (if f == g then some finished else lookup g b.signals) =
      ap is_pending (lookup-insert f g finished b.signals) in
    elim (Bool-cases (f == g)) [
      | inl e ↦ let no : waits g (signal f finished b) ≡ false = found ∙ rw e refl in cc
      | inr e ↦
          let same : waits g (signal f finished b) ≡ waits g b = found ∙ rw e refl in sym same ∙ h
    ]

pub waits_before : (f : ℕ) (b : Board) → f < b.next → waits f (create_future b) ≡ waits f b
waits_before f b h =
    let other : (b.next == f) ≡ false = ground (arith, h) in
    ap is_pending (lookup-insert b.next f pending b.signals ∙ rw other refl)

pub any_later :
    (fs : List ℕ) (b : Board)
    → All (IsUnder b.next) fs
    → any_pending fs (create_future b) ≡ any_pending fs b
any_later [] b h = refl
any_later (f ∷ fs) b h = rw (waits_before f b h.0, any_later fs b h.1) refl

abbrev pub count : Option ℕ → ℕ
count none = 0
count (some f) = 1

pub any_before :
    (fs : List ℕ) (o : Option ℕ) (b : Board)
    → any_pending fs (set_woken o b) ≡ true
    → any_pending fs b ≡ true
unfolding set_woken
any_before fs none b h = h
any_before [] (some f) b h = h
any_before (g ∷ fs) (some f) b h = elim (Bool-cases (waits g (signal f finished b))) [
  | inl e ↦ rw (still_waits f g b e) refl
  | inr e ↦
      let later : any_pending fs (signal f finished b) ≡ true =
        subst (λ t. (t || any_pending fs (signal f finished b)) ≡ true) e h in
      let rest = any_before fs (some f) b later in
      elim (Bool-cases (waits g b)) [ inl w ↦ rw w refl | inr w ↦ rw w rest ]
]

-- How many of these futures have got their result between one board and the next.
unfoldable pub signalled : List ℕ → Board → Board → ℕ
signalled [] b b' = 0
signalled (f ∷ fs) b b' =
    let rest = signalled fs b b' in if waits f b && not (waits f b') then rest + 1 else rest

-- The future that a wake-up takes has got its result.
pub wake-signalled :
    (fs : List ℕ) (b : Board) → count (wake fs b).0 ≤ signalled fs b (set_woken (wake fs b).0 b)
unfolding wake set_woken signalled
wake-signalled [] b = omega arith
wake-signalled (f ∷ fs) b = elim (Bool-cases (waits f b)) [
  | inl e ↦
      let told : waits f (signal f finished b) ≡ false =
        ap is_pending (lookup-insert_self f finished b.signals) in
      rw (e, told) (omega arith)
  | inr e ↦ rw e (wake-signalled fs b)
]

-- A wake-up reaches one of the futures that wait, if there is one, and leaves none behind otherwise.
pub wake-cases :
    (fs : List ℕ) (b : Board)
    → ((any_pending fs b ≡ true) × (count (wake fs b).0 ≡ 1))
      ⊎ ((any_pending fs b ≡ false) × (wake fs b ≡ (none, [])))
unfolding wake
wake-cases [] b = inr (refl, refl)
wake-cases (f ∷ fs) b = elim (Bool-cases (waits f b)) [
  | inl e ↦ rw e (inl (refl, refl))
  | inr e ↦ rw e (wake-cases fs b)
]

pub wake-All : (P : ℕ → Type 0) (fs : List ℕ) (b : Board) → All P fs → All P (wake fs b).1
unfolding wake
wake-All P [] b h = tt
wake-All P (f ∷ fs) b h = elim (Bool-cases (waits f b)) [
  | inl e ↦ rw e h.1
  | inr e ↦ rw e (wake-All P fs b h.1)
]

-- What waits is promised after a wake-up what was promised before, and one more where there was one.
pub owed-wake :
    (fs : List ℕ) (b b' : Board) (k w : ℕ)
    → owed (any_pending fs b) k ≤ w
    → owed (any_pending (wake fs b).1 b') (k + 1) ≤ w + count (wake fs b).0
owed-wake fs b b' k w h = elim (wake-cases fs b) [
  | inl (p, c) ↦
      let held : k ≤ w = subst (λ t. owed t k ≤ w) p h in
      omega (arith, held, c, owed_le (any_pending (wake fs b).1 b') (k + 1))
  | inr (p, c) ↦ rw c (omega arith)
]

pub owed-set_woken :
    (fs : List ℕ) (o : Option ℕ) (b : Board) (k w : ℕ)
    → owed (any_pending fs b) k ≤ w
    → owed (any_pending fs (set_woken o b)) k ≤ w
owed-set_woken fs o b k w h = elim (Bool-cases (any_pending fs (set_woken o b))) [
  | inl e ↦ rw e (subst (λ t. owed t k ≤ w) (any_before fs o b e) h)
  | inr e ↦ rw e (omega arith)
]
