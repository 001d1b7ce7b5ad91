-- ===== src/Fs/Vfs/Mounts.antt =====
-- The mount that a path belongs to: the longest one that covers it.
use pythonos.Prelude.{
  ℕ, ◌≤◌, ◌≡◌, ◌⊎◌, ◌↔◌, inl, inr, refl, List, [], ◌∷◌, Option, none, some, Option-cases, subst,
  sym, ◌≢◌, length, All, arith,
}
use pythonos.Prelude.Text.{Text, strip}
use pythonos.Fs.Vfs.Defs.{
  FsNode, Filesystem, new_world, relative, select, mount, mount_point, unmount, norm,
}
use pythonos.Fs.Vfs.Cover.{Behind, relative-Behind, relative-none}
use pythonos.Fs.Vfs.Table.{
  Mount, In, IsNoLonger, IsSorted, MountOp, remount_all, remount_all-IsSorted,
}
use pythonos.Fs.Vfs.Effects.{IsUnmounted, mount-In, unmount-IsUnmounted}

module _ (fs : FsNode) where
  abbrev IsBest : Text → List (Mount fs) → Option (Filesystem fs × Text) → Type 0
  IsBest s ms none = (m : Mount fs) → In fs m ms → relative m.0 s ≡ none
  IsBest s ms (some (f, rest)) =
      (mp : Text) × In fs (mp, f) ms
      × (relative mp s ≡ some rest)
      × ((m : Mount fs) → In fs m ms → relative m.0 s ≢ none → length m.0 ≤ length mp)

  In-IsNoLonger :
      (k : ℕ) (m : Mount fs) (ms : List (Mount fs))
      → All (IsNoLonger fs k) ms
      → In fs m ms
      → length m.0 ≤ k
  In-IsNoLonger k m [] h i = elim i [ ]
  In-IsNoLonger k m (n ∷ ms) h (inl e) = subst (IsNoLonger fs k) e h.0
  In-IsNoLonger k m (n ∷ ms) h (inr i) = In-IsNoLonger k m ms h.1 i

  skip-IsBest :
      (s : Text) (n : Mount fs) (ms : List (Mount fs)) (o : Option (Filesystem fs × Text))
      → relative n.0 s ≡ none
      → IsBest s ms o
      → IsBest s (n ∷ ms) o
  skip-IsBest s n ms none e h =
      λ m i. elim i [ inl same ↦ subst (λ k. relative k.0 s ≡ none) same e | inr i' ↦ h m i' ]
  skip-IsBest s n ms (some (f, rest)) e (mp, here, r, longest) = (
    mp,
    inr here,
    r,
    λ m i ne. elim i [
      | inl same ↦ absurd (ne (subst (λ k. relative k.0 s ≡ none) same e))
      | inr i' ↦ longest m i' ne
    ],
  )

  select_here :
      (s mp rest : Text) (f : Filesystem fs) (ms : List (Mount fs))
      → relative mp s ≡ some rest
      → select fs s ((mp, f) ∷ ms) ≡ some (f, rest)
  unfolding select
  select_here s mp rest f ms e = rw (e, select) refl

  select_later :
      (s mp : Text) (f : Filesystem fs) (ms : List (Mount fs))
      → relative mp s ≡ none
      → select fs s ((mp, f) ∷ ms) ≡ select fs s ms
  unfolding select
  select_later s mp f ms e = rw (e, select) refl

  select-IsBest_sorted :
      (s : Text) (ms : List (Mount fs)) → IsSorted fs ms → IsBest s ms (select fs s ms)
  unfolding select
  select-IsBest_sorted s [] h = λ m i. elim i [ ]
  select-IsBest_sorted s ((mp, f) ∷ ms) h = elim (Option-cases (relative mp s)) [
    | inl e ↦
        subst (IsBest s ((mp, f) ∷ ms)) (sym (select_later s mp f ms e))
          (skip-IsBest s (mp, f) ms (select fs s ms) e (select-IsBest_sorted s ms h.2))
    | inr (rest, e) ↦ subst (IsBest s ((mp, f) ∷ ms)) (sym (select_here s mp rest f ms e)) (
      mp,
      inl refl,
      e,
      λ m i ne. elim i [
        | inl same ↦ subst (λ (k : Mount fs). length k.0 ≤ length mp) same (omega arith)
        | inr i' ↦ In-IsNoLonger (length mp) m ms h.0 i'
      ],
    )
  ]

  -- What a path owes to the table: it is resolved at a mount that covers it, the longest of these, with
  -- what it has behind that mount, or no mount covers it.
  abbrev pub IsLongest : Text → List (Mount fs) → Option (Filesystem fs × Text) → Type 0
  IsLongest s ms none = (m : Mount fs) (rest : Text) → In fs m ms → Behind m.0 s rest → ⊥
  IsLongest s ms (some (f, rest)) =
      (mp : Text) × In fs (mp, f) ms
      × Behind mp s rest
      × ((m : Mount fs) (other : Text) → In fs m ms → Behind m.0 s other → length m.0 ≤ length mp)

  IsBest-IsLongest :
      (p : Text) (ms : List (Mount fs)) (o : Option (Filesystem fs × Text))
      → IsBest (b'/' ∷ p) ms o
      → IsLongest (b'/' ∷ p) ms o
  IsBest-IsLongest p ms none h = λ m rest i c. relative-none m.0 p rest (h m i) c
  IsBest-IsLongest p ms (some (f, rest)) (mp, here, r, longest) = (
    mp,
    here,
    relative-Behind mp p rest r,
    λ m other i c. longest m i (λ e. relative-none m.0 p other e c),
  )

  -- Any calls of `mount` and `unmount` on a new switch, failed ones included, leave a table in which a path
  -- is resolved at the longest mount that covers it, with what it has behind that mount: the root
  -- covers every path, and any other mount point itself and what follows it behind a slash. A path has no
  -- file system only where no mount covers it. A further `mount` puts its file system into the table
  -- instead of one at the same place, and no other change; a further `unmount` that succeeds takes the one at
  -- its place out, and no other, and one that raises leaves the table as it was.
  pub select-IsLongest :
      (d : fs.State) (ops : List (MountOp fs)) (path : Text)
      → let w = remount_all fs ops (new_world fs d) in
        IsLongest (norm path) w.mounts (select fs (norm path) w.mounts)
        × ((at : Text) (f : Filesystem fs) (m : Mount fs)
            → In fs m (mount fs at f w).mounts
              ↔ (((mount_point at, f) ≡ m) ⊎ (In fs m w.mounts × m.0 ≢ mount_point at)))
        × ((at : Text) → IsUnmounted fs (mount_point at) w.mounts (unmount fs at w))
  unfolding norm
  select-IsLongest d ops path =
      let w = remount_all fs ops (new_world fs d) in
      let h = remount_all-IsSorted fs ops (new_world fs d) tt in
      (
        IsBest-IsLongest (strip b'/' path) w.mounts _ (select-IsBest_sorted (norm path) w.mounts h),
        λ at f m. mount-In fs at f w m,
        λ at. unmount-IsUnmounted fs at w h,
      )
