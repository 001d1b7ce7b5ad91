-- ===== src/Fs/Vfs/Table.antt =====
-- The table of the mounts: longest first and one for each place, after any calls of `mount` and `unmount`.
use pythonos.Prelude.{
  ℕ, ◌≤◌, ◌≡◌, ◌⊎◌, inl, inr, refl, List, [], ◌∷◌, Option, none, some, false, Bool-cases,
  Option-cases, ltb, ok, err, Outcome, Exec, continue, subst, sym, ◌≢◌, length, All, arith,
  bytes_eq, bytes_eq_iff,
}
use pythonos.Prelude.Text.{Text}
use pythonos.Fs.Vfs.Defs.{
  FsNode, Filesystem, World, VfsError, mount, mount_point, without, place, mounted, unmount,
  unmount_found, flush_of, after_call,
}

module _ (fs : FsNode) where
  abbrev pub Mount : Type 0
  Mount = Text × Filesystem fs

  abbrev pub In : Mount → List Mount → Type 0
  In m [] = ⊥
  In m (n ∷ ms) = (n ≡ m) ⊎ In m ms

  abbrev pub IsNoLonger : ℕ → Mount → Type 0
  IsNoLonger k n = length n.0 ≤ k

  abbrev pub IsOther : Text → Mount → Type 0
  IsOther mp m = m.0 ≢ mp

  -- Longest first, and none at the place of another.
  abbrev pub IsSorted : List Mount → Type 0
  IsSorted [] = Unit {0}
  IsSorted (m ∷ ms) = All (IsNoLonger (length m.0)) ms × All (IsOther m.0) ms × IsSorted ms

  weaken-All : (j k : ℕ) (ms : List Mount) → j ≤ k → All (IsNoLonger j) ms → All (IsNoLonger k) ms
  weaken-All j k [] l h = tt
  weaken-All j k (m ∷ ms) l h = (omega (arith, h.0, l), weaken-All j k ms l h.1)

  place-All :
      (P : Mount → Type 0) (m : Mount) (ms : List Mount) → P m → All P ms → All P (place fs m ms)
  unfolding place
  place-All P m [] p h = (p, tt)
  place-All P m (n ∷ ms) p h = elim (Bool-cases (ltb (length n.0) (length m.0))) [
    | inl e ↦ rw e (p, h)
    | inr e ↦ rw e (h.0, place-All P m ms p h.1)
  ]

  place-IsSorted :
      (m : Mount) (ms : List Mount) → All (IsOther m.0) ms → IsSorted ms → IsSorted (place fs m ms)
  unfolding place
  place-IsSorted m [] o h = (tt, tt, tt)
  place-IsSorted m (n ∷ ms) o h = elim (Bool-cases (ltb (length n.0) (length m.0))) [
    | inl e ↦
        let shorter : length n.0 ≤ length m.0 = ground (arith, e) in
        rw e ((shorter, weaken-All (length n.0) (length m.0) ms shorter h.0), o, h)
    | inr e ↦ rw e (
      place-All (IsNoLonger (length n.0)) m ms (ground (arith, e)) h.0,
      place-All (IsOther n.0) m ms (λ same. o.0 (sym same)) h.1,
      place-IsSorted m ms o.1 h.2,
    )
  ]

  without-All :
      (P : Mount → Type 0) (mp : Text) (ms : List Mount) → All P ms → All P (without fs mp ms)
  unfolding without
  without-All P mp [] h = tt
  without-All P mp ((p, f) ∷ ms) h = elim (Bool-cases (bytes_eq p mp)) [
    | inl e ↦ rw e (without-All P mp ms h.1)
    | inr e ↦ rw e (h.0, without-All P mp ms h.1)
  ]

  without-IsSorted : (mp : Text) (ms : List Mount) → IsSorted ms → IsSorted (without fs mp ms)
  unfolding without
  without-IsSorted mp [] h = tt
  without-IsSorted mp ((p, f) ∷ ms) h = elim (Bool-cases (bytes_eq p mp)) [
    | inl e ↦ rw e (without-IsSorted mp ms h.2)
    | inr e ↦ rw e (without-All _ mp ms h.0, without-All _ mp ms h.1, without-IsSorted mp ms h.2)
  ]

  text_ne : (s t : Text) → bytes_eq s t ≡ false → s ≢ t
  text_ne s t h e = let same = (bytes_eq_iff s t).1 e in ground (arith, h, same)

  without-IsOther : (mp : Text) (ms : List Mount) → All (IsOther mp) (without fs mp ms)
  unfolding without
  without-IsOther mp [] = tt
  without-IsOther mp ((p, f) ∷ ms) = elim (Bool-cases (bytes_eq p mp)) [
    | inl e ↦ rw e (without-IsOther mp ms)
    | inr e ↦ rw e (text_ne p mp e, without-IsOther mp ms)
  ]

  -- What `unmount` leaves, if it finds the mount.
  abbrev left_by : List Mount → Option (Filesystem fs × List Mount) → List Mount
  left_by ms none = ms
  left_by ms (some (f, rest)) = rest

  mounted-All :
      (P : Mount → Type 0) (mp : Text) (ms : List Mount)
      → All P ms
      → All P (left_by ms (mounted fs mp ms))
  unfolding mounted
  mounted-All P mp [] h = tt
  mounted-All P mp ((p, f) ∷ ms) h = elim (Bool-cases (bytes_eq p mp)) [
    | inl e ↦ rw e h.1
    | inr e ↦ elim (Option-cases (mounted fs mp ms)) [
      | inl n ↦ rw (e, n) h
      | inr ((g, rest), s) ↦
          rw (e, s) (h.0, subst (λ o. All P (left_by ms o)) s (mounted-All P mp ms h.1))
    ]
  ]

  mounted-IsSorted :
      (mp : Text) (ms : List Mount) → IsSorted ms → IsSorted (left_by ms (mounted fs mp ms))
  unfolding mounted
  mounted-IsSorted mp [] h = tt
  mounted-IsSorted mp ((p, f) ∷ ms) h = elim (Bool-cases (bytes_eq p mp)) [
    | inl e ↦ rw e h.2
    | inr e ↦ elim (Option-cases (mounted fs mp ms)) [
      | inl n ↦ rw (e, n) h
      | inr ((g, rest), s) ↦
          rw (e, s)
            (
              subst (λ o. All (IsNoLonger (length p)) (left_by ms o)) s (mounted-All _ mp ms h.0),
              subst (λ o. All (IsOther p) (left_by ms o)) s (mounted-All _ mp ms h.1),
              subst (λ o. IsSorted (left_by ms o)) s (mounted-IsSorted mp ms h.2),
            )
    ]
  ]

  -- The calls that change the mounts, also when `unmount` raises.
  pub data MountOp : Type 0 where
    mount_op : Text → Filesystem fs → MountOp
    unmount_op : Text → MountOp

  unfoldable pub remount : MountOp → World fs → World fs
  unfolding mount unmount
  remount (mount_op path f) w = mount fs path f w
  remount (unmount_op path) w = (unmount fs path w).1

  unfoldable pub remount_all : List MountOp → World fs → World fs
  unfolding remount
  remount_all [] w = w
  remount_all (op ∷ ops) w = remount_all ops (remount op w)

  after_call-mounts :
      {A : Type 0} (r : Outcome fs.Error A × fs.State) (w : World fs)
      → (after_call fs r w).1.mounts ≡ w.mounts
  unfolding after_call
  after_call-mounts (ok a, d) w = refl
  after_call-mounts (err e, d) w = refl

  pub flush_of-mounts :
      (o : Option (Exec fs.State fs.Error (Unit {0}))) (w : World fs)
      → (flush_of fs o w).1.mounts ≡ w.mounts
  unfolding flush_of
  flush_of-mounts none w = refl
  flush_of-mounts (some m) w = after_call-mounts (m w.disk) w

  set_mounts-IsSorted :
      (r : Outcome (VfsError fs) (Unit {0}) × World fs) (rest : List Mount)
      → IsSorted r.1.mounts
      → IsSorted rest
      → IsSorted (continue r (λ _ w. (ok tt, record w { mounts = rest }))).1.mounts
  set_mounts-IsSorted (ok a, w) rest h h' = h'
  set_mounts-IsSorted (err e, w) rest h h' = h

  unmount_found-IsSorted :
      (path : Text) (o : Option (Filesystem fs × List Mount)) (w : World fs)
      → IsSorted w.mounts
      → IsSorted (left_by w.mounts o)
      → IsSorted (unmount_found fs path o w).1.mounts
  unfolding unmount_found
  unmount_found-IsSorted path none w h h' = h
  unmount_found-IsSorted path (some (f, rest)) w h h' =
      set_mounts-IsSorted (flush_of fs f.flush w) rest
        (subst IsSorted (sym (flush_of-mounts f.flush w)) h) h'

  pub remount_all-IsSorted :
      (ops : List MountOp) (w : World fs) → IsSorted w.mounts → IsSorted (remount_all ops w).mounts
  unfolding remount_all remount mount unmount
  remount_all-IsSorted [] w h = h
  remount_all-IsSorted (mount_op path f ∷ ops) w h = remount_all-IsSorted ops (mount fs path f w) (
      place-IsSorted _ _ (without-IsOther (mount_point path) w.mounts)
        (without-IsSorted (mount_point path) w.mounts h))
  remount_all-IsSorted (unmount_op path ∷ ops) w h =
      remount_all-IsSorted ops (unmount fs path w).1 (
        unmount_found-IsSorted path (mounted fs (mount_point path) w.mounts) w h
          (mounted-IsSorted (mount_point path) w.mounts h))
