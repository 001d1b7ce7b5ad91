-- ===== src/Fs/Vfs/Effects.antt =====
-- What one call of `mount` or `unmount` does to the table of the mounts.
use pythonos.Prelude.{
  ◌≡◌, ◌≢◌, ◌⊎◌, ◌↔◌, ◌∙◌, inl, inr, refl, sym, ap, subst, List, [], ◌∷◌, Option, none, some, false,
  Bool-cases, Option-cases, ltb, if◌then◌else◌, ok, err, Outcome, continue, length, All, arith,
  bytes_eq, bytes_eq_iff,
}
use pythonos.Prelude.Text.{Text}
use pythonos.Fs.Vfs.Defs.{
  FsNode, Filesystem, World, VfsError, mount, mount_point, without, place, mounted, unmount,
  unmount_found, flush_of,
}
use pythonos.Fs.Vfs.Table.{Mount, In, IsOther, IsSorted, flush_of-mounts}

module _ (fs : FsNode) where
  place_made :
      (k m : Mount fs) (ms : List (Mount fs)) → In fs k (place fs m ms) → (m ≡ k) ⊎ In fs k ms
  unfolding place
  place_made k m [] i = i
  place_made k m (n ∷ ms) i = elim (Bool-cases (ltb (length n.0) (length m.0))) [
    | inl e ↦ subst (λ c. In fs k (if c then m ∷ n ∷ ms else n ∷ place fs m ms)) e i
    | inr e ↦ elim (subst (λ c. In fs k (if c then m ∷ n ∷ ms else n ∷ place fs m ms)) e i) [
      | inl same ↦ inr (inl same)
      | inr later ↦ elim (place_made k m ms later) [ inl new ↦ inl new | inr old ↦ inr (inr old) ]
    ]
  ]

  place_kept :
      (k m : Mount fs) (ms : List (Mount fs)) → (m ≡ k) ⊎ In fs k ms → In fs k (place fs m ms)
  unfolding place
  place_kept k m [] i = i
  place_kept k m (n ∷ ms) i = elim (Bool-cases (ltb (length n.0) (length m.0))) [
    | inl e ↦ rw e i
    | inr e ↦ rw e (elim i [
      | inl new ↦ inr (place_kept k m ms (inl new))
      | inr (inl same) ↦ inl same
      | inr (inr old) ↦ inr (place_kept k m ms (inr old))
    ])
  ]

  at_other : (mp p : Text) → bytes_eq p mp ≡ false → p ≢ mp
  at_other mp p h e = let same = (bytes_eq_iff p mp).1 e in ground (arith, h, same)

  without_kept :
      (k : Mount fs) (mp : Text) (ms : List (Mount fs))
      → In fs k ms
      → k.0 ≢ mp
      → In fs k (without fs mp ms)
  unfolding without
  without_kept k mp [] i ne = i
  without_kept k mp ((p, f) ∷ ms) i ne = elim (Bool-cases (bytes_eq p mp)) [
    | inl e ↦ rw e (elim i [
      | inl same ↦ absurd (ne (ap (λ (x : Mount fs). x.0) (sym same) ∙ (bytes_eq_iff p mp).0 e))
      | inr old ↦ without_kept k mp ms old ne
    ])
    | inr e ↦ rw e (elim i [ inl same ↦ inl same | inr old ↦ inr (without_kept k mp ms old ne) ])
  ]

  without_left :
      (k : Mount fs) (mp : Text) (ms : List (Mount fs))
      → In fs k (without fs mp ms)
      → In fs k ms × k.0 ≢ mp
  unfolding without
  without_left k mp [] i = elim i [ ]
  without_left k mp ((p, f) ∷ ms) i = elim (Bool-cases (bytes_eq p mp)) [
    | inl e ↦
        let j : In fs k (without fs mp ms) =
          subst (λ c. In fs k (if c then without fs mp ms else (p, f) ∷ without fs mp ms)) e i in
        let (old, ne) = without_left k mp ms j in (inr old, ne)
    | inr e ↦
        elim (subst (λ c. In fs k (if c then without fs mp ms else (p, f) ∷ without fs mp ms)) e
          i) [
            | inl same ↦ (inl same, subst (λ (x : Mount fs). x.0 ≢ mp) same (at_other mp p e))
            | inr later ↦ let (old, ne) = without_left k mp ms later in (inr old, ne)
          ]
  ]

  -- After `mount` the table has the new mount, and the others as before, but for one at its place.
  pub mount-In :
      (path : Text) (f : Filesystem fs) (w : World fs) (k : Mount fs)
      → In fs k (mount fs path f w).mounts
        ↔ (((mount_point path, f) ≡ k) ⊎ (In fs k w.mounts × k.0 ≢ mount_point path))
  unfolding mount
  mount-In path f w k =
      let mp = mount_point path in
      let left = without fs mp w.mounts in
      (
        λ i. elim (place_made k (mp, f) left i) [
          | inl new ↦ inl new
          | inr old ↦ inr (without_left k mp w.mounts old)
        ],
        λ i.
            place_kept k (mp, f) left
              (elim i [
                | inl new ↦ inl new
                | inr (old, ne) ↦ inr (without_kept k mp w.mounts old ne)
              ]),
      )

  other_In :
      (mp : Text) (k : Mount fs) (ms : List (Mount fs))
      → All (IsOther fs mp) ms
      → In fs k ms
      → k.0 ≢ mp
  other_In mp k [] o i = elim i [ ]
  other_In mp k (m ∷ ms) o (inl same) = subst (λ (x : Mount fs). x.0 ≢ mp) same o.0
  other_In mp k (m ∷ ms) o (inr i) = other_In mp k ms o.1 i

  -- What `unmount` finds leaves the others.
  mounted-In :
      (mp : Text) (k : Mount fs) (ms : List (Mount fs)) (f : Filesystem fs) (rest : List (Mount fs))
      → IsSorted fs ms
      → mounted fs mp ms ≡ some (f, rest)
      → In fs k rest ↔ (In fs k ms × k.0 ≢ mp)
  unfolding mounted
  mounted-In mp k [] f rest h e = absurd (cc e)
  mounted-In mp k ((p, g) ∷ ms) f rest h e = elim (Bool-cases (bytes_eq p mp)) [
    | inl same ↦
        let at : p ≡ mp = (bytes_eq_iff p mp).0 same in
        let left : ms ≡ rest = ground (arith, same, e) in
        (
          λ i.
              let j : In fs k ms = subst (In fs k) (sym left) i in
              (inr j, subst (λ t. k.0 ≢ t) at (other_In p k ms h.1 j)),
          λ i. elim i.0 [
            | inl here ↦ absurd (i.1 (ap (λ (x : Mount fs). x.0) (sym here) ∙ at))
            | inr j ↦ subst (In fs k) left j
          ],
        )
    | inr apart ↦ elim (Option-cases (mounted fs mp ms)) [
      | inl n ↦ absurd (ground (arith, apart, n, e))
      | inr ((g', rest'), s) ↦
          let left : (p, g) ∷ rest' ≡ rest = ground (arith, apart, s, e) in
          let ih = mounted-In mp k ms g' rest' h.2 s in
          (
            λ i. elim (subst (In fs k) (sym left) i) [
              | inl here ↦ (inl here, subst (λ (x : Mount fs). x.0 ≢ mp) here (at_other mp p apart))
              | inr j ↦ let (old, ne) = ih.0 j in (inr old, ne)
            ],
            λ i.
                subst (In fs k) left
                  (elim i.0 [ inl here ↦ inl here | inr j ↦ inr (ih.1 (j, i.1)) ]),
          )
    ]
  ]

  -- What an `unmount` owes: where it succeeds, the mount at its place is gone and the others stay, and
  -- where it raises, the table stays.
  abbrev pub IsUnmounted :
      Text → List (Mount fs) → Outcome (VfsError fs) (Unit {0}) × World fs → Type 0
  IsUnmounted mp ms (ok a, w) = (k : Mount fs) → In fs k w.mounts ↔ (In fs k ms × k.0 ≢ mp)
  IsUnmounted mp ms (err e, w) = w.mounts ≡ ms

  removed_lem :
      (mp : Text) (ms : List (Mount fs)) (rest : List (Mount fs))
      (r : Outcome (VfsError fs) (Unit {0}) × World fs)
      → r.1.mounts ≡ ms
      → ((k : Mount fs) → In fs k rest ↔ (In fs k ms × k.0 ≢ mp))
      → IsUnmounted mp ms (continue r (λ _ w. (ok tt, record w { mounts = rest })))
  removed_lem mp ms rest (ok a, w) e h = h
  removed_lem mp ms rest (err x, w) e h = e

  found_lem :
      (path : Text) (o : Option (Filesystem fs × List (Mount fs))) (w : World fs)
      → IsSorted fs w.mounts
      → mounted fs (mount_point path) w.mounts ≡ o
      → IsUnmounted (mount_point path) w.mounts (unmount_found fs path o w)
  unfolding unmount_found
  found_lem path none w h e = refl
  found_lem path (some (f, rest)) w h e =
      removed_lem (mount_point path) w.mounts rest (flush_of fs f.flush w)
        (flush_of-mounts fs f.flush w) (λ k. mounted-In (mount_point path) k w.mounts f rest h e)

  pub unmount-IsUnmounted :
      (path : Text) (w : World fs)
      → IsSorted fs w.mounts
      → IsUnmounted (mount_point path) w.mounts (unmount fs path w)
  unfolding unmount
  unmount-IsUnmounted path w h = found_lem path (mounted fs (mount_point path) w.mounts) w h refl
