-- ===== src/Fs/Vfs/Cover.antt =====
-- When a mount covers a path, and what the path has behind it: the test of the three loops over the mounts.
use pythonos.Prelude.{
  ◌+◌, ◌≡◌, ◌≢◌, ◌∙◌, refl, sym, ap, subst, [], ◌∷◌, ◌++◌, none, some, true, false, Bool-cases, inl,
  inr, ◌==◌, ◌&&◌, length, drop, bytes_eq, bytes_eq_iff, append_assoc, length-append, arith,
}
use pythonos.Prelude.Text.{Text, codes, starts_with}
use pythonos.Fs.Vfs.Defs.{relative}

-- The path `s` is covered by the mount point `mp`, and has `rest` behind it: every path is below the
-- root; another mount point covers itself and what follows it behind a slash.
pub data Behind (mp s rest : Text) : Type 0 where
  at_root : mp ≡ codes "/" → s ≡ b'/' ∷ rest → Behind mp s rest
  itself : mp ≢ codes "/" → s ≡ mp → rest ≡ [] → Behind mp s rest
  below : mp ≢ codes "/" → s ≡ mp ++ b'/' ∷ rest → Behind mp s rest

starts_with-append : (p s : Text) → starts_with p (p ++ s) ≡ true
unfolding starts_with
starts_with-append [] s = refl
starts_with-append (x ∷ p) s =
    let same : (x == x) ≡ true = ground arith in rw (same, starts_with-append p s) refl

starts_with-drop : (p s : Text) → starts_with p s ≡ true → s ≡ p ++ drop (length p) s
unfolding starts_with
starts_with-drop [] s h = refl
starts_with-drop (x ∷ p) [] h = cc
starts_with-drop (x ∷ p) (y ∷ s) h = elim (Bool-cases (y == x)) [
  | inl e ↦
      let same : x ≡ y = ground (arith, e) in
      let rest = starts_with-drop p s (subst (λ c. (c && starts_with p s) ≡ true) e h) in
      ap (λ c. c ∷ s) (sym same) ∙ ap (λ t. x ∷ t) rest
  | inr e ↦ absurd (ground (arith, e, h))
]

text_eq : (s t : Text) → bytes_eq s t ≡ true → s ≡ t
text_eq s t h = (bytes_eq_iff s t).0 h

text_ne : (s t : Text) → bytes_eq s t ≡ false → s ≢ t
text_ne s t h e = let same = (bytes_eq_iff s t).1 e in ground (arith, h, same)

some_eq : (s t : Text) → some s ≡ some t → s ≡ t
some_eq s t h = cc

module _ (mp p : Text) where
  pub relative-Behind :
      (rest : Text) → relative mp (b'/' ∷ p) ≡ some rest → Behind mp (b'/' ∷ p) rest
  unfolding relative
  relative-Behind rest h = elim (Bool-cases (bytes_eq mp (codes "/"))) [
    | inl root ↦
        at_root (text_eq mp (codes "/") root)
          (ap (λ t. b'/' ∷ t) (some_eq p rest (ground (arith, root, h))))
    | inr other ↦ elim (Bool-cases (bytes_eq (b'/' ∷ p) mp)) [
      | inl same ↦
          itself (text_ne mp (codes "/") other) (text_eq (b'/' ∷ p) mp same)
            (sym (some_eq [] rest (ground (arith, other, same, h))))
      | inr apart ↦ elim (Bool-cases (starts_with (mp ++ codes "/") (b'/' ∷ p))) [
        | inl under ↦
            let left : drop (length mp + 1) (b'/' ∷ p) ≡ rest =
              some_eq _ rest (ground (arith, other, apart, under, h)) in
            let n : length (mp ++ codes "/") ≡ length mp + 1 = length-append mp (codes "/") in
            below (text_ne mp (codes "/") other) (
              starts_with-drop (mp ++ codes "/") (b'/' ∷ p) under
              ∙ (ap (λ k. (mp ++ codes "/") ++ drop k (b'/' ∷ p)) n
                  ∙ (ap (λ t. (mp ++ codes "/") ++ t) left ∙ append_assoc mp (codes "/") rest)))
        | inr away ↦ absurd (ground (arith, other, apart, away, h))
      ]
    ]
  ]

  pub relative-none : (rest : Text) → relative mp (b'/' ∷ p) ≡ none → Behind mp (b'/' ∷ p) rest → ⊥
  unfolding relative
  relative-none rest h (at_root root e) =
      let there = (bytes_eq_iff mp (codes "/")).1 root in ground (arith, there, h)
  relative-none rest h (itself other e nothing) =
      let there = (bytes_eq_iff (b'/' ∷ p) mp).1 e in ground (arith, there, h)
  relative-none rest h (below other e) =
      let there : starts_with (mp ++ codes "/") (b'/' ∷ p) ≡ true =
        ap (starts_with (mp ++ codes "/")) (e ∙ sym (append_assoc mp (codes "/") rest))
        ∙ starts_with-append (mp ++ codes "/") rest in
      ground (arith, there, h)
