-- ===== src/Fs/Ext2/AddRemove.antt =====
-- Adding a name to a directory block and removing it again.
use pythonos.Prelude.{
  ◌<◌, ◌≡◌, ◌≢◌, refl, sym, ap, ◌∙◌, subst, List, [], ◌∷◌, ◌++◌, some, inl, inr, ok, length, All,
  arith,
}
use pythonos.Prelude.Bytes.{Bytes}
use pythonos.Fs.Ext2.Dir.{Entry, Removed, insert_entry, remove_entry, block_entries}
use pythonos.Fs.Ext2.Format.{IsDir, block_entries-IsDir}
use pythonos.Fs.Ext2.Insert.{Fits, Inserted}
use pythonos.Fs.Ext2.Adding.{insert_entry-Inserted}
use pythonos.Fs.Ext2.Remove.{Absent, Removal}
use pythonos.Fs.Ext2.Erase.{remove_entry-Removal}

cons_parts : (x y : Entry) (xs ys : List Entry) → x ∷ xs ≡ y ∷ ys → (x ≡ y) × (xs ≡ ys)
cons_parts x y xs ys h = (cc, cc)

-- The first entry with a name is where it is.
first_unique :
    (name : Bytes) (xs xs' ys ys' : List Entry) (e e' : Entry)
    → xs ++ e ∷ ys ≡ xs' ++ e' ∷ ys'
    → Absent name xs
    → Absent name xs'
    → e.name ≡ name
    → e'.name ≡ name
    → (e ≡ e') × (xs ++ ys ≡ xs' ++ ys')
first_unique name [] [] ys ys' e e' h a a' n n' = cons_parts e e' ys ys' h
first_unique name [] (x ∷ xs') ys ys' e e' h a a' n n' =
    let same = (cons_parts e x ys (xs' ++ e' ∷ ys') h).0 in
    absurd (a'.0 (ap (λ e. e.name) (sym same) ∙ n))
first_unique name (x ∷ xs) [] ys ys' e e' h a a' n n' =
    let same = (cons_parts x e' (xs ++ e ∷ ys) ys' h).0 in absurd (a.0 (ap (λ e. e.name) same ∙ n'))
first_unique name (x ∷ xs) (x' ∷ xs') ys ys' e e' h a a' n n' =
    let (head, tail) = cons_parts x x' (xs ++ e ∷ ys) (xs' ++ e' ∷ ys') h in
    let (p, q) = first_unique name xs xs' ys ys' e e' tail a.1 a'.1 n n' in
    (p, ap (λ x. x ∷ (xs ++ ys)) head ∙ ap (λ l. x' ∷ l) q)

All-split : (P : Entry → Type 0) (xs ys : List Entry) → All P (xs ++ ys) → All P xs × All P ys
All-split P [] ys h = (tt, h)
All-split P (x ∷ xs) ys h = let (p, q) = All-split P xs ys h.1 in ((h.0, p), q)

-- What removing the added name gives.
pub record Undone (name : Bytes) (blk' : Bytes) (e : Entry) (es : List Entry) : Type 0 where
  pub removed : Removed
  pub gives : remove_entry name blk' ≡ ok (some removed)
  pub ino_of : removed.ino ≡ e.ino
  pub type_of : removed.file_type ≡ e.file_type
  pub entries : block_entries removed.block ≡ ok es

undone :
    (e : Entry) (blk' : Bytes) (xs ys : List Entry)
    → IsDir blk' (xs ++ e ∷ ys)
    → length blk' < 65536
    → Absent e.name xs
    → Removal (remove_entry e.name blk') e.name (length blk') (xs ++ e ∷ ys)
    → Undone e.name blk' e (xs ++ ys)
unfolding Removal
undone e blk' xs ys d fits clear (inl (nothing, gone)) =
    absurd ((All-split (λ x. x.name ≢ e.name) xs (e ∷ ys) gone).1.0 refl)
undone e blk' xs ys d fits clear (inr t) =
    let (same, others) =
      first_unique e.name xs t.xs ys t.ys e t.e t.split clear t.first refl t.named in
    record {
      removed = t.removed;
      gives = t.gives;
      ino_of = t.ino_of ∙ ap (λ e. e.ino) (sym same);
      type_of = t.type_of ∙ ap (λ e. e.file_type) (sym same);
      entries = block_entries-IsDir t.rest ∙ ap ok (sym others);
    }

module _ (e : Entry) (fits : Fits e) {blk blk' : Bytes} {es : List Entry} (d : IsDir blk es)
    (small : length blk < 65536) (clear : Absent e.name es)
    (added : insert_entry e blk ≡ ok (some blk')) where
  undo_from : Inserted (insert_entry e blk) e blk es → Undone e.name blk' e es
  unfolding Inserted
  undo_from (inl (nothing, no_room)) = absurd (ground (arith, sym nothing ∙ added))
  undo_from (inr (b, xs, ys, o, split, d', size)) =
      let same : b ≡ blk' = ground (arith, sym o ∙ added) in
      let whole : length blk' < 65536 = omega (arith, ap length same, size, small) in
      let row : IsDir blk' (xs ++ e ∷ ys) = subst (λ b. IsDir b (xs ++ e ∷ ys)) same d' in
      let before =
        All-split (λ x. x.name ≢ e.name) xs ys (subst (All (λ x. x.name ≢ e.name)) split clear) in
      subst (Undone e.name blk' e) (sym split)
        (undone e blk' xs ys row whole before.0 (remove_entry-Removal e.name row whole))

  -- An entry that was added to a block without its name is found again by removing its name, and the
  -- entries are then those that were there before.
  pub remove_entry-insert_entry : Undone e.name blk' e es
  remove_entry-insert_entry = undo_from (insert_entry-Inserted e fits d)
