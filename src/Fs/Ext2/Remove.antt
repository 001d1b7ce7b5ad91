-- ===== src/Fs/Ext2/Remove.antt =====
-- Removing a name from a directory block of the format: what the search behind a record does.
use pythonos.Prelude.{
  ℕ, suc, ◌+◌, ◌<◌, ◌≡◌, ◌≢◌, sym, ap, ◌∙◌, subst, List, [], ◌∷◌, ◌++◌, Option, none, some, Bool,
  false, ◌==◌, if◌then◌else◌, inl, inr, ok, Outcome, length, take, drop, All, All-append, arith,
  length-append, append_assoc, ◌⊎◌,
}
use pythonos.Prelude.Bytes.{Bytes}
use pythonos.Fs.Ext2.Fields.{Ext2Error, pack}
use pythonos.Fs.Ext2.Dir.{
  Header, header, Entry, Removed, removed_before, names, remove_after, ◌>>=◌,
}
use pythonos.Fs.Ext2.Format.{
  Head, laid, value_of, with_len, IsDir, header-laid, drop-laid, take-laid,
}

-- No entry has the name.
abbrev pub Absent : Bytes → List Entry → Type 0
Absent name es = All (λ e. e.name ≢ name) es

-- What a search for a name in a block of `size` bytes with the entries `es` gives when it finds it: the
-- first entry with the name, and a block of the format with the others.
pub record Taken (o : Outcome Ext2Error (Option Removed)) (name : Bytes) (size : ℕ)
    (es : List Entry) : Type 0 where
  pub removed : Removed
  pub e : Entry
  pub xs : List Entry
  pub ys : List Entry
  pub gives : o ≡ ok (some removed)
  pub split : es ≡ xs ++ e ∷ ys
  pub first : Absent name xs
  pub named : e.name ≡ name
  pub ino_of : removed.ino ≡ e.ino
  pub type_of : removed.file_type ≡ e.file_type
  pub rest : IsDir removed.block (xs ++ ys)
  pub sized : length removed.block ≡ size

unfoldable pub Removal : Outcome Ext2Error (Option Removed) → Bytes → ℕ → List Entry → Type 0
Removal o name size es = ((o ≡ ok none) × Absent name es) ⊎ Taken o name size es

-- A record at the front, with the entries that it stands for: records behind it may follow, and it may
-- swallow bytes.
pub record Front (h : Head) (body : Bytes) (pre : List Entry) : Type 0 where
  pub size : (value_of h).rec_len ≡ 8 + length body
  pub lay :
      (next : Bytes) (es : List Entry) → IsDir next es → IsDir (laid h (body ++ next)) (pre ++ es)
  pub grow :
      (extra next : Bytes) (es : List Entry)
      → (value_of h).rec_len + length extra < 65536
      → IsDir next es
      → IsDir
          (laid (with_len ((value_of h).rec_len + length extra) h) (body ++ (extra ++ next)))
          (pre ++ es)

module _ (fuel : ℕ) (name : Bytes) (prev : Header) (rest : Bytes) where
  -- The cases of the search on what follows the record at the front.
  unfoldable pub merged : Header → Outcome Ext2Error (Option Removed)
  merged h = do
    blk ← pack 2 4 (prev.rec_len + h.rec_len) rest
    ok (some (record { ino = h.ino; file_type = h.file_type; block = blk }))

  unfoldable pub beyond : Bytes → Header → Outcome Ext2Error (Option Removed)
  beyond next h = do
    m ← remove_after fuel name h next
    ok (removed_before (take prev.rec_len rest) m)

  found_at : Bytes → Header → Outcome Ext2Error (Option Removed)
  found_at next h =
      if h.rec_len == 0 then ok none else if names h next name then merged h else beyond next h

  after : Bytes → Outcome Ext2Error (Option Removed)
  after [] = ok none
  after (x ∷ next) = do h ← header (x ∷ next); found_at (x ∷ next) h

  remove_after_run :
      {next : Bytes}
      → drop prev.rec_len rest ≡ next
      → remove_after (suc fuel) name prev rest ≡ after next
  unfolding remove_after after found_at merged beyond
  remove_after_run e =
      ap (λ d. elim d [ [] ↦ ok none | x ∷ next ↦ do h ← header (x ∷ next); found_at (x ∷ next) h ])
        e

module _ (fuel : ℕ) (name : Bytes) (h : Head) (body : Bytes) (pre : List Entry)
    (front : Front h body pre) where
  -- Nothing follows.
  pub remove_after_end : remove_after (suc fuel) name (value_of h) (laid h (body ++ [])) ≡ ok none
  unfolding after
  remove_after_end =
      remove_after_run fuel name (value_of h) (laid h (body ++ [])) (drop-laid h body [] front.size)

  module _ (g : Head) (c : Bytes) (nonzero : ((value_of g).rec_len == 0) ≡ false) where
    pub remove_after_at :
        {t : Bool}
        → names (value_of g) (laid g c) name ≡ t
        → remove_after (suc fuel) name (value_of h) (laid h (body ++ laid g c)) ≡ (
            if t
            then merged fuel name (value_of h) (laid h (body ++ laid g c)) (value_of g)
            else beyond fuel name (value_of h) (laid h (body ++ laid g c)) (laid g c) (value_of g))
    unfolding after found_at
    remove_after_at t =
        remove_after_run fuel name (value_of h) (laid h (body ++ laid g c))
          (drop-laid h body (laid g c) front.size)
        ∙ (ap (λ o. o >>= found_at fuel name (value_of h) (laid h (body ++ laid g c)) (laid g c))
              (header-laid g c)
            ∙ (ap
                  (λ z.
                    if z
                    then ok none
                    else if names (value_of g) (laid g c) name
                    then merged fuel name (value_of h) (laid h (body ++ laid g c)) (value_of g)
                    else beyond fuel name (value_of h) (laid h (body ++ laid g c)) (laid g c)
                        (value_of g))
                  nonzero
                ∙ ap
                    (λ t.
                      if t
                      then merged fuel name (value_of h) (laid h (body ++ laid g c)) (value_of g)
                      else beyond fuel name (value_of h) (laid h (body ++ laid g c)) (laid g c)
                          (value_of g))
                    t))

    -- A record that does not match is passed over.
    pub Removal-passes :
        (es : List Entry) (size : ℕ)
        → names (value_of g) (laid g c) name ≡ false
        → Absent name pre
        → Removal (remove_after fuel name (value_of g) (laid g c)) name size es
        → Removal
            (remove_after (suc fuel) name (value_of h) (laid h (body ++ laid g c)))
            name
            (8 + length body + size)
            (pre ++ es)
    unfolding Removal beyond removed_before
    Removal-passes es size other clear (inl (nothing, none_of)) = inl (
      remove_after_at other
          ∙ ap
              (λ o. o >>= (λ m.
                ok (removed_before (take (value_of h).rec_len (laid h (body ++ laid g c))) m)))
              nothing,
      All-append (λ e. e.name ≢ name) pre es clear none_of,
    )
    Removal-passes es size other clear (inr t) = inr (record {
      removed = record t.removed { block = laid h (body ++ t.removed.block) };
      e = t.e;
      xs = pre ++ t.xs;
      ys = t.ys;
      gives =
          remove_after_at other
          ∙ (ap
                (λ o. o >>= (λ m.
                  ok (removed_before (take (value_of h).rec_len (laid h (body ++ laid g c))) m)))
                t.gives
              ∙ ap (λ b. ok (some (record t.removed { block = b ++ t.removed.block })))
                  (take-laid h body (laid g c) front.size));
      split = ap (λ l. pre ++ l) t.split ∙ sym (append_assoc pre t.xs (t.e ∷ t.ys));
      first = All-append (λ e. e.name ≢ name) pre t.xs clear t.first;
      named = t.named;
      ino_of = t.ino_of;
      type_of = t.type_of;
      rest =
          subst (IsDir (laid h (body ++ t.removed.block))) (sym (append_assoc pre t.xs t.ys))
            (front.lay t.removed.block (t.xs ++ t.ys) t.rest);
      sized = omega (arith, t.sized, length-append body t.removed.block);
    })
