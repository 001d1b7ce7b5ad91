-- ===== src/Fs/Ext2/Removing.antt =====
-- `_remove_dir_entry` in one block, for every block of the format.
use pythonos.Prelude.{
  ◌+◌, ◌≤◌, ◌<◌, ◌≡◌, ◌≢◌, sym, ap, ◌∙◌, subst, [], ◌∷◌, ◌++◌, Bool, true, false, not, ◌&&◌, ◌==◌,
  length, arith, length-append, append_assoc, bytes_eq, ==_iff, bytes_eq_iff,
}
use pythonos.Prelude.Bytes.{Bytes}
use pythonos.Fs.Ext2.Dir.{Header, names, name_bytes, dirent_size}
use pythonos.Fs.Ext2.Format.{Head, laid, value_of, with_len, IsDir, unused, used, value_of-with_len}
use pythonos.Fs.Ext2.Insert.{entry_with}
use pythonos.Fs.Ext2.Remove.{Front}

pub names_unused : (v : Header) (b name : Bytes) → v.ino ≡ 0 → names v b name ≡ false
unfolding names
names_unused v b name z = ground arith

-- A record in use matches if its name is the one that is looked for.
pub names_used :
    (v : Header) (b found name : Bytes)
    → v.ino ≢ 0
    → v.name_len ≡ length found
    → name_bytes v b ≡ found
    → ((names v b name ≡ true) → found ≡ name) × ((names v b name ≡ false) → found ≢ name)
unfolding names
names_used v b found name nz len e = (
  λ t.
      let last : bytes_eq (name_bytes v b) name ≡ true = ground (arith, t) in
      (bytes_eq_iff found name).0 (subst (λ x. bytes_eq x name ≡ true) e last),
  λ f same.
      let equal : bytes_eq (name_bytes v b) name ≡ true =
        (bytes_eq_iff (name_bytes v b) name).1 (e ∙ same) in
      let long : (v.name_len == length name) ≡ true =
        (==_iff v.name_len (length name)).1 (len ∙ ap length same) in
      let live : (v.ino == 0) ≡ false = ground (arith, nz) in
      all_three (v.ino == 0) (v.name_len == length name) (bytes_eq (name_bytes v b) name) live long
        equal f,
)
  where
    all_three : (a b c : Bool) → a ≡ false → b ≡ true → c ≡ true → (not a && (b && c)) ≡ false → ⊥
    all_three a b c p q r f = ground (arith, p, q, r, f)

-- Records as a front.
pub Front-unused :
    (h : Head) (body : Bytes)
    → (value_of h).ino ≡ 0
    → (value_of h).rec_len ≡ 8 + length body
    → (value_of h).rec_len < 65536
    → Front h body []
Front-unused h body z len small = record {
  size = len;
  lay = λ next es d. unused h body next es z len small d;
  grow = λ extra next es fits d.
      let v = (value_of h).rec_len + length extra in
      let set : (value_of (with_len v h)).rec_len ≡ v = value_of-with_len h v fits in
      subst (λ b. IsDir (laid (with_len v h) b) es) (append_assoc body extra next)
        (unused (with_len v h) (body ++ extra) next es z
          (omega (arith, set, len, length-append body extra)) (omega (arith, set, fits)) d);
}

pub Front-used :
    (h : Head) (name pad : Bytes)
    → (value_of h).ino ≢ 0
    → (value_of h).name_len ≡ length name
    → (value_of h).rec_len ≡ 8 + length (name ++ pad)
    → dirent_size (length name) ≤ (value_of h).rec_len
    → (value_of h).rec_len < 65536
    → Front h (name ++ pad) (entry_with name (value_of h) ∷ [])
Front-used h name pad nz nl len sz small = record {
  size = len;
  lay = λ next es d.
      subst (λ b. IsDir (laid h b) (entry_with name (value_of h) ∷ es))
        (sym (append_assoc name pad next)) (used h name pad next es nz nl len sz small d);
  grow = λ extra next es fits d.
      let v = (value_of h).rec_len + length extra in
      let set : (value_of (with_len v h)).rec_len ≡ v = value_of-with_len h v fits in
      subst (λ b. IsDir (laid (with_len v h) b) (entry_with name (value_of h) ∷ es))
        (ap (λ t. name ++ t) (append_assoc pad extra next)
          ∙ sym (append_assoc name pad (extra ++ next)))
        (used (with_len v h) name (pad ++ extra) next es nz nl
          (omega (
            arith,
            set,
            len,
            length-append name (pad ++ extra),
            length-append pad extra,
            length-append name pad,
          ))
          (omega (arith, set, sz)) (omega (arith, set, fits)) d);
}
