-- ===== src/Fs/Ext2/Bits.antt =====
-- The allocation bitmap of the ext2 driver: its search is first-fit, and setting or clearing an
-- index changes that index alone.
use pythonos.Prelude.{
  ℕ, zero, suc, ◌+◌, ◌*◌, ◌/◌, ◌%◌, ◌<◌, ◌≡◌, ◌≢◌, refl, ap, subst, [], ◌∷◌, Bool, true, false,
  ◌&&◌, ◌||◌, ltb, ◌==◌, if◌then◌else◌, Bool-cases, inl, inr, length, set, get_or, arith, ltb→lt,
  ◌⊎◌,
}
use pythonos.Prelude.Bytes.{Bytes, AreBytes, table_ok, table_ok_at}
use pythonos.Fs.Ext2.Bitmap.{has_bit, with_bit, without_bit, set_at, clear_at, bit_at}

same : Bool → Bool → Bool
same true b = b
same false true = false
same false false = true

same_lem : (a b : Bool) → same a b ≡ true → a ≡ b
unfolding same
same_lem true true h = refl
same_lem true false h = cc
same_lem false true h = cc
same_lem false false h = refl

-- The two updates of a byte: the bits that they leave, and that a byte stays one.
update_ok : ℕ → ℕ → ℕ → Bool
unfolding same has_bit with_bit without_bit
update_ok byte i j =
    same (has_bit j (with_bit i byte)) (i == j || has_bit j byte)
    && (same (has_bit j (without_bit i byte)) (if i == j then false else has_bit j byte)
        && (ltb (with_bit i byte) 256 && ltb (without_bit i byte) 256))

update_table : table_ok (λ v. update_ok (v / 64) (v / 8 % 8) (v % 8)) 16384 ≡ true
unfolding table_ok update_ok
update_table = refl

update_all : (byte i j : ℕ) → byte < 256 → i < 8 → j < 8 → update_ok byte i j ≡ true
update_all byte i j b p q =
    let v : ℕ = byte * 64 + i * 8 + j in
    let run : update_ok (v / 64) (v / 8 % 8) (v % 8) ≡ true =
      table_ok_at (λ v. update_ok (v / 64) (v / 8 % 8) (v % 8)) 16384 v (omega arith)
        update_table in
    let e1 : v / 64 ≡ byte = omega arith in
    let e2 : v / 8 % 8 ≡ i = omega arith in
    let e3 : v % 8 ≡ j = omega arith in
    subst (λ x. update_ok x i j ≡ true) e1
      (subst (λ x. update_ok (v / 64) x j ≡ true) e2
        (subst (λ x. update_ok (v / 64) (v / 8 % 8) x ≡ true) e3 run))

record IsUpdate (byte i j : ℕ) : Type 0 where
  on : has_bit j (with_bit i byte) ≡ (i == j || has_bit j byte)
  off : has_bit j (without_bit i byte) ≡ (if i == j then false else has_bit j byte)
  on_byte : with_bit i byte < 256
  off_byte : without_bit i byte < 256

and_left : (a b : Bool) → (a && b) ≡ true → a ≡ true
and_left a b h = ground arith

and_right : (a b : Bool) → (a && b) ≡ true → b ≡ true
and_right a b h = ground arith

update_lem : (byte i j : ℕ) → byte < 256 → i < 8 → j < 8 → IsUpdate byte i j
unfolding update_ok
update_lem byte i j b p q =
    let h = update_all byte i j b p q in
    let h1 = and_right _ _ h in
    let h2 = and_right _ _ h1 in
    record {
      on = same_lem _ _ (and_left _ _ h);
      off = same_lem _ _ (and_left _ _ h1);
      on_byte = ltb→lt (with_bit i byte) 256 (and_left _ (ltb (without_bit i byte) 256) h2);
      off_byte = ltb→lt (without_bit i byte) 256 (and_right (ltb (with_bit i byte) 256) _ h2);
    }

get_or-set_self : (xs : Bytes) (i v : ℕ) → i < length xs → get_or (set xs i v) i 0 ≡ v
get_or-set_self [] i v h = absurd (omega arith)
get_or-set_self (x ∷ xs) zero v h = refl
get_or-set_self (x ∷ xs) (suc i) v h = get_or-set_self xs i v (omega arith)

get_or-set_ne : (xs : Bytes) (i j v : ℕ) → i ≢ j → get_or (set xs i v) j 0 ≡ get_or xs j 0
get_or-set_ne [] i j v h = refl
get_or-set_ne (x ∷ xs) zero zero v h = absurd (h refl)
get_or-set_ne (x ∷ xs) zero (suc j) v h = refl
get_or-set_ne (x ∷ xs) (suc i) zero v h = refl
get_or-set_ne (x ∷ xs) (suc i) (suc j) v h = get_or-set_ne xs i j v (λ e. h (ap suc e))

get_or_byte : (xs : Bytes) (i : ℕ) → AreBytes xs → get_or xs i 0 < 256
get_or_byte [] i h = omega arith
get_or_byte (x ∷ xs) zero h = h.0
get_or_byte (x ∷ xs) (suc i) h = get_or_byte xs i h.1

AreBytes-set : (xs : Bytes) (i v : ℕ) → AreBytes xs → v < 256 → AreBytes (set xs i v)
AreBytes-set [] i v h p = tt
AreBytes-set (x ∷ xs) zero v h p = (p, h.1)
AreBytes-set (x ∷ xs) (suc i) v h p = (h.0, AreBytes-set xs i v h.1 p)

module _ (bm : Bytes) (bytes : AreBytes bm) (i j : ℕ) where
  at_byte : IsUpdate (get_or bm (i / 8) 0) (i % 8) (j % 8)
  at_byte =
      update_lem (get_or bm (i / 8) 0) (i % 8) (j % 8) (get_or_byte bm (i / 8) bytes) (omega arith)
        (omega arith)

  -- Another byte, or another bit of the same.
  index_split :
      ((i / 8 ≡ j / 8) × ((i % 8 == j % 8) ≡ (i == j))) ⊎ ((i / 8 ≢ j / 8) × ((i == j) ≡ false))
  index_split = elim (Bool-cases (i / 8 == j / 8)) [
    | inl e ↦ inl (ground arith, ground arith)
    | inr n ↦ inr (ground arith, ground arith)
  ]

  pub bit_at-set_at : i / 8 < length bm → bit_at j (set_at i bm) ≡ (i == j || bit_at j bm)
  unfolding bit_at set_at
  bit_at-set_at h = elim index_split [
    | inl (e, same_bit) ↦
        rw (← e, get_or-set_self bm (i / 8) (with_bit (i % 8) (get_or bm (i / 8) 0)) h)
          (rw (← same_bit) at_byte.on)
    | inr (n, other) ↦
        rw (get_or-set_ne bm (i / 8) (j / 8) (with_bit (i % 8) (get_or bm (i / 8) 0)) n, other) refl
  ]

  pub bit_at-clear_at :
      i / 8 < length bm → bit_at j (clear_at i bm) ≡ (if i == j then false else bit_at j bm)
  unfolding bit_at clear_at
  bit_at-clear_at h = elim index_split [
    | inl (e, same_bit) ↦
        rw (← e, get_or-set_self bm (i / 8) (without_bit (i % 8) (get_or bm (i / 8) 0)) h)
          (rw (← same_bit) at_byte.off)
    | inr (n, other) ↦
        rw (get_or-set_ne bm (i / 8) (j / 8) (without_bit (i % 8) (get_or bm (i / 8) 0)) n, other)
          refl
  ]

pub set_at_bytes : (bm : Bytes) (i : ℕ) → AreBytes bm → AreBytes (set_at i bm)
unfolding set_at
set_at_bytes bm i h = AreBytes-set bm (i / 8) _ h (at_byte bm h i i).on_byte

pub clear_at_bytes : (bm : Bytes) (i : ℕ) → AreBytes bm → AreBytes (clear_at i bm)
unfolding clear_at
clear_at_bytes bm i h = AreBytes-set bm (i / 8) _ h (at_byte bm h i i).off_byte
