-- ===== src/Prelude/Places.antt =====
-- What stands at an index of lists put together, cut and repeated.
use Prim.Native.Nat.{ℕ, zero, suc, ◌+◌, ◌<◌, ◌≤◌}
use mathlib.Core.Path.{◌≡◌, refl, ap}
use mathlib.Core.List.{List, [], ◌∷◌, ◌++◌}
use mathlib.Core.Option.{none, some}
use native.Mathlib.Omega.{arith}
use pythonos.Prelude.Lists.{length, get_elem?, take, drop, replicate}

module _ {ℓ} {A : Type ℓ} where
  pub get_elem?-append_lt :
      (xs ys : List A) (i : ℕ) → i < length xs → get_elem? (xs ++ ys) i ≡ get_elem? xs i
  get_elem?-append_lt [] ys i h = absurd (omega (arith, h))
  get_elem?-append_lt (x ∷ xs) ys zero h = refl
  get_elem?-append_lt (x ∷ xs) ys (suc i) h = get_elem?-append_lt xs ys i (omega (arith, h))

  pub get_elem?-append_ge :
      (xs ys : List A) (i j : ℕ) → i ≡ length xs + j → get_elem? (xs ++ ys) i ≡ get_elem? ys j
  get_elem?-append_ge [] ys i j h = ap (get_elem? ys) (omega (arith, h))
  get_elem?-append_ge (x ∷ xs) ys zero j h = absurd (omega (arith, h))
  get_elem?-append_ge (x ∷ xs) ys (suc i) j h = get_elem?-append_ge xs ys i j (omega (arith, h))

  pub get_elem?-take :
      (n : ℕ) (xs : List A) (i : ℕ) → i < n → get_elem? (take n xs) i ≡ get_elem? xs i
  get_elem?-take zero xs i h = absurd (omega (arith, h))
  get_elem?-take (suc n) [] i h = refl
  get_elem?-take (suc n) (x ∷ xs) zero h = refl
  get_elem?-take (suc n) (x ∷ xs) (suc i) h = get_elem?-take n xs i (omega (arith, h))

  pub get_elem?-drop :
      (n : ℕ) (xs : List A) (i j : ℕ) → j ≡ n + i → get_elem? (drop n xs) i ≡ get_elem? xs j
  get_elem?-drop zero xs i j h = ap (get_elem? xs) (omega (arith, h))
  get_elem?-drop (suc n) [] i j h = refl
  get_elem?-drop (suc n) (x ∷ xs) i zero h = absurd (omega (arith, h))
  get_elem?-drop (suc n) (x ∷ xs) i (suc j) h = get_elem?-drop n xs i j (omega (arith, h))

  pub get_elem?-replicate : (n : ℕ) (v : A) (i : ℕ) → i < n → get_elem? (replicate n v) i ≡ some v
  get_elem?-replicate zero v i h = absurd (omega (arith, h))
  get_elem?-replicate (suc n) v zero h = refl
  get_elem?-replicate (suc n) v (suc i) h = get_elem?-replicate n v i (omega (arith, h))

  pub get_elem?-none : (xs : List A) (i : ℕ) → length xs ≤ i → get_elem? xs i ≡ none
  get_elem?-none [] i h = refl
  get_elem?-none (x ∷ xs) zero h = absurd (omega (arith, h))
  get_elem?-none (x ∷ xs) (suc i) h = get_elem?-none xs i (omega (arith, h))

  pub drop-append_length : (n : ℕ) (xs ys : List A) → n ≡ length xs → drop n (xs ++ ys) ≡ ys
  drop-append_length zero [] ys h = refl
  drop-append_length (suc n) [] ys h = absurd (omega (arith, h))
  drop-append_length zero (x ∷ xs) ys h = absurd (omega (arith, h))
  drop-append_length (suc n) (x ∷ xs) ys h = drop-append_length n xs ys (omega (arith, h))

  pub take-append_length : (xs ys : List A) → take (length xs) (xs ++ ys) ≡ xs
  take-append_length [] ys = refl
  take-append_length (x ∷ xs) ys = ap (λ t. x ∷ t) (take-append_length xs ys)
