-- ===== src/Prelude/Equality.antt =====
-- Decidable equality of keys, as a Boolean test with its meaning.
use Prim.Native.Nat.{ℕ}
use Prim.Native.String.{String}
use mathlib.Core.Path.{◌≡◌, refl}
use mathlib.Core.Logic.{◌↔◌}
use mathlib.Core.Bool.{Bool, true, false, ◌&&◌}
use mathlib.Core.List.{List, [], ◌∷◌}
use native.Mathlib.Omega.{arith}
use text.Mathlib.Text.{◌==◌ as str_eq}
use text.Mathlib.TextEquality.{eq_iff}
use pythonos.Prelude.Tests.{◌==◌ as nat_eq, ==_iff}

pub record Eq (A : Type 0) : Type 0 where
  pub beq : A → A → Bool
  pub beq_iff : (a b : A) → (beq a b ≡ true) ↔ (a ≡ b)

pub beq_refl : {A : Type 0} ⦃e : Eq A⦄ (a : A) → e.beq a a ≡ true
beq_refl ⦃e⦄ a = (e.beq_iff a a).1 refl

instance abbrev pub Eq-ℕ : Eq ℕ
Eq-ℕ = record { beq = nat_eq; beq_iff = ==_iff }

instance abbrev pub Eq-String : Eq String
Eq-String = record { beq = str_eq; beq_iff = eq_iff }

-- Equality of byte strings.
abbrev pub bytes_eq : List ℕ → List ℕ → Bool
bytes_eq [] [] = true
bytes_eq (x ∷ xs) (y ∷ ys) = nat_eq x y && bytes_eq xs ys
bytes_eq _ _ = false

pub bytes_eq_iff : (a b : List ℕ) → (bytes_eq a b ≡ true) ↔ (a ≡ b)
bytes_eq_iff [] [] = (λ h. refl, λ h. refl)
bytes_eq_iff [] (y ∷ ys) = (λ h. cc, λ h. cc)
bytes_eq_iff (x ∷ xs) [] = (λ h. cc, λ h. cc)
bytes_eq_iff (x ∷ xs) (y ∷ ys) = ground (arith, bytes_eq_iff xs ys)

instance abbrev pub Eq-Bytes : Eq (List ℕ)
Eq-Bytes = record { beq = bytes_eq; beq_iff = bytes_eq_iff }
