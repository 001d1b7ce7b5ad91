-- ===== src/Prelude/Text.antt =====
-- Text as its code points, with the methods of `str` that paths are cut with.
use Prim.Native.Char.{code}
use Prim.Native.Nat.{ℕ}
use Prim.Native.String.{String}
use mathlib.Core.Bool.{Bool, true, false, ◌&&◌}
use mathlib.Core.List.{List, [], ◌∷◌, ◌++◌}
use pythonos.Prelude.Tests.{◌==◌, if◌then◌else◌}

abbrev pub Text : Type 0
Text = List ℕ

abbrev pub codes : String → Text
codes String.[] = []
codes (String.◌∷◌ c s) = code c ∷ codes s

abbrev pub is_empty {ℓ} : {A : Type ℓ} → List A → Bool
is_empty [] = true
is_empty (x ∷ xs) = false

-- s.lstrip(c)
unfoldable pub lstrip : ℕ → Text → Text
lstrip c [] = []
lstrip c (x ∷ s) = if x == c then lstrip c s else x ∷ s

-- s.rstrip(c)
unfoldable pub rstrip : ℕ → Text → Text
rstrip c [] = []
rstrip c (x ∷ s) = let rest = rstrip c s in if x == c && is_empty rest then [] else x ∷ rest

-- s.strip(c)
unfoldable pub strip : ℕ → Text → Text
unfolding lstrip rstrip
strip c s = rstrip c (lstrip c s)

-- A character before the first piece of a cut text.
unfoldable pub onto_first : ℕ → List Text → List Text
onto_first x [] = (x ∷ []) ∷ []
onto_first x (p ∷ ps) = (x ∷ p) ∷ ps

-- s.split(c)
unfoldable pub split : ℕ → Text → List Text
unfolding onto_first
split c [] = [] ∷ []
split c (x ∷ s) = let rest = split c s in if x == c then [] ∷ rest else onto_first x rest

-- s.startswith(prefix)
unfoldable pub starts_with : Text → Text → Bool
starts_with [] s = true
starts_with (p ∷ ps) [] = false
starts_with (p ∷ ps) (x ∷ s) = x == p && starts_with ps s

-- `[p for p in pieces if p]`
unfoldable pub non_empty : List Text → List Text
non_empty [] = []
non_empty ([] ∷ ps) = non_empty ps
non_empty ((x ∷ p) ∷ ps) = (x ∷ p) ∷ non_empty ps

-- sep.join(pieces)
unfoldable pub join : ℕ → List Text → Text
join c [] = []
join c (p ∷ []) = p
join c (p ∷ q ∷ ps) = p ++ c ∷ join c (q ∷ ps)
