-- ===== src/Fs/PurePath.antt =====
-- tools/stdlib_stubs/pathlib.py: what the file system switch uses of `PurePosixPath`.
use pythonos.Prelude.{
  List, [], ◌∷◌, Option, none, some, Bool, false, ◌&&◌, ◌==◌, if◌then◌else◌, bytes_eq,
}
use pythonos.Prelude.Text.{Text, codes, is_empty, split}

abbrev begins_with_slash : Text → Bool
begins_with_slash [] = false
begins_with_slash (x ∷ s) = x == b'/'

-- `while '//' in s: s = s.replace('//', '/')`.
unfoldable pub collapse : Text → Text
collapse [] = []
collapse (x ∷ s) =
    let rest = collapse s in if x == b'/' && begins_with_slash rest then rest else x ∷ rest

-- The constructor, for one argument.
unfoldable pub pure_path : Text → Text
unfolding collapse
pure_path s = let t = collapse s in if is_empty t then codes "." else t

-- What stands before the last slash.
unfoldable pub before_last : Text → Option Text
before_last [] = none
before_last (x ∷ s) = elim (before_last s) [
  | none ↦ if x == b'/' then some [] else none
  | some p ↦ some (x ∷ p)
]

unfoldable pub parent_of : Option Text → Text
parent_of none = codes "."
parent_of (some []) = codes "/"
parent_of (some (x ∷ p)) = x ∷ p

unfoldable pub parent : Text → Text
unfolding before_last parent_of
parent s = if bytes_eq s (codes "/") then codes "." else parent_of (before_last s)

abbrev pub last_of : Text → List Text → Text
last_of d [] = d
last_of d (p ∷ ps) = last_of p ps

-- `s.rsplit('/', 1)[-1]`.
unfoldable pub name : Text → Text
unfolding split
name s = last_of s (split b'/' s)
