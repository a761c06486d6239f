-- ===== src/Prelude/Paths.antt =====
-- `PathBuf`: a canonical path as the list of its components below the root.
use Prim.Native.String.{String, ◌++◌}
use mathlib.Core.Path.{◌≡◌}
use mathlib.Core.Bool.{Bool, true, false, ◌&&◌}
use mathlib.Core.Logic.{◌↔◌}
use mathlib.Core.List
use mathlib.Core.List.{List, [], ◌∷◌}
use native.Mathlib.Omega.{arith}
use text.Mathlib.Text.{◌==◌ as str_eq}
use text.Mathlib.TextEquality.{eq_iff}

abbrev pub FilePath : Type 0
FilePath = List String

-- `join` with a relative path of one or more components
abbrev pub join : FilePath → FilePath → FilePath
join root relative = List.◌++◌ root relative

unfoldable pub path_eq : FilePath → FilePath → Bool
path_eq [] [] = true
path_eq (a ∷ p) (b ∷ q) = str_eq a b && path_eq p q
path_eq _ _ = false

pub path_eq_iff : (p q : FilePath) → (path_eq p q ≡ true) ↔ (p ≡ q)
unfolding path_eq
path_eq_iff [] [] = ground arith
path_eq_iff [] (b ∷ q) = ground arith
path_eq_iff (a ∷ p) [] = ground arith
path_eq_iff (a ∷ p) (b ∷ q) = ground (arith, eq_iff a b, path_eq_iff p q)

-- `display().to_string()`
unfoldable pub display : FilePath → String
display [] = "/"
display (a ∷ []) = "/" ++ a
display (a ∷ b ∷ p) = ("/" ++ a) ++ display (b ∷ p)
