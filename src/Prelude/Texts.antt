-- ===== src/Prelude/Texts.antt =====
-- What the program asks of a `str`: whether it contains another, and what follows a prefix.
use Prim.Native.String.{String, slice, len}
use mathlib.Core.Bool.{Bool, true, false}
use mathlib.Core.Option.{Option, none, some}
use text.Mathlib.Text.{find?, starts_with}

-- `is_some`
abbrev pub is_present : {A : Type 0} → Option A → Bool
is_present none = false
is_present (some a) = true

-- `contains`
abbrev pub contains : String → String → Bool
contains text needle = is_present (find? text needle)

-- `strip_prefix`
abbrev pub strip_prefix : String → String → Option String
strip_prefix text prefix = elim (starts_with text prefix) [
  | true ↦ some (slice text (len prefix) (len text))
  | false ↦ none
]
