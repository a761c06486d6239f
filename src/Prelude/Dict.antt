-- ===== src/Prelude/Dict.antt =====
-- `BTreeMap<String, V>`: an association list with its keys in increasing order.
pub mod Ordered
pub mod Totals
use Prim.Native.String.{String}
use mathlib.Core.Path.{◌≡◌, refl}
use mathlib.Core.Option.{Option, none, some}
use mathlib.Core.List.{List, [], ◌∷◌, map}
use native.Mathlib.Omega.{arith}
use text.Mathlib.Text.{◌==◌ as str_eq}
use text.Mathlib.TextEquality.{eq_iff}
use text.Mathlib.TextPositions.{eq_refl}
use nanoeval.Prelude.Tests.{if◌then◌else◌}
use nanoeval.Prelude.Order.{text_order}

abbrev pub Dict {ℓ} : Type ℓ → Type ℓ
Dict V = List (String × V)

module _ {ℓ} {V : Type ℓ} where
  -- `get`
  unfoldable pub lookup : String → Dict V → Option V
  lookup wanted [] = none
  lookup wanted ((name, found) ∷ later) =
      if str_eq name wanted then some found else lookup wanted later

  -- A new key goes before the first larger one; the value of a key that is there is replaced.
  unfoldable pub insert : String → V → Dict V → Dict V
  insert name new [] = (name, new) ∷ []
  insert name new ((first, old) ∷ later) =
      if str_eq first name
      then (name, new) ∷ later
      else if text_order.le name first
      then (name, new) ∷ (first, old) ∷ later
      else (first, old) ∷ insert name new later

  abbrev pub values : Dict V → List V
  values m = map (λ e. e.1) m

  abbrev pub keys : Dict V → List String
  keys m = map (λ e. e.0) m

  pub lookup-insert :
      (m : Dict V) (name : String) (new : V) (wanted : String)
      → lookup wanted (insert name new m)
        ≡ (if str_eq name wanted then some new else lookup wanted m)
  unfolding lookup insert
  lookup-insert [] name new wanted = refl
  lookup-insert ((first, old) ∷ later) name new wanted = ground (
    arith,
    eq_iff first wanted,
    eq_iff first name,
    eq_iff name wanted,
    lookup-insert later name new wanted,
  )

  pub lookup-insert_self :
      (m : Dict V) (name : String) (new : V) → lookup name (insert name new m) ≡ some new
  lookup-insert_self m name new = simp (lookup-insert, eq_refl)
