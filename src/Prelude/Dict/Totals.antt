-- ===== src/Prelude/Dict/Totals.antt =====
-- Sums over the values of a dictionary.
use nanoeval.Prelude.Lists.{length}
use nanoeval.Prelude.Tests.{Bool-cases}
use nanoeval.Prelude.Order.{text_order}
use nanoeval.Prelude.Dict.{Dict, lookup, insert}
use nanoeval.Prelude.Dict.Ordered.{IsOrdered, lookup_before}
use Prim.Native.Nat.{ℕ, ◌+◌}
use mathlib.Core.Path.{◌≡◌, refl, ap}
use mathlib.Core.Logic.{inl, inr}
use mathlib.Core.Option.{Option, none, some}
use mathlib.Core.List.{[], ◌∷◌, ◌++◌, List, map}
use Prim.Native.String.{String}
use native.Mathlib.Omega.{arith}
use text.Mathlib.Text.{◌==◌ as str_eq}

-- `iter().map(..).sum()`
abbrev pub sum_of {ℓ} : {A : Type ℓ} → (A → ℕ) → List A → ℕ
sum_of f [] = 0
sum_of f (x ∷ xs) = f x + sum_of f xs

module _ {A : Type 0} where
  pub sum_of-append : (f : A → ℕ) (xs ys : List A) → sum_of f (xs ++ ys) ≡ sum_of f xs + sum_of f ys
  sum_of-append f [] ys = omega arith
  sum_of-append f (x ∷ xs) ys = omega (arith, sum_of-append f xs ys)

  pub sum_of-one : (xs : List A) → sum_of (λ x. 1) xs ≡ length xs
  sum_of-one [] = refl
  sum_of-one (x ∷ xs) = omega (arith, sum_of-one xs)

module _ {V : Type 0} (f : V → ℕ) where
  abbrev pub total : Dict V → ℕ
  total [] = 0
  total ((name, v) ∷ later) = f v + total later

  abbrev pub old_value : Option V → ℕ
  old_value none = 0
  old_value (some v) = f v

  pub sum_of-values : (m : Dict V) → sum_of f (map (λ e. e.1) m) ≡ total m
  sum_of-values [] = refl
  sum_of-values ((name, v) ∷ later) = ap (λ n. f v + n) (sum_of-values later)

  -- An insertion adds the new value and takes the old one away.
  pub total-insert :
      (name : String) (v : V) (m : Dict V)
      → IsOrdered m
      → total (insert name v m) + old_value (lookup name m) ≡ total m + f v
  unfolding insert lookup
  total-insert name v [] o = omega arith
  total-insert name v ((first, w) ∷ later) o = elim (Bool-cases (str_eq first name)) [
    | inl equal ↦ rw equal (omega arith)
    | inr apart ↦ elim (Bool-cases (text_order.le name first)) [
      | inr behind ↦ rw apart (rw behind (omega (arith, total-insert name v later o.1)))
      | inl before ↦
          let missing : lookup name later ≡ none =
            lookup_before name first later before apart o.0 in
          rw apart (rw before (rw missing (omega arith)))
    ]
  ]
