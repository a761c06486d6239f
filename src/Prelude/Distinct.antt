-- ===== src/Prelude/Distinct.antt =====
-- Lists whose items have distinct keys.
use mathlib.Core.Path.{◌≡◌, refl, sym}
use mathlib.Core.Logic.{◌≢◌, ◌↔◌}
use mathlib.Core.Bool.{Bool, true, false}
use mathlib.Core.List.{List, [], ◌∷◌, ◌++◌}
use native.Mathlib.Omega.{arith}
use nanoeval.Prelude.Lists.{any, take}
use Prim.Native.Nat.{ℕ, zero, suc}

-- No item of the list has the key of `x`.
abbrev pub IsNew {ℓ κ} : {A : Type ℓ} {K : Type κ} → (A → K) → A → List A → Type κ
IsNew f x [] = Unit
IsNew f x (y ∷ ys) = (f y ≢ f x) × IsNew f x ys

abbrev pub IsDistinct {ℓ κ} : {A : Type ℓ} {K : Type κ} → (A → K) → List A → Type κ
IsDistinct f [] = Unit
IsDistinct f (x ∷ xs) = IsNew f x xs × IsDistinct f xs

module _ {A K : Type 0} (f : A → K) where
  -- No item of `xs` has the key of an item of `before`.
  abbrev pub IsApart : List A → List A → Type 0
  IsApart before [] = Unit
  IsApart before (x ∷ xs) = IsNew f x before × IsApart before xs

  pub IsNew-append : (x : A) (xs ys : List A) → IsNew f x (xs ++ ys) ↔ (IsNew f x xs × IsNew f x ys)
  IsNew-append x [] ys = (λ h. (tt, h), λ h. h.1)
  IsNew-append x (y ∷ xs) ys =
      let (to, from) = IsNew-append x xs ys in
      (λ h. ((h.0, (to h.1).0), (to h.1).1), λ h. (h.0.0, from (h.0.1, h.1)))

  pub IsApart-nil : (xs : List A) → IsApart [] xs
  IsApart-nil [] = tt
  IsApart-nil (x ∷ xs) = (tt, IsApart-nil xs)

  pub IsApart-concat :
      (before : List A) (x : A) (xs : List A)
      → IsApart (before ++ x ∷ []) xs ↔ (IsApart before xs × IsNew f x xs)
  IsApart-concat before x [] = (λ h. (tt, tt), λ h. tt)
  IsApart-concat before x (y ∷ xs) =
      let (to, from) = IsApart-concat before x xs in
      let (split, join) = IsNew-append y before (x ∷ []) in
      (
        λ h. (((split h.0).0, (to h.1).0), ((λ e. (split h.0).1.0 (sym e)), (to h.1).1)),
        λ h. (join (h.0.0, ((λ e. h.1.0 (sym e)), tt)), from (h.0.1, h.1.1)),
      )

  module _ (eq : A → A → Bool) (eq_lem : (a b : A) → (eq a b ≡ true) ↔ (f a ≡ f b)) where
    pub any-eq-false_iff : (x : A) (xs : List A) → (any (λ y. eq y x) xs ≡ false) ↔ IsNew f x xs
    any-eq-false_iff x [] = (λ h. tt, λ h. refl)
    any-eq-false_iff x (y ∷ ys) = ground (arith, eq_lem y x, any-eq-false_iff x ys)

module _ {A K : Type 0} (f : A → K) where
  IsNew-take : (x : A) (n : ℕ) (xs : List A) → IsNew f x xs → IsNew f x (take n xs)
  IsNew-take x zero xs h = tt
  IsNew-take x (suc n) [] h = tt
  IsNew-take x (suc n) (y ∷ ys) h = (h.0, IsNew-take x n ys h.1)

  pub IsDistinct-take : (n : ℕ) (xs : List A) → IsDistinct f xs → IsDistinct f (take n xs)
  IsDistinct-take zero xs h = tt
  IsDistinct-take (suc n) [] h = tt
  IsDistinct-take (suc n) (x ∷ xs) h = (IsNew-take x n xs h.0, IsDistinct-take n xs h.1)
