-- ===== src/Prelude/Members.antt =====
-- The members of filtered lists and of the keys of a dictionary.
use nanoeval.Prelude.Lists.{filter}
use mathlib.Core.Path.{refl, ◌∙◌, ◌≡◌, sym, ap, subst}
use mathlib.Core.Logic.{inl, inr}
use mathlib.Core.Bool.{Bool, true}
use mathlib.Core.List.{map, List, [], ◌∷◌, Memᴰ}
use Prim.Native.String.{String}
use nanoeval.Prelude.Tests.{Bool-cases, if◌then◌else◌}
use nanoeval.Prelude.Dict.{Dict, keys}

module _ {A : Type 0} (p : A → Bool) where
  pub Memᴰ-filter_to : (x : A) (xs : List A) → Memᴰ x (filter p xs) → Memᴰ x xs × (p x ≡ true)
  Memᴰ-filter_to x [] m = elim m [ ]
  Memᴰ-filter_to x (y ∷ ys) m = elim (Bool-cases (p y)) [
    | inr dropped ↦
        let (listed, good) =
          Memᴰ-filter_to x ys
            (subst (λ (b : Bool). Memᴰ x (if b then y ∷ filter p ys else filter p ys)) dropped m) in
        (Memᴰ.tail listed, good)
    | inl kept ↦
        elim (subst (λ (b : Bool). Memᴰ x (if b then y ∷ filter p ys else filter p ys)) kept m) [
          | Memᴰ.head e ↦ (Memᴰ.head e, ap p e ∙ kept)
          | Memᴰ.tail later ↦
              let (listed, good) = Memᴰ-filter_to x ys later in (Memᴰ.tail listed, good)
        ]
  ]

  pub Memᴰ-filter_from : (x : A) (xs : List A) → Memᴰ x xs → p x ≡ true → Memᴰ x (filter p xs)
  Memᴰ-filter_from x [] m good = elim m [ ]
  Memᴰ-filter_from x (y ∷ ys) (Memᴰ.head e) good =
      let kept : p y ≡ true = ap p (sym e) ∙ good in
      subst (λ (b : Bool). Memᴰ x (if b then y ∷ filter p ys else filter p ys)) (sym kept)
        (Memᴰ.head e)
  Memᴰ-filter_from x (y ∷ ys) (Memᴰ.tail m) good =
      let later = Memᴰ-filter_from x ys m good in
      elim (Bool-cases (p y)) [
        | inl kept ↦
            subst (λ (b : Bool). Memᴰ x (if b then y ∷ filter p ys else filter p ys)) (sym kept)
              (Memᴰ.tail later)
        | inr dropped ↦
            subst (λ (b : Bool). Memᴰ x (if b then y ∷ filter p ys else filter p ys)) (sym dropped)
              later
      ]

module _ {V : Type 0} where
  pub Memᴰ-keys_to : (name : String) (m : Dict V) → Memᴰ name (keys m) → (v : V) × Memᴰ (name, v) m
  Memᴰ-keys_to name [] listed = elim listed [ ]
  Memᴰ-keys_to name ((first, v) ∷ later) (Memᴰ.head e) = (v, Memᴰ.head (λ i. (e i, v)))
  Memᴰ-keys_to name ((first, v) ∷ later) (Memᴰ.tail listed) =
      let (w, there) = Memᴰ-keys_to name later listed in (w, Memᴰ.tail there)

  pub Memᴰ-keys_from : (name : String) (v : V) (m : Dict V) → Memᴰ (name, v) m → Memᴰ name (keys m)
  Memᴰ-keys_from name v [] listed = elim listed [ ]
  Memᴰ-keys_from name v ((first, w) ∷ later) (Memᴰ.head e) = Memᴰ.head (ap (λ q. q.0) e)
  Memᴰ-keys_from name v ((first, w) ∷ later) (Memᴰ.tail listed) =
      Memᴰ.tail (Memᴰ-keys_from name v later listed)

module _ {A B : Type 0} (f : A → B) where
  pub Memᴰ-map_to : (y : B) (xs : List A) → Memᴰ y (map f xs) → (x : A) × Memᴰ x xs × (y ≡ f x)
  Memᴰ-map_to y [] m = elim m [ ]
  Memᴰ-map_to y (x ∷ xs) (Memᴰ.head e) = (x, Memᴰ.head refl, e)
  Memᴰ-map_to y (x ∷ xs) (Memᴰ.tail m) =
      let (z, there, e) = Memᴰ-map_to y xs m in (z, Memᴰ.tail there, e)

  pub Memᴰ-map_from : (x : A) (xs : List A) → Memᴰ x xs → Memᴰ (f x) (map f xs)
  Memᴰ-map_from x [] m = elim m [ ]
  Memᴰ-map_from x (y ∷ ys) (Memᴰ.head e) = Memᴰ.head (ap f e)
  Memᴰ-map_from x (y ∷ ys) (Memᴰ.tail m) = Memᴰ.tail (Memᴰ-map_from x ys m)
