-- ===== src/Prelude/StableSort.antt =====
-- `sort_by`: sorting by a comparison under which different items may be equal; such items keep their
-- order. And the first item of each key of a list.
use Prim.Native.Nat.{suc, zero, ℕ}
use nanoeval.Prelude.Tests.{Bool-cases, if◌then◌else◌}
use nanoeval.Prelude.Lists.{All, All-map, any, All-take, take}
use nanoeval.Prelude.Distinct.{IsNew, IsDistinct}
use Prim.Native.String.{String}
use mathlib.Core.Path.{◌≡◌, refl, sym, ap, subst, ◌∙◌}
use mathlib.Core.Logic.{◌⊎◌, inl, inr}
use mathlib.Core.Bool.{Bool, true, false}
use mathlib.Core.List.{List, [], ◌∷◌, Permᴰ, Memᴰ}
use mathlib.Core.List.Permᴰ
use native.Mathlib.Omega.{arith}
use text.Mathlib.Text.{◌==◌ as str_eq}
use text.Mathlib.TextEquality.{eq_iff}

module _ {A : Type 0} (le : A → A → Bool) where
  -- before the first item that is not less
  abbrev pub place_before : A → List A → List A
  place_before a [] = a ∷ []
  place_before a (x ∷ xs) = let rest = place_before a xs in if le a x then a ∷ x ∷ xs else x ∷ rest

  unfoldable pub sort_by : List A → List A
  sort_by [] = []
  sort_by (x ∷ xs) = place_before x (sort_by xs)

  abbrev pub IsSortedBy : List A → Type 0
  IsSortedBy [] = Unit
  IsSortedBy (x ∷ xs) = All (λ y. le x y ≡ true) xs × IsSortedBy xs

  place_before-Permᴰ : (a : A) (xs : List A) → Permᴰ (place_before a xs) (a ∷ xs)
  place_before-Permᴰ a [] = Permᴰ.refl _
  place_before-Permᴰ a (x ∷ xs) = elim (Bool-cases (le a x)) [
    | inl p ↦ rw p (Permᴰ.refl _)
    | inr p ↦ rw p (Permᴰ.trans (Permᴰ.cons refl (place_before-Permᴰ a xs)) (Permᴰ.swap refl refl))
  ]

  pub sort_by-Permᴰ : (xs : List A) → Permᴰ (sort_by xs) xs
  unfolding sort_by
  sort_by-Permᴰ [] = Permᴰ.refl _
  sort_by-Permᴰ (x ∷ xs) =
      Permᴰ.trans (place_before-Permᴰ x (sort_by xs)) (Permᴰ.cons refl (sort_by-Permᴰ xs))

  pub All-Permᴰ : (P : A → Type 0) {xs ys : List A} → Permᴰ xs ys → All P xs → All P ys
  All-Permᴰ P Permᴰ.nil h = h
  All-Permᴰ P (Permᴰ.cons e p) h = (subst P e h.0, All-Permᴰ P p h.1)
  All-Permᴰ P (Permᴰ.swap e f) h = (subst P f h.1.0, (subst P e h.0, h.1.1))
  All-Permᴰ P (Permᴰ.trans p q) h = All-Permᴰ P q (All-Permᴰ P p h)

  pub IsSortedBy-take : (n : ℕ) (xs : List A) → IsSortedBy xs → IsSortedBy (take n xs)
  IsSortedBy-take zero xs h = tt
  IsSortedBy-take (suc n) [] h = tt
  IsSortedBy-take (suc n) (x ∷ xs) h =
      (All-take (λ y. le x y ≡ true) n xs h.0, IsSortedBy-take n xs h.1)

  module _ (total : (a b : A) → (le a b ≡ true) ⊎ (le b a ≡ true))
      (trans : (a b c : A) → le a b ≡ true → le b c ≡ true → le a c ≡ true) where
    place_before-IsSortedBy : (a : A) (xs : List A) → IsSortedBy xs → IsSortedBy (place_before a xs)
    place_before-IsSortedBy a [] h = (tt, tt)
    place_before-IsSortedBy a (x ∷ xs) h = elim (Bool-cases (le a x)) [
      | inl p ↦ rw p ((p, All-map (λ y q. trans a x y p q) xs h.0), h)
      | inr p ↦
          let above : le x a ≡ true = elim (total a x) [ inl q ↦ absurd (cc) | inr q ↦ q ] in
          rw p (
            All-Permᴰ (λ y. le x y ≡ true) (Permᴰ.symm (place_before-Permᴰ a xs)) (above, h.0),
            place_before-IsSortedBy a xs h.1,
          )
    ]

    pub sort_by-IsSortedBy : (xs : List A) → IsSortedBy (sort_by xs)
    unfolding sort_by
    sort_by-IsSortedBy [] = tt
    sort_by-IsSortedBy (x ∷ xs) = place_before-IsSortedBy x (sort_by xs) (sort_by-IsSortedBy xs)

pub Memᴰ-Permᴰ : {A : Type 0} {xs ys : List A} {x : A} → Permᴰ xs ys → Memᴰ x xs → Memᴰ x ys
Memᴰ-Permᴰ Permᴰ.nil m = m
Memᴰ-Permᴰ (Permᴰ.cons e p) (Memᴰ.head f) = Memᴰ.head (f ∙ e)
Memᴰ-Permᴰ (Permᴰ.cons e p) (Memᴰ.tail m) = Memᴰ.tail (Memᴰ-Permᴰ p m)
Memᴰ-Permᴰ (Permᴰ.swap e f) (Memᴰ.head g) = Memᴰ.tail (Memᴰ.head (cc))
Memᴰ-Permᴰ (Permᴰ.swap e f) (Memᴰ.tail (Memᴰ.head g)) = Memᴰ.head (cc)
Memᴰ-Permᴰ (Permᴰ.swap e f) (Memᴰ.tail (Memᴰ.tail m)) = Memᴰ.tail (Memᴰ.tail m)
Memᴰ-Permᴰ (Permᴰ.trans p q) m = Memᴰ-Permᴰ q (Memᴰ-Permᴰ p m)

pub All-listed : {A : Type 0} (P : A → Type 0) (xs : List A) (x : A) → All P xs → Memᴰ x xs → P x
All-listed P [] x h m = elim m [ ]
All-listed P (y ∷ ys) x h (Memᴰ.head e) = subst P (sym e) h.0
All-listed P (y ∷ ys) x h (Memᴰ.tail m) = All-listed P ys x h.1 m

-- `filter(|x| seen.insert(key(x)))`: the first item of each key that is not among those seen
unfoldable pub first_of_each : {A : Type 0} → (A → String) → List String → List A → List A
first_of_each key seen [] = []
first_of_each key seen (x ∷ xs) =
    let later = first_of_each key seen xs in
    let rest = first_of_each key (key x ∷ seen) xs in
    if any (λ s. str_eq s (key x)) seen then later else x ∷ rest

module _ {A : Type 0} (key : A → String) where
  first_of_each-unseen :
      (seen : List String) (xs : List A) (x : A)
      → Memᴰ x (first_of_each key seen xs)
      → any (λ s. str_eq s (key x)) seen ≡ false
  unfolding first_of_each
  first_of_each-unseen seen [] x m = elim m [ ]
  first_of_each-unseen seen (y ∷ ys) x m = elim (Bool-cases (any (λ s. str_eq s (key y)) seen)) [
    | inl old ↦ first_of_each-unseen seen ys x (rw (first_of_each, old) at m)
    | inr new ↦ elim (rw (first_of_each, new) at m) [
      | Memᴰ.head e ↦ ap (λ z. any (λ s. str_eq s (key z)) seen) e ∙ new
      | Memᴰ.tail later ↦ ground (arith, first_of_each-unseen (key y ∷ seen) ys x later)
    ]
  ]

  pub first_of_each-Memᴰ :
      (seen : List String) (xs : List A) (x : A) → Memᴰ x (first_of_each key seen xs) → Memᴰ x xs
  unfolding first_of_each
  first_of_each-Memᴰ seen [] x m = m
  first_of_each-Memᴰ seen (y ∷ ys) x m = elim (Bool-cases (any (λ s. str_eq s (key y)) seen)) [
    | inl old ↦ Memᴰ.tail (first_of_each-Memᴰ seen ys x (rw (first_of_each, old) at m))
    | inr new ↦ elim (rw (first_of_each, new) at m) [
      | Memᴰ.head e ↦ Memᴰ.head e
      | Memᴰ.tail later ↦ Memᴰ.tail (first_of_each-Memᴰ (key y ∷ seen) ys x later)
    ]
  ]

  -- In a sorted list, the first of a key is not above the others of the key.
  pub first_of_each-least :
      (le : A → A → Bool)
      → ((a : A) → le a a ≡ true)
      → (seen : List String) (xs : List A) → IsSortedBy le xs
      → (x y : A) → Memᴰ x (first_of_each key seen xs)
      → Memᴰ y xs
      → key y ≡ key x
      → le x y ≡ true
  unfolding first_of_each
  first_of_each-least le itself seen [] o x y m n e = elim n [ ]
  first_of_each-least le itself seen (z ∷ zs) o x y m n e =
      elim (Bool-cases (any (λ s. str_eq s (key z)) seen)) [
        | inl old ↦
            let later = rw (first_of_each, old) at m in
            elim n [
              | Memᴰ.tail there ↦ first_of_each-least le itself seen zs o.1 x y later there e
              | Memᴰ.head f ↦
                  let unseen = first_of_each-unseen seen zs x later in
                  let same_key : key z ≡ key x = ap key (sym f) ∙ e in
                  absurd (cc (unseen, old, ap (λ k. any (λ s. str_eq s k) seen) same_key))
            ]
        | inr new ↦ elim (rw (first_of_each, new) at m) [
          | Memᴰ.head f ↦ elim n [
            | Memᴰ.head g ↦
                subst (λ a. le a y ≡ true) (sym f) (subst (λ b. le z b ≡ true) (sym g) (itself z))
            | Memᴰ.tail there ↦
                subst (λ a. le a y ≡ true) (sym f) (All-listed (λ b. le z b ≡ true) zs y o.0 there)
          ]
          | Memᴰ.tail later ↦ elim n [
            | Memᴰ.tail there ↦
                first_of_each-least le itself (key z ∷ seen) zs o.1 x y later there e
            | Memᴰ.head g ↦
                let unseen = first_of_each-unseen (key z ∷ seen) zs x later in
                let same_key : key z ≡ key x = ap key (sym g) ∙ e in
                absurd (ground (arith, unseen, (eq_iff (key z) (key x)).1 same_key))
          ]
        ]
      ]

  first_of_each-IsNew :
      (seen : List String) (xs : List A) (x : A)
      → any (λ s. str_eq s (key x)) seen ≡ true
      → IsNew key x (first_of_each key seen xs)
  unfolding first_of_each
  first_of_each-IsNew seen [] x h = tt
  first_of_each-IsNew seen (y ∷ ys) x h = elim (Bool-cases (any (λ s. str_eq s (key y)) seen)) [
    | inl old ↦ rw (first_of_each, old) (first_of_each-IsNew seen ys x h)
    | inr new ↦
        rw (first_of_each, new)
          (
            (λ e. absurd (cc (h, new, ap (λ k. any (λ s. str_eq s k) seen) e))),
            first_of_each-IsNew (key y ∷ seen) ys x (ground (arith, h)),
          )
  ]

  pub first_of_each-IsDistinct :
      (seen : List String) (xs : List A) → IsDistinct key (first_of_each key seen xs)
  unfolding first_of_each
  first_of_each-IsDistinct seen [] = tt
  first_of_each-IsDistinct seen (y ∷ ys) = elim (Bool-cases (any (λ s. str_eq s (key y)) seen)) [
    | inl old ↦ rw (first_of_each, old) (first_of_each-IsDistinct seen ys)
    | inr new ↦
        rw (first_of_each, new)
          (
            first_of_each-IsNew (key y ∷ seen) ys y
                (ground (arith, (eq_iff (key y) (key y)).1 refl)),
            first_of_each-IsDistinct (key y ∷ seen) ys,
          )
  ]
