-- ===== src/Prelude/Keyed.antt =====
-- Sorting pairs by their first part, a number: `sort_unstable_by_key`. Where two keys are equal the
-- order of their entries is unspecified there; here they keep their order.
use native.Mathlib.Omega.{arith}
use mathlib.Core.Logic.{inr, inl, ◌≢◌}
use mathlib.Core.Path.{refl, ◌∙◌, sym, ◌≡◌, subst}
use nanoeval.Prelude.Lists.{All, All-map}
use mathlib.Core.Option.{some, none, Option}
use nanoeval.Prelude.Distinct.{IsDistinct, IsNew}
use Prim.Native.Nat.{◌≤◌, ℕ}
use nanoeval.Prelude.Tests.{Bool-cases, if◌then◌else◌, leb, leb→le}
use mathlib.Core.List.{[], ◌∷◌, List, Permᴰ, Memᴰ}
use mathlib.Core.List.Permᴰ

-- `sort_unstable_by_key(|(key, ..)| *key)`
abbrev pub place : {A : Type 0} → ℕ × A → List (ℕ × A) → List (ℕ × A)
place a [] = a ∷ []
place a (x ∷ xs) = if leb a.0 x.0 then a ∷ x ∷ xs else x ∷ place a xs

unfoldable pub sort_by_key : {A : Type 0} → List (ℕ × A) → List (ℕ × A)
sort_by_key [] = []
sort_by_key (x ∷ xs) = place x (sort_by_key xs)

place_comm :
    {A : Type 0} (a b : ℕ × A) (xs : List (ℕ × A))
    → a.0 ≢ b.0
    → place a (place b xs) ≡ place b (place a xs)
place_comm a b [] h = ground arith
place_comm a b (x ∷ xs) h = ground (arith, place_comm a b xs)

abbrev pub key : {A : Type 0} → ℕ × A → ℕ
key entry = entry.0

module _ {A : Type 0} where
  pub Permᴰ-IsNew :
      {xs ys : List (ℕ × A)} → Permᴰ xs ys → (z : ℕ × A) → IsNew key z xs → IsNew key z ys
  Permᴰ-IsNew Permᴰ.nil z h = h
  Permᴰ-IsNew (Permᴰ.cons e p) z h = (rw (← e) h.0, Permᴰ-IsNew p z h.1)
  Permᴰ-IsNew (Permᴰ.swap e f) z h = (rw (← f) h.1.0, (rw (← e) h.0, h.1.1))
  Permᴰ-IsNew (Permᴰ.trans p q) z h = Permᴰ-IsNew q z (Permᴰ-IsNew p z h)

  pub Permᴰ-IsDistinct :
      {xs ys : List (ℕ × A)} → Permᴰ xs ys → IsDistinct key xs → IsDistinct key ys
  Permᴰ-IsDistinct Permᴰ.nil h = h
  Permᴰ-IsDistinct (Permᴰ.cons {a} {l₂} e p) h =
      (subst (λ z. IsNew key z l₂) e (Permᴰ-IsNew p a h.0), Permᴰ-IsDistinct p h.1)
  Permᴰ-IsDistinct (Permᴰ.swap {a} {b} {a'} {b'} {l} e f) h = (
    (λ q. h.0.0 (cc (e, f, q)), subst (λ z. IsNew key z l) f h.1.0),
    (subst (λ z. IsNew key z l) e h.0.1, h.1.1),
  )
  Permᴰ-IsDistinct (Permᴰ.trans p q) h = Permᴰ-IsDistinct q (Permᴰ-IsDistinct p h)

  pub sort_by_key_of_Permᴰ :
      {xs ys : List (ℕ × A)} → Permᴰ xs ys → IsDistinct key xs → sort_by_key xs ≡ sort_by_key ys
  unfolding sort_by_key
  sort_by_key_of_Permᴰ Permᴰ.nil h = refl
  sort_by_key_of_Permᴰ (Permᴰ.cons e p) h = cc (e, sort_by_key_of_Permᴰ p h.1)
  sort_by_key_of_Permᴰ (Permᴰ.swap {a} {b} {l} e f) h =
      cc (e, f, place_comm a b (sort_by_key l) (λ q. h.0.0 (sym q)))
  sort_by_key_of_Permᴰ (Permᴰ.trans p q) h =
      sort_by_key_of_Permᴰ p h ∙ sort_by_key_of_Permᴰ q (Permᴰ-IsDistinct p h)

  pub Permᴰ-All : (P : ℕ × A → Type 0) {xs ys : List (ℕ × A)} → Permᴰ xs ys → All P xs → All P ys
  Permᴰ-All P Permᴰ.nil h = h
  Permᴰ-All P (Permᴰ.cons e p) h = (subst P e h.0, Permᴰ-All P p h.1)
  Permᴰ-All P (Permᴰ.swap e f) h = (subst P f h.1.0, (subst P e h.0, h.1.1))
  Permᴰ-All P (Permᴰ.trans p q) h = Permᴰ-All P q (Permᴰ-All P p h)

  place-Permᴰ : (a : ℕ × A) (xs : List (ℕ × A)) → Permᴰ (place a xs) (a ∷ xs)
  place-Permᴰ a [] = Permᴰ.refl _
  place-Permᴰ a (x ∷ xs) = elim (Bool-cases (leb a.0 x.0)) [
    | inl p ↦ rw p (Permᴰ.refl _)
    | inr p ↦ rw p (Permᴰ.trans (Permᴰ.cons refl (place-Permᴰ a xs)) (Permᴰ.swap refl refl))
  ]

  sort_by_key-Permᴰ : (xs : List (ℕ × A)) → Permᴰ (sort_by_key xs) xs
  unfolding sort_by_key
  sort_by_key-Permᴰ [] = Permᴰ.refl _
  sort_by_key-Permᴰ (x ∷ xs) =
      Permᴰ.trans (place-Permᴰ x (sort_by_key xs)) (Permᴰ.cons refl (sort_by_key-Permᴰ xs))

  abbrev IsSorted : List (ℕ × A) → Type 0
  IsSorted [] = Unit
  IsSorted (x ∷ xs) = All (λ y. x.0 ≤ y.0) xs × IsSorted xs

  place-IsSorted : (a : ℕ × A) (xs : List (ℕ × A)) → IsSorted xs → IsSorted (place a xs)
  place-IsSorted a [] h = (tt, tt)
  place-IsSorted a (x ∷ xs) h = elim (Bool-cases (leb a.0 x.0)) [
    | inl p ↦
        let below : a.0 ≤ x.0 = leb→le a.0 x.0 p in
        rw p ((below, All-map (λ y q. omega arith) xs h.0), h)
    | inr p ↦
        let above : x.0 ≤ a.0 = ground arith in
        rw p (
          Permᴰ-All (λ y. x.0 ≤ y.0) (Permᴰ.symm (place-Permᴰ a xs)) (above, h.0),
          place-IsSorted a xs h.1,
        )
  ]

  sort_by_key-IsSorted : (xs : List (ℕ × A)) → IsSorted (sort_by_key xs)
  unfolding sort_by_key
  sort_by_key-IsSorted [] = tt
  sort_by_key-IsSorted (x ∷ xs) = place-IsSorted x (sort_by_key xs) (sort_by_key-IsSorted xs)

  -- `pop()` of a vector: its last element
  abbrev pub last? : List (ℕ × A) → Option (ℕ × A)
  last? [] = none
  last? (x ∷ []) = some x
  last? (x ∷ y ∷ xs) = last? (y ∷ xs)

  last?-Memᴰ : (xs : List (ℕ × A)) (m : ℕ × A) → last? xs ≡ some m → Memᴰ m xs
  last?-Memᴰ [] m e = absurd (cc)
  last?-Memᴰ (x ∷ []) m e = Memᴰ.head (cc)
  last?-Memᴰ (x ∷ y ∷ xs) m e = Memᴰ.tail (last?-Memᴰ (y ∷ xs) m e)

  last?-greatest :
      (xs : List (ℕ × A)) (m : ℕ × A) → IsSorted xs → last? xs ≡ some m → All (λ y. y.0 ≤ m.0) xs
  last?-greatest [] m h e = tt
  last?-greatest (x ∷ []) m h e = (let p : x ≡ m = cc in rw p (omega arith), tt)
  last?-greatest (x ∷ y ∷ xs) m h e =
      let rest = last?-greatest (y ∷ xs) m h.1 e in (omega arith, rest)

  All-Memᴰ : (P : ℕ × A → Type 0) (xs : List (ℕ × A)) {m : ℕ × A} → All P xs → Memᴰ m xs → P m
  All-Memᴰ P [] h m = elim m [ ]
  All-Memᴰ P (x ∷ xs) h (Memᴰ.head e) = subst P (sym e) h.0
  All-Memᴰ P (x ∷ xs) h (Memᴰ.tail m) = All-Memᴰ P xs h.1 m

  -- The last of the sorted entries has what all the entries have, and none has a greater key.
  pub last?-sort_by_key :
      (P : ℕ × A → Type 0) (xs : List (ℕ × A)) (m : ℕ × A)
      → All P xs
      → last? (sort_by_key xs) ≡ some m
      → P m × All (λ y. y.0 ≤ m.0) xs
  last?-sort_by_key P xs m h e =
      let perm = sort_by_key-Permᴰ xs in
      (
        All-Memᴰ P (sort_by_key xs) (Permᴰ-All P (Permᴰ.symm perm) h)
            (last?-Memᴰ (sort_by_key xs) m e),
        Permᴰ-All (λ y. y.0 ≤ m.0) perm
            (last?-greatest (sort_by_key xs) m (sort_by_key-IsSorted xs) e),
      )

  last?-cons : (x : ℕ × A) (xs : List (ℕ × A)) → last? (x ∷ xs) ≢ none
  last?-cons x [] e = cc
  last?-cons x (y ∷ xs) e = last?-cons y xs e

  last?-place : (a : ℕ × A) (xs : List (ℕ × A)) → last? (place a xs) ≢ none
  last?-place a [] = λ e. cc
  last?-place a (x ∷ xs) = elim (Bool-cases (leb a.0 x.0)) [
    | inl p ↦ rw p (last?-cons a (x ∷ xs))
    | inr p ↦ rw p (last?-cons x (place a xs))
  ]

  -- Only no entries have no last entry.
  pub last?-eq-none : (xs : List (ℕ × A)) → last? (sort_by_key xs) ≡ none → xs ≡ []
  unfolding sort_by_key
  last?-eq-none [] e = refl
  last?-eq-none (x ∷ xs) e = absurd (last?-place x (sort_by_key xs) e)
