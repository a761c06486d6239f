-- ===== src/Prelude/Lists.antt =====
-- Lists measured and indexed by native numbers, and predicates on lists.
use mathlib.Core.Logic.{◌↔◌, ◌⊎◌, inl, inr}
use Prim.Native.Nat.{ℕ, zero, suc, ◌+◌, ◌*◌, ◌<◌, ◌≤◌}
use mathlib.Core.Path.{subst, sym, ◌≡◌, refl, ap}
use mathlib.Core.Bool.{Bool, true, false, not, ◌||◌, ◌&&◌}
use nanoeval.Prelude.Tests.{if◌then◌else◌}
use mathlib.Core.List.{List, [], ◌∷◌, ◌++◌, map}
use mathlib.Core.Option.{Option, none, some}
use mathlib.Core.List.{Memᴰ}
use native.Mathlib.Omega.{arith}

module _ {ℓ} {A : Type ℓ} where
  abbrev pub length : List A → ℕ
  length [] = 0
  length (x ∷ xs) = suc (length xs)

  abbrev pub get_elem? : List A → ℕ → Option A
  get_elem? [] i = none
  get_elem? (x ∷ xs) zero = some x
  get_elem? (x ∷ xs) (suc i) = get_elem? xs i

  pub length-append : (xs ys : List A) → length (xs ++ ys) ≡ length xs + length ys
  length-append [] ys = omega arith
  length-append (x ∷ xs) ys = omega (arith, length-append xs ys)

  -- Where an index falls in an appended list.
  pub get_elem?-append_left :
      (xs ys : List A) (i : ℕ) → i < length xs → get_elem? (xs ++ ys) i ≡ get_elem? xs i
  get_elem?-append_left [] ys i h = elim h [ ]
  get_elem?-append_left (x ∷ xs) ys zero h = refl
  get_elem?-append_left (x ∷ xs) ys (suc i) h = get_elem?-append_left xs ys i (omega arith)

  pub get_elem?-append_right :
      (xs ys : List A) (i : ℕ) → get_elem? (xs ++ ys) (length xs + i) ≡ get_elem? ys i
  get_elem?-append_right [] ys i = let e : 0 + i ≡ i = omega arith in rw e
  get_elem?-append_right (x ∷ xs) ys i =
      let e : suc (length xs) + i ≡ suc (length xs + i) = omega arith in
      rw e (get_elem?-append_right xs ys i)

module _ {ℓ κ} {A : Type ℓ} {B : Type κ} where
  pub length-map : (f : A → B) (xs : List A) → length (map f xs) ≡ length xs
  length-map f [] = refl
  length-map f (x ∷ xs) = ap suc (length-map f xs)

  abbrev pub flat_map : (A → List B) → List A → List B
  flat_map f [] = []
  flat_map f (x ∷ xs) = f x ++ flat_map f xs

  -- When every piece has the same length, so has the whole.
  pub length-flat_map :
      (f : A → List B) (n : ℕ) (xs : List A)
      → ((a : A) → length (f a) ≡ n)
      → length (flat_map f xs) ≡ length xs * n
  length-flat_map f n [] h = omega arith
  length-flat_map f n (x ∷ xs) h =
      omega (arith, length-append (f x) (flat_map f xs), h x, length-flat_map f n xs h)

  pub get_elem?-map :
      (f : A → B) (xs : List A) (i : ℕ) {a : A}
      → get_elem? xs i ≡ some a
      → get_elem? (map f xs) i ≡ some (f a)
  get_elem?-map f (x ∷ xs) zero h = cc
  get_elem?-map f (x ∷ xs) (suc i) h = get_elem?-map f xs i h
  get_elem?-map f [] i h = cc

pub List-cases {ℓ} :
    {A : Type ℓ} (xs : List A) → (xs ≡ []) ⊎ ((x : A) × (rest : List A) × (xs ≡ x ∷ rest))
List-cases [] = inl refl
List-cases (x ∷ xs) = inr (x, xs, refl)

-- Every item satisfies `P`.
abbrev pub All {ℓ κ} : {Item : Type ℓ} → (Item → Type κ) → List Item → Type κ
All P [] = Unit
All P (item ∷ items) = P item × All P items

pub All-append {ℓ κ} :
    {Item : Type ℓ} (P : Item → Type κ) (front back : List Item)
    → All P front
    → All P back
    → All P (front ++ back)
All-append P [] back _ later = later
All-append P (item ∷ rest) back (here, more) later = (here, All-append P rest back more later)

pub All-append_left {ℓ κ} :
    {Item : Type ℓ} (P : Item → Type κ) (front back : List Item)
    → All P (front ++ back)
    → All P front
All-append_left P [] back h = tt
All-append_left P (item ∷ rest) back h = (h.0, All-append_left P rest back h.1)

pub All-append_right {ℓ κ} :
    {Item : Type ℓ} (P : Item → Type κ) (front back : List Item)
    → All P (front ++ back)
    → All P back
All-append_right P [] back h = h
All-append_right P (item ∷ rest) back h = All-append_right P rest back h.1

module _ {ℓ} {A : Type ℓ} where
  -- `iter().any` and `iter().all`
  abbrev pub any : (A → Bool) → List A → Bool
  any p [] = false
  any p (x ∷ xs) = p x || any p xs

  abbrev pub all : (A → Bool) → List A → Bool
  all p [] = true
  all p (x ∷ xs) = p x && all p xs

module _ {ℓ} {Item : Type ℓ} where
  pub All-map {κ ι} :
      {P : Item → Type κ} {Q : Item → Type ι} (f : (item : Item) → P item → Q item)
      (items : List Item)
      → All P items
      → All Q items
  All-map f [] _ = tt
  All-map f (item ∷ items) (h, hs) = (f item h, All-map f items hs)

  -- What holds of a list holds of an item inside it and of the others, and the other way round.
  pub All-middle {κ} :
      (P : Item → Type κ) (front : List Item) (item : Item) (back : List Item)
      → All P (front ++ item ∷ back) ↔ (P item × All P (front ++ back))
  All-middle P [] item back = (λ h. h, λ h. h)
  All-middle P (first ∷ front) item back =
      let (to, from) = All-middle P front item back in
      (λ h. ((to h.1).0, (h.0, (to h.1).1)), λ h. (h.1.0, from (h.0, h.1.1)))

  pub length-middle :
      (front : List Item) (item : Item) (back : List Item)
      → length (front ++ item ∷ back) ≡ suc (length (front ++ back))
  length-middle [] item back = refl
  length-middle (first ∷ front) item back = ap suc (length-middle front item back)

module _ {A B : Type 0} where
  -- What holds of the concatenation holds of the piece of each item.
  pub All-flat_map :
      (P : B → Type 0) (f : A → List B) (xs : List A) {x : A}
      → All P (flat_map f xs)
      → Memᴰ x xs
      → All P (f x)
  All-flat_map P f [] h m = elim m [ ]
  All-flat_map P f (y ∷ ys) h (Memᴰ.head e) =
      subst (λ z. All P (f z)) (sym e) (All-append_left P (f y) (flat_map f ys) h)
  All-flat_map P f (y ∷ ys) h (Memᴰ.tail m) =
      All-flat_map P f ys (All-append_right P (f y) (flat_map f ys) h) m

module _ {ℓ} {A : Type ℓ} where
  abbrev pub filter : (A → Bool) → List A → List A
  filter p [] = []
  filter p (x ∷ xs) = let rest = filter p xs in if p x then x ∷ rest else rest

  -- What a test keeps and what it drops are together as many.
  pub length-filter-not :
      (p : A → Bool) (xs : List A)
      → length (filter p xs) + length (filter (λ x. not (p x)) xs) ≡ length xs
  length-filter-not p [] = refl
  length-filter-not p (x ∷ xs) = ground (arith, length-filter-not p xs)

module _ {ℓ} {A : Type ℓ} where
  abbrev pub take : ℕ → List A → List A
  take zero xs = []
  take (suc n) [] = []
  take (suc n) (x ∷ xs) = x ∷ take n xs

  pub length-take : (n : ℕ) (xs : List A) → length (take n xs) ≤ n
  length-take zero xs = omega arith
  length-take (suc n) [] = omega arith
  length-take (suc n) (x ∷ xs) = omega (arith, length-take n xs)

  pub All-take {κ} : (P : A → Type κ) (n : ℕ) (xs : List A) → All P xs → All P (take n xs)
  All-take P zero xs h = tt
  All-take P (suc n) [] h = tt
  All-take P (suc n) (x ∷ xs) h = (h.0, All-take P n xs h.1)

module _ {A : Type 0} where
  pub Memᴰ-take : (x : A) (n : ℕ) (xs : List A) → Memᴰ x (take n xs) → Memᴰ x xs
  Memᴰ-take x zero xs m = elim m [ ]
  Memᴰ-take x (suc n) [] m = elim m [ ]
  Memᴰ-take x (suc n) (y ∷ ys) (Memᴰ.head e) = Memᴰ.head e
  Memᴰ-take x (suc n) (y ∷ ys) (Memᴰ.tail m) = Memᴰ.tail (Memᴰ-take x n ys m)
