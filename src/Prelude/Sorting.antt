-- ===== src/Prelude/Sorting.antt =====
-- Sorting by a total order: what `sort_unstable` returns where equal elements are the same.
use Prim.Native.Nat.{suc}
use nanoeval.Prelude.Lists.{length}
use mathlib.Core.Path.{ap, ◌≡◌, refl, ◌∙◌}
use mathlib.Core.Logic.{∥∥₁_elim, inl, inr, ◌↔◌}
use mathlib.Core.List.{List, [], ◌∷◌, Perm, Permᴰ}
use mathlib.Core.List.Perm
use native.Mathlib.Omega.{arith}
use nanoeval.Prelude.Tests.{Bool-cases, if◌then◌else◌}
use nanoeval.Prelude.Order.{Order}

module _ {A : Type 0} (o : Order A) where
  unfoldable pub insert_sorted : A → List A → List A
  insert_sorted a [] = a ∷ []
  insert_sorted a (x ∷ xs) = if o.le a x then a ∷ x ∷ xs else x ∷ insert_sorted a xs

  unfoldable pub sort : List A → List A
  unfolding insert_sorted
  sort [] = []
  sort (x ∷ xs) = insert_sorted x (sort xs)

  insert_sorted-perm : (a : A) (xs : List A) → Perm (insert_sorted a xs) (a ∷ xs)
  unfolding insert_sorted
  insert_sorted-perm a [] = Perm.refl _
  insert_sorted-perm a (x ∷ xs) = elim (Bool-cases (o.le a x)) [
    | inl p ↦ rw p (Perm.refl _)
    | inr p ↦ rw p (Perm.trans (Perm.cons x (insert_sorted-perm a xs)) (Perm.swap _ _ xs))
  ]

  pub sort-perm : (xs : List A) → Perm (sort xs) xs
  unfolding sort
  sort-perm [] = Perm.refl _
  sort-perm (x ∷ xs) = Perm.trans (insert_sorted-perm x (sort xs)) (Perm.cons x (sort-perm xs))

  length-insert_sorted : (a : A) (xs : List A) → length (insert_sorted a xs) ≡ suc (length xs)
  unfolding insert_sorted
  length-insert_sorted a [] = refl
  length-insert_sorted a (x ∷ xs) = ground (arith, length-insert_sorted a xs)

  pub length-sort : (xs : List A) → length (sort xs) ≡ length xs
  unfolding sort
  length-sort [] = refl
  length-sort (x ∷ xs) = length-insert_sorted x (sort xs) ∙ ap suc (length-sort xs)

  insert_sorted_comm :
      (a b : A) (xs : List A)
      → insert_sorted a (insert_sorted b xs) ≡ insert_sorted b (insert_sorted a xs)
  unfolding insert_sorted
  insert_sorted_comm a b [] = ground (arith, o.total a b, o.antisym a b)
  insert_sorted_comm a b (x ∷ xs) = ground (
    arith,
    o.total a b,
    o.total a x,
    o.total b x,
    o.antisym a b,
    o.trans a b x,
    o.trans b a x,
    o.trans a x b,
    o.trans b x a,
    insert_sorted_comm a b xs,
  )

  sort_of_Permᴰ : {xs ys : List A} → Permᴰ xs ys → sort xs ≡ sort ys
  unfolding sort
  sort_of_Permᴰ Permᴰ.nil = refl
  sort_of_Permᴰ (Permᴰ.cons e p) = cc (e, sort_of_Permᴰ p)
  sort_of_Permᴰ (Permᴰ.swap {a} {b} {l} e f) = cc (e, f, insert_sorted_comm a b (sort l))
  sort_of_Permᴰ (Permᴰ.trans p q) = sort_of_Permᴰ p ∙ sort_of_Permᴰ q

  -- Two lists sort to the same list exactly when they are permutations of one another.
  pub sort-eq_iff_perm : IsSet (List A) → (xs ys : List A) → (sort xs ≡ sort ys) ↔ Perm xs ys
  sort-eq_iff_perm set xs ys = (
    λ e. Perm.trans (Perm.symm (sort-perm xs)) (rw e (sort-perm ys)),
    λ p. ∥∥₁_elim p (set _ _) sort_of_Permᴰ,
  )
