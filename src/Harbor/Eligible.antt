-- ===== src/Harbor/Eligible.antt =====
-- The values of k for which crates/nanoeval-harbor/src/lib.rs computes pass@k.
use nanoeval.Prelude.Order.{ℕ_order}
use nanoeval.Prelude.Sets.{collect_members-Memᴰ_to, collect_members-Memᴰ}
use mathlib.Core.List.{Memᴰ}
use native.Mathlib.Nat.{pow-suc, mul_assoc}
use nanoeval.Harbor.Passes.{doubles, fives, eligible_k_values}
use nanoeval.Prelude.{
  Bool-cases, arith, inl, inr, leb, leb→le, suc, true, zero, ℕ, ◌*◌, ◌+◌, ◌<◌, ◌^◌, ◌≡◌, ◌≤◌, ap,
  sym, ◌∙◌, List, [], ◌++◌, ◌↔◌, ◌∷◌, ◌⊎◌,
}

abbrev pub IsPower : ℕ → ℕ → ℕ → Type 0
IsPower from k max_k = (j : ℕ) × (k ≡ from * 2 ^ j) × (k ≤ max_k)

abbrev pub IsFive : ℕ → ℕ → ℕ → Type 0
IsFive from k max_k = (j : ℕ) × (k ≡ from + 5 * j) × (k ≤ max_k)

double-pow : (n j : ℕ) → n * 2 ^ suc j ≡ n * 2 * 2 ^ j
double-pow n j =
    let e : 2 ^ suc j ≡ 2 * 2 ^ j = omega (arith, pow-suc 2 j) in
    ap (λ (t : ℕ). n * t) e ∙ sym (mul_assoc n 2 (2 ^ j))

pow-pos : (j : ℕ) → 1 ≤ 2 ^ j
pow-pos zero = omega arith
pow-pos (suc j) = omega (arith, pow-suc 2 j, pow-pos j)

-- A number is at most a double of it.
le-pow : (n j : ℕ) → n ≤ n * 2 ^ j
le-pow n j = grind (arith, pow-pos j)

doubles-to : (fuel from max_k k : ℕ) → Memᴰ k (doubles fuel from max_k) → IsPower from k max_k
unfolding doubles
doubles-to zero from max_k k m = elim m [ ]
doubles-to (suc fuel) from max_k k m = elim (Bool-cases (leb from max_k)) [
  | inr above ↦ elim (rw (above, doubles) at m) [ ]
  | inl below ↦ elim (rw (below, doubles) at m) [
    | Memᴰ.head e ↦ (0, omega arith, rw e (leb→le from max_k below))
    | Memᴰ.tail later ↦
        let (j, e, le) = doubles-to fuel (from * 2) max_k k later in
        (suc j, e ∙ sym (double-pow from j), le)
  ]
]

doubles-from :
    (fuel from max_k j : ℕ)
    → j < fuel
    → 0 < from
    → from * 2 ^ j ≤ max_k
    → Memᴰ (from * 2 ^ j) (doubles fuel from max_k)
unfolding doubles
doubles-from zero from max_k j h p le = absurd (omega arith)
doubles-from (suc fuel) from max_k zero h p le =
    let below : leb from max_k ≡ true = ground arith in
    rw (below, doubles) (Memᴰ.head (omega arith))
doubles-from (suc fuel) from max_k (suc j) h p le =
    let same : from * 2 ^ suc j ≡ (from * 2) * 2 ^ j = double-pow from j in
    let below : leb from max_k ≡ true = ground (arith, le, le-pow from (suc j)) in
    rw same (
      rw (below, doubles)
        (Memᴰ.tail
          (doubles-from fuel (from * 2) max_k j (omega arith) (omega arith) (rw (← same) le))))

fives-to : (fuel from max_k k : ℕ) → Memᴰ k (fives fuel from max_k) → IsFive from k max_k
unfolding fives
fives-to zero from max_k k m = elim m [ ]
fives-to (suc fuel) from max_k k m = elim (Bool-cases (leb from max_k)) [
  | inr above ↦ elim (rw (above, fives) at m) [ ]
  | inl below ↦ elim (rw (below, fives) at m) [
    | Memᴰ.head e ↦ (0, omega arith, rw e (leb→le from max_k below))
    | Memᴰ.tail later ↦
        let (j, e, le) = fives-to fuel (from + 5) max_k k later in (suc j, omega arith, le)
  ]
]

fives-from :
    (fuel from max_k j : ℕ)
    → j < fuel
    → from + 5 * j ≤ max_k
    → Memᴰ (from + 5 * j) (fives fuel from max_k)
unfolding fives
fives-from zero from max_k j h le = absurd (omega arith)
fives-from (suc fuel) from max_k zero h le =
    let below : leb from max_k ≡ true = ground arith in rw (below, fives) (Memᴰ.head (omega arith))
fives-from (suc fuel) from max_k (suc j) h le =
    let same : from + 5 * suc j ≡ (from + 5) + 5 * j = omega arith in
    let below : leb from max_k ≡ true = ground arith in
    rw same (
      rw (below, fives)
        (Memᴰ.tail (fives-from fuel (from + 5) max_k j (omega arith) (omega arith))))

lt-pow : (j : ℕ) → j < 2 ^ j
lt-pow zero = omega arith
lt-pow (suc j) = omega (arith, pow-suc 2 j, lt-pow j)

Memᴰ-append_to : (k : ℕ) (xs ys : List ℕ) → Memᴰ k (xs ++ ys) → Memᴰ k xs ⊎ Memᴰ k ys
Memᴰ-append_to k [] ys m = inr m
Memᴰ-append_to k (x ∷ xs) ys (Memᴰ.head e) = inl (Memᴰ.head e)
Memᴰ-append_to k (x ∷ xs) ys (Memᴰ.tail m) = elim (Memᴰ-append_to k xs ys m) [
  | inl here ↦ inl (Memᴰ.tail here)
  | inr there ↦ inr there
]

Memᴰ-append_left : (k : ℕ) (xs ys : List ℕ) → Memᴰ k xs → Memᴰ k (xs ++ ys)
Memᴰ-append_left k [] ys m = elim m [ ]
Memᴰ-append_left k (x ∷ xs) ys (Memᴰ.head e) = Memᴰ.head e
Memᴰ-append_left k (x ∷ xs) ys (Memᴰ.tail m) = Memᴰ.tail (Memᴰ-append_left k xs ys m)

Memᴰ-append_right : (k : ℕ) (xs ys : List ℕ) → Memᴰ k ys → Memᴰ k (xs ++ ys)
Memᴰ-append_right k [] ys m = m
Memᴰ-append_right k (x ∷ xs) ys m = Memᴰ.tail (Memᴰ-append_right k xs ys m)

abbrev pub IsEligible : ℕ → ℕ → Type 0
IsEligible max_k k = (k ≤ max_k) × (((j : ℕ) × (k ≡ 2 ^ suc j)) ⊎ ((j : ℕ) × (k ≡ 5 * suc j)))

-- The values of k are the powers of two from 2 on and the multiples of five, up to the number of trials.
pub eligible_k_values_lem : (max_k k : ℕ) → Memᴰ k (eligible_k_values max_k) ↔ IsEligible max_k k
unfolding eligible_k_values
eligible_k_values_lem max_k k =
    let powers = doubles (max_k + 1) 2 max_k in
    let multiples = fives (max_k + 1) 5 max_k in
    (
      λ m.
          elim (Memᴰ-append_to k powers multiples
            (collect_members-Memᴰ_to ℕ_order k (powers ++ multiples) m)) [
              | inl power ↦
                  let (j, e, le) = doubles-to (max_k + 1) 2 max_k k power in
                  (le, inl (j, omega (arith, e, pow-suc 2 j)))
              | inr multiple ↦
                  let (j, e, le) = fives-to (max_k + 1) 5 max_k k multiple in
                  (le, inr (j, omega (arith, e)))
            ],
      λ (le, kind). collect_members-Memᴰ ℕ_order k (powers ++ multiples) (elim kind [
        | inl (j, e) ↦
            let same : k ≡ 2 * 2 ^ j = omega (arith, e, pow-suc 2 j) in
            let small : j < max_k + 1 = omega (arith, lt-pow j) in
            Memᴰ-append_left k powers multiples
              (rw same (doubles-from (max_k + 1) 2 max_k j small (omega arith) (rw (← same) le)))
        | inr (j, e) ↦
            let same : k ≡ 5 + 5 * j = omega (arith, e) in
            let small : j < max_k + 1 = omega arith in
            Memᴰ-append_right k powers multiples
              (rw same (fives-from (max_k + 1) 5 max_k j small (rw (← same) le)))
      ]),
    )
