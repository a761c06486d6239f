-- ===== src/Prelude/Order.antt =====
-- Total orders with a Boolean test, the lexicographic order of lists, and the order of texts and
-- paths: what `Ord` is for `String` and `PathBuf` (a path is the list of its components).
use mathlib.Core.Path.{ap₂}
use text.Mathlib.TextEquality.{Char-path}
use nanoeval.Prelude.Tests.{if◌then◌else◌, leb}
use Prim.Native.Nat.{ℕ}
use Prim.Native.Char.{code}
use Prim.Native.String.{String}
use mathlib.Core.Path.{◌≡◌, refl}
use mathlib.Core.Logic.{◌⊎◌, inl, inr}
use mathlib.Core.Bool.{Bool, true, false}
use mathlib.Core.List.{List, [], ◌∷◌}
use native.Mathlib.Omega.{arith}

pub record Order (A : Type 0) : Type 0 where
  pub le : A → A → Bool
  pub total : (a b : A) → (le a b ≡ true) ⊎ (le b a ≡ true)
  pub trans : (a b c : A) → le a b ≡ true → le b c ≡ true → le a c ≡ true
  pub antisym : (a b : A) → le a b ≡ true → le b a ≡ true → a ≡ b

pub leb_total : (a b : ℕ) → (leb a b ≡ true) ⊎ (leb b a ≡ true)
leb_total a b = ground arith

pub leb_trans : (a b c : ℕ) → leb a b ≡ true → leb b c ≡ true → leb a c ≡ true
leb_trans a b c p q = ground arith

pub leb_antisym : (a b : ℕ) → leb a b ≡ true → leb b a ≡ true → a ≡ b
leb_antisym a b p q = ground arith

abbrev pub ℕ_order : Order ℕ
ℕ_order = record { le = leb; total = leb_total; trans = leb_trans; antisym = leb_antisym }

module _ {A : Type 0} (o : Order A) where
  -- Slices and texts compare element by element; a proper prefix is smaller.
  unfoldable pub lex : List A → List A → Bool
  lex [] ys = true
  lex (x ∷ xs) [] = false
  lex (x ∷ xs) (y ∷ ys) =
      let rest = lex xs ys in if o.le x y then (if o.le y x then rest else true) else false

  pub lex_total : (xs ys : List A) → (lex xs ys ≡ true) ⊎ (lex ys xs ≡ true)
  unfolding lex
  lex_total [] ys = inl refl
  lex_total (x ∷ xs) [] = inr refl
  lex_total (x ∷ xs) (y ∷ ys) = ground (arith, o.total x y, lex_total xs ys)

  pub lex_trans : (xs ys zs : List A) → lex xs ys ≡ true → lex ys zs ≡ true → lex xs zs ≡ true
  unfolding lex
  lex_trans [] ys zs p q = refl
  lex_trans (x ∷ xs) [] zs p q = cc
  lex_trans (x ∷ xs) (y ∷ ys) [] p q = cc
  lex_trans (x ∷ xs) (y ∷ ys) (z ∷ zs) p q =
      ground (arith, o.trans x y z, o.trans z x y, o.trans y z x, lex_trans xs ys zs)

  pub lex_antisym : (xs ys : List A) → lex xs ys ≡ true → lex ys xs ≡ true → xs ≡ ys
  unfolding lex
  lex_antisym [] [] p q = refl
  lex_antisym [] (y ∷ ys) p q = cc
  lex_antisym (x ∷ xs) [] p q = cc
  lex_antisym (x ∷ xs) (y ∷ ys) p q = ground (arith, o.antisym x y, lex_antisym xs ys)

  abbrev pub lex_order : Order (List A)
  lex_order = record { le = lex; total = lex_total; trans = lex_trans; antisym = lex_antisym }

-- The code points of a text, in order: for UTF-8 the byte order is the same.
abbrev pub codes : String → List ℕ
codes String.[] = []
codes (String.◌∷◌ c s) = code c ∷ codes s

pub codes_injective : (s t : String) → codes s ≡ codes t → s ≡ t
codes_injective String.[] String.[] e = refl
codes_injective String.[] (String.◌∷◌ d t) e = absurd (cc)
codes_injective (String.◌∷◌ c s) String.[] e = absurd (cc)
codes_injective (String.◌∷◌ c s) (String.◌∷◌ d t) e =
    ap₂ String.◌∷◌ (Char-path c d (cc)) (codes_injective s t (cc))

abbrev pub text_order : Order String
text_order =
    let o = lex_order ℕ_order in
    record {
      le = λ s t. o.le (codes s) (codes t);
      total = λ s t. o.total (codes s) (codes t);
      trans = λ s t u. o.trans (codes s) (codes t) (codes u);
      antisym = λ s t p q. codes_injective s t (o.antisym (codes s) (codes t) p q);
    }

abbrev pub path_order : Order (List String)
path_order = lex_order text_order
