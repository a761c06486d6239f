-- ===== src/Prelude/Sets.antt =====
-- `BTreeSet`: the members in increasing order. The orders of optional values and of triples of
-- texts.
use nanoeval.Prelude.Tests.{Bool-cases, if◌then◌else◌}
use nanoeval.Prelude.Order.{Order, lex_order, text_order}
use mathlib.Core.Path.{◌≡◌, refl, sym, subst}
use mathlib.Core.Logic.{inl, inr}
use mathlib.Core.Option.{Option, none, some}
use mathlib.Core.List.{List, [], ◌∷◌, Memᴰ}
use Prim.Native.String.{String}

-- `insert`
abbrev pub insert_member : {A : Type 0} → Order A → A → List A → List A
insert_member o a [] = a ∷ []
insert_member o a (x ∷ xs) =
    let rest = insert_member o a xs in
    if o.le a x then (if o.le x a then x ∷ xs else a ∷ x ∷ xs) else x ∷ rest

-- `collect` into a set
abbrev pub collect_members : {A : Type 0} → Order A → List A → List A
collect_members o [] = []
collect_members o (x ∷ xs) = insert_member o x (collect_members o xs)

module _ {A : Type 0} (o : Order A) where
  insert_member-itself : (a : A) (xs : List A) → Memᴰ a (insert_member o a xs)
  insert_member-itself a [] = Memᴰ.head refl
  insert_member-itself a (x ∷ xs) = elim (Bool-cases (o.le a x)) [
    | inr above ↦ rw above (Memᴰ.tail (insert_member-itself a xs))
    | inl below ↦ elim (Bool-cases (o.le x a)) [
      | inl back ↦ rw below (rw back (Memᴰ.head (o.antisym a x below back)))
      | inr apart ↦ rw below (rw apart (Memᴰ.head refl))
    ]
  ]

  insert_member-others : (a b : A) (xs : List A) → Memᴰ b xs → Memᴰ b (insert_member o a xs)
  insert_member-others a b [] m = elim m [ ]
  insert_member-others a b (x ∷ xs) m = elim (Bool-cases (o.le a x)) [
    | inr above ↦ rw above (elim m [
      | Memᴰ.head e ↦ Memᴰ.head e
      | Memᴰ.tail later ↦ Memᴰ.tail (insert_member-others a b xs later)
    ])
    | inl below ↦ elim (Bool-cases (o.le x a)) [
      | inl back ↦ rw below (rw back m)
      | inr apart ↦ rw below (rw apart (Memᴰ.tail m))
    ]
  ]

  -- What is collected is in the set.
  pub collect_members-Memᴰ : (x : A) (xs : List A) → Memᴰ x xs → Memᴰ x (collect_members o xs)
  collect_members-Memᴰ x [] m = elim m [ ]
  collect_members-Memᴰ x (y ∷ ys) (Memᴰ.head e) =
      subst (λ z. Memᴰ z (insert_member o y (collect_members o ys))) (sym e)
        (insert_member-itself y (collect_members o ys))
  collect_members-Memᴰ x (y ∷ ys) (Memᴰ.tail m) =
      insert_member-others y x (collect_members o ys) (collect_members-Memᴰ x ys m)

  insert_member-Memᴰ_to : (a b : A) (xs : List A) → Memᴰ b (insert_member o a xs) → Memᴰ b (a ∷ xs)
  insert_member-Memᴰ_to a b [] m = m
  insert_member-Memᴰ_to a b (x ∷ xs) m = elim (Bool-cases (o.le a x)) [
    | inr above ↦ elim (rw above at m) [
      | Memᴰ.head e ↦ Memᴰ.tail (Memᴰ.head e)
      | Memᴰ.tail later ↦ elim (insert_member-Memᴰ_to a b xs later) [
        | Memᴰ.head e ↦ Memᴰ.head e
        | Memᴰ.tail old ↦ Memᴰ.tail (Memᴰ.tail old)
      ]
    ]
    | inl below ↦ elim (Bool-cases (o.le x a)) [
      | inl back ↦ Memᴰ.tail (rw back at (rw below at m))
      | inr apart ↦ rw apart at (rw below at m)
    ]
  ]

  -- What is in the set has been collected.
  pub collect_members-Memᴰ_to : (x : A) (xs : List A) → Memᴰ x (collect_members o xs) → Memᴰ x xs
  collect_members-Memᴰ_to x [] m = elim m [ ]
  collect_members-Memᴰ_to x (y ∷ ys) m = elim (insert_member-Memᴰ_to y x (collect_members o ys) m) [
    | Memᴰ.head e ↦ Memᴰ.head e
    | Memᴰ.tail later ↦ Memᴰ.tail (collect_members-Memᴰ_to x ys later)
  ]

-- the order that a key gives
abbrev pub order_by :
    {A B : Type 0} (f : A → B) → ((a b : A) → f a ≡ f b → a ≡ b) → Order B → Order A
order_by f injective o = record {
  le = λ a b. o.le (f a) (f b);
  total = λ a b. o.total (f a) (f b);
  trans = λ a b c. o.trans (f a) (f b) (f c);
  antisym = λ a b p q. injective a b (o.antisym (f a) (f b) p q);
}

abbrev pub option_key : {A : Type 0} → Option A → List A
option_key none = []
option_key (some a) = a ∷ []

pub option_key_injective : {A : Type 0} (a b : Option A) → option_key a ≡ option_key b → a ≡ b
option_key_injective none none e = refl
option_key_injective none (some b) e = absurd (cc)
option_key_injective (some a) none e = absurd (cc)
option_key_injective (some a) (some b) e = cc

-- nothing comes before every value
abbrev pub option_order : {A : Type 0} → Order A → Order (Option A)
option_order o = order_by option_key option_key_injective (lex_order o)

abbrev pub AgentKey : Type 0
AgentKey = String × Option String × String

abbrev pub agent_key : AgentKey → List (Option String)
agent_key (name, version, model) = some name ∷ version ∷ some model ∷ []

pub agent_key_injective : (a b : AgentKey) → agent_key a ≡ agent_key b → a ≡ b
agent_key_injective (n, v, m) (n', v', m') e = cc

abbrev pub agent_order : Order AgentKey
agent_order = order_by agent_key agent_key_injective (lex_order (option_order text_order))
