-- ===== src/Prelude/Dict/Ordered.antt =====
-- Dictionaries with their keys in increasing order: lookups, members, and unions.
use mathlib.Core.Path.{◌≡◌, refl, sym, ◌∙◌, ap, subst}
use mathlib.Core.Logic.{inl, inr}
use mathlib.Core.Bool.{Bool, true, false}
use mathlib.Core.Option.{Option, none, some}
use mathlib.Core.List.{[], ◌∷◌, Memᴰ}
use Prim.Native.String.{String}
use native.Mathlib.Omega.{arith}
use text.Mathlib.Text.{◌==◌ as str_eq}
use text.Mathlib.TextEquality.{eq_iff}
use nanoeval.Prelude.Tests.{Bool-cases, if◌then◌else◌}
use nanoeval.Prelude.Lists.{All, All-map}
use nanoeval.Prelude.Order.{text_order}
use nanoeval.Prelude.Dict.{Dict, lookup, insert, lookup-insert}

-- The second text is the larger one.
abbrev pub IsBelow : String → String → Type 0
IsBelow s t = text_order.le t s ≡ false

IsBelow-ne : (s t : String) → IsBelow s t → str_eq s t ≡ false
IsBelow-ne s t h = elim (Bool-cases (str_eq s t)) [
  | inr apart ↦ apart
  | inl equal ↦
      let same_text : s ≡ t = (eq_iff s t).0 equal in
      let itself : text_order.le s s ≡ true = elim (text_order.total s s) [
        | inl p ↦ p
        | inr p ↦ p
      ] in
      absurd (cc (subst (λ u. text_order.le u s ≡ false) (sym same_text) h))
]

IsBelow-of_le : (s t : String) → text_order.le s t ≡ true → str_eq t s ≡ false → IsBelow s t
IsBelow-of_le s t h apart = elim (Bool-cases (text_order.le t s)) [
  | inr p ↦ p
  | inl p ↦
      let same_text : t ≡ s = text_order.antisym t s p h in absurd (cc ((eq_iff t s).1 same_text))
]

IsBelow-trans : (s t u : String) → IsBelow s t → IsBelow t u → IsBelow s u
IsBelow-trans s t u p q = elim (Bool-cases (text_order.le u s)) [
  | inr r ↦ r
  | inl r ↦ elim (text_order.total s t) [
    | inr back ↦ absurd (cc)
    | inl forth ↦ absurd (cc (text_order.trans u s t r forth))
  ]
]

IsBelow-of_not_le : (s t : String) → text_order.le s t ≡ false → IsBelow t s
IsBelow-of_not_le s t h = h

module _ {V : Type 0} where
  abbrev pub IsOrdered : Dict V → Type 0
  IsOrdered [] = Unit
  IsOrdered ((name, v) ∷ later) =
      All (λ (e : String × V). IsBelow name (e.0)) later × IsOrdered later

  pub All-insert :
      (P : String × V → Type 0) (name : String) (new : V) (m : Dict V)
      → P (name, new)
      → All P m
      → All P (insert name new m)
  unfolding insert
  All-insert P name new [] p h = (p, tt)
  All-insert P name new ((first, old) ∷ later) p h = elim (Bool-cases (str_eq first name)) [
    | inl equal ↦ rw equal (p, h.1)
    | inr apart ↦ elim (Bool-cases (text_order.le name first)) [
      | inl before ↦ rw apart (rw before (p, (h.0, h.1)))
      | inr behind ↦ rw apart (rw behind (h.0, All-insert P name new later p h.1))
    ]
  ]

  pub insert-IsOrdered :
      (name : String) (new : V) (m : Dict V) → IsOrdered m → IsOrdered (insert name new m)
  unfolding insert
  insert-IsOrdered name new [] h = (tt, tt)
  insert-IsOrdered name new ((first, old) ∷ later) h = elim (Bool-cases (str_eq first name)) [
    | inl equal ↦
        let same_name : first ≡ name = (eq_iff first name).0 equal in
        rw equal (subst (λ n. All (λ (e : String × V). IsBelow n (e.0)) later) same_name h.0, h.1)
    | inr apart ↦ elim (Bool-cases (text_order.le name first)) [
      | inl before ↦
          let below = IsBelow-of_le name first before apart in
          rw apart (
            rw before (
              (below, All-map (λ e q. IsBelow-trans name first (e.0) below q) later h.0),
              (h.0, h.1),
            ))
      | inr behind ↦ rw apart (
          rw behind (
            All-insert (λ (e : String × V). IsBelow first (e.0)) name new later behind h.0,
            insert-IsOrdered name new later h.1,
          ))
    ]
  ]

  -- A key below all others is not in the dictionary.
  lookup-eq-none :
      (name : String) (m : Dict V)
      → All (λ (e : String × V). IsBelow name (e.0)) m
      → lookup name m ≡ none
  unfolding lookup
  lookup-eq-none name [] h = refl
  lookup-eq-none name ((first, v) ∷ later) h =
      let apart : str_eq first name ≡ false = elim (Bool-cases (str_eq first name)) [
        | inr p ↦ p
        | inl p ↦
            absurd (
              cc (IsBelow-ne name first h.0, (eq_iff name first).1 (sym ((eq_iff first name).0 p))))
      ] in
      rw apart (lookup-eq-none name later h.1)

  -- A key that belongs before the first one is not in the dictionary.
  pub lookup_before :
      (name first : String) (m : Dict V)
      → text_order.le name first ≡ true
      → str_eq first name ≡ false
      → All (λ (e : String × V). IsBelow first (e.0)) m
      → lookup name m ≡ none
  lookup_before name first m before apart h = lookup-eq-none name m (
      All-map (λ e q. IsBelow-trans name first (e.0) (IsBelow-of_le name first before apart) q) m h)

  pub lookup-Memᴰ : (name : String) (v : V) (m : Dict V) → lookup name m ≡ some v → Memᴰ (name, v) m
  unfolding lookup
  lookup-Memᴰ name v [] h = absurd (cc)
  lookup-Memᴰ name v ((first, w) ∷ later) h = elim (Bool-cases (str_eq first name)) [
    | inl equal ↦
        let same_name : first ≡ name = (eq_iff first name).0 equal in
        let same_value : w ≡ v = ground arith in
        Memᴰ.head (λ i. (sym same_name i, sym same_value i))
    | inr apart ↦ Memᴰ.tail (lookup-Memᴰ name v later (ground arith))
  ]

  pub All-Memᴰ : (P : String × V → Type 0) (m : Dict V) (e : String × V) → All P m → Memᴰ e m → P e
  All-Memᴰ P [] e h p = elim p [ ]
  All-Memᴰ P (x ∷ m) e h (Memᴰ.head p) = subst P (sym p) h.0
  All-Memᴰ P (x ∷ m) e h (Memᴰ.tail p) = All-Memᴰ P m e h.1 p

  pub Memᴰ-lookup :
      (name : String) (v : V) (m : Dict V) → IsOrdered m → Memᴰ (name, v) m → lookup name m ≡ some v
  unfolding lookup
  Memᴰ-lookup name v [] o h = elim h [ ]
  Memᴰ-lookup name v ((first, w) ∷ later) o (Memᴰ.head e) =
      let same_name : first ≡ name = sym (ap (λ p. p.0) e) in
      rw ((eq_iff first name).1 same_name) (ap some (sym (ap (λ p. p.1) e)))
  Memᴰ-lookup name v ((first, w) ∷ later) o (Memᴰ.tail h) =
      let below : IsBelow first name =
        All-Memᴰ (λ (e : String × V). IsBelow first (e.0)) later (name, v) o.0 h in
      rw (IsBelow-ne first name below) (Memᴰ-lookup name v later o.1 h)

  -- `for (name, v) in added { m.insert(name, v) }`
  abbrev pub union : Dict V → Dict V → Dict V
  union m [] = m
  union m ((name, v) ∷ later) = union (insert name v m) later

  abbrev pub or_else : Option V → Option V → Option V
  or_else none later = later
  or_else (some v) later = some v

  pub lookup-union :
      (wanted : String) (m added : Dict V)
      → IsOrdered added
      → lookup wanted (union m added) ≡ or_else (lookup wanted added) (lookup wanted m)
  unfolding lookup
  lookup-union wanted m [] o = refl
  lookup-union wanted m ((name, v) ∷ later) o =
      let found = lookup-insert m name v wanted in
      lookup-union wanted (insert name v m) later o.1 ∙ (elim (Bool-cases (str_eq name wanted)) [
        | inl equal ↦
            let missing : lookup wanted later ≡ none =
              subst (λ n. lookup n later ≡ none) ((eq_iff name wanted).0 equal)
                (lookup-eq-none name later o.0) in
            rw equal
              (rw missing (found ∙ ap (λ (b : Bool). if b then some v else lookup wanted m) equal))
        | inr apart ↦ rw apart (
            ap (or_else (lookup wanted later))
              (found ∙ ap (λ (b : Bool). if b then some v else lookup wanted m) apart))
      ])

  pub union-IsOrdered : (m added : Dict V) → IsOrdered m → IsOrdered (union m added)
  union-IsOrdered m [] h = h
  union-IsOrdered m ((name, v) ∷ later) h =
      union-IsOrdered (insert name v m) later (insert-IsOrdered name v m h)
