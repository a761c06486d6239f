-- ===== src/Egress/Extending.antt =====
-- Insertions into a dictionary that never change the value of a key.
use nanoeval.Prelude.{
  Bool-cases, String, [], arith, eq_iff, inl, inr, none, some, str_eq, ◌∷◌, ◌≡◌, ◌⊎◌, Bool, ap,
  if◌then◌else◌, subst, sym, ◌∙◌,
}
use nanoeval.Prelude.Dict.{insert, lookup, Dict, lookup-insert, lookup-insert_self}
use mathlib.Core.List.{Memᴰ}
use mathlib.Core.Path.{ap₂}

module _ {V : Type 0} where
  -- The key is new or has the value already.
  abbrev pub IsFree : String → V → Dict V → Type 0
  IsFree name new d = (lookup name d ≡ none) ⊎ (lookup name d ≡ some new)

  -- The larger dictionary has the entries of the smaller one and those of the list, and no others.
  pub record IsExtended (d : Dict V) (added : Dict V) (larger : Dict V) : Type 0 where
    pub keeps : (name : String) (v : V) → lookup name d ≡ some v → lookup name larger ≡ some v
    pub adds : (name : String) (v : V) → Memᴰ (name, v) added → lookup name larger ≡ some v
    pub no_more :
        (name : String) (v : V)
        → lookup name larger ≡ some v
        → (lookup name d ≡ some v) ⊎ Memᴰ (name, v) added

  insert-keeps :
      (d : Dict V) (name : String) (new : V) (wanted : String) (v : V)
      → IsFree name new d
      → lookup wanted d ≡ some v
      → lookup wanted (insert name new d) ≡ some v
  insert-keeps d name new wanted v free h =
      rw (lookup-insert d name new wanted) (elim (Bool-cases (str_eq name wanted)) [
        | inr other ↦ rw other h
        | inl equal ↦
            let same_name : name ≡ wanted = (eq_iff name wanted).0 equal in
            rw equal (elim free [ inl missing ↦ absurd (cc) | inr present ↦ cc ])
      ])

  pub IsExtended-nil : (d : Dict V) → IsExtended d [] d
  IsExtended-nil d = record {
    keeps = λ name v h. h;
    adds = λ name v m. elim m [ ];
    no_more = λ name v h. inl h;
  }

  pub insert-source :
      (d : Dict V) (name : String) (new : V) (wanted : String) (v : V)
      → lookup wanted (insert name new d) ≡ some v
      → (lookup wanted d ≡ some v) ⊎ ((wanted ≡ name) × (v ≡ new))
  insert-source d name new wanted v h =
      let e = lookup-insert d name new wanted in
      elim (Bool-cases (str_eq name wanted)) [
        | inr other ↦ inl (ground (arith, e))
        | inl equal ↦
            let same_name : name ≡ wanted = (eq_iff name wanted).0 equal in
            let replaced : lookup wanted (insert name new d) ≡ some new =
              e ∙ ap (λ (b : Bool). if b then some new else lookup wanted d) equal in
            inr (sym same_name, ground (arith, h, replaced))
      ]

  pub IsExtended-cons :
      (d : Dict V) (name : String) (new : V) (later larger : Dict V)
      → IsFree name new d
      → IsExtended (insert name new d) later larger
      → IsExtended d ((name, new) ∷ later) larger
  IsExtended-cons d name new later larger free h = record {
    keeps = λ wanted v e. h.keeps wanted v (insert-keeps d name new wanted v free e);
    adds = λ wanted v m. elim m [
      | Memᴰ.head e ↦
          subst (λ (entry : String × V). lookup (entry.0) larger ≡ some (entry.1)) (sym e)
            (h.keeps name new (lookup-insert_self d name new))
      | Memᴰ.tail m ↦ h.adds wanted v m
    ];
    no_more = λ wanted v e. elim (h.no_more wanted v e) [
      | inr listed ↦ inr (Memᴰ.tail listed)
      | inl found ↦ elim (insert-source d name new wanted v found) [
        | inl old ↦ inl old
        | inr (same_name, same_value) ↦ inr (Memᴰ.head (ap₂ (λ a b. (a, b)) same_name same_value))
      ]
    ];
  }
