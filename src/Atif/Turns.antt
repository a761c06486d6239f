-- ===== src/Atif/Turns.antt =====
-- `BTreeMap<u32, AtifTurn>`: the turns by the index of their model call, in increasing order.
use nanoeval.Prelude.{
  ℕ, ==_iff, All, All-map, Bool-cases, List, [], arith, if◌then◌else◌, inl, inr, ltb, ltb→lt, refl,
  subst, ◌<◌, ◌==◌, ◌∷◌, ◌≡◌,
}
use nanoeval.Atif.{AtifTurn, empty_turn}

abbrev pub Turns : Type 0
Turns = List (ℕ × AtifTurn)

-- `entry(index).or_default()`, and the change made to it
unfoldable pub update_turn : ℕ → (AtifTurn → AtifTurn) → Turns → Turns
update_turn index f [] = (index, f empty_turn) ∷ []
update_turn index f ((first, turn) ∷ later) =
    let rest = update_turn index f later in
    if index == first
    then (first, f turn) ∷ later
    else if ltb index first
    then (index, f empty_turn) ∷ (first, turn) ∷ later
    else (first, turn) ∷ rest

-- The turn of an index, or an empty one.
unfoldable pub turn_at : ℕ → Turns → AtifTurn
turn_at index [] = empty_turn
turn_at index ((first, turn) ∷ later) =
    let rest = turn_at index later in if index == first then turn else rest

abbrev pub IsIncreasing : Turns → Type 0
IsIncreasing [] = Unit
IsIncreasing (e ∷ later) = All (λ (x : ℕ × AtifTurn). e.0 < x.0) later × IsIncreasing later

-- An index below all the others has no turn.
turn_at-below :
    (index : ℕ) (turns : Turns)
    → All (λ (x : ℕ × AtifTurn). index < x.0) turns
    → turn_at index turns ≡ empty_turn
unfolding turn_at
turn_at-below index [] h = refl
turn_at-below index ((first, turn) ∷ later) h = ground (arith, h.0, turn_at-below index later h.1)

pub All-update_turn :
    (P : ℕ × AtifTurn → Type 0) (index : ℕ) (f : AtifTurn → AtifTurn) (turns : Turns)
    → IsIncreasing turns
    → P (index, f (turn_at index turns))
    → All P turns
    → All P (update_turn index f turns)
unfolding update_turn turn_at
All-update_turn P index f [] o p a = (p, tt)
All-update_turn P index f ((first, turn) ∷ later) o p a = elim (Bool-cases (index == first)) [
  | inl equal ↦
      let same_index : index ≡ first = (==_iff index first).0 equal in
      rw (update_turn, equal) (subst (λ i. P (i, f turn)) same_index (rw equal at p), a.1)
  | inr apart ↦ elim (Bool-cases (ltb index first)) [
    | inl below ↦
        let missing =
          turn_at-below index later
            (All-map (λ x q. omega (arith, ltb→lt index first below, q)) later o.0) in
        rw (update_turn, apart) (rw below (rw missing at rw apart at p, a))
    | inr above ↦
        rw (update_turn, apart)
          (rw above (a.0, All-update_turn P index f later o.1 (rw apart at p) a.1))
  ]
]

pub update_turn-IsIncreasing :
    (index : ℕ) (f : AtifTurn → AtifTurn) (turns : Turns)
    → IsIncreasing turns
    → IsIncreasing (update_turn index f turns)
unfolding update_turn
update_turn-IsIncreasing index f [] o = (tt, tt)
update_turn-IsIncreasing index f ((first, turn) ∷ later) o = elim (Bool-cases (index == first)) [
  | inl equal ↦ rw (update_turn, equal) o
  | inr apart ↦ elim (Bool-cases (ltb index first)) [
    | inl below ↦
        let less = ltb→lt index first below in
        rw (update_turn, apart)
          (rw below ((less, All-map (λ x q. omega (arith, less, q)) later o.0), o))
    | inr above ↦
        let more : first < index = ground arith in
        rw (update_turn, apart)
          (rw above (
            All-update_turn (λ x. first < x.0) index f later o.1 more o.0,
            update_turn-IsIncreasing index f later o.1,
          ))
  ]
]

pub turn_at-update_turn :
    (wanted index : ℕ) (f : AtifTurn → AtifTurn) (turns : Turns)
    → IsIncreasing turns
    → turn_at wanted (update_turn index f turns)
      ≡ (if index == wanted then f (turn_at index turns) else turn_at wanted turns)
unfolding update_turn turn_at
turn_at-update_turn wanted index f [] o = ground arith
turn_at-update_turn wanted index f ((first, turn) ∷ later) o = elim (Bool-cases (ltb index first)) [
  | inl below ↦
      let missing =
        turn_at-below index later
          (All-map (λ x q. omega (arith, ltb→lt index first below, q)) later o.0) in
      ground (arith, below, missing)
  | inr above ↦ ground (arith, above, turn_at-update_turn wanted index f later o.1)
]
