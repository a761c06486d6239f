-- ===== src/Atif/Pairing.antt =====
-- Each result that crates/nanoeval/src/atif.rs keeps stands in the turn of its call.
use nanoeval.Prelude.{
  ℕ, ==_iff, All, All-append, All-map, Bool, Bool-cases, List, Option-cases, Result, String, [],
  any, ap, arith, bind-eq-ok, eq_iff, if◌then◌else◌, inl, inr, ok, refl, some, str_eq, subst, sym,
  true, ◌++◌, ◌==◌, ◌∙◌, ◌∷◌, ◌≡◌, err,
}
use nanoeval.Prelude.Dict.{lookup, lookup-insert}
use nanoeval.Atif.{AtifTurn, AtifObservationResult, AtifToolCall}
use nanoeval.Atif.Turns.{
  update_turn, All-update_turn, IsIncreasing, Turns, turn_at, turn_at-update_turn,
  update_turn-IsIncreasing,
}
use nanoeval.Atif.Events.{
  apply_all, AgentEvent, AtifBuilder, EventKind, ToolCallPayload, ToolResultPayload, apply,
  apply_kind, assistant_message, called, completed, empty_builder, model_call_completed,
  model_call_started, observed, reasoned, reasoning_summary_delta, said, started, tool_call,
  tool_result, unrelated, with_call, with_result, with_session, with_turn, object_arguments,
}

-- There is a call with this identifier.
abbrev pub has_call : String → List AtifToolCall → Bool
has_call id calls = any (λ (c : AtifToolCall). str_eq c.tool_call_id id) calls

-- Each result is the result of a call of the same turn.
abbrev pub IsPaired : AtifTurn → Type 0
IsPaired turn =
    All (λ (o : AtifObservationResult). has_call o.source_call_id turn.tool_calls ≡ true)
      turn.observations

-- The turns are in order and paired, and a call that is known stands in the turn that is noted.
pub record IsSound (builder : AtifBuilder) : Type 0 where
  pub sorted : IsIncreasing builder.turns
  pub paired : All (λ (e : ℕ × AtifTurn). IsPaired (e.1)) builder.turns
  pub known :
      (id : String) (index : ℕ)
      → lookup id builder.tool_turns ≡ some index
      → has_call id (turn_at index builder.turns).tool_calls ≡ true

has_call-append :
    (id : String) (calls more : List AtifToolCall)
    → has_call id calls ≡ true
    → has_call id (calls ++ more) ≡ true
has_call-append id [] more h = absurd (cc)
has_call-append id (c ∷ calls) more h = ground (arith, has_call-append id calls more)

has_call-last :
    (id : String) (calls : List AtifToolCall) (call : AtifToolCall)
    → call.tool_call_id ≡ id
    → has_call id (calls ++ call ∷ []) ≡ true
has_call-last id [] call h = ground (arith, (eq_iff call.tool_call_id id).1 h)
has_call-last id (c ∷ calls) call h = ground (arith, has_call-last id calls call h)

turn_at-IsPaired :
    (index : ℕ) (turns : Turns)
    → All (λ (e : ℕ × AtifTurn). IsPaired (e.1)) turns
    → IsPaired (turn_at index turns)
unfolding turn_at
turn_at-IsPaired index [] a = tt
turn_at-IsPaired index ((first, turn) ∷ later) a = elim (Bool-cases (index == first)) [
  | inl equal ↦ rw (turn_at, equal) a.0
  | inr apart ↦ rw (turn_at, apart) (turn_at-IsPaired index later a.1)
]

kept_calls :
    (index wanted : ℕ) (f : AtifTurn → AtifTurn) (turns : Turns)
    → ((turn : AtifTurn) → (f turn).tool_calls ≡ turn.tool_calls)
    → IsIncreasing turns
    → (turn_at wanted (update_turn index f turns)).tool_calls ≡ (turn_at wanted turns).tool_calls
kept_calls index wanted f turns calls o =
    ap (λ (t : AtifTurn). t.tool_calls) (turn_at-update_turn wanted index f turns o)
    ∙ (elim (Bool-cases (index == wanted)) [
      | inl equal ↦
          let same_index : index ≡ wanted = (==_iff index wanted).0 equal in
          rw equal (calls (turn_at index turns) ∙ ap (λ i. (turn_at i turns).tool_calls) same_index)
      | inr apart ↦ rw apart refl
    ])

called_known :
    (payload : ToolCallPayload) (arguments : String) (builder : AtifBuilder)
    → IsSound builder
    → (id : String) (wanted : ℕ)
    → (if str_eq payload.call_id id
        then some payload.model_call_index
        else lookup id builder.tool_turns)
      ≡ some wanted
    → has_call id
        (turn_at wanted (
          update_turn payload.model_call_index (called payload arguments) builder.turns)).tool_calls
      ≡ true
called_known payload arguments builder h id wanted found =
    let index = payload.model_call_index in
    let turns = builder.turns in
    let changed = turn_at-update_turn wanted index (called payload arguments) turns h.sorted in
    rw changed (elim (Bool-cases (str_eq payload.call_id id)) [
      | inl equal ↦
          let same_index : index ≡ wanted = cc (rw equal at found) in
          rw ((==_iff index wanted).1 same_index) (
            has_call-last id (turn_at index turns).tool_calls _
              ((eq_iff payload.call_id id).0 equal))
      | inr apart ↦
          let before = h.known id wanted (rw apart at found) in
          elim (Bool-cases (index == wanted)) [
            | inr other_turn ↦ rw other_turn before
            | inl same_turn ↦
                let same_index : index ≡ wanted = (==_iff index wanted).0 same_turn in
                rw same_turn (
                  has_call-append id (turn_at index turns).tool_calls _ (
                    subst (λ i. has_call id (turn_at i turns).tool_calls ≡ true) (sym same_index)
                      before))
          ]
    ])

-- A change that keeps the calls and the results keeps all of this.
with_turn-IsSound :
    (index : ℕ) (f : AtifTurn → AtifTurn) (builder : AtifBuilder)
    → ((turn : AtifTurn) → (f turn).tool_calls ≡ turn.tool_calls)
    → (IsPaired (turn_at index builder.turns) → IsPaired (f (turn_at index builder.turns)))
    → IsSound builder
    → IsSound (with_turn index f builder)
with_turn-IsSound index f builder calls pairs h = record {
  sorted = update_turn-IsIncreasing index f builder.turns h.sorted;
  paired =
      All-update_turn (λ (e : ℕ × AtifTurn). IsPaired (e.1)) index f builder.turns h.sorted
        (pairs (turn_at-IsPaired index builder.turns h.paired)) h.paired;
  known = λ id wanted found.
      let same_calls : (turn_at wanted (update_turn index f builder.turns)).tool_calls
          ≡ (turn_at wanted builder.turns).tool_calls =
        kept_calls index wanted f builder.turns calls h.sorted in
      rw same_calls (h.known id wanted found);
}

with_call-IsSound :
    (payload : ToolCallPayload) (arguments : String) (builder : AtifBuilder)
    → IsSound builder
    → IsSound (with_call payload arguments builder)
with_call-IsSound payload arguments builder h =
    let index = payload.model_call_index in
    let turn = turn_at index builder.turns in
    let f = called payload arguments in
    record {
      sorted = update_turn-IsIncreasing index f builder.turns h.sorted;
      paired =
          All-update_turn (λ (e : ℕ × AtifTurn). IsPaired (e.1)) index f builder.turns h.sorted
            (All-map (λ o p. has_call-append o.source_call_id turn.tool_calls _ p) turn.observations
              (turn_at-IsPaired index builder.turns h.paired))
            h.paired;
      known = λ id wanted found.
          called_known payload arguments builder h id wanted
            (sym (lookup-insert builder.tool_turns payload.call_id index id) ∙ found);
    }

with_result-IsSound :
    (payload : ToolResultPayload) (builder : AtifBuilder)
    → IsSound builder
    → IsSound (with_result payload builder)
with_result-IsSound payload builder h =
    elim (Option-cases (lookup payload.call_id builder.tool_turns)) [
      | inl unknown ↦ rw (with_result, unknown) h
      | inr (index, found) ↦
          let turn = turn_at index builder.turns in
          rw (with_result, found)
            (with_turn-IsSound index (observed payload) builder (λ t. refl)
              (λ p.
                All-append
                  (λ (o : AtifObservationResult). has_call o.source_call_id turn.tool_calls ≡ true)
                  turn.observations _ p (h.known payload.call_id index found, tt))
              h)
    ]

module _ {E : Type 0} (from_string : String → Result String E) where
  apply_kind-IsSound :
      (builder : AtifBuilder) (kind : EventKind E) (out : AtifBuilder)
      → apply_kind from_string builder kind ≡ ok out
      → IsSound builder
      → IsSound out
  unfolding apply_kind said completed
  apply_kind-IsSound builder (model_call_started (ok payload)) out e h = subst IsSound (cc e) (
      with_turn-IsSound (payload.0) (started (payload.1) (payload.2)) builder (λ t. refl) (λ p. p)
        h)
  apply_kind-IsSound builder (assistant_message (ok payload)) out e h =
      subst IsSound (cc e)
        (with_turn-IsSound (payload.0) (said (payload.1)) builder (λ t. refl) (λ p. p) h)
  apply_kind-IsSound builder (reasoning_summary_delta (ok payload)) out e h =
      subst IsSound (cc e)
        (with_turn-IsSound (payload.0) (reasoned (payload.1)) builder (λ t. refl) (λ p. p) h)
  apply_kind-IsSound builder (model_call_completed (ok payload)) out e h =
      subst IsSound (cc e)
        (with_turn-IsSound payload.call_index (completed payload) builder (λ t. refl) (λ p. p) h)
  apply_kind-IsSound builder (tool_call (ok payload)) out e h =
      let (arguments, parsed, done) =
        bind-eq-ok {m = object_arguments from_string payload.arguments}
          {f = λ x. ok (with_call payload x builder)} e in
      subst IsSound (cc done) (with_call-IsSound payload arguments builder h)
  apply_kind-IsSound builder (tool_result (ok payload)) out e h =
      subst IsSound (cc e) (with_result-IsSound payload builder h)
  apply_kind-IsSound builder unrelated out e h = subst IsSound (cc e) h
  apply_kind-IsSound builder (model_call_started (err error)) out e h = absurd (cc)
  apply_kind-IsSound builder (assistant_message (err error)) out e h = absurd (cc)
  apply_kind-IsSound builder (reasoning_summary_delta (err error)) out e h = absurd (cc)
  apply_kind-IsSound builder (model_call_completed (err error)) out e h = absurd (cc)
  apply_kind-IsSound builder (tool_call (err error)) out e h = absurd (cc)
  apply_kind-IsSound builder (tool_result (err error)) out e h = absurd (cc)

  with_session-IsSound :
      (request_id : String) (builder : AtifBuilder)
      → IsSound builder
      → IsSound (with_session request_id builder)
  with_session-IsSound request_id builder h = record {
    sorted = h.sorted;
    paired = h.paired;
    known = h.known;
  }

  apply_all-IsSound_from :
      (builder : AtifBuilder) (events : List (AgentEvent E)) (out : AtifBuilder)
      → apply_all from_string builder events ≡ ok out
      → IsSound builder
      → IsSound out
  unfolding apply_all apply
  apply_all-IsSound_from builder [] out e h = subst IsSound (cc e) h
  apply_all-IsSound_from builder (event ∷ events) out e h =
      let (next, good, later) =
        bind-eq-ok {m = apply from_string builder event} {f = λ x. apply_all from_string x events}
          e in
      apply_all-IsSound_from next events out later (
        apply_kind-IsSound (with_session event.request_id builder) event.kind next good
          (with_session-IsSound event.request_id builder h))

  -- Whatever the events of an attempt, as long as they are read, the turns are in the order of their
  -- calls, each result stands in the turn of a call with its identifier, and each call that is known
  -- stands in the turn noted for it.
  pub apply_all-IsSound :
      (events : List (AgentEvent E)) (out : AtifBuilder)
      → apply_all from_string empty_builder events ≡ ok out
      → IsSound out
  unfolding lookup
  apply_all-IsSound events out e =
      apply_all-IsSound_from empty_builder events out e
        (record { sorted = tt; paired = tt; known = λ id index found. absurd (cc) })
