-- ===== src/Harbor/Passes.antt =====
-- pass@k of a job, of crates/nanoeval-harbor/src/lib.rs: `compute_harbor_pass_at_k` over the trials of
-- the job's directory. `R` is the type of a reward, `F` that of floating-point numbers.
use nanoeval.Prelude.Dict.Totals.{sum_of}
use Prim.Native.String.{◌++◌ as append_text}
use nanoeval.Harbor.{change_entry, get_or_else}
use nanoeval.Prelude.{
  Bool, List, Option, Result, String, [], err, false, if◌then◌else◌, leb, length, ltb, min, none,
  ok, some, suc, true, zero, ℕ, ◌*◌, ◌++◌, ◌+◌, ◌-◌, ◌>>=◌, ◌^◌, ◌∷◌,
}
use nanoeval.Prelude.Order.{ℕ_order}
use nanoeval.Prelude.Sets.{collect_members}
use nanoeval.Prelude.Dict.{Dict, insert, lookup, values}

pub record HarborPassAtKTrial (R : Type 0) : Type 0 where
  pub task_name : String
  pub source : Option String
  pub agent_name : String
  pub model : Option String
  pub rewards : Option (Dict R)

-- An entry of the directory, with what its results file reads as where it is a directory.
pub record TrialEntry (R E : Type 0) : Type 0 where
  pub is_dir : Result Bool E
  pub trial : Result (Option (HarborPassAtKTrial R)) E

-- `eval_key`
abbrev pub eval_key_of : {R : Type 0} → HarborPassAtKTrial R → String
eval_key_of trial =
    let source = append_text "__" (get_or_else trial.source "adhoc") in
    elim trial.model [
      | none ↦ append_text trial.agent_name source
      | some model ↦ append_text (append_text (append_text trial.agent_name "__") model) source
    ]

-- The powers of two from `k` on, and the multiples of five, up to `max_k`: the rounds of a loop.
unfoldable pub doubles : ℕ → ℕ → ℕ → List ℕ
doubles zero k max_k = []
doubles (suc fuel) k max_k = elim (leb k max_k) [
  | true ↦ k ∷ doubles fuel (k * 2) max_k
  | false ↦ []
]

unfoldable pub fives : ℕ → ℕ → ℕ → List ℕ
fives zero k max_k = []
fives (suc fuel) k max_k = elim (leb k max_k) [ true ↦ k ∷ fives fuel (k + 5) max_k | false ↦ [] ]

unfoldable pub eligible_k_values : ℕ → List ℕ
unfolding doubles fives
eligible_k_values max_k =
    collect_members ℕ_order (doubles (max_k + 1) 2 max_k ++ fives (max_k + 1) 5 max_k)

-- The arithmetic of `f64`.
pub record Arithmetic (F : Type 0) : Type 0 where
  pub of_u32 : ℕ → F
  pub add : F → F → F
  pub minus : F → F → F
  pub times : F → F → F
  pub over : F → F → F

-- `min`
abbrev pub least : {A : Type 0} → List (List A) → Option ℕ
least [] = none
least (xs ∷ later) = some (elim (least later) [ none ↦ length xs | some n ↦ min (length xs) n ])

abbrev pub as_u32 : ℕ → Option ℕ
as_u32 n = if ltb n (2 ^ 32) then some n else none

module _ {F : Type 0} (f64 : Arithmetic F) where
  open f64 use {of_u32, add, minus, times, over}

  -- the fold over `0..k`: `rounds` of them are left
  unfoldable pub failure_probability : ℕ → ℕ → ℕ → ℕ → F → F
  failure_probability zero i n correct product = product
  failure_probability (suc rounds) i n correct product =
      failure_probability rounds (i + 1) n correct
        (over (times product (of_u32 (n - correct - i))) (of_u32 (n - i)))

  unfoldable pub pass_at_k_for_task : ℕ → ℕ → ℕ → F
  unfolding failure_probability
  pass_at_k_for_task n correct k =
      if ltb (n - correct) k
      then of_u32 1
      else minus (of_u32 1) (failure_probability k 0 n correct (of_u32 1))

  abbrev pub add_estimates : ℕ → List (List ℕ) → F → Option F
  add_estimates k [] estimate = some estimate
  add_estimates k (successes ∷ later) estimate = elim (as_u32 (length successes)) [
    | none ↦ none
    | some n ↦
        add_estimates k later (add estimate (pass_at_k_for_task n (sum_of (λ s. s) successes) k))
  ]

  abbrev pub estimate_all : ℕ → List (List ℕ) → List ℕ → Option (List (ℕ × F))
  estimate_all task_count tasks [] = some []
  estimate_all task_count tasks (k ∷ later) = elim (as_u32 k) [
    | none ↦ none
    | some small ↦ elim (add_estimates k tasks (of_u32 0)) [
      | none ↦ none
      | some estimate ↦ elim (estimate_all task_count tasks later) [
        | none ↦ none
        | some rest ↦ some ((k, over estimate (of_u32 task_count)) ∷ rest)
      ]
    ]
  ]

  unfoldable pub compute_pass_at_k_for_tasks : Dict (List ℕ) → Option (List (ℕ × F))
  unfolding pass_at_k_for_task eligible_k_values
  compute_pass_at_k_for_tasks tasks = elim (least (values tasks)) [
    | none ↦ none
    | some min_trials ↦ elim (as_u32 (length tasks)) [
      | none ↦ none
      | some task_count ↦ estimate_all task_count (values tasks) (eligible_k_values min_trials)
    ]
  ]

  module _ {R : Type 0} (is_zero is_one : R → Bool) where
    -- `success`: a trial that is neither passed nor failed has none
    unfoldable pub success_of : Option (Dict R) → Option ℕ
    success_of none = some 0
    success_of (some []) = none
    success_of (some ((name, reward) ∷ [])) =
        if is_zero reward then some 0 else if is_one reward then some 1 else none
    success_of (some ((name, reward) ∷ other_reward ∷ later)) = none

    -- what one more success, or none, does to a group of which one trial had none, or all had one
    abbrev pub join_group : String → Option ℕ → Option (Dict (List ℕ)) → Option (Dict (List ℕ))
    join_group task_name none group = none
    join_group task_name (some n) none = none
    join_group task_name (some n) (some tasks) =
        some (change_entry [] task_name (λ successes. successes ++ n ∷ []) tasks)

    unfoldable pub add_trial :
        HarborPassAtKTrial R → Dict (Option (Dict (List ℕ))) → Dict (Option (Dict (List ℕ)))
    unfolding success_of
    add_trial trial groups =
        insert (eval_key_of trial)
          (join_group trial.task_name (success_of trial.rewards)
            (get_or_else (lookup (eval_key_of trial) groups) (some [])))
          groups

    -- The loop over the directory.
    unfoldable pub group_trials :
        {E : Type 0}
        → List (Result (TrialEntry R E) E)
        → Dict (Option (Dict (List ℕ)))
        → Result (Dict (Option (Dict (List ℕ)))) E
    unfolding add_trial
    group_trials [] groups = ok groups
    group_trials (err error ∷ later) groups = err error
    group_trials (ok entry ∷ later) groups = do
      is_dir ← entry.is_dir
      trial ← if is_dir then entry.trial else ok none
      group_trials later (elim trial [ none ↦ groups | some t ↦ add_trial t groups ])

    unfoldable pub estimate_groups :
        Dict (Option (Dict (List ℕ))) → Dict (List (ℕ × F)) → Dict (List (ℕ × F))
    unfolding compute_pass_at_k_for_tasks
    estimate_groups [] found = found
    estimate_groups ((key, none) ∷ later) found = estimate_groups later found
    estimate_groups ((key, some tasks) ∷ later) found =
        estimate_groups later (elim (compute_pass_at_k_for_tasks tasks) [
          | none ↦ found
          | some passes ↦ insert key passes found
        ])

    unfoldable pub compute_harbor_pass_at_k :
        {E : Type 0} → Result (List (Result (TrialEntry R E) E)) E → Result (Dict (List (ℕ × F))) E
    unfolding group_trials estimate_groups
    compute_harbor_pass_at_k listing = do
      entries ← listing
      groups ← group_trials entries []
      ok (estimate_groups groups [])
