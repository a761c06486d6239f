-- ===== src/Sweep/Build.antt =====
-- crates/nanoeval/src/sweep.rs: what `SweepBuilder::build` accepts.
use nanoeval.Prelude.{
  Bool, List, [], arith, eq_iff, length, none, ok, refl, some, true, ℕ, ◌*◌, ◌++◌, ◌<◌, ◌↔◌, ◌∷◌,
  ◌≡◌, ◌≢◌, false, ◌≤◌,
}
use nanoeval.Prelude.Paths.{path_eq_iff}
use nanoeval.Prelude.Distinct.{IsApart, IsApart-concat, IsApart-nil, IsDistinct, any-eq-false_iff}
use nanoeval.Task.{Task}
use nanoeval.Sweep.{
  Sweep, SweepAgent, SweepBuilder, attempt_product, build, find_repeated, same_id, same_root,
  usize_limit, is_nil,
}

module _ {A : Type 0} {K : Type 0} (f : A → K) (eq : A → A → Bool)
    (eq_lem : (a b : A) → (eq a b ≡ true) ↔ (f a ≡ f b)) where
  find_repeated-eq-none_iff :
      (before xs : List A)
      → (find_repeated eq before xs ≡ none) ↔ (IsApart f before xs × IsDistinct f xs)
  unfolding find_repeated
  find_repeated-eq-none_iff before [] = (λ h. (tt, tt), λ h. refl)
  find_repeated-eq-none_iff before (x ∷ xs) = ground (
    arith,
    any-eq-false_iff f eq eq_lem x before,
    find_repeated-eq-none_iff (before ++ x ∷ []) xs,
    IsApart-concat f before x xs,
  )

  pub find_repeated-IsDistinct : (xs : List A) → (find_repeated eq [] xs ≡ none) ↔ IsDistinct f xs
  find_repeated-IsDistinct xs =
      let (to, from) = find_repeated-eq-none_iff [] xs in
      (λ h. (to h).1, λ h. from (IsApart-nil f xs, h))

pub same_root_iff : (a b : Task) → (same_root a b ≡ true) ↔ (a.root ≡ b.root)
unfolding same_root
same_root_iff a b = path_eq_iff a.root b.root

pub same_id_iff : {B : Type 0} (a b : SweepAgent B) → (same_id a b ≡ true) ↔ (a.id ≡ b.id)
unfolding same_id
same_id_iff a b = ground (arith, eq_iff a.id.text b.id.text)

pub le_mul : (m n : ℕ) → 0 < n → m ≤ m * n
le_mul m n h = grind arith

is_nil-eq-false_iff : {A : Type 0} (xs : List A) → (is_nil xs ≡ false) ↔ (xs ≢ [])
unfolding is_nil
is_nil-eq-false_iff [] = ground arith
is_nil-eq-false_iff (x ∷ xs) = ground arith

-- The product of three factors fits exactly when each partial product does.
attempt_product-eq-some_iff :
    (t a n count : ℕ)
    → 0 < n
    → (attempt_product t a n ≡ some count) ↔ ((count ≡ t * a * n) × (t * a * n < usize_limit))
unfolding attempt_product
attempt_product-eq-some_iff t a n count h =
    (λ e. ground (arith, le_mul (t * a) n h), λ e. ground (arith, le_mul (t * a) n h))

-- What a builder has to hold.
pub record IsAccepted {B : Type 0} (b : SweepBuilder B) : Type 0 where
  pub has_tasks : b.tasks ≢ []
  pub has_agents : b.agents ≢ []
  pub has_trials : 0 < b.trials
  pub distinct_tasks : IsDistinct (λ (t : Task). t.root) b.tasks
  pub distinct_agents : IsDistinct (λ (a : SweepAgent B). a.id) b.agents
  pub fits : length b.tasks * length b.agents * b.trials < usize_limit

abbrev pub sweep_of : {B : Type 0} → SweepBuilder B → Sweep B
sweep_of b = record {
  tasks = b.tasks;
  agents = b.agents;
  trials = b.trials;
  attempt_count = length b.tasks * length b.agents * b.trials;
}

build-eq-ok : {B : Type 0} (b : SweepBuilder B) → IsAccepted b → build b ≡ ok (sweep_of b)
unfolding build
build-eq-ok {B} b h = ground (
  arith,
  is_nil-eq-false_iff b.tasks,
  is_nil-eq-false_iff b.agents,
  find_repeated-IsDistinct (λ (t : Task). t.root) same_root same_root_iff b.tasks,
  find_repeated-IsDistinct (λ (a : SweepAgent B). a.id) same_id same_id_iff b.agents,
  attempt_product-eq-some_iff (length b.tasks) (length b.agents) b.trials
      (length b.tasks * length b.agents * b.trials),
)

build-IsAccepted :
    {B : Type 0} (b : SweepBuilder B) (s : Sweep B)
    → build b ≡ ok s
    → IsAccepted b × (s ≡ sweep_of b)
unfolding build
build-IsAccepted {B} b s h = (
  record {
    has_tasks = ground (arith, is_nil-eq-false_iff b.tasks);
    has_agents = ground (arith, is_nil-eq-false_iff b.agents);
    has_trials = ground arith;
    distinct_tasks =
        ground
          (arith, find_repeated-IsDistinct (λ (t : Task). t.root) same_root same_root_iff b.tasks);
    distinct_agents =
        ground (
          arith,
          find_repeated-IsDistinct (λ (a : SweepAgent B). a.id) same_id same_id_iff b.agents,
        );
    fits = ground (
      arith,
      attempt_product-eq-some_iff (length b.tasks) (length b.agents) b.trials s.attempt_count,
    );
  },
  ground (
    arith,
    attempt_product-eq-some_iff (length b.tasks) (length b.agents) b.trials s.attempt_count,
  ),
)

-- `build` returns a sweep exactly when there are tasks and agents, at least one trial, no two
-- tasks with one root, no two agents with one identity, and fewer than 2^64 attempts; the sweep
-- then holds the builder's tasks, agents and trials, and the product of the three counts.
pub build-eq-ok_iff :
    {B : Type 0} (b : SweepBuilder B) (s : Sweep B)
    → (build b ≡ ok s) ↔ (IsAccepted b × (s ≡ sweep_of b))
build-eq-ok_iff b s = (build-IsAccepted b s, λ h. rw h.1 (build-eq-ok b h.0))
