-- ===== src/Sweep.antt =====
-- crates/nanoeval/src/sweep.rs: a finite sweep of tasks, agents and trials. The agent's builder
-- (`NanocodexBuilder`) is a type of another package, and so is its `shared_prompt_cache`.
pub mod Identity
pub mod Build
pub mod Expansion
pub mod Manifest
pub mod Prefix
mod Tests
use nanoeval.Prelude.Sorting.{sort}
use nanoeval.Prelude.Order.{Order, path_order}
use nanoeval.Prelude.{
  Bool, List, Option, String, [], any, if◌then◌else◌, ltb, none, some, ℕ, ◌*◌, ◌++◌, ◌^◌, ◌∷◌,
  Result, err, false, flat_map, length, map, ok, str_eq, suc, true, zero, ◌==◌, ◌>>=◌, ap, not, ◌%◌,
  ◌&&◌, ◌||◌,
}
use nanoeval.Prelude.Paths.{FilePath, path_eq, display}
use nanoeval.Task.{Task}
use nanoeval.Sweep.Identity.{AgentId, AgentIdError, new_agent_id}

pub data SweepError : Type 0 where
  no_tasks no_agents zero_trials too_many_attempts : SweepError
  duplicate_task : String → SweepError
  duplicate_agent : AgentId → SweepError

pub record RunTask : Type 0 where
  pub root : FilePath

pub record RunManifest : Type 0 where
  pub tasks : List RunTask
  pub agents : List AgentId
  pub trials : ℕ

abbrev pub usize_limit : ℕ
usize_limit = 2 ^ 64

-- `usize::checked_mul`
unfoldable pub checked_mul : ℕ → ℕ → Option ℕ
checked_mul a b = if ltb (a * b) usize_limit then some (a * b) else none

-- Whether an item of a list is like one before it, `xs[..index].iter().any(..)`, and the first
-- such item.
unfoldable pub find_repeated : {A : Type 0} → (A → A → Bool) → List A → List A → Option A
find_repeated eq before [] = none
find_repeated eq before (x ∷ xs) =
    let rest = find_repeated eq (before ++ x ∷ []) xs in
    if any (λ other. eq other x) before then some x else rest

unfoldable pub same_root : Task → Task → Bool
same_root other task = path_eq other.root task.root

pub record SweepAgent (B : Type 0) : Type 0 where
  pub id : AgentId
  pub nanocodex : B

pub record SweepBuilder (B : Type 0) : Type 0 where
  pub tasks : List Task
  pub agents : List (SweepAgent B)
  pub trials : ℕ

pub record Sweep (B : Type 0) : Type 0 where
  pub tasks : List Task
  pub agents : List (SweepAgent B)
  pub trials : ℕ
  pub attempt_count : ℕ

pub record SweepAttempt (B : Type 0) : Type 0 where
  pub task : Task
  pub agent : SweepAgent B
  pub trial : ℕ

unfoldable pub same_id : {B : Type 0} → SweepAgent B → SweepAgent B → Bool
same_id other agent = str_eq other.id.text agent.id.text

-- `Sweep::builder` and the setters of `SweepBuilder`
abbrev pub builder : {B : Type 0} → SweepBuilder B
builder = record { tasks = []; agents = []; trials = 1 }

unfoldable pub with_tasks : {B : Type 0} → List Task → SweepBuilder B → SweepBuilder B
with_tasks tasks b = record b { tasks = tasks }

unfoldable pub with_task : {B : Type 0} → Task → SweepBuilder B → SweepBuilder B
with_task task b = record b { tasks = b.tasks ++ task ∷ [] }

unfoldable pub with_trials : {B : Type 0} → ℕ → SweepBuilder B → SweepBuilder B
with_trials trials b = record b { trials = trials }

-- `SweepBuilder::agent`, over the builder's `shared_prompt_cache`
unfoldable pub with_agent :
    {B : Type 0} → (B → B) → String → B → SweepBuilder B → Result (SweepBuilder B) AgentIdError
with_agent shared_prompt_cache id nanocodex b = do
  checked ← new_agent_id id
  ok (record b {
    agents = b.agents ++ record { id = checked; nanocodex = shared_prompt_cache nanocodex } ∷ [];
  })

-- the attempt count of `build`
unfoldable pub attempt_product : ℕ → ℕ → ℕ → Option ℕ
unfolding checked_mul
attempt_product tasks agents trials = elim (checked_mul tasks agents) [
  | none ↦ none
  | some count ↦ checked_mul count trials
]

finish : {B : Type 0} → SweepBuilder B → Option ℕ → Result (Sweep B) SweepError
finish b none = err too_many_attempts
finish b (some count) =
    ok (record { tasks = b.tasks; agents = b.agents; trials = b.trials; attempt_count = count })

check_agents : {B : Type 0} → SweepBuilder B → Option (SweepAgent B) → Result (Sweep B) SweepError
unfolding finish attempt_product
check_agents b (some agent) = err (duplicate_agent agent.id)
check_agents b none = finish b (attempt_product (length b.tasks) (length b.agents) b.trials)

check_tasks : {B : Type 0} → SweepBuilder B → Option Task → Result (Sweep B) SweepError
unfolding check_agents find_repeated same_id
check_tasks b (some task) = err (duplicate_task (display task.root))
check_tasks b none = check_agents b (find_repeated same_id [] b.agents)

is_nil : {A : Type 0} → List A → Bool
is_nil [] = true
is_nil (x ∷ xs) = false

-- `SweepBuilder::build`
unfoldable pub build : {B : Type 0} → SweepBuilder B → Result (Sweep B) SweepError
unfolding check_tasks is_nil find_repeated same_root path_eq
build b =
    if is_nil b.tasks
    then err no_tasks
    else if is_nil b.agents
    then err no_agents
    else if b.trials == 0
    then err zero_trials
    else check_tasks b (find_repeated same_root [] b.tasks)

-- `first..first + count`
abbrev pub numbers : ℕ → ℕ → List ℕ
numbers first zero = []
numbers first (suc count) = first ∷ numbers (suc first) count

-- `Sweep::attempts`
unfoldable pub attempts : {B : Type 0} → Sweep B → List (SweepAttempt B)
attempts s =
    flat_map
      (λ trial.
        flat_map
          (λ task. map (λ agent. record { task = task; agent = agent; trial = trial }) s.agents)
          s.tasks)
      (numbers 1 s.trials)

-- `Sweep::manifest`
unfoldable pub manifest : {B : Type 0} → Sweep B → RunManifest
manifest s = record {
  tasks = map (λ task. record { root = task.root }) s.tasks;
  agents = map (λ agent. agent.id) s.agents;
  trials = s.trials;
}

-- `RunManifest::attempt_count`; `*` on `usize` keeps 64 bits
unfoldable pub manifest_attempt_count : RunManifest → ℕ
manifest_attempt_count run =
    (length run.tasks * length run.agents % usize_limit) * run.trials % usize_limit

-- `sort_unstable` on `RunTask`, whose order is that of its root
abbrev pub run_task_order : Order RunTask
run_task_order = record {
  le = λ a b. path_order.le a.root b.root;
  total = λ a b. path_order.total a.root b.root;
  trans = λ a b c. path_order.trans a.root b.root c.root;
  antisym = λ a b p q. ap (λ root. record { root = root }) (path_order.antisym a.root b.root p q);
}

-- `==` of two vectors
unfoldable pub list_eq : {A : Type 0} → (A → A → Bool) → List A → List A → Bool
list_eq eq [] [] = true
list_eq eq (a ∷ as') (b ∷ bs) = eq a b && list_eq eq as' bs
list_eq eq _ _ = false

-- `PartialEq for RunManifest`
unfoldable pub manifest_eq : RunManifest → RunManifest → Bool
unfolding list_eq sort
manifest_eq self other =
    if not (self.trials == other.trials)
      || not (list_eq (λ a b. str_eq a.text b.text) self.agents other.agents)
      || not (length self.tasks == length other.tasks)
    then false
    else list_eq (λ a b. path_eq a.root b.root) (sort run_task_order self.tasks)
        (sort run_task_order other.tasks)
