-- ===== src/Sweep/Expansion.antt =====
-- crates/nanoeval/src/sweep.rs: `Sweep::attempts`, the task-by-agent-by-trial product in order.
use nanoeval.Sweep.Build.{build-eq-ok_iff, sweep_of, IsAccepted, le_mul}
use nanoeval.Prelude.{
  List, [], ap, arith, flat_map, get_elem?, get_elem?-append_right, length, length-flat_map,
  length-map, map, refl, some, suc, zero, ℕ, ◌*◌, ◌+◌, ◌<◌, ◌∙◌, ◌∷◌, ◌≡◌, get_elem?-append_left,
  get_elem?-map, ok, ◌%◌, ◌≤◌,
}
use nanoeval.Task.{Task}
use nanoeval.Sweep.{
  Sweep, SweepAttempt, attempts, numbers, SweepAgent, SweepBuilder, build, usize_limit, manifest,
  manifest_attempt_count,
}

length-numbers : (first count : ℕ) → length (numbers first count) ≡ count
length-numbers first zero = refl
length-numbers first (suc count) = ap suc (length-numbers (suc first) count)

get_elem?-numbers :
    (first count i : ℕ) → i < count → get_elem? (numbers first count) i ≡ some (first + i)
get_elem?-numbers first (suc count) zero h = ap some (omega arith)
get_elem?-numbers first (suc count) (suc i) h =
    rw (get_elem?-numbers (suc first) count i (omega arith)) (ap some (omega arith))
get_elem?-numbers first zero i h = absurd (omega arith)

lt-length_of_get_elem? :
    {A : Type 0} (xs : List A) (i : ℕ) (a : A) → get_elem? xs i ≡ some a → i < length xs
lt-length_of_get_elem? [] i a e = absurd (cc)
lt-length_of_get_elem? (x ∷ xs) zero a e = omega arith
lt-length_of_get_elem? (x ∷ xs) (suc i) a e = omega (arith, lt-length_of_get_elem? xs i a e)

-- Where an item stands in a list of pieces of one length.
get_elem?-flat_map :
    {A C : Type 0} (f : A → List C) (n : ℕ)
    → ((a : A) → length (f a) ≡ n)
    → (xs : List A) (i j : ℕ) (a : A) → get_elem? xs i ≡ some a
    → j < n
    → get_elem? (flat_map f xs) (i * n + j) ≡ get_elem? (f a) j
get_elem?-flat_map f n uniform [] i j a e h = absurd (cc)
get_elem?-flat_map f n uniform (x ∷ xs) zero j a e h =
    let p : 0 * n + j ≡ j = omega arith in
    let inside : j < length (f x) = omega (arith, uniform x) in
    let same_item : x ≡ a = cc in
    rw p
      (get_elem?-append_left (f x) (flat_map f xs) j inside ∙ ap (λ y. get_elem? (f y) j) same_item)
get_elem?-flat_map f n uniform (x ∷ xs) (suc i) j a e h =
    let p : suc i * n + j ≡ length (f x) + (i * n + j) = grind (arith, uniform x) in
    rw p (
      get_elem?-append_right (f x) (flat_map f xs) (i * n + j)
      ∙ get_elem?-flat_map f n uniform xs i j a e h)

mul_rotate : (a b c : ℕ) → a * (b * c) ≡ b * c * a
mul_rotate a b c = omega arith

module _ {B : Type 0} (s : Sweep B) where
  abbrev for_task : ℕ → Task → List (SweepAttempt B)
  for_task trial task = map (λ agent. record { task = task; agent = agent; trial = trial }) s.agents

  abbrev for_trial : ℕ → List (SweepAttempt B)
  for_trial trial = flat_map (for_task trial) s.tasks

  length-for_trial : (trial : ℕ) → length (for_trial trial) ≡ length s.tasks * length s.agents
  length-for_trial trial =
      length-flat_map (for_task trial) (length s.agents) s.tasks (λ task. length-map _ s.agents)

  pub length-attempts : length (attempts s) ≡ s.trials * (length s.tasks * length s.agents)
  unfolding attempts
  length-attempts =
      length-flat_map for_trial (length s.tasks * length s.agents) (numbers 1 s.trials)
        length-for_trial
      ∙ ap (λ k. k * (length s.tasks * length s.agents)) (length-numbers 1 s.trials)

  row_lt :
      (i j : ℕ)
      → i < length s.tasks
      → j < length s.agents
      → i * length s.agents + j < length s.tasks * length s.agents
  row_lt i j p q = grind arith

  -- The attempt of trial `trial + 1`, the i-th task and the j-th agent stands at
  -- `trial * (tasks * agents) + i * agents + j`.
  pub get_elem?-attempts :
      (trial i j : ℕ) (task : Task) (agent : SweepAgent B)
      → trial < s.trials
      → get_elem? s.tasks i ≡ some task
      → get_elem? s.agents j ≡ some agent
      → get_elem?
          (attempts s)
          (trial * (length s.tasks * length s.agents) + (i * length s.agents + j))
        ≡ some (record { task = task; agent = agent; trial = 1 + trial })
  unfolding attempts
  get_elem?-attempts trial i j task agent h p q =
      let i_lt = lt-length_of_get_elem? s.tasks i task p in
      let j_lt = lt-length_of_get_elem? s.agents j agent q in
      get_elem?-flat_map for_trial (length s.tasks * length s.agents) length-for_trial
        (numbers 1 s.trials) trial (i * length s.agents + j) (1 + trial)
        (get_elem?-numbers 1 s.trials trial h) (row_lt i j i_lt j_lt)
      ∙ get_elem?-flat_map (for_task (1 + trial)) (length s.agents) (λ t. length-map _ s.agents)
          s.tasks i j task p j_lt
      ∙ get_elem?-map _ s.agents j q

wrapped_product :
    (p n : ℕ) → p ≤ p * n → p * n < usize_limit → (p % usize_limit) * n % usize_limit ≡ p * n
wrapped_product p n below fits =
    let small : p % usize_limit ≡ p = omega arith in rw small (omega arith)

manifest_attempt_count-build :
    {B : Type 0} (b : SweepBuilder B)
    → IsAccepted b
    → manifest_attempt_count (manifest (sweep_of b)) ≡ length b.tasks * length b.agents * b.trials
unfolding manifest_attempt_count manifest
manifest_attempt_count-build b accepted = simp length-map (
    wrapped_product (length b.tasks * length b.agents) b.trials
      (le_mul (length b.tasks * length b.agents) b.trials accepted.has_trials) accepted.fits)

-- A sweep that `build` returns expands to as many attempts as its `attempt_count` says, a number
-- that fits in a `usize`, and its run manifest counts as many.
pub length-attempts-build :
    {B : Type 0} (b : SweepBuilder B) (s : Sweep B)
    → build b ≡ ok s
    → (length (attempts s) ≡ s.attempt_count)
      × (s.attempt_count < usize_limit)
      × (manifest_attempt_count (manifest s) ≡ s.attempt_count)
length-attempts-build b s h =
    let (accepted, shape) = (build-eq-ok_iff b s).0 h in
    rw shape (
      length-attempts (sweep_of b) ∙ mul_rotate _ _ _,
      accepted.fits,
      manifest_attempt_count-build b accepted,
    )
