-- ===== src/Sweep/Manifest.antt =====
-- crates/nanoeval/src/sweep.rs: when two run manifests are the same run.
use mathlib.Core.List.Perm
use nanoeval.Prelude.Sorting.{length-sort, sort-eq_iff_perm, sort}
use mathlib.Core.List.{Perm}
use text.Mathlib.TextEquality.{IsScalar-prop}
use nanoeval.Prelude.{
  Bool, List, [], arith, eq_iff, str_eq, true, ◌↔◌, ◌∷◌, ◌≡◌, ap, length, refl, sym, ◌∙◌,
}
use nanoeval.Prelude.Paths.{path_eq, path_eq_iff}
use nanoeval.Sweep.Identity.{AgentId}
use nanoeval.Sweep.{RunManifest, RunTask, list_eq, manifest_eq, run_task_order}

list_eq_iff :
    {A : Type 0} (eq : A → A → Bool)
    → ((a b : A) → (eq a b ≡ true) ↔ (a ≡ b))
    → (xs ys : List A) → (list_eq eq xs ys ≡ true) ↔ (xs ≡ ys)
unfolding list_eq
list_eq_iff eq eq_lem [] [] = ground arith
list_eq_iff eq eq_lem [] (y ∷ ys) = ground arith
list_eq_iff eq eq_lem (x ∷ xs) [] = ground arith
list_eq_iff eq eq_lem (x ∷ xs) (y ∷ ys) = ground (arith, eq_lem x y, list_eq_iff eq eq_lem xs ys)

run_task_eq_iff : (a b : RunTask) → (path_eq a.root b.root ≡ true) ↔ (a ≡ b)
run_task_eq_iff a b = ground (arith, path_eq_iff a.root b.root)

agent_id_eq_iff : (a b : AgentId) → (str_eq a.text b.text ≡ true) ↔ (a ≡ b)
agent_id_eq_iff a b = ground (arith, eq_iff a.text b.text)

run_tasks_set : IsSet (List RunTask)
run_tasks_set = hlevel (IsScalar-prop)

manifest_eq_fields :
    (self other : RunManifest)
    → (manifest_eq self other ≡ true) ↔ (
        (self.trials ≡ other.trials)
        × (self.agents ≡ other.agents)
        × (sort run_task_order self.tasks ≡ sort run_task_order other.tasks))
unfolding manifest_eq
manifest_eq_fields self other =
    let same_agents =
      list_eq_iff (λ a b. str_eq a.text b.text) agent_id_eq_iff self.agents other.agents in
    let same_tasks =
      list_eq_iff (λ a b. path_eq a.root b.root) run_task_eq_iff (sort run_task_order self.tasks)
        (sort run_task_order other.tasks) in
    let size = length-sort run_task_order self.tasks in
    let other_size = length-sort run_task_order other.tasks in
    (
      λ h. ground (arith, same_agents, same_tasks),
      λ h. ground (arith, same_agents, same_tasks, size, other_size, ap length h.2),
    )

-- Two manifests are the same run exactly when they have the same number of trials, the same
-- agents in the same order, and the same tasks in any order.
pub manifest_eq_iff :
    (self other : RunManifest)
    → (manifest_eq self other ≡ true)
      ↔ ((self.trials ≡ other.trials) × (self.agents ≡ other.agents) × Perm self.tasks other.tasks)
manifest_eq_iff self other =
    let (to, from) = manifest_eq_fields self other in
    let (to_perm, of_perm) = sort-eq_iff_perm run_task_order run_tasks_set self.tasks other.tasks in
    (
      λ h. let (trials, agents, tasks) = to h in (trials, agents, to_perm tasks),
      λ h. from (h.0, h.1, of_perm h.2),
    )

pub manifest_eq_refl : (self : RunManifest) → manifest_eq self self ≡ true
manifest_eq_refl self = (manifest_eq_iff self self).1 (refl, refl, Perm.refl _)

-- Two runs that are each the same as a third agree on what else they are the same as.
pub manifest_eq_congr :
    (retained run other : RunManifest)
    → manifest_eq retained run ≡ true
    → (manifest_eq retained other ≡ true) ↔ (manifest_eq run other ≡ true)
manifest_eq_congr retained run other h =
    let (trials, agents, tasks) = (manifest_eq_iff retained run).0 h in
    (
      λ k.
          let (trials', agents', tasks') = (manifest_eq_iff retained other).0 k in
          (manifest_eq_iff run other).1
            (sym trials ∙ trials', sym agents ∙ agents', Perm.trans (Perm.symm tasks) tasks'),
      λ k.
          let (trials', agents', tasks') = (manifest_eq_iff run other).0 k in
          (manifest_eq_iff retained other).1
            (trials ∙ trials', agents ∙ agents', Perm.trans tasks tasks'),
    )
