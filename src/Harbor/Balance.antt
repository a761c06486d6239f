-- ===== src/Harbor/Balance.antt =====
-- The totals over the agents and datasets of a results file of crates/nanoeval-harbor/src/lib.rs.
use nanoeval.Harbor.Stats.{clear_passes, empty_eval, set_passes}
use nanoeval.Harbor.{HarborAgentDatasetStats, HarborJobStats, change_entry, get_or_else}
use nanoeval.Prelude.{All, List, Option-cases, String, [], arith, inl, inr, refl, ℕ, ◌+◌, ◌∷◌, ◌≡◌}
use nanoeval.Prelude.Dict.{Dict, lookup}
use nanoeval.Prelude.Dict.Ordered.{IsBelow, IsOrdered, insert-IsOrdered}
use nanoeval.Prelude.Dict.Totals.{total, total-insert}

module _ {F : Type 0} where
  abbrev pub ended : HarborAgentDatasetStats F → ℕ
  ended eval = eval.n_trials + eval.n_errors

  abbrev pub errors : HarborAgentDatasetStats F → ℕ
  errors eval = eval.n_errors

  -- The trials that ended, and those with errors, are each counted under one agent and dataset.
  pub record IsBalanced (stats : HarborJobStats F) : Type 0 where
    pub ordered : IsOrdered stats.evals
    pub completed_trials : total ended stats.evals ≡ stats.n_completed_trials
    pub errored_trials : total errors stats.evals ≡ stats.n_errored_trials

  -- A change of an entry changes the total by what it changes there.
  pub total-change_entry :
      (f : HarborAgentDatasetStats F → ℕ) (name : String)
      (change : HarborAgentDatasetStats F → HarborAgentDatasetStats F)
      (evals : Dict (HarborAgentDatasetStats F)) (n : ℕ)
      → IsOrdered evals
      → f empty_eval ≡ 0
      → ((eval : HarborAgentDatasetStats F) → f (change eval) ≡ f eval + n)
      → total f (change_entry empty_eval name change evals) ≡ total f evals + n
  total-change_entry f name change evals n o e h =
      let grown =
        total-insert f name (change (get_or_else (lookup name evals) empty_eval)) evals o in
      elim (Option-cases (lookup name evals)) [
        | inl missing ↦ let grown' = rw missing at grown in rw missing (omega (arith, h empty_eval))
        | inr (eval, found) ↦ let grown' = rw found at grown in rw found (omega (arith, h eval))
      ]

  pub total-clear_passes :
      (add : F → F → F) (zero_cost : F) (f : HarborAgentDatasetStats F → ℕ)
      (evals : Dict (HarborAgentDatasetStats F))
      → ((eval : HarborAgentDatasetStats F) (passes : List (ℕ × F))
          → f (record eval { pass_at_k = passes }) ≡ f eval)
      → total f (clear_passes add zero_cost evals) ≡ total f evals
  total-clear_passes add zero_cost f [] h = refl
  total-clear_passes add zero_cost f ((key, eval) ∷ later) h =
      omega (arith, h eval [], total-clear_passes add zero_cost f later h)

  pub clear_passes-IsBelow :
      (add : F → F → F) (zero_cost : F) (name : String) (evals : Dict (HarborAgentDatasetStats F))
      → All (λ (e : String × HarborAgentDatasetStats F). IsBelow name (e.0)) evals
      → All
          (λ (e : String × HarborAgentDatasetStats F). IsBelow name (e.0))
          (clear_passes add zero_cost evals)
  clear_passes-IsBelow add zero_cost name [] h = tt
  clear_passes-IsBelow add zero_cost name ((key, eval) ∷ later) h =
      (h.0, clear_passes-IsBelow add zero_cost name later h.1)

  pub clear_passes-IsOrdered :
      (add : F → F → F) (zero_cost : F) (evals : Dict (HarborAgentDatasetStats F))
      → IsOrdered evals
      → IsOrdered (clear_passes add zero_cost evals)
  clear_passes-IsOrdered add zero_cost [] h = tt
  clear_passes-IsOrdered add zero_cost ((key, eval) ∷ later) h = (
    clear_passes-IsBelow add zero_cost key later h.0,
    clear_passes-IsOrdered add zero_cost later h.1,
  )

  pub set_passes-total :
      (add : F → F → F) (zero_cost : F) (f : HarborAgentDatasetStats F → ℕ)
      (passes : Dict (List (ℕ × F))) (evals : Dict (HarborAgentDatasetStats F))
      → f empty_eval ≡ 0
      → ((eval : HarborAgentDatasetStats F) (k : List (ℕ × F))
          → f (record eval { pass_at_k = k }) ≡ f eval)
      → IsOrdered evals
      → IsOrdered (set_passes add zero_cost passes evals)
        × (total f (set_passes add zero_cost passes evals) ≡ total f evals)
  unfolding set_passes
  set_passes-total add zero_cost f [] evals e h o = (o, refl)
  set_passes-total add zero_cost f ((key, k) ∷ later) evals e h o =
      let same =
        total-change_entry f key (λ eval. record eval { pass_at_k = k }) evals 0 o e
          (λ eval. omega (arith, h eval k)) in
      let (ordered, totals) =
        set_passes-total add zero_cost f later
          (change_entry empty_eval key (λ eval. record eval { pass_at_k = k }) evals) e h
          (insert-IsOrdered key _ evals o) in
      (ordered, omega arith)
