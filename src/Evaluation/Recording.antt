-- ===== src/Evaluation/Recording.antt =====
-- The loop of `_run_both` (scripts/compare_to_baseline.py): the episodes of both arms, in the order
-- in which they are done. `counter` is a function of the environment.
pub mod Numbered
use mc_mjlab.Prelude.{
  ℕ, ◌+◌, ◌-◌, String, Bool, true, false, not, List, [], ◌∷◌, leb, ◌==◌, if◌then◌else◌,
}
use mc_mjlab.Prelude.Dict.{Dict}
use mc_mjlab.Evaluation.Arms.{ComparisonEpisode, Arm, trimmed}

-- an episode that is done, with its rewards since the skip
pub record Finished (W : Type 0) : Type 0 where
  pub env_id : ℕ
  pub duration : ℕ
  pub terms : Dict ℕ
  pub rewards : Dict W

-- counter[env_id] += 1
abbrev pub bump : (ℕ → ℕ) → ℕ → ℕ → ℕ
bump counter i j = if i == j then counter j + 1 else counter j

-- range(num_envs), without or with the policy's
unfoldable pub own_ids : (ℕ → Bool) → List ℕ → List ℕ
own_ids is_own [] = []
own_ids is_own (i ∷ ids) = let rest = own_ids is_own ids in if is_own i then i ∷ rest else rest

module _ {W : Type 0} where
  -- the episode has no steps after the skip
  unfoldable pub is_dropped : ℕ → Finished W → Bool
  is_dropped skip_steps d = leb d.duration skip_steps

  unfoldable pub episode_of : ℕ → (ℕ → ℕ) → Finished W → ComparisonEpisode W
  episode_of skip_steps counter d = record {
    env_id = d.env_id;
    nth = bump counter d.env_id d.env_id - 1;
    duration = d.duration - skip_steps;
    terms = d.terms;
    rewards = d.rewards;
  }

  -- the episodes that an arm gets; `is_own` says which environments it owns
  unfoldable pub episodes_of :
      ℕ → (ℕ → Bool) → (ℕ → ℕ) → List (Finished W) → List (ComparisonEpisode W)
  unfolding is_dropped episode_of
  episodes_of skip_steps is_own counter [] = []
  episodes_of skip_steps is_own counter (d ∷ done) =
      let rest = episodes_of skip_steps is_own (bump counter d.env_id) done in
      if is_dropped skip_steps d
      then rest
      else if is_own d.env_id
      then episode_of skip_steps counter d ∷ rest
      else rest

  unfoldable pub run_both : ℕ → (ℕ → Bool) → List ℕ → List ℕ → ℕ → List (Finished W) → Arm W × Arm W
  unfolding episodes_of own_ids
  run_both skip_steps is_policy env_ids policy_ids steps done = (
    record {
      label = "baseline";
      env_ids = own_ids (λ i. not (is_policy i)) env_ids;
      episodes = episodes_of skip_steps (λ i. not (is_policy i)) (λ i. 0) done;
      steps = steps;
    },
    record {
      label = "policy";
      env_ids = policy_ids;
      episodes = episodes_of skip_steps is_policy (λ i. 0) done;
      steps = steps;
    },
  )
