-- ===== src/Evaluation/Comparing.antt =====
-- scripts/evaluation/qualification.py: what an episode is worth (`_episode_value`), and the pairing
-- of the policy's episodes with the baseline's that `summarize` and `_paired_stratum_value` share.
-- The keys of the dictionaries there are tuples, and both take the episodes in the dictionary's
-- order.
pub mod Balanced
use mc_mjlab.Prelude.{
  ℕ, zero, suc, ◌+◌, String, Bool, true, false, not, ◌&&◌, ◌||◌, Option, none, some, List, [], ◌∷◌,
  ◌++◌, map, ltb, leb, ◌==◌, if◌then◌else◌, length, any, str_eq, Result, ok, err, key_error, ◌>>=◌,
  ◌>>◌,
}
use mc_mjlab.Prelude.Dict.{Dict, get}
use mc_mjlab.Float.{Float, nothing, same}
use mc_mjlab.Evaluation.Statistics.{Stats, cluster_stats}

-- the fields of `QualificationEpisode` that are read here; those of `StratumRecord` that pair it
-- are the same
pub record Episode (W : Type 0) : Type 0 where
  pub scenario : String
  pub seed : ℕ
  pub env_id : ℕ
  pub pair : ℕ
  pub arm : String
  pub steps : ℕ
  pub terminations : Dict ℕ
  pub metrics : Dict W

abbrev pub same_key : {W : Type 0} → Episode W → Episode W → Bool
same_key a b = a.seed == b.seed && a.env_id == b.env_id && a.pair == b.pair && str_eq a.arm b.arm

abbrev pub same_pair : {W : Type 0} → Episode W → Episode W → Bool
same_pair a b = a.seed == b.seed && a.env_id == b.env_id && a.pair == b.pair

abbrev count_of : Option ℕ → ℕ
count_of none = 0
count_of (some n) = n

-- a dictionary on `(seed, env_id)`
abbrev pub Clusters : Type 0 → Type 0
Clusters W = List ((ℕ × ℕ) × List W)

module _ {W : Type 0} where
  -- grouped[key] = episode
  unfoldable pub put_episode : Episode W → List (Episode W) → List (Episode W)
  put_episode e [] = e ∷ []
  put_episode e (d ∷ ds) = if same_key e d then e ∷ ds else d ∷ put_episode e ds

  unfoldable pub grouped_from : List (Episode W) → List (Episode W) → List (Episode W)
  unfolding put_episode
  grouped_from ds [] = ds
  grouped_from ds (e ∷ es) = grouped_from (put_episode e ds) es

  -- grouped.get((seed, env_id, pair, "policy"))
  unfoldable pub policy_of : Episode W → List (Episode W) → Option (Episode W)
  policy_of b [] = none
  policy_of b (d ∷ ds) = if same_pair b d && str_eq d.arm "policy" then some d else policy_of b ds

  -- env_differences.setdefault((seed, env_id), []).append(value)
  unfoldable pub append_difference : ℕ × ℕ → W → Clusters W → Clusters W
  append_difference (s, e) x [] = ((s, e), x ∷ []) ∷ []
  append_difference (s, e) x (((t, d), xs) ∷ rest) =
      if s == t && e == d
      then ((t, d), xs ++ x ∷ []) ∷ rest
      else ((t, d), xs) ∷ append_difference (s, e) x rest

-- `arm_values` and `env_differences`
pub record Paired (W : Type 0) : Type 0 where
  pub baseline_values : List W
  pub policy_values : List W
  pub env_differences : Clusters W

pub record Comparison (W : Type 0) : Type 0 where
  pub baseline : W
  pub policy : W
  pub paired : Stats W
  pub relative : W
  pub clusters : ℕ

module _ {W : Type 0} ⦃f : Float W⦄ where
  abbrev or_zero : Option W → W
  or_zero none = nothing
  or_zero (some x) = x

  abbrev required : Option W → Result W
  required none = err key_error
  required (some x) = ok x

  abbrev has_hazard : Episode W → Bool
  has_hazard e =
      any (λ (term : String). ltb 0 (count_of (get e.terminations term)))
        ("fell_over" ∷ "collapsed" ∷ "controller_failed" ∷ [])

  abbrev indicator : Bool → W
  indicator b = if b then f.of_ℕ 1 else nothing

  abbrev over_active : W → Episode W → W
  over_active active e =
      if f.lt nothing active
      then f.div (or_zero (get e.metrics "recovery_dcm_error")) active
      else f.nan

  -- Python's `max(0.0, x)`
  abbrev at_least_zero : W → W
  at_least_zero x = if f.lt nothing x then x else nothing

  -- `_episode_value`; the disturbance cannot start before `first_disturbance_step`
  unfoldable pub episode_value : ℕ → Episode W → String → Result W
  episode_value first_disturbance_step e name =
      if str_eq name "hazard"
      then ok (indicator (has_hazard e))
      else if str_eq name "pre_disturbance_hazard"
      then ok (
          indicator (
            not (str_eq e.scenario "nominal")
            && leb e.steps first_disturbance_step
            && has_hazard e))
      else if str_eq name "worker_failure"
      then ok (f.of_ℕ (count_of (get e.terminations "controller_worker_failed")))
      else if str_eq name "recovery_dcm_error"
      then ok (over_active (or_zero (get e.metrics "recovery_active")) e)
      else if str_eq name "gate_duty"
      then required (get e.metrics "gate_mean")
      else if str_eq name "residual_rms"
      then required (get e.metrics "executed_residual_l2") >>= (λ x. ok (f.sqrt (at_least_zero x)))
      else required (get e.metrics name)

  -- the values of one pair, if both are finite
  unfoldable pub add_pair : Episode W → W → W → Paired W → Paired W
  unfolding append_difference
  add_pair b base_value policy_value s =
      if f.is_finite base_value && f.is_finite policy_value
      then record {
        baseline_values = s.baseline_values ++ base_value ∷ [];
        policy_values = s.policy_values ++ policy_value ∷ [];
        env_differences =
            append_difference (b.seed, b.env_id) (f.sub policy_value base_value) s.env_differences;
      }
      else s

  visit_found :
      (Episode W → Result W) → Episode W → Option (Episode W) → Paired W → Result (Paired W)
  unfolding add_pair
  visit_found value b none s = ok s
  visit_found value b (some q) s = value b >>= (λ x. value q >>= (λ y. ok (add_pair b x y s)))

  -- the body of the loop over `grouped`
  unfoldable pub visit :
      (Episode W → Result W) → List (Episode W) → Episode W → Paired W → Result (Paired W)
  unfolding visit_found policy_of
  visit value grouped b s =
      if str_eq b.arm "baseline" then visit_found value b (policy_of b grouped) s else ok s

  unfoldable pub visit_all :
      (Episode W → Result W) → List (Episode W) → List (Episode W) → Paired W → Result (Paired W)
  unfolding visit
  visit_all value grouped [] s = ok s
  visit_all value grouped (b ∷ bs) s =
      visit value grouped b s >>= (λ t. visit_all value grouped bs t)

  abbrev pub unpaired : Paired W
  unpaired = record { baseline_values = []; policy_values = []; env_differences = [] }

  mean_or_nan : List W → W
  mean_or_nan [] = f.nan
  mean_or_nan (x ∷ xs) = f.div (f.sum (x ∷ xs)) (f.of_ℕ (length (x ∷ xs)))

  -- `sum(values) / len(values)` of each cluster
  unfoldable pub env_clusters : Clusters W → List W
  env_clusters [] = []
  env_clusters ((key, values) ∷ rest) =
      f.div (f.sum values) (f.of_ℕ (length values)) ∷ env_clusters rest

  unfoldable pub compare_paired : Paired W → Comparison W
  unfolding mean_or_nan env_clusters
  compare_paired s =
      let base_mean = mean_or_nan s.baseline_values in
      let paired = cluster_stats (env_clusters s.env_differences) in
      record {
        baseline = base_mean;
        policy = mean_or_nan s.policy_values;
        paired = paired;
        relative = if same base_mean nothing then f.nan else f.div paired.mean base_mean;
        clusters = length s.env_differences;
      }

  -- one entry of `summarize`, and `_paired_stratum_value`
  unfoldable pub compare_value : (Episode W → Result W) → List (Episode W) → Result (Comparison W)
  unfolding grouped_from visit_all compare_paired
  compare_value value episodes =
      let grouped = grouped_from [] episodes in
      visit_all value grouped grouped unpaired >>= (λ s. ok (compare_paired s))
