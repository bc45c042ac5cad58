-- ===== src/Evaluation/Comparing/Balanced.antt =====
-- What is paired: the arms stay balanced.
use mc_mjlab.Prelude.{ℕ, ◌+◌, ◌<◌, [], ◌∷◌, ◌≡◌, length}
use mc_mjlab.Float.{Float}
use mc_mjlab.Evaluation.Comparing.{Clusters, Paired}

module _ {W : Type 0} where
  -- the values of all clusters
  pub total_values : Clusters W → ℕ
  total_values [] = 0
  total_values ((key, values) ∷ rest) = length values + total_values rest

  pub NoneEmpty : Clusters W → Type 0
  NoneEmpty [] = Unit
  NoneEmpty ((key, values) ∷ rest) = (0 < length values) × NoneEmpty rest

  -- Every pair gives a value to each arm and one difference to one cluster, and no cluster is
  -- empty.
  pub record IsBalanced (s : Paired W) : Type 0 where
    pub arms : length s.baseline_values ≡ length s.policy_values
    pub differences : total_values s.env_differences ≡ length s.baseline_values
    pub inhabited : NoneEmpty s.env_differences
