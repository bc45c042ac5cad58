-- ===== src/Evaluation/Strata/Exposure.antt =====
-- Every step of an episode is in one stratum's record.
use mc_mjlab.Prelude.{ℕ, suc, ◌+◌, ◌<◌, true, List, [], ◌∷◌, ◌≡◌, length, ◌==◌, if◌then◌else◌}
use mc_mjlab.Float.{Float}
use mc_mjlab.Evaluation.Strata.{Reading, Cell, Diagnostics, StratumRecord, capture}

module _ {W : Type 0} ⦃f : Float W⦄ where
  unfoldable pub total_count : List (Cell W) → ℕ
  total_count [] = 0
  total_count (c ∷ cs) = c.count + total_count cs

  -- the count of cell `i` where the cells are numbered from `k`, and none out of range
  pub count_from : List (Cell W) → ℕ → ℕ → ℕ
  count_from [] k i = 0
  count_from (c ∷ cs) k i = let rest = count_from cs (suc k) i in if k == i then c.count else rest

  pub total_steps : List (StratumRecord W) → ℕ
  total_steps [] = 0
  total_steps (r ∷ rs) = r.steps + total_steps rs

  -- how many records carry the terminations
  pub terminated_count : List (StratumRecord W) → ℕ
  terminated_count [] = 0
  terminated_count (r ∷ rs) =
      let rest = terminated_count rs in if r.terminated then suc rest else rest

module _ {W : Type 0} ⦃f : Float W⦄ (warmup_steps recovery_steps : ℕ) where
  -- the steps of an episode, while the environment is active
  pub capture_all : List (Reading W) → Diagnostics W → Diagnostics W
  capture_all [] d = d
  capture_all (r ∷ rs) d = capture_all rs (capture warmup_steps recovery_steps true r d)

  -- a cell for each label, `n` steps in all, and the last stratum has some of them
  pub record IsExposed (n : ℕ) (d : Diagnostics W) : Type 0 where
    pub six : length d.cells ≡ 6
    pub steps : total_count d.cells ≡ n
    pub last : 0 < n → 0 < count_from d.cells 0 d.last_stratum
