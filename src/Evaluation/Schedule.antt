-- ===== src/Evaluation/Schedule.antt =====
-- The loop of `run_checkpoint` (scripts/qualify_checkpoints.py), for one environment: `counts`,
-- `current_policy`, `active` and `pairs` have one entry for each, and an environment's entries
-- change only when its own episode is done. `current_policy` says which arm it runs.
pub mod Complete
use mc_mjlab.Prelude.{
  ℕ, zero, suc, ◌+◌, ◌%◌, Bool, true, false, not, List, [], ◌∷◌, ◌++◌, ltb, leb, ◌==◌,
  if◌then◌else◌,
}

-- the arm and the pair of an episode
abbrev pub Slot : Type 0
Slot = Bool × ℕ

pub record Schedule : Type 0 where
  pub baseline_count : ℕ
  pub policy_count : ℕ
  pub current_policy : Bool
  pub active : Bool
  pub pair : ℕ
  pub episodes : List Slot

-- before the loop
unfoldable pub begin : ℕ → Schedule
begin env_id = record {
  baseline_count = 0;
  policy_count = 0;
  current_policy = env_id % 2 == 1;
  active = true;
  pair = 0;
  episodes = [];
}

-- the episode is recorded and counted for its arm
abbrev pub record_episode : Schedule → Schedule
record_episode s = record s {
  episodes = s.episodes ++ (s.current_policy, s.pair) ∷ [];
  baseline_count = if s.current_policy then s.baseline_count else s.baseline_count + 1;
  policy_count = if s.current_policy then s.policy_count + 1 else s.policy_count;
}

abbrev count_of : Bool → Schedule → ℕ
count_of arm s = if arm then s.policy_count else s.baseline_count

abbrev smaller_count : Schedule → ℕ
smaller_count s = if ltb s.policy_count s.baseline_count then s.policy_count else s.baseline_count

-- the environment stops, or changes its arm
abbrev pub next_arm : ℕ → Schedule → Schedule
next_arm episodes_per_env s =
    if leb episodes_per_env (smaller_count s) then record s { active = false } else record s {
      current_policy = not s.current_policy;
      pair = count_of (not s.current_policy) s;
    }

-- its episode is done
unfoldable pub finish_episode : ℕ → Schedule → Schedule
finish_episode episodes_per_env s =
    if s.active then next_arm episodes_per_env (record_episode s) else s

unfoldable pub finish_episodes : ℕ → ℕ → Schedule → Schedule
unfolding finish_episode
finish_episodes episodes_per_env zero s = s
finish_episodes episodes_per_env (suc n) s =
    finish_episodes episodes_per_env n (finish_episode episodes_per_env s)
