-- ===== src/ActorMask.antt =====
-- The actor masks of `RolloutAdaptivePPO` (rl/rollout_adaptive_ppo.py): one row for each step of a
-- rollout. The storage's cursor, which the library keeps, is given to each call.
pub mod Complete
use mc_mjlab.Prelude.{
  ℕ, zero, suc, ◌+◌, Bool, true, false, not, ◌&&◌, List, [], ◌∷◌, ltb, ◌==◌, if◌then◌else◌, length,
  set, Result, Raised, ok, err, value_error, runtime_error, index_error, ◌>>=◌, ◌>>◌, ensure,
}

pub record Masks : Type 0 where
  pub rows : List (List Bool)
  pub steps : ℕ
  pub num_envs : ℕ
  pub num_transitions : ℕ
  pub has_source : Bool
  pub normalize_per_mini_batch : Bool

false_row : ℕ → List Bool
false_row zero = []
false_row (suc n) = false ∷ false_row n

false_rows : ℕ → ℕ → List (List Bool)
unfolding false_row
false_rows zero envs = []
false_rows (suc n) envs = false_row envs ∷ false_rows n envs

-- `__init__`
unfoldable pub make : ℕ → ℕ → Bool → Masks
unfolding false_rows
make transitions envs per_mini_batch = record {
  rows = false_rows transitions envs;
  steps = 0;
  num_envs = envs;
  num_transitions = transitions;
  has_source = false;
  normalize_per_mini_batch = per_mini_batch;
}

unfoldable pub set_actor_update_mask_source : Masks → Result Masks
set_actor_update_mask_source m = do
  ensure (not m.normalize_per_mini_batch) value_error
  ok (record m { has_source = true })

unfoldable pub record_actor_update_mask : ℕ → List Bool → Masks → Result Masks
record_actor_update_mask step mask m = do
  ensure (step == m.steps) runtime_error
  ensure (length mask == m.num_envs) value_error
  ensure (ltb m.steps (length m.rows)) index_error
  ok (record m { rows = set m.rows m.steps mask; steps = m.steps + 1 })

unfoldable pub require_complete : ℕ → Masks → Result (Unit {0})
require_complete step m =
    ensure ((m.steps == m.num_transitions) && (step == m.num_transitions)) runtime_error

-- the end of `update`
unfoldable pub restart : Masks → Masks
restart m = if m.has_source then record m { steps = 0 } else m

-- the steps of a rollout: the storage's cursor and the mask at each
unfoldable pub record_all : List (ℕ × List Bool) → Masks → Result Masks
unfolding record_actor_update_mask
record_all [] m = ok m
record_all ((step, mask) ∷ rest) m = record_actor_update_mask step mask m >>= record_all rest
