-- ===== src/Curriculum/Rehearsal.antt =====
-- `achievement_finite_impulse_curriculum` (mdp/disturbances.py): the stage that reset cohorts
-- sample from. Weights are in hundredths, as the stages define them; a negative weight cannot be
-- written.
use mc_mjlab.Prelude.{
  ℕ, zero, suc, ◌+◌, ◌<◌, not, Option, none, some, List, [], ◌∷◌, ◌≡◌, map, arith, ◌==◌, length,
  get_elem?, drop, any, Result, ok, err, value_error, ◌>>=◌, ◌>>◌, ensure,
}
use mc_mjlab.Curriculum.Stages.{AchievementStage, achievement_stages, stage_count, sum, positive}

pub record Term : Type 0 where
  pub rehearsal_weights : List (List ℕ)
  pub current_stage : ℕ

row_or_raise : Option (List ℕ) → Result (List ℕ)
row_or_raise none = err value_error
row_or_raise (some w) = ok w

unfoldable pub set_stage : ℕ → Term → Result Term
unfolding row_or_raise
set_stage stage t = do
  weights ← row_or_raise (get_elem? t.rehearsal_weights stage)
  ensure (length weights == length t.rehearsal_weights + 1) value_error
  ensure (sum weights == 100) value_error
  ensure (not (any positive (drop (stage + 2) weights))) value_error
  ok (record t { current_stage = stage })

pub record CurriculumState : Type 0 where
  pub stage : ℕ
  pub standing_share : Option ℕ
  pub earlier_stage_share : ℕ
  pub target_stage_share : Option ℕ

-- sum(weights[1 : n + 1])
sum_first : ℕ → List ℕ → ℕ
sum_first zero ws = 0
sum_first (suc n) [] = 0
sum_first (suc n) (w ∷ ws) = w + sum_first n ws

share_of : ℕ → List ℕ → CurriculumState
unfolding sum_first
share_of stage weights = record {
  stage = stage;
  standing_share = get_elem? weights 0;
  earlier_stage_share = sum_first stage (drop 1 weights);
  target_stage_share = get_elem? weights (stage + 1);
}

unfoldable pub curriculum_state : Term → Option CurriculumState
unfolding share_of
curriculum_state t = elim (get_elem? t.rehearsal_weights t.current_stage) [
  | none ↦ none
  | some weights ↦ some (share_of t.current_stage weights)
]

-- the weights that the task registers
abbrev pub shipped_weights : List (List ℕ)
shipped_weights = map (λ (s : AchievementStage). s.rehearsal_weights) achievement_stages

-- With the stages' own weights the term accepts every stage of the curriculum.
pub set_stage-shipped :
    (k : ℕ) (t : Term)
    → k < stage_count
    → t.rehearsal_weights ≡ shipped_weights
    → set_stage k t ≡ ok (record t { current_stage = k })
unfolding set_stage
set_stage-shipped zero t h e = rw e
set_stage-shipped (suc zero) t h e = rw e
set_stage-shipped (suc (suc zero)) t h e = rw e
set_stage-shipped (suc (suc (suc k))) t h e = absurd (omega arith)
