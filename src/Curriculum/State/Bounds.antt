-- ===== src/Curriculum/State/Bounds.antt =====
-- Bounds of the curriculum's state: what restoring and every report keep.
use mc_mjlab.Prelude.{
  ◌-◌, ◌<◌, true, false, some, List, [], ◌∷◌, ◌≡◌, ◌↔◌, Raised, refl, arith, length, contains, pos,
  negsuc, leb_ℤ, eq_ℤ, Result, ok, err, value_error, length-set, get_elem?-ne-none,
}
use mc_mjlab.Curriculum.Stages.{stage_count}
use mc_mjlab.Curriculum.State.{
  AchievementState, QualificationEvidence, AchievementDecision, apply_qualification, run, settle,
}

pub record IsValid (s : AchievementState) : Type 0 where
  pub schema : s.schema_version ≡ pos 1
  pub stage_lt : s.current_stage < stage_count
  pub passed_ge : leb_ℤ (negsuc 0) s.highest_passed_stage ≡ true
  pub passed_le : leb_ℤ s.highest_passed_stage (pos s.current_stage) ≡ true
  pub pass_lt : s.pass_streak < 2
  pub regression_lt : s.regression_streak < 3
  pub slots : length s.qualified_checkpoints ≡ stage_count
  pub mastered_top : s.mastered ≡ true → s.current_stage ≡ 2

-- From a valid state, every report that is applied leaves a valid state.
pub apply_qualification-IsValid :
    (s : AchievementState) (e : QualificationEvidence) {d : AchievementDecision}
    → IsValid s
    → apply_qualification s e ≡ ok d
    → IsValid d.state
unfolding apply_qualification
apply_qualification-IsValid s e v h =
    ground (arith, length-set s.qualified_checkpoints s.current_stage (some e.checkpoint))

-- On a valid state a report is refused exactly when it is new and names another stage than the
-- active one, and the refusal is a ValueError: no list index is ever out of range.
pub apply_qualification_refusal :
    (s : AchievementState) (e : QualificationEvidence) (x : Raised)
    → IsValid s
    → (apply_qualification s e ≡ err x)
      ↔ (contains e.token s.processed_reports ≡ false)
        × (eq_ℤ e.stage (pos s.current_stage) ≡ false)
        × (x ≡ value_error)
unfolding apply_qualification
apply_qualification_refusal s e x v = grind (
  arith,
  get_elem?-ne-none s.qualified_checkpoints (s.current_stage - 1),
  get_elem?-ne-none s.qualified_checkpoints 0,
)

module _ (s : AchievementState) (e : QualificationEvidence) (v : IsValid s) where
  settle_result :
      (r : Result AchievementDecision) → apply_qualification s e ≡ r → IsValid (settle s r)
  settle_result (ok d) h = apply_qualification-IsValid s e v h
  settle_result (err x) h = v

  pub settle-IsValid : IsValid (settle s (apply_qualification s e))
  settle-IsValid = settle_result _ refl

-- Every run from a valid state ends in a valid state.
pub run-IsValid :
    (s : AchievementState) (es : List QualificationEvidence) → IsValid s → IsValid (run s es)
unfolding run
run-IsValid s [] v = v
run-IsValid s (e ∷ es) v =
    run-IsValid (settle s (apply_qualification s e)) es (settle-IsValid s e v)
