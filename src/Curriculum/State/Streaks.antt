-- ===== src/Curriculum/State/Streaks.antt =====
-- How many reports a change of stage takes.
use mc_mjlab.Prelude.{
  ℕ, suc, ◌+◌, ◌-◌, ◌≤◌, ◌<◌, true, false, none, List, [], ◌∷◌, ◌≡◌, ◌*◌, arith, if◌then◌else◌,
  contains, eq_iff, ok, get_elem?-ne-none, contains-append,
}
use mc_mjlab.Curriculum.State.Bounds.{IsValid, settle-IsValid}
use mc_mjlab.Curriculum.State.{
  AchievementState, QualificationEvidence, AchievementDecision, apply_qualification, run, settle,
  duplicate,
}

abbrev pub passes : List QualificationEvidence → ℕ
passes [] = 0
passes (e ∷ es) = if e.eligible then suc (passes es) else passes es

abbrev pub failures : List QualificationEvidence → ℕ
failures [] = 0
failures (e ∷ es) = if e.eligible then failures es else suc (failures es)

climb_step :
    (s : AchievementState) (e : QualificationEvidence)
    → let t = settle s (apply_qualification s e) in
      2 * t.current_stage + t.pass_streak ≤ 2 * s.current_stage + s.pass_streak + passes (e ∷ [])
unfolding apply_qualification
climb_step s e = ground arith

fall_step :
    (s : AchievementState) (e : QualificationEvidence)
    → IsValid s
    → let t = settle s (apply_qualification s e) in
      3 * s.current_stage + t.regression_streak
      ≤ 3 * t.current_stage + s.regression_streak + failures (e ∷ [])
unfolding apply_qualification
fall_step s e v = ground (
  arith,
  get_elem?-ne-none s.qualified_checkpoints (s.current_stage - 1),
  get_elem?-ne-none s.qualified_checkpoints 0,
)

climb-run :
    (s : AchievementState) (es : List QualificationEvidence)
    → 2 * (run s es).current_stage + (run s es).pass_streak
      ≤ 2 * s.current_stage + s.pass_streak + passes es
unfolding run
climb-run s [] = omega arith
climb-run s (e ∷ es) =
    let t = settle s (apply_qualification s e) in ground (arith, climb_step s e, climb-run t es)

fall-run :
    (s : AchievementState) (es : List QualificationEvidence)
    → IsValid s
    → 3 * s.current_stage + (run s es).regression_streak
      ≤ 3 * (run s es).current_stage + s.regression_streak + failures es
unfolding run
fall-run s [] v = omega arith
fall-run s (e ∷ es) v =
    let t = settle s (apply_qualification s e) in
    ground (arith, fall_step s e v, fall-run t es (settle-IsValid s e v))

-- Over any sequence of reports from a valid state with no streak open, the stage rises by at most
-- one for every two eligible reports, and falls by at most one for every three ineligible ones.
pub run_hysteresis :
    (s : AchievementState) (es : List QualificationEvidence)
    → IsValid s
    → s.pass_streak ≡ 0
    → s.regression_streak ≡ 0
    → (2 * (run s es).current_stage ≤ 2 * s.current_stage + passes es)
      × (3 * s.current_stage ≤ 3 * (run s es).current_stage + failures es)
run_hysteresis s es v p r = omega (arith, climb-run s es, fall-run s es v)

-- From a valid state, an applied report that raises the stage is eligible and finds one eligible
-- report counted, and one that lowers it is ineligible and finds two ineligible ones counted.
pub stage_change :
    (s : AchievementState) (e : QualificationEvidence) {d : AchievementDecision}
    → IsValid s
    → apply_qualification s e ≡ ok d
    → (s.current_stage < d.state.current_stage → (e.eligible ≡ true) × (s.pass_streak ≡ 1))
      × (d.state.current_stage < s.current_stage → (e.eligible ≡ false) × (s.regression_streak ≡ 2))
unfolding apply_qualification
stage_change s e v h = ground (
  arith,
  get_elem?-ne-none s.qualified_checkpoints (s.current_stage - 1),
  get_elem?-ne-none s.qualified_checkpoints 0,
)

token_kept :
    (s : AchievementState) (e : QualificationEvidence) {d : AchievementDecision}
    → apply_qualification s e ≡ ok d
    → contains e.token d.state.processed_reports ≡ true
unfolding apply_qualification
token_kept s e h =
    ground
      (arith, contains-append e.token s.processed_reports (e.token ∷ []), eq_iff e.token e.token)

-- A report counts once: when a report was applied, another with its token is a duplicate, which
-- leaves the state as it is.
pub apply_qualification_once :
    (s : AchievementState) (e f : QualificationEvidence) {d : AchievementDecision}
    → apply_qualification s e ≡ ok d
    → f.token ≡ e.token
    → apply_qualification d.state f
      ≡ ok (record { state = d.state; event = duplicate; qualified_stage = none })
unfolding apply_qualification
apply_qualification_once s e f {d} h t = rw (t, token_kept s e h)
