-- ===== src/Curriculum/State.antt =====
-- tasks/residual_balance/achievement_curriculum.py: the checkpointed state, its restoration, and
-- `apply_qualification`. Stage numbers and streaks are natural numbers, since `from_dict` and
-- `apply_qualification` make no other; the passed stage keeps its -1.
pub mod Bounds
pub mod Earned
pub mod Streaks
pub mod Saved
use mc_mjlab.Prelude.{
  ℕ, zero, suc, ◌+◌, ◌-◌, ◌<◌, String, Bool, true, false, not, Option, none, some, List, [], ◌∷◌,
  ◌++◌, ltb, ◌==◌, if◌then◌else◌, length, get_elem?, set, contains, ℤ, pos, negsuc, leb_ℤ, eq_ℤ,
  min_ℤ, Result, ok, err, value_error, index_error, ◌>>=◌, ◌>>◌, ensure,
}
use mc_mjlab.Curriculum.Stages.{
  achievement_schema_version, required_pass_reports, required_regressions, stage_count,
}

pub record QualificationEvidence : Type 0 where
  pub token : String
  pub report_sha256 : String
  pub stage : ℤ
  pub checkpoint : String
  pub checkpoint_iteration : ℤ
  pub seeds : List ℤ
  pub eligible : Bool
  pub reasons : List String

pub record AchievementState : Type 0 where
  pub schema_version : ℤ
  pub current_stage : ℕ
  pub highest_passed_stage : ℤ
  pub pass_streak : ℕ
  pub regression_streak : ℕ
  pub mastered : Bool
  pub processed_reports : List String
  pub qualified_checkpoints : List (Option String)
  pub last_report_checkpoint : Option String
  pub last_report_iteration : ℤ
  pub last_report_sha256 : Option String
  pub last_good_checkpoint : Option String

-- AchievementState(current_stage=stage)
abbrev pub initial : ℕ → AchievementState
initial stage = record {
  schema_version = pos achievement_schema_version;
  current_stage = stage;
  highest_passed_stage = negsuc 0;
  pass_streak = 0;
  regression_streak = 0;
  mastered = false;
  processed_reports = [];
  qualified_checkpoints = none ∷ none ∷ none ∷ [];
  last_report_checkpoint = none;
  last_report_iteration = negsuc 0;
  last_report_sha256 = none;
  last_good_checkpoint = none;
}

pub data Event : Type 0 where
  duplicate pass_pending mastered_event advanced regression_pending rolled_back : Event
  regression_reset : Event

pub record AchievementDecision : Type 0 where
  pub state : AchievementState
  pub event : Event
  pub qualified_stage : Option ℕ

decision : AchievementState → Event → AchievementDecision
decision s e = record { state = s; event = e; qualified_stage = none }

-- the fields that every accepted report replaces
abbrev pub common : AchievementState → QualificationEvidence → AchievementState
common s e = record s {
  processed_reports = s.processed_reports ++ e.token ∷ [];
  last_report_checkpoint = some e.checkpoint;
  last_report_iteration = e.checkpoint_iteration;
  last_report_sha256 = some e.report_sha256;
}

abbrev last_stage : ℕ
last_stage = stage_count - 1

-- `list[i] = v`
set_or_raise {ℓ} : {A : Type ℓ} → List A → ℕ → A → Result (List A)
set_or_raise xs i v = if ltb i (length xs) then ok (set xs i v) else err index_error

read_or_raise {ℓ} : {A : Type ℓ} → Option A → Result A
read_or_raise none = err index_error
read_or_raise (some a) = ok a

pass_report : AchievementState → QualificationEvidence → Result AchievementDecision
unfolding decision set_or_raise
pass_report s e =
    if ltb (s.pass_streak + 1) required_pass_reports
    then ok (
        decision (record (common s e) { pass_streak = s.pass_streak + 1; regression_streak = 0 })
          pass_pending)
    else (set_or_raise s.qualified_checkpoints s.current_stage (some e.checkpoint) >>= λ qualified.
        ok (record {
          state = record (common s e) {
            current_stage =
                (if ltb (s.current_stage + 1) last_stage then s.current_stage + 1 else last_stage);
            highest_passed_stage = pos s.current_stage;
            pass_streak = 0;
            regression_streak = 0;
            mastered = s.current_stage == last_stage;
            qualified_checkpoints = qualified;
            last_good_checkpoint = some e.checkpoint;
          };
          event = (if s.current_stage == last_stage then mastered_event else advanced);
          qualified_stage = some s.current_stage;
        }))

-- the stage and the passed stage that a sustained regression leaves
regressed : ℕ → ℤ → ℕ × ℤ
regressed zero highest = (0, negsuc 0)
regressed (suc t) highest = (t, min_ℤ highest (pos t))

regress_report : AchievementState → QualificationEvidence → Result AchievementDecision
unfolding decision regressed read_or_raise
regress_report s e =
    if ltb (s.regression_streak + 1) required_regressions
    then ok (
        decision
          (record (common s e) { pass_streak = 0; regression_streak = s.regression_streak + 1 })
          regression_pending)
    else let (target, highest) = regressed s.current_stage s.highest_passed_stage in
      ((if leb_ℤ (pos target) highest
          then read_or_raise (get_elem? s.qualified_checkpoints target)
          else ok none)
        >>= λ last_good. ok (
            decision
              (record (common s e) {
                current_stage = target;
                highest_passed_stage = highest;
                pass_streak = 0;
                regression_streak = 0;
                mastered = false;
                last_good_checkpoint = last_good;
              })
              (if target == s.current_stage then regression_reset else rolled_back)))

unfoldable pub apply_qualification :
    AchievementState → QualificationEvidence → Result AchievementDecision
unfolding pass_report regress_report
apply_qualification s e =
    if contains e.token s.processed_reports
    then ok (decision s duplicate)
    else if eq_ℤ e.stage (pos s.current_stage)
    then (if e.eligible then pass_report s e else regress_report s e)
    else err value_error

-- What a checkpoint stores: a key may be absent, and numbers may be anything.
pub record SavedState : Type 0 where
  pub saved_schema_version : Option ℤ
  pub saved_current_stage : Option ℤ
  pub saved_highest_passed_stage : Option ℤ
  pub saved_pass_streak : Option ℕ
  pub saved_regression_streak : Option ℕ
  pub saved_mastered : Option Bool
  pub saved_processed_reports : Option (List String)
  pub saved_qualified_checkpoints : Option (List (Option String))
  pub saved_last_report_checkpoint : Option (Option String)
  pub saved_last_report_iteration : Option ℤ
  pub saved_last_report_sha256 : Option (Option String)
  pub saved_last_good_checkpoint : Option (Option String)

abbrev or_default {ℓ} : {A : Type ℓ} → A → Option A → A
or_default d none = d
or_default d (some a) = a

-- 0 <= stage < len(ACHIEVEMENT_STAGES)
stage_of : ℤ → Result ℕ
stage_of (pos n) = if ltb n stage_count then ok n else err value_error
stage_of (negsuc n) = err value_error

unfoldable pub from_dict : SavedState → Result AchievementState
unfolding stage_of
from_dict v = do
  let d : AchievementState = initial 0
  let schema : ℤ = or_default d.schema_version v.saved_schema_version
  let highest : ℤ = or_default d.highest_passed_stage v.saved_highest_passed_stage
  let checkpoints : List (Option String) =
      or_default d.qualified_checkpoints v.saved_qualified_checkpoints
  ensure (eq_ℤ schema (pos achievement_schema_version)) value_error
  stage ← stage_of (or_default (pos d.current_stage) v.saved_current_stage)
  ensure (leb_ℤ (negsuc 0) highest) value_error
  ensure (not (leb_ℤ (pos stage_count) highest)) value_error
  ensure (length checkpoints == stage_count) value_error
  ok (record {
    schema_version = schema;
    current_stage = stage;
    highest_passed_stage = highest;
    pass_streak = or_default d.pass_streak v.saved_pass_streak;
    regression_streak = or_default d.regression_streak v.saved_regression_streak;
    mastered = or_default d.mastered v.saved_mastered;
    processed_reports = or_default d.processed_reports v.saved_processed_reports;
    qualified_checkpoints = checkpoints;
    last_report_checkpoint = or_default none v.saved_last_report_checkpoint;
    last_report_iteration = or_default d.last_report_iteration v.saved_last_report_iteration;
    last_report_sha256 = or_default none v.saved_last_report_sha256;
    last_good_checkpoint = or_default none v.saved_last_good_checkpoint;
  })

unfoldable pub to_dict : AchievementState → SavedState
to_dict s = record {
  saved_schema_version = some s.schema_version;
  saved_current_stage = some (pos s.current_stage);
  saved_highest_passed_stage = some s.highest_passed_stage;
  saved_pass_streak = some s.pass_streak;
  saved_regression_streak = some s.regression_streak;
  saved_mastered = some s.mastered;
  saved_processed_reports = some s.processed_reports;
  saved_qualified_checkpoints = some s.qualified_checkpoints;
  saved_last_report_checkpoint = some s.last_report_checkpoint;
  saved_last_report_iteration = some s.last_report_iteration;
  saved_last_report_sha256 = some s.last_report_sha256;
  saved_last_good_checkpoint = some s.last_good_checkpoint;
}

-- The trainer's loop: a report that raises leaves the state.
abbrev pub settle : AchievementState → Result AchievementDecision → AchievementState
settle s (ok d) = d.state
settle s (err x) = s

unfoldable pub run : AchievementState → List QualificationEvidence → AchievementState
unfolding apply_qualification
run s [] = s
run s (e ∷ es) = run (settle s (apply_qualification s e)) es
