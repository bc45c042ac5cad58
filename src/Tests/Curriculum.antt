-- ===== src/Tests/Curriculum.antt =====
-- The curriculum's state and its evidence, on concrete reports.
use mc_mjlab.Prelude.{
  String, Bool, true, false, none, some, List, [], ◌∷◌, ◌≡◌, ◌≢◌, ◌↔◌, refl, arith, ◌≤◌, ◌+◌, ◌*◌,
  ℤ, pos, leb_ℤ, eq_ℤ, ok, err, value_error, length, contains,
}
use mc_mjlab.Prelude.Dict.{get}
use mathlib.Core.Option
use mc_mjlab.Names.{model_iteration}
use mc_mjlab.Json.{json_eq}
use mc_mjlab.Curriculum.Stages.{achievement_contract_sha256}
use mc_mjlab.Curriculum.Rehearsal.{Term, shipped_weights}
use mc_mjlab.Curriculum.State.{
  AchievementState, QualificationEvidence, initial, apply_qualification, settle, run, to_dict,
  from_dict,
}
use mc_mjlab.Curriculum.State.Bounds.{
  IsValid, apply_qualification-IsValid, apply_qualification_refusal, run-IsValid,
}
use mc_mjlab.Curriculum.State.Earned.{IsEarned, IsEarned-initial, apply_qualification-IsEarned}
use mc_mjlab.Curriculum.State.Streaks.{run_hysteresis}
use mc_mjlab.Curriculum.State.Saved.{from_dict-to_dict}
use mc_mjlab.Curriculum.Evidence.{read_qualification_evidence}
use mc_mjlab.Curriculum.Evidence.Checks.{IsAscending, read_qualification_evidence_checks}
use mc_mjlab.Tests.Hosts.{machine, files}

abbrev report : String → ℤ → Bool → QualificationEvidence
report token stage eligible = record {
  token = token;
  report_sha256 = token;
  stage = stage;
  checkpoint = "model_7.pt";
  checkpoint_iteration = pos 7;
  seeds = pos 1 ∷ pos 2 ∷ [];
  eligible = eligible;
  reasons = [];
}

abbrev a1 : QualificationEvidence
a1 = report "a1" (pos 0) true

abbrev a2 : QualificationEvidence
a2 = report "a2" (pos 0) true

abbrev b1 : QualificationEvidence
b1 = report "b1" (pos 1) false

abbrev b2 : QualificationEvidence
b2 = report "b2" (pos 1) false

abbrev b3 : QualificationEvidence
b3 = report "b3" (pos 1) false

abbrev start : AchievementState
start = initial 0

-- two passes, then two failures
abbrev reports : List QualificationEvidence
reports = a1 ∷ a2 ∷ b1 ∷ b2 ∷ []

abbrev low : AchievementState
low = run start reports

stage_low : low.current_stage ≡ 1
unfolding run apply_qualification
stage_low = refl

third_failure : settle low (apply_qualification low b3) ≡ run start (a1 ∷ a2 ∷ b1 ∷ b2 ∷ b3 ∷ [])
unfolding run
third_failure = refl

-- the state after `reports` has passed stage 0 and holds its checkpoint
low-IsEarned : IsEarned low
unfolding run apply_qualification
low-IsEarned = record {
  valid = ground arith;
  climbed = λ k h. ground arith;
  kept = λ k h. ground arith;
}

apply_qualification-IsValid_example : IsValid (settle low (apply_qualification low b3))
unfolding run apply_qualification
apply_qualification-IsValid_example = apply_qualification-IsValid low b3 low-IsEarned.valid refl

apply_qualification-IsEarned_example : IsEarned (settle low (apply_qualification low b3))
unfolding run apply_qualification
apply_qualification-IsEarned_example = apply_qualification-IsEarned low b3 low-IsEarned refl

-- an ineligible report for stage 2 is refused
apply_qualification_refusal_example :
    (apply_qualification low (report "c" (pos 2) false) ≡ err value_error)
    ↔ (contains "c" low.processed_reports ≡ false)
      × (eq_ℤ (pos 2) (pos low.current_stage) ≡ false)
      × (value_error ≡ value_error)
apply_qualification_refusal_example =
    apply_qualification_refusal low (report "c" (pos 2) false) value_error low-IsEarned.valid

run-IsValid_example : IsValid (run low (b3 ∷ a1 ∷ a2 ∷ []))
run-IsValid_example = run-IsValid low (b3 ∷ a1 ∷ a2 ∷ []) low-IsEarned.valid

run_hysteresis_example :
    (2 * (run start reports).current_stage ≤ 2 * 0 + 2)
    × (3 * 0 ≤ 3 * (run start reports).current_stage + 2)
run_hysteresis_example = run_hysteresis start reports IsEarned-initial.valid refl refl

from_dict-to_dict_example : from_dict (to_dict low) ≡ ok low
from_dict-to_dict_example = from_dict-to_dict low low-IsEarned.valid

-- the evidence in the good report
abbrev found : QualificationEvidence
found = record {
  token = "contract";
  report_sha256 = "report";
  stage = pos 0;
  checkpoint = "run/model_7.pt";
  checkpoint_iteration = pos 7;
  seeds = pos 1 ∷ pos 2 ∷ [];
  eligible = true;
  reasons = [];
}

good_report_is_read :
    read_qualification_evidence machine files "qualification.json" (pos 0) "run" 9 ≡ ok found
unfolding read_qualification_evidence get achievement_contract_sha256 json_eq model_iteration
good_report_is_read = refl

read_qualification_evidence_checks_example :
    (found.stage ≡ pos 0)
    × (2 ≤ length found.seeds)
    × IsAscending found.seeds
    × (get files found.checkpoint ≢ none)
    × (machine.is_under found.checkpoint (machine.resolve "run") ≡ true)
    × (Option.map pos (model_iteration (machine.file_name found.checkpoint))
        ≡ some found.checkpoint_iteration)
    × (leb_ℤ found.checkpoint_iteration (pos 9) ≡ true)
    × (Option.map machine.sha256 (get files "qualification.json") ≡ some found.report_sha256)
read_qualification_evidence_checks_example =
    read_qualification_evidence_checks machine files "qualification.json" (pos 0) "run" 9
      good_report_is_read

-- the term as the task registers it
abbrev pub registered : Term
registered = record { rehearsal_weights = shipped_weights; current_stage = 0 }
