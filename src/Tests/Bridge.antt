-- ===== src/Tests/Bridge.antt =====
-- One iteration of the bridge, with a good report in its run directory.
use mc_mjlab.Prelude.{String, false, none, some, [], ◌≡◌, refl, Result, ok, err}
use mc_mjlab.Prelude.Dict.{Dict, get}
use mc_mjlab.Names.{model_iteration}
use mc_mjlab.Json.{json_eq}
use mc_mjlab.Float.{Milli}
use mc_mjlab.Curriculum.Stages.{achievement_contract_sha256}
use mc_mjlab.Curriculum.State.{apply_qualification, initial}
use mc_mjlab.Curriculum.Evidence.{read_qualification_evidence}
use mc_mjlab.Curriculum.Rehearsal.{Term, shipped_weights, set_stage}
use mc_mjlab.Curriculum.Bridge.{Bridge, achievement}
use mc_mjlab.Curriculum.Bridge.Iteration.{init, iteration}
use mc_mjlab.Tests.Hosts.{machine, files}

abbrev task_term : Term
task_term = record { rehearsal_weights = shipped_weights; current_stage = 0 }

abbrev or_empty : Result (Bridge Milli) → Bridge Milli
or_empty (ok b) = b
or_empty (err x) = record {
  term = none;
  enabled = false;
  run_dir = "";
  state = initial 0;
  last_observed_token = none;
  last_report = none;
  published = none;
  events = [];
  computes = 0;
}

-- the bridge that starts in an empty run directory
abbrev fresh : Bridge Milli
fresh = or_empty (init machine (achievement task_term) false (some "run") 0 [])

abbrev result : Result (Bridge Milli × Dict String) → Bridge Milli
result (ok (b, fs)) = b
result (err x) = fresh

abbrev after : Bridge Milli
after = result (iteration machine fresh 9 files files)

-- the report was applied
one_pass : after.state.pass_streak ≡ 1
unfolding iteration init get achievement_contract_sha256 json_eq model_iteration
    read_qualification_evidence apply_qualification set_stage
one_pass = refl
