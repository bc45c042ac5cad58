-- ===== src/Lib.antt =====
-- A verification of mc_mjlab: the achievement curriculum that raises and lowers a run's difficulty on
-- qualification reports, the watchdog that saves or stops a run, the state that the disturbances, the
-- recovery authority and the policy update keep, the residual action that a policy adds to a
-- controller's output, what a controller is told, and the verdict on a checkpoint.
--
-- Parts and files (paths from the repository's root):
--   Curriculum/Stages         src/mc_mjlab/tasks/residual_balance/curriculum_stages.py
--   Curriculum/State          achievement_curriculum.py beside it: the state, from_dict, to_dict and
--                             apply_qualification
--   Curriculum/Evidence       its read_qualification_evidence
--   Curriculum/Bridge,        its AchievementCurriculumBridge: the steps that read no file, and
--   Curriculum/Bridge/Iteration  __init__, iteration, _consume_report and restore
--   Curriculum/Rehearsal      achievement_finite_impulse_curriculum of src/mc_mjlab/mdp/disturbances.py
--   Watchdog/Health           decide_health and intervention_for of
--                             src/mc_mjlab/tasks/residual_balance/training_watchdog.py
--   Watchdog/Qualification    its qualification_baseline and qualification_regressions
--   Watchdog/Runner,          its RunnerWatchdogBridge: statuses and heartbeats, and iteration with
--   Watchdog/Runner/Requests  _service_request
--   Watchdog/Runner/Requests/Learn  learn and the logging call of residual_balance_runner.py there
--   Watchdog/Monitor,         scripts/watch_training.py: its state and what follows a decision, and
--   Watchdog/Monitor/Poll     attaching, one poll and the loop
--   Watchdog/Handshake        request.json and response.json between the two
--   Recovery                  src/mc_mjlab/residuals/recovery_authority.py: detector_target,
--                             filter_authority and RecoveryFilter
--   Impulse                   finite_impulse_curriculum of src/mc_mjlab/mdp/disturbances.py
--   Ladder                    episode_length_impulse_curriculum of src/mc_mjlab/mdp/curricula.py
--   ActorMask, Learner        src/mc_mjlab/rl/rollout_adaptive_ppo.py: the actor masks, and `update`
--                             with the learning rate
--   Action/Pipeline           src/mc_mjlab/actions/mc_rtc_residual_action.py: the control period
--   Action/Resources          its construction, close and finalizer
--   Action/Feedback           residual_feedback_action.py beside it
--   Action/Residual,          its process_actions, and what apply_actions does with the residual
--   Action/Blended            residual_mpc_joint_torque_action.py beside it: what it keeps over steps
--   Action/Residual/Joints    _apply_control of the actions beside it, with safety.py and mpc_math.py
--                             of src/mc_mjlab/residuals/
--   Evaluation/Statistics     scripts/evaluation/qualification.py: cluster statistics
--   Evaluation/Comparing      its episode values and paired comparisons
--   Evaluation/Holm           its holm_adjust
--   Evaluation/Promotion      its promotion
--   Evaluation/Schedule       the loop of run_checkpoint in scripts/qualify_checkpoints.py
--   Evaluation/Strata         scripts/evaluation/qualification_strata.py
--   Evaluation/Disturbances   scripts/evaluation/disturbances.py
--   Evaluation/Arms           scripts/evaluation/comparison.py
--   Evaluation/Recording      the loop of _run_both in scripts/compare_to_baseline.py
--   Exchange                  src/mc_mjlab/bridge/shared_memory.py and controller_datastore.py
--   Exchange/Simulation,      sim_controller_bridge.py beside them: its columns and routes, and
--   Exchange/Filling          fill_controller_input and read_controller_output
--   Robots/Collisions, Robots/Gains  collisions.py and pd_gains.py of src/mc_mjlab/robots/
--   Resume                    src/mc_mjlab/rl/runner.py and controller_provenance.py
--   Manifest                  src/mc_mjlab/rl/effective_training_manifest.py: the comparison of a
--                             checkpoint's contract with the run's
--   Prelude, Json, Names, Float  shared helpers: tests on numbers, results, JSON documents with
--                             Python's conversions, checkpoint names, and floats as an interface
--   Tests                     runs at concrete inputs, and the theorems applied there
-- The other children of a part hold its proofs.
--
-- How they interact: each trainer iteration calls the curriculum bridge, which reads
-- curriculum/qualification.json, applies it to the checkpointed state, moves the disturbance term and
-- publishes the stage to qualify next; and the watchdog bridge, which writes the heartbeat and serves
-- watchdog/request.json. The monitor is another process: it reads what the bridge writes, with the
-- same types (Status, Heartbeat, Response), decides a health level and writes requests. Its theorems
-- hold for whatever it reads.
--
-- The residual action dispatches each control period's solve to native controllers and collects it one
-- period later; its gate is the recovery authority's. The verdict on checkpoints is written to the
-- reports that the curriculum and the watchdog read. A run that goes on from a checkpoint first compares
-- the controller's files and the contract that were saved with it.
--
-- State is passed explicitly. An operation that can raise returns a Result with the class of what it
-- raises; the trainer's writes are a list of effects and the monitor's a list of events, in order.
-- A run directory is a dictionary of files. Tensors with one value for each environment are
-- elementwise: Recovery, Impulse, Action and the loops of
-- Evaluation are one environment. Every loop is over a list but one: the search for a free
-- name in Robots/Collisions has one round more than there are names that are taken, which is proved
-- to be enough.
--
-- Bounds: numbers of stages, streaks and iterations are Python integers, natural numbers here; the
-- passed stage, which can be -1, and numbers read from JSON are integers. Rehearsal weights have two
-- decimals and are held in hundredths. Other floats are an interface, whose order laws a theorem
-- names when it uses them.
--
-- Not modelled: the hash, the JSON parser and printer, number parsing and paths are parameters
-- (Json.Host), as is whether writing a checkpoint succeeds. The texts of messages (a reason is kept
-- as the values it prints), time stamps in documents, verdict.json, nvidia-smi and process identity
-- are left out or inputs. What the simulator and torch compute or sample is given, and what the
-- native manager does with a dispatched row is an outcome that a step carries. The controllers,
-- rewards and networks, the scripts that drive the simulator and the task configurations are not
-- modelled.
pub mod Prelude
pub mod Json
pub mod Names
pub mod Curriculum
pub mod Float
pub mod Watchdog
pub mod Recovery
pub mod Robots
pub mod Resume
pub mod Action
pub mod Evaluation
pub mod Exchange
pub mod Manifest
pub mod ActorMask
pub mod Impulse
pub mod Ladder
pub mod Learner
pub mod Tests
