-- ===== src/Tests/Watchdog.antt =====
-- Health decisions, and a trainer that serves a stop request.
use mc_mjlab.Prelude.{◌∷◌, true, false, none, some, [], ◌≡◌, ◌↔◌, refl, length}
use mc_mjlab.Float.{Milli, milli}
use mc_mjlab.Json.{field, end, str}
use mc_mjlab.Watchdog.Health.{
  Level, rank, WatchdogThresholds, HealthObservation, decide_health, heartbeat_level,
  checkpoint_level, gpu_level, worker_level, qualification_level, threshold_level,
  threshold_level_low,
}
use mc_mjlab.Watchdog.Health.Levels.{max_ℕ, decide_health-worst}
use mc_mjlab.Watchdog.Runner.{Runner, returned}
use mc_mjlab.Watchdog.Runner.Requests.{Rollout, read_json, service_request, complete_iteration}
use mc_mjlab.Watchdog.Runner.Requests.Durable.{IsBacked, complete_iteration-IsBacked}
use mc_mjlab.Watchdog.Runner.Requests.Learn.{
  Failure, make_runner, learn, last_status, is_terminal, learn_terminal,
}
use mc_mjlab.Watchdog.Runner.Requests.Once.{service_request_once}
use mc_mjlab.Tests.Hosts.{machine}

-- the defaults, in thousandths
abbrev pub defaults : WatchdogThresholds Milli
defaults = record {
  heartbeat_warn_s = some 300000;
  heartbeat_preserve_s = some 900000;
  heartbeat_stop_s = some 1800000;
  checkpoint_warn_s = some 5400000;
  checkpoint_preserve_s = some 10800000;
  checkpoint_stop_s = some 21600000;
  gpu_warn_mb = some 4096000;
  gpu_preserve_mb = some 2048000;
  gpu_stop_mb = some 1024000;
  worker_warn = 1;
  worker_preserve = 8;
  worker_stop = 64;
  qualification_warn = 1;
  qualification_preserve = 2;
  qualification_stop = 3;
}

-- one low reading of the memory
abbrev pub low_memory : HealthObservation Milli
low_memory = record {
  heartbeat_age_s = some 10000;
  checkpoint_age_s = some 60000;
  gpu_free_mb = some (some 500000);
  gpu_low_streak = 1;
  worker_failures = 0;
  qualification_bad_streak = 0;
}

-- the same, with a second one
abbrev pub lower_memory : HealthObservation Milli
lower_memory = record low_memory { gpu_low_streak = 2 }

lower_memory_stops : (decide_health lower_memory defaults).level ≡ Level.stop
unfolding decide_health threshold_level threshold_level_low
lower_memory_stops = refl

decide_health-worst_example :
    (rank (decide_health low_memory defaults).level
      ≡ max_ℕ
          (max_ℕ
            (max_ℕ
              (max_ℕ
                (rank (heartbeat_level low_memory defaults))
                (rank (checkpoint_level low_memory defaults)))
              (rank (gpu_level low_memory defaults)))
            (rank (worker_level low_memory defaults)))
          (rank (qualification_level low_memory defaults)))
    × (((decide_health low_memory defaults).level ≡ Level.ok)
        ↔ ((decide_health low_memory defaults).reasons ≡ []))
decide_health-worst_example = decide_health-worst low_memory defaults

-- a trainer at its first iteration
abbrev pub trainer : Runner Milli
trainer = record {
  enabled = true;
  distributed = false;
  root = "run/watchdog";
  last_request_id = none;
  last_checkpoint = none;
  termination_totals = [];
  heartbeat = none;
  effects = [];
}

abbrev pub rollout : Rollout Milli
rollout = record {
  rollout_iteration = 7;
  step_counter = 700;
  rollout_diagnostics = [];
  episode_extras = [];
  collect_time = some 1000;
  learn_time = some 2000;
  cuda_memory = none;
}

-- the checkpoint, its flush, the heartbeats, the acknowledgement, and three statuses
effects_written :
    length (complete_iteration machine (λ p. true) rollout (some "stop") (some 0) trainer).1.effects
    ≡ 7
unfolding complete_iteration
effects_written = refl

complete_iteration-IsBacked_example :
    IsBacked (complete_iteration machine (λ p. true) rollout (some "stop") (some 0) trainer).1
complete_iteration-IsBacked_example =
    complete_iteration-IsBacked machine (λ p. true) rollout (some "stop") (some 0) trainer
      (record { ledger = record { written = []; flushed = [] }; stands = refl })

service_request_once_example :
    service_request machine
      (λ p. true)
      (some "stop")
      8
      (some 9)
      (service_request machine (λ p. true) (some "stop") 7 (some 0) trainer).1
    ≡ (returned, (service_request machine (λ p. true) (some "stop") 7 (some 0) trainer).1)
unfolding read_json
service_request_once_example =
    service_request_once machine (λ p. true) (some "stop")
      (some (field "request_id" (str "r1") (field "action" (str "stop") end))) 7 8 (some 0) (some 9)
      trainer refl

abbrev failure : Failure
failure = record { error_class = "OSError"; text = [] }

learn_terminal_example :
    is_terminal (
      last_status
        (learn machine
          (λ p. true)
          ((rollout, some "stop", some 0) ∷ [])
          none
          failure
          7
          (make_runner (some "run/watchdog") 0 false)).effects)
    ≡ true
learn_terminal_example =
    learn_terminal machine (λ p. true) "run/watchdog" false ((rollout, some "stop", some 0) ∷ [])
      none failure 7
