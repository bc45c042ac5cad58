-- ===== src/Tests/Monitor.antt =====
-- A monitor that escalates: preserve, its acknowledgement, then a stop.
use mc_mjlab.Prelude.{
  String, true, false, Option, none, some, List, [], ◌∷◌, ◌≡◌, refl, pos, Result, ok, err,
}
use mc_mjlab.Float.{Milli, milli}
use mc_mjlab.Watchdog.Health.{Level, threshold_level, decide_health, intervention_for}
use mc_mjlab.Watchdog.Runner.{Response, acknowledged}
use mc_mjlab.Watchdog.Monitor.{
  Runtime, Args, Sensed, Monitor, requested, request_acknowledged, health_degraded, response_for,
}
use mc_mjlab.Watchdog.Monitor.Poll.{Texts, attach, watch}
use mc_mjlab.Watchdog.Monitor.Poll.Protocol.{IsAccepted}
use mc_mjlab.Watchdog.Monitor.Poll.Runs.{watch-IsAccepted}
use mc_mjlab.Tests.Watchdog.{defaults}

abbrev texts : Texts Milli
texts = record { health = λ r. "health"; regression = λ r. "regression" }

abbrev args : Args Milli
args = record {
  wanted_pid = pos 42;
  poll_s = some 30000;
  max_level = Level.stop;
  thresholds = defaults;
  has_report = false;
  qualification_baseline_samples = 2;
  qualification_hazard_margin = some 100;
  qualification_recovery_margin = some 50;
}

abbrev runtime : Runtime Milli
runtime = record { pid = pos 42; cooperative_stop_supported = true; started_unix = some 0 }

-- no heartbeat for an hour
abbrev silent : String → Option Response → Sensed Milli
silent id r = record {
  now = some 3600000;
  status = none;
  alive = true;
  heartbeat = none;
  checkpoint_mtime = some (some 3600000);
  gpu_free = none;
  report = none;
  response = r;
  fresh_id = id;
}

abbrev acknowledge : String → String → Option Response
acknowledge id action = some (acknowledged id action 7 "model_7.pt")

abbrev turns : List (Sensed Milli)
turns =
    silent "q1" none
    ∷ silent "q2" (acknowledge "q1" "preserve")
    ∷ silent "q3" none
    ∷ silent "q4" (acknowledge "q2" "stop")
    ∷ silent "q5" none
    ∷ []

abbrev or_idle : Result (Monitor Milli) → Monitor Milli
or_idle (ok m) = m
or_idle (err x) = record {
  qualifying = record {
    token = none;
    samples = [];
    baseline = none;
    current = none;
    error = none;
    reasons = [];
    bad_streak = 0;
  };
  gpu_low_streak = 0;
  worker_baseline = none;
  preserve_acknowledged = false;
  stop_acknowledged = true;
  pending_request = none;
  last_event_signature = none;
  trace = [];
}

abbrev pub start : Monitor Milli
start = or_idle (attach args (some runtime) true none)

-- a degradation and a request, twice, each with its acknowledgement
escalation :
    (watch texts args runtime turns start).1.trace
    ≡ health_degraded Level.stop ("health" ∷ []) (some Level.preserve)
      ∷ requested (record { request_id = "q1"; action = Level.preserve })
      ∷ request_acknowledged (record { request_id = "q1"; action = Level.preserve })
      ∷ health_degraded Level.stop ("health" ∷ []) (some Level.stop)
      ∷ requested (record { request_id = "q2"; action = Level.stop })
      ∷ request_acknowledged (record { request_id = "q2"; action = Level.stop })
      ∷ []
unfolding watch attach response_for decide_health threshold_level intervention_for
escalation = refl

watch-IsAccepted_example : IsAccepted Level.stop (watch texts args runtime turns start).1
unfolding attach
watch-IsAccepted_example = watch-IsAccepted texts args (some runtime) true none runtime turns refl
