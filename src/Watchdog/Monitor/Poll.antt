-- ===== src/Watchdog/Monitor/Poll.antt =====
-- scripts/watch_training.py: the checks of `main` before its loop, and one turn of the loop.
pub mod Protocol
pub mod Steps
pub mod Runs
pub mod Thresholds
use mc_mjlab.Prelude.{
  ℕ, zero, suc, ◌+◌, ◌-◌, ◌≤◌, String, Bool, true, false, not, ◌&&◌, ◌||◌, Option, none, some, List,
  [], ◌∷◌, ◌++◌, map, ltb, leb, ◌==◌, if◌then◌else◌, length, ℤ, pos, eq_ℤ, str_eq, Raised, Result,
  ok, err, value_error, os_error, runtime_error, ◌>>=◌, ◌>>◌, ensure,
}
use mc_mjlab.Prelude.Dict.{Dict, get}
use mc_mjlab.Float.{Float}
use mc_mjlab.Watchdog.Health.{
  Level, rank, WatchdogThresholds, HealthObservation, HealthDecision, Reason, decide_health,
  intervention_for,
}
use mc_mjlab.Watchdog.Runner.{
  RunState, completed, failed, stopped_by_watchdog, Status, Heartbeat, Response, unreadable,
  refused, acknowledged,
}
use mc_mjlab.Watchdog.Qualification.{
  Snapshot, Baseline, Regression, qualification_baseline, qualification_regressions,
}
use mc_mjlab.Watchdog.Monitor.{
  terminal_verdict, Request, Event, terminal, response_for, Runtime, Args, Sensed, Qualifying,
  Monitor, Outcome, watching, finished, same_token, is_empty, log, take_response, count_workers,
  act,
}

abbrev is_counting : ℕ → ℕ → ℕ → Bool
is_counting w p s = leb w p && leb p s

-- the texts of the reasons
pub record Texts (W : Type 0) : Type 0 where
  pub health : Reason W → String
  pub regression : Regression W → String

found_or_raise {ℓ} : {A : Type ℓ} → Option A → Result A
found_or_raise none = err os_error
found_or_raise (some a) = ok a

abbrev or_none {ℓ} : {A : Type ℓ} → Result A → Option A
or_none (err x) = none
or_none (ok a) = some a

module _ {W : Type 0} where
  abbrev attached : Option ℕ → Monitor W
  attached token = record {
    qualifying = record {
      token = token;
      samples = [];
      baseline = none;
      current = none;
      error = none;
      reasons = [];
      bad_streak = 0;
    };
    gpu_low_streak = 0;
    worker_baseline = none;
    preserve_acknowledged = false;
    stop_acknowledged = false;
    pending_request = none;
    last_event_signature = none;
    trace = [];
  }

module _ {W : Type 0} ⦃f : Float W⦄ where
  abbrev is_increasing : W → W → W → Bool
  is_increasing w p s = f.le w p && f.le p s

  unfoldable pub validate_thresholds : WatchdogThresholds W → Result (Unit {0})
  validate_thresholds t = do
    ensure
        (is_increasing t.heartbeat_warn_s t.heartbeat_preserve_s t.heartbeat_stop_s
          && is_increasing t.checkpoint_warn_s t.checkpoint_preserve_s t.checkpoint_stop_s
          && is_counting t.worker_warn t.worker_preserve t.worker_stop
          && is_counting t.qualification_warn t.qualification_preserve t.qualification_stop)
        value_error
    ensure (f.le t.gpu_preserve_mb t.gpu_warn_mb && f.le t.gpu_stop_mb t.gpu_preserve_mb)
        value_error

  -- `main` up to its loop; `token` is the modification time of a report that exists
  unfoldable pub attach : Args W → Option (Runtime W) → Bool → Option ℕ → Result (Monitor W)
  unfolding validate_thresholds found_or_raise
  attach args runtime is_live token = do
    validate_thresholds args.thresholds
    ensure (not (f.le args.poll_s (f.of_ℕ 0))) value_error
    ensure (not (args.qualification_baseline_samples == 0)) value_error
    r ← found_or_raise runtime
    ensure (eq_ℤ r.pid args.wanted_pid) runtime_error
    ensure is_live runtime_error
    ensure r.cooperative_stop_supported runtime_error
    ok (attached (if args.has_report then token else none))

  -- a sample before there is a baseline
  gather : Args W → Snapshot W → Qualifying W → Qualifying W
  unfolding qualification_baseline
  gather args s q =
      let samples = q.samples ++ s ∷ [] in
      record q {
        samples = samples;
        baseline =
            (if leb args.qualification_baseline_samples (length samples)
              then or_none (qualification_baseline samples)
              else none);
        reasons = [];
        bad_streak = 0;
      }

  compare : Args W → Baseline W → Snapshot W → Qualifying W → Qualifying W
  unfolding qualification_regressions
  compare args b s q =
      let reasons =
        qualification_regressions b s args.qualification_hazard_margin
          args.qualification_recovery_margin in
      record q { reasons = reasons; bad_streak = if is_empty reasons then 0 else q.bad_streak + 1 }

  use_snapshot : Args W → Option (Baseline W) → Snapshot W → Qualifying W → Qualifying W
  unfolding gather compare
  use_snapshot args none s q = gather args s q
  use_snapshot args (some b) s q = compare args b s q

  -- a report that could not be read leaves the token, so it is read again
  new_report : Args W → ℕ → Result (Snapshot W) → Qualifying W → Qualifying W
  unfolding use_snapshot
  new_report args token (err x) q = record q { error = some x }
  new_report args token (ok s) q =
      use_snapshot args q.baseline s
        (record q { token = some token; error = none; current = some s })

  unfoldable pub qualify : Args W → Option (ℕ × Result (Snapshot W)) → Qualifying W → Qualifying W
  unfolding new_report
  qualify args none q = q
  qualify args (some (token, read)) q =
      if args.has_report && not (same_token q.token token) then new_report args token read q else q

  abbrev low_streak : Option W → W → ℕ → ℕ
  low_streak none warn n = 0
  low_streak (some free) warn n = if f.le free warn then n + 1 else 0

  -- max(0.0, x)
  abbrev at_least_zero : W → W
  at_least_zero x = if f.lt (f.of_ℕ 0) x then x else f.of_ℕ 0

  abbrev beat_time : Option (Heartbeat W) → W → W
  beat_time none started = started
  beat_time (some h) started = h.updated_unix

  abbrev checkpoint_time : Option W → W → W
  checkpoint_time none started = started
  checkpoint_time (some t) started = t

  -- what the poll reads, before any response is taken
  sense : Args W → Sensed W → Monitor W → Monitor W
  unfolding count_workers qualify
  sense args s m = record m {
    qualifying = qualify args s.report m.qualifying;
    gpu_low_streak = low_streak s.gpu_free args.thresholds.gpu_warn_mb m.gpu_low_streak;
    worker_baseline = (count_workers s.heartbeat m.worker_baseline).1;
  }

  unfoldable pub observe : Args W → Runtime W → Sensed W → Monitor W → HealthObservation W
  unfolding count_workers qualify sense
  observe args r s m = record {
    heartbeat_age_s = at_least_zero (f.sub s.now (beat_time s.heartbeat r.started_unix));
    checkpoint_age_s =
        at_least_zero (f.sub s.now (checkpoint_time s.checkpoint_mtime r.started_unix));
    gpu_free_mb = s.gpu_free;
    gpu_low_streak = (sense args s m).gpu_low_streak;
    worker_failures = (count_workers s.heartbeat m.worker_baseline).0;
    qualification_bad_streak = (sense args s m).qualifying.bad_streak;
  }

  -- one turn of the loop
  unfoldable pub poll : Texts W → Args W → Runtime W → Sensed W → Monitor W → Outcome × Monitor W
  unfolding sense observe take_response response_for decide_health act terminal_verdict
  poll texts args r s m =
      if not s.alive
      then (let (verdict, message, code) = terminal_verdict s.status in
          (finished verdict code, log (terminal verdict message) m))
      else (let decision = decide_health (observe args r s m) args.thresholds in
          let seen = sense args s m in
          (
            watching,
            act args.max_level decision.level
                (map texts.health decision.reasons ++ map texts.regression seen.qualifying.reasons)
                s.fresh_id
                (take_response seen.pending_request (response_for s.response seen.pending_request)
                  seen),
          ))

  -- the later polls, unless this one broke the loop
  proceed : Outcome → Monitor W → Outcome × Monitor W → Outcome × Monitor W
  proceed watching m later = later
  proceed (finished v code) m later = (finished v code, m)

  -- the loop
  unfoldable pub watch :
      Texts W → Args W → Runtime W → List (Sensed W) → Monitor W → Outcome × Monitor W
  unfolding poll proceed
  watch texts args r [] m = (watching, m)
  watch texts args r (s ∷ rest) m =
      let (outcome, m') = poll texts args r s m in proceed outcome m' (watch texts args r rest m')
