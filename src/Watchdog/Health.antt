-- ===== src/Watchdog/Health.antt =====
-- tasks/residual_balance/training_watchdog.py: thresholds, `decide_health` and `intervention_for`.
-- A reason is kept as the value that its text is printed from.
pub mod Levels
pub mod Requests
use mc_mjlab.Prelude.{
  ℕ, zero, suc, ◌+◌, ◌≤◌, ◌<◌, Bool, true, false, ◌&&◌, Option, none, some, List, [], ◌∷◌, ◌++◌,
  map, ltb, leb, ◌==◌, if◌then◌else◌,
}
use mc_mjlab.Float.{Float}

-- `LEVELS`
pub data Level : Type 0 where
  ok warn preserve stop : Level

abbrev pub rank : Level → ℕ
rank ok = 0
rank warn = 1
rank preserve = 2
rank stop = 3

abbrev pub is_ok : Level → Bool
is_ok ok = true
is_ok _ = false

pub record WatchdogThresholds (W : Type 0) : Type 0 where
  pub heartbeat_warn_s : W
  pub heartbeat_preserve_s : W
  pub heartbeat_stop_s : W
  pub checkpoint_warn_s : W
  pub checkpoint_preserve_s : W
  pub checkpoint_stop_s : W
  pub gpu_warn_mb : W
  pub gpu_preserve_mb : W
  pub gpu_stop_mb : W
  pub worker_warn : ℕ
  pub worker_preserve : ℕ
  pub worker_stop : ℕ
  pub qualification_warn : ℕ
  pub qualification_preserve : ℕ
  pub qualification_stop : ℕ

pub record HealthObservation (W : Type 0) : Type 0 where
  pub heartbeat_age_s : W
  pub checkpoint_age_s : W
  pub gpu_free_mb : Option W
  pub gpu_low_streak : ℕ
  pub worker_failures : ℕ
  pub qualification_bad_streak : ℕ

pub data Reason (W : Type 0) : Type 0 where
  heartbeat_stale : W → Reason W
  checkpoint_old : W → Reason W
  gpu_low : W → Reason W
  controller_failures : ℕ → Reason W
  bad_qualifications : ℕ → Reason W

pub record HealthDecision (W : Type 0) : Type 0 where
  pub level : Level
  pub reasons : List (Reason W)

-- a single low sample does not stop
abbrev damped : Level → ℕ → Level
damped stop streak = if ltb streak 2 then preserve else stop
damped level streak = level

-- max(..., key=LEVELS, default="ok")
abbrev pub higher : Level → Level → Level
higher a b = if ltb (rank a) (rank b) then b else a

abbrev pub issue {ℓ} : {A : Type ℓ} → Level → A → List (Level × A)
issue level r = if is_ok level then [] else (level, r) ∷ []

worst_from {ℓ} : {A : Type ℓ} → Level → List (Level × A) → Level
worst_from level [] = level
worst_from level ((l, r) ∷ rest) = worst_from (higher level l) rest

module _ {W : Type 0} ⦃f : Float W⦄ where
  -- `low_is_bad=False`
  unfoldable pub threshold_level : W → W → W → W → Level
  threshold_level value w p s =
      if f.le s value
      then stop
      else if f.le p value
      then preserve
      else if f.le w value
      then warn
      else ok

  -- `low_is_bad=True`
  unfoldable pub threshold_level_low : W → W → W → W → Level
  threshold_level_low value w p s =
      if f.le value s
      then stop
      else if f.le value p
      then preserve
      else if f.le value w
      then warn
      else ok

  abbrev free_level : Option W → ℕ → WatchdogThresholds W → Level
  free_level none streak t = ok
  free_level (some free) streak t =
      if ltb 0 streak
      then damped (threshold_level_low free t.gpu_warn_mb t.gpu_preserve_mb t.gpu_stop_mb) streak
      else ok

  -- the levels of the five guards
  abbrev pub heartbeat_level : HealthObservation W → WatchdogThresholds W → Level
  heartbeat_level o t =
      threshold_level o.heartbeat_age_s t.heartbeat_warn_s t.heartbeat_preserve_s t.heartbeat_stop_s

  abbrev pub checkpoint_level : HealthObservation W → WatchdogThresholds W → Level
  checkpoint_level o t =
      threshold_level o.checkpoint_age_s t.checkpoint_warn_s t.checkpoint_preserve_s
        t.checkpoint_stop_s

  abbrev pub gpu_level : HealthObservation W → WatchdogThresholds W → Level
  gpu_level o t = free_level o.gpu_free_mb o.gpu_low_streak t

  abbrev pub worker_level : HealthObservation W → WatchdogThresholds W → Level
  worker_level o t =
      threshold_level (f.of_ℕ o.worker_failures) (f.of_ℕ t.worker_warn) (f.of_ℕ t.worker_preserve)
        (f.of_ℕ t.worker_stop)

  abbrev pub qualification_level : HealthObservation W → WatchdogThresholds W → Level
  qualification_level o t =
      threshold_level (f.of_ℕ o.qualification_bad_streak) (f.of_ℕ t.qualification_warn)
        (f.of_ℕ t.qualification_preserve) (f.of_ℕ t.qualification_stop)

  abbrev gpu_issue : Level → Option W → List (Level × Reason W)
  gpu_issue level none = []
  gpu_issue level (some free) = issue level (gpu_low free)

  issues : HealthObservation W → WatchdogThresholds W → List (Level × Reason W)
  issues o t =
      issue (heartbeat_level o t) (heartbeat_stale o.heartbeat_age_s)
      ++ (issue (checkpoint_level o t) (checkpoint_old o.checkpoint_age_s)
          ++ (gpu_issue (gpu_level o t) o.gpu_free_mb
              ++ (issue (worker_level o t) (controller_failures o.worker_failures)
                  ++ issue (qualification_level o t)
                      (bad_qualifications o.qualification_bad_streak))))

  unfoldable pub decide_health : HealthObservation W → WatchdogThresholds W → HealthDecision W
  unfolding issues worst_from
  decide_health o t = record {
    level = worst_from ok (issues o t);
    reasons = map (λ (i : Level × Reason W). i.1) (issues o t);
  }

-- `None` when nothing is to be asked.
unfoldable pub intervention_for : Level → Level → Bool → Bool → Option Level
intervention_for desired maximum preserve_acknowledged request_pending =
    let bounded = (if ltb (rank maximum) (rank desired) then rank maximum else rank desired) in
    if request_pending
    then none
    else if ltb bounded 1
    then none
    else if bounded == 1
    then some warn
    else if leb 3 bounded && preserve_acknowledged
    then some stop
    else if (bounded == 2) && preserve_acknowledged
    then none
    else some preserve
