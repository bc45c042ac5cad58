-- ===== src/Watchdog/Monitor/Poll/Thresholds.antt =====
-- What accepted thresholds mean for the guards.
use mc_mjlab.Prelude.{◌≤◌, some, ◌≡◌, ◌↔◌, arith, ok}
use mc_mjlab.Float.{Float, IsOrdered, Le}
use mc_mjlab.Watchdog.Health.{
  rank, WatchdogThresholds, HealthObservation, threshold_level, threshold_level_low,
  heartbeat_level, gpu_level,
}
use mc_mjlab.Watchdog.Monitor.Poll.{validate_thresholds}

module _ {W : Type 0} ⦃f : Float W⦄ where
  threshold_level_ladder :
      (laws : IsOrdered W) (v w p s : W)
      → Le w p
      → Le p s
      → let l = threshold_level v w p s in
        ((1 ≤ rank l) ↔ Le w v) × ((2 ≤ rank l) ↔ Le p v) × ((3 ≤ rank l) ↔ Le s v)
  unfolding threshold_level
  threshold_level_ladder laws v w p s h k =
      ground (arith, laws.le_trans w p v, laws.le_trans p s v, laws.le_trans w s v)

  threshold_level_low_ladder :
      (laws : IsOrdered W) (v w p s : W)
      → Le p w
      → Le s p
      → let l = threshold_level_low v w p s in
        ((1 ≤ rank l) ↔ Le v w) × ((2 ≤ rank l) ↔ Le v p) × ((3 ≤ rank l) ↔ Le v s)
  unfolding threshold_level_low
  threshold_level_low_ladder laws v w p s h k =
      ground (arith, laws.le_trans v p w, laws.le_trans v s p, laws.le_trans v s w)

  -- With thresholds that the monitor accepts, and ordered floats, the heartbeat's guard is at
  -- `warn` or above exactly when the age reaches the warn threshold, and so for `preserve` and
  -- `stop`; and with two low readings in a row, the memory's guard exactly when the free memory is
  -- down to it.
  pub validate_thresholds_ladder :
      (laws : IsOrdered W) (t : WatchdogThresholds W) (o : HealthObservation W) (free : W)
      → validate_thresholds t ≡ ok tt
      → ((1 ≤ rank (heartbeat_level o t)) ↔ Le t.heartbeat_warn_s o.heartbeat_age_s)
        × ((2 ≤ rank (heartbeat_level o t)) ↔ Le t.heartbeat_preserve_s o.heartbeat_age_s)
        × ((3 ≤ rank (heartbeat_level o t)) ↔ Le t.heartbeat_stop_s o.heartbeat_age_s)
        × (o.gpu_free_mb ≡ some free
            → 2 ≤ o.gpu_low_streak
            → ((1 ≤ rank (gpu_level o t)) ↔ Le free t.gpu_warn_mb)
              × ((2 ≤ rank (gpu_level o t)) ↔ Le free t.gpu_preserve_mb)
              × ((3 ≤ rank (gpu_level o t)) ↔ Le free t.gpu_stop_mb))
  unfolding validate_thresholds
  validate_thresholds_ladder laws t o free h = ground (
    arith,
    threshold_level_ladder laws o.heartbeat_age_s t.heartbeat_warn_s t.heartbeat_preserve_s
        t.heartbeat_stop_s,
    threshold_level_low_ladder laws free t.gpu_warn_mb t.gpu_preserve_mb t.gpu_stop_mb,
  )
