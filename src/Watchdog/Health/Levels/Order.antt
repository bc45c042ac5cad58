-- ===== src/Watchdog/Health/Levels/Order.antt =====
-- Worse observations are not decided lower, and one low reading does not stop.
use mc_mjlab.Prelude.{ℕ, ◌≤◌, ◌≢◌, Option, none, some, arith}
use mc_mjlab.Float.{Float, IsOrdered, Le}
use mc_mjlab.Watchdog.Health.{
  stop, rank, WatchdogThresholds, HealthObservation, threshold_level, threshold_level_low,
  heartbeat_level, checkpoint_level, free_level, worker_level, qualification_level, decide_health,
}
use mc_mjlab.Watchdog.Health.Levels.{
  max_ℕ-mono, higher-ne-stop, damped-ne-stop, level_chain, decide_health-worst,
}

module _ {W : Type 0} ⦃f : Float W⦄ where
  threshold_level_mono :
      (laws : IsOrdered W) (a b w p s : W)
      → Le a b
      → rank (threshold_level a w p s) ≤ rank (threshold_level b w p s)
  unfolding threshold_level
  threshold_level_mono laws a b w p s h =
      ground (arith, laws.le_trans s a b, laws.le_trans p a b, laws.le_trans w a b)

  threshold_level_low_mono :
      (laws : IsOrdered W) (a b w p s : W)
      → Le b a
      → rank (threshold_level_low a w p s) ≤ rank (threshold_level_low b w p s)
  unfolding threshold_level_low
  threshold_level_low_mono laws a b w p s h =
      ground (arith, laws.le_trans b a s, laws.le_trans b a p, laws.le_trans b a w)

  -- free memory that is known to have fallen, or that has become known
  abbrev IsNoMore : Option W → Option W → Type 0
  IsNoMore none o = Unit
  IsNoMore (some a) none = ⊥
  IsNoMore (some a) (some b) = Le b a

  pub record IsWorse (o p : HealthObservation W) : Type 0 where
    pub heartbeat : Le o.heartbeat_age_s p.heartbeat_age_s
    pub checkpoint : Le o.checkpoint_age_s p.checkpoint_age_s
    pub memory : IsNoMore o.gpu_free_mb p.gpu_free_mb
    pub streak : o.gpu_low_streak ≤ p.gpu_low_streak
    pub workers : o.worker_failures ≤ p.worker_failures
    pub qualifications : o.qualification_bad_streak ≤ p.qualification_bad_streak

  free_level_mono :
      (laws : IsOrdered W) (a b : Option W) (m n : ℕ) (t : WatchdogThresholds W)
      → IsNoMore a b
      → m ≤ n
      → rank (free_level a m t) ≤ rank (free_level b n t)
  free_level_mono laws none b m n t h k = omega arith
  free_level_mono laws (some x) none m n t h k = absurd h
  free_level_mono laws (some x) (some y) m n t h k =
      ground
        (arith, threshold_level_low_mono laws x y t.gpu_warn_mb t.gpu_preserve_mb t.gpu_stop_mb)

  -- With ordered floats, an observation that is no better in any of its six facts is never decided
  -- to a lower level, whatever the thresholds.
  pub decide_health_mono :
      (laws : IsOrdered W) (o p : HealthObservation W) (t : WatchdogThresholds W)
      → IsWorse o p
      → rank (decide_health o t).level ≤ rank (decide_health p t).level
  decide_health_mono laws o p t h =
      rw ((decide_health-worst o t).0, (decide_health-worst p t).0)
        (max_ℕ-mono _ _ _ _
          (max_ℕ-mono _ _ _ _
            (max_ℕ-mono _ _ _ _
              (max_ℕ-mono _ _ _ _ (threshold_level_mono laws _ _ _ _ _ h.heartbeat)
                (threshold_level_mono laws _ _ _ _ _ h.checkpoint))
              (free_level_mono laws _ _ _ _ t h.memory h.streak))
            (threshold_level_mono laws _ _ _ _ _ (laws.of_ℕ_mono _ _ h.workers)))
          (threshold_level_mono laws _ _ _ _ _ (laws.of_ℕ_mono _ _ h.qualifications)))

  free_level-ne-stop :
      (free : Option W) (streak : ℕ) (t : WatchdogThresholds W)
      → streak ≤ 1
      → free_level free streak t ≢ stop
  free_level-ne-stop none streak t h = λ e. cc
  free_level-ne-stop (some x) streak t h = ground (
    arith,
    damped-ne-stop (threshold_level_low x t.gpu_warn_mb t.gpu_preserve_mb t.gpu_stop_mb) streak,
  )

  -- One low reading of the GPU's free memory does not stop a run: with at most one in a row and the
  -- other guards below `stop`, the decision is below `stop`.
  pub single_low_reading :
      (o : HealthObservation W) (t : WatchdogThresholds W)
      → o.gpu_low_streak ≤ 1
      → heartbeat_level o t ≢ stop
      → checkpoint_level o t ≢ stop
      → worker_level o t ≢ stop
      → qualification_level o t ≢ stop
      → (decide_health o t).level ≢ stop
  single_low_reading o t s a b c d = rw level_chain (
      higher-ne-stop _ _
        (higher-ne-stop _ _
          (higher-ne-stop _ _ (higher-ne-stop _ _ a b)
            (free_level-ne-stop o.gpu_free_mb o.gpu_low_streak t s))
          c)
        d)
