-- ===== src/Watchdog/Health/Levels.antt =====
-- What `decide_health` decides.
pub mod Order
use mc_mjlab.Prelude.{
  ℕ, ◌≤◌, ◌≡◌, ◌≢◌, refl, false, Option, none, some, List, [], ◌∷◌, ◌++◌, map, arith, ltb,
  if◌then◌else◌, ◌∙◌, ap, subst, ◌↔◌,
}
use mc_mjlab.Float.{Float, IsOrdered, Le}
use mc_mjlab.Watchdog.Health.{
  Level, ok, warn, preserve, stop, rank, is_ok, WatchdogThresholds, HealthObservation, Reason,
  heartbeat_stale, checkpoint_old, controller_failures, bad_qualifications, threshold_level,
  threshold_level_low, heartbeat_level, checkpoint_level, gpu_level, free_level, worker_level,
  qualification_level, issue, gpu_issue, damped, gpu_low, higher, issues, worst_from, decide_health,
}

abbrev pub max_ℕ : ℕ → ℕ → ℕ
max_ℕ a b = if ltb a b then b else a

worst_from-issue {ℓ} :
    {A : Type ℓ} (l g : Level) (r : A) (rest : List (Level × A))
    → worst_from l (issue g r ++ rest) ≡ worst_from (higher l g) rest
unfolding worst_from
worst_from-issue l ok r rest = ground arith
worst_from-issue l warn r rest = refl
worst_from-issue l preserve r rest = refl
worst_from-issue l stop r rest = refl

rank-higher : (a b : Level) → rank (higher a b) ≡ max_ℕ (rank a) (rank b)
rank-higher a b = ground arith

rank-higher4 :
    (a b c d e : Level)
    → rank (higher (higher (higher (higher a b) c) d) e)
      ≡ max_ℕ (max_ℕ (max_ℕ (max_ℕ (rank a) (rank b)) (rank c)) (rank d)) (rank e)
rank-higher4 a b c d e =
    rank-higher (higher (higher (higher a b) c) d) e
    ∙ ap (λ (n : ℕ). max_ℕ n (rank e))
        (rank-higher (higher (higher a b) c) d
          ∙ ap (λ (n : ℕ). max_ℕ n (rank d))
              (rank-higher (higher a b) c ∙ ap (λ (n : ℕ). max_ℕ n (rank c)) (rank-higher a b)))

higher_ok : (g : Level) → higher ok g ≡ g
higher_ok ok = refl
higher_ok warn = refl
higher_ok preserve = refl
higher_ok stop = refl

max_ℕ-mono : (a b c d : ℕ) → a ≤ c → b ≤ d → max_ℕ a b ≤ max_ℕ c d
max_ℕ-mono a b c d h k = ground arith

higher-ne-stop : (a b : Level) → a ≢ stop → b ≢ stop → higher a b ≢ stop
higher-ne-stop a b h k = ground arith

damped-ne-stop : (g : Level) (streak : ℕ) → streak ≤ 1 → damped g streak ≢ stop
damped-ne-stop g streak h = ground arith

module _ {W : Type 0} ⦃f : Float W⦄ where
  worst_from-gpu_issue :
      (l g : Level) (free : Option W) (rest : List (Level × Reason W))
      → (free ≡ none → g ≡ ok)
      → worst_from l (gpu_issue g free ++ rest) ≡ worst_from (higher l g) rest
  worst_from-gpu_issue l g none rest h = rw (h refl) (ground arith)
  worst_from-gpu_issue l g (some x) rest h = worst_from-issue l g (gpu_low x) rest

module _ {W : Type 0} ⦃f : Float W⦄ where
  -- every issue has a level above `ok`
  data Loud : List (Level × Reason W) → Type 0 where
    quiet : Loud []
    loud :
        {g : Level} {r : Reason W} {xs : List (Level × Reason W)}
        → is_ok g ≡ false
        → Loud xs
        → Loud ((g, r) ∷ xs)

  Loud-issue :
      (g : Level) (r : Reason W) {rest : List (Level × Reason W)}
      → Loud rest
      → Loud (issue g r ++ rest)
  Loud-issue ok r l = l
  Loud-issue warn r l = loud refl l
  Loud-issue preserve r l = loud refl l
  Loud-issue stop r l = loud refl l

  Loud-gpu_issue :
      (g : Level) (free : Option W) {rest : List (Level × Reason W)}
      → Loud rest
      → Loud (gpu_issue g free ++ rest)
  Loud-gpu_issue g none l = l
  Loud-gpu_issue g (some x) l = Loud-issue g (gpu_low x) l

  last_issue : (g : Level) (r : Reason W) → issue g r ++ [] ≡ issue g r
  last_issue ok r = refl
  last_issue warn r = refl
  last_issue preserve r = refl
  last_issue stop r = refl

  worst_from-Loud :
      (l : Level) (xs : List (Level × Reason W))
      → Loud xs
      → worst_from l xs ≡ ok
      → (l ≡ ok) × (map (λ (i : Level × Reason W). i.1) xs ≡ [])
  unfolding worst_from
  worst_from-Loud l [] a h = (h, refl)
  worst_from-Loud l ((g, r) ∷ xs) (loud up a) h =
      let (both, _) = worst_from-Loud (higher l g) xs a h in absurd (ground arith)

  worst_from-silent :
      (xs : List (Level × Reason W))
      → map (λ (i : Level × Reason W). i.1) xs ≡ []
      → worst_from ok xs ≡ ok
  unfolding worst_from
  worst_from-silent [] h = refl
  worst_from-silent (x ∷ xs) h = cc

  issues-Loud : (o : HealthObservation W) (t : WatchdogThresholds W) → Loud (issues o t)
  unfolding issues
  issues-Loud o t = Loud-issue (heartbeat_level o t) (heartbeat_stale o.heartbeat_age_s) (
      Loud-issue (checkpoint_level o t) (checkpoint_old o.checkpoint_age_s) (
        Loud-gpu_issue (gpu_level o t) o.gpu_free_mb (
          Loud-issue (worker_level o t) (controller_failures o.worker_failures) (
            subst Loud
              (last_issue (qualification_level o t) (bad_qualifications o.qualification_bad_streak))
              (Loud-issue (qualification_level o t) (bad_qualifications o.qualification_bad_streak)
                quiet)))))

  worst_from-last : (l g : Level) (r : Reason W) → worst_from l (issue g r) ≡ higher l g
  unfolding worst_from
  worst_from-last l ok r = ground arith
  worst_from-last l warn r = refl
  worst_from-last l preserve r = refl
  worst_from-last l stop r = refl

  gpu_level-none :
      (o : HealthObservation W) (t : WatchdogThresholds W)
      → o.gpu_free_mb ≡ none
      → gpu_level o t ≡ ok
  gpu_level-none o t h = rw h

  level_chain :
      (o : HealthObservation W) (t : WatchdogThresholds W)
      → (decide_health o t).level
        ≡ higher
            (higher
              (higher (higher (heartbeat_level o t) (checkpoint_level o t)) (gpu_level o t))
              (worker_level o t))
            (qualification_level o t)
  unfolding decide_health
  level_chain o t =
      worst_from-issue ok (heartbeat_level o t) (heartbeat_stale o.heartbeat_age_s) _
      ∙ worst_from-issue _ (checkpoint_level o t) (checkpoint_old o.checkpoint_age_s) _
      ∙ worst_from-gpu_issue _ (gpu_level o t) o.gpu_free_mb _ (gpu_level-none o t)
      ∙ worst_from-issue _ (worker_level o t) (controller_failures o.worker_failures) _
      ∙ worst_from-last _ (qualification_level o t) (bad_qualifications o.qualification_bad_streak)
      ∙ ap
          (λ (l : Level).
            higher
              (higher (higher (higher l (checkpoint_level o t)) (gpu_level o t)) (worker_level o t))
              (qualification_level o t))
          (higher_ok (heartbeat_level o t))

  -- The decided level is the worst of the five guards' levels, and it is `ok` exactly when no
  -- reason is given.
  pub decide_health-worst :
      (o : HealthObservation W) (t : WatchdogThresholds W)
      → (rank (decide_health o t).level
          ≡ max_ℕ
              (max_ℕ
                (max_ℕ
                  (max_ℕ (rank (heartbeat_level o t)) (rank (checkpoint_level o t)))
                  (rank (gpu_level o t)))
                (rank (worker_level o t)))
              (rank (qualification_level o t)))
        × (((decide_health o t).level ≡ ok) ↔ ((decide_health o t).reasons ≡ []))
  unfolding decide_health
  decide_health-worst o t = (
    ap rank (level_chain o t)
        ∙ rank-higher4 (heartbeat_level o t) (checkpoint_level o t) (gpu_level o t)
            (worker_level o t) (qualification_level o t),
    (
      λ e. (worst_from-Loud ok (issues o t) (issues-Loud o t) e).1,
      λ e. worst_from-silent (issues o t) e,
    ),
  )
