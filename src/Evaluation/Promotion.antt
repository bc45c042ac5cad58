-- ===== src/Evaluation/Promotion.antt =====
-- `promotion` (scripts/evaluation/qualification.py): the gates on a checkpoint's summaries. A
-- reason is kept as the values it is printed from.
pub mod Eligible
use mc_mjlab.Prelude.{
  ℕ, ◌+◌, String, Bool, true, false, not, ◌&&◌, ◌||◌, Option, none, some, List, [], ◌∷◌, ◌++◌, map,
  ltb, if◌then◌else◌, length, contains, Result, ok, err, ◌>>=◌,
}
use mc_mjlab.Prelude.Dict.{Dict, get}
use mc_mjlab.Float.{Float, nothing, same, ratio}
use mc_mjlab.Evaluation.Statistics.{Stats, clusters_for_confidence}
use mc_mjlab.Evaluation.Comparing.{Comparison}

-- the entries of a scenario's summary that are read
pub record Summary (W : Type 0) : Type 0 where
  pub hazard : Comparison W
  pub pre_disturbance_hazard : Comparison W
  pub worker_failure : Comparison W
  pub recovery_dcm_error : Comparison W
  pub com_velocity_error : Comparison W
  pub zmp_error : Comparison W
  pub foot_slip : Comparison W
  pub projection_fraction : Comparison W
  pub near_bound_fraction : Comparison W
  pub max_effort_ratio : Comparison W
  pub gate_duty : Comparison W
  pub residual_rms : Comparison W

pub data Reason (W : Type 0) : Type 0 where
  worker_failed effort_exceeded projected near_bound scenario_hazard : String → Reason W
  duty_exceeded regressed_com recovery_unreadable recovery_insufficient baseline_hazardous :
      Reason W
  regressed_tracking : String → Reason W
  recovery_unresolved : W → W → Reason W
  hazard_exceeded : Option (ℕ × ℕ) → Reason W

pub record Verdict (W : Type 0) : Type 0 where
  pub reasons : List (Reason W)
  pub eligible : Bool
  pub recovery_gain : W
  pub negative_hazard : W
  pub negative_residual : W
  pub hazard_ratio : W
  pub invalidated_scenarios : List String

abbrev pub reason_if {ℓ} : {A : Type ℓ} → Bool → A → List A
reason_if true r = r ∷ []
reason_if false r = []

abbrev pub is_empty {ℓ} : {A : Type ℓ} → List A → Bool
is_empty [] = true
is_empty (x ∷ xs) = false

-- how many were scored, which is printed where some were not
abbrev pub suffix : List String → ℕ → ℕ → Option (ℕ × ℕ)
suffix [] n m = none
suffix (x ∷ xs) n m = some (n, m)

module _ {W : Type 0} ⦃f : Float W⦄ where
  -- `bool(x)` of a float; NaN is true
  abbrev pub truthy : W → Bool
  truthy x = not (same x nothing)

  abbrev pub is_invalid : Summary W → Bool
  is_invalid s = truthy s.worker_failure.baseline || truthy s.worker_failure.policy

  unfoldable pub scenario_reasons : String → Summary W → List (Reason W)
  scenario_reasons name s =
      reason_if (is_invalid s) (Reason.worker_failed name)
      ++ (reason_if (f.lt (ratio 10001 10000) s.max_effort_ratio.policy)
            (Reason.effort_exceeded name)
          ++ (reason_if (f.le (ratio 1 1000) s.projection_fraction.policy) (Reason.projected name)
              ++ reason_if (f.le (ratio 1 100) s.near_bound_fraction.policy)
                  (Reason.near_bound name)))

  -- the first loop
  unfoldable pub gate_reasons : Dict (Summary W) → List (Reason W)
  unfolding scenario_reasons
  gate_reasons [] = []
  gate_reasons ((name, s) ∷ rest) = scenario_reasons name s ++ gate_reasons rest

  unfoldable pub invalid : Dict (Summary W) → List String
  invalid [] = []
  invalid ((name, s) ∷ rest) = reason_if (is_invalid s) name ++ invalid rest

  -- Python's max(0.05, floor), where the floor is finite
  abbrev tracking_limit : W → W
  tracking_limit floor = if f.is_finite floor && f.lt (ratio 1 20) floor then floor else ratio 1 20

  unfoldable pub tracking_regressed : Comparison W → Bool
  tracking_regressed c =
      truthy c.baseline
      && f.le (tracking_limit (f.div (f.mul (f.of_ℕ 2) c.paired.sem) c.baseline))
          (f.div c.paired.ci_high c.baseline)

  unfoldable pub com_regressed : Comparison W → Bool
  com_regressed c = truthy c.baseline && f.le (ratio 1 20) (f.div c.paired.ci_high c.baseline)

  unfoldable pub nominal_reasons : Option (Summary W) → List (Reason W)
  unfolding tracking_regressed com_regressed
  nominal_reasons none = []
  nominal_reasons (some s) =
      reason_if (f.lt (ratio 1 20) s.gate_duty.policy) Reason.duty_exceeded
      ++ (reason_if (com_regressed s.com_velocity_error) Reason.regressed_com
          ++ (reason_if (tracking_regressed s.zmp_error) (Reason.regressed_tracking "zmp_error")
              ++ reason_if (tracking_regressed s.foot_slip)
                  (Reason.regressed_tracking "foot_slip")))

  -- 0 < base and the improvement is below 5%
  unfoldable pub is_insufficient : Comparison W → Bool
  is_insufficient c =
      truthy c.baseline && f.lt (f.div (f.neg c.paired.mean) c.baseline) (ratio 1 20)

  unfoldable pub is_unresolved : Comparison W → Bool
  is_unresolved c = truthy c.baseline && not (f.lt c.paired.ci_high nothing)

  unresolved : Stats W → ℕ → Reason W
  unresolved p clusters =
      Reason.recovery_unresolved p.clusters (clusters_for_confidence p.mean p.sem clusters 4096)

  unfoldable pub recovery_reasons : Option (Summary W) → Result (List (Reason W))
  unfolding is_insufficient is_unresolved unresolved
  recovery_reasons none = ok []
  recovery_reasons (some s) =
      let c = s.recovery_dcm_error in
      if is_insufficient c
      then ok (Reason.recovery_insufficient ∷ [])
      else if is_unresolved c
      then f.to_int c.paired.clusters >>= (λ n. ok (unresolved c.paired n ∷ []))
      else ok []

  unfoldable pub robust_reasons : Option (Summary W) → List (Reason W)
  robust_reasons none = []
  robust_reasons (some s) =
      reason_if (f.lt (ratio 1 20) s.pre_disturbance_hazard.baseline) Reason.baseline_hazardous

  -- the scenarios outside `names`
  unfoldable pub scored : List String → Dict (Summary W) → Dict (Summary W)
  scored names [] = []
  scored names ((name, s) ∷ rest) =
      let others = scored names rest in if contains name names then others else (name, s) ∷ others

  -- policy / base if base else (1.0 if not policy else math.inf)
  unfoldable pub hazard_ratio_of : W → W → W
  hazard_ratio_of base policy =
      if truthy base then f.div policy base else if truthy policy then f.infinity else f.of_ℕ 1

  abbrev hazards : (Comparison W → W) → Dict (Summary W) → W
  hazards side summaries = f.sum (map (λ (e : String × Summary W). side e.1.hazard) summaries)

  unfoldable pub overall_ratio : Dict (Summary W) → W
  unfolding hazard_ratio_of
  overall_ratio summaries =
      hazard_ratio_of (hazards (λ (c : Comparison W). c.baseline) summaries)
        (hazards (λ (c : Comparison W). c.policy) summaries)

  unfoldable pub hazard_reasons : Dict (Summary W) → List (Reason W)
  unfolding hazard_ratio_of
  hazard_reasons [] = []
  hazard_reasons ((name, s) ∷ rest) =
      reason_if (f.lt (ratio 11 10) (hazard_ratio_of s.hazard.baseline s.hazard.policy))
        (Reason.scenario_hazard name)
      ++ hazard_reasons rest

  unfoldable pub overall_reasons :
      List String → Dict (Summary W) → Dict (Summary W) → List (Reason W)
  unfolding overall_ratio
  overall_reasons names valid summaries =
      reason_if (not (is_empty valid) && f.lt (ratio 9 10) (overall_ratio valid))
        (Reason.hazard_exceeded (suffix names (length valid) (length summaries)))

  abbrev gain : Option (Summary W) → W
  gain none = f.neg f.infinity
  gain (some s) = f.neg s.recovery_dcm_error.relative

  -- sum / max(1, n)
  abbrev mean_residual : Dict (Summary W) → W
  mean_residual summaries =
      f.div (f.sum (map (λ (e : String × Summary W). e.1.residual_rms.policy) summaries))
        (f.of_ℕ (if ltb 1 (length summaries) then length summaries else 1))

  -- `sorted_names` is Python's `sorted` on strings
  unfoldable pub promotion : (List String → List String) → Dict (Summary W) → Result (Verdict W)
  unfolding gate_reasons invalid nominal_reasons recovery_reasons robust_reasons scored
      overall_ratio overall_reasons hazard_reasons
  promotion sorted_names summaries =
      let names = invalid summaries in
      let unreadable = contains "finite_impulse" names in
      let recovery = if unreadable then none else get summaries "finite_impulse" in
      let valid = scored names summaries in
      recovery_reasons recovery >>= λ recovered.
      let reasons =
        gate_reasons summaries
        ++ (nominal_reasons (get summaries "nominal")
            ++ (reason_if unreadable Reason.recovery_unreadable
                ++ (recovered
                    ++ (robust_reasons (get summaries "robust")
                        ++ (overall_reasons names valid summaries ++ hazard_reasons valid))))) in
      ok (record {
        reasons = reasons;
        eligible = is_empty reasons;
        recovery_gain = gain recovery;
        negative_hazard = f.neg (overall_ratio valid);
        negative_residual = f.neg (mean_residual summaries);
        hazard_ratio = overall_ratio valid;
        invalidated_scenarios = sorted_names names;
      })
