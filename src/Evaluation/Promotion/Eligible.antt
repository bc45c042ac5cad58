-- ===== src/Evaluation/Promotion/Eligible.antt =====
-- The verdict against the gates it stands for.
use mc_mjlab.Prelude.{String, Bool, true, false, not, ◌&&◌, Option, none, some, ◌≡◌, refl, All}
use mc_mjlab.Prelude.Dict.{Dict, get}
use mc_mjlab.Float.{Float, nothing, same, ratio}
use mc_mjlab.Evaluation.Promotion.{
  Summary, reason_if, is_empty, tracking_regressed, com_regressed, is_insufficient, is_unresolved,
  hazard_ratio_of, overall_ratio,
}

is_empty-reason_if {ℓ} : {A : Type ℓ} (c : Bool) (r : A) → is_empty (reason_if c r) ≡ not c
is_empty-reason_if true r = refl
is_empty-reason_if false r = refl

module _ {W : Type 0} ⦃f : Float W⦄ where
  -- no worker failed, and the hard limits hold
  pub record IsGated (s : Summary W) : Type 0 where
    pub baseline_worked : same s.worker_failure.baseline nothing ≡ true
    pub policy_worked : same s.worker_failure.policy nothing ≡ true
    pub effort : f.lt (ratio 10001 10000) s.max_effort_ratio.policy ≡ false
    pub projection : f.le (ratio 1 1000) s.projection_fraction.policy ≡ false
    pub near : f.le (ratio 1 100) s.near_bound_fraction.policy ≡ false

  abbrev pub IsSurviving : Summary W → Type 0
  IsSurviving s = f.lt (ratio 11 10) (hazard_ratio_of s.hazard.baseline s.hazard.policy) ≡ false

  -- the nominal scenario has little authority and no regression
  pub record IsNominal (s : Summary W) : Type 0 where
    pub duty : f.lt (ratio 1 20) s.gate_duty.policy ≡ false
    pub center_of_mass : com_regressed s.com_velocity_error ≡ false
    pub zmp : tracking_regressed s.zmp_error ≡ false
    pub slip : tracking_regressed s.foot_slip ≡ false

  -- recovery improves by 5% or more, and the interval excludes zero
  abbrev pub IsRecovering : Summary W → Type 0
  IsRecovering s =
      (is_insufficient s.recovery_dcm_error ≡ false) × (is_unresolved s.recovery_dcm_error ≡ false)

  abbrev pub IsRobust : Summary W → Type 0
  IsRobust s = f.lt (ratio 1 20) s.pre_disturbance_hazard.baseline ≡ false

  abbrev pub Holds : (Summary W → Type 0) → Option (Summary W) → Type 0
  Holds P none = Unit
  Holds P (some s) = P s

  pub record IsAcceptable (summaries : Dict (Summary W)) : Type 0 where
    pub gated : All (λ (e : String × Summary W). IsGated e.1) summaries
    pub surviving : All (λ (e : String × Summary W). IsSurviving e.1) summaries
    pub nominal : Holds IsNominal (get summaries "nominal")
    pub recovering : Holds IsRecovering (get summaries "finite_impulse")
    pub robust : Holds IsRobust (get summaries "robust")
    pub overall : not (is_empty summaries) && f.lt (ratio 9 10) (overall_ratio summaries) ≡ false
