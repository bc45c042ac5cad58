-- ===== src/Evaluation/Strata.antt =====
-- scripts/evaluation/qualification_strata.py: the classification of a step, and the aggregates of
-- `StratifiedDiagnostics`, for one environment. What the source keeps in one tensor for each field
-- is one cell for each stratum here, in the order of `STRATUM_LABELS`.
pub mod Exposure
use mc_mjlab.Prelude.{
  ℕ, zero, suc, ◌+◌, ◌≤◌, String, Bool, true, false, not, ◌&&◌, List, [], ◌∷◌, map, leb, ◌==◌,
  if◌then◌else◌,
}
use mc_mjlab.Float.{Float, nothing, maximum, ratio}

-- `STRATUM_LABELS`: regime, axis and direction
abbrev pub Label : Type 0
Label = String × (String × String)

abbrev pub stratum_labels : List Label
stratum_labels =
    ("startup", ("none", "none"))
    ∷ ("sustained", ("none", "none"))
    ∷ ("recovery", ("sagittal", "forward"))
    ∷ ("recovery", ("sagittal", "backward"))
    ∷ ("recovery", ("lateral", "left"))
    ∷ ("recovery", ("lateral", "right"))
    ∷ []

-- one joint at a step: what is squared, and the effort over its limit
pub record JointReading (W : Type 0) : Type 0 where
  pub requested : W
  pub executed_normalized : W
  pub executed_physical : W
  pub is_projected : Bool
  pub effort : W

-- `SCALAR_METRICS`
pub record Scalars (W : Type 0) : Type 0 where
  pub com_velocity_error : W
  pub dcm_error : W
  pub zmp_error : W
  pub zmp_grounded : W
  pub foot_slip : W
  pub gate_mean : W
  pub detector_score : W
  pub max_effort_ratio : W

-- what is read at a step
pub record Reading (W : Type 0) : Type 0 where
  pub episode_steps : ℕ
  pub push_age : ℕ
  pub push_velocity : W × W
  pub scalars : Scalars W
  pub joints : List (JointReading W)

-- `JOINT_SUM_FIELDS` and `_joint_effort_max`
pub record JointSums (W : Type 0) : Type 0 where
  pub requested_square : W
  pub executed_normalized_square : W
  pub executed_physical_square : W
  pub projection : W
  pub near_bound : W
  pub active : W
  pub effort_ratio : W
  pub effort_max : W

-- the sums of a stratum; of the maxima only this one is reported
pub record Cell (W : Type 0) : Type 0 where
  pub count : ℕ
  pub sums : Scalars W
  pub effort_ratio_max : W
  pub joint_sums : List (JointSums W)

pub record Diagnostics (W : Type 0) : Type 0 where
  pub cells : List (Cell W)
  pub last_stratum : ℕ

pub record JointMetrics (W : Type 0) : Type 0 where
  pub authority_scale : W
  pub requested_normalized_rms : W
  pub executed_normalized_rms : W
  pub executed_physical_rms : W
  pub projection_fraction : W
  pub near_bound_fraction : W
  pub active_fraction : W
  pub effort_ratio_mean : W
  pub effort_ratio_peak : W

-- `StratumRecord`, less what identifies the run and the episode; `terminated` is whether the
-- terminations are those of the episode, or zero
pub record StratumRecord (W : Type 0) : Type 0 where
  pub label : Label
  pub steps : ℕ
  pub duration_s : W
  pub terminated : Bool
  pub metrics : List (String × W)
  pub joint_metrics : List (JointMetrics W)

module _ {W : Type 0} ⦃f : Float W⦄ where
  direction : W × W → ℕ
  direction (x, y) =
      if f.le (f.abs y) (f.abs x)
      then (if f.le nothing x then 2 else 3)
      else (if f.le nothing y then 4 else 5)

  -- `classify_strata`
  unfoldable pub classify : ℕ → ℕ → Reading W → ℕ
  unfolding direction
  classify warmup_steps recovery_steps r =
      if leb 1 r.push_age && leb r.push_age recovery_steps
      then direction r.push_velocity
      else if leb r.episode_steps warmup_steps
      then 0
      else 1

  indicator : Bool → W
  indicator b = if b then f.of_ℕ 1 else nothing

  add_scalars : Scalars W → Scalars W → Scalars W
  add_scalars s t = record {
    com_velocity_error = f.add s.com_velocity_error t.com_velocity_error;
    dcm_error = f.add s.dcm_error t.dcm_error;
    zmp_error = f.add s.zmp_error t.zmp_error;
    zmp_grounded = f.add s.zmp_grounded t.zmp_grounded;
    foot_slip = f.add s.foot_slip t.foot_slip;
    gate_mean = f.add s.gate_mean t.gate_mean;
    detector_score = f.add s.detector_score t.detector_score;
    max_effort_ratio = f.add s.max_effort_ratio t.max_effort_ratio;
  }

  add_joint : JointSums W → JointReading W → JointSums W
  unfolding indicator
  add_joint s j = record {
    requested_square = f.add s.requested_square (f.mul j.requested j.requested);
    executed_normalized_square =
        f.add s.executed_normalized_square (f.mul j.executed_normalized j.executed_normalized);
    executed_physical_square =
        f.add s.executed_physical_square (f.mul j.executed_physical j.executed_physical);
    projection = f.add s.projection (indicator j.is_projected);
    near_bound = f.add s.near_bound (indicator (f.le (ratio 99 100) (f.abs j.requested)));
    active = f.add s.active (indicator (f.lt (ratio 1 1000000000) (f.abs j.executed_physical)));
    effort_ratio = f.add s.effort_ratio j.effort;
    effort_max = maximum s.effort_max j.effort;
  }

  add_joints : List (JointSums W) → List (JointReading W) → List (JointSums W)
  unfolding add_joint
  add_joints (s ∷ ss) (j ∷ js) = add_joint s j ∷ add_joints ss js
  add_joints _ _ = []

  -- a step's values are added to its cell
  unfoldable pub add_reading : Reading W → Cell W → Cell W
  unfolding add_scalars add_joints
  add_reading r c = record {
    count = c.count + 1;
    sums = add_scalars c.sums r.scalars;
    effort_ratio_max = maximum c.effort_ratio_max r.scalars.max_effort_ratio;
    joint_sums = add_joints c.joint_sums r.joints;
  }

module _ {ℓ} {A : Type ℓ} where
  -- xs[i] = g(xs[i])
  unfoldable pub modify : ℕ → (A → A) → List A → List A
  modify i g [] = []
  modify zero g (x ∷ xs) = g x ∷ xs
  modify (suc i) g (x ∷ xs) = x ∷ modify i g xs

module _ {W : Type 0} ⦃f : Float W⦄ (warmup_steps recovery_steps : ℕ) where
  -- `capture`, which leaves an environment alone that is no longer active
  unfoldable pub capture : Bool → Reading W → Diagnostics W → Diagnostics W
  unfolding classify add_reading modify
  capture is_active r d =
      let stratum = classify warmup_steps recovery_steps r in
      if is_active
      then record { cells = modify stratum (add_reading r) d.cells; last_stratum = stratum }
      else d

module _ {W : Type 0} ⦃f : Float W⦄ where
  -- the accumulators of `residual_joints` joints, cleared
  abbrev pub no_joint_sums : JointSums W
  no_joint_sums = record {
    requested_square = nothing;
    executed_normalized_square = nothing;
    executed_physical_square = nothing;
    projection = nothing;
    near_bound = nothing;
    active = nothing;
    effort_ratio = nothing;
    effort_max = nothing;
  }

  abbrev pub no_scalars : Scalars W
  no_scalars = record {
    com_velocity_error = nothing;
    dcm_error = nothing;
    zmp_error = nothing;
    zmp_grounded = nothing;
    foot_slip = nothing;
    gate_mean = nothing;
    detector_score = nothing;
    max_effort_ratio = nothing;
  }

  unfoldable pub cleared_cell : Cell W → Cell W
  cleared_cell c = record {
    count = 0;
    sums = no_scalars;
    effort_ratio_max = nothing;
    joint_sums = map (λ s. no_joint_sums) c.joint_sums;
  }

  -- `_clear`
  unfoldable pub clear : Diagnostics W → Diagnostics W
  unfolding cleared_cell
  clear d = record { cells = map cleared_cell d.cells; last_stratum = 0 }

  safe_ratio : W → W → W
  safe_ratio numerator denominator =
      if f.lt nothing denominator then f.div numerator denominator else f.nan

  metrics_of : Cell W → List (String × W)
  unfolding safe_ratio
  metrics_of c =
      let n = f.of_ℕ c.count in
      ("grounded_fraction", f.div c.sums.zmp_grounded n)
      ∷ ("dcm_error_grounded", safe_ratio c.sums.dcm_error c.sums.zmp_grounded)
      ∷ ("zmp_error_grounded", safe_ratio c.sums.zmp_error c.sums.zmp_grounded)
      ∷ ("com_velocity_error", f.div c.sums.com_velocity_error n)
      ∷ ("foot_slip", f.div c.sums.foot_slip n)
      ∷ ("gate_duty", f.div c.sums.gate_mean n)
      ∷ ("detector_score", f.div c.sums.detector_score n)
      ∷ ("max_effort_ratio", c.effort_ratio_max)
      ∷ []

  joint_metrics_of : ℕ → List W → List (JointSums W) → List (JointMetrics W)
  joint_metrics_of count (scale ∷ scales) (s ∷ ss) =
      let n = f.of_ℕ count in
      record {
        authority_scale = scale;
        requested_normalized_rms = f.sqrt (f.div s.requested_square n);
        executed_normalized_rms = f.sqrt (f.div s.executed_normalized_square n);
        executed_physical_rms = f.sqrt (f.div s.executed_physical_square n);
        projection_fraction = f.div s.projection n;
        near_bound_fraction = f.div s.near_bound n;
        active_fraction = f.div s.active n;
        effort_ratio_mean = f.div s.effort_ratio n;
        effort_ratio_peak = s.effort_max;
      }
      ∷ joint_metrics_of count scales ss
  joint_metrics_of count _ _ = []

  record_of : W → List W → Bool → Label → Cell W → StratumRecord W
  unfolding metrics_of joint_metrics_of
  record_of step_dt scale is_last label c = record {
    label = label;
    steps = c.count;
    duration_s = f.mul (f.of_ℕ c.count) step_dt;
    terminated = is_last;
    metrics = metrics_of c;
    joint_metrics = joint_metrics_of c.count scale c.joint_sums;
  }

  -- the loop over the strata from `stratum` on
  unfoldable pub records_from :
      W → List W → ℕ → ℕ → List Label → List (Cell W) → List (StratumRecord W)
  unfolding record_of
  records_from step_dt scale last stratum (l ∷ ls) (c ∷ cs) =
      let rest = records_from step_dt scale last (suc stratum) ls cs in
      if c.count == 0 then rest else record_of step_dt scale (stratum == last) l c ∷ rest
  records_from step_dt scale last stratum _ _ = []

  -- `finish` of this environment
  unfoldable pub finish : W → List W → Diagnostics W → List (StratumRecord W) × Diagnostics W
  unfolding records_from clear
  finish step_dt scale d =
      (records_from step_dt scale d.last_stratum 0 stratum_labels d.cells, clear d)
