-- ===== src/Action/Blended.antt =====
-- The state of `ResidualMpcJointTorqueAction` (actions/residual_mpc_joint_torque_action.py) over
-- policy steps, for one environment; `Action.Residual` is its base class, and
-- Action/Residual/Joints has its `_apply_control`. `effort_substeps`, which all environments share,
-- is in each joint's effort.
pub mod History
use mc_mjlab.Prelude.{
  ℕ, zero, suc, ◌&&◌, String, Bool, true, false, not, Option, none, some, List, [], ◌∷◌, map, set,
  length, if◌then◌else◌, Result, ok, err, value_error, ◌>>=◌, ◌>>◌, ensure,
}
use mc_mjlab.Float.{Float, nothing, clamp}
use mc_mjlab.Exchange.{index}
use mc_mjlab.Robots.Gains.{Actuator}
use mc_mjlab.Action.Residual
use mc_mjlab.Action.Residual.{Residual, Affine, fill, filled, scatter, narrow, process_actions}
use mc_mjlab.Action.Residual.Joints.{Effort, Bounds, start_window, paper_joint_action_scale}

pub record Blended (W : Type 0) : Type 0 where
  pub residual : Residual W
  pub previous_joint_action : List W
  pub second_previous_joint_action : List W
  pub efforts : List (Effort W)
  pub blend_factor : W
  pub effort_lower : List W
  pub effort_upper : List W
  pub scale : List W

module _ {W : Type 0} ⦃f : Float W⦄ where
  -- the constructor's checks of its configuration
  unfoldable pub check_configuration : W → W → Result (Unit {0})
  check_configuration blend_factor action_scale_blend_factor = do
    ensure (f.le nothing blend_factor && f.le blend_factor (f.of_ℕ 1)) value_error
    ensure (not (f.le action_scale_blend_factor nothing)) value_error

  -- one for the joints with a residual, else zero
  unfoldable pub residual_mask : Option (List ℕ) → ℕ → List W
  unfolding scatter
  residual_mask none num_targets = filled (f.of_ℕ 1) num_targets
  residual_mask (some ids) num_targets =
      scatter ids (filled (f.of_ℕ 1) (length ids)) (filled nothing num_targets)

  unfoldable pub start_step : List (Affine W) → Option W → List W → Blended W → Blended W
  unfolding start_window process_actions
  start_step columns authority actions s = record s {
    efforts = map start_window s.efforts;
    previous_joint_action = s.residual.processed_actions;
    second_previous_joint_action = s.previous_joint_action;
    residual =
        process_actions columns authority (map (λ x. clamp x (f.neg (f.of_ℕ 1)) (f.of_ℕ 1)) actions)
          s.residual;
  }

  abbrev no_effort : Effort W → Effort W
  no_effort e = record e {
    nominal_torque = nothing;
    residual_torque = nothing;
    blended_residual_torque = nothing;
    final_effort = nothing;
    effort_sq_sum = nothing;
  }

  unfoldable pub reset_blended : Bool → Blended W → Blended W
  unfolding Residual.reset
  reset_blended has_authority s =
      let base = Residual.reset has_authority s.residual in
      record s {
        residual = record base { processed_actions = fill nothing base.processed_actions };
        previous_joint_action = fill nothing s.previous_joint_action;
        second_previous_joint_action = fill nothing s.second_previous_joint_action;
        efforts = map no_effort s.efforts;
      }

  -- `refresh_effort_limits_and_action_scale`: the limits of the actuators that have one
  abbrev write_limit : Option ℕ → W → List W × List W → List W × List W
  write_limit none limit bounds = bounds
  write_limit (some i) limit (lower, upper) = (set lower i (f.neg limit), set upper i limit)

  unfoldable pub limit_columns :
      List String → List String → List W → List W × List W → List W × List W
  unfolding index
  limit_columns target_names (n ∷ names) (x ∷ limits) bounds =
      limit_columns target_names names limits (write_limit (index n target_names) x bounds)
  limit_columns target_names _ _ bounds = bounds

  abbrev limit_actuator :
      List String → List String → Option (List W) → List W × List W → List W × List W
  unfolding limit_columns
  limit_actuator target_names names none bounds = bounds
  limit_actuator target_names names (some limits) bounds =
      limit_columns target_names names limits bounds

  unfoldable pub refresh_limits :
      List String → List (Actuator W) → List W × List W → List W × List W
  unfolding limit_actuator
  refresh_limits target_names [] bounds = bounds
  refresh_limits target_names (a ∷ actuators) bounds =
      refresh_limits target_names actuators
        (limit_actuator target_names a.target_names a.force_limit bounds)

  abbrev scales : W → List W → List W → List W
  unfolding paper_joint_action_scale
  scales blend_factor (e ∷ efforts) (k ∷ gains) =
      paper_joint_action_scale (f.abs e) k blend_factor ∷ scales blend_factor efforts gains
  scales blend_factor _ _ = []

  unfoldable pub refresh_effort_limits_and_action_scale :
      List String → List (Actuator W) → Option (List ℕ) → List W → W → Blended W → Blended W
  unfolding refresh_limits scales
  refresh_effort_limits_and_action_scale target_names actuators ids kp blend_factor s =
      let (lower, upper) = refresh_limits target_names actuators (s.effort_lower, s.effort_upper) in
      record s {
        effort_lower = lower;
        effort_upper = upper;
        scale = scales blend_factor (narrow nothing ids upper) (narrow nothing ids kp);
      }

  unfoldable pub set_blend_factor : W → Blended W → Result (Blended W)
  set_blend_factor value s = do
    ensure (f.is_finite value && not (f.lt value nothing) && not (f.lt (f.of_ℕ 1) value))
        value_error
    ok (record s { blend_factor = value })
