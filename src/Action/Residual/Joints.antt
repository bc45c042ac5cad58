-- ===== src/Action/Residual/Joints.antt =====
-- The commands of one joint: residuals/safety.py, the blend of residuals/mpc_math.py, and
-- `_apply_control` of the position, torque and ResidualMPC actions, whose operations are
-- elementwise.
use mc_mjlab.Prelude.{ℕ, ◌+◌, Bool, not, if◌then◌else◌, ◌==◌}
use mc_mjlab.Float.{Float, nothing, same, minimum, clamp, ratio}

-- the channels of the controller's output, interpolated
pub record Control (W : Type 0) : Type 0 where
  pub q : W
  pub alpha : W
  pub tau : W

-- what is read from the simulation, and the joint's gains
pub record Joint (W : Type 0) : Type 0 where
  pub encoder_bias : W
  pub joint_pos_biased : W
  pub joint_vel : W
  pub default_joint_pos : W
  pub kp : W
  pub kd : W

pub record Bounds (W : Type 0) : Type 0 where
  pub lower : W
  pub upper : W

-- the target that is commanded, and what is returned to `apply_actions`
pub record Delivery (W : Type 0) : Type 0 where
  pub target : W
  pub executed : W
  pub projected : Bool

-- the effort that the ResidualMPC action accumulates over a policy step
pub record Effort (W : Type 0) : Type 0 where
  pub nominal_torque : W
  pub residual_torque : W
  pub blended_residual_torque : W
  pub final_effort : W
  pub effort_sq_sum : W
  pub effort_substeps : ℕ

module _ {W : Type 0} ⦃f : Float W⦄ where
  -- the controller's torque, or the PD law on its targets where it commands none
  unfoldable pub nominal_effort : Joint W → Control W → W
  nominal_effort j c =
      let fallback =
        f.add (f.mul j.kp (f.sub c.q j.joint_pos_biased))
          (f.mul j.kd (f.sub c.alpha j.joint_vel)) in
      if same c.tau nothing then fallback else c.tau

  -- the posture residual and its blended part; the mask is one for a residual joint, else zero
  unfoldable pub paper_torque_blend : Joint W → W → W → W → W × W
  paper_torque_blend j joint_action blend_factor residual_mask =
      let posture =
        f.sub (f.mul j.kp (f.sub (f.add joint_action j.default_joint_pos) j.joint_pos_biased))
          (f.mul j.kd j.joint_vel) in
      let residual = f.mul posture residual_mask in (residual, f.mul blend_factor residual)

-- `is_close` is torch.isclose at the tolerances of the source
module _ {W : Type 0} ⦃f : Float W⦄ (is_close : W → W → Bool) where
  unfoldable pub project_residual : W → W → Bounds W → Delivery W
  project_residual nominal residual b =
      let safe_nominal = clamp nominal b.lower b.upper in
      let target = clamp (f.add nominal residual) b.lower b.upper in
      let executed = f.sub target safe_nominal in
      record { target = target; executed = executed; projected = not (is_close executed residual) }

  -- the position action: the joint's target, and the velocity target
  unfoldable pub apply_position : Bounds W → Bounds W → Joint W → Control W → W → Delivery W × W
  unfolding project_residual
  apply_position position velocity j c residual = (
    project_residual (f.sub c.q j.encoder_bias) residual position,
    clamp c.alpha velocity.lower velocity.upper,
  )

  unfoldable pub apply_torque : Bounds W → Joint W → Control W → W → Delivery W
  unfolding project_residual nominal_effort
  apply_torque effort j c residual = project_residual (nominal_effort j c) residual effort

  -- the ResidualMPC action
  unfoldable pub apply_blended :
      Bounds W → Joint W → Control W → W → W → W → Effort W → Delivery W × Effort W
  unfolding project_residual nominal_effort paper_torque_blend
  apply_blended effort j c blend_factor residual_mask joint_action e =
      let (residual, blended) = paper_torque_blend j joint_action blend_factor residual_mask in
      let delivery = project_residual (nominal_effort j c) blended effort in
      (
        delivery,
        record {
          nominal_torque = nominal_effort j c;
          residual_torque = residual;
          blended_residual_torque = blended;
          final_effort = delivery.target;
          effort_sq_sum = f.add e.effort_sq_sum (f.mul delivery.target delivery.target);
          effort_substeps = e.effort_substeps + 1;
        },
      )

module _ {W : Type 0} ⦃f : Float W⦄ where
  unfoldable pub mean_squared_effort : Effort W → W
  mean_squared_effort e =
      if e.effort_substeps == 0
      then f.mul e.final_effort e.final_effort
      else f.div e.effort_sq_sum (f.of_ℕ e.effort_substeps)

  -- `process_actions` starts the window again
  unfoldable pub start_window : Effort W → Effort W
  start_window e = record e { effort_sq_sum = nothing; effort_substeps = 0 }

  unfoldable pub paper_joint_action_scale : W → W → W → W
  paper_joint_action_scale effort_limit kp blend_factor =
      f.div (minimum (ratio 1 100) (f.div (f.mul (ratio 1 5) (f.abs effort_limit)) kp)) blend_factor
