-- ===== src/Exchange/Filling.antt =====
-- `fill_controller_input` and `read_controller_output` of `SimControllerBridge`
-- (bridge/sim_controller_bridge.py), for one environment's row.
pub mod Slots
pub mod Indexed
pub mod Before
pub mod Wires
pub mod Told
use mc_mjlab.Prelude.{
  ℕ, zero, suc, ◌+◌, ◌*◌, String, Bool, true, false, Option, none, some, List, [], ◌∷◌, map, length,
  str_eq, if◌then◌else◌,
}
use mc_mjlab.Prelude.Dict.{Dict}
use mc_mjlab.Float.{Float, nothing}
use mc_mjlab.Exchange.{index, write_span, read_span, take}
use mc_mjlab.Action.Residual.{scatter, gather, filled}
use mc_mjlab.Exchange.Simulation.{
  InputLayout, q_offset, qd_offset, tau_offset, root_offset, body_sensors_offset,
  force_sensors_offset, sensor_stride, input_width, floating_base, Routes, Offsets, Simulated,
  Quaternions,
}

-- columns from an offset on
unfoldable pub shift : ℕ → List ℕ → List ℕ
shift offset [] = []
shift offset (i ∷ ids) = (offset + i) ∷ shift offset ids

module _ {W : Type 0} ⦃f : Float W⦄ where
  abbrev added : List W → List W → List W
  added (x ∷ xs) (y ∷ ys) = f.add x y ∷ added xs ys
  added _ _ = []

  abbrev subtracted : List W → List W → List W
  subtracted (x ∷ xs) (y ∷ ys) = f.sub x y ∷ subtracted xs ys
  subtracted _ _ = []

  -- block[ids] += offset, where there is one
  unfoldable pub add_at : List ℕ → Option (List W) → List W → List W
  unfolding scatter gather
  add_at ids none block = block
  add_at ids (some offset) block = scatter ids (added (gather nothing ids block) offset) block

  -- block[start : start + width] += offset, where there is one
  unfoldable pub add_span : ℕ → ℕ → Option (List W) → List W → List W
  unfolding write_span
  add_span start width none block = block
  add_span start width (some offset) block =
      write_span start (added (read_span start width block) offset) block

  -- one channel of the joints: what is not simulated is zero
  unfoldable pub fill_channel : ℕ → ℕ → List ℕ → List W → List W → List W
  unfolding write_span scatter shift
  fill_channel offset count ref_columns values block =
      scatter (shift offset ref_columns) values (write_span offset (filled nothing count) block)

  -- the encoders, whose other slots keep the stance
  unfoldable pub fill_encoders : Routes W → Simulated W → List W → List W
  unfolding scatter gather shift
  fill_encoders r s block =
      scatter (shift q_offset r.ref_columns) (gather nothing r.sim_columns s.joint_pos_biased) block

  unfoldable pub fill_joint_columns :
      InputLayout → Routes W → Offsets W → Simulated W → List W → List W
  unfolding fill_encoders fill_channel add_at gather shift
  fill_joint_columns l r o s block =
      let count = length l.joint_order in
      let velocities = gather nothing r.sim_columns s.joint_vel in
      let efforts = gather nothing r.dof_columns s.qfrc_actuator in
      let told =
        fill_channel (tau_offset l) count r.ref_columns efforts
          (fill_channel (qd_offset l) count r.ref_columns velocities (fill_encoders r s block)) in
      add_at (shift (qd_offset l) r.target_columns) o.joint_velocity_offset
        (add_at (shift q_offset r.target_columns) o.feedback_offset told)

  -- the root's position, orientation and velocity: the free joint's, or else the entity's
  abbrev root_pose : Option ℕ → Simulated W → List W
  root_pose none s = s.root_link_pos_w
  root_pose (some adr) s = read_span adr 3 s.qpos

  abbrev root_quat : Option ℕ → Simulated W → List W
  root_quat none s = s.root_link_quat_w
  root_quat (some adr) s = read_span (adr + 3) 4 s.qpos

  abbrev root_velocity : Option ℕ → Simulated W → List W
  root_velocity none s = s.root_link_lin_vel_w
  root_velocity (some adr) s = read_span adr 3 s.qvel

  unfoldable pub fill_root_columns : InputLayout → Routes W → Simulated W → List W → List W
  unfolding write_span
  fill_root_columns l r s block =
      let ro = root_offset l in
      write_span ro (subtracted (root_pose r.root_qpos_adr s) s.env_origin) (
        write_span (ro + 7) (root_velocity r.root_dof_adr s)
          (write_span (ro + 3) (root_quat r.root_qpos_adr s) block))

  abbrev synthesized : InputLayout → Option ℕ → Option ℕ → Simulated W → List W → List W
  unfolding write_span
  synthesized l (some i) (some da) s block =
      let off = body_sensors_offset l + sensor_stride * i in
      write_span (off + 3) (read_span da 3 s.qacc)
        (write_span off (read_span (da + 3) 3 s.qvel) block)
  synthesized l _ _ s block = block

  unfoldable pub fill_sensor_columns : InputLayout → Routes W → Simulated W → List W → List W
  unfolding write_span scatter gather index synthesized
  fill_sensor_columns l r s block =
      let width = sensor_stride * length l.body_sensors + sensor_stride * length l.force_sensors in
      let cleared = write_span (body_sensors_offset l) (filled nothing width) block in
      let routed = scatter r.sens_dst_cols (gather nothing r.sens_src_cols s.sensordata) cleared in
      synthesized l (index floating_base l.body_sensors) r.root_dof_adr s routed

  module _ (h : Quaternions W) where
    unfoldable pub quat_from_rotvec : List W → List W
    quat_from_rotvec rotvec = h.quat_from_angle_axis (h.vector_norm rotvec) rotvec

    -- block[off : off + 3], turned
    abbrev turn : List W → ℕ → List W → List W
    unfolding write_span quat_from_rotvec
    turn rotvec off block =
        write_span off (h.quat_apply (quat_from_rotvec rotvec) (read_span off 3 block)) block

    -- the body sensors turn against the root's rotation
    unfoldable pub turn_sensors : List W → List String → ℕ → List W → List W
    unfolding turn
    turn_sensors rotvec [] slot block = block
    turn_sensors rotvec (name ∷ names) slot block =
        turn_sensors rotvec names (slot + sensor_stride) (
          if str_eq name floating_base
          then block
          else turn rotvec (slot + 3) (turn rotvec slot block))

    unfoldable pub apply_rotation : InputLayout → Option (List W) → List W → List W
    unfolding write_span turn_sensors quat_from_rotvec
    apply_rotation l none block = block
    apply_rotation l (some rotvec) block =
        let turned = turn_sensors (map f.neg rotvec) l.body_sensors (body_sensors_offset l) block in
        let at = root_offset l + 3 in
        write_span at (h.quat_mul (read_span at 4 turned) (quat_from_rotvec rotvec)) turned

    unfoldable pub apply_state_feedback_offsets : InputLayout → Offsets W → List W → List W
    unfolding apply_rotation add_span
    apply_state_feedback_offsets l o block = apply_rotation l o.root_rotation_offset (
        add_span (root_offset l) 3 o.root_translation_offset (
          add_span (force_sensors_offset l) (sensor_stride * length l.force_sensors) o.wrench_offset
            block))

    -- `_input_block` after a period, with the rotation as xyzw
    unfoldable pub fill_block : InputLayout → Routes W → Offsets W → Simulated W → List W → List W
    unfolding fill_joint_columns fill_root_columns fill_sensor_columns apply_state_feedback_offsets
        gather write_span
    fill_block l r o s block =
        let ro = root_offset l in
        let told = apply_state_feedback_offsets l o (
          fill_sensor_columns l r s (fill_root_columns l r s (fill_joint_columns l r o s block))) in
        write_span (ro + 3) (gather nothing ((ro + 4) ∷ (ro + 5) ∷ (ro + 6) ∷ (ro + 3) ∷ []) told)
          told

    -- the block kept for the next period, and the row that the controller reads
    unfoldable pub fill_controller_input :
        InputLayout → Routes W → Offsets W → Simulated W → List W → List W → List W × List W
    unfolding fill_block write_span
    fill_controller_input l r o s block row =
        let filled_block = fill_block l r o s block in (filled_block, write_span 0 filled_block row)

  -- `_alloc_device_buffers`: the stance, then zeros
  unfoldable pub alloc_block : InputLayout → Routes W → List W
  unfolding write_span
  alloc_block l r = write_span q_offset r.stance (filled nothing (input_width l))

-- a channel's offset in the output row
abbrev pub output_offset : ℕ → String → ℕ
output_offset count c = if str_eq c "q" then 0 else if str_eq c "alpha" then count else 2 * count

module _ {W : Type 0} ⦃f : Float W⦄ where
  unfoldable pub read_controller_output : ℕ → List ℕ → List String → List W → Dict (List W)
  unfolding gather shift
  read_controller_output count target_columns [] block = []
  read_controller_output count target_columns (c ∷ channels) block =
      (c, gather nothing (shift (output_offset count c) target_columns) block)
      ∷ read_controller_output count target_columns channels block
