-- ===== src/Exchange/Filling/Before.antt =====
-- What is written after the joints leaves their positions.
use mc_mjlab.Prelude.{
  ℕ, zero, suc, ◌+◌, ◌*◌, ◌<◌, String, Option, none, some, List, [], ◌∷◌, ◌≡◌, refl, ◌∙◌, arith,
  length, get_elem?, str_eq, if-rule,
}
use mc_mjlab.Float.{Float, nothing}
use mc_mjlab.Exchange.{index}
use mc_mjlab.Action.Residual.{gather}
use mc_mjlab.Exchange.Simulation.{
  InputLayout, root_offset, body_sensors_offset, Routes, Offsets, Simulated, Quaternions,
  floating_base, sensor_stride,
}
use mc_mjlab.Exchange.Filling.{
  shift, added, add_at, add_span, fill_channel, fill_joint_columns, fill_root_columns,
  fill_sensor_columns, synthesized, turn_sensors, turn, apply_rotation,
  apply_state_feedback_offsets, fill_block,
}
use mc_mjlab.Exchange.Filling.Slots.{
  NotIn, AllDistinct, scatter_elsewhere, scatter_at, write_span_before, get_elem?-gather,
  shift-NotIn_before,
}
use mc_mjlab.Exchange.Filling.Indexed.{get_elem?-lt}

module _ {W : Type 0} ⦃f : Float W⦄ where
  pub add_at_elsewhere :
      (ids : List ℕ) (offset : Option (List W)) (block : List W) (c : ℕ)
      → NotIn c ids
      → get_elem? (add_at ids offset block) c ≡ get_elem? block c
  unfolding add_at
  add_at_elsewhere ids none block c h = refl
  add_at_elsewhere ids (some offset) block c h = scatter_elsewhere c ids _ block h

  get_elem?-added :
      (xs ys : List W) (k : ℕ) (x y : W)
      → get_elem? xs k ≡ some x
      → get_elem? ys k ≡ some y
      → get_elem? (added xs ys) k ≡ some (f.add x y)
  get_elem?-added [] ys k x y e g = cc e
  get_elem?-added (a ∷ xs) [] k x y e g = cc g
  get_elem?-added (a ∷ xs) (b ∷ ys) zero x y e g = ground (arith, e, g)
  get_elem?-added (a ∷ xs) (b ∷ ys) (suc k) x y e g = get_elem?-added xs ys k x y e g

  pub add_at_lem :
      (ids : List ℕ) (offset block : List W) (k c : ℕ) (x y : W)
      → AllDistinct ids
      → get_elem? ids k ≡ some c
      → get_elem? block c ≡ some x
      → get_elem? offset k ≡ some y
      → get_elem? (add_at ids (some offset) block) c ≡ some (f.add x y)
  unfolding add_at
  add_at_lem ids offset block k c x y d at old e =
      scatter_at ids _ block k c (f.add x y) d at
        (get_elem?-added (gather nothing ids block) offset k x y
          (get_elem?-gather nothing ids block k c x at old) e)
        (get_elem?-lt block c old)

  add_span_before :
      (start width : ℕ) (offset : Option (List W)) (block : List W) (c : ℕ)
      → c < start
      → get_elem? (add_span start width offset block) c ≡ get_elem? block c
  unfolding add_span
  add_span_before start width none block c h = refl
  add_span_before start width (some offset) block c h = write_span_before start c _ block h

  pub fill_channel_before :
      (offset count : ℕ) (ids : List ℕ) (values block : List W) (c : ℕ)
      → c < offset
      → get_elem? (fill_channel offset count ids values block) c ≡ get_elem? block c
  unfolding fill_channel
  fill_channel_before offset count ids values block c h =
      scatter_elsewhere c (shift offset ids) values _ (shift-NotIn_before offset c ids h)
      ∙ write_span_before offset c _ block h

  module _ (l : InputLayout) (c : ℕ) (early : c < length l.joint_order) where
    fill_root_before :
        (r : Routes W) (s : Simulated W) (block : List W)
        → get_elem? (fill_root_columns l r s block) c ≡ get_elem? block c
    unfolding fill_root_columns
    fill_root_before r s block =
        write_span_before (root_offset l) c _ _ (omega arith)
        ∙ write_span_before (root_offset l + 7) c _ _ (omega arith)
        ∙ write_span_before (root_offset l + 3) c _ block (omega arith)

    synthesized_before :
        (i da : Option ℕ) (s : Simulated W) (block : List W)
        → get_elem? (synthesized l i da s block) c ≡ get_elem? block c
    unfolding synthesized
    synthesized_before none da s block = refl
    synthesized_before (some i) none s block = refl
    synthesized_before (some i) (some da) s block =
        let off = body_sensors_offset l + sensor_stride * i in
        write_span_before (off + 3) c _ _ (omega arith)
        ∙ write_span_before off c _ block (omega arith)

    fill_sensors_before :
        (r : Routes W) (s : Simulated W) (block : List W)
        → NotIn c r.sens_dst_cols
        → get_elem? (fill_sensor_columns l r s block) c ≡ get_elem? block c
    unfolding fill_sensor_columns
    fill_sensors_before r s block out =
        synthesized_before (index floating_base l.body_sensors) r.root_dof_adr s _
        ∙ scatter_elsewhere c r.sens_dst_cols _ _ out
        ∙ write_span_before (body_sensors_offset l) c _ block (omega arith)

    module _ (h : Quaternions W) where
      turn_sensors_before :
          (rotvec : List W) (names : List String) (slot : ℕ) (block : List W)
          → c < slot
          → get_elem? (turn_sensors h rotvec names slot block) c ≡ get_elem? block c
      unfolding turn_sensors turn
      turn_sensors_before rotvec [] slot block e = refl
      turn_sensors_before rotvec (name ∷ names) slot block e =
          turn_sensors_before rotvec names (slot + sensor_stride) _ (omega arith)
          ∙ if-rule (λ b. get_elem? b c ≡ get_elem? block c) (str_eq name floating_base) (λ _. refl)
              (λ _.
                write_span_before (slot + 3) c _ _ (omega arith)
                ∙ write_span_before slot c _ block e)

      apply_rotation_before :
          (rotation : Option (List W)) (block : List W)
          → get_elem? (apply_rotation h l rotation block) c ≡ get_elem? block c
      unfolding apply_rotation
      apply_rotation_before none block = refl
      apply_rotation_before (some rotvec) block =
          write_span_before (root_offset l + 3) c _ _ (omega arith)
          ∙ turn_sensors_before _ l.body_sensors (body_sensors_offset l) block (omega arith)

      -- after the joints nothing writes to the positions
      pub fill_block_before :
          (r : Routes W) (o : Offsets W) (s : Simulated W) (block : List W)
          → NotIn c r.sens_dst_cols
          → get_elem? (fill_block h l r o s block) c
            ≡ get_elem? (fill_joint_columns l r o s block) c
      unfolding fill_block apply_state_feedback_offsets
      fill_block_before r o s block out =
          write_span_before (root_offset l + 3) c _ _ (omega arith)
          ∙ apply_rotation_before o.root_rotation_offset _
          ∙ add_span_before (root_offset l) 3 o.root_translation_offset _ c (omega arith)
          ∙ add_span_before _ _ o.wrench_offset _ c (omega arith)
          ∙ fill_sensors_before r s _ out
          ∙ fill_root_before r s _
