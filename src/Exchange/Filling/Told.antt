-- ===== src/Exchange/Filling/Told.antt =====
-- The positions that a controller is told.
use mc_mjlab.Prelude.{
  ℕ, ◌<◌, String, false, Option, some, List, ◌≡◌, refl, sym, ap, ◌∙◌, arith, length, contains,
  get_elem?, ok, ok-injective, >>=-eq-ok, Option-cases, get_elem?-ne-none, inl, inr,
}
use mc_mjlab.Prelude.Dict.{Dict}
use mc_mjlab.Float.{Float, nothing}
use mc_mjlab.Exchange.{index}
use mc_mjlab.Exchange.Simulation.{
  InputLayout, qd_offset, tau_offset, Routes, Offsets, Simulated, Quaternions,
  resolve_sensor_routes, sim_columns, ref_columns, target_columns, resolve,
}
use mc_mjlab.Exchange.Filling.{
  shift, add_at, fill_encoders, fill_joint_columns, fill_block, fill_controller_input,
}
use mc_mjlab.Exchange.Filling.Slots.{
  Distinct, scatter_elsewhere, scatter_at, get_elem?-gather, shift-NotIn_before, shift-AllDistinct,
  get_elem?-shift_zero, shift_zero-NotIn, write_span_from,
}
use mc_mjlab.Exchange.Filling.Indexed.{
  get_elem?-index, get_elem?-columns, ref_columns-NotIn, ref_columns-AllDistinct,
  target_columns-ref_columns, get_elem?-target_columns, get_elem?-lt,
}
use mc_mjlab.Exchange.Filling.Wires.{resolve_sensor_routes-NotIn}
use mc_mjlab.Exchange.Filling.Before.{
  add_at_elsewhere, add_at_lem, fill_channel_before, fill_block_before,
}

index-lt : (n : String) (order : List String) (r : ℕ) → index n order ≡ some r → r < length order
index-lt n order r e = get_elem?-lt order r (get_elem?-index n order r e)

module _ {W : Type 0} ⦃f : Float W⦄ (sensor_adr : String → Option ℕ) (dofadr : String → ℕ)
    (root : Option (ℕ × ℕ)) (stance : Dict W) (names target_names : List String)
    (l : InputLayout) where
  -- what the constructor resolves
  resolved :
      (r : Routes W)
      → resolve sensor_adr dofadr root stance names target_names l ≡ ok r
      → (target_columns l.joint_order target_names ≡ ok r.target_columns)
        × (r.sim_columns ≡ sim_columns l.joint_order 0 names)
        × (r.ref_columns ≡ ref_columns l.joint_order names)
        × (r.sens_dst_cols ≡ (resolve_sensor_routes sensor_adr l).destinations)
  unfolding resolve
  resolved r h =
      let (targets, e, g) = >>=-eq-ok (target_columns l.joint_order target_names) _ h in
      let same = ok-injective g in
      (
        e ∙ ap (λ (v : Routes W). ok v.target_columns) same,
        sym (ap (λ (v : Routes W). v.sim_columns) same),
        sym (ap (λ (v : Routes W). v.ref_columns) same),
        sym (ap (λ (v : Routes W). v.sens_dst_cols) same),
      )

  module _ (r : Routes W)
      (routes : resolve sensor_adr dofadr root stance names target_names l ≡ ok r)
      (distinct : Distinct names) (distinct_targets : Distinct target_names) (s : Simulated W)
      (n : String) (c : ℕ) (slot : index n l.joint_order ≡ some c) where
    -- a simulated joint's encoder, in its slot of the block
    fill_encoders_lem :
        (block : List W) (i : ℕ) (y : W)
        → c < length block
        → get_elem? names i ≡ some n
        → get_elem? s.joint_pos_biased i ≡ some y
        → get_elem? (fill_encoders r s block) c ≡ some y
    unfolding fill_encoders
    fill_encoders_lem block i y short at read =
        let (targets, sims, refs, wires) = resolved r routes in
        let (k, ref, sim) = get_elem?-columns l.joint_order names 0 i c n at slot in
        let there : get_elem? (sim_columns l.joint_order 0 names) k ≡ some i =
          ground (arith, sim) in
        rw (refs, sims)
          (scatter_at (shift 0 (ref_columns l.joint_order names)) _ block k c y
            (shift-AllDistinct 0 _ (ref_columns-AllDistinct l.joint_order names distinct))
            (get_elem?-shift_zero _ k c ref)
            (get_elem?-gather nothing _ s.joint_pos_biased k i y there read) short)

    early : c < length l.joint_order
    early = index-lt n l.joint_order c slot

    -- what is written after the encoders, but for the feedback, is elsewhere
    around_feedback :
        (o : Offsets W) (h : Quaternions W) (block : List W) (v : W)
        → ((told : List W)
            → get_elem? told c ≡ get_elem? (fill_encoders r s block) c
            → get_elem? (add_at (shift 0 r.target_columns) o.feedback_offset told) c ≡ some v)
        → get_elem? (fill_block h l r o s block) c ≡ some v
    unfolding fill_joint_columns
    around_feedback o h block v kept =
        let (targets, sims, refs, wires) = resolved r routes in
        let count = length l.joint_order in
        let out = resolve_sensor_routes-NotIn sensor_adr c l early in
        fill_block_before l c early h r o s block (rw wires out)
        ∙ add_at_elsewhere (shift (qd_offset l) r.target_columns) o.joint_velocity_offset _ c
            (shift-NotIn_before (qd_offset l) c r.target_columns early)
        ∙ kept _ (
            fill_channel_before (tau_offset l) count r.ref_columns _ _ c (omega (arith, early))
            ∙ fill_channel_before (qd_offset l) count r.ref_columns _ _ c early)

    to_row :
        (o : Offsets W) (h : Quaternions W) (block row : List W) (v : W)
        → c < length row
        → get_elem? (fill_block h l r o s block) c ≡ some v
        → get_elem? (fill_controller_input h l r o s block row).1 c ≡ some v
    unfolding fill_controller_input
    to_row o h block row v short e = elim (Option-cases (get_elem? row c)) [
      | inl out ↦ absurd (get_elem?-ne-none row c short out)
      | inr (old, there) ↦ rw (write_span_from c (fill_block h l r o s block) row, there, e) refl
    ]

    -- The row that the controller reads has, in the slot of a simulated joint, the joint's encoder
    -- and its feedback, which is added once to it. The names of the joints and of the targets are
    -- distinct, as mjlab's are.
    pub told_position :
        (o : Offsets W) (h : Quaternions W) (block row feedback : List W) (i t : ℕ) (y x : W)
        → c < length block
        → c < length row
        → get_elem? names i ≡ some n
        → get_elem? s.joint_pos_biased i ≡ some y
        → get_elem? target_names t ≡ some n
        → o.feedback_offset ≡ some feedback
        → get_elem? feedback t ≡ some x
        → get_elem? (fill_controller_input h l r o s block row).1 c ≡ some (f.add y x)
    told_position o h block row feedback i t y x short width at read target fed bias =
        let (targets, sims, refs, wires) = resolved r routes in
        to_row o h block row (f.add y x) width (
          around_feedback o h block (f.add y x) (λ told e. rw fed (
            add_at_lem (shift 0 r.target_columns) feedback told t c y x
              (shift-AllDistinct 0 _ (
                rw (target_columns-ref_columns l.joint_order target_names targets)
                  (ref_columns-AllDistinct l.joint_order target_names distinct_targets)))
              (get_elem?-shift_zero _ t c
                (get_elem?-target_columns l.joint_order target_names t c n targets target slot))
              (e ∙ fill_encoders_lem block i y short at read) bias)))

    -- The slot of a joint that is not simulated keeps its value in the block for the next period,
    -- and the controller reads it.
    pub stance_kept :
        (o : Offsets W) (h : Quaternions W) (block row : List W) (y : W)
        → c < length row
        → contains n names ≡ false
        → contains n target_names ≡ false
        → get_elem? block c ≡ some y
        → (get_elem? (fill_controller_input h l r o s block row).0 c ≡ some y)
          × (get_elem? (fill_controller_input h l r o s block row).1 c ≡ some y)
    unfolding fill_encoders fill_controller_input
    stance_kept o h block row y width absent untargeted old =
        let (targets, sims, refs, wires) = resolved r routes in
        let out = ref_columns-NotIn l.joint_order names c n absent slot in
        let untold = ref_columns-NotIn l.joint_order target_names c n untargeted slot in
        let kept = around_feedback o h block y (λ told e.
          add_at_elsewhere (shift 0 r.target_columns) o.feedback_offset told c (
            shift_zero-NotIn c _
              (rw (target_columns-ref_columns l.joint_order target_names targets) untold))
          ∙ e
          ∙ scatter_elsewhere c (shift 0 r.ref_columns) _ block
              (shift_zero-NotIn c r.ref_columns (rw refs out))
          ∙ old) in
        (kept, to_row o h block row y width kept)
