-- ===== src/Action/Residual/Delivered.antt =====
-- What is delivered of a residual: the columns it takes and the targets that are commanded.
use mc_mjlab.Prelude.{ℕ, Bool, true, not, ◌&&◌, List, [], ◌∷◌, any, all, ltb, ◌==◌}
use mc_mjlab.Float.{Float, IsOrdered, Le, clamp_bounds}
use mc_mjlab.Action.Residual.{Residual}
use mc_mjlab.Action.Residual.Joints.{
  Control, Joint, Bounds, Effort, project_residual, apply_position, nominal_effort, apply_torque,
  paper_torque_blend, apply_blended,
}

-- `i in ids`, and no id twice
abbrev pub has_id : ℕ → List ℕ → Bool
has_id i ids = any (λ (j : ℕ). j == i) ids

abbrev pub are_distinct : List ℕ → Bool
are_distinct [] = true
are_distinct (i ∷ ids) = not (has_id i ids) && are_distinct ids

abbrev pub are_below : ℕ → List ℕ → Bool
are_below n ids = all (λ (j : ℕ). ltb j n) ids

abbrev pub IsWithin : {W : Type 0} ⦃f : Float W⦄ → Bounds W → W → Type 0
IsWithin b x = Le b.lower x × Le x b.upper

module _ {W : Type 0} ⦃f : Float W⦄ (is_close : W → W → Bool) (laws : IsOrdered W) where
  project-IsWithin :
      (nominal residual : W) (b : Bounds W)
      → Le b.lower b.upper
      → Le (f.add nominal residual) (f.add nominal residual)
      → IsWithin b (project_residual is_close nominal residual b).target
  unfolding project_residual
  project-IsWithin nominal residual b o h =
      clamp_bounds laws (f.add nominal residual) b.lower b.upper o h

  -- Whatever the policy and the controller ask for, if it is a number, each action commands a
  -- target within the robot's bounds: the position and the velocity, the torque, and the blended
  -- torque.
  pub apply-IsWithin :
      (position velocity effort : Bounds W) (j : Joint W) (c : Control W) (r blend mask : W)
      (e : Effort W)
      → Le position.lower position.upper
      → Le velocity.lower velocity.upper
      → Le effort.lower effort.upper
      → (let p = f.add (f.sub c.q j.encoder_bias) r in Le p p)
      → Le c.alpha c.alpha
      → (let t = f.add (nominal_effort j c) r in Le t t)
      → (let t = f.add (nominal_effort j c) (paper_torque_blend j r blend mask).1 in Le t t)
      → IsWithin position (apply_position is_close position velocity j c r).0.target
        × IsWithin velocity (apply_position is_close position velocity j c r).1
        × IsWithin effort (apply_torque is_close effort j c r).target
        × IsWithin effort (apply_blended is_close effort j c blend mask r e).0.target
  unfolding apply_position apply_torque apply_blended
  apply-IsWithin position velocity effort j c r blend mask e po vo eo p a t b = (
    project-IsWithin (f.sub c.q j.encoder_bias) r position po p,
    clamp_bounds laws c.alpha velocity.lower velocity.upper vo a,
    project-IsWithin (nominal_effort j c) r effort eo t,
    project-IsWithin (nominal_effort j c) (paper_torque_blend j r blend mask).1 effort eo b,
  )
