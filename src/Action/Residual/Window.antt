-- ===== src/Action/Residual/Window.antt =====
-- The effort that the ResidualMPC action accumulates over a policy step.
use mc_mjlab.Prelude.{◌+◌, Bool, List, [], ◌∷◌, length, ◌≡◌, refl, arith}
use mc_mjlab.Float.{Float, nothing}
use mc_mjlab.Action.Residual.Joints.{
  Control, Joint, Bounds, Effort, apply_blended, mean_squared_effort, start_window,
}

-- the joint and the residual of one substep
pub record Substep (W : Type 0) : Type 0 where
  pub joint : Joint W
  pub control : Control W
  pub action : W

module _ {W : Type 0} ⦃f : Float W⦄ where
  pub sum_squares : W → List W → W
  sum_squares total [] = total
  sum_squares total (t ∷ ts) = sum_squares (f.add total (f.mul t t)) ts

module _ {W : Type 0} ⦃f : Float W⦄ (is_close : W → W → Bool) (b : Bounds W) (blend mask : W) where
  -- the substeps of a policy step, with the targets that they command
  pub blended_window : List (Substep W) → Effort W → List W × Effort W
  blended_window [] e = ([], e)
  blended_window (t ∷ ts) e =
      let (delivery, after) = apply_blended is_close b t.joint t.control blend mask t.action e in
      let (targets, last) = blended_window ts after in (delivery.target ∷ targets, last)

  window_sum :
      (ts : List (Substep W)) (e : Effort W)
      → ((blended_window ts e).1.effort_sq_sum
          ≡ sum_squares e.effort_sq_sum (blended_window ts e).0)
        × ((blended_window ts e).1.effort_substeps ≡ e.effort_substeps + length ts)
  unfolding blended_window sum_squares apply_blended
  window_sum [] e = (refl, omega arith)
  window_sum (t ∷ ts) e =
      let after = (apply_blended is_close b t.joint t.control blend mask t.action e).1 in
      let (total, count) = window_sum ts after in (total, ground (arith, count))

  -- The mean squared effort of a policy step counts each of its substeps' torques exactly once,
  -- whatever was accumulated before it.
  pub mean_squared_effort_window :
      (t : Substep W) (ts : List (Substep W)) (e : Effort W)
      → (let (targets, last) = blended_window (t ∷ ts) (start_window e) in
          mean_squared_effort last ≡ f.div (sum_squares nothing targets) (f.of_ℕ (length (t ∷ ts))))
  unfolding mean_squared_effort start_window
  mean_squared_effort_window t ts e =
      let (total, count) = window_sum (t ∷ ts) (start_window e) in ground (arith, total, count)
