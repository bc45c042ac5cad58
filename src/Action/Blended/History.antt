-- ===== src/Action/Blended/History.antt =====
-- The actions of the two policy steps before, which the action-rate terms read.
use mc_mjlab.Prelude.{Bool, Option, List, ◌≡◌, refl, map}
use mc_mjlab.Float.{Float, nothing, clamp}
use mc_mjlab.Action.Residual
use mc_mjlab.Action.Residual.{Affine, Residual, fill, process_actions, process_columns}
use mc_mjlab.Action.Blended.{Blended, start_step, reset_blended}

module _ {W : Type 0} ⦃f : Float W⦄ (columns : List (Affine W)) where
  -- a policy step's joint action: clamped to one before it is scaled
  abbrev requested : List W → List W
  requested actions =
      process_columns columns (map (λ x. clamp x (f.neg (f.of_ℕ 1)) (f.of_ℕ 1)) actions)

  -- Two steps after a reset the history is the first step's action and zeros; after a third it is
  -- the two actions before, and none from before the reset is left.
  history_after_reset :
      (has_authority : Bool) (authority : Option W) (a b c : List W) (s : Blended W)
      → let two =
          start_step columns authority b
            (start_step columns authority a (reset_blended has_authority s)) in
        let three = start_step columns authority c two in
        (two.previous_joint_action ≡ requested a)
        × (two.second_previous_joint_action ≡ fill nothing s.residual.processed_actions)
        × (three.previous_joint_action ≡ requested b)
        × (three.second_previous_joint_action ≡ requested a)
  unfolding start_step reset_blended process_actions Residual.reset
  history_after_reset has_authority authority a b c s = (refl, refl, refl, refl)
