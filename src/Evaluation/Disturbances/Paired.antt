-- ===== src/Evaluation/Disturbances/Paired.antt =====
-- Pushes are told apart by their seeds, and each lasts as long as it was drawn.
use Prim.Native.String.{String}
use mc_mjlab.Prelude.{
  ℕ, zero, suc, ◌<◌, true, false, none, some, ◌≡◌, refl, ◌∙◌, ap, arith, if◌then◌else◌, ltb,
}
use mc_mjlab.Float.{Float}
use mc_mjlab.Evaluation.Disturbances.{
  Vector, Disturbances, push_seed, no_vector, is_pushing, expire, write_zeros, finite_impulse,
  before_step, after_step,
}

-- Two pushes of a run and scenario are drawn from the same seed only if they are the same push of
-- the same pair and environment: with at most 101 pushes an episode and 82 pairs.
pub push_seed-injective :
    (seed e e' p p' o o' : ℕ) (scenario : String)
    → p < 82
    → p' < 82
    → o < 101
    → o' < 101
    → push_seed seed e p o scenario ≡ push_seed seed e' p' o' scenario
    → (e ≡ e') × (p ≡ p') × (o ≡ o')
unfolding push_seed
push_seed-injective seed e e' p p' o o' scenario hp hp' ho ho' h = (
  omega (arith, h, hp, hp', ho, ho'),
  omega (arith, h, hp, hp', ho, ho'),
  omega (arith, h, hp, hp', ho, ho'),
)

module _ {W : Type 0} ⦃f : Float W⦄ where
  -- a policy step without a new push: what the simulator has during it, and the state after it
  pub quiet_steps : ℕ → Disturbances W → Disturbances W
  quiet_steps zero d = d
  quiet_steps (suc n) d = quiet_steps n (after_step (before_step none d))

  -- the simulator has the wrench with `m` more steps to go, or none
  record IsPushed (m : ℕ) (force torque : Vector W) (d : Disturbances W) : Type 0 where
    left : d.remaining ≡ m
    pushes : d.force ≡ force
    applied : d.written ≡ (force, torque)

  record IsCalm (d : Disturbances W) : Type 0 where
    rests : d.force ≡ no_vector
    nothing_applied : d.written ≡ (no_vector, no_vector)

  step_calmly :
      (d : Disturbances W)
      → is_pushing (no_vector {W = W}) ≡ false
      → IsCalm d
      → (IsCalm (after_step (before_step none d)))
        × ((before_step none d).written ≡ (no_vector, no_vector))
  unfolding before_step expire after_step
  step_calmly d z c =
      let still : expire d ≡ d = ground (arith, ap is_pushing c.rests ∙ z) in
      (
        record {
          rests = ap (λ (e : Disturbances W). e.force) still ∙ c.rests;
          nothing_applied = ap (λ (e : Disturbances W). e.written) still ∙ c.nothing_applied;
        },
        ap (λ (e : Disturbances W). e.written) still ∙ c.nothing_applied,
      )

  later_calmly :
      (k : ℕ) (d : Disturbances W)
      → is_pushing (no_vector {W = W}) ≡ false
      → IsCalm d
      → (before_step none (quiet_steps k d)).written ≡ (no_vector, no_vector)
  unfolding quiet_steps
  later_calmly zero d z c = (step_calmly d z c).1
  later_calmly (suc k) d z c =
      later_calmly k (after_step (before_step none d)) z (step_calmly d z c).0

  step_at_end :
      (force torque : Vector W) (d : Disturbances W)
      → is_pushing force ≡ true
      → IsPushed 0 force torque d
      → (IsCalm (after_step (before_step none d)))
        × ((before_step none d).written ≡ (no_vector, no_vector))
  unfolding before_step expire after_step write_zeros
  step_at_end force torque d p h =
      let over : expire d ≡ write_zeros d = ground (arith, h.left, ap is_pushing h.pushes ∙ p) in
      (
        record {
          rests = ap (λ (e : Disturbances W). e.force) over;
          nothing_applied = ap (λ (e : Disturbances W). e.written) over;
        },
        ap (λ (e : Disturbances W). e.written) over,
      )

  step_under_wrench :
      (m : ℕ) (force torque : Vector W) (d : Disturbances W)
      → IsPushed (suc m) force torque d
      → (IsPushed m force torque (after_step (before_step none d)))
        × ((before_step none d).written ≡ (force, torque))
  unfolding before_step expire after_step
  step_under_wrench m force torque d h =
      let on : expire d ≡ d = ground (arith, h.left) in
      (
        record {
          left = omega (arith, ap (λ (e : Disturbances W). e.remaining) on, h.left);
          pushes = ap (λ (e : Disturbances W). e.force) on ∙ h.pushes;
          applied = ap (λ (e : Disturbances W). e.written) on ∙ h.applied;
        },
        ap (λ (e : Disturbances W). e.written) on ∙ h.applied,
      )

  written_quiet :
      (k m : ℕ) (force torque : Vector W) (d : Disturbances W)
      → is_pushing force ≡ true
      → is_pushing (no_vector {W = W}) ≡ false
      → IsPushed m force torque d
      → (before_step none (quiet_steps k d)).written
        ≡ (if ltb k m then (force, torque) else (no_vector, no_vector))
  unfolding quiet_steps
  written_quiet zero zero force torque d p z h = (step_at_end force torque d p h).1
  written_quiet zero (suc m) force torque d p z h =
      ground (arith, (step_under_wrench m force torque d h).1)
  written_quiet (suc k) zero force torque d p z h =
      ground (
        arith,
        later_calmly k (after_step (before_step none d)) z (step_at_end force torque d p h).0,
      )
  written_quiet (suc k) (suc m) force torque d p z h = ground (
    arith,
    written_quiet k m force torque (after_step (before_step none d)) p z
        (step_under_wrench m force torque d h).0,
  )

  -- A finite impulse of `n + 1` steps acts in the step that it is triggered in and in the `n` steps
  -- after that, and in none later until the next push; its force is one that the check sees.
  pub finite_impulse_duration :
      (k n : ℕ) (force torque : Vector W) (d : Disturbances W)
      → is_pushing force ≡ true
      → is_pushing (no_vector {W = W}) ≡ false
      → (let pushed = before_step (some (force, (torque, suc n))) d in
          (pushed.written ≡ (force, torque))
          × ((before_step none (quiet_steps k (after_step pushed))).written
              ≡ (if ltb k n then (force, torque) else (no_vector, no_vector))))
  unfolding before_step finite_impulse after_step
  finite_impulse_duration k n force torque d p z = (
    refl,
    written_quiet k n force torque _ p z
        (record { left = omega arith; pushes = refl; applied = refl }),
  )
