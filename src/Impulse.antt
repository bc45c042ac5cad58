-- ===== src/Impulse.antt =====
-- `finite_impulse_curriculum` (mdp/disturbances.py) and the cohorts of its two subclasses: the
-- schedule of impulses and the wrench on the robot. The operations are elementwise, so this is one
-- environment; what a trigger samples and computes from the robot's state is given.
pub mod Durations
use mc_mjlab.Prelude.{
  ℕ, zero, suc, ◌+◌, ◌-◌, Bool, true, false, not, ◌&&◌, Option, none, some, List, [], ◌∷◌, ltb, leb,
  ◌==◌, if◌then◌else◌,
}
use mc_mjlab.Float.{Float}

abbrev pub Vector : Type 0 → Type 0
Vector W = W × W × W

-- which environments a term pushes: the base class all, its subclasses not the standing cohort
pub data Cohort : Type 0 where
  unstratified standing : Cohort
  band : ℕ → Cohort

-- `multinomial(...) - 1`
abbrev pub drawn_cohort : ℕ → Cohort
drawn_cohort zero = standing
drawn_cohort (suc n) = band n

abbrev pub is_pushed : Cohort → Bool
is_pushed standing = false
is_pushed _ = true

-- `NEVER` is `none`; `wrench` is what was last written to the simulator
pub record Impulse (W : Type 0) : Type 0 where
  pub last_push_step : Option ℕ
  pub last_push_vel : Vector W
  pub enabled : Bool
  pub force : Vector W
  pub torque : Vector W
  pub wrench : Vector W × Vector W
  pub remaining : ℕ
  pub next_push_step : ℕ
  pub cohort : Cohort

-- one trigger's samples, and the wait until the next
pub record Draw (W : Type 0) : Type 0 where
  pub delta_b : Vector W
  pub drawn_force : Vector W
  pub drawn_torque : Vector W
  pub duration_steps : ℕ
  pub interval_steps : ℕ

-- the counters of the environment at a call
pub record Clock : Type 0 where
  pub common_step_counter : ℕ
  pub episode_length : ℕ

module _ {W : Type 0} ⦃f : Float W⦄ where
  abbrev pub zeros : Vector W
  zeros = (f.of_ℕ 0, f.of_ℕ 0, f.of_ℕ 0)

  unfoldable pub write_zeros : Impulse W → Impulse W
  write_zeros s = record s { wrench = (zeros, zeros); force = zeros; torque = zeros; remaining = 0 }

  -- `warmup` and the drawn wait are in steps; the cohort is drawn by the subclass
  unfoldable pub reset : ℕ → ℕ → Cohort → Impulse W → Impulse W
  unfolding write_zeros
  reset warmup offset drawn s = record (write_zeros s) {
    last_push_step = none;
    last_push_vel = zeros;
    next_push_step = warmup + offset;
    cohort = drawn;
  }

  unfoldable pub disable : Impulse W → Impulse W
  disable s = record s { enabled = false }

  -- the current wrench runs down, and ends
  pub expire : Impulse W → Impulse W
  unfolding write_zeros
  expire s =
      if ltb 0 s.remaining
      then (if s.remaining == 1
          then write_zeros (record s { remaining = 0 })
          else record s { remaining = s.remaining - 1 })
      else s

  unfoldable pub is_due : Clock → Impulse W → Bool
  is_due clock s = s.enabled && leb s.next_push_step clock.episode_length && is_pushed s.cohort

  trigger : Clock → Draw W → Impulse W → Impulse W
  trigger clock d s = record s {
    force = d.drawn_force;
    torque = d.drawn_torque;
    remaining = d.duration_steps;
    wrench = (d.drawn_force, d.drawn_torque);
    last_push_vel = d.delta_b;
    last_push_step = some clock.common_step_counter;
  }

  -- `__call__`, with its `enabled` argument
  unfoldable pub call : Bool → Clock → Draw W → Impulse W → Impulse W
  unfolding expire is_due trigger
  call on clock d s =
      let t = expire s in
      if on && is_due clock t
      then record (trigger clock d t) { next_push_step = clock.episode_length + d.interval_steps }
      else t

  unfoldable pub calls : List (Bool × Clock × Draw W) → Impulse W → Impulse W
  unfolding call
  calls [] s = s
  calls ((on, clock, d) ∷ rest) s = calls rest (call on clock d s)
