-- ===== src/Evaluation/Disturbances.antt =====
-- scripts/evaluation/disturbances.py: `PairedDisturbances`, for one environment. A draw takes the
-- numbers of a generator in order; the generator, the rotation into the world and the mass are
-- given.
pub mod Paired
use Prim.Native.Char.{code}
use Prim.Native.String.{String}
use mc_mjlab.Prelude.{
  ℕ, zero, suc, ◌+◌, ◌-◌, ◌*◌, ◌/◌, ◌%◌, Bool, true, false, not, ◌&&◌, Option, none, some, leb, ltb,
  ◌==◌, if◌then◌else◌, str_eq,
}
use mc_mjlab.Float.{Float, nothing, same, ratio}

abbrev pub Vector : Type 0 → Type 0
Vector W = W × W × W

-- the velocities of an achievement stage
pub record StageVelocities (W : Type 0) : Type 0 where
  pub qualification_velocity : W
  pub robust_lower : W
  pub robust_upper : W

pub record Disturbances (W : Type 0) : Type 0 where
  pub remaining : ℕ
  pub force : Vector W
  pub torque : Vector W
  -- the wrench that the simulator has
  pub written : Vector W × Vector W

-- what `_trigger` draws for an environment
pub record Push (W : Type 0) : Type 0 where
  pub delta_b : W × W
  pub duration : W
  pub height : W

-- sum(map(ord, text))
unfoldable pub sum_ord : String → ℕ
sum_ord String.[] = 0
sum_ord (String.◌∷◌ c s) = code c + sum_ord s

-- what the generator is seeded with
unfoldable pub push_seed : ℕ → ℕ → ℕ → ℕ → String → ℕ
unfolding sum_ord
push_seed seed env_id pair occurrence scenario =
    seed * 1000003 + env_id * 10007 + pair * 101 + occurrence * 17 + sum_ord scenario

-- steps from the first disturbance on, and between two, as `before_step` rounds them
unfoldable pub is_due : ℕ → ℕ → Bool → ℕ → Bool
is_due first interval active steps = active && leb first steps && (steps - first) % interval == 0

abbrev pub occurrence_at : ℕ → ℕ → ℕ → ℕ
occurrence_at first interval steps = (steps - first) / interval

-- `uniform n i lower upper` is the `i`th number of the generator seeded with `n`
module _ {W : Type 0} ⦃f : Float W⦄ (uniform : ℕ → ℕ → W → W → W) (cos sin : W → W) (pi : W) where
  abbrev draws_velocity : Option (StageVelocities W) → String → Bool
  draws_velocity stage scenario = str_eq scenario "robust"

  velocity : Option (StageVelocities W) → Bool → ℕ → W
  velocity none true n = uniform n 1 (ratio 1 2) (ratio 3 5)
  velocity none false n = ratio 2 5
  velocity (some s) true n = uniform n 1 s.robust_lower s.robust_upper
  velocity (some s) false n = s.qualification_velocity

  -- the draws of `_trigger`
  unfoldable pub draw_push : Option (StageVelocities W) → String → ℕ → Push W
  unfolding velocity
  draw_push stage scenario n =
      let angle = uniform n 0 (f.neg pi) pi in
      let is_robust = draws_velocity stage scenario in
      let next = if is_robust then 2 else 1 in
      let dv = velocity stage is_robust n in
      record {
        delta_b = (f.mul dv (cos angle), f.mul dv (sin angle));
        duration = uniform n next (ratio 2 25) (ratio 1 5);
        height = uniform n (next + 1) nothing (ratio 1 4);
      }

module _ {W : Type 0} ⦃f : Float W⦄ where
  abbrev pub no_vector : Vector W
  no_vector = (nothing, nothing, nothing)

  -- the squares' sum is above zero
  unfoldable pub is_pushing : Vector W → Bool
  is_pushing (x, y, z) = f.lt nothing (f.add (f.add (f.mul x x) (f.mul y y)) (f.mul z z))

  -- `_write_zeros`
  unfoldable pub write_zeros : Disturbances W → Disturbances W
  write_zeros d = record {
    remaining = 0;
    force = no_vector;
    torque = no_vector;
    written = (no_vector, no_vector);
  }

  -- `_finite_impulse`, with the force and the torque that the push comes to
  unfoldable pub finite_impulse : Vector W → Vector W → ℕ → Disturbances W → Disturbances W
  finite_impulse force torque duration_steps d = record {
    remaining = duration_steps;
    force = force;
    torque = torque;
    written = (force, torque);
  }

  -- the wrenches that have run out
  unfoldable pub expire : Disturbances W → Disturbances W
  unfolding is_pushing write_zeros
  expire d = if d.remaining == 0 && is_pushing d.force then write_zeros d else d

  -- `before_step`: the impulse is the one that is due now, if one is; a kick leaves the wrench
  -- alone
  unfoldable pub before_step : Option (Vector W × (Vector W × ℕ)) → Disturbances W → Disturbances W
  unfolding expire finite_impulse
  before_step none d = expire d
  before_step (some (force, (torque, duration_steps))) d =
      finite_impulse force torque duration_steps (expire d)

  unfoldable pub after_step : Disturbances W → Disturbances W
  after_step d = record d { remaining = d.remaining - 1 }

  -- `clear`
  unfoldable pub clear : Disturbances W → Disturbances W
  unfolding write_zeros
  clear d = write_zeros d
