-- ===== src/Robots/Gains.antt =====
-- robots/pd_gains.py: reading and overwriting an entity's PD gains, for one environment. An
-- actuator's gains are none where it has no PD law; the names of joints and of targets are
-- distinct.
pub mod Zeroed
use mc_mjlab.Prelude.{
  ℕ, zero, suc, ◌+◌, String, Bool, true, false, Option, none, some, List, [], ◌∷◌, map, set, length,
  if◌then◌else◌, Result, ok, err, value_error, ◌>>=◌,
}
use mc_mjlab.Prelude.Dict.{Dict, get, put}
use mc_mjlab.Float.{Float, nothing}
use mc_mjlab.Exchange.{index}
use mc_mjlab.Action.Residual.{filled}

-- stiffness and damping, a column for each of the actuator's joints
pub record Gains (W : Type 0) : Type 0 where
  pub stiffness : List W
  pub damping : List W

pub record Actuator (W : Type 0) : Type 0 where
  pub target_names : List String
  pub gains : Option (Gains W)
  pub force_limit : Option (List W)

-- how many columns of the targets there are
unfoldable pub count_columns : List String → List String → ℕ
unfolding index
count_columns target_names [] = 0
count_columns target_names (n ∷ names) =
    elim (index n target_names) [ none ↦ 0 | some i ↦ 1 ] + count_columns target_names names

module _ {W : Type 0} where
  -- the rows with two values or more, which `zip(..., strict=True)` pairs with the joints
  unfoldable pub reference_gains : List String → List (List W) → Result (Dict (W × W))
  unfolding put
  reference_gains [] [] = ok []
  reference_gains [] (row ∷ rows) = err value_error
  reference_gains (n ∷ names) [] = err value_error
  reference_gains (n ∷ names) ((kp ∷ kd ∷ row) ∷ rows) =
      reference_gains names rows >>= λ rest. ok ((n, (kp, kd)) ∷ rest)
  reference_gains (n ∷ names) (row ∷ rows) = reference_gains names rows

  -- column[j] = choose(gain) for the joints that have one
  abbrev pub overwrite_one : Option W → W → W
  overwrite_one none old = old
  overwrite_one (some new) old = new

  unfoldable pub overwrite : (String → Option W) → List String → List W → List W
  overwrite choose (n ∷ names) (x ∷ column) =
      overwrite_one (choose n) x ∷ overwrite choose names column
  overwrite choose _ column = column

  unfoldable pub with_gains :
      (String → Option W) → (String → Option W) → List String → Option (Gains W) → Option (Gains W)
  unfolding overwrite
  with_gains kp kd names none = none
  with_gains kp kd names (some g) = some (record {
    stiffness = overwrite kp names g.stiffness;
    damping = overwrite kd names g.damping;
  })

  unfoldable pub with_actuators :
      (String → Option W) → (String → Option W) → List (Actuator W) → List (Actuator W)
  unfolding with_gains
  with_actuators kp kd [] = []
  with_actuators kp kd (a ∷ actuators) =
      record a { gains = with_gains kp kd a.target_names a.gains } ∷ with_actuators kp kd actuators

  abbrev proportional : Option (W × W) → Option W
  proportional none = none
  proportional (some (kp, kd)) = some kp

  abbrev derivative : Option (W × W) → Option W
  derivative none = none
  derivative (some (kp, kd)) = some kd

  -- what is printed of each joint is left out
  unfoldable pub apply_reference_pd_gains :
      List String → List (List W) → List (Actuator W) → Result (List (Actuator W))
  unfolding reference_gains with_actuators get
  apply_reference_pd_gains ref_joint_order rows actuators =
      reference_gains ref_joint_order rows >>= λ gains.
      ok
        (with_actuators (λ n. proportional (get gains n)) (λ n. derivative (get gains n)) actuators)

  abbrev pub write_at : Option ℕ → W → List W → List W
  write_at none v column = column
  write_at (some i) v column = set column i v

  -- kp[i] = stiffness[j] of the joints that are targets
  unfoldable pub read_columns : List String → List String → List W → List W → List W
  unfolding index
  read_columns target_names (n ∷ names) (x ∷ column) read =
      read_columns target_names names column (write_at (index n target_names) x read)
  read_columns target_names _ _ read = read

  unfoldable pub read_gains :
      List String → List String → Option (Gains W) → List W × List W → List W × List W
  unfolding read_columns
  read_gains target_names names none read = read
  read_gains target_names names (some g) (kp, kd) =
      (read_columns target_names names g.stiffness kp, read_columns target_names names g.damping kd)

  unfoldable pub read_actuators :
      List String → List (Actuator W) → List W × List W → List W × List W
  unfolding read_gains
  read_actuators target_names [] read = read
  read_actuators target_names (a ∷ actuators) read =
      read_actuators target_names actuators (read_gains target_names a.target_names a.gains read)

  unfoldable pub count_gains : List String → List String → Option (Gains W) → ℕ
  unfolding count_columns
  count_gains target_names names none = 0
  count_gains target_names names (some g) = count_columns target_names names

  unfoldable pub count_actuators : List String → List (Actuator W) → ℕ
  unfolding count_gains
  count_actuators target_names [] = 0
  count_actuators target_names (a ∷ actuators) =
      count_gains target_names a.target_names a.gains + count_actuators target_names actuators

module _ {W : Type 0} ⦃f : Float W⦄ where
  unfoldable pub read_pd_gains : List String → List (Actuator W) → List W × List W
  unfolding read_actuators
  read_pd_gains target_names actuators =
      let zeros : List W = filled nothing (length target_names) in
      read_actuators target_names actuators (zeros, zeros)

  abbrev pub zero_target : Option ℕ → Option W
  zero_target none = none
  zero_target (some i) = some nothing

  -- the actuators, and the count that is returned
  unfoldable pub zero_pd_gains : List String → List (Actuator W) → List (Actuator W) × ℕ
  unfolding with_actuators count_actuators index
  zero_pd_gains target_names actuators =
      let zero_of = λ (n : String). zero_target (index n target_names) in
      (with_actuators zero_of zero_of actuators, count_actuators target_names actuators)
