-- ===== src/Tests/Robots.antt =====
-- The controller's input, collision names and gains on concrete robots.
use mc_mjlab.Prelude.{
  ℕ, zero, suc, ◌+◌, ◌<◌, String, Bool, true, false, Option, none, some, List, [], ◌∷◌, ◌≡◌, refl,
  ap, arith, ok, str_eq, if◌then◌else◌, length, get_elem?,
}
use mc_mjlab.Float.{Milli, milli, nothing}
use mc_mjlab.Action.Residual.{filled}
use mc_mjlab.Exchange.Simulation.{InputLayout, Routes, Offsets, Simulated, Quaternions, resolve}
use mc_mjlab.Exchange.Filling.{fill_controller_input, alloc_block}
use mc_mjlab.Exchange.Filling.Told.{told_position, stance_kept}
use mc_mjlab.Robots.Collisions.{Geom, Naming, name_remaining_collision_geoms, names_of}
use mc_mjlab.Robots.Collisions.Named.{IsNamed, name_remaining_collision_geoms-IsNamed}
use mc_mjlab.Robots.Gains.{Actuator, zero_pd_gains, read_pd_gains}
use mc_mjlab.Robots.Gains.Zeroed.{read_pd_gains-zero_pd_gains}

abbrev layout : InputLayout
layout = record {
  joint_order = "hip" ∷ "knee" ∷ "ankle" ∷ [];
  body_sensors = "FloatingBase" ∷ "Accelerometer" ∷ [];
  force_sensors = "LeftFoot" ∷ [];
}

-- the entity lists its joints in another order, with one that the controller does not know
abbrev joint_names : List String
joint_names = "ankle" ∷ "thumb" ∷ "hip" ∷ []

abbrev targets : List String
targets = "hip" ∷ "ankle" ∷ []

abbrev stance : List (String × Milli)
stance = ("knee", some 700) ∷ []

abbrev routes : Routes Milli
routes = record {
  target_columns = 0 ∷ 2 ∷ [];
  sim_columns = 0 ∷ 2 ∷ [];
  ref_columns = 2 ∷ 0 ∷ [];
  dof_columns = 6 ∷ 6 ∷ [];
  stance = some 0 ∷ some 700 ∷ some 0 ∷ [];
  root_qpos_adr = some 0;
  root_dof_adr = some 0;
  sens_src_cols = 4 ∷ 5 ∷ 6 ∷ [];
  sens_dst_cols = 28 ∷ 29 ∷ 30 ∷ [];
}

abbrev sensor_adr : String → Option ℕ
sensor_adr name = if str_eq name "imu_accelerometer" then some 4 else none

resolves_routes :
    resolve sensor_adr (λ n. 6) (some (0, 0)) stance joint_names targets layout ≡ ok routes
unfolding resolve mc_mjlab.Prelude.Dict.get
resolves_routes = refl

abbrev offsets : Offsets Milli
offsets = record {
  feedback_offset = some (some 5 ∷ some 7 ∷ []);
  joint_velocity_offset = none;
  root_translation_offset = none;
  root_rotation_offset = none;
  wrench_offset = none;
}

abbrev simulated : Simulated Milli
simulated = record {
  joint_pos_biased = some 100 ∷ some 200 ∷ some 300 ∷ [];
  joint_vel = some 1 ∷ some 2 ∷ some 3 ∷ [];
  qfrc_actuator = filled (some 9) 7;
  qpos = some 10 ∷ some 20 ∷ some 30 ∷ some 1000 ∷ some 1 ∷ some 2 ∷ some 3 ∷ [];
  qvel = some 40 ∷ some 50 ∷ some 60 ∷ some 70 ∷ some 80 ∷ some 90 ∷ [];
  qacc = some 4 ∷ some 5 ∷ some 6 ∷ [];
  sensordata = filled (some 8) 7;
  root_link_pos_w = [];
  root_link_quat_w = [];
  root_link_lin_vel_w = [];
  env_origin = some 1 ∷ some 1 ∷ some 1 ∷ [];
}

abbrev quaternions : Quaternions Milli
quaternions = record {
  quat_apply = λ q v. v;
  quat_from_angle_axis = λ a v. v;
  quat_mul = λ a b. a;
  vector_norm = λ v. nothing;
}

abbrev block : List Milli
block = alloc_block layout routes

abbrev row : List Milli
row = filled nothing 40

-- the feedback is added once, the knee keeps the stance, and the rotation is written as xyzw
told_row :
    (fill_controller_input quaternions layout routes offsets simulated
      (fill_controller_input quaternions layout routes offsets simulated block row).0
      row).1
    ≡ some 305
      ∷ some 700
      ∷ some 107
      ∷ some 3
      ∷ some 0
      ∷ some 1
      ∷ some 9
      ∷ some 0
      ∷ some 9
      ∷ some 9
      ∷ some 19
      ∷ some 29
      ∷ some 1
      ∷ some 2
      ∷ some 3
      ∷ some 1000
      ∷ some 40
      ∷ some 50
      ∷ some 60
      ∷ some 70
      ∷ some 80
      ∷ some 90
      ∷ some 4
      ∷ some 5
      ∷ some 6
      ∷ some 0
      ∷ some 0
      ∷ some 0
      ∷ some 8
      ∷ some 8
      ∷ some 8
      ∷ filled (some 0) 9
unfolding fill_controller_input alloc_block
told_row = refl

told_position_example :
    get_elem? (fill_controller_input quaternions layout routes offsets simulated block row).1 2
    ≡ some (milli.add (some 100) (some 7))
unfolding alloc_block mc_mjlab.Exchange.index
told_position_example =
    told_position sensor_adr (λ n. 6) (some (0, 0)) stance joint_names targets layout routes
      resolves_routes (refl, (refl, (refl, tt))) (refl, (refl, tt)) simulated "ankle" 2 refl offsets
      quaternions block row (some 5 ∷ some 7 ∷ []) 0 1 (some 100) (some 7) (omega arith)
      (omega arith) refl refl refl refl refl

stance_kept_example :
    (get_elem? (fill_controller_input quaternions layout routes offsets simulated block row).0 1
      ≡ some (some 700))
    × (get_elem? (fill_controller_input quaternions layout routes offsets simulated block row).1 1
        ≡ some (some 700))
unfolding alloc_block mc_mjlab.Exchange.index
stance_kept_example =
    stance_kept sensor_adr (λ n. 6) (some (0, 0)) stance joint_names targets layout routes
      resolves_routes (refl, (refl, (refl, tt))) (refl, (refl, tt)) simulated "knee" 1 refl offsets
      quaternions block row (some 700) (omega arith) refl refl refl

-- one stroke for each unit
strokes : ℕ → String
strokes zero = ""
strokes (suc n) = String.◌∷◌ "i" (strokes n)

strokes-injective : (i j : ℕ) → strokes i ≡ strokes j → i ≡ j
unfolding strokes
strokes-injective zero zero e = refl
strokes-injective zero (suc j) e = cc e
strokes-injective (suc i) zero e = cc e
strokes-injective (suc i) (suc j) e = ap suc (strokes-injective i j (cc e))

abbrev geom : String → String → ℕ → Geom
geom name meshname contype = record {
  name = name;
  meshname = meshname;
  parent = some "torso";
  contype = contype;
  conaffinity = contype;
  group = 0;
}

-- one mesh three times, a named geom, a visual one, and a primitive
abbrev geoms : List Geom
geoms =
    geom "" "arm_mesh" 1
    ∷ geom "" "arm_mesh" 1
    ∷ geom "rbt_collision_arm_ii" "" 1
    ∷ geom "" "arm_mesh" 0
    ∷ geom "" "arm_mesh" 1
    ∷ geom "" "" 1
    ∷ []

naming :
    name_remaining_collision_geoms strokes "rbt" geoms
    ≡ some (
      geom "rbt_collision_arm" "arm_mesh" 1
          ∷ geom "rbt_collision_arm_iii" "arm_mesh" 1
          ∷ geom "rbt_collision_arm_ii" "" 1
          ∷ geom "" "arm_mesh" 0
          ∷ geom "rbt_collision_arm_iiii" "arm_mesh" 1
          ∷ geom "rbt_collision_torso" "" 1
          ∷ [],
      "rbt_collision_arm" ∷ "rbt_collision_arm_iii" ∷ "rbt_collision_arm_iiii"
          ∷ "rbt_collision_torso" ∷ [],
    )
unfolding name_remaining_collision_geoms strokes
naming = refl

name_remaining_collision_geoms-IsNamed_example :
    (r : Naming) × (name_remaining_collision_geoms strokes "rbt" geoms ≡ some r)
    × IsNamed (names_of geoms) geoms (r.0)
unfolding names_of
name_remaining_collision_geoms-IsNamed_example =
    name_remaining_collision_geoms-IsNamed strokes strokes-injective "rbt" geoms (refl, tt)

abbrev actuators : List (Actuator Milli)
actuators =
    record {
      target_names = "ankle" ∷ "thumb" ∷ [];
      gains =
          some
            (record { stiffness = some 1000 ∷ some 2000 ∷ []; damping = some 10 ∷ some 20 ∷ [] });
      force_limit = some (some 100 ∷ some 50 ∷ []);
    }
    ∷ []

takes_over :
    (read_pd_gains targets actuators ≡ (some 0 ∷ some 1000 ∷ [], some 0 ∷ some 10 ∷ []))
    × ((zero_pd_gains targets actuators).1 ≡ 1)
unfolding read_pd_gains zero_pd_gains
takes_over = (refl, refl)

read_pd_gains-zero_pd_gains_example :
    read_pd_gains targets (zero_pd_gains targets actuators).0
    ≡ (some 0 ∷ some 0 ∷ [], some 0 ∷ some 0 ∷ [])
read_pd_gains-zero_pd_gains_example = read_pd_gains-zero_pd_gains targets actuators
