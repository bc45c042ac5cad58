-- ===== src/Exchange/Simulation.antt =====
-- `SimControllerBridge` (bridge/sim_controller_bridge.py): what a controller is told of the
-- simulation, for one environment. The layout's offsets are those of InputLayout and OutputLayout
-- (mc_rtc_interface/hpp/io_layout.hpp); the model's addresses and mjlab's quaternions are
-- arguments.
use Prim.Native.String.{◌++◌ as ◌+str◌}
use mc_mjlab.Prelude.{
  ℕ, suc, ◌+◌, ◌*◌, String, Option, none, some, List, [], ◌∷◌, ◌++◌, length, contains, str_eq,
  if◌then◌else◌, Result, ok, err, value_error, ◌>>=◌,
}
use mc_mjlab.Prelude.Dict.{Dict, get}
use mc_mjlab.Float.{Float, nothing}
use mc_mjlab.Exchange.{index}
use mc_mjlab.Action.Residual.{or_else}

pub record InputLayout : Type 0 where
  pub joint_order : List String
  pub body_sensors : List String
  pub force_sensors : List String

abbrev pub q_offset : ℕ
q_offset = 0

abbrev pub qd_offset : InputLayout → ℕ
qd_offset l = length l.joint_order

abbrev pub tau_offset : InputLayout → ℕ
tau_offset l = 2 * length l.joint_order

abbrev pub root_offset : InputLayout → ℕ
root_offset l = 3 * length l.joint_order

abbrev pub root_state_size : ℕ
root_state_size = 10

abbrev pub sensor_stride : ℕ
sensor_stride = 6

abbrev pub body_sensors_offset : InputLayout → ℕ
body_sensors_offset l = root_offset l + root_state_size

abbrev pub force_sensors_offset : InputLayout → ℕ
force_sensors_offset l = body_sensors_offset l + sensor_stride * length l.body_sensors

-- `datastore_scalar_offset()`, where the columns end that the simulation owns
abbrev pub input_width : InputLayout → ℕ
input_width l = force_sensors_offset l + sensor_stride * length l.force_sensors

abbrev pub floating_base : String
floating_base = "FloatingBase"

-- what is resolved once; an address is none where the source has -1
pub record Routes (W : Type 0) : Type 0 where
  pub target_columns : List ℕ
  pub sim_columns : List ℕ
  pub ref_columns : List ℕ
  pub dof_columns : List ℕ
  pub stance : List W
  pub root_qpos_adr : Option ℕ
  pub root_dof_adr : Option ℕ
  pub sens_src_cols : List ℕ
  pub sens_dst_cols : List ℕ

-- the biases of what the controller is told
pub record Offsets (W : Type 0) : Type 0 where
  pub feedback_offset : Option (List W)
  pub joint_velocity_offset : Option (List W)
  pub root_translation_offset : Option (List W)
  pub root_rotation_offset : Option (List W)
  pub wrench_offset : Option (List W)

-- the row of the simulation that is read
pub record Simulated (W : Type 0) : Type 0 where
  pub joint_pos_biased : List W
  pub joint_vel : List W
  pub qfrc_actuator : List W
  pub qpos : List W
  pub qvel : List W
  pub qacc : List W
  pub sensordata : List W
  pub root_link_pos_w : List W
  pub root_link_quat_w : List W
  pub root_link_lin_vel_w : List W
  pub env_origin : List W

-- mjlab's quaternions
pub record Quaternions (W : Type 0) : Type 0 where
  pub quat_apply : List W → List W → List W
  pub quat_from_angle_axis : W → List W → List W
  pub quat_mul : List W → List W → List W
  pub vector_norm : List W → W

-- `[i for i, n in enumerate(names) if n in order]`
unfoldable pub sim_columns : List String → ℕ → List String → List ℕ
sim_columns order i [] = []
sim_columns order i (n ∷ names) =
    let rest = sim_columns order (suc i) names in if contains n order then i ∷ rest else rest

abbrev cons_some {ℓ} : {A : Type ℓ} → Option A → List A → List A
cons_some none rest = rest
cons_some (some r) rest = r ∷ rest

-- `[order.index(names[i]) for i in sim_columns]`
unfoldable pub ref_columns : List String → List String → List ℕ
unfolding index
ref_columns order [] = []
ref_columns order (n ∷ names) = cons_some (index n order) (ref_columns order names)

-- the names of the simulated joints that are in the order
abbrev dof_columns : (String → ℕ) → List String → List String → List ℕ
dof_columns dofadr order [] = []
dof_columns dofadr order (n ∷ names) =
    let rest = dof_columns dofadr order names in if contains n order then dofadr n ∷ rest else rest

abbrev index_or_error : Option ℕ → Result ℕ
index_or_error none = err value_error
index_or_error (some i) = ok i

-- `[order.index(n) for n in target_names]`
unfoldable pub target_columns : List String → List String → Result (List ℕ)
unfolding index
target_columns order [] = ok []
target_columns order (n ∷ names) =
    index_or_error (index n order) >>= (λ i. target_columns order names >>= (λ rest. ok (i ∷ rest)))

-- the two lists of columns that `_route` extends
pub record Wires : Type 0 where
  pub sources : List ℕ
  pub destinations : List ℕ

abbrev triple : ℕ → List ℕ
triple i = i ∷ (i + 1) ∷ (i + 2) ∷ []

unfoldable pub route : Option ℕ → ℕ → Wires → Wires
route none destination w = w
route (some source) destination w = record {
  sources = w.sources ++ triple source;
  destinations = w.destinations ++ triple destination;
}

abbrev pub otherwise : Option ℕ → Option ℕ → Option ℕ
otherwise none fallback = fallback
otherwise (some i) fallback = some i

-- `sensor_adr` finds a sensor of the entity
module _ (sensor_adr : String → Option ℕ) where
  unfoldable pub route_body : String → ℕ → Wires → Wires
  unfolding route
  route_body name slot w =
      if str_eq name floating_base
      then w
      else route
          (otherwise (sensor_adr (name +str "_accelerometer")) (sensor_adr "imu_accelerometer"))
          (slot + 3)
          (route (otherwise (sensor_adr (name +str "_gyro")) (sensor_adr "imu_gyro")) slot w)

  unfoldable pub route_bodies : List String → ℕ → Wires → Wires
  unfolding route_body
  route_bodies [] slot w = w
  route_bodies (name ∷ names) slot w =
      route_bodies names (slot + sensor_stride) (route_body name slot w)

  unfoldable pub route_forces : List String → ℕ → Wires → Wires
  unfolding route
  route_forces [] slot w = w
  route_forces (name ∷ names) slot w = route_forces names (slot + sensor_stride) (
      route (sensor_adr (name +str "_tsensor")) (slot + 3)
        (route (sensor_adr (name +str "_fsensor")) slot w))

  unfoldable pub resolve_sensor_routes : InputLayout → Wires
  unfolding route_bodies route_forces
  resolve_sensor_routes l = route_forces l.force_sensors (force_sensors_offset l) (
      route_bodies l.body_sensors (body_sensors_offset l)
        (record { sources = []; destinations = [] }))

module _ {W : Type 0} ⦃f : Float W⦄ where
  abbrev stance_of : Dict W → List String → List W
  stance_of stance [] = []
  stance_of stance (n ∷ order) = or_else nothing (get stance n) ∷ stance_of stance order

  -- the constructor's routes; the addresses of the root joint are given
  unfoldable pub resolve :
      (String → Option ℕ)
      → (String → ℕ)
      → Option (ℕ × ℕ)
      → Dict W
      → List String
      → List String
      → InputLayout
      → Result (Routes W)
  unfolding sim_columns ref_columns target_columns resolve_sensor_routes
  resolve sensor_adr dofadr root stance names target_names l =
      let order = l.joint_order in
      let wires = resolve_sensor_routes sensor_adr l in
      target_columns order target_names >>= λ targets. ok (record {
        target_columns = targets;
        sim_columns = sim_columns order 0 names;
        ref_columns = ref_columns order names;
        dof_columns = dof_columns dofadr order names;
        stance = stance_of stance order;
        root_qpos_adr = elim root [ none ↦ none | some (q, d) ↦ some q ];
        root_dof_adr = elim root [ none ↦ none | some (q, d) ↦ some d ];
        sens_src_cols = wires.sources;
        sens_dst_cols = wires.destinations;
      })
