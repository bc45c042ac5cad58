-- ===== src/Manifest/Names.antt =====
-- The names that a checkpoint's manifest may still use (rl/effective_training_manifest.py), and
-- their current spelling.
use Prim.Native.Char.{code}
use Prim.Native.String.{String, ◌++◌}
use mc_mjlab.Prelude.{Option, none, some, [], ◌∷◌, ◌==◌, if◌then◌else◌, str_eq, not, ◌&&◌}
use mc_mjlab.Prelude.Dict.{Dict, get}

-- `_RENAMED_MODULES`
abbrev pub renamed_modules : Dict String
renamed_modules =
    ("mc_mjlab.controller_datastore", "mc_mjlab.bridge.controller_datastore")
    ∷ ("mc_mjlab.recovery_authority", "mc_mjlab.residuals.recovery_authority")
    ∷ ("mc_mjlab.residual_mpc", "mc_mjlab.residuals.mpc_math")
    ∷ ("mc_mjlab.residual_printer", "mc_mjlab.residuals.printer")
    ∷ ("mc_mjlab.residual_safety", "mc_mjlab.residuals.safety")
    ∷ ("mc_mjlab.robots.additional_sensors_configuration", "mc_mjlab.robots.sensors")
    ∷ ("mc_mjlab.robots.collision_configuration", "mc_mjlab.robots.collisions")
    ∷ ("mc_mjlab.robots.mc_rtc_robot_configuration", "mc_mjlab.robots.robot_module")
    ∷ ("mc_mjlab.robots.pd_actuator_configuration", "mc_mjlab.robots.actuators")
    ∷ ("mc_mjlab.robots.robots_registry", "mc_mjlab.robots.registry")
    ∷ ("mc_mjlab.sim_controller_bridge", "mc_mjlab.bridge.sim_controller_bridge")
    ∷ (
      "mc_mjlab.tasks.residual_balance.effective_training_manifest",
      "mc_mjlab.rl.effective_training_manifest",
    )
    ∷ ("mc_mjlab.tasks.rollout_adaptive_ppo", "mc_mjlab.rl.rollout_adaptive_ppo")
    ∷ ("mc_mjlab.tasks.squashed_gaussian", "mc_mjlab.rl.squashed_gaussian")
    ∷ ("mc_mjlab.tasks.zero_init_actor", "mc_mjlab.rl.zero_init_actor")
    ∷ ("utils.mc_rtc_config", "mc_mjlab.bridge.config")
    ∷ ("utils.pd_gains", "mc_mjlab.robots.pd_gains")
    ∷ ("utils.shared_memory", "mc_mjlab.bridge.shared_memory")
    ∷ ("utils.task_naming", "mc_mjlab.tasks.naming")
    ∷ []

-- `_RENAMED_CALLABLES`
abbrev pub renamed_callables : Dict String
renamed_callables =
    (
      "mc_mjlab.tasks.residual_mpc.mdp:root_position",
      "mc_mjlab.tasks.residual_mpc.mdp.observations:root_position",
    )
    ∷ (
      "mc_mjlab.tasks.residual_mpc.mdp:root_quaternion",
      "mc_mjlab.tasks.residual_mpc.mdp.observations:root_quaternion",
    )
    ∷ (
      "mc_mjlab.tasks.residual_mpc.mdp:joint_position",
      "mc_mjlab.tasks.residual_mpc.mdp.observations:joint_position",
    )
    ∷ (
      "mc_mjlab.tasks.residual_mpc.mdp:joint_velocity",
      "mc_mjlab.tasks.residual_mpc.mdp.observations:joint_velocity",
    )
    ∷ (
      "mc_mjlab.tasks.residual_mpc.mdp:body_linear_velocity",
      "mc_mjlab.tasks.residual_mpc.mdp.observations:body_linear_velocity",
    )
    ∷ (
      "mc_mjlab.tasks.residual_mpc.mdp:body_angular_velocity",
      "mc_mjlab.tasks.residual_mpc.mdp.observations:body_angular_velocity",
    )
    ∷ (
      "mc_mjlab.tasks.residual_mpc.mdp:controller_contact_phases",
      "mc_mjlab.tasks.residual_mpc.mdp.observations:controller_contact_phases",
    )
    ∷ (
      "mc_mjlab.tasks.residual_mpc.mdp:controller_qp_objective",
      "mc_mjlab.tasks.residual_mpc.mdp.observations:controller_qp_objective",
    )
    ∷ (
      "mc_mjlab.tasks.residual_mpc.mdp:linear_velocity_tracking",
      "mc_mjlab.tasks.residual_mpc.mdp.rewards:linear_velocity_tracking",
    )
    ∷ (
      "mc_mjlab.tasks.residual_mpc.mdp:angular_velocity_tracking",
      "mc_mjlab.tasks.residual_mpc.mdp.rewards:angular_velocity_tracking",
    )
    ∷ (
      "mc_mjlab.tasks.residual_mpc.mdp:first_action_rate",
      "mc_mjlab.tasks.residual_mpc.mdp.rewards:first_action_rate",
    )
    ∷ (
      "mc_mjlab.tasks.residual_mpc.mdp:second_action_rate",
      "mc_mjlab.tasks.residual_mpc.mdp.rewards:second_action_rate",
    )
    ∷ (
      "mc_mjlab.tasks.residual_mpc.mdp:torque_l2",
      "mc_mjlab.tasks.residual_mpc.mdp.rewards:torque_l2",
    )
    ∷ (
      "mc_mjlab.tasks.residual_mpc.mdp:orientation_reward",
      "mc_mjlab.tasks.residual_mpc.mdp.rewards:orientation_reward",
    )
    ∷ (
      "mc_mjlab.tasks.residual_mpc.mdp:height_reward",
      "mc_mjlab.tasks.residual_mpc.mdp.rewards:height_reward",
    )
    ∷ (
      "mc_mjlab.tasks.residual_mpc.mdp:joint_regularization",
      "mc_mjlab.tasks.residual_mpc.mdp.rewards:joint_regularization",
    )
    ∷ (
      "mc_mjlab.tasks.residual_mpc.mdp:self_collision",
      "mc_mjlab.tasks.residual_mpc.mdp.rewards:self_collision",
    )
    ∷ (
      "mc_mjlab.tasks.residual_mpc.mdp:excessive_base_speed",
      "mc_mjlab.tasks.residual_mpc.mdp.terminations:excessive_base_speed",
    )
    ∷ (
      "mc_mjlab.tasks.residual_mpc.mdp:excessive_angular_speed",
      "mc_mjlab.tasks.residual_mpc.mdp.terminations:excessive_angular_speed",
    )
    ∷ (
      "mc_mjlab.tasks.residual_mpc.mdp:height_outside",
      "mc_mjlab.tasks.residual_mpc.mdp.terminations:height_outside",
    )
    ∷ (
      "mc_mjlab.tasks.residual_mpc.mdp:refresh_action_scaling",
      "mc_mjlab.tasks.residual_mpc.mdp.disturbances:refresh_action_scaling",
    )
    ∷ (
      "mc_mjlab.tasks.residual_mpc.mdp:initial_velocity_kick",
      "mc_mjlab.tasks.residual_mpc.mdp.disturbances:initial_velocity_kick",
    )
    ∷ (
      "mc_mjlab.tasks.residual_mpc.mdp:survival_kick_curriculum",
      "mc_mjlab.tasks.residual_mpc.mdp.curricula:survival_kick_curriculum",
    )
    ∷ (
      "mc_mjlab.tasks.residual_mpc.mdp:forward_speed",
      "mc_mjlab.tasks.residual_mpc.mdp.metrics:forward_speed",
    )
    ∷ (
      "mc_mjlab.tasks.residual_mpc.mdp:commanded_speed",
      "mc_mjlab.tasks.residual_mpc.mdp.metrics:commanded_speed",
    )
    ∷ (
      "mc_mjlab.tasks.residual_mpc.mdp:maximum_effort_ratio",
      "mc_mjlab.tasks.residual_mpc.mdp.metrics:active_effort_ratio",
    )
    ∷ ("mc_mjlab.mdp.metrics:max_effort_ratio", "mc_mjlab.mdp.metrics:nominal_effort_ratio")
    ∷ (
      "mc_mjlab.tasks.residual_mpc.mdp:controller_failed",
      "mc_mjlab.mdp.terminations:controller_failed",
    )
    ∷ (
      "mc_mjlab.tasks.residual_mpc.mdp:controller_worker_failed",
      "mc_mjlab.mdp.terminations:controller_worker_failed",
    )
    ∷ (
      "mc_mjlab.tasks.residual_mpc.mdp:projection_fraction",
      "mc_mjlab.mdp.metrics:projection_fraction",
    )
    ∷ ("mc_mjlab.tasks.mdp:max_effort_ratio", "mc_mjlab.mdp.metrics:nominal_effort_ratio")
    ∷ []

-- `_SPLIT_MDP_MODULE`
abbrev pub split_mdp_module : String
split_mdp_module = "mc_mjlab.tasks.mdp"

-- name.partition(":"): the attribute is none where there is no colon
unfoldable pub partition : String → String × Option String
partition String.[] = ("", none)
partition (String.◌∷◌ c s) =
    let (module_name, attribute) = partition s in
    if code c == b':' then ("", some s) else (String.◌∷◌ c module_name, attribute)

abbrev or_name : String → Option String → String
or_name name none = name
or_name name (some n) = n

abbrev with_attribute : String → Option String → String
with_attribute module_name none = module_name
with_attribute module_name (some a) = module_name ++ ":" ++ a

-- after the exact names: `split_mdp_name` is the lookup in the modules of mc_mjlab.mdp
unfoldable pub renamed_parts : (String → Option String) → String → String × Option String → String
renamed_parts split_mdp_name name (module_name, attribute) =
    let qualified : String = elim (get renamed_modules module_name) [
      | none ↦ name
      | some m ↦ with_attribute m attribute
    ] in
    let mapped = or_name qualified (get renamed_callables qualified) in
    elim attribute [
      | none ↦ mapped
      | some a ↦
          if str_eq module_name split_mdp_module && not (str_eq a "")
          then or_name name (split_mdp_name a)
          else mapped
    ]

-- `_renamed_qualified_name`
unfoldable pub renamed_qualified_name : (String → Option String) → String → String
unfolding renamed_parts partition
renamed_qualified_name split_mdp_name name = elim (get renamed_callables name) [
  | some n ↦ n
  | none ↦ renamed_parts split_mdp_name name (partition name)
]
