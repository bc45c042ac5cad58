-- ===== src/Tests/Action.antt =====
-- The control period, the delivered residual and the resources, on concrete inputs.
use mc_mjlab.Prelude.{
  ℕ, true, false, none, some, List, [], ◌∷◌, ◌≡◌, refl, map, length, String, ok, all, contains,
  arith, ◌++◌,
}
use mc_mjlab.Prelude.Dict.{Dict}
use mc_mjlab.Float.{Milli, milli, Milli-IsOrdered, same}
use mc_mjlab.Action.Pipeline
use mc_mjlab.Action.Pipeline.{Pipeline, OutputRow, Outcome, Status, make}
use mc_mjlab.Action.Pipeline.Refines.{
  Step, IsReady, IsReady-idle, perform_all, refer_all, view, perform_all_refines,
}
use mc_mjlab.Action.Residual.{Residual}
use mc_mjlab.Action.Residual.Joints.{
  Control, Joint, Bounds, Effort, apply_position, apply_torque, apply_blended, mean_squared_effort,
  start_window,
}
use mc_mjlab.Action.Residual.Delivered.{IsWithin, apply-IsWithin}
use mc_mjlab.Action.Residual.Window.{Substep}
use mc_mjlab.Action.Feedback.{
  FeedbackCfg, supported_modalities, post_init, modality_dim, feedback_dim, modality_slices,
}
use mc_mjlab.Action.Feedback.Blocks.{joined, HasWidths, post_init-slices}
use mc_mjlab.Action.Resources.{Event, Fault, close, construct, happen}
use mc_mjlab.Action.Resources.Released.{acquired, construct_released}

abbrev row : Status → ℕ → OutputRow ℕ ℕ
row status n = record { status = status; values = n; readouts = n }

-- a solve that succeeds, one whose worker is lost, and one that times out
abbrev solves : ℕ → Outcome ℕ ℕ
solves n = record { written = some (row Status.solved n); reported = false }

abbrev lost : Outcome ℕ ℕ
lost = record { written = none; reported = false }

abbrev late : Outcome ℕ ℕ
late = record { written = some (row Status.solved 9); reported = true }

abbrev begun : Pipeline ℕ ℕ ℕ ℕ
begun = Pipeline.make 0 5 (row Status.solved 0)

abbrev steps : List (Step ℕ ℕ ℕ)
steps =
    Step.substep 1 (solves 10)
    ∷ Step.substep 2 (solves 0)
    ∷ Step.substep 3 lost
    ∷ Step.reset_others
    ∷ Step.substep 4 (solves 0)
    ∷ Step.substep 5 late
    ∷ Step.reset_here 7 0
    ∷ Step.substep 6 (solves 30)
    ∷ Step.substep 7 (solves 40)
    ∷ []

begun-IsReady : IsReady begun
unfolding make
begun-IsReady = IsReady-idle begun refl

-- the solve after a lost worker, and the one after a reset, start from a reset
steps_flags :
    map (λ i. i.reset_flag) (perform_all 2 steps begun).sent ≡ false ∷ false ∷ true ∷ true ∷ []
unfolding perform_all make
steps_flags = refl

perform_all_refines_example :
    (view (perform_all 2 steps begun) ≡ refer_all 2 steps (view begun))
    × IsReady (perform_all 2 steps begun)
perform_all_refines_example = perform_all_refines 2 steps begun begun-IsReady

abbrev asked : Residual Milli
asked = record {
  residual_raw_actions = some 500 ∷ some 900 ∷ [];
  previous_residual_raw_actions = some 0 ∷ some 0 ∷ [];
  processed_actions = some 50 ∷ some 90 ∷ [];
  last_gate = some 500;
  previous_gate = some 0;
  actor_update_gate = some 500;
  executed_physical = some 0 ∷ some 0 ∷ [];
  previous_executed_physical = some 0 ∷ some 0 ∷ [];
  projection_mask = false ∷ false ∷ [];
  torque_peak = some 0 ∷ some 0 ∷ some 0 ∷ [];
}

abbrev joint : Joint Milli
joint = record {
  encoder_bias = some 0;
  joint_pos_biased = some 100;
  joint_vel = some 0;
  default_joint_pos = some 200;
  kp = some 10000;
  kd = some 1000;
}

abbrev control : Control Milli
control = record { q = some 1500; alpha = some 3000; tau = some 0 }

abbrev up_to : ℕ → Bounds Milli
up_to n = record { lower = some 0; upper = some n }

abbrev spent : Effort Milli
spent = record {
  nominal_torque = some 0;
  residual_torque = some 0;
  blended_residual_torque = some 0;
  final_effort = some 0;
  effort_sq_sum = some 123;
  effort_substeps = 4;
}

apply-IsWithin_example :
    IsWithin
      (up_to 1600)
      (apply_position same (up_to 1600) (up_to 2000) joint control (some 200)).0.target
    × IsWithin
        (up_to 2000)
        (apply_position same (up_to 1600) (up_to 2000) joint control (some 200)).1
    × IsWithin (up_to 9000) (apply_torque same (up_to 9000) joint control (some 200)).target
    × IsWithin
        (up_to 9000)
        (apply_blended same
          (up_to 9000)
          joint
          control
          (some 100)
          (some 1000)
          (some 200)
          spent).0.target
unfolding mc_mjlab.Action.Residual.Joints.nominal_effort
    mc_mjlab.Action.Residual.Joints.paper_torque_blend
apply-IsWithin_example =
    apply-IsWithin same Milli-IsOrdered (up_to 1600) (up_to 2000) (up_to 9000) joint control
      (some 200) (some 100) (some 1000) spent refl refl refl refl refl refl refl

abbrev move : Substep Milli
move = record { joint = joint; control = control; action = some 200 }

construct_released_example :
    ((happen (Event.finalizes ∷ Event.closes ∷ []) (
        close (happen (Event.finalizes ∷ []) (construct (some Fault.starting_manager)).0))).released
      ≡ acquired (some Fault.starting_manager))
    × ((construct (some Fault.starting_manager)).1 ≡ true
        → (happen (Event.finalizes ∷ []) (construct (some Fault.starting_manager)).0).released
          ≡ acquired (some Fault.starting_manager))
construct_released_example =
    construct_released (some Fault.starting_manager) (Event.finalizes ∷ [])
      (Event.finalizes ∷ Event.closes ∷ [])

abbrev feedback : FeedbackCfg Milli
feedback = record {
  feedback_modalities = "root_pose" ∷ "joint_position" ∷ [];
  feedback_scale = some 20;
  root_translation_scale = some 2;
  root_rotation_scale = some 20;
  joint_velocity_scale = some 50;
  wrench_force_scale = some 50000;
  wrench_torque_scale = some 20000;
  torque_channel = true;
}

feedback_accepted : post_init feedback ≡ ok tt
unfolding post_init
feedback_accepted = refl

-- two joints: two torque actions in front of six for the root and two for the encoders
abbrev head : List ℕ
head = 0 ∷ 1 ∷ []

abbrev tail : List ℕ
tail = 2 ∷ 3 ∷ 4 ∷ 5 ∷ 6 ∷ 7 ∷ 8 ∷ 9 ∷ []

abbrev dims : String → ℕ
dims = modality_dim 2 0

abbrev ten : List ℕ
ten = 0 ∷ 1 ∷ 2 ∷ 3 ∷ 4 ∷ 5 ∷ 6 ∷ 7 ∷ 8 ∷ 9 ∷ []

post_init-slices_example :
    (let blocks = modality_slices dims ("root_pose" ∷ "joint_position" ∷ []) tail in
      (head ++ joined blocks ≡ ten)
      × HasWidths dims ("root_pose" ∷ "joint_position" ∷ []) blocks
      × (length head ≡ 2)
      × (all (λ (m : String). contains m supported_modalities) ("root_pose" ∷ "joint_position" ∷ [])
          ≡ true))
unfolding feedback_dim modality_dim
post_init-slices_example = post_init-slices feedback dims ten feedback_accepted (ground arith)

abbrev callbacks : List String
callbacks = "a" ∷ "b" ∷ "c" ∷ []

abbrev two_columns : Dict ℕ
two_columns = ("c", 7) ∷ ("a", 1) ∷ []

abbrev blank : List ℕ
blank = 0 ∷ 0 ∷ 0 ∷ 0 ∷ 0 ∷ 0 ∷ 0 ∷ 0 ∷ 0 ∷ 0 ∷ 9 ∷ []

abbrev vectors : List (List ℕ)
vectors = (1 ∷ 2 ∷ 3 ∷ []) ∷ (4 ∷ 5 ∷ 6 ∷ []) ∷ []
