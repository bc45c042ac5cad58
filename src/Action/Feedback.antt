-- ===== src/Action/Feedback.antt =====
-- actions/residual_feedback_action.py: the residual on the state that the controller reads, for one
-- environment.
pub mod Blocks
use mc_mjlab.Prelude.{
  ℕ, zero, suc, ◌+◌, ◌-◌, ◌*◌, String, Bool, true, false, not, ◌&&◌, ◌||◌, Option, none, some, List,
  [], ◌∷◌, ◌++◌, map, ltb, if◌then◌else◌, length, drop, all, contains, str_eq, Result, ok, err,
  value_error, ensure, ◌>>=◌, ◌>>◌,
}
use mc_mjlab.Float.{Float, nothing, clamp}
use mc_mjlab.Action.Residual.{Residual, Affine, scatter, filled, fill, process_actions}

-- `SUPPORTED_MODALITIES`
abbrev pub supported_modalities : List String
supported_modalities = "joint_position" ∷ "joint_velocity" ∷ "root_pose" ∷ "wrench" ∷ []

-- `ROOT_POSE_DIM`
abbrev pub root_pose_dim : ℕ
root_pose_dim = 6

-- the configuration; the checks of its base class come before these
pub record FeedbackCfg (W : Type 0) : Type 0 where
  pub feedback_modalities : List String
  pub feedback_scale : W
  pub root_translation_scale : W
  pub root_rotation_scale : W
  pub joint_velocity_scale : W
  pub wrench_force_scale : W
  pub wrench_torque_scale : W
  pub torque_channel : Bool

-- no name twice
abbrev pub are_unique : List String → Bool
are_unique [] = true
are_unique (x ∷ xs) = not (contains x xs) && are_unique xs

abbrev has_any {ℓ} : {A : Type ℓ} → List A → Bool
has_any [] = false
has_any (x ∷ xs) = true

-- `__post_init__`
unfoldable pub post_init : {W : Type 0} ⦃f : Float W⦄ → FeedbackCfg W → Result (Unit {0})
post_init ⦃f⦄ c = do
  ensure (not (f.le c.feedback_scale nothing)) value_error
  ensure (has_any c.feedback_modalities) value_error
  ensure (all (λ (m : String). contains m supported_modalities) c.feedback_modalities) value_error
  ensure (are_unique c.feedback_modalities) value_error

-- `_modality_dims`, of a supported modality
unfoldable pub modality_dim : ℕ → ℕ → String → ℕ
modality_dim joint_dim force_sensors name =
    if str_eq name "root_pose"
    then root_pose_dim
    else if str_eq name "wrench"
    then 6 * force_sensors
    else joint_dim

-- `_feedback_dim`
unfoldable pub feedback_dim : (String → ℕ) → List String → ℕ
feedback_dim dim [] = 0
feedback_dim dim (m ∷ ms) = dim m + feedback_dim dim ms

-- the check of `__init__`, which returns the width of the feedback
unfoldable pub init_width : {W : Type 0} → FeedbackCfg W → ℕ → ℕ → Result ℕ
unfolding modality_dim feedback_dim
init_width c joint_dim force_sensors =
    ensure (not (contains "wrench" c.feedback_modalities && not (ltb 0 force_sensors))) value_error
    >> ok (feedback_dim (modality_dim joint_dim force_sensors) c.feedback_modalities)

module _ {ℓ} {A : Type ℓ} where
  -- xs[:n]
  abbrev pub take : ℕ → List A → List A
  take zero xs = []
  take (suc n) [] = []
  take (suc n) (x ∷ xs) = x ∷ take n xs

  -- `_modality_slices`: what is left after each slice starts the next
  unfoldable pub modality_slices : (String → ℕ) → List String → List A → List (String × List A)
  modality_slices dim [] feedback = []
  modality_slices dim (m ∷ ms) feedback =
      (m, take (dim m) feedback) ∷ modality_slices dim ms (drop (dim m) feedback)

  -- blocks[name], if it is there
  abbrev pub block : String → List (String × List A) → Option (List A)
  block name [] = none
  block name ((m, xs) ∷ rest) = if str_eq m name then some xs else block name rest

-- what the bridge adds to the state
pub record Offsets (W : Type 0) : Type 0 where
  pub feedback_offset : List W
  pub joint_velocity_offset : List W
  pub root_translation : List W
  pub root_rotation : List W
  pub wrench_offset : List W

module _ {W : Type 0} ⦃f : Float W⦄ where
  abbrev pub gated : W → W → List W → List W
  gated scale gate = map (λ x. f.mul (f.mul x scale) gate)

  -- `_wrench_scale`, in threes
  unfoldable pub wrench_scale : FeedbackCfg W → ℕ → List W
  wrench_scale c zero = []
  wrench_scale c (suc sensors) =
      filled c.wrench_force_scale 3 ++ (filled c.wrench_torque_scale 3 ++ wrench_scale c sensors)

  abbrev pub gated_by : List W → W → List W → List W
  gated_by (s ∷ ss) gate (x ∷ xs) = f.mul (f.mul x s) gate ∷ gated_by ss gate xs
  gated_by _ gate _ = []

  spread : Option (List ℕ) → ℕ → List W → List W
  spread none num_targets xs = xs
  spread (some ids) num_targets xs = scatter ids xs (filled nothing num_targets)

  abbrev or_kept : List W → Option (List W) → List W
  or_kept old none = old
  or_kept old (some xs) = xs

  abbrev mapped : (List W → List W) → Option (List W) → Option (List W)
  mapped g none = none
  mapped g (some xs) = some (g xs)

  -- the offsets of the blocks that are there; the others keep theirs
  unfoldable pub offset_blocks :
      FeedbackCfg W → Option (List ℕ) → ℕ → ℕ → W → List (String × List W) → Offsets W → Offsets W
  unfolding spread wrench_scale
  offset_blocks c residual_ids num_targets sensors gate blocks o =
      let joints = λ (scale : W) (name : String).
        mapped (λ xs. spread residual_ids num_targets (gated scale gate xs)) (block name blocks) in
      let root = mapped (map (λ x. f.mul x gate)) (block "root_pose" blocks) in
      let wrench = mapped (gated_by (wrench_scale c sensors) gate) (block "wrench" blocks) in
      record {
        feedback_offset = or_kept o.feedback_offset (joints c.feedback_scale "joint_position");
        joint_velocity_offset =
            or_kept o.joint_velocity_offset (joints c.joint_velocity_scale "joint_velocity");
        root_translation =
            or_kept o.root_translation
              (mapped (λ xs. map (λ x. f.mul x c.root_translation_scale) (take 3 xs)) root);
        root_rotation =
            or_kept o.root_rotation
              (mapped (λ xs. map (λ x. f.mul x c.root_rotation_scale) (drop 3 xs)) root);
        wrench_offset = or_kept o.wrench_offset wrench;
      }

  -- head[:n] = 0
  abbrev pub silence : ℕ → List W → List W
  silence zero xs = xs
  silence (suc n) [] = []
  silence (suc n) (x ∷ xs) = nothing ∷ silence n xs

  abbrev unit_clamp : W → W
  unit_clamp x = clamp x (f.neg (f.of_ℕ 1)) (f.of_ℕ 1)

  -- `process_actions`: the offsets, and the base class's step on the head. The classes between,
  -- which clamp again and keep a history, do not change what it is given.
  unfoldable pub process_feedback :
      FeedbackCfg W
      → (String → ℕ)
      → Option (List ℕ)
      → ℕ
      → ℕ
      → List (Affine W)
      → Option W
      → List W
      → Offsets W × Residual W
      → Offsets W × Residual W
  unfolding feedback_dim modality_slices offset_blocks
  process_feedback c dim residual_ids num_targets sensors columns authority actions (o, s) =
      let bounded = map unit_clamp actions in
      let split = length bounded - feedback_dim dim c.feedback_modalities in
      let head = take split bounded in
      let blocks = modality_slices dim c.feedback_modalities (drop split bounded) in
      let kept = if c.torque_channel then head else silence (length columns) head in
      (
        offset_blocks c residual_ids num_targets sensors s.last_gate blocks o,
        process_actions columns authority kept s,
      )

  -- `reset`'s part of the offsets
  unfoldable pub reset_offsets : Offsets W → Offsets W
  reset_offsets o = record {
    feedback_offset = fill nothing o.feedback_offset;
    joint_velocity_offset = fill nothing o.joint_velocity_offset;
    root_translation = fill nothing o.root_translation;
    root_rotation = fill nothing o.root_rotation;
    wrench_offset = fill nothing o.wrench_offset;
  }
