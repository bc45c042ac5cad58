-- ===== src/Action/Residual.antt =====
-- `McRtcResidualActionBase` (actions/mc_rtc_residual_action.py): the residual that the policy asks
-- for and what is delivered of it, for one environment; the lists are the columns of its row.
pub mod Joints
pub mod Delivered
pub mod Window
use mc_mjlab.Prelude.{
  ℕ, zero, suc, Bool, true, false, Option, none, some, List, [], ◌∷◌, map, set, get_elem?,
  if◌then◌else◌,
}
use mc_mjlab.Float.{Float, nothing, maximum, clamp}

-- scale, offset and clip of one residual column
pub record Affine (W : Type 0) : Type 0 where
  pub scale : W
  pub offset : W
  pub clip : Option (W × W)

-- `_raw_actions` and `_residual_raw_actions` are the same tensor
pub record Residual (W : Type 0) : Type 0 where
  pub residual_raw_actions : List W
  pub previous_residual_raw_actions : List W
  pub processed_actions : List W
  pub last_gate : W
  pub previous_gate : W
  pub actor_update_gate : W
  pub executed_physical : List W
  pub previous_executed_physical : List W
  pub projection_mask : List Bool
  pub torque_peak : List W

module _ {ℓ κ} {A : Type ℓ} {B : Type κ} where
  -- `a[:] = b` keeps the width
  abbrev pub fill : B → List A → List B
  fill v [] = []
  fill v (x ∷ xs) = v ∷ fill v xs

module _ {ℓ} {A : Type ℓ} where
  -- torch.full(n, v)
  abbrev pub filled : A → ℕ → List A
  filled v zero = []
  filled v (suc n) = v ∷ filled v n

  -- full[ids] = values
  unfoldable pub scatter : List ℕ → List A → List A → List A
  scatter [] values full = full
  scatter (i ∷ ids) [] full = full
  scatter (i ∷ ids) (v ∷ values) full = scatter ids values (set full i v)

  abbrev pub or_else : A → Option A → A
  or_else fallback none = fallback
  or_else fallback (some v) = v

  -- full[ids], where every id is in range
  unfoldable pub gather : A → List ℕ → List A → List A
  gather fallback [] full = []
  gather fallback (i ∷ ids) full = or_else fallback (get_elem? full i) ∷ gather fallback ids full

module _ {ℓ} {A : Type ℓ} where
  abbrev pub narrow : A → Option (List ℕ) → List A → List A
  unfolding gather
  narrow fallback none full = full
  narrow fallback (some ids) full = gather fallback ids full

module _ {W : Type 0} ⦃f : Float W⦄ where
  abbrev clipped : Option (W × W) → W → W
  clipped none x = x
  clipped (some (lower, upper)) x = clamp x lower upper

  abbrev pub affine : Affine W → W → W
  affine c x = clipped c.clip (f.add (f.mul x c.scale) c.offset)

  abbrev pub process_columns : List (Affine W) → List W → List W
  process_columns (c ∷ cs) (x ∷ xs) = affine c x ∷ process_columns cs xs
  process_columns _ _ = []

  abbrev updated_gate : Option W → W → W
  updated_gate none last = last
  updated_gate (some authority) last = authority

  -- `process_actions` of the residual's columns; the authority is what the recovery filter returns,
  -- if there is one
  unfoldable pub process_actions : List (Affine W) → Option W → List W → Residual W → Residual W
  process_actions columns authority residual s = record s {
    previous_executed_physical = s.executed_physical;
    previous_residual_raw_actions = s.residual_raw_actions;
    previous_gate = s.last_gate;
    residual_raw_actions = residual;
    processed_actions = process_columns columns residual;
    last_gate = updated_gate authority s.last_gate;
    actor_update_gate = updated_gate authority s.last_gate;
  }

  abbrev peaks : List W → List W → List W
  peaks (p ∷ ps) (t ∷ ts) = maximum p (f.abs t) ∷ peaks ps ts
  peaks _ _ = []

  -- the residual of every target joint: gated, and zero where no residual acts
  unfoldable pub full_residual : Option (List ℕ) → ℕ → Residual W → List W
  unfolding scatter
  full_residual residual_ids num_targets s =
      let gated = map (λ x. f.mul x s.last_gate) s.processed_actions in
      elim residual_ids [ none ↦ gated | some ids ↦ scatter ids gated (filled nothing num_targets) ]

  -- `apply_actions` from the torque peak on, given what `_apply_control` returns for each joint
  unfoldable pub apply_residual :
      Option (List ℕ) → List W → List W → List Bool → Residual W → Residual W
  apply_residual residual_ids qfrc executed projected s = record s {
    torque_peak = peaks s.torque_peak qfrc;
    executed_physical = narrow nothing residual_ids executed;
    projection_mask = narrow false residual_ids projected;
  }

  -- `reset`'s part of this state; with a recovery filter the authority starts at zero
  unfoldable pub reset : Bool → Residual W → Residual W
  reset has_authority s =
      let gate = if has_authority then nothing else f.of_ℕ 1 in
      record s {
        torque_peak = fill nothing s.torque_peak;
        last_gate = gate;
        previous_gate = gate;
        executed_physical = fill nothing s.executed_physical;
        previous_executed_physical = fill nothing s.previous_executed_physical;
        residual_raw_actions = fill nothing s.residual_raw_actions;
        previous_residual_raw_actions = fill nothing s.previous_residual_raw_actions;
        projection_mask = fill false s.projection_mask;
      }

  -- the peak so far, which starts again
  unfoldable pub consume_torque_peak : Residual W → List W × Residual W
  consume_torque_peak s = (s.torque_peak, record s { torque_peak = fill nothing s.torque_peak })
