-- ===== src/Action/Pipeline.antt =====
-- `McRtcResidualActionBase` (actions/mc_rtc_residual_action.py): the control period. Every tensor
-- and array has one row for each environment and every operation is elementwise, so this is one
-- environment, with the counters that all share. `V` is its output channels, `D` its datastore
-- readouts, `X` what the bridge samples of the simulation, `F` the fed datastore inputs.
pub mod Refines
use mc_mjlab.Prelude.{
  ℕ, zero, suc, ◌+◌, ◌-◌, ◌%◌, Bool, true, false, not, ◌&&◌, ◌||◌, Option, none, some, List, [],
  ◌∷◌, ◌++◌, ltb, ◌==◌, if◌then◌else◌, Result, ok, err, value_error, ◌>>=◌, ◌>>◌, ensure,
}

-- `native.OutputLayout.Status`
pub data Status : Type 0 where
  solved qp_failed worker_failed : Status

abbrev pub is_solved : Status → Bool
is_solved solved = true
is_solved _ = false

abbrev pub is_qp_failed : Status → Bool
is_qp_failed qp_failed = true
is_qp_failed _ = false

abbrev pub is_worker_failed : Status → Bool
is_worker_failed worker_failed = true
is_worker_failed _ = false

-- a row of the output block
pub record OutputRow (V D : Type 0) : Type 0 where
  pub status : Status
  pub values : V
  pub readouts : D

-- a row of the input block
pub record InputRow (X F : Type 0) : Type 0 where
  pub sampled : X
  pub feed : F
  pub reset_flag : Bool

-- What the native manager does with a dispatched row by the time it is collected: the row that a
-- worker wrote, if one did, and whether `collect` reports the row as failed.
pub record Outcome (V D : Type 0) : Type 0 where
  pub written : Option (OutputRow V D)
  pub reported : Bool

-- `in_flight` is `_pending_dispatch`, with the outcome of that dispatch; `sent` are the input rows
-- that were dispatched, in order
pub record Pipeline (V D X F : Type 0) : Type 0 where
  pub substep : ℕ
  pub in_flight : Option (Outcome V D)
  pub pending_reset : Bool
  pub dispatch_reset : Bool
  pub previous_control : V
  pub next_control : V
  pub staged_control : V
  pub has_staged_control : Bool
  pub output : OutputRow V D
  pub datastore_outputs : D
  pub datastore_output_fresh : Bool
  pub feed : F
  pub controller_failed : Bool
  pub controller_worker_failed : Bool
  pub sent : List (InputRow X F)

abbrev pub select {ℓ} : {A : Type ℓ} → Bool → A → A → A
select true a b = a
select false a b = b

module _ {V D : Type 0} where
  -- the output row that is collected
  abbrev pub row_of : Outcome V D → OutputRow V D → OutputRow V D
  row_of o old = elim o.written [ none ↦ old | some row ↦ row ]

  abbrev pub status_of : Outcome V D → OutputRow V D → Status
  status_of o old = if o.reported then worker_failed else (row_of o old).status

module _ {V D X F : Type 0} where
  -- `_latch_datastore_outputs`
  latch : Bool → D → Pipeline V D X F → Pipeline V D X F
  latch fresh values s = record s {
    datastore_output_fresh = fresh;
    datastore_outputs = select fresh values s.datastore_outputs;
  }

  -- `_collect_controller_output`, with a dispatch outstanding
  stage : OutputRow V D → Status → Pipeline V D X F → Pipeline V D X F
  unfolding latch
  stage row status s =
      let lost = is_worker_failed status in
      let fresh = is_solved status in
      latch fresh row.readouts (record s {
        in_flight = none;
        output = record row { status = status };
        pending_reset = lost || (s.pending_reset && not s.dispatch_reset);
        controller_failed = s.controller_failed || is_qp_failed status;
        controller_worker_failed = s.controller_worker_failed || lost;
        has_staged_control = fresh;
        staged_control = select fresh row.values s.staged_control;
      })

  collect_in_flight : Option (Outcome V D) → Pipeline V D X F → Pipeline V D X F
  unfolding stage
  collect_in_flight none s = s
  collect_in_flight (some o) s = stage (row_of o s.output) (status_of o s.output) s

  unfoldable pub collect : Pipeline V D X F → Pipeline V D X F
  unfolding collect_in_flight
  collect s = collect_in_flight s.in_flight s

  -- the endpoints of the ramp
  roll : Pipeline V D X F → Pipeline V D X F
  roll s = record s {
    previous_control = select s.has_staged_control s.next_control s.previous_control;
    next_control = select s.has_staged_control s.staged_control s.next_control;
    has_staged_control = false;
  }

  dispatch : X → Outcome V D → Pipeline V D X F → Pipeline V D X F
  dispatch sampled o s = record s {
    dispatch_reset = s.pending_reset;
    output = record s.output { status = worker_failed };
    sent = s.sent ++ record { sampled = sampled; feed = s.feed; reset_flag = s.pending_reset } ∷ [];
    in_flight = some o;
  }

  -- `_advance_control_period`
  unfoldable pub advance : X → Outcome V D → Pipeline V D X F → Pipeline V D X F
  unfolding collect roll dispatch
  advance sampled o s = dispatch sampled o (roll (collect s))

  -- the pipeline's part of `apply_actions`; the outcome is that of a dispatch made here
  unfoldable pub apply_actions : ℕ → X → Outcome V D → Pipeline V D X F → Pipeline V D X F
  unfolding advance
  apply_actions frameskip sampled o s =
      let counted : Pipeline V D X F = record s { substep = s.substep + 1 } in
      if s.substep % frameskip == 0 then advance sampled o counted else counted

  -- the ramp's parameter at a substep, over `frameskip`
  abbrev pub ramp_position : ℕ → Pipeline V D X F → ℕ
  ramp_position frameskip s = s.substep % frameskip + 1

  -- `reset` of this environment, from the seed of the subclass and with zeroed readouts
  unfoldable pub reset : V → D → Pipeline V D X F → Pipeline V D X F
  unfolding collect
  reset seed zeroed s = record (collect s) {
    pending_reset = true;
    previous_control = seed;
    next_control = seed;
    has_staged_control = false;
    datastore_outputs = zeroed;
    datastore_output_fresh = false;
    controller_failed = false;
    controller_worker_failed = false;
  }

  -- `reset` of other environments
  unfoldable pub reset_elsewhere : Pipeline V D X F → Pipeline V D X F
  unfolding collect
  reset_elsewhere s = collect s

  -- a datastore setter's value, which holds until it is set again
  unfoldable pub set_feed : F → Pipeline V D X F → Pipeline V D X F
  set_feed values s = record s { feed = values }

  -- the buffers as `__init__` leaves them after the controllers started
  unfoldable pub make : V → F → OutputRow V D → Pipeline V D X F
  make zeros fed row = record {
    substep = 0;
    in_flight = none;
    pending_reset = false;
    dispatch_reset = false;
    previous_control = zeros;
    next_control = zeros;
    staged_control = zeros;
    has_staged_control = false;
    output = row;
    datastore_outputs = row.readouts;
    datastore_output_fresh = true;
    feed = fed;
    controller_failed = false;
    controller_worker_failed = false;
    sent = [];
  }

-- the checks of `_validate_cfg` on numbers; a negative timeout is an integer below zero
unfoldable pub validate_cfg : ℕ → ℕ → Result (Unit {0})
validate_cfg frameskip decimation = do
  ensure (ltb 0 frameskip) value_error
  ensure (decimation % frameskip == 0) value_error
