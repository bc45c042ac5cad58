-- ===== src/Curriculum/Bridge/Iteration/Sync.antt =====
-- The bridge keeps its state valid, and the environment's term and the published files on the same
-- stage as the state.
use mc_mjlab.Prelude.{String, true, Option, none, some, ◌≡◌, Raised}
use mc_mjlab.Prelude.Dict.{Dict}
use mc_mjlab.Json.{Host}
use mc_mjlab.Curriculum.State.{AchievementState}
use mc_mjlab.Curriculum.State.Bounds.{IsValid}
use mc_mjlab.Curriculum.Bridge.{Bridge, Published, Report, rejected}
use mc_mjlab.Curriculum.Bridge.Iteration.Moved.{HasShipped, IsTermAt}

module _ {W : Type 0} where
  abbrev IsShown : AchievementState → Option Report → Option (Published W) → Type 0
  IsShown s r none = ⊥
  IsShown s r (some p) =
      (p.published_state ≡ s) × (p.requested_stage ≡ s.current_stage) × (p.published_report ≡ r)

  -- The state is valid; the term has the task's weights and stands on the state's stage; and, on
  -- the rank that publishes, the files show the state, ask for its stage and show the last report.
  pub record IsSynced (b : Bridge W) : Type 0 where
    pub valid : IsValid b.state
    pub shipped : HasShipped b.term
    pub on_stage : IsTermAt b.state.current_stage b.term
    pub shown : b.enabled ≡ true → IsShown b.state b.last_report b.published

module _ {W : Type 0} (host : Host W) where
  -- the parts of `IsSynced` that hold also inside `_consume_report`
  record IsHeld (b : Bridge W) : Type 0 where
    valid : IsValid b.state
    shipped : HasShipped b.term
    on_stage : IsTermAt b.state.current_stage b.term

  -- what `enter` leaves: an accepted report's state, or the old state with a rejection noted
  record Entered (b : Bridge W) (q : Bridge W × Dict String) : Type 0 where
    held : IsHeld q.0
    enabled_kept : q.0.enabled ≡ b.enabled
    token_kept : q.0.last_observed_token ≡ b.last_observed_token
    dir_kept : q.0.run_dir ≡ b.run_dir
    refused : (x : Raised) → q.0.last_report ≡ some (rejected x) → q.0.state ≡ b.state

  -- what an iteration that does not raise leaves
  record IsSettled (b : Bridge W) (q : Bridge W × Dict String) : Type 0 where
    synced : IsSynced q.0
    refused : (x : Raised) → q.0.last_report ≡ some (rejected x) → q.0.state ≡ b.state
