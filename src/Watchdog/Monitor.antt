-- ===== src/Watchdog/Monitor.antt =====
-- scripts/watch_training.py: attaching to a trainer and one poll of it. `Sensed` is what a poll
-- reads; `trace` is the events it logs and the requests it writes, in order.
pub mod Poll
use Prim.Native.String.{◌++◌ as join_text}
use mc_mjlab.Prelude.{
  ℕ, zero, suc, ◌+◌, ◌-◌, ◌≤◌, String, Bool, true, false, not, ◌&&◌, ◌||◌, Option, none, some, List,
  [], ◌∷◌, ◌++◌, map, ltb, leb, ◌==◌, if◌then◌else◌, length, ℤ, pos, eq_ℤ, str_eq, Raised, Result,
  ok, err, value_error, os_error, runtime_error, ◌>>=◌, ◌>>◌, ensure,
}
use mc_mjlab.Prelude.Dict.{Dict, get}
use mc_mjlab.Float.{Float}
use mc_mjlab.Watchdog.Health.{
  Level, rank, WatchdogThresholds, HealthObservation, HealthDecision, Reason, decide_health,
  intervention_for,
}
use mc_mjlab.Watchdog.Runner.{
  RunState, completed, failed, stopped_by_watchdog, Status, Heartbeat, Response, unreadable,
  refused, acknowledged,
}
use mc_mjlab.Watchdog.Qualification.{
  Snapshot, Baseline, Regression, qualification_baseline, qualification_regressions,
}

pub data Verdict : Type 0 where
  run_completed run_stopped trainer_failed trainer_exited_unexpectedly : Verdict

abbrev cause_of : Option String → String
cause_of none = "unknown"
cause_of (some c) = c

abbrev unexpected : Verdict × String × ℕ
unexpected = (trainer_exited_unexpectedly, "process exited without terminal status", 2)

verdict_of : RunState → Option String → Verdict × String × ℕ
verdict_of completed cause = (run_completed, "configured training budget completed", 0)
verdict_of stopped_by_watchdog cause = (run_stopped, "trainer honored a checkpointed stop", 0)
verdict_of failed cause = (trainer_failed, join_text "trainer reported " (cause_of cause), 2)
verdict_of _ cause = unexpected

-- the state, what its message names, and the exit code
unfoldable pub terminal_verdict : Option Status → Verdict × String × ℕ
unfolding verdict_of
terminal_verdict none = unexpected
terminal_verdict (some s) = verdict_of s.run_state s.cause

-- request.json: what of it the protocol depends on
pub record Request : Type 0 where
  pub request_id : String
  pub action : Level

pub data Event : Type 0 where
  terminal : Verdict → String → Event
  requested : Request → Event
  request_acknowledged : Request → Event
  request_rejected : Request → Event
  health_degraded : Level → List String → Option Level → Event

-- the id and the state of a response, as `response.get` finds them
abbrev pub response_id : Response → Option String
response_id (unreadable x) = none
response_id (refused id) = some id
response_id (acknowledged id a i p) = some id

abbrev pub is_acknowledged : Response → Bool
is_acknowledged (acknowledged id a i p) = true
is_acknowledged _ = false

abbrev names : Option String → String → Bool
names none id = false
names (some r) id = str_eq r id

-- `_response_for`
unfoldable pub response_for : Option Response → Option Request → Option Response
response_for found none = none
response_for none (some q) = none
response_for (some r) (some q) = if names (response_id r) q.request_id then some r else none

-- runtime.json
pub record Runtime (W : Type 0) : Type 0 where
  pub pid : ℤ
  pub cooperative_stop_supported : Bool
  pub started_unix : W

pub record Args (W : Type 0) : Type 0 where
  pub wanted_pid : ℤ
  pub poll_s : W
  pub max_level : Level
  pub thresholds : WatchdogThresholds W
  pub has_report : Bool
  pub qualification_baseline_samples : ℕ
  pub qualification_hazard_margin : W
  pub qualification_recovery_margin : W

pub record Sensed (W : Type 0) : Type 0 where
  pub now : W
  pub status : Option Status
  pub alive : Bool
  pub heartbeat : Option (Heartbeat W)
  pub checkpoint_mtime : Option W
  pub gpu_free : Option W
  -- the report's modification time, and what `qualification_snapshot` makes of it
  pub report : Option (ℕ × Result (Snapshot W))
  pub response : Option Response
  pub fresh_id : String

-- the locals of `main` about qualification
pub record Qualifying (W : Type 0) : Type 0 where
  pub token : Option ℕ
  pub samples : List (Snapshot W)
  pub baseline : Option (Baseline W)
  pub current : Option (Snapshot W)
  pub error : Option Raised
  pub reasons : List (Regression W)
  pub bad_streak : ℕ

abbrev Signature : Type 0
Signature = Level × List String × Option Level

pub record Monitor (W : Type 0) : Type 0 where
  pub qualifying : Qualifying W
  pub gpu_low_streak : ℕ
  pub worker_baseline : Option ℕ
  pub preserve_acknowledged : Bool
  pub stop_acknowledged : Bool
  pub pending_request : Option Request
  pub last_event_signature : Option Signature
  pub trace : List Event

-- how a poll ends: another one follows, or the loop breaks
pub data Outcome : Type 0 where
  watching : Outcome
  finished : Verdict → ℕ → Outcome

abbrev pub is_some {ℓ} : {A : Type ℓ} → Option A → Bool
is_some none = false
is_some (some a) = true

abbrev same_token : Option ℕ → ℕ → Bool
same_token none token = false
same_token (some t) token = t == token

abbrev is_empty {ℓ} : {A : Type ℓ} → List A → Bool
is_empty [] = true
is_empty (x ∷ xs) = false

-- in ("preserve", "stop")
abbrev pub is_request : Level → Bool
is_request Level.preserve = true
is_request Level.stop = true
is_request _ = false

same_texts : List String → List String → Bool
same_texts [] [] = true
same_texts (x ∷ xs) (y ∷ ys) = str_eq x y && same_texts xs ys
same_texts [] (y ∷ ys) = false
same_texts (x ∷ xs) [] = false

abbrev same_action : Option Level → Option Level → Bool
same_action none none = true
same_action (some a) (some b) = rank a == rank b
same_action none (some b) = false
same_action (some a) none = false

same_signature : Option Signature → Signature → Bool
unfolding same_texts
same_signature none t = false
same_signature (some (l, rs, a)) (m, ss, b) =
    (rank l == rank m) && same_texts rs ss && same_action a b

module _ {W : Type 0} where
  abbrev pub log : Event → Monitor W → Monitor W
  log e m = record m { trace = m.trace ++ e ∷ [] }

  -- the acknowledgement flags
  mark : Level → Monitor W → Monitor W
  mark Level.preserve m = record m { preserve_acknowledged = true }
  mark _ m = record m { stop_acknowledged = true }

  pub settle : Request → Bool → Monitor W → Monitor W
  unfolding mark
  settle q true m =
      log (request_acknowledged q) (record (mark q.action m) { pending_request = none })
  settle q false m = log (request_rejected q) (record m { pending_request = none })

  unfoldable pub take_response : Option Request → Option Response → Monitor W → Monitor W
  unfolding settle
  take_response none r m = m
  take_response (some q) none m = m
  take_response (some q) (some r) m = settle q (is_acknowledged r) m

  -- the failures since attaching, and the count they are taken from
  abbrev worker_total : Heartbeat W → ℕ
  worker_total h = elim (get h.terminations_total "controller_worker_failed") [
    | none ↦ 0
    | some n ↦ n
  ]

  count_workers : Option (Heartbeat W) → Option ℕ → ℕ × Option ℕ
  unfolding get
  count_workers none none = (0, none)
  count_workers none (some base) = (0 - base, some base)
  count_workers (some h) none = (worker_total h - worker_total h, some (worker_total h))
  count_workers (some h) (some base) = (worker_total h - base, some base)

  request_if : Option Level → String → Monitor W → Monitor W
  request_if none id m = m
  request_if (some action) id m =
      if is_request action
      then (let q : Request = record { request_id = id; action = action } in
          log (requested q) (record m { pending_request = some q }))
      else m

  -- log a degraded health that was not logged before, then remember the signature
  degrade : Level → List String → Option Level → Monitor W → Monitor W
  unfolding same_signature
  degrade level reasons action m =
      let logged : Monitor W =
        (if not (same_signature m.last_event_signature (level, reasons, action))
            && ltb 0 (rank level)
            && not m.stop_acknowledged
            && not (is_some m.pending_request)
          then log (health_degraded level reasons action) m
          else m) in
      record logged { last_event_signature = some (level, reasons, action) }

  -- the part of a poll that follows the decision
  pub act : Level → Level → List String → String → Monitor W → Monitor W
  unfolding intervention_for degrade request_if
  act maximum level reasons id m =
      let action =
        (if m.stop_acknowledged
          then none
          else intervention_for level maximum m.preserve_acknowledged
              (is_some m.pending_request)) in
      request_if action id (
        degrade level reasons action (record m {
          preserve_acknowledged = if leb (rank level) 1 then false else m.preserve_acknowledged;
        }))
