-- ===== src/Watchdog/Runner/Requests/Learn.antt =====
-- `learn` and the logging call of tasks/residual_balance/residual_balance_runner.py, as far as the
-- watchdog sees them: the iterations, then a terminal status.
use mc_mjlab.Prelude.{
  ℕ, String, Bool, true, false, not, ◌||◌, Option, none, some, List, [], ◌∷◌, ◌++◌, str_eq, Result,
  ok, err, ◌≡◌, refl, ap, ◌∙◌, arith, ◌==◌, if-rule,
}
use mc_mjlab.Json.{Host, Json, Fields, str, find_or, to_str}
use mc_mjlab.Watchdog.Runner.{
  starting, running, completed, failed, stopped_by_watchdog, Status, plain, Runner, Ending,
  returned, watchdog_stop, save_failed, Effect, wrote_status, wrote_heartbeat, wrote_response,
  saved, synced, write_status, checkpoint_saved, completed_run, failed_run, stamp, emit_beat,
  Heartbeat,
}
use mc_mjlab.Watchdog.Runner.Requests.{
  Rollout, read_json, finish_request, serve, answer, take_request, service_result, service_request,
  is_known, is_last, checkpoint_path, publish_beat, complete_iteration,
}

-- what ends training: the class and the message of an exception
pub record Failure : Type 0 where
  pub error_class : String
  pub text : List ℕ

-- one iteration: its rollout, request.json, and the time
abbrev pub Turn : Type 0 → Type 0
Turn W = Rollout W × Option String × W

module _ {W : Type 0} where
  -- `__init__`: the resolved root, if there is a log directory, and the environment's RANK
  unfoldable pub make_runner : Option String → ℕ → Bool → Runner W
  unfolding write_status
  make_runner root rank distributed = write_status (plain starting) (record {
    enabled = elim root [ none ↦ false | some d ↦ rank == 0 ];
    distributed = distributed;
    root = elim root [ none ↦ "" | some d ↦ d ];
    last_request_id = none;
    last_checkpoint = none;
    termination_totals = [];
    heartbeat = none;
    effects = [];
  })

  -- the later iterations, unless this one raised
  after_turn : Ending → Runner W → Ending × Runner W → Ending × Runner W
  after_turn returned r later = later
  after_turn e r later = (e, r)

  -- the handlers of `learn`: the library's own exception, and one from writing a checkpoint
  close : Ending → Option Failure → Failure → ℕ → Runner W → Runner W
  unfolding completed_run failed_run
  close returned none on_save i r = completed_run i r
  close returned (some x) on_save i r = failed_run x.error_class x.text i r
  close watchdog_stop x on_save i r = r
  close save_failed x on_save i r = failed_run on_save.error_class on_save.text i r

module _ {W : Type 0} (host : Host W) (save_ok : String → Bool) where
  unfoldable pub train : List (Turn W) → Runner W → Ending × Runner W
  unfolding complete_iteration after_turn
  train [] r = (returned, r)
  train ((o, file, now) ∷ rest) r =
      let (e, r') = complete_iteration host save_ok o file now r in after_turn e r' (train rest r')

  unfoldable pub learn : List (Turn W) → Option Failure → Failure → ℕ → Runner W → Runner W
  unfolding train close
  learn turns x on_save i r = let (e, r') = train turns r in close e x on_save i r'

abbrev later_status : Option Status → Option Status → Option Status
later_status first none = first
later_status first (some s) = some s

-- the status that status.json is left with
abbrev pub last_status : {W : Type 0} → List (Effect W) → Option Status
last_status [] = none
last_status (wrote_status s ∷ es) = later_status (some s) (last_status es)
last_status (e ∷ es) = last_status es

abbrev pub is_terminal : Option Status → Bool
is_terminal none = false
is_terminal (some s) = elim s.run_state [
  | starting ↦ false
  | running ↦ false
  | completed ↦ true
  | failed ↦ true
  | stopped_by_watchdog ↦ true
]

module _ {W : Type 0} where
  last_status-emit :
      (s : Status) (es : List (Effect W)) → last_status (es ++ wrote_status s ∷ []) ≡ some s
  last_status-emit s [] = refl
  last_status-emit s (wrote_status t ∷ es) = ap (later_status (some t)) (last_status-emit s es)
  last_status-emit s (wrote_heartbeat b ∷ es) = last_status-emit s es
  last_status-emit s (wrote_response x ∷ es) = last_status-emit s es
  last_status-emit s (saved p i ∷ es) = last_status-emit s es
  last_status-emit s (synced p ∷ es) = last_status-emit s es

  -- a write of an enabled runner is the last
  last_status-write_status :
      (s : Status) (r : Runner W)
      → r.enabled ≡ true
      → last_status (write_status s r).effects ≡ some s
  unfolding write_status
  last_status-write_status s r h = rw h (last_status-emit s r.effects)

  enabled-write_status : (s : Status) (r : Runner W) → (write_status s r).enabled ≡ r.enabled
  unfolding write_status
  enabled-write_status s r = ground arith

  enabled-emit_beat :
      (o : Option (Heartbeat W)) (r : Runner W) → (emit_beat o r).enabled ≡ r.enabled
  enabled-emit_beat none r = refl
  enabled-emit_beat (some b) r = refl

  enabled-checkpoint_saved :
      (path : String) (now : W) (r : Runner W) → (checkpoint_saved path now r).enabled ≡ r.enabled
  unfolding checkpoint_saved
  enabled-checkpoint_saved path now r =
      if-rule (λ (t : Runner W). t.enabled ≡ r.enabled) r.enabled
        (λ _.
          enabled-emit_beat (stamp path now r.heartbeat)
            (record r { last_checkpoint = some path; heartbeat = stamp path now r.heartbeat }))
        (λ _. refl)

  -- still enabled, and a stop for the watchdog has published its status
  record IsShown (t : Ending × Runner W) : Type 0 where
    on : t.1.enabled ≡ true
    shown : t.0 ≡ watchdog_stop → is_terminal (last_status t.1.effects) ≡ true

  IsShown-returned : (r : Runner W) → r.enabled ≡ true → IsShown (returned, r)
  IsShown-returned r h = record { on = h; shown = λ e. cc e }

  IsShown-finish_request :
      (stopping : Bool) (id : String) (i : ℕ) (p : String) (r : Runner W)
      → r.enabled ≡ true
      → IsShown (finish_request stopping id i p r)
  unfolding finish_request
  IsShown-finish_request false id i p r h = IsShown-returned r h
  IsShown-finish_request true id i p r h = record {
    on = enabled-write_status _ r ∙ h;
    shown = λ e. ap is_terminal (last_status-write_status _ r h);
  }

module _ {W : Type 0} (host : Host W) (save_ok : String → Bool) where
  IsShown-serve :
      (stopping : Bool) (action id : String) (i : ℕ) (now : W) (r : Runner W)
      → r.enabled ≡ true
      → IsShown (serve host save_ok stopping action id i now r)
  unfolding serve
  IsShown-serve stopping action id i now r h =
      if-rule IsShown (save_ok (checkpoint_path host save_ok r i))
        (λ _. IsShown-finish_request stopping id i _ _ (enabled-checkpoint_saved _ now _ ∙ h))
        (λ _. record { on = h; shown = λ e. cc e })

  IsShown-answer :
      (id : String) (action : Json W) (i : ℕ) (now : W) (r : Runner W)
      → r.enabled ≡ true
      → IsShown (answer host save_ok id action i now r)
  unfolding answer
  IsShown-answer id action i now r h =
      if-rule IsShown (not (is_known action)) (λ _. IsShown-returned _ h)
        (λ _.
          if-rule IsShown r.distributed (λ _. IsShown-returned _ h)
            (λ _. IsShown-serve _ _ id i now r h))

  IsShown-service_result :
      (v : Result (Option (Fields W))) (i : ℕ) (now : W) (r : Runner W)
      → r.enabled ≡ true
      → IsShown (service_result host save_ok v i now r)
  unfolding service_result take_request
  IsShown-service_result (err x) i now r h = IsShown-returned _ h
  IsShown-service_result (ok none) i now r h = IsShown-returned r h
  IsShown-service_result (ok (some request)) i now r h =
      let id = to_str host (find_or request "request_id" (str "")) in
      if-rule IsShown (str_eq id "" || is_last r.last_request_id id) (λ _. IsShown-returned r h)
        (λ _.
          IsShown-answer id (find_or request "action" Json.null) i now
            (record r { last_request_id = some id }) h)

  enabled-publish_beat :
      (o : Rollout W) (now : W) (r : Runner W) → (publish_beat o now r).enabled ≡ r.enabled
  unfolding publish_beat
  enabled-publish_beat o now r = enabled-write_status _ _

  IsShown-complete_iteration :
      (o : Rollout W) (file : Option String) (now : W) (r : Runner W)
      → r.enabled ≡ true
      → IsShown (complete_iteration host save_ok o file now r)
  unfolding complete_iteration service_request
  IsShown-complete_iteration o file now r h =
      if-rule IsShown r.enabled
        (λ _.
          IsShown-service_result (read_json host save_ok file) o.rollout_iteration now
            (publish_beat o now r) (enabled-publish_beat o now r ∙ h))
        (λ _. IsShown-returned r h)

  IsShown-after_turn :
      (t later : Ending × Runner W)
      → IsShown t
      → (t.1.enabled ≡ true → IsShown later)
      → IsShown (after_turn t.0 t.1 later)
  unfolding after_turn
  IsShown-after_turn (returned, r) later t h = h t.on
  IsShown-after_turn (watchdog_stop, r) later t h = t
  IsShown-after_turn (save_failed, r) later t h = t

  IsShown-train :
      (turns : List (Turn W)) (r : Runner W)
      → r.enabled ≡ true
      → IsShown (train host save_ok turns r)
  unfolding train
  IsShown-train [] r h = IsShown-returned r h
  IsShown-train ((o, file, now) ∷ rest) r h =
      let t = complete_iteration host save_ok o file now r in
      IsShown-after_turn t (train host save_ok rest t.1) (IsShown-complete_iteration o file now r h)
        (IsShown-train rest t.1)

  close_terminal :
      (t : Ending × Runner W) (x : Option Failure) (on_save : Failure) (i : ℕ)
      → IsShown t
      → is_terminal (last_status (close t.0 x on_save i t.1).effects) ≡ true
  unfolding close completed_run failed_run
  close_terminal (returned, r) none on_save i t = ap is_terminal (last_status-write_status _ r t.on)
  close_terminal (returned, r) (some x) on_save i t =
      ap is_terminal (last_status-write_status _ r t.on)
  close_terminal (watchdog_stop, r) x on_save i t = t.shown refl
  close_terminal (save_failed, r) x on_save i t = ap is_terminal (last_status-write_status _ r t.on)

  enabled-make_runner :
      (dir : String) (distributed : Bool)
      → (make_runner {W = W} (some dir) 0 distributed).enabled ≡ true
  unfolding make_runner write_status
  enabled-make_runner dir distributed = refl

  -- A trainer with a log directory, on the rank that publishes, leaves a terminal status however
  -- its training ends: completed, failed, or stopped by the watchdog, never starting or running.
  pub learn_terminal :
      (dir : String) (distributed : Bool) (turns : List (Turn W)) (x : Option Failure)
      (on_save : Failure) (i : ℕ)
      → is_terminal (
          last_status
            (learn host save_ok turns x on_save i (make_runner (some dir) 0 distributed)).effects)
        ≡ true
  unfolding learn
  learn_terminal dir distributed turns x on_save i =
      close_terminal (train host save_ok turns (make_runner (some dir) 0 distributed)) x on_save i
        (IsShown-train turns _ (enabled-make_runner dir distributed))
