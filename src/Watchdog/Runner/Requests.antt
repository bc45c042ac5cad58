-- ===== src/Watchdog/Runner/Requests.antt =====
-- `RunnerWatchdogBridge.iteration` and `_service_request`: the trainer's side of the watchdog
-- protocol. `save_ok` says whether writing a checkpoint succeeds.
pub mod Durable
pub mod Once
pub mod Learn
pub mod Found
pub mod Answered
use Prim.Native.String.{◌++◌ as join_text}
use mc_mjlab.Prelude.{
  ℕ, zero, suc, ◌+◌, ◌-◌, String, Bool, true, false, not, ◌&&◌, ◌||◌, Option, none, some, List, [],
  ◌∷◌, ◌++◌, map, ltb, ◌==◌, if◌then◌else◌, length, drop, contains, ℤ, pos, str_eq, Result, Raised,
  ok, err, value_error, type_error, ◌>>=◌, ◌>>◌,
}
use mc_mjlab.Prelude.Dict
use mc_mjlab.Prelude.Dict.{Dict}
use mc_mjlab.Names.{codes, remove_prefix, has_text, lower}
use mc_mjlab.Json.{Host, Json, Fields, str, int, find, find_or, as_dict, to_str}
use mc_mjlab.Watchdog.Runner.{
  Status, running, stopped_by_watchdog, plain, Heartbeat, Response, unreadable, refused,
  acknowledged, Effect, wrote_status, wrote_heartbeat, wrote_response, saved, synced, Runner,
  Ending, returned, watchdog_stop, save_failed, Extra, termination_delta, add_totals, emit,
  write_status, checkpoint_saved,
}

-- what the trainer hands over at the end of an iteration
pub record Rollout (W : Type 0) : Type 0 where
  pub rollout_iteration : ℕ
  pub step_counter : ℕ
  pub rollout_diagnostics : Dict W
  pub episode_extras : List (List (String × Extra))
  pub collect_time : W
  pub learn_time : W
  pub cuda_memory : Option (W × W × W × W)

module _ {W : Type 0} where
  -- the heartbeat of an iteration, with the totals that it has reached
  abbrev beat : Rollout W → W → Runner W → Heartbeat W
  beat o now r =
      let delta = termination_delta o.episode_extras in
      record {
        updated_unix = now;
        beat_iteration = o.rollout_iteration;
        common_step_counter = o.step_counter;
        collect_time_s = o.collect_time;
        learn_time_s = o.learn_time;
        beat_checkpoint = r.last_checkpoint;
        terminations_delta = delta;
        terminations_total = add_totals r.termination_totals delta;
        diagnostics = o.rollout_diagnostics;
        cuda = o.cuda_memory;
      }

  publish_beat : Rollout W → W → Runner W → Runner W
  unfolding termination_delta add_totals write_status
  publish_beat o now r =
      let h = beat o now r in
      write_status (record (plain running) { status_iteration = some o.rollout_iteration })
        (emit (wrote_heartbeat h)
          (record r { termination_totals = h.terminations_total; heartbeat = some h }))

  -- the checkpoint's own status, for a stop, before WatchdogStop
  finish_request : Bool → String → ℕ → String → Runner W → Ending × Runner W
  unfolding write_status
  finish_request false id iteration path r = (returned, r)
  finish_request true id iteration path r = (
    watchdog_stop,
    write_status
        (record (plain stopped_by_watchdog) {
          status_iteration = some iteration;
          status_checkpoint = some path;
          status_request_id = some id;
        })
        r,
  )

  abbrev action_is : String → Json W → Bool
  action_is name (str s) = str_eq s name
  action_is name _ = false

  abbrev is_known : Json W → Bool
  is_known action = action_is "preserve" action || action_is "stop" action

abbrev pub is_last : Option String → String → Bool
is_last none id = false
is_last (some l) id = str_eq id l

module _ {W : Type 0} (host : Host W) (save_ok : String → Bool) where
  to_dictionary : Option (Json W) → Result (Option (Fields W))
  to_dictionary none = err value_error
  to_dictionary (some v) = elim (as_dict v) [ none ↦ err type_error | some fs ↦ ok (some fs) ]

  -- `read_json` of the file's text, if there is one
  unfoldable pub read_json : Option String → Result (Option (Fields W))
  unfolding to_dictionary
  read_json none = ok none
  read_json (some text) = to_dictionary (host.loads text)

  abbrev pub checkpoint_path : Runner W → ℕ → String
  checkpoint_path r iteration =
      host.join r.root (join_text (join_text "model_" (host.str_of (int (pos iteration)))) ".pt")

  -- save, fsync, and only then acknowledge
  serve : Bool → String → String → ℕ → W → Runner W → Ending × Runner W
  unfolding checkpoint_saved finish_request
  serve stopping action id iteration now r =
      let path = checkpoint_path r iteration in
      if save_ok path
      then finish_request stopping id iteration (host.resolve path) (
          emit (wrote_response (acknowledged id action iteration (host.resolve path))) (
            emit (synced (host.resolve path)) (
              checkpoint_saved (host.resolve path) now
                (emit (saved (host.resolve path) iteration) r))))
      else (save_failed, r)

  answer : String → Json W → ℕ → W → Runner W → Ending × Runner W
  unfolding serve
  answer id action iteration now r =
      if not (is_known action)
      then (returned, emit (wrote_response (refused id)) r)
      else if r.distributed
      then (returned, emit (wrote_response (refused id)) r)
      else serve (action_is "stop" action) (if action_is "stop" action then "stop" else "preserve")
          id iteration now r

  take_request : Fields W → ℕ → W → Runner W → Ending × Runner W
  unfolding answer to_str
  take_request request iteration now r =
      let id = to_str host (find_or request "request_id" (str "")) in
      if str_eq id "" || is_last r.last_request_id id
      then (returned, r)
      else answer id (find_or request "action" (Json.null)) iteration now
          (record r { last_request_id = some id })

  service_result : Result (Option (Fields W)) → ℕ → W → Runner W → Ending × Runner W
  unfolding take_request
  service_result (err x) iteration now r = (returned, emit (wrote_response (unreadable x)) r)
  service_result (ok none) iteration now r = (returned, r)
  service_result (ok (some request)) iteration now r = take_request request iteration now r

  unfoldable pub service_request : Option String → ℕ → W → Runner W → Ending × Runner W
  unfolding read_json service_result
  service_request file iteration now r = service_result (read_json file) iteration now r

  -- `iteration`
  unfoldable pub complete_iteration : Rollout W → Option String → W → Runner W → Ending × Runner W
  unfolding publish_beat service_request
  complete_iteration o file now r =
      if r.enabled
      then service_request file o.rollout_iteration now (publish_beat o now r)
      else (returned, r)
