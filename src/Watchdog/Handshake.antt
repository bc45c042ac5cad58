-- ===== src/Watchdog/Handshake.antt =====
-- Both sides of the watchdog protocol: request.json as scripts/watch_training.py writes it, and the
-- response.json that an iteration of the trainer (tasks/residual_balance/training_watchdog.py)
-- leaves for the monitor.
pub mod Settled
use mc_mjlab.Prelude.{String, Option, none, some, List, [], ◌∷◌, map, ℤ, pos}
use mc_mjlab.Json.{Json, int, real, str, arr, obj, field, end, of_list}
use mc_mjlab.Watchdog.Health.{Level}
use mc_mjlab.Watchdog.Runner.{
  Response, Effect, wrote_status, wrote_heartbeat, wrote_response, saved, synced,
}
use mc_mjlab.Watchdog.Monitor.{Request}

-- the texts of `LEVELS`
abbrev pub level_text : Level → String
level_text Level.ok = "ok"
level_text Level.warn = "warn"
level_text Level.preserve = "preserve"
level_text Level.stop = "stop"

module _ {W : Type 0} where
  -- `pending_request`, with the reasons, the time and the monitor's process
  abbrev pub request_document : Request → List String → W → ℤ → Json W
  request_document q reasons now pid = obj (
      field "schema_version" (int (pos 1)) (
        field "request_id" (str q.request_id) (
          field "action" (str (level_text q.action)) (
            field "reason" (arr (of_list (map str reasons)))
              (field "created_unix" (real now) (field "watchdog_pid" (int pid) end))))))

  -- what response.json holds after an effect
  abbrev pub replace_response : Effect W → Option Response → Option Response
  replace_response (wrote_response x) o = some x
  replace_response (wrote_status s) o = o
  replace_response (wrote_heartbeat h) o = o
  replace_response (saved p i) o = o
  replace_response (synced p) o = o

  -- what it holds after them all, from what it held
  abbrev pub response_after : List (Effect W) → Option Response → Option Response
  response_after [] o = o
  response_after (e ∷ es) o = response_after es (replace_response e o)
