-- ===== src/Watchdog/Runner.antt =====
-- `RunnerWatchdogBridge` (tasks/residual_balance/training_watchdog.py): the trainer publishes its
-- health and serves requests. What it writes is a list of effects, in order.
pub mod Requests
use Prim.Native.String.{◌++◌ as join_text}
use mc_mjlab.Prelude.{
  ℕ, zero, suc, ◌+◌, ◌-◌, String, Bool, true, false, not, ◌&&◌, ◌||◌, Option, none, some, List, [],
  ◌∷◌, ◌++◌, map, ltb, ◌==◌, if◌then◌else◌, length, drop, contains, ℤ, pos, str_eq, Result, Raised,
  ok, err, value_error, type_error, ◌>>=◌, ◌>>◌,
}
use mc_mjlab.Prelude.Dict
use mc_mjlab.Prelude.Dict.{Dict}
use mc_mjlab.Names.{codes, remove_prefix, has_text, lower}
use mc_mjlab.Json.{Host, Json, Fields, str, int, find, find_or, as_dict, to_str}

pub data RunState : Type 0 where
  starting running completed failed stopped_by_watchdog : RunState

-- status.json; a field that the call does not pass is absent
pub record Status : Type 0 where
  pub run_state : RunState
  pub status_iteration : Option ℕ
  pub status_checkpoint : Option String
  pub cause : Option String
  pub message : Option (List ℕ)
  pub status_request_id : Option String

abbrev plain : RunState → Status
plain s = record {
  run_state = s;
  status_iteration = none;
  status_checkpoint = none;
  cause = none;
  message = none;
  status_request_id = none;
}

pub record Heartbeat (W : Type 0) : Type 0 where
  pub updated_unix : W
  pub beat_iteration : ℕ
  pub common_step_counter : ℕ
  pub collect_time_s : W
  pub learn_time_s : W
  pub beat_checkpoint : Option String
  pub terminations_delta : Dict ℕ
  pub terminations_total : Dict ℕ
  pub diagnostics : Dict W
  pub cuda : Option (W × W × W × W)

-- response.json
pub data Response : Type 0 where
  unreadable : Raised → Response
  refused : String → Response
  acknowledged : String → String → ℕ → String → Response

pub data Effect (W : Type 0) : Type 0 where
  wrote_status : Status → Effect W
  wrote_heartbeat : Heartbeat W → Effect W
  wrote_response : Response → Effect W
  saved : String → ℕ → Effect W
  synced : String → Effect W

pub record Runner (W : Type 0) : Type 0 where
  pub enabled : Bool
  pub distributed : Bool
  pub root : String
  pub last_request_id : Option String
  pub last_checkpoint : Option String
  pub termination_totals : Dict ℕ
  pub heartbeat : Option (Heartbeat W)
  pub effects : List (Effect W)

-- How a call ends: it returns, it raises WatchdogStop, or writing the checkpoint raises.
pub data Ending : Type 0 where
  returned watchdog_stop save_failed : Ending

-- a logged value: a tensor, which is summed, or a number
pub data Extra : Type 0 where
  tensor : List ℕ → Extra
  number : ℕ → Extra

abbrev sum : List ℕ → ℕ
sum [] = 0
sum (n ∷ ns) = n + sum ns

abbrev pub count_of : Extra → ℕ
count_of (tensor ns) = sum ns
count_of (number n) = n

abbrev get_or_zero : Dict ℕ → String → ℕ
get_or_zero d k = elim (Dict.get d k) [ none ↦ 0 | some n ↦ n ]

-- output[name] = output.get(name, 0) + count
abbrev pub bump : Dict ℕ → String → ℕ → Dict ℕ
bump d k n = Dict.put d k (get_or_zero d k + n)

abbrev termination_prefix : List ℕ
termination_prefix = codes "Episode_Termination/"

bump_named : Dict ℕ → Option String → ℕ → Dict ℕ
unfolding Dict.put Dict.get
bump_named d none n = d
bump_named d (some k) n = bump d k n

delta_values : Dict ℕ → List (String × Extra) → Dict ℕ
unfolding bump_named
delta_values out [] = out
delta_values out ((name, v) ∷ rest) =
    delta_values (bump_named out (remove_prefix termination_prefix name) (count_of v)) rest

delta_from : Dict ℕ → List (List (String × Extra)) → Dict ℕ
unfolding delta_values
delta_from out [] = out
delta_from out (values ∷ rest) = delta_from (delta_values out values) rest

unfoldable pub termination_delta : List (List (String × Extra)) → Dict ℕ
unfolding delta_from
termination_delta extras = delta_from [] extras

-- self._termination_totals, one name after another
add_totals : Dict ℕ → Dict ℕ → Dict ℕ
unfolding Dict.put Dict.get
add_totals totals [] = totals
add_totals totals ((k, n) ∷ rest) = add_totals (bump totals k n) rest

-- message[-2000:]
abbrev last_characters : List ℕ → List ℕ
last_characters m = drop (length m - 2000) m

module _ {W : Type 0} where
  abbrev pub emit : Effect W → Runner W → Runner W
  emit e r = record r { effects = r.effects ++ e ∷ [] }

  unfoldable pub write_status : Status → Runner W → Runner W
  write_status s r = if r.enabled then emit (wrote_status s) r else r

  abbrev stamp : String → W → Option (Heartbeat W) → Option (Heartbeat W)
  stamp path now none = none
  stamp path now (some h) = some (record h { beat_checkpoint = some path; updated_unix = now })

  abbrev emit_beat : Option (Heartbeat W) → Runner W → Runner W
  emit_beat none r = r
  emit_beat (some h) r = emit (wrote_heartbeat h) r

  -- `checkpoint_saved`, with the resolved path
  unfoldable pub checkpoint_saved : String → W → Runner W → Runner W
  checkpoint_saved path now r =
      if r.enabled
      then (let beat = stamp path now r.heartbeat in
          emit_beat beat (record r { last_checkpoint = some path; heartbeat = beat }))
      else r

  unfoldable pub completed_run : ℕ → Runner W → Runner W
  unfolding write_status
  completed_run iteration r =
      write_status
        (record (plain completed) {
          status_iteration = some iteration;
          status_checkpoint = r.last_checkpoint;
        })
        r

  unfoldable pub failed_run : String → List ℕ → ℕ → Runner W → Runner W
  unfolding write_status has_text
  failed_run error_class message iteration r =
      write_status
        (record (plain failed) {
          status_iteration = some iteration;
          cause =
              some
                (if has_text (codes "out of memory") (lower message) then "oom" else error_class);
          message = some (last_characters message);
          status_checkpoint = r.last_checkpoint;
        })
        r
