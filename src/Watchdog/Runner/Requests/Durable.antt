-- ===== src/Watchdog/Runner/Requests/Durable.antt =====
-- What an acknowledgement promises: a checkpoint that was written and flushed.
use mc_mjlab.Prelude.{
  ℕ, String, Bool, true, false, not, ◌||◌, Option, none, some, List, [], ◌∷◌, ◌++◌, if◌then◌else◌,
  contains, str_eq, Result, ok, err, ◌≡◌, refl, ap, ◌∙◌, arith, eq_iff, if-rule,
}
use mc_mjlab.Json.{Host, Json, Fields, str, find_or, to_str}
use mc_mjlab.Watchdog.Runner.{
  RunState, Status, stopped_by_watchdog, plain, Heartbeat, unreadable, refused, acknowledged,
  Effect, wrote_status, wrote_heartbeat, wrote_response, saved, synced, Runner, Ending, returned,
  watchdog_stop, emit, write_status, checkpoint_saved, stamp, emit_beat,
}
use mc_mjlab.Watchdog.Runner.Requests.{
  Rollout, read_json, finish_request, serve, answer, take_request, service_result, publish_beat,
  is_known, action_is, is_last, beat, complete_iteration, checkpoint_path,
}

-- The checkpoints that were written, and those that were flushed.
pub record Ledger : Type 0 where
  pub written : List String
  pub flushed : List String

abbrev pub is_backed : RunState → Option String → List String → Bool
is_backed stopped_by_watchdog none flushed = false
is_backed stopped_by_watchdog (some p) flushed = contains p flushed
is_backed _ p flushed = true

abbrev nothing_yet : Option Ledger
nothing_yet = some (record { written = []; flushed = [] })

abbrev keep_if : Bool → Ledger → Option Ledger
keep_if true l = some l
keep_if false l = none

module _ {W : Type 0} where
  -- One effect: `none` when a promise is broken. Only a written checkpoint is flushed, and only a
  -- flushed one is acknowledged or named by a stop.
  abbrev pub account : Effect W → Ledger → Option Ledger
  account (saved p i) l = some (record l { written = p ∷ l.written })
  account (synced p) l = keep_if (contains p l.written) (record l { flushed = p ∷ l.flushed })
  account (wrote_response (acknowledged id a i p)) l = keep_if (contains p l.flushed) l
  account (wrote_response (unreadable x)) l = some l
  account (wrote_response (refused id)) l = some l
  account (wrote_heartbeat h) l = some l
  account (wrote_status s) l = keep_if (is_backed s.run_state s.status_checkpoint l.flushed) l

  abbrev pub account_all : List (Effect W) → Option Ledger → Option Ledger
  account_all es none = none
  account_all [] (some l) = some l
  account_all (e ∷ es) (some l) = account_all es (account e l)

  abbrev pub Stands : Runner W → Ledger → Type 0
  Stands r l = account_all r.effects nothing_yet ≡ some l

  -- Every acknowledgement and every watchdog stop of the run is backed by a flushed checkpoint.
  pub record IsBacked (r : Runner W) : Type 0 where
    pub ledger : Ledger
    pub stands : Stands r ledger

  -- the same, of a call's ending and the runner that it leaves
  record BackedEnd (t : Ending × Runner W) : Type 0 where
    held : IsBacked t.1

  ended : (e : Ending) {r : Runner W} → IsBacked r → BackedEnd (e, r)
  ended e b = record { held = b }

  backed : (r : Runner W) {l : Ledger} → Stands r l → IsBacked r
  backed r {l} h = record { ledger = l; stands = h }

  account_all-append :
      (es fs : List (Effect W)) (o : Option Ledger)
      → account_all (es ++ fs) o ≡ account_all fs (account_all es o)
  account_all-append [] fs none = refl
  account_all-append (e ∷ es) fs none = refl
  account_all-append [] fs (some l) = refl
  account_all-append (e ∷ es) fs (some l) = account_all-append es fs (account e l)

  Stands-emit :
      (r : Runner W) (e : Effect W) {l m : Ledger}
      → Stands r l
      → account e l ≡ some m
      → Stands (emit e r) m
  Stands-emit r e h k =
      account_all-append r.effects (e ∷ []) nothing_yet
      ∙ ap (account_all (e ∷ [])) h
      ∙ ap (account_all []) k

  Stands-write_status :
      (s : Status) (r : Runner W) {l : Ledger}
      → Stands r l
      → is_backed s.run_state s.status_checkpoint l.flushed ≡ true
      → Stands (write_status s r) l
  unfolding write_status
  Stands-write_status s r {l} h b =
      if-rule (λ (t : Runner W). Stands t l) r.enabled
        (λ _. Stands-emit r (wrote_status s) h (ap (λ (c : Bool). keep_if c l) b)) (λ _. h)

  Stands-emit_beat :
      (o : Option (Heartbeat W)) (r : Runner W) {l : Ledger} → Stands r l → Stands (emit_beat o r) l
  Stands-emit_beat none r h = h
  Stands-emit_beat (some b) r h = Stands-emit r (wrote_heartbeat b) h refl

  Stands-checkpoint_saved :
      (path : String) (now : W) (r : Runner W) {l : Ledger}
      → Stands r l
      → Stands (checkpoint_saved path now r) l
  unfolding checkpoint_saved
  Stands-checkpoint_saved path now r {l} h =
      if-rule (λ (t : Runner W). Stands t l) r.enabled
        (λ _.
          Stands-emit_beat (stamp path now r.heartbeat)
            (record r { last_checkpoint = some path; heartbeat = stamp path now r.heartbeat }) h)
        (λ _. h)

module _ {W : Type 0} where
  Stands-publish_beat :
      (o : Rollout W) (now : W) (r : Runner W) {l : Ledger}
      → Stands r l
      → Stands (publish_beat o now r) l
  unfolding publish_beat
  Stands-publish_beat o now r h =
      let b = beat o now r in
      let r1 : Runner W = record r {
        termination_totals = b.terminations_total;
        heartbeat = some b;
      } in
      Stands-write_status _ (emit (wrote_heartbeat b) r1)
        (Stands-emit r1 (wrote_heartbeat b) h refl) refl

contains_self : (p : String) (ps : List String) → contains p (p ∷ ps) ≡ true
contains_self p ps = ground (arith, eq_iff p p)

module _ {W : Type 0} (host : Host W) (save_ok : String → Bool) where
  IsBacked-finish_request :
      (stopping : Bool) (id : String) (i : ℕ) (p : String) (r : Runner W) (l : Ledger)
      → Stands r l
      → contains p l.flushed ≡ true
      → BackedEnd (finish_request stopping id i p r)
  unfolding finish_request
  IsBacked-finish_request false id i p r l h c = ended returned (backed r h)
  IsBacked-finish_request true id i p r l h c =
      let s : Status = record (plain stopped_by_watchdog) {
        status_iteration = some i;
        status_checkpoint = some p;
        status_request_id = some id;
      } in
      ended watchdog_stop (backed (write_status s r) (Stands-write_status s r h c))

  IsBacked-serve :
      (stopping : Bool) (action id : String) (i : ℕ) (now : W) (r : Runner W)
      → IsBacked r
      → BackedEnd (serve host save_ok stopping action id i now r)
  unfolding serve
  IsBacked-serve stopping action id i now r b =
      let l = b.ledger in
      let h = b.stands in
      if-rule BackedEnd (save_ok (checkpoint_path host save_ok r i))
        (λ _.
          let p = host.resolve (checkpoint_path host save_ok r i) in
          let w : Ledger = record l { written = p ∷ l.written } in
          let f : Ledger = record w { flushed = p ∷ l.flushed } in
          let r1 : Runner W = emit (saved p i) r in
          let r2 : Runner W = checkpoint_saved p now r1 in
          let r3 : Runner W = emit (synced p) r2 in
          let h1 : Stands r1 w = Stands-emit r (saved p i) h refl in
          let h2 : Stands r2 w = Stands-checkpoint_saved p now r1 h1 in
          let h3 : Stands r3 f =
            Stands-emit r2 (synced p) h2
              (ap (λ (c : Bool). keep_if c f) (contains_self p l.written)) in
          let mine = contains_self p l.flushed in
          IsBacked-finish_request stopping id i p
            (emit (wrote_response (acknowledged id action i p)) r3) f
            (Stands-emit r3 (wrote_response (acknowledged id action i p)) h3
              (ap (λ (c : Bool). keep_if c f) mine))
            mine)
        (λ _. ended _ b)

  IsBacked-answer :
      (id : String) (action : Json W) (i : ℕ) (now : W) (r : Runner W)
      → IsBacked r
      → BackedEnd (answer host save_ok id action i now r)
  unfolding answer
  IsBacked-answer id action i now r b =
      let no = ended returned (
        backed (emit (wrote_response (refused id)) r)
          (Stands-emit r (wrote_response (refused id)) b.stands refl)) in
      if-rule BackedEnd (not (is_known action)) (λ _. no)
        (λ _.
          if-rule BackedEnd r.distributed (λ _. no)
            (λ _.
              IsBacked-serve (action_is "stop" action)
                (if action_is "stop" action then "stop" else "preserve") id i now r b))

  IsBacked-service_result :
      (v : Result (Option (Fields W))) (i : ℕ) (now : W) (r : Runner W)
      → IsBacked r
      → BackedEnd (service_result host save_ok v i now r)
  unfolding service_result take_request
  IsBacked-service_result (err x) i now r b = ended returned (
      backed (emit (wrote_response (unreadable x)) r)
        (Stands-emit r (wrote_response (unreadable x)) b.stands refl))
  IsBacked-service_result (ok none) i now r b = ended returned b
  IsBacked-service_result (ok (some request)) i now r b =
      let id = to_str host (find_or request "request_id" (str "")) in
      if-rule BackedEnd (str_eq id "" || is_last r.last_request_id id) (λ _. ended _ b)
        (λ _.
          IsBacked-answer id (find_or request "action" Json.null) i now
            (record r { last_request_id = some id })
            (record { ledger = b.ledger; stands = b.stands }))

  -- From a runner whose effects are backed, so are those after an iteration: reading its effects in
  -- order, every checkpoint that it acknowledges, or names when it stops for the watchdog, was
  -- saved and flushed before.
  pub complete_iteration-IsBacked :
      (o : Rollout W) (file : Option String) (now : W) (r : Runner W)
      → IsBacked r
      → IsBacked (complete_iteration host save_ok o file now r).1
  unfolding complete_iteration
  complete_iteration-IsBacked o file now r b =
      (if-rule BackedEnd r.enabled
        (λ _.
          IsBacked-service_result (read_json host save_ok file) o.rollout_iteration now
            (publish_beat o now r)
            (backed (publish_beat o now r) (Stands-publish_beat o now r b.stands)))
        (λ _. ended returned b)).held
