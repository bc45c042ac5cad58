-- ===== src/Watchdog/Runner/Requests/Answered.antt =====
-- The response that an iteration leaves to a request of the monitor, and how the iteration ends.
use mc_mjlab.Prelude.{
  ℕ, String, Bool, true, false, Option, none, some, List, ◌==◌, ℤ, if◌then◌else◌, str_eq, ◌≡◌, refl,
  ap, ◌∙◌,
}
use mc_mjlab.Json.{Host, str, to_str}
use mc_mjlab.Watchdog.Health.{Level, rank}
use mc_mjlab.Watchdog.Runner.{
  plain, running, Response, refused, acknowledged, wrote_heartbeat, wrote_response, saved, synced,
  Runner, Ending, returned, watchdog_stop, save_failed, checkpoint_saved, emit,
}
use mc_mjlab.Watchdog.Runner.Requests.{
  Rollout, read_json, finish_request, serve, answer, take_request, service_result, service_request,
  is_known, action_is, beat, is_last, checkpoint_path, publish_beat, complete_iteration,
}
use mc_mjlab.Watchdog.Runner.Requests.Found.{
  found, response_after-emit, found-write_status, IsLike, IsLike-write_status,
}
use mc_mjlab.Watchdog.Monitor.{Request, is_request}
use mc_mjlab.Watchdog.Handshake.{level_text, request_document}

-- a stop ends the training, a preserve does not
abbrev pub ending_of : Bool → Ending
ending_of true = watchdog_stop
ending_of false = returned

is_known-level_text :
    (W : Type 0) (a : Level) → is_known {W = W} (str (level_text a)) ≡ is_request a
is_known-level_text W Level.ok = refl
is_known-level_text W Level.warn = refl
is_known-level_text W Level.preserve = refl
is_known-level_text W Level.stop = refl

stops-level_text :
    (W : Type 0) (a : Level) → action_is {W = W} "stop" (str (level_text a)) ≡ (rank a == 3)
stops-level_text W Level.ok = refl
stops-level_text W Level.warn = refl
stops-level_text W Level.preserve = refl
stops-level_text W Level.stop = refl

-- the action's text in an acknowledgement
named-level_text :
    (a : Level) → is_request a ≡ true → (if rank a == 3 then "stop" else "preserve") ≡ level_text a
named-level_text Level.ok h = cc h
named-level_text Level.warn h = cc h
named-level_text Level.preserve h = refl
named-level_text Level.stop h = refl

module _ {W : Type 0} where
  IsLike-publish_beat : (o : Rollout W) (now : W) (r : Runner W) → IsLike r (publish_beat o now r)
  unfolding publish_beat
  IsLike-publish_beat o now r =
      let b = beat o now r in
      IsLike-write_status (record (plain running) { status_iteration = some o.rollout_iteration }) r
        (emit (wrote_heartbeat b)
          (record r { termination_totals = b.terminations_total; heartbeat = some b }))
        (record {
          same_response = response_after-emit (wrote_heartbeat b) r.effects none;
          same_distributed = refl;
          same_root = refl;
          same_last = refl;
        })

  -- how serving a request ends, and the response that it leaves
  record Answers (e : Ending) (o : Option Response) (t : Ending × Runner W) : Type 0 where
    ends : t.0 ≡ e
    leaves : found t.1 ≡ o

  Answers-if :
      (b : Bool) {e f : Ending} {o p : Option Response} {t u : Ending × Runner W}
      → Answers e o t
      → Answers f p u
      → Answers (if b then e else f) (if b then o else p) (if b then t else u)
  Answers-if true x y = x
  Answers-if false x y = y

  Answers-then :
      (b : Bool) {e : Ending} {o : Option Response} {t : Ending × Runner W} (u : Ending × Runner W)
      → b ≡ true
      → Answers e o t
      → Answers e o (if b then t else u)
  Answers-then true u h x = x
  Answers-then false u h x = cc h

  Answers-finish_request :
      (stopping : Bool) (id : String) (i : ℕ) (p : String) (r : Runner W) {o : Option Response}
      → found r ≡ o
      → Answers (ending_of stopping) o (finish_request stopping id i p r)
  unfolding finish_request
  Answers-finish_request false id i p r h = record { ends = refl; leaves = h }
  Answers-finish_request true id i p r h = record {
    ends = refl;
    leaves = found-write_status _ r ∙ h;
  }

module _ {W : Type 0} (host : Host W) (save_ok : String → Bool) where
  Answers-serve :
      (stopping : Bool) (action id : String) (i : ℕ) (now : W) (r : Runner W)
      → let path = checkpoint_path host save_ok r i in
        Answers
          (if save_ok path then ending_of stopping else save_failed)
          (if save_ok path then some (acknowledged id action i (host.resolve path)) else found r)
          (serve host save_ok stopping action id i now r)
  unfolding serve
  Answers-serve stopping action id i now r =
      let path = checkpoint_path host save_ok r i in
      let p = host.resolve path in
      let r1 = emit (synced p) (checkpoint_saved p now (emit (saved p i) r)) in
      let x = acknowledged id action i p in
      Answers-if (save_ok path)
        (Answers-finish_request stopping id i p (emit (wrote_response x) r1)
          (response_after-emit (wrote_response x) r1.effects none))
        (record { ends = refl; leaves = refl })

  -- the ending and the response of a request that asks for the action
  abbrev pub reply_ending : Level → ℕ → Runner W → Ending
  reply_ending a i r =
      if r.distributed
      then returned
      else if save_ok (checkpoint_path host save_ok r i)
      then ending_of (rank a == 3)
      else save_failed

  abbrev pub reply : Request → ℕ → Runner W → Option Response
  reply q i r =
      let path = checkpoint_path host save_ok r i in
      if r.distributed
      then some (refused q.request_id)
      else if save_ok path
      then some (acknowledged q.request_id (level_text q.action) i (host.resolve path))
      else found r

  Answers-answer :
      (q : Request) (i : ℕ) (now : W) (r : Runner W)
      → is_request q.action ≡ true
      → Answers
          (reply_ending q.action i r)
          (reply q i r)
          (answer host save_ok q.request_id (str (level_text q.action)) i now r)
  unfolding answer
  Answers-answer q i now r h =
      rw (is_known-level_text W q.action, h, stops-level_text W q.action)
        (Answers-if r.distributed
          (record {
            ends = refl;
            leaves = response_after-emit (wrote_response (refused q.request_id)) r.effects none;
          })
          (rw (named-level_text q.action h)
            (Answers-serve (rank q.action == 3) (level_text q.action) q.request_id i now r)))

  -- a request that the trainer has not served, in a file that parses to it
  pub record IsNew (q : Request) (text : String) (r : Runner W) : Type 0 where
    pub asks : is_request q.action ≡ true
    pub named : str_eq q.request_id "" ≡ false
    pub not_served : is_last r.last_request_id q.request_id ≡ false
    pub reasons : List String
    pub asked_at : W
    pub asked_by : ℤ
    pub parses : host.loads text ≡ some (request_document q reasons asked_at asked_by)

  Answers-service_request :
      (q : Request) (text : String) (i : ℕ) (now : W) (r : Runner W)
      → IsNew q text r
      → Answers
          (reply_ending q.action i r)
          (reply q i r)
          (service_request host save_ok (some text) i now r)
  unfolding service_request read_json service_result take_request to_str
  Answers-service_request q text i now r h =
      rw (h.parses, h.named, h.not_served)
        (Answers-answer q i now (record r { last_request_id = some q.request_id }) h.asks)

  -- what an iteration's own heartbeat and status leave alone is what the reply depends on
  reply-IsLike :
      (q : Request) (i : ℕ) (r t : Runner W)
      → IsLike r t
      → (reply_ending q.action i t ≡ reply_ending q.action i r) × (reply q i t ≡ reply q i r)
  reply-IsLike q i r t h = rw (h.same_distributed, h.same_root, h.same_response) (refl, refl)

  -- An iteration of a trainer that publishes, which finds a new request, ends as the request asks
  -- and leaves its reply.
  pub complete_iteration-reply :
      (q : Request) (text : String) (o : Rollout W) (now : W) (r : Runner W)
      → r.enabled ≡ true
      → IsNew q text r
      → let t = complete_iteration host save_ok o (some text) now r in
        (t.0 ≡ reply_ending q.action o.rollout_iteration r)
        × (found t.1 ≡ reply q o.rollout_iteration r)
  unfolding complete_iteration
  complete_iteration-reply q text o now r on h =
      let r1 = publish_beat o now r in
      let like = IsLike-publish_beat o now r in
      let same = reply-IsLike q o.rollout_iteration r r1 like in
      let a = Answers-service_request q text o.rollout_iteration now r1 (record {
        asks = h.asks;
        named = h.named;
        not_served =
            ap (λ (l : Option String). is_last l q.request_id) like.same_last ∙ h.not_served;
        reasons = h.reasons;
        asked_at = h.asked_at;
        asked_by = h.asked_by;
        parses = h.parses;
      }) in
      let t = Answers-then r.enabled (returned, r) on a in (t.ends ∙ same.0, t.leaves ∙ same.1)
