-- ===== src/Watchdog/Runner/Requests/Found.antt =====
-- What response.json holds after a run's effects.
use mc_mjlab.Prelude.{String, Option, none, some, List, [], ◌∷◌, ◌++◌, ◌≡◌, refl, ◌∙◌, if-rule}
use mc_mjlab.Watchdog.Runner.{
  Status, Heartbeat, Response, Effect, wrote_status, wrote_heartbeat, Runner, write_status,
  checkpoint_saved, stamp, emit_beat,
}
use mc_mjlab.Watchdog.Handshake.{replace_response, response_after}

module _ {W : Type 0} where
  -- response.json after a run's effects, from none
  abbrev pub found : Runner W → Option Response
  found r = response_after r.effects none

  pub response_after-emit :
      (e : Effect W) (es : List (Effect W)) (o : Option Response)
      → response_after (es ++ e ∷ []) o ≡ replace_response e (response_after es o)
  response_after-emit e [] o = refl
  response_after-emit e (x ∷ es) o = response_after-emit e es (replace_response x o)

  pub found-write_status : (s : Status) (r : Runner W) → found (write_status s r) ≡ found r
  unfolding write_status
  found-write_status s r =
      if-rule (λ (t : Runner W). found t ≡ found r) r.enabled
        (λ _. response_after-emit (wrote_status s) r.effects none) (λ _. refl)

  found-emit_beat : (o : Option (Heartbeat W)) (r : Runner W) → found (emit_beat o r) ≡ found r
  found-emit_beat none r = refl
  found-emit_beat (some b) r = response_after-emit (wrote_heartbeat b) r.effects none

  -- What the watchdog's part of an iteration leaves alone before it reads the request.
  pub record IsLike (r t : Runner W) : Type 0 where
    pub same_response : found t ≡ found r
    pub same_distributed : t.distributed ≡ r.distributed
    pub same_root : t.root ≡ r.root
    pub same_last : t.last_request_id ≡ r.last_request_id

  pub IsLike-write_status : (s : Status) (r t : Runner W) → IsLike r t → IsLike r (write_status s t)
  unfolding write_status
  IsLike-write_status s r t h =
      if-rule (IsLike r) t.enabled
        (λ _. record {
          same_response = response_after-emit (wrote_status s) t.effects none ∙ h.same_response;
          same_distributed = h.same_distributed;
          same_root = h.same_root;
          same_last = h.same_last;
        })
        (λ _. h)

  pub found-checkpoint_saved :
      (path : String) (now : W) (r : Runner W) → found (checkpoint_saved path now r) ≡ found r
  unfolding checkpoint_saved
  found-checkpoint_saved path now r =
      if-rule (λ (t : Runner W). found t ≡ found r) r.enabled
        (λ _.
          found-emit_beat (stamp path now r.heartbeat)
            (record r { last_checkpoint = some path; heartbeat = stamp path now r.heartbeat }))
        (λ _. refl)
