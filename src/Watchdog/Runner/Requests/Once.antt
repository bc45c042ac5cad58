-- ===== src/Watchdog/Runner/Requests/Once.antt =====
-- A request that stays in its file is served once.
use mc_mjlab.Prelude.{
  ℕ, String, Bool, true, false, not, ◌||◌, Option, none, some, str_eq, ok, ◌≡◌, refl, ◌∙◌, arith,
  eq_iff, if-rule,
}
use mc_mjlab.Json.{Host, Json, Fields, str, find_or, to_str}
use mc_mjlab.Watchdog.Runner.{
  Status, Runner, Ending, returned, write_status, checkpoint_saved, stamp, emit_beat, Heartbeat,
}
use mc_mjlab.Watchdog.Runner.Requests.{
  read_json, finish_request, serve, answer, take_request, service_result, service_request, is_known,
  is_last, checkpoint_path,
}

module _ {W : Type 0} where
  -- a call's result in which `id` is the last request
  record Taken (id : String) (t : Ending × Runner W) : Type 0 where
    last : t.1.last_request_id ≡ some id

  last-write_status :
      (s : Status) (r : Runner W) → (write_status s r).last_request_id ≡ r.last_request_id
  unfolding write_status
  last-write_status s r = ground arith

  last-emit_beat :
      (o : Option (Heartbeat W)) (r : Runner W)
      → (emit_beat o r).last_request_id ≡ r.last_request_id
  last-emit_beat none r = refl
  last-emit_beat (some b) r = refl

  last-checkpoint_saved :
      (path : String) (now : W) (r : Runner W)
      → (checkpoint_saved path now r).last_request_id ≡ r.last_request_id
  unfolding checkpoint_saved
  last-checkpoint_saved path now r =
      if-rule (λ (t : Runner W). t.last_request_id ≡ r.last_request_id) r.enabled
        (λ _.
          last-emit_beat (stamp path now r.heartbeat)
            (record r { last_checkpoint = some path; heartbeat = stamp path now r.heartbeat }))
        (λ _. refl)

  Taken-finish_request :
      (stopping : Bool) (id other : String) (i : ℕ) (p : String) (r : Runner W)
      → r.last_request_id ≡ some other
      → Taken other (finish_request stopping id i p r)
  unfolding finish_request
  Taken-finish_request false id other i p r h = record { last = h }
  Taken-finish_request true id other i p r h = record { last = last-write_status _ r ∙ h }

module _ {W : Type 0} (host : Host W) (save_ok : String → Bool) where
  Taken-serve :
      (stopping : Bool) (action id other : String) (i : ℕ) (now : W) (r : Runner W)
      → r.last_request_id ≡ some other
      → Taken other (serve host save_ok stopping action id i now r)
  unfolding serve
  Taken-serve stopping action id other i now r h =
      if-rule (Taken other) (save_ok (checkpoint_path host save_ok r i))
        (λ _. Taken-finish_request stopping id other i _ _ (last-checkpoint_saved _ now _ ∙ h))
        (λ _. record { last = h })

  Taken-answer :
      (id other : String) (action : Json W) (i : ℕ) (now : W) (r : Runner W)
      → r.last_request_id ≡ some other
      → Taken other (answer host save_ok id action i now r)
  unfolding answer
  Taken-answer id other action i now r h =
      if-rule (Taken other) (not (is_known action)) (λ _. record { last = h })
        (λ _.
          if-rule (Taken other) r.distributed (λ _. record { last = h })
            (λ _. Taken-serve _ _ id other i now r h))

  -- a call's result that the same request leaves as it is
  record Idle (request : Fields W) (t : Ending × Runner W) : Type 0 where
    idle : (i : ℕ) (now : W) → take_request host save_ok request i now t.1 ≡ (returned, t.1)

  Idle-take_request :
      (request : Fields W) (i : ℕ) (now : W) (r : Runner W)
      → Idle request (take_request host save_ok request i now r)
  unfolding take_request
  Idle-take_request request i now r =
      let id = to_str host (find_or request "request_id" (str "")) in
      if-rule (Idle request) (str_eq id "" || is_last r.last_request_id id)
        (λ skip. record { idle = λ j later. rw skip })
        (λ _.
          let t =
            Taken-answer id id (find_or request "action" Json.null) i now
              (record r { last_request_id = some id }) refl in
          record { idle = λ j later. ground (arith, t.last, eq_iff id id) })

  -- A request file that holds no request or a readable one is served once: reading the same file
  -- again, at any later iteration, changes nothing and returns.
  pub service_request_once :
      (file : Option String) (v : Option (Fields W)) (i j : ℕ) (now later : W) (r : Runner W)
      → read_json host save_ok file ≡ ok v
      → let after = (service_request host save_ok file i now r).1 in
        service_request host save_ok file j later after ≡ (returned, after)
  unfolding service_request service_result
  service_request_once file none i j now later r h = rw h refl
  service_request_once file (some request) i j now later r h =
      rw h ((Idle-take_request request i now r).idle j later)
