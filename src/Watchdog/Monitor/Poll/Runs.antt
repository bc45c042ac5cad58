-- ===== src/Watchdog/Monitor/Poll/Runs.antt =====
-- Every turn of the monitor's loop, and so every run of it, follows the protocol.
use mc_mjlab.Prelude.{
  ℕ, Bool, true, not, Option, List, [], ◌∷◌, ◌==◌, ◌≡◌, refl, ap, if-rule, ok, >>=-eq-ok,
  ok-injective, ensure, eq_ℤ, value_error, runtime_error,
}
use mc_mjlab.Float.{Float}
use mc_mjlab.Watchdog.Health.{Level}
use mc_mjlab.Watchdog.Monitor.{
  terminal, Runtime, Args, Sensed, Monitor, Outcome, watching, finished, response_for,
  terminal_verdict,
}
use mc_mjlab.Watchdog.Monitor.Poll.{Texts, sense, poll, watch}
use mc_mjlab.Watchdog.Monitor.Poll.{attach, attached, proceed, validate_thresholds, found_or_raise}
use mc_mjlab.Watchdog.Monitor.Poll.Protocol.{
  opening, keep_if, IsFollowing, IsAccepted, follow-log, take_response-IsFollowing,
}
use mc_mjlab.Watchdog.Monitor.Poll.Steps.{act-IsFollowing}

module _ {W : Type 0} where
  attached-IsFollowing :
      (maximum : Level) (token : Option ℕ) → IsFollowing {W = W} maximum (attached token)
  attached-IsFollowing maximum token = record {
    point = opening;
    stands = refl;
    same_waiting = refl;
    same_stopped = refl;
    earned = λ e. cc e;
    running = refl;
  }

module _ {W : Type 0} ⦃f : Float W⦄ where
  sense-IsFollowing :
      (args : Args W) (s : Sensed W) (m : Monitor W)
      → IsFollowing args.max_level m
      → IsFollowing args.max_level (sense args s m)
  unfolding sense
  sense-IsFollowing args s m h = record {
    point = h.point;
    stands = h.stands;
    same_waiting = h.same_waiting;
    same_stopped = h.same_stopped;
    earned = h.earned;
    running = h.running;
  }

  -- a poll's result: it ends, or the next one may follow
  record Polled (maximum : Level) (t : Outcome × Monitor W) : Type 0 where
    fine : IsAccepted maximum t.1
    next : t.0 ≡ watching → IsFollowing maximum t.1

  IsAccepted-now : (maximum : Level) (m : Monitor W) → IsFollowing maximum m → IsAccepted maximum m
  IsAccepted-now maximum m h = record { last_point = h.point; accepted = h.stands }

  poll-Polled :
      (texts : Texts W) (args : Args W) (r : Runtime W) (s : Sensed W) (m : Monitor W)
      → IsFollowing args.max_level m
      → Polled args.max_level (poll texts args r s m)
  unfolding poll
  poll-Polled texts args r s m h =
      if-rule (Polled args.max_level) (not s.alive)
        (λ _.
          let (verdict, message, code) = terminal_verdict s.status in
          record {
            fine = record {
              last_point = record h.point { over = true };
              accepted =
                  follow-log args.max_level (terminal verdict message) m h.stands
                    (ap (λ (c : Bool). keep_if (not c) (record h.point { over = true })) h.running);
            };
            next = λ e. cc e;
          })
        (λ _.
          let seen = sense args s m in
          let taken =
            take_response-IsFollowing args.max_level seen.pending_request
              (response_for s.response seen.pending_request) seen refl
              (sense-IsFollowing args s m h) in
          let done = act-IsFollowing args.max_level _ _ s.fresh_id _ taken in
          record { fine = IsAccepted-now args.max_level _ done; next = λ e. done })

  proceed-IsAccepted :
      (maximum : Level) (o : Outcome) (m : Monitor W) (later : Outcome × Monitor W)
      → Polled maximum (o, m)
      → (IsFollowing maximum m → IsAccepted maximum later.1)
      → IsAccepted maximum (proceed o m later).1
  unfolding proceed
  proceed-IsAccepted maximum watching m later p h = h (p.next refl)
  proceed-IsAccepted maximum (finished v code) m later p h = p.fine

  watch_from :
      (texts : Texts W) (args : Args W) (r : Runtime W) (ss : List (Sensed W)) (m : Monitor W)
      → IsFollowing args.max_level m
      → IsAccepted args.max_level (watch texts args r ss m).1
  unfolding watch
  watch_from texts args r [] m h = IsAccepted-now args.max_level m h
  watch_from texts args r (s ∷ ss) m h =
      let t = poll texts args r s m in
      proceed-IsAccepted args.max_level t.0 t.1 (watch texts args r ss t.1)
        (poll-Polled texts args r s m h) (watch_from texts args r ss t.1)

  -- In every run of a monitor that attached, whatever it reads at each turn, the automaton accepts
  -- the logged events and written requests: at most one request is out, only it is answered, a stop
  -- is asked only after an acknowledged preserve, nothing above the allowed maximum or after an
  -- acknowledged stop, and nothing follows the trainer's end.
  pub watch-IsAccepted :
      (texts : Texts W) (args : Args W) (r : Option (Runtime W)) (live : Bool) (token : Option ℕ)
      (runtime : Runtime W) (ss : List (Sensed W)) {m : Monitor W}
      → attach args r live token ≡ ok m
      → IsAccepted args.max_level (watch texts args runtime ss m).1
  unfolding attach
  watch-IsAccepted texts args r live token runtime ss h =
      let (_, _, h1) = >>=-eq-ok (validate_thresholds args.thresholds) _ h in
      let (_, _, h2) = >>=-eq-ok (ensure (not (f.le args.poll_s (f.of_ℕ 0))) value_error) _ h1 in
      let (_, _, h3) =
        >>=-eq-ok (ensure (not (args.qualification_baseline_samples == 0)) value_error) _ h2 in
      let (found, _, h4) = >>=-eq-ok (found_or_raise r) _ h3 in
      let (_, _, h5) = >>=-eq-ok (ensure (eq_ℤ found.pid args.wanted_pid) runtime_error) _ h4 in
      let (_, _, h6) = >>=-eq-ok (ensure live runtime_error) _ h5 in
      let (_, _, made) = >>=-eq-ok (ensure found.cooperative_stop_supported runtime_error) _ h6 in
      rw (← ok-injective made) (watch_from texts args runtime ss _ (attached-IsFollowing _ _))
