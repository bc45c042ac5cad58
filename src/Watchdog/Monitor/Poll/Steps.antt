-- ===== src/Watchdog/Monitor/Poll/Steps.antt =====
-- What follows a decision keeps to the protocol.
use mc_mjlab.Prelude.{
  ◌≤◌, String, Bool, true, false, not, ◌&&◌, ◌||◌, Option, none, some, List, leb, if◌then◌else◌,
  ◌≡◌, refl, ap, arith, if-rule, ltb,
}
use mc_mjlab.Watchdog.Health.{Level, rank, intervention_for}
use mc_mjlab.Watchdog.Monitor.{
  Request, requested, health_degraded, Monitor, is_some, is_request, request_if, degrade,
  same_signature, act,
}
use mc_mjlab.Watchdog.Monitor.Poll.Protocol.{keep_if, IsFollowing, follow-log}

module _ {W : Type 0} where
  may_degrade :
      (m : Monitor W) (level maximum : Level) (f : IsFollowing maximum m)
      → (ltb 0 (rank level) && not m.stop_acknowledged && not (is_some m.pending_request)) ≡ true
      → (not f.point.over
          && not (is_some f.point.waiting)
          && not f.point.stopped
          && ltb 0 (rank level))
        ≡ true
  may_degrade m level maximum f h = rw (f.running, f.same_waiting, f.same_stopped) (ground arith)

  degrade-IsFollowing :
      (maximum level : Level) (reasons : List String) (action : Option Level) (m : Monitor W)
      → IsFollowing maximum m
      → IsFollowing maximum (degrade level reasons action m)
  unfolding degrade
  degrade-IsFollowing maximum level reasons action m f =
      if-rule
        (λ (t : Monitor W).
          IsFollowing maximum (record t { last_event_signature = some (level, reasons, action) }))
        (not (same_signature m.last_event_signature (level, reasons, action))
          && ltb 0 (rank level)
          && not m.stop_acknowledged
          && not (is_some m.pending_request))
        (λ h. record {
          point = f.point;
          stands =
              follow-log maximum (health_degraded level reasons action) m f.stands (
                ap (λ (c : Bool). keep_if c f.point)
                  (may_degrade m level maximum f (ground arith)));
          same_waiting = f.same_waiting;
          same_stopped = f.same_stopped;
          earned = f.earned;
          running = f.running;
        })
        (λ h. record {
          point = f.point;
          stands = f.stands;
          same_waiting = f.same_waiting;
          same_stopped = f.same_stopped;
          earned = f.earned;
          running = f.running;
        })

  -- what an asked action needs
  record IsAllowed (maximum : Level) (m : Monitor W) (a : Level) : Type 0 where
    within : rank a ≤ rank maximum
    free : m.pending_request ≡ none
    going : m.stop_acknowledged ≡ false
    after : a ≡ Level.stop → m.preserve_acknowledged ≡ true

  may_request :
      (maximum : Level) (a : Level) (m : Monitor W) (f : IsFollowing maximum m)
      → IsAllowed maximum m a
      → is_request a ≡ true
      → (not f.point.over
          && not (is_some f.point.waiting)
          && not f.point.stopped
          && is_request a
          && leb (rank a) (rank maximum)
          && (f.point.preserved || ltb (rank a) 3))
        ≡ true
  may_request maximum a m f h r =
      rw (f.running, f.same_waiting, f.same_stopped, h.free, h.going, r)
        (ground (arith, h.within, h.after, f.earned))

  request_if-IsFollowing :
      (maximum : Level) (action : Option Level) (id : String) (m : Monitor W)
      → ((a : Level) → action ≡ some a → IsAllowed maximum m a)
      → IsFollowing maximum m
      → IsFollowing maximum (request_if action id m)
  unfolding request_if
  request_if-IsFollowing maximum none id m h f = f
  request_if-IsFollowing maximum (some action) id m h f =
      let q : Request = record { request_id = id; action = action } in
      if-rule (IsFollowing maximum) (is_request action)
        (λ r. record {
          point = record f.point { waiting = some q };
          stands = follow-log maximum (requested q) m f.stands (
              ap (λ (c : Bool). keep_if c (record f.point { waiting = some q }))
                (may_request maximum action m f (h action refl) r));
          same_waiting = refl;
          same_stopped = f.same_stopped;
          earned = f.earned;
          running = f.running;
        })
        (λ r. f)

  degrade_keeps :
      (level : Level) (reasons : List String) (action : Option Level) (m : Monitor W)
      → let t = degrade level reasons action m in
        (t.pending_request ≡ m.pending_request)
        × (t.stop_acknowledged ≡ m.stop_acknowledged)
        × (t.preserve_acknowledged ≡ m.preserve_acknowledged)
  unfolding degrade
  degrade_keeps level reasons action m = ground arith

  abbrev acted : Level → Level → Monitor W → Option Level
  acted maximum level m =
      if m.stop_acknowledged
      then none
      else intervention_for level maximum m.preserve_acknowledged (is_some m.pending_request)

  abbrev calmed : Level → Monitor W → Monitor W
  calmed level m = record m {
    preserve_acknowledged = if leb (rank level) 1 then false else m.preserve_acknowledged;
  }

  acted-IsAllowed :
      (maximum level a : Level) (m t : Monitor W)
      → (t.pending_request ≡ m.pending_request)
        × (t.stop_acknowledged ≡ m.stop_acknowledged)
        × (t.preserve_acknowledged ≡ (calmed level m).preserve_acknowledged)
      → acted maximum level m ≡ some a
      → IsAllowed maximum t a
  unfolding intervention_for
  acted-IsAllowed maximum level a m t h e = record {
    within = ground arith;
    free = ground arith;
    going = ground arith;
    after = λ s. ground arith;
  }

  calmed-IsFollowing :
      (maximum level : Level) (m : Monitor W)
      → IsFollowing maximum m
      → IsFollowing maximum (calmed level m)
  calmed-IsFollowing maximum level m f = record {
    point = f.point;
    stands = f.stands;
    same_waiting = f.same_waiting;
    same_stopped = f.same_stopped;
    earned = λ h. f.earned (ground arith);
    running = f.running;
  }

  pub act-IsFollowing :
      (maximum level : Level) (reasons : List String) (id : String) (m : Monitor W)
      → IsFollowing maximum m
      → IsFollowing maximum (act maximum level reasons id m)
  unfolding act
  act-IsFollowing maximum level reasons id m f =
      let action = acted maximum level m in
      request_if-IsFollowing maximum action id (degrade level reasons action (calmed level m))
        (λ a e.
          acted-IsAllowed maximum level a m (degrade level reasons action (calmed level m))
            (degrade_keeps level reasons action (calmed level m)) e)
        (degrade-IsFollowing maximum level reasons action (calmed level m)
          (calmed-IsFollowing maximum level m f))
