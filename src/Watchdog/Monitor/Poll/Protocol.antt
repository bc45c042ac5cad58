-- ===== src/Watchdog/Monitor/Poll/Protocol.antt =====
-- The protocol that the monitor's events follow, read off its trace by an automaton.
use mc_mjlab.Prelude.{
  Bool, true, false, not, ◌&&◌, ◌||◌, Option, none, some, List, [], ◌∷◌, ◌++◌, ltb, leb, ◌==◌,
  str_eq, ◌≡◌, refl, ap, ◌∙◌, arith, eq_iff,
}
use mc_mjlab.Watchdog.Health.{Level, rank}
use mc_mjlab.Watchdog.Runner.{Response}
use mc_mjlab.Watchdog.Monitor.{
  Request, Event, terminal, requested, request_acknowledged, request_rejected, health_degraded,
  Monitor, is_some, is_request, is_acknowledged, log, mark, settle, take_response,
}

pub record Protocol : Type 0 where
  pub waiting : Option Request
  pub preserved : Bool
  pub stopped : Bool
  pub over : Bool

abbrev pub opening : Protocol
opening = record { waiting = none; preserved = false; stopped = false; over = false }

abbrev pub keep_if : Bool → Protocol → Option Protocol
keep_if true p = some p
keep_if false p = none

abbrev is_waiting_for : Option Request → Request → Bool
is_waiting_for none q = false
is_waiting_for (some r) q = str_eq r.request_id q.request_id && (rank r.action == rank q.action)

abbrev answered : Level → Protocol → Protocol
answered Level.preserve p = record p { waiting = none; preserved = true }
answered _ p = record p { waiting = none; stopped = true }

-- One event: `none` when it breaks the protocol. Nothing follows the end. A request needs that none
-- is waiting and no stop was acknowledged, is a preserve or a stop within the allowed maximum, and
-- is a stop only after an acknowledged preserve. Only the waiting request is answered.
abbrev pub follow : Level → Event → Protocol → Option Protocol
follow maximum (terminal v x) p = keep_if (not p.over) (record p { over = true })
follow maximum (requested q) p =
    keep_if
      (not p.over
        && not (is_some p.waiting)
        && not p.stopped
        && is_request q.action
        && leb (rank q.action) (rank maximum)
        && (p.preserved || ltb (rank q.action) 3))
      (record p { waiting = some q })
follow maximum (request_acknowledged q) p =
    keep_if (not p.over && is_waiting_for p.waiting q) (answered q.action p)
follow maximum (request_rejected q) p =
    keep_if (not p.over && is_waiting_for p.waiting q) (record p { waiting = none })
follow maximum (health_degraded level reasons action) p =
    keep_if (not p.over && not (is_some p.waiting) && not p.stopped && ltb 0 (rank level)) p

abbrev pub follow_all : Level → List Event → Option Protocol → Option Protocol
follow_all maximum es none = none
follow_all maximum [] (some p) = some p
follow_all maximum (e ∷ es) (some p) = follow_all maximum es (follow maximum e p)

follow_all-append :
    (maximum : Level) (es fs : List Event) (o : Option Protocol)
    → follow_all maximum (es ++ fs) o ≡ follow_all maximum fs (follow_all maximum es o)
follow_all-append maximum [] fs none = refl
follow_all-append maximum (e ∷ es) fs none = refl
follow_all-append maximum [] fs (some p) = refl
follow_all-append maximum (e ∷ es) fs (some p) =
    follow_all-append maximum es fs (follow maximum e p)

module _ {W : Type 0} where
  -- The trace follows the protocol, to a point that agrees with the monitor's variables.
  pub record IsFollowing (maximum : Level) (m : Monitor W) : Type 0 where
    pub point : Protocol
    pub stands : follow_all maximum m.trace (some opening) ≡ some point
    pub same_waiting : point.waiting ≡ m.pending_request
    pub same_stopped : point.stopped ≡ m.stop_acknowledged
    pub earned : m.preserve_acknowledged ≡ true → point.preserved ≡ true
    pub running : point.over ≡ false

  -- the trace follows the protocol
  pub record IsAccepted (maximum : Level) (m : Monitor W) : Type 0 where
    pub last_point : Protocol
    pub accepted : follow_all maximum m.trace (some opening) ≡ some last_point

  pub follow-log :
      (maximum : Level) (e : Event) (m : Monitor W) {p q : Protocol}
      → follow_all maximum m.trace (some opening) ≡ some p
      → follow maximum e p ≡ some q
      → follow_all maximum (m.trace ++ e ∷ []) (some opening) ≡ some q
  follow-log maximum e m h k =
      follow_all-append maximum m.trace (e ∷ []) (some opening)
      ∙ ap (follow_all maximum (e ∷ [])) h
      ∙ ap (follow_all maximum []) k

  -- the waiting request is the one that is answered
  waits :
      (q : Request) (m : Monitor W) (maximum : Level) (f : IsFollowing maximum m)
      → m.pending_request ≡ some q
      → (not f.point.over && is_waiting_for f.point.waiting q) ≡ true
  waits q m maximum f e =
      rw (f.running, f.same_waiting, e) (ground (arith, eq_iff q.request_id q.request_id))

  settle_stop :
      (maximum : Level) (q : Request) (m : Monitor W) (f : IsFollowing maximum m)
      → m.pending_request ≡ some q
      → answered q.action f.point ≡ record f.point { waiting = none; stopped = true }
      → IsFollowing maximum (
          log
            (request_acknowledged q)
            (record m { stop_acknowledged = true; pending_request = none }))
  settle_stop maximum q m f e a = record {
    point = record f.point { waiting = none; stopped = true };
    stands = follow-log maximum (request_acknowledged q) m f.stands (
        ap (λ (c : Bool). keep_if c (answered q.action f.point)) (waits q m maximum f e)
        ∙ ap some a);
    same_waiting = refl;
    same_stopped = refl;
    earned = f.earned;
    running = f.running;
  }

  settle_acknowledged :
      (maximum : Level) (q : Request) (action : Level) (m : Monitor W)
      → q.action ≡ action
      → m.pending_request ≡ some q
      → IsFollowing maximum m
      → IsFollowing maximum
          (log (request_acknowledged q) (record (mark action m) { pending_request = none }))
  unfolding mark
  settle_acknowledged maximum q Level.preserve m h e f = record {
    point = record f.point { waiting = none; preserved = true };
    stands = follow-log maximum (request_acknowledged q) m f.stands (
        ap (λ (c : Bool). keep_if c (answered q.action f.point)) (waits q m maximum f e)
        ∙ ap (λ (l : Level). some (answered l f.point)) h);
    same_waiting = refl;
    same_stopped = f.same_stopped;
    earned = λ t. refl;
    running = f.running;
  }
  settle_acknowledged maximum q Level.ok m h e f =
      settle_stop maximum q m f e (ap (λ (l : Level). answered l f.point) h)
  settle_acknowledged maximum q Level.warn m h e f =
      settle_stop maximum q m f e (ap (λ (l : Level). answered l f.point) h)
  settle_acknowledged maximum q Level.stop m h e f =
      settle_stop maximum q m f e (ap (λ (l : Level). answered l f.point) h)

  settle-IsFollowing :
      (maximum : Level) (q : Request) (agreed : Bool) (m : Monitor W)
      → m.pending_request ≡ some q
      → IsFollowing maximum m
      → IsFollowing maximum (settle q agreed m)
  unfolding settle
  settle-IsFollowing maximum q true m e f = settle_acknowledged maximum q q.action m refl e f
  settle-IsFollowing maximum q false m e f = record {
    point = record f.point { waiting = none };
    stands =
        follow-log maximum (request_rejected q) m f.stands (
          ap (λ (c : Bool). keep_if c (record f.point { waiting = none })) (waits q m maximum f e));
    same_waiting = refl;
    same_stopped = f.same_stopped;
    earned = f.earned;
    running = f.running;
  }

  pub take_response-IsFollowing :
      (maximum : Level) (o : Option Request) (r : Option Response) (m : Monitor W)
      → m.pending_request ≡ o
      → IsFollowing maximum m
      → IsFollowing maximum (take_response o r m)
  unfolding take_response
  take_response-IsFollowing maximum none r m e f = f
  take_response-IsFollowing maximum (some q) none m e f = f
  take_response-IsFollowing maximum (some q) (some r) m e f =
      settle-IsFollowing maximum q (is_acknowledged r) m e f
