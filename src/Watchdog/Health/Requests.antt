-- ===== src/Watchdog/Health/Requests.antt =====
-- What `intervention_for` asks for.
use mc_mjlab.Prelude.{◌≤◌, ◌≡◌, ◌↔◌, Bool, true, false, none, some, arith, ◌⊎◌}
use mc_mjlab.Watchdog.Health.{Level, ok, preserve, stop, rank, intervention_for}

-- What is asked is bounded by the decided level and by the allowed maximum, and only when nothing
-- is pending; a stop is asked only once a preserve was acknowledged; and with nothing pending,
-- nothing is asked exactly when one of the two is `ok`, or the lower of the two is `preserve` and a
-- preserve was acknowledged.
pub intervention_for_bounds :
    (desired maximum : Level) (acknowledged pending : Bool)
    → ((l : Level)
        → intervention_for desired maximum acknowledged pending ≡ some l
        → (rank l ≤ rank desired)
          × (rank l ≤ rank maximum)
          × (pending ≡ false)
          × (l ≡ stop → acknowledged ≡ true))
      × (pending ≡ false
          → (intervention_for desired maximum acknowledged pending ≡ none) ↔ (
              (desired ≡ ok)
              ⊎ (maximum ≡ ok)
              ⊎ ((acknowledged ≡ true)
                  × (2 ≤ rank desired)
                  × (2 ≤ rank maximum)
                  × ((desired ≡ preserve) ⊎ (maximum ≡ preserve)))))
unfolding intervention_for
intervention_for_bounds desired maximum acknowledged pending = ground arith
