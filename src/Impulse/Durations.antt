-- ===== src/Impulse/Durations.antt =====
-- A wrench acts for its sampled duration and is then taken off.
use mc_mjlab.Prelude.{
  ℕ, ◌+◌, ◌<◌, ◌≤◌, Bool, false, ◌&&◌, List, [], ◌∷◌, ◌≡◌, refl, arith, length, subst,
}
use mc_mjlab.Float.{Float}
use mc_mjlab.Impulse.{
  Impulse, Draw, Clock, Cohort, standing, zeros, write_zeros, reset, expire, is_due, trigger, call,
  calls,
}

module _ {W : Type 0} ⦃f : Float W⦄ where
  -- The simulator has the term's wrench, and none once the duration has run out.
  pub record IsTimed (s : Impulse W) : Type 0 where
    pub written : s.wrench ≡ (s.force, s.torque)
    pub over : s.remaining ≡ 0 → s.wrench ≡ (zeros, zeros)

  -- A reset takes any wrench off. A call whose sampled duration is at least one step keeps the
  -- wrench timed.
  pub call-IsTimed :
      (on : Bool) (clock : Clock) (d : Draw W) (s : Impulse W)
      → 1 ≤ d.duration_steps
      → ((warmup offset : ℕ) (c : Cohort) → IsTimed (reset warmup offset c s))
        × (IsTimed s → IsTimed (call on clock d s))
  unfolding reset write_zeros call expire is_due trigger
  call-IsTimed on clock d s h = (
    λ w o c. record { written = refl; over = λ e. refl },
    λ t. record { written = ground (arith, t.written); over = ground (arith, t.over, h) },
  )

  -- no call of the list triggers an impulse
  abbrev pub IsUndisturbed : List (Bool × Clock × Draw W) → Impulse W → Type 0
  IsUndisturbed [] s = Unit
  IsUndisturbed ((on, clock, d) ∷ rest) s =
      ((on && is_due clock (expire s)) ≡ false) × IsUndisturbed rest (call on clock d s)

  quiet_call :
      (on : Bool) (clock : Clock) (d : Draw W) (s : Impulse W)
      → (on && is_due clock (expire s)) ≡ false
      → call on clock d s ≡ expire s
  unfolding call
  quiet_call on clock d s h = rw h refl

  expire-IsTimed : (s : Impulse W) → IsTimed s → IsTimed (expire s)
  unfolding expire write_zeros
  expire-IsTimed s t = record { written = ground (arith, t.written); over = ground (arith, t.over) }

  expire_lem :
      (s : Impulse W)
      → IsTimed s
      → (2 ≤ s.remaining
          → ((expire s).wrench ≡ s.wrench) × ((expire s).remaining + 1 ≡ s.remaining))
        × (s.remaining ≤ 1 → ((expire s).wrench ≡ (zeros, zeros)) × ((expire s).remaining ≡ 0))
  unfolding expire write_zeros
  expire_lem s t = ground (arith, t.over)

  -- While no new impulse is triggered, the wrench acts unchanged for exactly the calls that remain,
  -- and is then zero and stays so.
  pub calls_duration :
      (cs : List (Bool × Clock × Draw W)) (s : Impulse W)
      → IsTimed s
      → IsUndisturbed cs s
      → (length cs < s.remaining
          → ((calls cs s).wrench ≡ s.wrench) × ((calls cs s).remaining + length cs ≡ s.remaining))
        × (s.remaining ≤ length cs
            → ((calls cs s).wrench ≡ (zeros, zeros)) × ((calls cs s).remaining ≡ 0))
  unfolding calls
  calls_duration [] s t u = ground (arith, t.over)
  calls_duration ((on, clock, d) ∷ cs) s t (u, us) =
      let same = quiet_call on clock d s u in
      let later =
        calls_duration cs (expire s) (expire-IsTimed s t) (subst (IsUndisturbed cs) same us) in
      rw (calls, same) (ground (arith, later, expire_lem s t, (expire-IsTimed s t).over))

  standing_step :
      (on : Bool) (clock : Clock) (d : Draw W) (s : Impulse W)
      → s.cohort ≡ standing
      → ((on && is_due clock (expire s)) ≡ false) × ((call on clock d s).cohort ≡ standing)
  unfolding call is_due expire write_zeros trigger
  standing_step on clock d s h = ground (arith, h)

  quiet_standing :
      (cs : List (Bool × Clock × Draw W)) (s : Impulse W) → s.cohort ≡ standing → IsUndisturbed cs s
  quiet_standing [] s h = tt
  quiet_standing ((on, clock, d) ∷ cs) s h =
      let (one, two) = standing_step on clock d s h in
      (one, quiet_standing cs (call on clock d s) two)

  reset-IsTimed : (w o : ℕ) (c : Cohort) (s : Impulse W) → IsTimed (reset w o c s)
  unfolding reset write_zeros
  reset-IsTimed w o c s = record { written = refl; over = λ e. refl }

  reset_lem :
      (w o : ℕ) (c : Cohort) (s : Impulse W)
      → ((reset w o c s).cohort ≡ c) × ((reset w o c s).remaining ≡ 0)
  unfolding reset write_zeros
  reset_lem w o c s = (refl, refl)

  -- An environment that a reset draws for the standing cohort has no wrench in any later call,
  -- until it is reset again.
  pub standing_calm :
      (w o : ℕ) (s : Impulse W) (cs : List (Bool × Clock × Draw W))
      → (calls cs (reset w o standing s)).wrench ≡ (zeros, zeros)
  standing_calm w o s cs =
      let t = reset w o standing s in
      ((calls_duration cs t (reset-IsTimed w o standing s)
          (quiet_standing cs t (reset_lem w o standing s).0)).1
        (ground (arith, (reset_lem w o standing s).1))).0
