-- ===== src/Recovery/Bursts.antt =====
-- Bursts of authority are bounded.
use mc_mjlab.Prelude.{
  ℕ, zero, suc, true, false, List, [], ◌∷◌, ◌≡◌, ◌⊎◌, inl, refl, arith, length, ◌≤◌, sym, ◌∙◌, ap,
}
use mc_mjlab.Float.{nothing, Float, Le}
use mc_mjlab.Recovery.{
  RecoveryCalibration, RecoveryFilter, Reading, filter_authority, starts, start, advance, rearm,
  update, reset,
}

module _ {W : Type 0} ⦃f : Float W⦄ where
  -- An active burst is younger than the longest one and cannot start again; an inactive environment
  -- has no authority; any authority is zero or at least the cutoff.
  pub record IsBounded (c : RecoveryCalibration W) (s : RecoveryFilter W) : Type 0 where
    pub young : s.active ≡ true → f.le c.max_active_s s.active_age ≡ false
    pub disarmed : s.active ≡ true → s.armed ≡ false
    pub silent : s.active ≡ false → s.authority ≡ nothing
    pub cut : (s.authority ≡ nothing) ⊎ (Le c.cutoff s.authority)

  reset-IsBounded : (c : RecoveryCalibration W) → IsBounded c reset
  reset-IsBounded c = record {
    young = λ h. cc h;
    disarmed = λ h. refl;
    silent = λ h. refl;
    cut = inl refl;
  }

  -- Every update keeps the bounds, and a burst starts only in an environment that was armed and had
  -- a previous reading, on a rise of the onset signal with a target above zero.
  pub update-IsBounded :
      (c : RecoveryCalibration W) (dt : W) (r : Reading W) (s : RecoveryFilter W)
      → IsBounded c s
      → IsBounded c (update c dt r s)
        × (s.active ≡ false
            → (update c dt r s).active ≡ true
            → (s.armed ≡ true)
              × (s.primed ≡ true)
              × (Le c.onset_delta (f.sub r.onset_signal s.previous_onset))
              × (f.lt nothing r.target ≡ true))
  unfolding update starts start advance rearm filter_authority
  update-IsBounded c dt r s b = (
    record {
      young = ground (arith, b.young);
      disarmed = ground (arith, b.disarmed);
      silent = ground (arith, b.silent);
      cut = ground (arith, b.cut);
    },
    ground arith,
  )

  -- the time of `n` updates
  abbrev pub elapsed : W → ℕ → W
  elapsed dt zero = nothing
  elapsed dt (suc n) = f.add (elapsed dt n) dt

  abbrev pub after :
      RecoveryCalibration W → W → RecoveryFilter W → List (Reading W) → RecoveryFilter W
  after c dt s [] = s
  after c dt s (r ∷ rs) = update c dt r (after c dt s rs)

  -- the environment is active after each of these updates (the latest first)
  abbrev pub IsActiveThroughout :
      RecoveryCalibration W → W → RecoveryFilter W → List (Reading W) → Type 0
  IsActiveThroughout c dt s [] = Unit
  IsActiveThroughout c dt s (r ∷ rs) =
      IsActiveThroughout c dt s rs × ((after c dt s (r ∷ rs)).active ≡ true)

  age_step :
      (c : RecoveryCalibration W) (dt : W) (r : Reading W) (s : RecoveryFilter W)
      → (update c dt r s).active ≡ true
      → ((s.active ≡ true → (update c dt r s).active_age ≡ f.add s.active_age dt)
          × (s.active ≡ false → (update c dt r s).active_age ≡ f.add nothing dt))
  unfolding update starts start advance rearm filter_authority
  age_step c dt r s h = ground arith

  burst_age :
      (c : RecoveryCalibration W) (dt : W) (s : RecoveryFilter W) (r : Reading W)
      (rs : List (Reading W))
      → s.active ≡ false
      → IsActiveThroughout c dt s (r ∷ rs)
      → (after c dt s (r ∷ rs)).active_age ≡ elapsed dt (suc (length rs))
  burst_age c dt s r [] h (_, a) = (age_step c dt r s a).1 h
  burst_age c dt s r (q ∷ rs) h (t, a) =
      (age_step c dt r (after c dt s (q ∷ rs)) a).0 t.1
      ∙ ap (λ (x : W). f.add x dt) (burst_age c dt s q rs h t)

  after-IsBounded :
      (c : RecoveryCalibration W) (dt : W) (s : RecoveryFilter W) (rs : List (Reading W))
      → IsBounded c s
      → IsBounded c (after c dt s rs)
  after-IsBounded c dt s [] b = b
  after-IsBounded c dt s (r ∷ rs) b =
      (update-IsBounded c dt r (after c dt s rs) (after-IsBounded c dt s rs b)).0

  -- From a bounded inactive environment, however many updates in a row leave it active, their time
  -- does not reach the longest burst.
  pub burst_bound :
      (c : RecoveryCalibration W) (dt : W) (s : RecoveryFilter W) (r : Reading W)
      (rs : List (Reading W))
      → IsBounded c s
      → s.active ≡ false
      → IsActiveThroughout c dt s (r ∷ rs)
      → f.le c.max_active_s (elapsed dt (length (r ∷ rs))) ≡ false
  burst_bound c dt s r rs b h t =
      ap (f.le c.max_active_s) (sym (burst_age c dt s r rs h t))
      ∙ (after-IsBounded c dt s (r ∷ rs) b).young t.1

  -- the quiet updates that end here
  record IsQuiet (dt : W) (n : ℕ) (s : RecoveryFilter W) (limit : W) : Type 0 where
    count : ℕ
    bound : count ≤ n
    age : s.quiet_age ≡ elapsed dt count
    arming : s.armed ≡ true → (k : ℕ) × (1 ≤ k) × (k ≤ n) × Le limit (elapsed dt k)
