-- ===== src/Recovery.antt =====
-- residuals/recovery_authority.py: the detector's score, the filtered authority and the filter that
-- bounds a burst. The tensors hold one value for each environment and every operation is
-- elementwise, so this is one environment.
pub mod Bursts
use mc_mjlab.Prelude.{
  ℕ, zero, suc, Bool, true, false, not, ◌&&◌, ◌||◌, List, [], ◌∷◌, if◌then◌else◌,
}
use mc_mjlab.Float.{Float, nothing, same, maximum}

pub record RecoveryCalibration (W : Type 0) : Type 0 where
  pub centers : List W
  pub scales : List W
  pub threshold : W
  pub activation_span : W
  pub attack_s : W
  pub decay_tau_s : W
  pub cutoff : W
  pub max_active_s : W
  pub rearm_s : W
  pub rearm_score : W
  pub onset_delta : W

pub record RecoveryFilter (W : Type 0) : Type 0 where
  pub authority : W
  pub active_age : W
  pub quiet_age : W
  pub active : Bool
  pub armed : Bool
  pub previous_onset : W
  pub primed : Bool

-- what one update is given
pub record Reading (W : Type 0) : Type 0 where
  pub score : W
  pub onset_signal : W
  pub target : W

module _ {W : Type 0} ⦃f : Float W⦄ where
  abbrev clamp_unit : W → W
  clamp_unit x = if f.lt x nothing then nothing else if f.lt (f.of_ℕ 1) x then f.of_ℕ 1 else x

  normalized : List W → List W → List W → List W
  normalized (x ∷ xs) (c ∷ cs) (s ∷ ss) = f.div (f.sub x c) s ∷ normalized xs cs ss
  normalized _ _ _ = []

  largest : W → List W → W
  largest best [] = best
  largest best (x ∷ xs) = largest (maximum best x) xs

  largest_of : List W → W
  unfolding largest
  largest_of [] = f.nan
  largest_of (x ∷ xs) = largest x xs

  smooth : W → W
  smooth level = f.mul (f.mul level level) (f.sub (f.of_ℕ 3) (f.mul (f.of_ℕ 2) level))

  -- the score and the activation target
  unfoldable pub detector_target : List W → RecoveryCalibration W → W × W
  unfolding normalized largest_of smooth
  detector_target features c =
      let score = largest_of (normalized features c.centers c.scales) in
      (score, smooth (clamp_unit (f.div (f.sub score c.threshold) c.activation_span)))

  unfoldable pub filter_authority : W → W → RecoveryCalibration W → W → W
  filter_authority previous target c dt =
      let attack = f.sub (f.of_ℕ 1) (f.exp_neg (f.div dt c.attack_s)) in
      let decay = f.exp_neg (f.div dt c.decay_tau_s) in
      let rising = f.add previous (f.mul attack (f.sub target previous)) in
      let falling = maximum target (f.mul previous decay) in
      let authority = if f.lt previous target then rising else falling in
      if f.le c.cutoff authority then authority else nothing

  starts : RecoveryCalibration W → Reading W → RecoveryFilter W → Bool
  starts c r s =
      s.armed
      && not s.active
      && s.primed
      && f.le c.onset_delta (f.sub r.onset_signal s.previous_onset)
      && f.lt nothing r.target

  start : Bool → RecoveryFilter W → RecoveryFilter W
  start true s = record s {
    active = true;
    armed = false;
    active_age = nothing;
    quiet_age = nothing;
  }
  start false s = s

  -- the authority and the age of a burst, and its end
  advance : RecoveryCalibration W → W → W → RecoveryFilter W → RecoveryFilter W
  unfolding filter_authority
  advance c dt target s =
      if s.active
      then (let authority = filter_authority s.authority target c dt in
          let age = f.add s.active_age dt in
          if f.le c.max_active_s age || (same target nothing && same authority nothing)
          then record s { active = false; authority = nothing; active_age = age }
          else record s { authority = authority; active_age = age })
      else record s { authority = nothing }

  rearm : RecoveryCalibration W → W → W → RecoveryFilter W → RecoveryFilter W
  rearm c dt score s =
      if not s.active && f.le score c.rearm_score
      then (let age = f.add s.quiet_age dt in
          record s { quiet_age = age; armed = s.armed || f.le c.rearm_s age })
      else record s { quiet_age = nothing }

  unfoldable pub update :
      RecoveryCalibration W → W → Reading W → RecoveryFilter W → RecoveryFilter W
  unfolding starts start advance rearm
  update c dt r s = record (rearm c dt r.score (advance c dt r.target (start (starts c r s) s))) {
    previous_onset = r.onset_signal;
    primed = true;
  }

  -- an environment that is reset, and a new filter
  abbrev pub reset : RecoveryFilter W
  reset = record {
    authority = nothing;
    active_age = nothing;
    quiet_age = nothing;
    active = false;
    armed = false;
    previous_onset = nothing;
    primed = false;
  }
