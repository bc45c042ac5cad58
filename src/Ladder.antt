-- ===== src/Ladder.antt =====
-- `episode_length_impulse_curriculum` (mdp/curricula.py), and the mixtures of
-- `stratified_finite_impulse_curriculum` (mdp/disturbances.py) that it sets. `tolerance` is the
-- literal 1e-9.
pub mod Steps
use mc_mjlab.Prelude.{
  ℕ, zero, suc, ◌+◌, ◌-◌, Bool, true, false, not, ◌&&◌, ◌||◌, Option, none, some, List, [], ◌∷◌,
  ltb, ◌==◌, if◌then◌else◌, length, get_elem?, any, Result, Raised, ok, err, value_error,
  index_error, ◌>>=◌, ◌>>◌, ensure,
}
use mc_mjlab.Float.{Float}

module _ {W : Type 0} ⦃f : Float W⦄ where
  total : W → List W → W
  total acc [] = acc
  total acc (x ∷ xs) = total (f.add acc x) xs

  -- abs(sum(values) - 1.0) > tolerance
  abbrev is_off : W → List W → Bool
  is_off tolerance values =
      let d = total (f.of_ℕ 0) values in
      f.lt tolerance (f.sub d (f.of_ℕ 1)) || f.lt tolerance (f.sub (f.of_ℕ 1) d)

  abbrev is_negative : W → Bool
  is_negative x = f.lt x (f.of_ℕ 0)

  unfoldable pub validated_weights : W → ℕ → List W → Result (List W)
  unfolding total
  validated_weights tolerance bands values = do
    ensure (length values == bands + 1) value_error
    ensure (not (is_off tolerance values || any is_negative values)) value_error
    ok values

  validated_mixtures : W → ℕ → List (List W) → Result (List (List W))
  unfolding validated_weights
  validated_mixtures tolerance bands [] = ok []
  validated_mixtures tolerance bands (m ∷ ms) = do
    first ← validated_weights tolerance bands m
    rest ← validated_mixtures tolerance bands ms
    ok (first ∷ rest)

-- the curriculum, with the number of bands and the weights of its impulse term
pub record Ladder (W : Type 0) : Type 0 where
  pub bands : ℕ
  pub band_weights : List W
  pub mixtures : List (List W)
  pub stage : ℕ
  pub smoothed : W

mixture_or_raise {ℓ} : {A : Type ℓ} → Option A → Result A
mixture_or_raise none = err index_error
mixture_or_raise (some m) = ok m

module _ {W : Type 0} ⦃f : Float W⦄ where
  -- the term's weights for the mixture of a stage
  set_band_weights : W → ℕ → Ladder W → Result (Ladder W)
  unfolding validated_weights mixture_or_raise
  set_band_weights tolerance stage l = do
    mixture ← mixture_or_raise (get_elem? l.mixtures stage)
    values ← validated_weights tolerance l.bands mixture
    ok (record l { band_weights = values })

  unfoldable pub make_ladder : W → ℕ → List W → List (List W) → Result (Ladder W)
  unfolding validated_mixtures set_band_weights
  make_ladder tolerance bands given mixtures = do
    checked ← validated_mixtures tolerance bands mixtures
    ensure (ltb 1 (length checked)) value_error
    set_band_weights tolerance 0 (record {
      bands = bands;
      band_weights = given;
      mixtures = checked;
      stage = 0;
      smoothed = f.nan;
    })

  -- the new mixture, and nothing smoothed of it yet
  move_to : W → ℕ → Ladder W → Result (Ladder W)
  unfolding set_band_weights
  move_to tolerance stage l = do
    moved ← set_band_weights tolerance stage (record l { stage = stage })
    ok (record moved { smoothed = f.nan })

  unfoldable pub step_ladder : W → W → W → Ladder W → Result (Ladder W)
  unfolding move_to
  step_ladder tolerance advance regress l =
      if f.le advance l.smoothed && ltb (l.stage + 1) (length l.mixtures)
      then move_to tolerance (l.stage + 1) l
      else if f.lt l.smoothed regress && ltb 0 l.stage
      then move_to tolerance (l.stage - 1) l
      else ok l

  -- the running mean, which starts at the first sample
  smooth : W → W → W → W
  smooth smoothing old sample =
      if not (f.le old old)
      then sample
      else f.add (f.mul (f.sub (f.of_ℕ 1) smoothing) old) (f.mul smoothing sample)

  smooth_and_step : W → W → W → W → Option W → W → Ladder W → Result (Ladder W)
  unfolding smooth step_ladder
  smooth_and_step tolerance advance regress smoothing none longest l = ok l
  smooth_and_step tolerance advance regress smoothing (some mean) longest l =
      step_ladder tolerance advance regress
        (record l { smoothed = smooth smoothing l.smoothed (f.div mean longest) })

  -- `__call__`: the mean terminal length of the finished environments, when there are any, and the
  -- longest episode
  unfoldable pub call : W → W → W → W → Option W → W → Ladder W → Result (Ladder W)
  unfolding smooth_and_step
  call tolerance advance regress smoothing mean longest l = do
    ensure (not (f.le advance regress)) value_error
    smooth_and_step tolerance advance regress smoothing mean longest l
