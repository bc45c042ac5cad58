-- ===== src/Watchdog/Qualification.antt =====
-- `qualification_baseline` and `qualification_regressions`
-- (tasks/residual_balance/training_watchdog.py). A reason is kept as the values it is printed from.
use mc_mjlab.Prelude.{
  ℕ, suc, ◌-◌, ◌*◌, ◌/◌, ◌%◌, String, Bool, true, false, not, ◌&&◌, Option, none, some, List, [],
  ◌∷◌, ◌++◌, map, ltb, ◌==◌, if◌then◌else◌, length, get_elem?, ℤ, Result, ok, err, value_error,
}
use mc_mjlab.Float.{Float}

-- what `qualification_snapshot` returns
pub record Snapshot (W : Type 0) : Type 0 where
  pub path : String
  pub checkpoint : String
  pub iteration : ℤ
  pub eligible : Bool
  pub hazard_ratio : W
  pub recovery_gain : W

pub record Baseline (W : Type 0) : Type 0 where
  pub samples : ℕ
  pub base_eligible : Bool
  pub base_hazard_ratio : W
  pub base_recovery_gain : W

pub data Regression (W : Type 0) : Type 0 where
  became_ineligible : Regression W
  hazard_regressed : W → W → Regression W
  recovery_regressed : W → W → Regression W

abbrev count_eligible : {W : Type 0} → List (Snapshot W) → ℕ
count_eligible [] = 0
count_eligible (s ∷ rest) = if s.eligible then suc (count_eligible rest) else count_eligible rest

abbrev when {ℓ} : {A : Type ℓ} → Bool → A → List A
when true a = a ∷ []
when false a = []

module _ {W : Type 0} ⦃f : Float W⦄ where
  insert : W → List W → List W
  insert x [] = x ∷ []
  insert x (y ∷ ys) = if f.le x y then x ∷ y ∷ ys else y ∷ insert x ys

  sorted : List W → List W
  unfolding insert
  sorted [] = []
  sorted (x ∷ xs) = insert x (sorted xs)

  finite : List W → List W
  finite [] = []
  finite (x ∷ xs) = if f.is_finite x then x ∷ finite xs else finite xs

  abbrev or_nan : Option W → W
  or_nan none = f.nan
  or_nan (some x) = x

  -- the middle one of sorted values, or the mean of the middle two
  middle : List W → W
  middle [] = f.nan
  middle (x ∷ xs) =
      let values = x ∷ xs in
      let half = length values / 2 in
      if length values % 2 == 1
      then or_nan (get_elem? values half)
      else f.div (f.add (or_nan (get_elem? values (half - 1))) (or_nan (get_elem? values half)))
          (f.of_ℕ 2)

  unfoldable pub median : List W → W
  unfolding finite sorted middle
  median values = middle (sorted (finite values))

  unfoldable pub qualification_baseline : List (Snapshot W) → Result (Baseline W)
  unfolding median
  qualification_baseline [] = err value_error
  qualification_baseline (s ∷ rest) = ok (record {
    samples = length (s ∷ rest);
    base_eligible = ltb (length (s ∷ rest)) (2 * count_eligible (s ∷ rest));
    base_hazard_ratio = median (map (λ (q : Snapshot W). q.hazard_ratio) (s ∷ rest));
    base_recovery_gain = median (map (λ (q : Snapshot W). q.recovery_gain) (s ∷ rest));
  })

  unfoldable pub qualification_regressions : Baseline W → Snapshot W → W → W → List (Regression W)
  qualification_regressions b s hazard_margin recovery_margin =
      when (b.base_eligible && not s.eligible) became_ineligible
      ++ (when
            (f.is_finite b.base_hazard_ratio
              && f.is_finite s.hazard_ratio
              && f.lt (f.add b.base_hazard_ratio hazard_margin) s.hazard_ratio)
            (hazard_regressed b.base_hazard_ratio s.hazard_ratio)
          ++ when
              (f.is_finite b.base_recovery_gain
                && f.is_finite s.recovery_gain
                && f.lt s.recovery_gain (f.sub b.base_recovery_gain recovery_margin))
              (recovery_regressed b.base_recovery_gain s.recovery_gain))
