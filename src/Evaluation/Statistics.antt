-- ===== src/Evaluation/Statistics.antt =====
-- scripts/evaluation/qualification.py: the inference on the means of independent clusters, and
-- Holm's adjustment of the p-values that are reported together.
pub mod Resolving
use mc_mjlab.Prelude.{
  ℕ, zero, suc, ◌+◌, ◌-◌, ◌*◌, String, Bool, true, false, not, ◌&&◌, ◌||◌, Option, none, some, List,
  [], ◌∷◌, map, ltb, leb, ◌==◌, if◌then◌else◌, length, get_elem?, Result,
}
use mc_mjlab.Float.{Float, nothing, same, ratio}

pub record Stats (W : Type 0) : Type 0 where
  pub mean : W
  pub sem : W
  pub ci_low : W
  pub ci_high : W
  pub p : W
  pub clusters : W
  pub p_holm : Option W

-- `_T_CRITICAL_95`, in ten-thousandths
abbrev t_critical_95 : List ℕ
t_critical_95 =
    127062 ∷ 43027 ∷ 31824 ∷ 27764 ∷ 25706 ∷ 24469 ∷ 23646 ∷ 23060 ∷ 22622 ∷ 22281 ∷ 22010 ∷ 21788
    ∷ 21604 ∷ 21448 ∷ 21314 ∷ 21199 ∷ 21098 ∷ 21009 ∷ 20930 ∷ 20860 ∷ 20796 ∷ 20739 ∷ 20687 ∷ 20639
    ∷ 20595 ∷ 20555 ∷ 20518 ∷ 20484 ∷ 20452 ∷ 20423 ∷ []

-- `for count in range(start, start + n)`, up to the first that resolves
unfoldable pub first_count : (ℕ → Bool) → ℕ → ℕ → Option ℕ
first_count test start zero = none
first_count test start (suc n) = elim (test start) [
  | true ↦ some start
  | false ↦ first_count test (suc start) n
]

module _ {W : Type 0} ⦃f : Float W⦄ where
  -- `_NORMAL_CRITICAL_95`
  abbrev normal_critical_95 : W
  normal_critical_95 = ratio 1959963985 1000000000

  past_table : ℕ → Option ℕ → W
  past_table df (some t) = ratio t 10000
  past_table df none =
      let z = normal_critical_95 in
      f.add z (f.div (f.add (f.pow z 3) z) (f.mul (f.of_ℕ 4) (f.of_ℕ df)))

  unfoldable pub t_critical : ℕ → W
  unfolding past_table
  t_critical zero = f.infinity
  t_critical (suc zero) = f.infinity
  t_critical (suc (suc n)) = past_table (suc n) (get_elem? t_critical_95 n)

  -- the test of the loop
  unfoldable pub resolves : W → W → ℕ → ℕ → Bool
  unfolding t_critical
  resolves mean sem clusters count =
      f.lt (f.mul (f.mul (t_critical count) sem) (f.sqrt (f.div (f.of_ℕ clusters) (f.of_ℕ count))))
        (f.neg mean)

  abbrev pub or_infinity : Option ℕ → W
  or_infinity none = f.infinity
  or_infinity (some count) = f.of_ℕ count

  unfoldable pub clusters_for_confidence : W → W → ℕ → ℕ → W
  unfolding resolves first_count
  clusters_for_confidence mean sem clusters cap =
      if f.lt mean nothing && f.is_finite sem && f.lt nothing sem && leb 2 clusters
      then or_infinity (first_count (resolves mean sem clusters) clusters (cap + 1 - clusters))
      else f.nan

  pub finite : List W → List W
  finite [] = []
  finite (x ∷ xs) = if f.is_finite x then x ∷ finite xs else finite xs

  mean_of : List W → W
  mean_of values = f.div (f.sum values) (f.of_ℕ (length values))

  standard_error : List W → W
  unfolding mean_of
  standard_error values =
      let n = length values in
      if n == 1
      then f.infinity
      else let squares = map (λ v. f.pow (f.sub v (mean_of values)) 2) values in
        f.sqrt (f.div (f.div (f.sum squares) (f.of_ℕ (n - 1))) (f.of_ℕ n))

  stats_of : List W → Stats W
  unfolding mean_of standard_error t_critical
  stats_of [] = record {
    mean = f.nan;
    sem = f.nan;
    ci_low = f.nan;
    ci_high = f.nan;
    p = f.nan;
    clusters = f.nan;
    p_holm = none;
  }
  stats_of (x ∷ xs) =
      let values = x ∷ xs in
      let mean = mean_of values in
      let sem = standard_error values in
      let radius = f.mul (t_critical (length values)) sem in
      record {
        mean = mean;
        sem = sem;
        ci_low = f.sub mean radius;
        ci_high = f.add mean radius;
        p =
            if f.lt nothing sem
            then f.erfc (f.div (f.abs (f.div mean sem)) (f.sqrt (f.of_ℕ 2)))
            else f.nan;
        clusters = f.of_ℕ (length values);
        p_holm = none;
      }

  unfoldable pub cluster_stats : List W → Stats W
  unfolding finite stats_of
  cluster_stats values = stats_of (finite values)
