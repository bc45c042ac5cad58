-- ===== src/Evaluation/Arms.antt =====
-- scripts/evaluation/comparison.py: the summary statistics of the baseline comparison, and the
-- episodes of an arm that are compared. Python's `statistics` is an argument.
pub mod Trimmed
use mc_mjlab.Prelude.{
  ℕ, zero, suc, ◌+◌, ◌*◌, String, Bool, true, false, ◌&&◌, ◌||◌, Option, none, some, List, [], ◌∷◌,
  ltb, ◌==◌, if◌then◌else◌, length,
}
use mc_mjlab.Prelude.Dict.{Dict, get}
use mc_mjlab.Float.{Float, nothing, same, ratio}

-- `min` and `max` of Python, `statistics.fmean`, `stdev` and the inclusive quartiles
pub record Statistics (W : Type 0) : Type 0 where
  pub fmean : List W → W
  pub stdev : List W → W
  pub quartiles : List W → W × W × W
  pub least : List W → W
  pub greatest : List W → W

pub record Description (W : Type 0) : Type 0 where
  pub n : ℕ
  pub mean : W
  pub std : W
  pub sem : W
  pub min : W
  pub q1 : W
  pub median : W
  pub q3 : W
  pub max : W

module _ {W : Type 0} ⦃f : Float W⦄ where
  described : Statistics W → W → List W → ℕ → W → W × W × W → Description W
  described s first values n std (q1, med, q3) = record {
    n = n;
    mean = s.fmean values;
    std = std;
    sem = f.div std (f.sqrt (f.of_ℕ n));
    min = s.least values;
    q1 = q1;
    median = med;
    q3 = q3;
    max = s.greatest values;
  }

  unfoldable pub describe : Statistics W → List W → Description W
  unfolding described
  describe s [] = record {
    n = 0;
    mean = f.nan;
    std = f.nan;
    sem = f.nan;
    min = f.nan;
    q1 = f.nan;
    median = f.nan;
    q3 = f.nan;
    max = f.nan;
  }
  describe s (x ∷ []) = described s x (x ∷ []) 1 nothing (x, x, x)
  describe s (x ∷ y ∷ rest) =
      let values = x ∷ y ∷ rest in
      described s x values (length values) (s.stdev values) (s.quartiles values)

  abbrev square : W → W
  square x = f.mul x x

  -- Python's `max(0.0, x)` and `min(1.0, x)`
  abbrev at_least_zero : W → W
  at_least_zero x = if f.lt nothing x then x else nothing

  abbrev at_most_one : W → W
  at_most_one x = if f.lt x (f.of_ℕ 1) then x else f.of_ℕ 1

  -- `k / n`
  abbrev rate : ℕ → ℕ → W
  rate k n = f.div (f.of_ℕ k) (f.of_ℕ n)

  unfoldable pub wilson : ℕ → ℕ → W × W
  wilson k zero = (f.nan, f.nan)
  wilson k (suc m) =
      let n : W = f.of_ℕ (suc m) in
      let z : W = ratio 1959963985 1000000000 in
      let p : W = rate k (suc m) in
      let d = f.add (f.of_ℕ 1) (f.div (square z) n) in
      let c = f.div (f.add p (f.div (square z) (f.of_ℕ (2 * suc m)))) d in
      let spread =
        f.add (f.div (f.mul p (f.sub (f.of_ℕ 1) p)) n)
          (f.div (square z) (f.of_ℕ (4 * suc m * suc m))) in
      let h = f.div (f.mul z (f.sqrt spread)) d in
      (at_least_zero (f.sub c h), at_most_one (f.add c h))

  unfoldable pub two_proportion_p : ℕ → ℕ → ℕ → ℕ → W
  two_proportion_p k1 n1 k2 n2 =
      if (n1 == 0) || (n2 == 0)
      then f.nan
      else (let p : W = rate (k1 + k2) (n1 + n2) in
          let inverse = f.add (rate 1 n1) (rate 1 n2) in
          let se = f.sqrt (f.mul (f.mul p (f.sub (f.of_ℕ 1) p)) inverse) in
          if same se nothing
          then f.of_ℕ 1
          else f.erfc
              (f.div (f.div (f.abs (f.sub (rate k1 n1) (rate k2 n2))) se) (f.sqrt (f.of_ℕ 2))))

  -- `math.hypot` is an argument
  unfoldable pub welch_p : (W → W → W) → Description W → Description W → W
  welch_p hypot a b =
      let se = hypot a.sem b.sem in
      if same se nothing || ltb a.n 2 || ltb b.n 2
      then f.nan
      else f.erfc (f.div (f.div (f.abs (f.sub a.mean b.mean)) se) (f.sqrt (f.of_ℕ 2)))

pub record ComparisonEpisode (W : Type 0) : Type 0 where
  pub env_id : ℕ
  pub nth : ℕ
  pub duration : ℕ
  pub terms : Dict ℕ
  pub rewards : Dict W

pub record Arm (W : Type 0) : Type 0 where
  pub label : String
  pub env_ids : List ℕ
  pub episodes : List (ComparisonEpisode W)
  pub steps : ℕ

-- a `dict` with environments as keys
abbrev pub PerEnv : Type 0
PerEnv = List (ℕ × ℕ)

unfoldable pub count_at : PerEnv → ℕ → Option ℕ
count_at [] i = none
count_at ((j, n) ∷ d) i = if j == i then some n else count_at d i

unfoldable pub put_count : PerEnv → ℕ → ℕ → PerEnv
put_count [] i n = (i, n) ∷ []
put_count ((j, m) ∷ d) i n = if j == i then (i, n) ∷ d else (j, m) ∷ put_count d i n

abbrev pub larger : ℕ → ℕ → ℕ
larger a b = if ltb a b then b else a

abbrev pub smaller : ℕ → ℕ → ℕ
smaller a b = if ltb b a then b else a

abbrev pub or_zero : Option ℕ → ℕ
or_zero none = 0
or_zero (some n) = n

-- dict.fromkeys(env_ids, -1); each value stands one higher here
unfoldable pub from_keys : List ℕ → PerEnv → PerEnv
unfolding put_count
from_keys [] d = d
from_keys (i ∷ ids) d = from_keys ids (put_count d i 0)

module _ {W : Type 0} where
  -- the last episode of each environment
  unfoldable pub record_last : List (ComparisonEpisode W) → PerEnv → PerEnv
  unfolding count_at put_count
  record_last [] d = d
  record_last (e ∷ episodes) d =
      record_last episodes
        (put_count d e.env_id (larger (or_zero (count_at d e.env_id)) (e.nth + 1)))

  unfoldable pub first_episodes : ℕ → List (ComparisonEpisode W) → List (ComparisonEpisode W)
  first_episodes k [] = []
  first_episodes k (e ∷ episodes) =
      let rest = first_episodes k episodes in if ltb e.nth k then e ∷ rest else rest

-- `min(per_env.values())`
unfoldable pub least_count : ℕ → PerEnv → ℕ
least_count n [] = n
least_count n ((i, m) ∷ d) = smaller n (least_count m d)

module _ {W : Type 0} where
  unfoldable pub trim : PerEnv → List (ComparisonEpisode W) → List (ComparisonEpisode W) × ℕ
  unfolding first_episodes least_count
  trim [] episodes = ([], 0)
  trim ((i, n) ∷ d) episodes = let k = least_count n d in (first_episodes k episodes, k)

  unfoldable pub trimmed : Arm W → List (ComparisonEpisode W) × ℕ
  unfolding trim record_last from_keys
  trimmed a = trim (record_last a.episodes (from_keys a.env_ids [])) a.episodes

  unfoldable pub survived : List (ComparisonEpisode W) → ℕ
  unfolding get
  survived [] = 0
  survived (e ∷ episodes) = or_zero (get e.terms "time_out") + survived episodes

  unfoldable pub survival : List (ComparisonEpisode W) → ℕ × ℕ
  unfolding survived
  survival episodes = (survived episodes, length episodes)
