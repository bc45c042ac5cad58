-- ===== src/Tests/Evaluation.antt =====
-- Statistics, paired comparisons and verdicts on concrete inputs.
use mc_mjlab.Prelude.{
  ℕ, suc, ◌%◌, ◌==◌, ◌<◌, ◌+◌, ◌-◌, ◌*◌, ◌/◌, ◌≤◌, ℤ, pos, negsuc, leb_ℤ, not, String, Bool, true,
  none, some, List, [], ◌∷◌, ◌≡◌, refl, zero, if◌then◌else◌, Result, ok, arith, false,
}
use mc_mjlab.Prelude.Dict.{Dict}
use mc_mjlab.Float.{Float, Milli, milli, Milli-IsOrdered}
use mc_mjlab.Evaluation.Statistics.{Stats}
use mc_mjlab.Evaluation.Comparing.{Episode, Comparison, Paired, episode_value}
use mc_mjlab.Evaluation.Holm.{sorted_finite, adjust}
use mc_mjlab.Evaluation.Holm.Adjusted.{IsAscending, IsAdjusted, AreProbabilities, holm_bounds}
use mc_mjlab.Evaluation.Schedule.{begin, finish_episodes}
use mc_mjlab.Evaluation.Schedule.Complete.{rounds, finish_episodes_complete}
use mc_mjlab.Evaluation.Strata.{Cell, Diagnostics, Reading, no_scalars, no_joint_sums}
use mc_mjlab.Evaluation.Disturbances.Paired.{push_seed-injective}
use mc_mjlab.Evaluation.Promotion.{Summary, Verdict}

abbrev stats : Milli → Stats Milli
stats p = record {
  mean = some 0;
  sem = some 10;
  ci_low = some 0;
  ci_high = some 20;
  p = p;
  clusters = some 4000;
  p_holm = none;
}

abbrev compared : ℕ → ℕ → Milli → Comparison Milli
compared baseline policy p = record {
  baseline = some baseline;
  policy = some policy;
  paired = stats p;
  relative = some 0;
  clusters = 4;
}

abbrev family : Dict (Comparison Milli)
family =
    ("dcm_error", compared 1000 900 (some 40))
    ∷ ("zmp_error", compared 1000 900 none)
    ∷ ("foot_slip", compared 1000 900 (some 10))
    ∷ []

abbrev any_order : String → String → Bool
any_order a b = true

family_probable : AreProbabilities family
unfolding AreProbabilities
family_probable = ((λ h. (refl, refl)), ((λ h. cc h), ((λ h. (refl, refl)), tt)))

grows :
    (n : ℕ) (p : Milli)
    → 1 ≤ n
    → (milli.le (some 0) p ≡ true) × (milli.le p (some 1000) ≡ true)
    → milli.le p (milli.mul (some (n * 1000)) p) ≡ true
grows n none h k = ground arith
grows zero (some a) h k = elim h [ ]
grows (suc n) (some a) h k = ground arith

holm_bounds_example :
    IsAscending (sorted_finite any_order family)
    × IsAdjusted
        (some 0)
        (sorted_finite any_order family)
        (adjust (some 0) 2 0 (sorted_finite any_order family))
unfolding sorted_finite
holm_bounds_example = holm_bounds Milli-IsOrdered any_order family grows family_probable

-- thousandths, with a sign
abbrev opposite : ℤ → ℤ
opposite (pos (suc n)) = negsuc n
opposite (pos zero) = pos 0
opposite (negsuc n) = pos (suc n)

abbrev scale : (ℕ → ℕ → ℕ) → ℤ → ℤ → ℤ
scale g (pos a) (pos b) = pos (g a b)
scale g (negsuc a) (pos b) = opposite (pos (g (suc a) b))
scale g a (negsuc b) = pos 0

instance abbrev signed : Float ℤ
signed = record {
  le = leb_ℤ;
  lt = λ a b. not (leb_ℤ b a);
  add = λ a b. scale (λ m n. m + n) a b;
  sub = λ a b. scale (λ m n. m - n) a b;
  mul = scale (λ m n. m * n / 1000);
  div = scale (λ m n. m * 1000 / n);
  neg = opposite;
  abs = λ a. if leb_ℤ (pos 0) a then a else opposite a;
  sqrt = λ a. a;
  exp_neg = λ a. a;
  of_ℕ = λ n. pos (n * 1000);
  nan = pos 0;
  is_finite = λ a. true;
  pow = λ a n. a;
  sum = λ xs. pos 0;
  erfc = λ a. a;
  to_int = λ a. ok 1;
  infinity = pos 1000000000;
}

abbrev episode : ℕ → String → ℕ → Episode Milli
episode pair arm falls = record {
  scenario = "finite_impulse";
  seed = 1;
  env_id = 2;
  pair = pair;
  arm = arm;
  steps = 600;
  terminations = ("fell_over", falls) ∷ [];
  metrics = [];
}

-- a pair, and a baseline without its policy
abbrev episodes : List (Episode Milli)
episodes = episode 0 "baseline" 0 ∷ episode 0 "policy" 1 ∷ episode 1 "baseline" 0 ∷ []

abbrev value : Episode Milli → Result Milli
value e = episode_value 500 e "hazard"

abbrev one_pair : Paired Milli
one_pair = record {
  baseline_values = some 0 ∷ [];
  policy_values = some 1000 ∷ [];
  env_differences = ((1, 2), some 1000 ∷ []) ∷ [];
}

abbrev gated : Summary Milli
gated = record {
  hazard = compared 500 400 none;
  pre_disturbance_hazard = compared 0 0 none;
  worker_failure = compared 0 0 none;
  recovery_dcm_error = compared 1000 900 none;
  com_velocity_error = compared 1000 900 none;
  zmp_error = compared 1000 900 none;
  foot_slip = compared 1000 900 none;
  projection_fraction = compared 0 0 none;
  near_bound_fraction = compared 0 0 none;
  max_effort_ratio = compared 800 800 none;
  gate_duty = compared 0 20 none;
  residual_rms = compared 0 100 none;
}

abbrev summaries : Dict (Summary Milli)
summaries = ("nominal", gated) ∷ ("robust", gated) ∷ []

abbrev verdict : Verdict Milli
verdict = record {
  reasons = [];
  eligible = true;
  recovery_gain = none;
  negative_hazard = none;
  negative_residual = none;
  hazard_ratio = some 800;
  invalidated_scenarios = [];
}

-- environment 3 begins with the policy
finish_episodes_complete_example :
    ((j : ℕ) → j < 4 → (finish_episodes 2 j (begin 3)).active ≡ true)
    × ((extra : ℕ)
        → (let t = finish_episodes 2 (2 + 2 + extra) (begin 3) in
            (t.active ≡ false) × (t.episodes ≡ rounds (3 % 2 == 1) 0 2)))
finish_episodes_complete_example = finish_episodes_complete 2 3 (ground arith)

schedule_3 :
    (finish_episodes 2 4 (begin 3)).episodes ≡ (true, 0) ∷ (false, 0) ∷ (true, 1) ∷ (false, 1) ∷ []
unfolding finish_episodes begin
schedule_3 = refl

abbrev empty_cell : Cell Milli
empty_cell = record {
  count = 0;
  sums = no_scalars;
  effort_ratio_max = some 0;
  joint_sums = no_joint_sums ∷ [];
}

abbrev no_exposure : Diagnostics Milli
no_exposure = record {
  cells = empty_cell ∷ empty_cell ∷ empty_cell ∷ empty_cell ∷ empty_cell ∷ empty_cell ∷ [];
  last_stratum = 0;
}

abbrev step_at : ℕ → ℕ → Reading Milli
step_at steps age = record {
  episode_steps = steps;
  push_age = age;
  push_velocity = (some 100, some 300);
  scalars = no_scalars;
  joints =
      record {
        requested = some 500;
        executed_normalized = some 400;
        executed_physical = some 40;
        is_projected = false;
        effort = some 300;
      }
      ∷ [];
}

push_seed-injective_example : (◌≡◌ {A = ℕ} 2 2) × (◌≡◌ {A = ℕ} 5 5) × (◌≡◌ {A = ℕ} 1 1)
push_seed-injective_example =
    push_seed-injective 42 2 2 5 5 1 1 "robust" (ground arith) (ground arith) (ground arith)
      (ground arith) refl
