-- ===== src/Tests/Comparison.antt =====
-- The comparison of arms on concrete episodes.
use mc_mjlab.Prelude.{ℕ, Bool, List, [], ◌∷◌, ◌≡◌, refl, arith, All, ◌==◌}
use mc_mjlab.Float.{Milli, milli}
use mc_mjlab.Evaluation.Arms.{trimmed}
use mc_mjlab.Evaluation.Arms.Trimmed.{count_of}
use mc_mjlab.Evaluation.Recording.{Finished, run_both}
use mc_mjlab.Evaluation.Recording.Numbered.{run_both-IsBalanced}

abbrev finished : ℕ → ℕ → Finished Milli
finished env_id duration = record {
  env_id = env_id;
  duration = duration;
  terms = ("time_out", 1) ∷ [];
  rewards = [];
}

-- environment 1 has the policy
abbrev is_policy : ℕ → Bool
is_policy i = i == 1

abbrev done : List (Finished Milli)
done =
    finished 0 30
    ∷ finished 1 20
    ∷ finished 0 25
    ∷ finished 2 50
    ∷ finished 1 40
    ∷ finished 0 9
    ∷ []

run_both-IsBalanced_example :
    let arms = run_both 5 is_policy (0 ∷ 1 ∷ 2 ∷ []) (1 ∷ []) 90 done in
    All (λ i. count_of i (trimmed arms.0).0 ≡ (trimmed arms.0).1) (0 ∷ 2 ∷ [])
    × All (λ i. count_of i (trimmed arms.1).0 ≡ (trimmed arms.1).1) (1 ∷ [])
unfolding run_both
run_both-IsBalanced_example =
    run_both-IsBalanced 5 is_policy (0 ∷ 1 ∷ 2 ∷ []) (1 ∷ []) 90 done (omega arith)

-- with two and one episodes, one of each environment is compared
compared : (trimmed (run_both 5 is_policy (0 ∷ 1 ∷ 2 ∷ []) (1 ∷ []) 90 done).0).1 ≡ 1
unfolding run_both trimmed
compared = refl

-- A first episode that the skip drops is counted: two episodes of environment 0 are compared with
-- one of environment 2, and its first one is not among them.
abbrev dropped : List (Finished Milli)
dropped = finished 2 4 ∷ finished 0 30 ∷ finished 0 25 ∷ finished 2 50 ∷ []

imbalance :
    let (compared_episodes, k) =
      trimmed (run_both 5 is_policy (0 ∷ 1 ∷ 2 ∷ []) (1 ∷ []) 90 dropped).0 in
    (k ≡ 2) × (count_of 0 compared_episodes ≡ 2) × (count_of 2 compared_episodes ≡ 1)
unfolding run_both trimmed count_of
imbalance = (refl, refl, refl)
