-- ===== src/Evaluation/Recording/Numbered.antt =====
-- The arms of a comparison are balanced, where no episode is dropped.
use mc_mjlab.Prelude.{
  String, ℕ, ◌<◌, ◌≡◌, inl, inr, Bool, true, false, not, List, [], ◌∷◌, refl, arith, All, ==_iff,
  Bool-cases,
}
use mc_mjlab.Evaluation.Arms.{Arm, trimmed}
use mc_mjlab.Evaluation.Arms.Trimmed.{IsNumbered, Mem, count_of, trimmed-IsBalanced}
use mc_mjlab.Evaluation.Arms.Trimmed
use mc_mjlab.Evaluation.Recording.{
  Finished, bump, is_dropped, episode_of, episodes_of, own_ids, run_both,
}

All-Mem {κ} : (P : ℕ → Type κ) (ids : List ℕ) → ((i : ℕ) → Mem i ids → P i) → All P ids
All-Mem P [] h = tt
All-Mem P (i ∷ ids) h = (h i (inl refl), All-Mem P ids (λ j m. h j (inr m)))

module _ {W : Type 0} where
  episodes_of-IsNumbered :
      (skip_steps : ℕ) (is_own : ℕ → Bool) (done : List (Finished W)) (counter start : ℕ → ℕ)
      → All (λ (d : Finished W). skip_steps < d.duration) done
      → ((i : ℕ) → is_own i ≡ true → start i ≡ counter i)
      → IsNumbered start (episodes_of skip_steps is_own counter done)
  unfolding episodes_of is_dropped episode_of
  episodes_of-IsNumbered skip_steps is_own [] counter start longer agree = tt
  episodes_of-IsNumbered skip_steps is_own (d ∷ done) counter start (long, longer) agree =
      let kept : is_dropped skip_steps d ≡ false = ground (arith, long) in
      elim (Bool-cases (is_own d.env_id)) [
        | inl own ↦
            rw (kept, own)
              (
                ground (arith, agree d.env_id own),
                episodes_of-IsNumbered skip_steps is_own done (bump counter d.env_id)
                    (Trimmed.bump start d.env_id) longer (λ i e. ground (arith, agree i e)),
              )
        | inr other ↦
            rw (kept, other)
              (episodes_of-IsNumbered skip_steps is_own done (bump counter d.env_id) start longer
                (λ i e. ground (arith, agree i e, ==_iff d.env_id i, other, e)))
      ]

  balanced :
      (skip_steps : ℕ) (is_own : ℕ → Bool) (ids : List ℕ) (steps : ℕ) (label : String)
      (done : List (Finished W))
      → All (λ (d : Finished W). skip_steps < d.duration) done
      → let arm : Arm W = record {
        label = label;
        env_ids = ids;
        episodes = episodes_of skip_steps is_own (λ i. 0) done;
        steps = steps;
      } in
        All (λ i. count_of i (trimmed arm).0 ≡ (trimmed arm).1) ids
  balanced skip_steps is_own ids steps label done longer = All-Mem _ ids (λ i m.
      trimmed-IsBalanced _ i
        (episodes_of-IsNumbered skip_steps is_own done (λ i. 0) (λ i. 0) longer (λ i e. refl)) m)

  -- Where every episode outlasts the skip, the episodes of an arm that are compared are as many for
  -- each of its environments, for both arms.
  pub run_both-IsBalanced :
      (skip_steps : ℕ) (is_policy : ℕ → Bool) (env_ids policy_ids : List ℕ) (steps : ℕ)
      (done : List (Finished W))
      → All (λ (d : Finished W). skip_steps < d.duration) done
      → let arms = run_both skip_steps is_policy env_ids policy_ids steps done in
        All (λ i. count_of i (trimmed arms.0).0 ≡ (trimmed arms.0).1) arms.0.env_ids
        × All (λ i. count_of i (trimmed arms.1).0 ≡ (trimmed arms.1).1) arms.1.env_ids
  unfolding run_both
  run_both-IsBalanced skip_steps is_policy env_ids policy_ids steps done longer = (
    balanced skip_steps (λ i. not (is_policy i)) (own_ids (λ i. not (is_policy i)) env_ids) steps
        "baseline" done longer,
    balanced skip_steps is_policy policy_ids steps "policy" done longer,
  )
