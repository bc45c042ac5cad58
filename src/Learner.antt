-- ===== src/Learner.antt =====
-- `RolloutAdaptivePPO.update` (rl/rollout_adaptive_ppo.py): the library's optimisation at a fixed
-- rate, then one change of the rate. The library's `update`, the measured divergence and the
-- broadcast of a rate are arguments.
pub mod Rates
use mc_mjlab.Prelude.{
  ℕ, ◌+◌, ◌*◌, Bool, true, false, ◌&&◌, ◌==◌, Option, none, some, List, [], ◌∷◌, String, str_eq,
  if◌then◌else◌, length, Result, Raised, ok, err, ◌>>◌,
}
use mc_mjlab.Prelude.Dict.{Dict, put}
use mc_mjlab.Float.{Float, ratio, nothing}
use mc_mjlab.ActorMask.{Masks, require_complete, restart}

-- what `update` reads and writes; `group_rates` is "lr" in each of the optimizer's groups
pub record Learner (W : Type 0) : Type 0 where
  pub masks : Masks
  pub step : ℕ
  pub learning_rate : W
  pub group_rates : List W
  pub schedule : String
  pub desired_kl : Option W
  pub last_schedule_kl : W
  pub last_actor_update_fraction : W

-- the processes that train together
pub record Cluster (W : Type 0) : Type 0 where
  pub is_multi_gpu : Bool
  pub gpu_global_rank : ℕ
  pub broadcast : W → W

-- the library's `update`, which may raise after it has changed the learner
abbrev pub Optimiser : Type 0 → Type 0
Optimiser W = Learner W → Learner W × Result (Dict W)

count_row : List Bool → ℕ
count_row [] = 0
count_row (b ∷ row) = (if b then 1 else 0) + count_row row

-- `masks.sum()`
unfoldable pub count_active : List (List Bool) → ℕ
unfolding count_row
count_active [] = 0
count_active (row ∷ rows) = count_row row + count_active rows

-- `masks.numel()`
unfoldable pub numel : List (List Bool) → ℕ
numel [] = 0
numel (row ∷ rows) = length row + numel rows

-- `group["lr"] = rate` in each group
unfoldable pub set_groups {ℓ} : {W : Type ℓ} → W → List W → List W
set_groups rate [] = []
set_groups rate (old ∷ groups) = rate ∷ set_groups rate groups

-- `super().update()` and the `finally` after it
unfoldable pub optimise :
    {W : Type 0} → Optimiser W → String → Learner W → Learner W × Result (Dict W)
optimise base schedule l =
    let (after, losses) = base (record l { schedule = schedule }) in
    (record after { schedule = l.schedule }, losses)

unfoldable pub adaptive_target : {W : Type 0} → Learner W → Option W
adaptive_target l = if str_eq l.schedule "adaptive" then l.desired_kl else none

module _ {W : Type 0} ⦃f : Float W⦄ where
  abbrev pub least_rate : W
  least_rate = ratio 1 100000

  abbrev pub most_rate : W
  most_rate = ratio 1 100

  abbrev pub factor : W
  factor = ratio 3 2

  -- Python's `max` and `min` of two keep the first unless the second is beyond it
  unfoldable pub next_learning_rate : W → W → W → W
  next_learning_rate rate kl desired =
      if f.lt (f.mul desired (f.of_ℕ 2)) kl
      then if f.lt least_rate (f.div rate factor) then f.div rate factor else least_rate
      else if f.lt nothing kl && f.lt kl (f.div desired (f.of_ℕ 2))
      then if f.lt (f.mul rate factor) most_rate then f.mul rate factor else most_rate
      else rate

  unfoldable pub adapt_learning_rate : Cluster W → W → W → Learner W → Learner W
  unfolding next_learning_rate set_groups
  adapt_learning_rate c kl desired l =
      let own =
        if c.gpu_global_rank == 0
        then next_learning_rate l.learning_rate kl desired
        else l.learning_rate in
      let rate = if c.is_multi_gpu then c.broadcast own else own in
      record l { learning_rate = rate; group_rates = set_groups rate l.group_rates }

  -- `_adapt_learning_rate`, where the schedule is adaptive
  unfoldable pub adapted : Cluster W → Option W → W → Learner W → Learner W
  unfolding adapt_learning_rate
  adapted c none kl l = l
  adapted c (some desired) kl l = adapt_learning_rate c kl desired l

  -- what is done once the losses are there
  unfoldable pub scheduled :
      Cluster W → Option W → W → Dict W → Learner W → Learner W × Result (Dict W)
  unfolding adapted restart put
  scheduled c target kl losses l =
      let next = adapted c target kl (record l { last_schedule_kl = kl }) in
      (record next { masks = restart next.masks }, ok (put losses "schedule_kl" kl))

  unfoldable pub with_kl :
      Cluster W → Option W → Dict W → Learner W → Result W → Learner W × Result (Dict W)
  unfolding scheduled
  with_kl c target losses l (err raised) = (l, err raised)
  with_kl c target losses l (ok kl) = scheduled c target kl losses l

  unfoldable pub measured :
      (Learner W → Result W)
      → Cluster W
      → Option W
      → Learner W × Result (Dict W)
      → Learner W × Result (Dict W)
  unfolding with_kl
  measured full_rollout_kl c target (l, err raised) = (l, err raised)
  measured full_rollout_kl c target (l, ok losses) = with_kl c target losses l (full_rollout_kl l)

  -- the share of active steps
  unfoldable pub update_fraction : Masks → W
  unfolding count_active numel
  update_fraction m = f.div (f.of_ℕ (count_active m.rows)) (f.of_ℕ (numel m.rows))

  unfoldable pub checked : Learner W → Result (Learner W)
  unfolding require_complete update_fraction
  checked l =
      if l.masks.has_source
      then (require_complete l.step l.masks
          >> ok (record l { last_actor_update_fraction = update_fraction l.masks }))
      else ok l

  unfoldable pub fixed_under : Option W → String → String
  fixed_under none schedule = schedule
  fixed_under (some desired) schedule = "fixed"

  unfoldable pub update_policy_from :
      Optimiser W
      → (Learner W → Result W)
      → Cluster W
      → Learner W
      → Result (Learner W)
      → Learner W × Result (Dict W)
  unfolding measured optimise adaptive_target fixed_under
  update_policy_from base full_rollout_kl c l (err raised) = (l, err raised)
  update_policy_from base full_rollout_kl c l (ok started) =
      let target = adaptive_target started in
      measured full_rollout_kl c target
        (optimise base (fixed_under target started.schedule) started)

  unfoldable pub update_policy :
      Optimiser W → (Learner W → Result W) → Cluster W → Learner W → Learner W × Result (Dict W)
  unfolding checked update_policy_from
  update_policy base full_rollout_kl c l = update_policy_from base full_rollout_kl c l (checked l)
