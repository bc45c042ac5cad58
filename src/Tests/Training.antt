-- ===== src/Tests/Training.antt =====
-- Recovery bursts, the episode-length ladder, impulses and actor masks on concrete inputs.
use mc_mjlab.Prelude.{
  Option, ◌≤◌, ◌+◌, true, false, none, some, List, [], ◌∷◌, ◌≡◌, ◌⊎◌, inl, refl, arith, length, ok,
}
use mc_mjlab.Float.{Milli, milli, Milli-IsOrdered, Le}
use mc_mjlab.Recovery.{RecoveryCalibration, RecoveryFilter, Reading, filter_authority, update}
use mc_mjlab.Recovery.Bursts.{IsBounded, elapsed, burst_bound}
use mc_mjlab.Ladder.{Ladder, validated_weights, make_ladder, call}
use mc_mjlab.Ladder.Steps.{IsOnLadder, call-IsOnLadder, make_ladder-IsOnLadder}
use mc_mjlab.ActorMask.{Masks, make, record_actor_update_mask, record_all}
use mc_mjlab.Learner.{
  Learner, Cluster, Optimiser, update_policy, adaptive_target, least_rate, most_rate, factor,
  set_groups,
}
use mc_mjlab.Learner.Rates.{IsSettled, KeepsFixedRate, update_policy-IsSettled}

abbrev calibration : RecoveryCalibration Milli
calibration = record {
  centers = some 0 ∷ [];
  scales = some 1000 ∷ [];
  threshold = some 500;
  activation_span = some 500;
  attack_s = some 100;
  decay_tau_s = some 500;
  cutoff = some 1;
  max_active_s = some 1750;
  rearm_s = some 250;
  rearm_score = some 500;
  onset_delta = some 35;
}

-- armed, with a reading before
abbrev armed : RecoveryFilter Milli
armed = record {
  authority = some 0;
  active_age = some 0;
  quiet_age = some 300;
  active = false;
  armed = true;
  previous_onset = some 0;
  primed = true;
}

abbrev hit : Reading Milli
hit = record { score = some 2000; onset_signal = some 100; target = some 1000 }

armed-IsBounded : IsBounded calibration armed
armed-IsBounded = record {
  young = λ h. refl;
  disarmed = λ h. cc h;
  silent = λ h. refl;
  cut = inl refl;
}

burst_bound_example : milli.le (some 1750) (elapsed (some 20) 2) ≡ false
unfolding update filter_authority
burst_bound_example =
    burst_bound calibration (some 20) armed hit (hit ∷ []) armed-IsBounded refl ((tt, refl), refl)

abbrev mixtures : List (List Milli)
mixtures = (some 250 ∷ some 750 ∷ some 0 ∷ []) ∷ (some 250 ∷ some 250 ∷ some 500 ∷ []) ∷ []

abbrev ladder : Ladder Milli
ladder = record {
  bands = 2;
  band_weights = some 250 ∷ some 750 ∷ some 0 ∷ [];
  mixtures = mixtures;
  stage = 0;
  smoothed = none;
}

ladder_made : make_ladder (some 0) 2 (some 0 ∷ some 0 ∷ some 1000 ∷ []) mixtures ≡ ok ladder
unfolding make_ladder validated_weights
ladder_made = refl

make_ladder-IsOnLadder_example :
    IsOnLadder (some 0) ladder × (ladder.stage ≡ 0) × (2 ≤ length ladder.mixtures)
make_ladder-IsOnLadder_example =
    make_ladder-IsOnLadder (some 0) 2 (some 0 ∷ some 0 ∷ some 1000 ∷ []) mixtures ladder_made

call-IsOnLadder_example :
    (l : Ladder Milli) × (call
        (some 0)
        (some 650)
        (some 450)
        (some 20)
        (some (some 900000))
        (some 1000000)
        ladder
      ≡ ok l)
    × IsOnLadder (some 0) l
    × ((l.stage ≡ 0) ⊎ (((l.stage ≡ 0 + 1) ⊎ (l.stage + 1 ≡ 0)) × (l.smoothed ≡ none)))
call-IsOnLadder_example =
    call-IsOnLadder (some 0) (some 650) (some 450) (some 20) (some (some 900000)) (some 1000000)
      ladder make_ladder-IsOnLadder_example.0 refl

abbrev masks : Masks
masks = make 2 1 false

abbrev recorded : Masks
recorded = record {
  rows = (true ∷ []) ∷ (false ∷ []) ∷ [];
  steps = 2;
  num_envs = 1;
  num_transitions = 2;
  has_source = false;
  normalize_per_mini_batch = false;
}

-- on an adaptive schedule
abbrev learner : Learner Milli
learner = record {
  masks = record recorded { has_source = true };
  step = 2;
  learning_rate = some 3;
  group_rates = some 3 ∷ some 3 ∷ [];
  schedule = "adaptive";
  desired_kl = some (some 10);
  last_schedule_kl = none;
  last_actor_update_fraction = some 1000;
}

abbrev processor : Cluster Milli
processor = record { is_multi_gpu = false; gpu_global_rank = 0; broadcast = λ r. r }

rate_after : Option Milli → Milli → Milli
rate_after none rate = rate
rate_after (some desired) rate = some 0

-- spoils the rate where the schedule is adaptive, and leaves what it does not own
abbrev optimiser : Optimiser Milli
unfolding rate_after
optimiser l = (
  record l { learning_rate = rate_after (adaptive_target l) l.learning_rate },
  ok (("surrogate", some 5) ∷ []),
)

optimiser_keeps : KeepsFixedRate optimiser
unfolding rate_after
optimiser_keeps l e = (cc e, refl)

-- the divergence is above twice the target: the rate is divided by 1.5
rate_divided : update_policy optimiser (λ l. ok (some 30)) processor learner ≡ (
  record learner {
    learning_rate = some 2;
    group_rates = some 2 ∷ some 2 ∷ [];
    last_schedule_kl = some 30;
    last_actor_update_fraction = some 500;
    masks = record learner.masks { steps = 0 };
  },
  ok (("surrogate", some 5) ∷ ("schedule_kl", some 30) ∷ []),
)
unfolding update_policy make record_all record_actor_update_mask optimiser
rate_divided = refl

divide_shrinks : (r : Milli) → Le least_rate r → Le r most_rate → Le (milli.div r factor) r
divide_shrinks none l u = cc l
divide_shrinks (some r) l u = ground arith

multiply_grows : (r : Milli) → Le least_rate r → Le r most_rate → Le r (milli.mul r factor)
multiply_grows none l u = cc l
multiply_grows (some r) l u = ground arith

learner-IsSettled : IsSettled learner
unfolding IsSettled set_groups
learner-IsSettled = (refl, refl, refl)

update_policy-IsSettled_example :
    IsSettled ((update_policy optimiser (λ l. ok (some 30)) processor learner).0)
    × ((update_policy optimiser (λ l. ok (some 30)) processor learner).0.schedule ≡ "adaptive")
update_policy-IsSettled_example =
    update_policy-IsSettled Milli-IsOrdered divide_shrinks multiply_grows processor refl optimiser
      (λ l. ok (some 30)) learner optimiser_keeps learner-IsSettled
