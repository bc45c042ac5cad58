-- ===== src/Learner/Rates.antt =====
-- The rate that an update leaves.
use mc_mjlab.Prelude.{
  ok-injective, ◌>>◌, if◌then◌else◌, Bool, true, false, ◌≡◌, refl, ◌∙◌, ap, Option, none, some,
  List, [], ◌∷◌, ok, err, arith, Result,
}
use mc_mjlab.Prelude.Dict.{Dict}
use mc_mjlab.Float.{Float, IsOrdered, Le}
use mc_mjlab.ActorMask.{require_complete}
use mc_mjlab.Learner.{
  Learner, Cluster, least_rate, most_rate, factor, next_learning_rate, set_groups, Optimiser,
  adaptive_target, optimise, adapt_learning_rate, adapted, scheduled, measured, checked,
  fixed_under, with_kl, update_policy_from, update_policy, update_fraction,
}

set_groups-set_groups {ℓ} :
    {W : Type ℓ} (rate : W) (gs : List W)
    → set_groups rate (set_groups rate gs) ≡ set_groups rate gs
unfolding set_groups
set_groups-set_groups rate [] = refl
set_groups-set_groups rate (g ∷ gs) = ap (λ r. rate ∷ r) (set_groups-set_groups rate gs)

-- a guard that passes leaves what both branches leave
guarded :
    {W : Type 0} {s : Learner W} (l counted : Learner W) (has_source : Bool) (r : Result (Unit {0}))
    → counted.learning_rate ≡ l.learning_rate
    → counted.group_rates ≡ l.group_rates
    → counted.schedule ≡ l.schedule
    → (if has_source then (r >> ok counted) else ok l) ≡ ok s
    → (s.learning_rate ≡ l.learning_rate)
      × (s.group_rates ≡ l.group_rates)
      × (s.schedule ≡ l.schedule)
guarded l counted true (ok u) a b c h = let e = ok-injective h in (cc (a, e), cc (b, e), cc (c, e))
guarded l counted true (err raised) a b c h = cc
guarded l counted false r a b c h = let e = ok-injective h in (cc e, cc e, cc e)

module _ {W : Type 0} ⦃f : Float W⦄ where
  -- the rate is between the bounds, and every group of the optimizer has it
  unfoldable pub IsSettled : Learner W → Type 0
  IsSettled l =
      Le least_rate l.learning_rate
      × Le l.learning_rate most_rate
      × (set_groups l.learning_rate l.group_rates ≡ l.group_rates)

  -- The library changes the rate only on an adaptive schedule.
  abbrev pub KeepsFixedRate : Optimiser W → Type 0
  KeepsFixedRate base =
      (l : Learner W)
      → adaptive_target l ≡ none
      → ((base l).0.learning_rate ≡ l.learning_rate) × ((base l).0.group_rates ≡ l.group_rates)

module _ {W : Type 0} ⦃f : Float W⦄ (laws : IsOrdered W) where
  next_learning_rate_bounds :
      (rate kl desired : W)
      → Le least_rate rate
      → Le rate most_rate
      → Le (f.div rate factor) rate
      → Le rate (f.mul rate factor)
      → Le least_rate (next_learning_rate rate kl desired)
        × Le (next_learning_rate rate kl desired) most_rate
  unfolding next_learning_rate
  next_learning_rate_bounds rate kl desired l u shrinks grows =
      let (least, _) = laws.refl_of_le least_rate rate l in
      let (_, most) = laws.refl_of_le rate most_rate u in
      let ordered = laws.le_trans least_rate rate most_rate l u in
      let (lower, _) = laws.refl_of_le (f.div rate factor) rate shrinks in
      let (_, upper) = laws.refl_of_le rate (f.mul rate factor) grows in
      ground (
        arith,
        laws.le_trans (f.div rate factor) rate most_rate,
        laws.le_trans least_rate rate (f.mul rate factor),
        laws.lt_of least_rate (f.div rate factor),
        laws.lt_of (f.mul rate factor) most_rate,
        laws.le_total least_rate (f.div rate factor),
        laws.le_total (f.mul rate factor) most_rate,
      )

  module _ (shrinks : (r : W) → Le least_rate r → Le r most_rate → Le (f.div r factor) r)
      (grows : (r : W) → Le least_rate r → Le r most_rate → Le r (f.mul r factor)) (c : Cluster W)
      (alone : c.is_multi_gpu ≡ false) where
    adapted-IsSettled :
        (target : Option W) (kl : W) (l : Learner W)
        → IsSettled l
        → IsSettled (adapted c target kl l)
    unfolding IsSettled adapted adapt_learning_rate
    adapted-IsSettled none kl l h = h
    adapted-IsSettled (some desired) kl l (a, b, e) =
        let (lower, upper) =
          next_learning_rate_bounds l.learning_rate kl desired a b (shrinks l.learning_rate a b)
            (grows l.learning_rate a b) in
        ground (
          arith,
          lower,
          upper,
          alone,
          set_groups-set_groups (adapt_learning_rate c kl desired l).learning_rate l.group_rates,
        )

    adapted_schedule :
        (target : Option W) (kl : W) (l : Learner W) → (adapted c target kl l).schedule ≡ l.schedule
    unfolding adapted adapt_learning_rate
    adapted_schedule none kl l = refl
    adapted_schedule (some desired) kl l = refl

    with_kl-IsSettled :
        (target : Option W) (losses : Dict W) (l : Learner W) (kl : Result W)
        → IsSettled l
        → IsSettled ((with_kl c target losses l kl).0)
          × ((with_kl c target losses l kl).0.schedule ≡ l.schedule)
    unfolding with_kl scheduled IsSettled
    with_kl-IsSettled target losses l (err raised) h = (h, refl)
    with_kl-IsSettled target losses l (ok kl) h =
        let started = record l { last_schedule_kl = kl } in
        (adapted-IsSettled target kl started h, adapted_schedule target kl started)

    measured-IsSettled :
        (kl : Learner W → Result W) (target : Option W) (r : Learner W × Result (Dict W))
        → IsSettled (r.0)
        → IsSettled ((measured kl c target r).0)
          × ((measured kl c target r).0.schedule ≡ r.0.schedule)
    unfolding measured
    measured-IsSettled kl target (l, err raised) h = (h, refl)
    measured-IsSettled kl target (l, ok losses) h = with_kl-IsSettled target losses l (kl l) h

    fixed_lem :
        (l : Learner W) (target : Option W)
        → adaptive_target l ≡ target
        → adaptive_target (record l { schedule = fixed_under target l.schedule }) ≡ none
    unfolding adaptive_target fixed_under
    fixed_lem l none e = e
    fixed_lem l (some desired) e = refl

    optimise-IsSettled :
        (base : Optimiser W) (l : Learner W)
        → KeepsFixedRate base
        → IsSettled l
        → IsSettled ((optimise base (fixed_under (adaptive_target l) l.schedule) l).0)
    unfolding optimise IsSettled
    optimise-IsSettled base l keeps h =
        let (rate, groups) = keeps _ (fixed_lem l (adaptive_target l) refl) in
        let (lower, upper, same) = h in
        (cc (rate, lower), cc (rate, upper), cc (rate, groups, same))

    update_policy_from-IsSettled :
        (base : Optimiser W) (kl : Learner W → Result W) (l : Learner W) (r : Result (Learner W))
        → KeepsFixedRate base
        → IsSettled l
        → ((s : Learner W) → r ≡ ok s → IsSettled s × (s.schedule ≡ l.schedule))
        → IsSettled ((update_policy_from base kl c l r).0)
          × ((update_policy_from base kl c l r).0.schedule ≡ l.schedule)
    unfolding update_policy_from optimise
    update_policy_from-IsSettled base kl l (err raised) keeps h found = (h, refl)
    update_policy_from-IsSettled base kl l (ok s) keeps h found =
        let (settled, schedule) = found s refl in
        let (rest, same) =
          measured-IsSettled kl (adaptive_target s)
            (optimise base (fixed_under (adaptive_target s) s.schedule) s)
            (optimise-IsSettled base s keeps settled) in
        (rest, same ∙ schedule)

    checked-IsSettled :
        (l s : Learner W) → checked l ≡ ok s → IsSettled l → IsSettled s × (s.schedule ≡ l.schedule)
    unfolding checked IsSettled
    checked-IsSettled l s e h =
        let counted = record l { last_actor_update_fraction = update_fraction l.masks } in
        let (rate, groups, schedule) =
          guarded l counted l.masks.has_source (require_complete l.step l.masks) refl refl refl e in
        let (lower, upper, same) = h in
        ((cc (rate, lower), cc (rate, upper), cc (rate, groups, same)), schedule)

    -- Whatever an update on one processor ends in, the rate is still between its bounds and in
    -- every group of the optimizer, and the schedule is the configured one. The library's
    -- optimisation is taken to change the rate only on an adaptive schedule, dividing by 1.5 not to
    -- increase a rate within the bounds and multiplying not to decrease it.
    pub update_policy-IsSettled :
        (base : Optimiser W) (kl : Learner W → Result W) (l : Learner W)
        → KeepsFixedRate base
        → IsSettled l
        → IsSettled ((update_policy base kl c l).0)
          × ((update_policy base kl c l).0.schedule ≡ l.schedule)
    unfolding update_policy
    update_policy-IsSettled base kl l keeps h =
        update_policy_from-IsSettled base kl l (checked l) keeps h
          (λ s e. checked-IsSettled l s e h)
