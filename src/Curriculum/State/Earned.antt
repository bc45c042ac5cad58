-- ===== src/Curriculum/State/Earned.antt =====
-- What a curriculum that started at stage zero has earned, and what a rollback goes back to.
use mc_mjlab.Prelude.{
  ℕ, ◌+◌, ◌-◌, ◌<◌, String, Bool, true, false, Option, some, ◌≡◌, arith, get_elem?, pos, leb_ℤ, ok,
  get_elem?-set,
}
use mc_mjlab.Curriculum.State.Bounds.{IsValid, apply_qualification-IsValid}
use mc_mjlab.Curriculum.State.{
  AchievementState, QualificationEvidence, AchievementDecision, apply_qualification, initial,
  rolled_back,
}

-- a slot that holds a checkpoint
abbrev pub is_kept : Option (Option String) → Bool
is_kept (some (some c)) = true
is_kept _ = false

-- Every stage below the active one was passed, and every passed stage has its checkpoint.
pub record IsEarned (s : AchievementState) : Type 0 where
  pub valid : IsValid s
  pub climbed : (k : ℕ) → k < s.current_stage → leb_ℤ (pos k) s.highest_passed_stage ≡ true
  pub kept :
      (k : ℕ)
      → leb_ℤ (pos k) s.highest_passed_stage ≡ true
      → is_kept (get_elem? s.qualified_checkpoints k) ≡ true

-- A new curriculum is earned.
pub IsEarned-initial : IsEarned (initial 0)
IsEarned-initial = record {
  valid = ground arith;
  climbed = λ k h. absurd (omega arith);
  kept = λ k h. ground arith;
}

module _ (s : AchievementState) (e : QualificationEvidence) where
  climbed_step :
      {d : AchievementDecision} (v : IsEarned s)
      → apply_qualification s e ≡ ok d
      → (k : ℕ) → k < d.state.current_stage
      → leb_ℤ (pos k) d.state.highest_passed_stage ≡ true
  unfolding apply_qualification
  climbed_step v h k lt = ground (arith, v.climbed k, v.valid)

  kept_step :
      {d : AchievementDecision} (v : IsEarned s)
      → apply_qualification s e ≡ ok d
      → (k : ℕ) → leb_ℤ (pos k) d.state.highest_passed_stage ≡ true
      → is_kept (get_elem? d.state.qualified_checkpoints k) ≡ true
  unfolding apply_qualification
  kept_step v h k le = ground (
    arith,
    v.kept k,
    v.climbed k,
    v.valid,
    get_elem?-set s.qualified_checkpoints s.current_stage k (some e.checkpoint),
  )

-- From an earned state, every report that is applied leaves an earned state: no stage is entered
-- without its predecessors, and the checkpoint of every passed stage is still recorded.
pub apply_qualification-IsEarned :
    (s : AchievementState) (e : QualificationEvidence) {d : AchievementDecision}
    → IsEarned s
    → apply_qualification s e ≡ ok d
    → IsEarned d.state
apply_qualification-IsEarned s e v h = record {
  valid = apply_qualification-IsValid s e v.valid h;
  climbed = climbed_step s e v h;
  kept = kept_step s e v h;
}

-- From an earned state, a report that rolls the curriculum back goes down one stage, to a stage
-- whose recorded checkpoint becomes the last good one.
pub rollback_target :
    (s : AchievementState) (e : QualificationEvidence) {d : AchievementDecision}
    → IsEarned s
    → apply_qualification s e ≡ ok d
    → d.event ≡ rolled_back
    → (s.current_stage ≡ d.state.current_stage + 1)
      × (is_kept (some d.state.last_good_checkpoint) ≡ true)
      × (get_elem? s.qualified_checkpoints d.state.current_stage
          ≡ some d.state.last_good_checkpoint)
unfolding apply_qualification
rollback_target s e v h r =
    ground (arith, v.valid, v.climbed (s.current_stage - 1), v.kept (s.current_stage - 1))
