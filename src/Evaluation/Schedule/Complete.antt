-- ===== src/Evaluation/Schedule/Complete.antt =====
-- The schedule ends with every pair complete.
use mc_mjlab.Prelude.{
  ℕ, zero, suc, ◌+◌, ◌%◌, ◌≤◌, ◌<◌, Bool, true, false, not, List, [], ◌∷◌, ◌++◌, ◌≡◌, refl, ◌∙◌, ap,
  arith, ◌==◌, if◌then◌else◌,
}
use mathlib.Core.List.{append_assoc}
use mc_mjlab.Evaluation.Schedule.{Slot, Schedule, begin, finish_episode, finish_episodes}

-- each pair from `k` on in both arms
pub rounds : Bool → ℕ → ℕ → List Slot
rounds first k zero = []
rounds first k (suc m) = (first, k) ∷ (not first, k) ∷ rounds first (k + 1) m

-- `k` pairs are complete, and the next one begins
record IsRound (first : Bool) (k : ℕ) (s : Schedule) : Type 0 where
  is_active : s.active ≡ true
  arm : s.current_policy ≡ first
  slot : s.pair ≡ k
  baselines : s.baseline_count ≡ k
  policies : s.policy_count ≡ k

-- its first episode is done
record IsHalf (first : Bool) (k : ℕ) (s : Schedule) : Type 0 where
  is_active : s.active ≡ true
  arm : s.current_policy ≡ not first
  slot : s.pair ≡ k
  own : (if first then s.policy_count else s.baseline_count) ≡ k + 1
  other : (if first then s.baseline_count else s.policy_count) ≡ k

IsRound-finish_episode :
    (n : ℕ) (first : Bool) (k : ℕ) (s : Schedule)
    → k < n
    → IsRound first k s
    → IsHalf first k (finish_episode n s)
      × ((finish_episode n s).episodes ≡ s.episodes ++ (first, k) ∷ [])
unfolding finish_episode
IsRound-finish_episode n true k s h r =
    ground (arith, r.is_active, r.arm, r.slot, r.baselines, r.policies)
IsRound-finish_episode n false k s h r =
    ground (arith, r.is_active, r.arm, r.slot, r.baselines, r.policies)

IsHalf-finish_episode :
    (n : ℕ) (first : Bool) (k : ℕ) (s : Schedule)
    → k < n
    → IsHalf first k s
    → (k + 1 < n → IsRound first (k + 1) (finish_episode n s))
      × (k + 1 ≡ n → (finish_episode n s).active ≡ false)
      × ((finish_episode n s).episodes ≡ s.episodes ++ (not first, k) ∷ [])
unfolding finish_episode
IsHalf-finish_episode n true k s h r = ground (arith, r.is_active, r.arm, r.slot, r.own, r.other)
IsHalf-finish_episode n false k s h r = ground (arith, r.is_active, r.arm, r.slot, r.own, r.other)

-- nothing happens once the environment stopped
idle : (n : ℕ) (s : Schedule) → s.active ≡ false → finish_episode n s ≡ s
unfolding finish_episode
idle n s h = ground (arith, h)

stopped : (n m : ℕ) (s : Schedule) → s.active ≡ false → finish_episodes n m s ≡ s
unfolding finish_episodes
stopped n zero s h = refl
stopped n (suc m) s h = ap (finish_episodes n m) (idle n s h) ∙ stopped n m s h

-- m + m + extra
doubled : ℕ → ℕ → ℕ
doubled zero extra = extra
doubled (suc m) extra = suc (suc (doubled m extra))

doubled_sum : (m extra : ℕ) → doubled m extra ≡ m + m + extra
unfolding doubled
doubled_sum zero extra = omega arith
doubled_sum (suc m) extra = omega (arith, doubled_sum m extra)

-- a pair is complete
both_arms :
    (n : ℕ) (first : Bool) (k : ℕ) (s : Schedule)
    → k < n
    → IsRound first k s
    → (let t = finish_episode n (finish_episode n s) in
        (k + 1 < n → IsRound first (k + 1) t)
        × (k + 1 ≡ n → t.active ≡ false)
        × (t.episodes ≡ s.episodes ++ ((first, k) ∷ (not first, k) ∷ [])))
both_arms n first k s l r =
    let (half, one) = IsRound-finish_episode n first k s l r in
    let (goes, ends, two) = IsHalf-finish_episode n first k (finish_episode n s) l half in
    (
      goes,
      ends,
      two
          ∙ ap (λ l. l ++ (not first, k) ∷ []) one
          ∙ append_assoc s.episodes ((first, k) ∷ []) ((not first, k) ∷ []),
    )

-- from a round on, the pairs that are left and then nothing more
rounds_left :
    (n m extra : ℕ) (first : Bool) (k : ℕ) (s : Schedule)
    → k + suc m ≡ n
    → IsRound first k s
    → (let t = finish_episodes n (doubled (suc m) extra) s in
        (t.active ≡ false) × (t.episodes ≡ s.episodes ++ rounds first k (suc m)))
unfolding finish_episodes rounds doubled
rounds_left n zero extra first k s e r =
    let (_, ends, both) = both_arms n first k s (omega (arith, e)) r in
    let over = ends (omega (arith, e)) in
    rw (stopped n extra (finish_episode n (finish_episode n s)) over) (over, both)
rounds_left n (suc j) extra first k s e r =
    let (goes, _, both) = both_arms n first k s (omega (arith, e)) r in
    let (over, rest) =
      rounds_left n j extra first (k + 1) (finish_episode n (finish_episode n s)) (omega (arith, e))
        (goes (omega (arith, e))) in
    (
      over,
      rest
          ∙ ap (λ l. l ++ rounds first (k + 1) (suc j)) both
          ∙ append_assoc s.episodes ((first, k) ∷ (not first, k) ∷ [])
              (rounds first (k + 1) (suc j)),
    )

-- while pairs are left the environment is active
still_active :
    (n m j : ℕ) (first : Bool) (k : ℕ) (s : Schedule)
    → k + m ≡ n
    → j < doubled m 0
    → IsRound first k s
    → (finish_episodes n j s).active ≡ true
unfolding finish_episodes doubled
still_active n zero j first k s e l r = absurd (omega (arith, l))
still_active n (suc m) zero first k s e l r = r.is_active
still_active n (suc m) (suc zero) first k s e l r =
    (IsRound-finish_episode n first k s (omega (arith, e)) r).0.is_active
still_active n (suc zero) (suc (suc j)) first k s e l r = absurd (omega (arith, l))
still_active n (suc (suc m)) (suc (suc j)) first k s e l r =
    let (goes, _, _) = both_arms n first k s (omega (arith, e)) r in
    still_active n (suc m) j first (k + 1) (finish_episode n (finish_episode n s))
      (omega (arith, e)) (omega (arith, l)) (goes (omega (arith, e)))

IsRound-begin : (env_id : ℕ) → IsRound (env_id % 2 == 1) 0 (begin env_id)
unfolding begin
IsRound-begin env_id = record {
  is_active = refl;
  arm = refl;
  slot = refl;
  baselines = refl;
  policies = refl;
}

-- With `n` episodes for each arm, `n` at least one, an environment is active until exactly `2 * n`
-- of its episodes are done, and has then recorded every pair below `n` once in each arm, and no
-- other.
pub finish_episodes_complete :
    (n env_id : ℕ)
    → 1 ≤ n
    → ((j : ℕ) → j < n + n → (finish_episodes n j (begin env_id)).active ≡ true)
      × ((extra : ℕ)
          → (let t = finish_episodes n (n + n + extra) (begin env_id) in
              (t.active ≡ false) × (t.episodes ≡ rounds (env_id % 2 == 1) 0 n)))
unfolding begin
finish_episodes_complete zero env_id h = absurd (omega arith)
finish_episodes_complete (suc m) env_id h = (
  λ j l.
      still_active (suc m) (suc m) j _ 0 (begin env_id) (omega arith)
        (omega (arith, l, doubled_sum (suc m) 0)) (IsRound-begin env_id),
  λ extra.
      rw (← doubled_sum (suc m) extra)
        (rounds_left (suc m) m extra _ 0 (begin env_id) (omega arith) (IsRound-begin env_id)),
)
