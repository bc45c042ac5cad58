-- ===== src/Evaluation/Arms/Trimmed.antt =====
-- Every environment has as many of the episodes that are compared.
use mc_mjlab.Prelude.{
  ℕ, ◌+◌, ◌≤◌, some, List, [], ◌∷◌, ◌≡◌, ◌⊎◌, inl, inr, refl, arith, ◌==◌, if◌then◌else◌, ==_iff,
}
use mc_mjlab.Evaluation.Arms.{
  ComparisonEpisode, Arm, PerEnv, count_at, put_count, larger, smaller, or_zero, from_keys,
  record_last, first_episodes, least_count, trim, trimmed,
}

-- the episodes of each environment are numbered as they are recorded
abbrev pub bump : (ℕ → ℕ) → ℕ → ℕ → ℕ
bump start i j = if i == j then start j + 1 else start j

module _ {W : Type 0} where
  abbrev pub IsNumbered : (ℕ → ℕ) → List (ComparisonEpisode W) → Type 0
  IsNumbered start [] = Unit
  IsNumbered start (e ∷ episodes) =
      (e.nth ≡ start e.env_id) × IsNumbered (bump start e.env_id) episodes

  unfoldable pub count_of : ℕ → List (ComparisonEpisode W) → ℕ
  count_of i [] = 0
  count_of i (e ∷ episodes) = (if e.env_id == i then 1 else 0) + count_of i episodes

count_at-put_count :
    (d : PerEnv) (i j n : ℕ)
    → count_at (put_count d i n) j ≡ (if i == j then some n else count_at d j)
unfolding count_at put_count
count_at-put_count [] i j n = refl
count_at-put_count ((k, m) ∷ d) i j n = ground (arith, count_at-put_count d i j n)

abbrev pub Mem : ℕ → List ℕ → Type 0
Mem i [] = ⊥
Mem i (j ∷ ids) = (i ≡ j) ⊎ Mem i ids

from_keys_kept :
    (ids : List ℕ) (d : PerEnv) (i : ℕ)
    → count_at d i ≡ some 0
    → count_at (from_keys ids d) i ≡ some 0
unfolding from_keys
from_keys_kept [] d i h = h
from_keys_kept (j ∷ ids) d i h =
    from_keys_kept ids (put_count d j 0) i (ground (arith, count_at-put_count d j i 0, h))

from_keys_lem :
    (ids : List ℕ) (d : PerEnv) (i : ℕ) → Mem i ids → count_at (from_keys ids d) i ≡ some 0
unfolding from_keys
from_keys_lem [] d i m = absurd m
from_keys_lem (j ∷ ids) d i (inl same) =
    from_keys_kept ids (put_count d j 0) i (ground (arith, count_at-put_count d j i 0, same))
from_keys_lem (j ∷ ids) d i (inr m) = from_keys_lem ids (put_count d j 0) i m

empty : (i : ℕ) {c : ℕ} → count_at [] i ≡ some c → ⊥
unfolding count_at
empty i e = cc e

least_count-le : (d : PerEnv) (i n c m : ℕ) → count_at ((i, n) ∷ d) m ≡ some c → least_count n d ≤ c
unfolding count_at least_count
least_count-le [] i n c m e = ground (arith, e)
least_count-le ((j, k) ∷ d) i n c m e = ground (arith, least_count-le d j k c m, e)

module _ {W : Type 0} where
  record_last_lem :
      (es : List (ComparisonEpisode W)) (d : PerEnv) (start : ℕ → ℕ) (i : ℕ)
      → IsNumbered start es
      → count_at d i ≡ some (start i)
      → count_at (record_last es d) i ≡ some (start i + count_of i es)
  unfolding record_last count_of
  record_last_lem [] d start i h e = ground (arith, e)
  record_last_lem (x ∷ es) d start i (numbered, h) e =
      let j = x.env_id in
      let next = larger (or_zero (count_at d j)) (x.nth + 1) in
      let moved : count_at (put_count d j next) i ≡ some (bump start j i) =
        ground (arith, count_at-put_count d j i next, ==_iff j i, e, numbered) in
      ground (arith, record_last_lem es (put_count d j next) (bump start j) i h moved)

  first_episodes_lem :
      (es : List (ComparisonEpisode W)) (start : ℕ → ℕ) (k i : ℕ)
      → IsNumbered start es
      → count_of i (first_episodes k es) + smaller k (start i) ≡ smaller k (start i + count_of i es)
  unfolding first_episodes count_of
  first_episodes_lem [] start k i h = ground arith
  first_episodes_lem (x ∷ es) start k i (numbered, h) =
      ground (arith, first_episodes_lem es (bump start x.env_id) k i h, ==_iff x.env_id i, numbered)

  trim_lem :
      (d : PerEnv) (es : List (ComparisonEpisode W)) (i : ℕ)
      → IsNumbered (λ j. 0) es
      → count_at d i ≡ some (0 + count_of i es)
      → count_of i (trim d es).0 ≡ (trim d es).1
  unfolding trim
  trim_lem [] es i h e = absurd (empty i e)
  trim_lem ((j, n) ∷ d) es i h e = ground (
    arith,
    first_episodes_lem es (λ j. 0) (least_count n d) i h,
    least_count-le d j n (0 + count_of i es) i e,
  )

  -- In an arm whose episodes are numbered as each environment finishes them, every environment of
  -- the arm has the returned number of the episodes that are compared, those that finished none
  -- too.
  pub trimmed-IsBalanced :
      (a : Arm W) (i : ℕ)
      → IsNumbered (λ j. 0) a.episodes
      → Mem i a.env_ids
      → count_of i (trimmed a).0 ≡ (trimmed a).1
  unfolding trimmed
  trimmed-IsBalanced a i h m =
      trim_lem (record_last a.episodes (from_keys a.env_ids [])) a.episodes i h (
        record_last_lem a.episodes (from_keys a.env_ids []) (λ j. 0) i h
          (from_keys_lem a.env_ids [] i m))
