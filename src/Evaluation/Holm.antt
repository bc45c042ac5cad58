-- ===== src/Evaluation/Holm.antt =====
-- `holm_adjust` (scripts/evaluation/qualification.py).
pub mod Adjusted
use mc_mjlab.Prelude.{
  ℕ, ◌+◌, ◌-◌, suc, String, Bool, true, false, not, ◌&&◌, ◌||◌, Option, none, some, List, [], ◌∷◌,
  if◌then◌else◌, length, str_eq,
}
use mc_mjlab.Prelude.Dict.{Dict, get, put}
use mc_mjlab.Float.{Float, nothing, same}
use mc_mjlab.Evaluation.Statistics.{Stats}
use mc_mjlab.Evaluation.Comparing.{Comparison}

-- `name_le` is Python's order on strings
module _ {W : Type 0} ⦃f : Float W⦄ (name_le : String → String → Bool) where
  -- (p, name) <= (q, other), as Python compares tuples
  unfoldable pub tuple_le : W × String → W × String → Bool
  tuple_le (p, name) (q, other) = if same p q then name_le name other else f.lt p q

  unfoldable pub insert_sorted : W × String → List (W × String) → List (W × String)
  unfolding tuple_le
  insert_sorted x [] = x ∷ []
  insert_sorted x (y ∷ ys) = if tuple_le x y then x ∷ y ∷ ys else y ∷ insert_sorted x ys

  -- the finite p-values with their names, sorted
  unfoldable pub sorted_finite : Dict (Comparison W) → List (W × String)
  unfolding insert_sorted
  sorted_finite [] = []
  sorted_finite ((name, c) ∷ rest) =
      let sorted = sorted_finite rest in
      if f.is_finite c.paired.p then insert_sorted (c.paired.p, name) sorted else sorted

module _ {W : Type 0} ⦃f : Float W⦄ where
  -- Python's `max(a, b)` and `min(a, b)`
  abbrev pub larger : W → W → W
  larger a b = if f.lt a b then b else a

  abbrev pub smaller : W → W → W
  smaller a b = if f.lt b a then b else a

  -- the loop from `rank` on
  unfoldable pub adjust : W → ℕ → ℕ → List (W × String) → List (String × W)
  adjust running total rank [] = []
  adjust running total rank ((p, name) ∷ rest) =
      let next = larger running (smaller (f.of_ℕ 1) (f.mul (f.of_ℕ (total - rank)) p)) in
      (name, next) ∷ adjust next total (rank + 1) rest

  abbrev with_holm : W → Comparison W → Comparison W
  with_holm x c = record c { paired = record c.paired { p_holm = some x } }

  -- summary[name]["paired"]["p_holm"] = running, for each
  unfoldable pub attach : List (String × W) → Dict (Comparison W) → Dict (Comparison W)
  attach [] summary = summary
  attach ((name, x) ∷ rest) summary =
      attach rest
        (elim (get summary name) [ none ↦ summary | some c ↦ put summary name (with_holm x c) ])

  unfoldable pub holm_adjust : (String → String → Bool) → Dict (Comparison W) → Dict (Comparison W)
  unfolding sorted_finite adjust attach
  holm_adjust name_le summary =
      let sorted = sorted_finite name_le summary in
      attach (adjust nothing (length sorted) 0 sorted) summary
