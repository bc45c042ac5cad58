-- ===== src/Evaluation/Holm/Adjusted.antt =====
-- What Holm's adjustment makes of the p-values.
use mc_mjlab.Prelude.{
  ℕ, ◌+◌, ◌-◌, ◌≤◌, String, Bool, true, false, List, [], ◌∷◌, ◌≡◌, refl, arith, length, All,
  if-rule,
}
use mc_mjlab.Prelude.Dict.{Dict}
use mc_mjlab.Float.{Float, IsOrdered, Le, nothing}
use mc_mjlab.Evaluation.Comparing.{Comparison}
use mc_mjlab.Evaluation.Holm.{tuple_le, insert_sorted, sorted_finite, larger, smaller, adjust}

module _ {W : Type 0} ⦃f : Float W⦄ where
  abbrev pub IsProbability : W → Type 0
  IsProbability p = Le nothing p × Le p (f.of_ℕ 1)

  -- the finite p-values are probabilities
  unfoldable pub AreProbabilities : Dict (Comparison W) → Type 0
  AreProbabilities [] = Unit
  AreProbabilities ((name, c) ∷ rest) =
      (f.is_finite c.paired.p ≡ true → IsProbability c.paired.p) × AreProbabilities rest

  abbrev pub IsAscending : List (W × String) → Type 0
  IsAscending [] = Unit
  IsAscending (x ∷ xs) = All (λ (y : W × String). Le x.0 y.0) xs × IsAscending xs

  -- Each name keeps its place, with a value that is at least its p-value and the values before it,
  -- and at most one.
  abbrev pub IsAdjusted : W → List (W × String) → List (String × W) → Type 0
  IsAdjusted running [] [] = Unit
  IsAdjusted running (x ∷ xs) ((name, a) ∷ rest) =
      (name ≡ x.1) × Le x.0 a × Le running a × Le a (f.of_ℕ 1) × IsAdjusted a xs rest
  IsAdjusted running _ _ = ⊥

module _ {W : Type 0} ⦃f : Float W⦄ (laws : IsOrdered W) (name_le : String → String → Bool) where
  tuple_le-cases :
      (x y : W × String)
      → Le x.0 x.0
      → Le y.0 y.0
      → (tuple_le name_le x y ≡ true → Le x.0 y.0) × (tuple_le name_le x y ≡ false → Le y.0 x.0)
  unfolding tuple_le
  tuple_le-cases (p, name) (q, other) h k = (
    ground (arith, laws.lt_of p q h k, laws.le_total p q h k),
    ground (arith, laws.lt_of p q h k, laws.le_total p q h k),
  )

  insert_sorted-All :
      (P : W × String → Type 0) (x : W × String) (ys : List (W × String))
      → P x
      → All P ys
      → All P (insert_sorted name_le x ys)
  unfolding insert_sorted
  insert_sorted-All P x [] p ps = (p, ps)
  insert_sorted-All P x (y ∷ ys) p (q, qs) =
      if-rule (All P) (tuple_le name_le x y) (λ e. (p, (q, qs)))
        (λ e. (q, insert_sorted-All P x ys p qs))

  below :
      (x y : W × String) (ys : List (W × String))
      → Le x.0 y.0
      → All (λ (z : W × String). Le y.0 z.0) ys
      → All (λ (z : W × String). Le x.0 z.0) ys
  below x y [] h ps = tt
  below x y (z ∷ zs) h (p, ps) = (laws.le_trans x.0 y.0 z.0 h p, below x y zs h ps)

  insert_sorted-IsAscending :
      (x : W × String) (ys : List (W × String))
      → Le x.0 x.0
      → All (λ (y : W × String). Le y.0 y.0) ys
      → IsAscending ys
      → IsAscending (insert_sorted name_le x ys)
  unfolding insert_sorted
  insert_sorted-IsAscending x [] h k a = (tt, tt)
  insert_sorted-IsAscending x (y ∷ ys) h (k, ks) (b, a) =
      let (before, after) = tuple_le-cases x y h k in
      if-rule IsAscending (tuple_le name_le x y)
        (λ e. ((before e, below x y ys (before e) b), (b, a)))
        (λ e. (
          insert_sorted-All (λ z. Le y.0 z.0) x ys (after e) b,
          insert_sorted-IsAscending x ys h ks a,
        ))

  numbers :
      (ys : List (W × String))
      → All (λ (y : W × String). IsProbability y.0) ys
      → All (λ (y : W × String). Le y.0 y.0) ys
  numbers [] h = tt
  numbers (y ∷ ys) ((l, u), hs) = ((laws.refl_of_le _ _ l).1, numbers ys hs)

  sorted_finite-IsAscending :
      (summary : Dict (Comparison W))
      → AreProbabilities summary
      → IsAscending (sorted_finite name_le summary)
        × All (λ (y : W × String). IsProbability y.0) (sorted_finite name_le summary)
  unfolding sorted_finite AreProbabilities
  sorted_finite-IsAscending [] h = (tt, tt)
  sorted_finite-IsAscending ((name, c) ∷ rest) (h, hs) =
      let (a, ps) = sorted_finite-IsAscending rest hs in
      let sorted = sorted_finite name_le rest in
      if-rule (λ l. IsAscending l × All (λ (y : W × String). IsProbability y.0) l)
        (f.is_finite c.paired.p)
        (λ e. (
          insert_sorted-IsAscending (c.paired.p, name) sorted (laws.refl_of_le _ _ (h e).0).1
              (numbers sorted ps) a,
          insert_sorted-All (λ y. IsProbability y.0) (c.paired.p, name) sorted (h e) ps,
        ))
        (λ e. (a, ps))

module _ {W : Type 0} ⦃f : Float W⦄ (laws : IsOrdered W) where
  larger_bound :
      (a b c : W) → Le a c → Le b c → Le a (larger a b) × Le b (larger a b) × Le (larger a b) c
  larger_bound a b c h k =
      let (n, _) = laws.refl_of_le a c h in
      let (m, _) = laws.refl_of_le b c k in
      ground (arith, laws.lt_of a b n m, laws.le_total a b n m)

  smaller_bound : (p a b : W) → Le p a → Le p b → Le p (smaller a b) × Le (smaller a b) a
  smaller_bound p a b h k =
      let (_, n) = laws.refl_of_le p a h in
      let (_, m) = laws.refl_of_le p b k in
      ground (arith, laws.lt_of b a m n, laws.le_total a b n m)

  adjust-IsAdjusted :
      ((n : ℕ) (p : W) → 1 ≤ n → IsProbability p → Le p (f.mul (f.of_ℕ n) p))
      → (running : W) (total rank : ℕ) (entries : List (W × String)) → rank + length entries ≡ total
      → Le running (f.of_ℕ 1)
      → All (λ (y : W × String). IsProbability y.0) entries
      → IsAdjusted running entries (adjust running total rank entries)
  unfolding adjust
  adjust-IsAdjusted grows running total rank [] e r h = tt
  adjust-IsAdjusted grows running total rank (x ∷ xs) e r (h, hs) =
      let scaled = f.mul (f.of_ℕ (total - rank)) x.0 in
      let (s, s') =
        smaller_bound x.0 (f.of_ℕ 1) scaled h.1 (grows (total - rank) x.0 (omega (arith, e)) h) in
      let (a, b, c) = larger_bound running (smaller (f.of_ℕ 1) scaled) (f.of_ℕ 1) r s' in
      (
        refl,
        laws.le_trans _ _ _ s b,
        a,
        c,
        adjust-IsAdjusted grows (larger running (smaller (f.of_ℕ 1) scaled)) total (rank + 1) xs
            (omega (arith, e)) c hs,
      )

  -- The p-values that are reported together are adjusted in ascending order, each to a value that
  -- is at least its own p-value and every value before it, and at most one. They are probabilities
  -- where they are finite, and a probability is at most its positive multiples.
  pub holm_bounds :
      (name_le : String → String → Bool) (summary : Dict (Comparison W))
      → ((n : ℕ) (p : W) → 1 ≤ n → IsProbability p → Le p (f.mul (f.of_ℕ n) p))
      → AreProbabilities summary
      → (let sorted = sorted_finite name_le summary in
          IsAscending sorted × IsAdjusted nothing sorted (adjust nothing (length sorted) 0 sorted))
  holm_bounds name_le summary grows h =
      let (ascending, ps) = sorted_finite-IsAscending laws name_le summary h in
      (
        ascending,
        adjust-IsAdjusted grows nothing _ 0 _ (omega arith) (laws.of_ℕ_mono 0 1 (omega arith)) ps,
      )
