-- ===== src/Exchange/Filling/Indexed.antt =====
-- Which columns the names of a joint order have.
use mc_mjlab.Prelude.{
  ℕ, zero, suc, ◌+◌, ◌<◌, String, true, false, none, some, List, [], ◌∷◌, ◌≡◌, inl, inr, refl, ap,
  ◌∙◌, arith, length, contains, str_eq, eq_iff, get_elem?, Option-cases, Bool-cases, ok,
  ok-injective,
}
use mc_mjlab.Exchange.{index}
use mc_mjlab.Exchange.Simulation.{sim_columns, ref_columns, target_columns}
use mc_mjlab.Exchange.Filling.Slots.{Result-cases, Distinct, NotIn, AllDistinct}

-- the name of a column
pub get_elem?-index :
    (n : String) (order : List String) (r : ℕ) → index n order ≡ some r → get_elem? order r ≡ some n
unfolding index
get_elem?-index n [] r e = cc e
get_elem?-index n (m ∷ order) r e = elim (Bool-cases (str_eq m n)) [
  | inl same ↦ ground (arith, eq_iff m n, same, e)
  | inr other ↦ elim (Option-cases (index n order)) [
    | inl out ↦ ground (arith, other, out, e)
    | inr (i, at) ↦ ground (arith, other, at, e, get_elem?-index n order i at)
  ]
]

index-injective :
    (n m : String) (order : List String) (r : ℕ)
    → index n order ≡ some r
    → index m order ≡ some r
    → n ≡ m
index-injective n m order r e g =
    ground (arith, get_elem?-index n order r e, get_elem?-index m order r g)

contains-index :
    (n : String) (order : List String) (r : ℕ) → index n order ≡ some r → contains n order ≡ true
unfolding index
contains-index n [] r e = cc e
contains-index n (m ∷ order) r e = elim (Bool-cases (str_eq m n)) [
  | inl same ↦ ground (arith, eq_iff m n, eq_iff n m, same)
  | inr other ↦ elim (Option-cases (index n order)) [
    | inl out ↦ ground (arith, other, out, e)
    | inr (i, at) ↦ ground (arith, contains-index n order i at)
  ]
]

contains-index-none :
    (n : String) (order : List String) → index n order ≡ none → contains n order ≡ false
unfolding index
contains-index-none n [] e = refl
contains-index-none n (m ∷ order) e = elim (Bool-cases (str_eq m n)) [
  | inl same ↦ ground (arith, same, e)
  | inr other ↦ elim (Option-cases (index n order)) [
    | inl out ↦ ground (arith, other, eq_iff m n, eq_iff n m, contains-index-none n order out)
    | inr (i, at) ↦ ground (arith, other, at, e)
  ]
]

pub get_elem?-lt {ℓ} :
    {A : Type ℓ} (xs : List A) (i : ℕ) {v : A} → get_elem? xs i ≡ some v → i < length xs
get_elem?-lt [] i e = cc e
get_elem?-lt (x ∷ xs) zero e = omega arith
get_elem?-lt (x ∷ xs) (suc i) e = omega (arith, get_elem?-lt xs i e)

module _ (order : List String) where
  -- the columns of a simulated joint stand at one position
  pub get_elem?-columns :
      (names : List String) (i s r : ℕ) (n : String)
      → get_elem? names s ≡ some n
      → index n order ≡ some r
      → (k : ℕ) × (get_elem? (ref_columns order names) k ≡ some r)
        × (get_elem? (sim_columns order i names) k ≡ some (i + s))
  unfolding ref_columns sim_columns
  get_elem?-columns [] i s r n e at = cc e
  get_elem?-columns (m ∷ names) i zero r n e at =
      let same : m ≡ n = cc e in
      let there : contains m order ≡ true = contains-index m order r (rw same at) in
      (0, ground (arith, same, at), ground (arith, there))
  get_elem?-columns (m ∷ names) i (suc s) r n e at =
      let (k, ref, sim) = get_elem?-columns names (suc i) s r n e at in
      elim (Option-cases (index m order)) [
        | inl out ↦
            (k, ground (arith, out, ref), ground (arith, contains-index-none m order out, sim))
        | inr (q, found) ↦
            (suc k, ground (arith, found, ref), ground (arith, contains-index m order q found, sim))
      ]

  pub ref_columns-NotIn :
      (names : List String) (r : ℕ) (n : String)
      → contains n names ≡ false
      → index n order ≡ some r
      → NotIn r (ref_columns order names)
  unfolding ref_columns
  ref_columns-NotIn [] r n out at = tt
  ref_columns-NotIn (m ∷ names) r n out at =
      let rest = ref_columns-NotIn names r n (ground (arith, out)) at in
      elim (Option-cases (index m order)) [
        | inl none_there ↦ rw none_there rest
        | inr (q, found) ↦ rw found (
          λ e. ground (arith, out, eq_iff n m, index-injective n m order r at (found ∙ ap some e)),
          rest,
        )
      ]

  pub ref_columns-AllDistinct :
      (names : List String) → Distinct names → AllDistinct (ref_columns order names)
  unfolding ref_columns
  ref_columns-AllDistinct [] d = tt
  ref_columns-AllDistinct (m ∷ names) (out, d) =
      let rest = ref_columns-AllDistinct names d in
      elim (Option-cases (index m order)) [
        | inl none_there ↦ rw none_there rest
        | inr (q, found) ↦ rw found (ref_columns-NotIn names q m out found, rest)
      ]

  -- every target is in the order
  pub target_columns-ref_columns :
      (names : List String) {ids : List ℕ}
      → target_columns order names ≡ ok ids
      → ids ≡ ref_columns order names
  unfolding target_columns ref_columns
  target_columns-ref_columns [] h = cc (ok-injective h)
  target_columns-ref_columns (m ∷ names) h = elim (Option-cases (index m order)) [
    | inl out ↦ ground (arith, out, h)
    | inr (q, found) ↦ elim (Result-cases (target_columns order names)) [
      | inl (rest, e) ↦ ground (arith, found, e, h, target_columns-ref_columns names e)
      | inr (raised, e) ↦ ground (arith, found, e, h)
    ]
  ]

  pub get_elem?-target_columns :
      (names : List String) (t r : ℕ) (n : String) {ids : List ℕ}
      → target_columns order names ≡ ok ids
      → get_elem? names t ≡ some n
      → index n order ≡ some r
      → get_elem? ids t ≡ some r
  unfolding target_columns
  get_elem?-target_columns [] t r n h e at = cc e
  get_elem?-target_columns (m ∷ names) t r n h e at = elim (Option-cases (index m order)) [
    | inl out ↦ ground (arith, out, h)
    | inr (q, found) ↦ elim (Result-cases (target_columns order names)) [
      | inl (rest, g) ↦
          at_position t r n q rest (ok-injective (rw (found, g) at h)) found e at
            (λ u w. get_elem?-target_columns names u r n g w at)
      | inr (raised, g) ↦ ground (arith, found, g, h)
    ]
  ]
    where
      at_position :
          (t r : ℕ) (n : String) (q : ℕ) (rest : List ℕ) {ids : List ℕ}
          → q ∷ rest ≡ ids
          → index m order ≡ some q
          → get_elem? (m ∷ names) t ≡ some n
          → index n order ≡ some r
          → ((u : ℕ) → get_elem? names u ≡ some n → get_elem? rest u ≡ some r)
          → get_elem? ids t ≡ some r
      at_position zero r n q rest same found e at later = ground (arith, same, found, e, at)
      at_position (suc u) r n q rest same found e at later = rw (← same) (later u e)
