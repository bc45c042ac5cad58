-- ===== src/Exchange/Filling/Slots.antt =====
-- Which columns a write leaves, and the columns of a shifted block.
use mc_mjlab.Prelude.{
  ℕ, zero, suc, ◌+◌, ◌<◌, String, false, Option, none, some, List, [], ◌∷◌, ◌≡◌, ◌≢◌, ◌⊎◌, inl, inr,
  refl, ◌∙◌, arith, length, contains, set, get_elem?, get_elem?-set, length-set, Result, Raised, ok,
  err,
}
use mc_mjlab.Exchange.{write_span}
use mc_mjlab.Action.Residual.{scatter, gather}
use mc_mjlab.Exchange.Filling.{shift}

abbrev pub Distinct : List String → Type 0
Distinct [] = Unit
Distinct (n ∷ names) = (contains n names ≡ false) × Distinct names

abbrev pub NotIn : ℕ → List ℕ → Type 0
NotIn c [] = Unit
NotIn c (i ∷ ids) = (i ≢ c) × NotIn c ids

abbrev pub AllDistinct : List ℕ → Type 0
AllDistinct [] = Unit
AllDistinct (i ∷ ids) = NotIn i ids × AllDistinct ids

pub Result-cases {ℓ} :
    {A : Type ℓ} (r : Result A) → ((a : A) × (r ≡ ok a)) ⊎ ((e : Raised) × (r ≡ err e))
Result-cases (ok a) = inl (a, refl)
Result-cases (err e) = inr (e, refl)

module _ {ℓ} {A : Type ℓ} where
  pub length-scatter :
      (ids : List ℕ) (vs full : List A) → length (scatter ids vs full) ≡ length full
  unfolding scatter
  length-scatter [] vs full = refl
  length-scatter (i ∷ ids) [] full = refl
  length-scatter (i ∷ ids) (v ∷ vs) full =
      length-scatter ids vs (set full i v) ∙ length-set full i v

  pub scatter_elsewhere :
      (c : ℕ) (ids : List ℕ) (vs full : List A)
      → NotIn c ids
      → get_elem? (scatter ids vs full) c ≡ get_elem? full c
  unfolding scatter
  scatter_elsewhere c [] vs full h = refl
  scatter_elsewhere c (i ∷ ids) [] full h = refl
  scatter_elsewhere c (i ∷ ids) (v ∷ vs) full (ne, h) =
      ground (arith, scatter_elsewhere c ids vs (set full i v) h, get_elem?-set full i c v, ne)

  pub scatter_at :
      (ids : List ℕ) (vs full : List A) (k c : ℕ) (v : A)
      → AllDistinct ids
      → get_elem? ids k ≡ some c
      → get_elem? vs k ≡ some v
      → c < length full
      → get_elem? (scatter ids vs full) c ≡ some v
  unfolding scatter
  scatter_at [] vs full k c v d e g h = cc e
  scatter_at (i ∷ ids) [] full k c v d e g h = cc g
  scatter_at (i ∷ ids) (w ∷ vs) full zero c v (out, d) e g h =
      ground
        (arith, scatter_elsewhere i ids vs (set full i w) out, get_elem?-set full i c w, e, g, h)
  scatter_at (i ∷ ids) (w ∷ vs) full (suc k) c v (out, d) e g h =
      scatter_at ids vs (set full i w) k c v d e g (ground (arith, length-set full i w, h))

  pub write_span_before :
      (start c : ℕ) (xs full : List A)
      → c < start
      → get_elem? (write_span start xs full) c ≡ get_elem? full c
  unfolding write_span
  write_span_before start c xs [] h = refl
  write_span_before zero c xs (r ∷ full) h = elim h [ ]
  write_span_before (suc start) zero xs (r ∷ full) h = refl
  write_span_before (suc start) (suc c) xs (r ∷ full) h =
      write_span_before start c xs full (omega arith)

  -- from the first column on
  pub write_span_from :
      (c : ℕ) (xs full : List A)
      → get_elem? (write_span 0 xs full) c ≡ elim (get_elem? full c) as (λ _. Option A) [
        | none ↦ none
        | some old ↦ elim (get_elem? xs c) as (λ _. Option A) [ none ↦ some old | some x ↦ some x ]
      ]
  unfolding write_span
  write_span_from c xs [] = refl
  write_span_from zero [] (r ∷ full) = refl
  write_span_from zero (x ∷ xs) (r ∷ full) = refl
  write_span_from (suc c) [] (r ∷ full) = ground arith
  write_span_from (suc c) (x ∷ xs) (r ∷ full) = write_span_from c xs full

  pub get_elem?-gather :
      (fallback : A) (ids : List ℕ) (full : List A) (k c : ℕ) (v : A)
      → get_elem? ids k ≡ some c
      → get_elem? full c ≡ some v
      → get_elem? (gather fallback ids full) k ≡ some v
  unfolding gather
  get_elem?-gather fallback [] full k c v e g = cc e
  get_elem?-gather fallback (i ∷ ids) full zero c v e g = ground (arith, e, g)
  get_elem?-gather fallback (i ∷ ids) full (suc k) c v e g =
      get_elem?-gather fallback ids full k c v e g

pub shift-NotIn_before : (offset c : ℕ) (ids : List ℕ) → c < offset → NotIn c (shift offset ids)
unfolding shift
shift-NotIn_before offset c [] h = tt
shift-NotIn_before offset c (i ∷ ids) h = (λ e. omega (arith, e), shift-NotIn_before offset c ids h)

pub shift-NotIn :
    (offset c : ℕ) (ids : List ℕ) → NotIn c ids → NotIn (offset + c) (shift offset ids)
unfolding shift
shift-NotIn offset c [] h = tt
shift-NotIn offset c (i ∷ ids) (ne, h) = (λ e. ne (omega (arith, e)), shift-NotIn offset c ids h)

pub shift-AllDistinct :
    (offset : ℕ) (ids : List ℕ) → AllDistinct ids → AllDistinct (shift offset ids)
unfolding shift
shift-AllDistinct offset [] h = tt
shift-AllDistinct offset (i ∷ ids) (out, h) =
    (shift-NotIn offset i ids out, shift-AllDistinct offset ids h)

pub get_elem?-shift :
    (offset : ℕ) (ids : List ℕ) (k c : ℕ)
    → get_elem? ids k ≡ some c
    → get_elem? (shift offset ids) k ≡ some (offset + c)
unfolding shift
get_elem?-shift offset [] k c e = cc e
get_elem?-shift offset (i ∷ ids) zero c e = ground (arith, e)
get_elem?-shift offset (i ∷ ids) (suc k) c e = get_elem?-shift offset ids k c e

pub get_elem?-shift_zero :
    (ids : List ℕ) (k c : ℕ) → get_elem? ids k ≡ some c → get_elem? (shift 0 ids) k ≡ some c
get_elem?-shift_zero ids k c e = ground (arith, get_elem?-shift 0 ids k c e)

pub shift_zero-NotIn : (c : ℕ) (ids : List ℕ) → NotIn c ids → NotIn c (shift 0 ids)
unfolding shift
shift_zero-NotIn c [] h = tt
shift_zero-NotIn c (i ∷ ids) (ne, h) = (λ e. ne (omega (arith, e)), shift_zero-NotIn c ids h)
