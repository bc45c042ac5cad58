-- ===== src/Robots/Collisions/Named.antt =====
-- The names after `name_remaining_collision_geoms`.
use Prim.Native.String.{◌++◌ as ◌+str◌}
use Prim.Native.String.append
use Prim.Native.Char.{Char}
use mc_mjlab.Prelude.{
  ℕ, zero, suc, String, true, false, some, List, [], ◌∷◌, ◌≡◌, inl, inr, refl, arith, All, length,
  contains, str_eq, eq_iff, Bool-cases,
}
use mc_mjlab.Exchange.Filling.Slots.{Distinct}
use mc_mjlab.Robots.Collisions.{
  Geom, is_collision_geom, names_of, Naming, free_name, collision_name, is_skipped, next_free,
  name_from, name_remaining_collision_geoms,
}
use mc_mjlab.Robots.Collisions.Fresh.{free_name_total, free_name-is_free}

-- which names are there
abbrev AreTaken : List String → List String → Type 0
AreTaken taken names = All (λ (n : String). contains n taken ≡ true) names

AreTaken-cons :
    (n : String) (taken names : List String) → AreTaken taken names → AreTaken (n ∷ taken) names
AreTaken-cons n taken [] h = tt
AreTaken-cons n taken (m ∷ names) (there, h) =
    (ground (arith, there), AreTaken-cons n taken names h)

contains-AreTaken :
    (n : String) (taken names : List String)
    → AreTaken taken names
    → contains n taken ≡ false
    → contains n names ≡ false
contains-AreTaken n taken [] h free = refl
contains-AreTaken n taken (m ∷ names) (there, h) free =
    ground (arith, contains-AreTaken n taken names h free, eq_iff n m, there, free)

AreTaken-self : (names : List String) → AreTaken names names
AreTaken-self [] = tt
AreTaken-self (n ∷ names) =
    (ground (arith, eq_iff n n), AreTaken-cons n names names (AreTaken-self names))

cons-ne-nil : (c : Char) (x : String) → str_eq (String.◌∷◌ c x) "" ≡ false
cons-ne-nil c x = elim (Bool-cases (str_eq (String.◌∷◌ c x) "")) [
  | inl same ↦ absurd (cons_apart ((eq_iff (String.◌∷◌ c x) "").0 same))
  | inr other ↦ other
]
  where
    cons_apart : String.◌∷◌ c x ≡ "" → ⊥
    cons_apart e = cc e

collision_name-ne-nil : (prefix : String) (g : Geom) → str_eq (collision_name prefix g) "" ≡ false
unfolding collision_name
collision_name-ne-nil String.[] g = rw (append.nil, append.cons) (cons-ne-nil _ _)
collision_name-ne-nil (String.◌∷◌ c p) g = rw append.cons (cons-ne-nil c _)

-- only names change, and only of collision geoms that had none
abbrev pub Renamed : List Geom → List Geom → Type 0
Renamed [] [] = Unit
Renamed (g ∷ spec) (h ∷ after) =
    (h ≡ record g { name = h.name }) × (is_skipped g ≡ true → h ≡ g) × Renamed spec after
Renamed _ _ = ⊥

pub record IsNamed (taken : List String) (spec after : List Geom) : Type 0 where
  pub distinct : Distinct (names_of after)
  pub apart :
      (n : String)
      → contains n taken ≡ true
      → contains n (names_of spec) ≡ false
      → contains n (names_of after) ≡ false
  pub named : All (λ (g : Geom). is_collision_geom g ≡ true → str_eq g.name "" ≡ false) after
  pub renamed : Renamed spec after

keep-IsNamed :
    (taken : List String) (g : Geom) (spec after : List Geom)
    → is_skipped g ≡ true
    → Distinct (names_of (g ∷ spec))
    → AreTaken taken (names_of (g ∷ spec))
    → (Distinct (names_of spec) → AreTaken taken (names_of spec) → IsNamed taken spec after)
    → IsNamed taken (g ∷ spec) (g ∷ after)
unfolding names_of is_skipped
keep-IsNamed taken g spec after skipped d t rest = elim (Bool-cases (str_eq g.name "")) [
  | inl unnamed ↦
      let r = rest (rw unnamed at d) (rw unnamed at t) in
      record {
        distinct = rw unnamed r.distinct;
        apart = λ n there out. rw unnamed (r.apart n there (rw unnamed at out));
        named = (λ c. absurd (ground (arith, unnamed, skipped, c)), r.named);
        renamed = (refl, λ _. refl, r.renamed);
      }
  | inr has_name ↦
      let (out, others) : (contains g.name (names_of spec) ≡ false) × Distinct (names_of spec) =
        rw has_name at d in
      let (there, are) : (contains g.name taken ≡ true) × AreTaken taken (names_of spec) =
        rw has_name at t in
      let r = rest others are in
      record {
        distinct = rw has_name (r.apart g.name there out, r.distinct);
        apart = λ n within out. ground (arith, has_name, out, r.apart n within);
        named = (λ c. has_name, r.named);
        renamed = (refl, λ _. refl, r.renamed);
      }
]

assign-IsNamed :
    (taken : List String) (g : Geom) (name : String) (spec after : List Geom)
    → is_skipped g ≡ false
    → str_eq name "" ≡ false
    → contains name taken ≡ false
    → Distinct (names_of (g ∷ spec))
    → AreTaken taken (names_of (g ∷ spec))
    → (Distinct (names_of spec)
        → AreTaken (name ∷ taken) (names_of spec)
        → IsNamed (name ∷ taken) spec after)
    → IsNamed taken (g ∷ spec) (record g { name = name } ∷ after)
unfolding names_of is_skipped
assign-IsNamed taken g name spec after chosen nonempty free d t rest =
    let unnamed : str_eq g.name "" ≡ true = ground (arith, chosen) in
    let are : AreTaken taken (names_of spec) = rw unnamed at t in
    let r = rest (rw unnamed at d) (AreTaken-cons name taken (names_of spec) are) in
    let out = contains-AreTaken name taken (names_of spec) are free in
    record {
      distinct = rw nonempty (r.apart name (ground (arith, eq_iff name name)) out, r.distinct);
      apart = λ n within absent.
          ground (arith, nonempty, unnamed, within, absent, free, eq_iff n name, r.apart n);
      named = (λ c. nonempty, r.named);
      renamed = (refl, λ e. absurd (cc (e, chosen)), r.renamed);
    }

rest-Distinct :
    (g : Geom) (spec : List Geom) → Distinct (names_of (g ∷ spec)) → Distinct (names_of spec)
unfolding names_of
rest-Distinct g spec d = elim (Bool-cases (str_eq g.name "")) [
  | inl e ↦ rw e at d
  | inr e ↦
      let both : (contains g.name (names_of spec) ≡ false) × Distinct (names_of spec) = rw e at d in
      both.1
]

rest-AreTaken :
    (g : Geom) (spec : List Geom) (taken : List String)
    → AreTaken taken (names_of (g ∷ spec))
    → AreTaken taken (names_of spec)
unfolding names_of
rest-AreTaken g spec taken t = elim (Bool-cases (str_eq g.name "")) [
  | inl e ↦ rw e at t
  | inr e ↦
      let both : (contains g.name taken ≡ true) × AreTaken taken (names_of spec) = rw e at t in
      both.1
]

append-ne-nil : (name x : String) → str_eq name "" ≡ false → str_eq (name +str x) "" ≡ false
append-ne-nil String.[] x h = absurd (ground (arith, eq_iff "" "", h))
append-ne-nil (String.◌∷◌ c name) x h = rw append.cons (cons-ne-nil c _)

module _ (decimal : ℕ → String) where
  next_free-ne-nil :
      (fuel suffix : ℕ) (name : String) (taken : List String) (n : String)
      → next_free decimal fuel suffix name taken ≡ some n
      → str_eq name "" ≡ false
      → str_eq n "" ≡ false
  unfolding next_free
  next_free-ne-nil zero suffix name taken n e h = cc e
  next_free-ne-nil (suc fuel) suffix name taken n e h = ground (
    arith,
    next_free-ne-nil fuel (suc suffix) name taken n,
    append-ne-nil name ("_" +str decimal suffix),
    e,
    h,
  )

  free_name-ne-nil :
      (name : String) (taken : List String) (n : String)
      → free_name decimal name taken ≡ some n
      → str_eq name "" ≡ false
      → str_eq n "" ≡ false
  unfolding free_name
  free_name-ne-nil name taken n e h =
      ground (arith, next_free-ne-nil (suc (length taken)) 2 name taken n, e, h)

  module _ (injective : (i j : ℕ) → decimal i ≡ decimal j → i ≡ j) (prefix : String) where
    name_from-IsNamed :
        (spec : List Geom) (taken : List String)
        → Distinct (names_of spec)
        → AreTaken taken (names_of spec)
        → (r : Naming) × (name_from decimal prefix taken spec ≡ some r) × IsNamed taken spec (r.0)
    unfolding name_from
    name_from-IsNamed [] taken d t = (
      ([], []),
      refl,
      record { distinct = d; apart = λ n there out. out; named = tt; renamed = tt },
    )
    name_from-IsNamed (g ∷ spec) taken d t = elim (Bool-cases (is_skipped g)) [
      | inl skipped ↦
          let (r, e, is) =
            name_from-IsNamed spec taken (rest-Distinct g spec d) (rest-AreTaken g spec taken t) in
          (
            (g ∷ r.0, r.1),
            ground (arith, skipped, e),
            keep-IsNamed taken g spec (r.0) skipped d t (λ _ _. is),
          )
      | inr chosen ↦
          let base = collision_name prefix g in
          let (name, found) = free_name_total decimal injective base taken in
          let (r, e, is) =
            name_from-IsNamed spec (name ∷ taken) (rest-Distinct g spec d)
              (AreTaken-cons name taken (names_of spec) (rest-AreTaken g spec taken t)) in
          (
            (record g { name = name } ∷ r.0, name ∷ r.1),
            ground (arith, chosen, found, e),
            assign-IsNamed taken g name spec (r.0) chosen
                (free_name-ne-nil base taken name found (collision_name-ne-nil prefix g))
                (free_name-is_free decimal base taken name found) d t (λ _ _. is),
          )
    ]

    -- Naming always ends. Every collision geom then has a name, the names are distinct where they
    -- were before, and nothing but the names of unnamed collision geoms has changed. Python writes
    -- different numbers differently.
    pub name_remaining_collision_geoms-IsNamed :
        (spec : List Geom)
        → Distinct (names_of spec)
        → (r : Naming) × (name_remaining_collision_geoms decimal prefix spec ≡ some r)
          × IsNamed (names_of spec) spec (r.0)
    unfolding name_remaining_collision_geoms
    name_remaining_collision_geoms-IsNamed spec d =
        name_from-IsNamed spec (names_of spec) d (AreTaken-self (names_of spec))
