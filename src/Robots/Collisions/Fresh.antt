-- ===== src/Robots/Collisions/Fresh.antt =====
-- A free name is found among as many numbered names as are taken, and one more.
use Prim.Native.String.{◌++◌ as ◌+str◌}
use Prim.Native.String.append
use mc_mjlab.Prelude.{
  ℕ, zero, suc, ◌+◌, ◌≤◌, ◌<◌, String, true, false, none, some, List, [], ◌∷◌, ◌≡◌, inl, inr, refl,
  sym, ◌∙◌, arith, length, contains, str_eq, eq_iff, if◌then◌else◌, Bool-cases, Option-cases,
}
use mc_mjlab.Robots.Collisions.{numbered, next_free, free_name}

-- one occurrence less
erase : String → List String → List String
erase x [] = []
erase x (y ∷ ys) = if str_eq x y then ys else y ∷ erase x ys

length-erase :
    (x : String) (ys : List String) → contains x ys ≡ true → length (erase x ys) + 1 ≡ length ys
unfolding erase
length-erase x [] h = cc h
length-erase x (y ∷ ys) h = ground (arith, length-erase x ys)

contains-erase :
    (x z : String) (ys : List String)
    → str_eq z x ≡ false
    → contains z ys ≡ true
    → contains z (erase x ys) ≡ true
unfolding erase
contains-erase x z [] other h = h
contains-erase x z (y ∷ ys) other h =
    ground (arith, contains-erase x z ys other, eq_iff x y, eq_iff z y, eq_iff z x)

-- as many different members as a list has at most
pigeonhole :
    (g : ℕ → String) (n : ℕ) (ys : List String)
    → ((i j : ℕ) → g i ≡ g j → i ≡ j)
    → ((i : ℕ) → i < n → contains (g i) ys ≡ true)
    → n ≤ length ys
pigeonhole g zero ys inj all = omega arith
pigeonhole g (suc n) ys inj all =
    let last = all n (omega arith) in
    omega (
      arith,
      length-erase (g n) ys last,
      pigeonhole g n (erase (g n) ys) inj (λ i (h : i < n).
          contains-erase (g n) (g i) ys (ground (arith, eq_iff (g i) (g n), inj i n))
            (all i (omega arith))),
    )

append_cancel : (name x y : String) → name +str x ≡ name +str y → x ≡ y
append_cancel String.[] x y e = sym (append.nil x) ∙ e ∙ append.nil y
append_cancel (String.◌∷◌ c name) x y e =
    let longer = sym (append.cons c name x) ∙ e ∙ append.cons c name y in
    append_cancel name x y (cc longer)

module _ (decimal : ℕ → String) (injective : (i j : ℕ) → decimal i ≡ decimal j → i ≡ j) where
  numbered-injective :
      (name : String) (i j : ℕ) → numbered decimal name i ≡ numbered decimal name j → i ≡ j
  numbered-injective name i j e = injective i j (append_cancel "_" _ _ (append_cancel name _ _ e))

  next_free-none :
      (fuel suffix : ℕ) (name : String) (taken : List String)
      → next_free decimal fuel suffix name taken ≡ none
      → (i : ℕ) → i < fuel
      → contains (numbered decimal name (suffix + i)) taken ≡ true
  unfolding next_free
  next_free-none zero suffix name taken e i h = elim h [ ]
  next_free-none (suc fuel) suffix name taken e zero h = ground arith
  next_free-none (suc fuel) suffix name taken e (suc i) h =
      let later = next_free-none fuel (suc suffix) name taken in
      elim (Bool-cases (contains (numbered decimal name suffix) taken)) [
        | inl there ↦
            let moved : suffix + suc i ≡ suc suffix + i = omega arith in
            rw moved (later (ground (arith, there, e)) i (omega arith))
        | inr free ↦ ground (arith, free, e)
      ]

  -- the search ends
  pub free_name_total :
      (name : String) (taken : List String) → (n : String) × (free_name decimal name taken ≡ some n)
  unfolding free_name
  free_name_total name taken = elim (Bool-cases (contains name taken)) [
    | inr free ↦ (name, rw free refl)
    | inl there ↦ elim (Option-cases (next_free decimal (suc (length taken)) 2 name taken)) [
      | inr (n, e) ↦ (n, rw there e)
      | inl out ↦
          let all = next_free-none (suc (length taken)) 2 name taken out in
          let many =
            pigeonhole (λ i. numbered decimal name (2 + i)) (suc (length taken)) taken
              (λ i j e. omega (arith, numbered-injective name (2 + i) (2 + j) e)) all in
          absurd (omega (arith, many))
    ]
  ]

module _ (decimal : ℕ → String) where
  next_free-is_free :
      (fuel suffix : ℕ) (name : String) (taken : List String) (n : String)
      → next_free decimal fuel suffix name taken ≡ some n
      → contains n taken ≡ false
  unfolding next_free
  next_free-is_free zero suffix name taken n e = cc e
  next_free-is_free (suc fuel) suffix name taken n e =
      ground (arith, next_free-is_free fuel (suc suffix) name taken n, e)

  pub free_name-is_free :
      (name : String) (taken : List String) (n : String)
      → free_name decimal name taken ≡ some n
      → contains n taken ≡ false
  unfolding free_name
  free_name-is_free name taken n e = elim (Bool-cases (contains name taken)) [
    | inl there ↦ next_free-is_free (suc (length taken)) 2 name taken n (ground (arith, there, e))
    | inr free ↦ ground (arith, free, e)
  ]
