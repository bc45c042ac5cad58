-- ===== src/Float.antt =====
-- The floats of Python and torch, as an interface: the operations the code applies to them, and the
-- laws that its correctness rests on. NaN is a value that is not `<=` itself.
use mc_mjlab.Prelude.{
  ℕ, zero, suc, ◌+◌, ◌-◌, ◌*◌, ◌/◌, ◌≤◌, ◌≡◌, ◌⊎◌, Bool, true, false, not, ◌&&◌, Option, none, some,
  List, [], ◌∷◌, Result, ok, err, value_error, arith, leb, ltb, if◌then◌else◌, Bool-cases, inl, inr,
}

pub record Float {ℓ} (W : Type ℓ) : Type ℓ where
  -- a <= b, a < b
  pub le : W → W → Bool
  pub lt : W → W → Bool
  pub add : W → W → W
  pub sub : W → W → W
  pub mul : W → W → W
  pub div : W → W → W
  -- -x, abs(x), math.sqrt(x)
  pub neg : W → W
  pub abs : W → W
  pub sqrt : W → W
  -- x ** n
  pub pow : W → ℕ → W
  -- Python's sum, which starts from 0
  pub sum : List W → W
  -- math.erfc(x)
  pub erfc : W → W
  -- int(x), which raises where x is not finite
  pub to_int : W → Result ℕ
  pub infinity : W
  -- math.exp(-x)
  pub exp_neg : W → W
  -- float(n)
  pub of_ℕ : ℕ → W
  pub nan : W
  -- math.isfinite(x)
  pub is_finite : W → Bool

abbrev pub Le {ℓ} : {W : Type ℓ} ⦃f : Float W⦄ → W → W → Type 0
Le ⦃f⦄ a b = f.le a b ≡ true

-- What holds of IEEE comparison: transitivity, totality away from NaN, and `<` as the failing
-- converse of `<=` there. `float` of a count keeps the order.
pub record IsOrdered {ℓ} (W : Type ℓ) ⦃f : Float W⦄ : Type ℓ where
  pub le_trans : (a b c : W) → Le a b → Le b c → Le a c
  pub le_total : (a b : W) → Le a a → Le b b → Le a b ⊎ Le b a
  pub refl_of_le : (a b : W) → Le a b → Le a a × Le b b
  pub lt_of : (a b : W) → Le a a → Le b b → f.lt a b ≡ not (f.le b a)
  pub of_ℕ_mono : (m n : ℕ) → m ≤ n → Le (f.of_ℕ m) (f.of_ℕ n)

module _ {ℓ} {W : Type ℓ} ⦃f : Float W⦄ where
  abbrev pub nothing : W
  nothing = f.of_ℕ 0

  -- a == b
  abbrev pub same : W → W → Bool
  same a b = f.le a b && f.le b a

  -- torch.maximum and torch.minimum: NaN when either is
  abbrev pub maximum : W → W → W
  maximum a b = if not (f.le b b) then b else if f.le a b then b else a

  abbrev pub minimum : W → W → W
  minimum a b = if not (f.le b b) then b else if f.le b a then b else a

  -- torch.clamp: the upper bound wins
  abbrev pub clamp : W → W → W → W
  clamp x lower upper = minimum (maximum x lower) upper

  -- a literal, `n / d` correctly rounded
  abbrev pub ratio : ℕ → ℕ → W
  ratio n d = f.div (f.of_ℕ n) (f.of_ℕ d)

module _ {ℓ} {W : Type ℓ} ⦃f : Float W⦄ (laws : IsOrdered W) where
  -- what is clamped between ordered bounds is within them
  pub clamp_bounds :
      (x lower upper : W)
      → Le lower upper
      → Le x x
      → Le lower (clamp x lower upper) × Le (clamp x lower upper) upper
  clamp_bounds x lower upper o n =
      let (l, u) = laws.refl_of_le lower upper o in
      ground (arith, laws.le_total x lower, laws.le_total upper x, laws.le_total upper lower)

  -- and what was within them is left equal
  pub clamp_inside :
      (x lower upper : W) → Le lower x → Le x upper → same (clamp x lower upper) x ≡ true
  clamp_inside x lower upper l u =
      let (_, n) = laws.refl_of_le lower x l in
      let o = laws.le_trans lower x upper l u in
      elim (Bool-cases (f.le x lower)) [
        | inl e ↦
            ground
              (arith, laws.refl_of_le x upper, laws.refl_of_le lower x, laws.le_trans upper lower x)
        | inr e ↦ ground (arith, laws.refl_of_le x upper, laws.refl_of_le lower x)
      ]

-- The laws can be met: thousandths, at or above zero, with `none` for NaN and what is below zero.
abbrev pub Milli : Type 0
Milli = Option ℕ

abbrev lift_test : (ℕ → ℕ → Bool) → Milli → Milli → Bool
lift_test t (some a) (some b) = t a b
lift_test t _ _ = false

abbrev lift_op : (ℕ → ℕ → ℕ) → Milli → Milli → Milli
lift_op g (some a) (some b) = some (g a b)
lift_op g _ _ = none

abbrev million : ℕ
million = 1000000000

abbrev is_below : Milli → Bool
is_below none = false
is_below (some a) = ltb a million

abbrev whole : Milli → Result ℕ
whole none = err value_error
whole (some a) = ok (a / 1000)

abbrev total : List Milli → Milli
total [] = some 0
total (x ∷ xs) = lift_op (λ a b. a + b) x (total xs)

abbrev power : Milli → ℕ → Milli
power x zero = some 1000
power x (suc n) = lift_op (λ a b. a * b / 1000) x (power x n)

abbrev opposite : Milli → Milli
opposite (some zero) = some 0
opposite _ = none

instance abbrev pub milli : Float Milli
milli = record {
  le = lift_test leb;
  lt = lift_test ltb;
  add = lift_op (λ a b. a + b);
  sub = lift_op (λ a b. a - b);
  mul = lift_op (λ a b. a * b / 1000);
  div = lift_op (λ a b. a * 1000 / b);
  neg = opposite;
  abs = λ x. x;
  sqrt = λ x. x;
  exp_neg = λ x. some 500;
  of_ℕ = λ n. some (n * 1000);
  nan = none;
  is_finite = is_below;
  pow = power;
  sum = total;
  erfc = λ x. some 500;
  to_int = whole;
  infinity = some million;
}

pub Milli-IsOrdered : IsOrdered Milli
Milli-IsOrdered = record {
  le_trans = λ a b c p q. ground arith;
  le_total = λ a b p q. ground arith;
  refl_of_le = λ a b p. ground arith;
  lt_of = λ a b p q. ground arith;
  of_ℕ_mono = λ m n h. ground arith;
}
