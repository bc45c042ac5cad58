-- ===== src/Robots/Gains/Zeroed.antt =====
-- The gains after they were taken over.
use mc_mjlab.Prelude.{
  ℕ, zero, suc, String, Option, none, some, List, [], ◌∷◌, ◌≡◌, refl, ap, ◌∙◌, set, length,
}
use mc_mjlab.Float.{Float, nothing}
use mc_mjlab.Exchange.{index}
use mc_mjlab.Action.Residual.{filled}
use mc_mjlab.Robots.Gains.{
  Gains, Actuator, overwrite, with_actuators, with_gains, read_columns, read_gains, read_actuators,
  read_pd_gains, zero_pd_gains, zero_target, write_at, overwrite_one,
}

set-filled {ℓ} : {A : Type ℓ} (v : A) (n i : ℕ) → set (filled v n) i v ≡ filled v n
set-filled v zero i = refl
set-filled v (suc n) zero = refl
set-filled v (suc n) (suc i) = ap (λ xs. v ∷ xs) (set-filled v n i)

module _ {W : Type 0} ⦃f : Float W⦄ (target_names : List String) where
  abbrev zeros : List W
  zeros = filled nothing (length target_names)

  abbrev zero_of : String → Option W
  zero_of n = zero_target (index n target_names)

  write_zero : (o : Option ℕ) (x : W) → write_at o (overwrite_one (zero_target o) x) zeros ≡ zeros
  write_zero none x = refl
  write_zero (some i) x = set-filled nothing (length target_names) i

  read_columns-overwrite :
      (names : List String) (column : List W)
      → read_columns target_names names (overwrite zero_of names column) zeros ≡ zeros
  unfolding read_columns overwrite
  read_columns-overwrite [] [] = refl
  read_columns-overwrite [] (x ∷ column) = refl
  read_columns-overwrite (n ∷ names) [] = refl
  read_columns-overwrite (n ∷ names) (x ∷ column) =
      ap (read_columns target_names names (overwrite zero_of names column))
        (write_zero (index n target_names) x)
      ∙ read_columns-overwrite names column

  read_gains-with_gains :
      (names : List String) (g : Option (Gains W))
      → read_gains target_names names (with_gains zero_of zero_of names g) (zeros, zeros)
        ≡ (zeros, zeros)
  unfolding read_gains with_gains
  read_gains-with_gains names none = refl
  read_gains-with_gains names (some g) =
      cc (read_columns-overwrite names g.stiffness, read_columns-overwrite names g.damping)

  read_actuators-with_actuators :
      (actuators : List (Actuator W))
      → read_actuators target_names (with_actuators zero_of zero_of actuators) (zeros, zeros)
        ≡ (zeros, zeros)
  unfolding read_actuators with_actuators
  read_actuators-with_actuators [] = refl
  read_actuators-with_actuators (a ∷ actuators) =
      ap (read_actuators target_names (with_actuators zero_of zero_of actuators))
        (read_gains-with_gains a.target_names a.gains)
      ∙ read_actuators-with_actuators actuators

  -- After the gains of the targets are zeroed, the gains that are read are zero.
  pub read_pd_gains-zero_pd_gains :
      (actuators : List (Actuator W))
      → read_pd_gains target_names (zero_pd_gains target_names actuators).0
        ≡ (filled nothing (length target_names), filled nothing (length target_names))
  unfolding read_pd_gains zero_pd_gains
  read_pd_gains-zero_pd_gains actuators = read_actuators-with_actuators actuators
