-- ===== src/Exchange/Columns.antt =====
-- What is written to the columns is what is read from them, and windows do not overlap.
use mc_mjlab.Prelude.{
  ℕ, ◌+◌, ◌≤◌, String, Bool, true, not, ◌&&◌, List, [], ◌∷◌, ◌≡◌, ◌⊎◌, All, length, contains,
}
use mc_mjlab.Prelude.Dict.{Dict}
use mc_mjlab.Exchange.{Kind, width_of}

abbrev pub IsApart : Kind → ℕ → Dict ℕ → Type 0
IsApart kind start cs =
    All (λ (c : String × ℕ). (start + width_of kind ≤ c.1) ⊎ (c.1 + width_of kind ≤ start)) cs

-- the columns do not overlap, and lie between the offset and its end
pub IsSpread : Kind → ℕ → ℕ → Dict ℕ → Type 0
IsSpread kind offset end [] = Unit
IsSpread kind offset end ((name, start) ∷ cs) =
    (offset ≤ start)
    × (start + width_of kind ≤ end)
    × IsApart kind start cs
    × IsSpread kind offset end cs

module _ {ℓ} {A : Type ℓ} where
  unfoldable pub HaveWidth : Kind → List (List A) → Type 0
  HaveWidth kind [] = Unit
  HaveWidth kind (xs ∷ payload) = (length xs ≡ width_of kind) × HaveWidth kind payload

abbrev pub are_distinct : List String → Bool
are_distinct [] = true
are_distinct (x ∷ xs) = not (contains x xs) && are_distinct xs
