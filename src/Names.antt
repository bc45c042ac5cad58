-- ===== src/Names.antt =====
-- `re.search(r"model_(\d+)", name)`: the iteration that a checkpoint's file name carries. ASCII
-- digits only.
use Prim.Native.Char.{code}
use Prim.Native.String.{String}
use mc_mjlab.Prelude.{
  ℕ, ◌+◌, ◌-◌, ◌*◌, ◌&&◌, ◌||◌, Bool, true, false, Option, none, some, List, [], ◌∷◌, ◌≡◌, refl,
  leb, ◌==◌, if◌then◌else◌,
}

abbrev pub codes : String → List ℕ
codes String.[] = []
codes (String.◌∷◌ c s) = code c ∷ codes s

-- s.removeprefix(p), if s starts with p
pub after_prefix : List ℕ → List ℕ → Option (List ℕ)
after_prefix [] s = some s
after_prefix (p ∷ ps) [] = none
after_prefix (p ∷ ps) (c ∷ s) = if p == c then after_prefix ps s else none

abbrev is_digit : ℕ → Bool
is_digit c = leb b'0' c && leb c b'9'

-- the value of the digits that `s` starts with
digits_from : ℕ → List ℕ → ℕ
digits_from acc [] = acc
digits_from acc (c ∷ s) = elim (is_digit c) [
  | true ↦ digits_from (acc * 10 + (c - b'0')) s
  | false ↦ acc
]

number_at : List ℕ → Option ℕ
unfolding digits_from
number_at [] = none
number_at (c ∷ s) = if is_digit c then some (digits_from 0 (c ∷ s)) else none

match_here : Option (List ℕ) → Option ℕ
unfolding number_at
match_here none = none
match_here (some rest) = number_at rest

search_model : List ℕ → Option ℕ
unfolding match_here after_prefix
search_model [] = none
search_model (c ∷ s) = elim (match_here (after_prefix (codes "model_") (c ∷ s))) [
  | some n ↦ some n
  | none ↦ search_model s
]

unfoldable pub model_iteration : String → Option ℕ
unfolding search_model
model_iteration name = search_model (codes name)

-- name.removeprefix(prefix), if name starts with it
abbrev pub remove_prefix : List ℕ → String → Option String
remove_prefix [] s = some s
remove_prefix (p ∷ ps) String.[] = none
remove_prefix (p ∷ ps) (String.◌∷◌ c s) = if p == code c then remove_prefix ps s else none

-- `needle in text`
abbrev is_found : Option (List ℕ) → Bool
is_found none = false
is_found (some r) = true

unfoldable pub has_text : List ℕ → List ℕ → Bool
has_text needle [] = is_found (after_prefix needle [])
has_text needle (c ∷ s) = is_found (after_prefix needle (c ∷ s)) || has_text needle s

-- text.lower(), for ASCII
abbrev pub lower : List ℕ → List ℕ
lower [] = []
lower (c ∷ s) = (if leb b'A' c && leb c b'Z' then c + 32 else c) ∷ lower s

reads_iteration : model_iteration "qualified_stage_1_model_1250.pt" ≡ some 1250
unfolding model_iteration
reads_iteration = refl
