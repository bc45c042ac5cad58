-- ===== src/Curriculum/Stages.antt =====
-- tasks/residual_balance/curriculum_stages.py. The decimal literals have two places and are held in
-- hundredths; the tolerance of the sum is then exact.
use mc_mjlab.Prelude.{
  ℕ, ◌+◌, String, Bool, not, Option, none, some, List, [], ◌∷◌, ◌≡◌, refl, map, ◌==◌, length,
  get_elem?, drop, any, ℤ, pos, negsuc, Result, ok, err, value_error, ◌>>=◌, ◌>>◌, ensure,
}
use mc_mjlab.Json.{Host, Json, int, real, str, arr, obj, end, field, of_list}

abbrev pub achievement_schema_version : ℕ
achievement_schema_version = 1

abbrev pub required_qualification_scenarios : List String
required_qualification_scenarios = "nominal" ∷ "current_kick" ∷ "finite_impulse" ∷ "robust" ∷ []

abbrev pub required_pass_reports : ℕ
required_pass_reports = 2

abbrev pub required_regressions : ℕ
required_regressions = 3

abbrev pub minimum_qualification_seeds : ℕ
minimum_qualification_seeds = 2

pub record AchievementStage : Type 0 where
  pub name : String
  pub training_velocity_range : ℕ × ℕ
  pub qualification_velocity : ℕ
  pub robust_velocity_range : ℕ × ℕ
  pub rehearsal_weights : List ℕ

abbrev pub achievement_stages : List AchievementStage
achievement_stages =
    record {
      name = "foundation";
      training_velocity_range = (10, 25);
      qualification_velocity = 25;
      robust_velocity_range = (30, 35);
      rehearsal_weights = 25 ∷ 75 ∷ 0 ∷ 0 ∷ [];
    }
    ∷ record {
      name = "recovery";
      training_velocity_range = (10, 40);
      qualification_velocity = 40;
      robust_velocity_range = (45, 50);
      rehearsal_weights = 15 ∷ 25 ∷ 60 ∷ 0 ∷ [];
    }
    ∷ record {
      name = "hard";
      training_velocity_range = (10, 50);
      qualification_velocity = 50;
      robust_velocity_range = (55, 60);
      rehearsal_weights = 15 ∷ 15 ∷ 20 ∷ 50 ∷ [];
    }
    ∷ []

abbrev pub stage_count : ℕ
stage_count = 3

or_value_error {ℓ} : {A : Type ℓ} → Option A → Result A
or_value_error none = err value_error
or_value_error (some a) = ok a

unfoldable pub achievement_stage : ℤ → Result AchievementStage
unfolding or_value_error
achievement_stage (pos i) = or_value_error (get_elem? achievement_stages i)
achievement_stage (negsuc n) = err value_error

module _ {W : Type 0} (host : Host W) where
  abbrev decimal : ℕ → Json W
  decimal n = real (host.hundredths n)

  abbrev pair : ℕ × ℕ → Json W
  pair (a, b) = arr (of_list (decimal a ∷ decimal b ∷ []))

  -- json.loads(json.dumps(asdict(stage))): tuples become lists
  unfoldable pub stage_definition : AchievementStage → Json W
  stage_definition s = obj (
      field "name" (str s.name) (
        field "training_velocity_range" (pair s.training_velocity_range) (
          field "qualification_velocity" (decimal s.qualification_velocity) (
            field "robust_velocity_range" (pair s.robust_velocity_range)
              (field "rehearsal_weights" (arr (of_list (map decimal s.rehearsal_weights))) end)))))

  unfoldable pub achievement_contract : ℤ → Result (Json W)
  unfolding achievement_stage stage_definition
  achievement_contract index = do
    stage ← achievement_stage index
    ok (
        obj (
          field "schema_version" (int (pos achievement_schema_version)) (
            field "stage" (int index) (
              field "stage_definition" (stage_definition stage) (
                field "units" (str "equivalent_delta_velocity_m_per_s") (
                  field "required_scenarios"
                    (arr (of_list (map str required_qualification_scenarios)))
                    (field "minimum_seeds" (int (pos minimum_qualification_seeds)) (
                      field "required_pass_reports" (int (pos required_pass_reports))
                        (field "required_regressions" (int (pos required_regressions)) end)))))))))

  -- `dumps` sorts the keys, so it does not depend on their order above
  unfoldable pub achievement_contract_sha256 : ℤ → Result String
  unfolding achievement_contract
  achievement_contract_sha256 index = do
    contract ← achievement_contract index
    ok (host.sha256 (host.dumps contract))

abbrev pub sum : List ℕ → ℕ
sum [] = 0
sum (x ∷ xs) = x + sum xs

abbrev pub positive : ℕ → Bool
positive n = not (n == 0)

first_weight : List ℕ → ℕ
first_weight [] = 0
first_weight (w ∷ ws) = w

-- the four rejections for one stage
validate_stage : ℕ → ℕ → AchievementStage → Result (Unit {0})
unfolding first_weight
validate_stage width index stage = do
  ensure (length stage.rehearsal_weights == width) value_error
  ensure (sum stage.rehearsal_weights == 100) value_error
  ensure (positive (first_weight stage.rehearsal_weights)) value_error
  ensure (not (any positive (drop (index + 2) stage.rehearsal_weights))) value_error

validate_from : ℕ → ℕ → List AchievementStage → Result (Unit {0})
unfolding validate_stage
validate_from width index [] = ok tt
validate_from width index (s ∷ rest) =
    validate_stage width index s >>= λ _. validate_from width (index + 1) rest

unfoldable pub validate_stages : List AchievementStage → Result (Unit {0})
unfolding validate_from
validate_stages stages = validate_from (length stages + 1) 0 stages

-- the module imports
stages_accepted : validate_stages achievement_stages ≡ ok tt
unfolding validate_stages
stages_accepted = refl
