-- ===== src/Tests/Hosts.antt =====
-- The machine that the tests run on: a text is its own digest, and one report can be parsed.
use mc_mjlab.Prelude.{
  String, true, Option, none, some, [], ◌∷◌, map, pos, Result, ok, err, value_error, str_eq,
  if◌then◌else◌,
}
use mc_mjlab.Prelude.Dict.{Dict}
use mc_mjlab.Float.{Milli}
use mc_mjlab.Json.{Host, Json, null, bool, int, str, arr, obj, end, field, of_list}
use mc_mjlab.Curriculum.Stages.{required_qualification_scenarios, achievement_contract}

abbrev or_null : Result (Json Milli) → Json Milli
or_null (ok j) = j
or_null (err x) = null

-- a machine that parses nothing
abbrev pub bare : Host Milli
bare = record {
  sha256 = λ s. s;
  loads = λ s. none;
  dumps = λ j. "contract";
  str_of = λ j. "7";
  int_of_text = λ s. err value_error;
  int_of_real = λ w. err value_error;
  real_eq = λ a b. true;
  real_of_int = λ n. some 0;
  hundredths = λ n. some 0;
  resolve = λ p. p;
  file_name = λ p. if str_eq p "run/model_7.pt" then "model_7.pt" else p;
  join = λ a b. b;
  is_under = λ p d. true;
}

-- a report of stage 0 that is eligible
abbrev pub good_report : Json Milli
good_report = obj (
    field "config"
      (obj (
        field "achievement"
          (obj (
            field "stage" (int (pos 0)) (
              field "contract" (or_null (achievement_contract bare (pos 0)))
                (field "contract_sha256" (str "contract") end))))
          (field "seeds" (arr (of_list (int (pos 2) ∷ int (pos 1) ∷ int (pos 2) ∷ [])))
            (field "scenarios" (arr (of_list (map str required_qualification_scenarios))) end))))
      (field "checkpoints"
        (obj (
          field "run/model_7.pt"
            (obj (
              field "promotion"
                (obj (field "eligible" (bool true) (field "reasons" (arr (of_list [])) end))) end))
            end))
        end))

-- a watchdog's request
abbrev pub stop_request : Json Milli
stop_request = obj (field "request_id" (str "r1") (field "action" (str "stop") end))

abbrev parse : String → Option (Json Milli)
parse s =
    if str_eq s "report"
    then some good_report
    else if str_eq s "stop"
    then some stop_request
    else none

abbrev pub machine : Host Milli
machine = record bare { loads = parse }

-- the run directory at iteration 9
abbrev pub files : Dict String
files = ("qualification.json", "report") ∷ ("run/model_7.pt", "weights") ∷ []
