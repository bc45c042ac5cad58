-- ===== src/Tests/Manifest.antt =====
-- Checkpoint contracts on concrete manifests.
use mc_mjlab.Prelude.{String, true, none, ◌≡◌, refl, pos, str_eq, all}
use mc_mjlab.Prelude.Dict.{get}
use mc_mjlab.Float.{Milli}
use mc_mjlab.Json.{Json, Fields, int, str, obj, end, field}
use mc_mjlab.Manifest.Names.{
  renamed_qualified_name, renamed_parts, partition, renamed_callables, renamed_modules,
}

abbrev current : String → String
current = renamed_qualified_name (λ a. none)

abbrev contract_of : Fields Milli → Fields Milli
contract_of fs = field "schema_version" (int (pos 1)) (field "training_contract" (obj fs) end)

-- before the source tree moved, with a digest, and without the run's new field
abbrev recorded : Fields Milli
recorded = contract_of (
    field "term" (str "utils.pd_gains")
      (field "source_sha256" (str "abc") (field "steps" (int (pos 24)) end)))

abbrev present : Fields Milli
present = contract_of (
    field "term" (str "mc_mjlab.robots.pd_gains") (
      field "source_sha256" (str "def")
        (field "steps" (int (pos 24)) (field "extra" (int (pos 1)) end))))

abbrev recorded_contract : Fields Milli
recorded_contract = field "term" (str "mc_mjlab.robots.pd_gains") (field "steps" (int (pos 24)) end)

abbrev present_contract : Fields Milli
present_contract =
    field "term" (str "mc_mjlab.robots.pd_gains")
      (field "steps" (int (pos 24)) (field "extra" (int (pos 1)) end))

-- every name that the tables give is current
settled :
    all
      (λ (e : String × String). str_eq (renamed_qualified_name (λ a. none) e.1) e.1)
      renamed_callables
    ≡ true
unfolding renamed_qualified_name renamed_parts partition get
settled = refl

settled_modules :
    all
      (λ (e : String × String). str_eq (renamed_qualified_name (λ a. none) e.1) e.1)
      renamed_modules
    ≡ true
unfolding renamed_qualified_name renamed_parts partition get
settled_modules = refl
