-- ===== src/Curriculum/Evidence.antt =====
-- `read_qualification_evidence` (tasks/residual_balance/achievement_curriculum.py): a qualifier's
-- report, checked field by field. Files are a dictionary from resolved paths to contents.
pub mod Checks
use mc_mjlab.Prelude.{
  ℕ, zero, suc, ◌+◌, ◌-◌, ◌<◌, String, Bool, true, false, not, ◌&&◌, ◌||◌, Option, none, some, List,
  [], ◌∷◌, map, leb, ltb, ◌==◌, if◌then◌else◌, length, any, all, contains, ℤ, pos, negsuc, leb_ℤ,
  eq_ℤ, str_eq, Result, Raised, ok, err, value_error, type_error, os_error, ◌>>=◌, ◌>>◌, ensure,
}
use mc_mjlab.Prelude.Dict.{Dict, get}
use mc_mjlab.Names.{model_iteration}
use mc_mjlab.Json.{
  Host, Json, Items, Fields, null, bool, int, real, str, arr, obj, nil, cons, end, field, of_list,
  items, find, find_or, iterate, as_dict, is_list, is_hashable, truth, to_int, to_str, json_eq,
  equals_str,
}
use mc_mjlab.Curriculum.Stages.{
  required_qualification_scenarios, minimum_qualification_seeds, achievement_contract,
  achievement_contract_sha256,
}
use mc_mjlab.Curriculum.State.{QualificationEvidence}

or_raise {ℓ} : {A : Type ℓ} → Option A → Raised → Result A
or_raise none e = err e
or_raise (some a) e = ok a

-- sorted({...}): the distinct numbers in order
insert_seed : ℤ → List ℤ → List ℤ
insert_seed n [] = n ∷ []
insert_seed n (m ∷ ms) =
    if eq_ℤ n m then m ∷ ms else if leb_ℤ n m then n ∷ m ∷ ms else m ∷ insert_seed n ms

module _ {W : Type 0} (host : Host W) where
  sorted_seeds : List (Json W) → Result (List ℤ)
  unfolding insert_seed to_int
  sorted_seeds [] = ok []
  sorted_seeds (x ∷ xs) = do n ← to_int host x; rest ← sorted_seeds xs; ok (insert_seed n rest)

  read_seeds : Fields W → Result (List ℤ)
  unfolding sorted_seeds
  read_seeds config = do
    given ← iterate (find_or config "seeds" (arr nil))
    seeds ← sorted_seeds given
    ensure (leb minimum_qualification_seeds (length seeds)) value_error
    ok seeds

  is_required : Json W → Bool
  is_required v = any (λ name. equals_str host name v) required_qualification_scenarios

  -- set(scenarios) == set(REQUIRED_QUALIFICATION_SCENARIOS)
  check_scenarios : Fields W → Result (Unit {0})
  unfolding is_required
  check_scenarios config = do
    given ← iterate (find_or config "scenarios" (arr nil))
    ensure (all is_hashable given) type_error
    ensure
        (all is_required given
          && all (λ name. any (equals_str host name) given) required_qualification_scenarios)
        value_error

  -- the dictionary under a key
  dict_at : Fields W → String → Result (Fields W)
  unfolding or_raise
  dict_at fs k = or_raise (as_dict (find_or fs k null)) value_error

  load_report : String → Result (Fields W)
  unfolding or_raise
  load_report payload = do
    report ← or_raise (host.loads payload) value_error
    or_raise (as_dict report) type_error

  -- the stage, and the contract that the report was made under
  check_stage : Fields W → ℤ → Result ℤ
  unfolding to_int
  check_stage given expected = do
    stage ← to_int host (find_or given "stage" (int (negsuc 0)))
    ensure (eq_ℤ stage expected) value_error
    digest ← achievement_contract_sha256 host stage
    contract ← achievement_contract host stage
    ensure (json_eq host (find_or given "contract" null) contract) value_error
    ensure (json_eq host (find_or given "contract_sha256" null) (str digest)) value_error
    ok stage

  only_field : Fields W → Result (String × Json W)
  only_field (field k v end) = ok (k, v)
  only_field _ = err value_error

  -- the resolved path of the checkpoint, and its iteration
  check_path : Dict String → String → ℕ → String → Result (String × ℕ)
  unfolding or_raise
  check_path files run_dir current_iteration checkpoint = do
    let path : String = host.resolve checkpoint
    or_raise (get files path) os_error
    ensure (host.is_under path (host.resolve run_dir)) value_error
    iteration ← or_raise (model_iteration (host.file_name path)) value_error
    ensure (not (ltb current_iteration iteration)) value_error
    ok (path, iteration)

  -- the verdict and its reasons
  read_promotion : Json W → Result (Bool × List String)
  unfolding dict_at or_raise to_str
  read_promotion values = do
    summary ← or_raise (as_dict values) value_error
    promotion ← dict_at summary "promotion"
    let reasons : Json W = find_or promotion "reasons" (arr nil)
    ensure (is_list reasons) value_error
    given ← iterate reasons
    ok (truth host (find_or promotion "eligible" (bool false)), map (to_str host) given)

  abbrev pub identity : String → List ℤ → ℤ → Json W
  identity checkpoint seeds stage = obj (
      field "checkpoint" (str checkpoint)
        (field "seeds" (arr (of_list (map int seeds))) (field "stage" (int stage) end)))

  unfoldable pub read_qualification_evidence :
      Dict String → String → ℤ → String → ℕ → Result QualificationEvidence
  unfolding load_report dict_at check_stage read_seeds check_scenarios only_field check_path
      read_promotion or_raise
  read_qualification_evidence files report_path expected_stage run_dir current_iteration = do
    payload ← or_raise (get files report_path) os_error
    report ← load_report payload
    config ← dict_at report "config"
    given ← dict_at config "achievement"
    stage ← check_stage given expected_stage
    seeds ← read_seeds config
    check_scenarios config
    checkpoints ← dict_at report "checkpoints"
    (name, values) ← only_field checkpoints
    (path, iteration) ← check_path files run_dir current_iteration name
    (eligible, reasons) ← read_promotion values
    ok (record {
      token = host.sha256 (host.dumps (identity path seeds stage));
      report_sha256 = host.sha256 payload;
      stage = stage;
      checkpoint = path;
      checkpoint_iteration = pos iteration;
      seeds = seeds;
      eligible = eligible;
      reasons = reasons;
    })
