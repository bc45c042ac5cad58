-- ===== src/Curriculum/Bridge.antt =====
-- `AchievementCurriculumBridge` (tasks/residual_balance/achievement_curriculum.py): its state, and
-- the steps that read no file. state.json, qualification_request.json and events.jsonl are fields.
pub mod Iteration
use Prim.Native.String.{◌++◌ as join_text}
use mc_mjlab.Prelude.{
  ℕ, zero, suc, ◌+◌, String, Bool, true, false, not, ◌&&◌, Option, none, some, List, [], ◌∷◌, ◌++◌,
  ltb, ◌==◌, if◌then◌else◌, set, ℤ, pos, str_eq, Result, Raised, ok, err, value_error, type_error,
  key_error, index_error, os_error, runtime_error, overflow_error, ◌>>=◌, ◌>>◌, ensure,
}
use mc_mjlab.Prelude.Dict.{Dict, get, put}
use mc_mjlab.Json.{Host, Json, int}
use mc_mjlab.Curriculum.Stages.{achievement_contract, achievement_contract_sha256}
use mc_mjlab.Curriculum.State.{
  QualificationEvidence, AchievementState, AchievementDecision, Event, SavedState, initial,
  apply_qualification, from_dict, to_dict,
}
use mc_mjlab.Curriculum.Evidence.{read_qualification_evidence}
use mc_mjlab.Curriculum.Rehearsal.{Term, set_stage}

-- What `_resolve_term` finds: no `push_robot` term, one without the marker, a marked one without a
-- `set_stage` method, or the achievement disturbance.
pub data Registered : Type 0 where
  absent unmarked no_set_stage : Registered
  achievement : Term → Registered

-- `_last_report`, without its time
pub data Report : Type 0 where
  accepted : Event → QualificationEvidence → Report
  rejected : Raised → Report

-- state.json and qualification_request.json
pub record Published (W : Type 0) : Type 0 where
  pub published_state : AchievementState
  pub stage_contract : Json W
  pub stage_contract_sha256 : String
  pub published_report : Option Report
  pub requested_stage : ℕ
  pub report_path : String

pub record Bridge (W : Type 0) : Type 0 where
  pub term : Option Term
  pub enabled : Bool
  pub run_dir : String
  pub state : AchievementState
  pub last_observed_token : Option String
  pub last_report : Option Report
  pub published : Option (Published W)
  pub events : List Report
  pub computes : ℕ

resolve_term : Registered → Result (Option Term)
resolve_term absent = ok none
resolve_term unmarked = ok none
resolve_term no_set_stage = err type_error
resolve_term (achievement t) = ok (some t)

abbrev is_some {ℓ} : {A : Type ℓ} → Option A → Bool
is_some none = false
is_some (some a) = true

abbrev start_stage : Option Term → ℕ
start_stage none = 0
start_stage (some t) = t.current_stage

abbrev option_map {ℓ κ} : {A : Type ℓ} {B : Type κ} → (A → B) → Option A → Option B
option_map f none = none
option_map f (some a) = some (f a)

abbrev text_or_empty : Option String → String
text_or_empty none = ""
text_or_empty (some s) = s

-- json.JSONDecodeError, OSError, TypeError, ValueError
unfoldable pub caught : Raised → Bool
caught value_error = true
caught type_error = true
caught os_error = true
caught _ = false

same_token : Option String → String → Bool
same_token none token = false
same_token (some t) token = str_eq t token

abbrev same_digest : Option String → Option String → Bool
same_digest none none = true
same_digest (some a) (some b) = str_eq a b
same_digest _ _ = false

module _ {W : Type 0} where
  -- `_set_stage`: the term, then the manager's own view of it
  set_term : Option Term → ℕ → Bridge W → Result (Bridge W)
  set_term none stage b = ok b
  set_term (some t) stage b = do
    moved ← set_stage stage t
    ok (record b { term = some moved; computes = b.computes + 1 })

  unfoldable pub set_bridge_stage : ℕ → Bridge W → Result (Bridge W)
  unfolding set_term
  set_bridge_stage stage b = set_term b.term stage b

  abbrev pub note : Report → Bridge W → Bridge W
  note r b = record b { last_report = some r; events = b.events ++ r ∷ [] }

  -- the `except` clause
  handle : Bridge W → Raised → Result (Bridge W)
  unfolding caught
  handle b x = if caught x then ok (note (rejected x) b) else err x

  -- the rest of the `try` block, from the assignment of `self.state`
  enter :
      Bridge W
      → Dict String
      → Result (AchievementState × Dict String × Event × QualificationEvidence)
      → Result (Bridge W × Dict String)
  unfolding handle set_bridge_stage
  enter b files (err x) = handle b x >>= λ b'. ok (b', files)
  enter b files (ok (next, files', event, e)) =
      let moved : Bridge W = record b { state = next } in
      elim (set_bridge_stage next.current_stage moved) [
        | ok done ↦ ok (note (accepted event e) done, files')
        | err x ↦ (handle moved x >>= λ b'. ok (b', files'))
      ]

  unfoldable pub snapshot : Bridge W → Option SavedState
  snapshot b = if is_some b.term then some (to_dict b.state) else none
