-- ===== src/Curriculum/Bridge/Iteration.antt =====
-- The methods of `AchievementCurriculumBridge` that read the run directory, which is a dictionary
-- of files: one report is consumed at each trainer iteration.
pub mod Moved
pub mod Sync
use Prim.Native.String.{◌++◌ as join_text}
use mc_mjlab.Prelude.{
  ℕ, zero, suc, ◌+◌, String, Bool, true, false, not, ◌&&◌, Option, none, some, List, [], ◌∷◌, ◌++◌,
  ltb, ◌==◌, if◌then◌else◌, set, ℤ, pos, str_eq, Result, Raised, ok, err, value_error, type_error,
  key_error, index_error, os_error, runtime_error, overflow_error, ◌>>=◌, ◌>>◌, ensure,
}
use mc_mjlab.Prelude.Dict.{Dict, get, put}
use mc_mjlab.Json.{Host, Json, int}
use mc_mjlab.Curriculum.Stages.{achievement_contract, achievement_contract_sha256}
use mc_mjlab.Curriculum.State.{
  QualificationEvidence, AchievementState, AchievementDecision, Event, SavedState, initial,
  apply_qualification, from_dict, to_dict,
}
use mc_mjlab.Curriculum.Evidence.{read_qualification_evidence}
use mc_mjlab.Curriculum.Rehearsal.{Term, set_stage}
use mc_mjlab.Curriculum.Bridge.{
  Registered, absent, unmarked, no_set_stage, achievement, Report, accepted, rejected, Published,
  Bridge, set_bridge_stage, resolve_term, is_some, start_stage, option_map, text_or_empty, caught,
  note, handle, enter, same_token, snapshot, same_digest,
}

module _ {W : Type 0} (host : Host W) where
  abbrev root : String → String
  root run_dir = host.join run_dir "curriculum"

  abbrev pub report_file : String → String
  report_file run_dir = host.join (root run_dir) "qualification.json"

  unfoldable pub publish_state : Bridge W → Result (Bridge W)
  publish_state b = do
    contract ← achievement_contract host (pos b.state.current_stage)
    digest ← achievement_contract_sha256 host (pos b.state.current_stage)
    ok (record b {
      published = some (record {
        published_state = b.state;
        stage_contract = contract;
        stage_contract_sha256 = digest;
        published_report = b.last_report;
        requested_stage = b.state.current_stage;
        report_path = host.resolve (report_file b.run_dir);
      });
    })

  existing_token : Option String → Dict String → Option String
  existing_token none files = none
  existing_token (some run_dir) files = option_map host.sha256 (get files (report_file run_dir))

  -- `__init__`: `log_dir` is the resolved run directory, `rank` the environment's RANK
  unfoldable pub init : Registered → Bool → Option String → ℕ → Dict String → Result (Bridge W)
  unfolding resolve_term existing_token publish_state
  init registered distributed log_dir rank files = do
    term ← resolve_term registered
    ensure (not (is_some term && distributed)) runtime_error
    let b : Bridge W = record {
      term = term;
      enabled = is_some term && is_some log_dir && (rank == 0);
      run_dir = text_or_empty log_dir;
      state = initial (start_stage term);
      last_observed_token = existing_token log_dir files;
      last_report = none;
      published = none;
      events = [];
      computes = 0;
    }
    if b.enabled then publish_state b else ok b

  abbrev target_name : ℕ → String → String
  target_name stage source =
      join_text (join_text "qualified_stage_" (host.str_of (int (pos stage))))
        (join_text "_" (host.file_name source))

  or_missing : Option String → Result String
  or_missing none = err os_error
  or_missing (some bytes) = ok bytes

  -- copies `bytes` to `target`, unless the same file is there
  keep_copy : Dict String → String → String → Option String → Result (String × Dict String)
  keep_copy files target bytes none = ok (host.resolve target, put files target bytes)
  keep_copy files target bytes (some old) = do
    ensure (str_eq (host.sha256 old) (host.sha256 bytes)) value_error
    ok (host.resolve target, files)

  unfoldable pub preserve_checkpoint :
      Dict String → String → String → ℕ → Result (String × Dict String)
  unfolding or_missing keep_copy
  preserve_checkpoint files run_dir source stage = do
    bytes ← or_missing (get files source)
    let target : String = host.join (root run_dir) (target_name stage source)
    keep_copy files target bytes (get files target)

  -- the state after a report, its qualified checkpoint replaced by the preserved copy
  keep_qualified :
      Dict String
      → String
      → QualificationEvidence
      → AchievementState
      → Option ℕ
      → Result (AchievementState × Dict String)
  unfolding preserve_checkpoint
  keep_qualified files run_dir e next none = ok (next, files)
  keep_qualified files run_dir e next (some stage) = do
    (preserved, files') ← preserve_checkpoint files run_dir e.checkpoint stage
    ok (
      record next {
        qualified_checkpoints = set next.qualified_checkpoints stage (some preserved);
        last_good_checkpoint = some preserved;
      },
      files',
    )

  -- the part of the `try` block that leaves the bridge alone
  judge :
      Bridge W
      → ℕ
      → Dict String
      → Result (AchievementState × Dict String × Event × QualificationEvidence)
  unfolding keep_qualified
  judge b iteration files = do
    e ←
        read_qualification_evidence host files (report_file b.run_dir) (pos b.state.current_stage)
          b.run_dir iteration
    d ← apply_qualification b.state e
    (next, files') ← keep_qualified files b.run_dir e d.state d.qualified_stage
    ok (next, files', d.event, e)

  -- a new report: `try` and `except`, then the files
  consume_new : Bridge W → ℕ → Dict String → Result (Bridge W × Dict String)
  unfolding judge enter publish_state
  consume_new seen iteration files = do
    (settled, files') ← enter seen files (judge seen iteration files)
    done ← publish_state settled
    ok (done, files')

  consume_payload : Bridge W → ℕ → Dict String → Option String → Result (Bridge W × Dict String)
  unfolding consume_new same_token
  consume_payload b iteration files none = ok (b, files)
  consume_payload b iteration files (some payload) =
      if same_token b.last_observed_token (host.sha256 payload)
      then ok (b, files)
      else consume_new (record b { last_observed_token = some (host.sha256 payload) }) iteration
          files

  -- `_consume_report`: the file is read for its digest, and again for its evidence
  unfoldable pub consume_report :
      Bridge W → ℕ → Dict String → Dict String → Result (Bridge W × Dict String)
  unfolding consume_payload
  consume_report b iteration before files =
      consume_payload b iteration files (get before (report_file b.run_dir))

  -- `iteration`; the logged numbers are the fields of the state
  unfoldable pub iteration :
      Bridge W → ℕ → Dict String → Dict String → Result (Bridge W × Dict String)
  unfolding consume_report
  iteration b i before files = if b.enabled then consume_report b i before files else ok (b, files)

  restore_active : Option SavedState → Bridge W → Result (Bridge W)
  unfolding publish_state set_bridge_stage
  restore_active none b = ok b
  restore_active (some value) b = do
    state ← from_dict value
    let seen : Bridge W = record b {
      state = state;
      last_observed_token =
          (if same_digest b.last_observed_token state.last_report_sha256
            then b.last_observed_token
            else none);
    }
    moved ← set_bridge_stage state.current_stage seen
    if moved.enabled then publish_state moved else ok moved

  unfoldable pub restore : Option SavedState → Bridge W → Result (Bridge W)
  unfolding restore_active
  restore value b = if is_some b.term then restore_active value b else ok b
