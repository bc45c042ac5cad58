-- ===== src/Resume.antt =====
-- Saving and loading a run: rl/runner.py with rl/controller_provenance.py. `E` is the runner with
-- its environment; the library's load, the curriculum and the task's restoring are functions on it
-- that may raise after they have changed it.
pub mod Accepted
use Prim.Native.String.{◌++◌ as ◌+str◌}
use mc_mjlab.Prelude.{
  ℕ, suc, String, Bool, true, false, ◌&&◌, Option, none, some, List, [], ◌∷◌, ◌++◌, ◌==◌, str_eq,
  if◌then◌else◌, Result, Raised, ok, err, runtime_error, ◌>>=◌, ◌>>◌, ensure,
}
use mc_mjlab.Json.{Host, Json, Fields}
use mc_mjlab.Manifest.{validate}

-- what `_file_record` captures
pub record FileRecord : Type 0 where
  pub role : String
  pub source : String
  pub present : Bool
  pub sha256 : Option String
  pub content : Option String

pub record Provenance : Type 0 where
  pub controller_name : String
  pub files : List FileRecord

module _ (sha256 : String → String) (read_text : String → Option String) where
  abbrev recorded : String → String → Option String → FileRecord
  recorded role source none = record {
    role = role;
    source = source;
    present = false;
    sha256 = none;
    content = none;
  }
  recorded role source (some content) = record {
    role = role;
    source = source;
    present = true;
    sha256 = some (sha256 content);
    content = some content;
  }

  -- of a resolved path, which reads as none where it is not a file
  unfoldable pub file_record : String → String → FileRecord
  file_record role path = recorded role path (read_text path)

  module _ (decimal : ℕ → String) where
    config_records : ℕ → List String → List FileRecord
    unfolding file_record
    config_records index [] = []
    config_records index (path ∷ paths) =
        file_record ("controller_config_" +str decimal index) path
        ∷ config_records (suc index) paths

    abbrev gains_record : Option String → List FileRecord
    unfolding file_record
    gains_record none = []
    gains_record (some path) = file_record "pd_gains" path ∷ []

    -- the installed controller's paths are given in their order
    unfoldable pub collect_controller_provenance :
        String → String → String → Option String → List String → Provenance
    unfolding file_record config_records gains_record
    collect_controller_provenance controller_name project_cfg user_cfg pd_gains_path config_paths =
        record {
          controller_name = controller_name;
          files =
              file_record "project_mc_rtc" project_cfg
              ∷ file_record "user_mc_rtc" user_cfg
              ∷ (gains_record pd_gains_path ++ config_records 0 config_paths);
        }

abbrev pub Signature : Type 0
Signature = String × List (String × Bool × Option String)

abbrev signatures : List FileRecord → List (String × Bool × Option String)
signatures [] = []
signatures (r ∷ files) = (r.role, r.present, r.sha256) ∷ signatures files

unfoldable pub provenance_signature : Provenance → Signature
provenance_signature p = (p.controller_name, signatures p.files)

-- `==` of signatures
abbrev pub same_bool : Bool → Bool → Bool
same_bool true b = b
same_bool false true = false
same_bool false false = true

abbrev pub same_text : Option String → Option String → Bool
same_text none none = true
same_text (some a) (some b) = str_eq a b
same_text _ _ = false

unfoldable pub same_files :
    List (String × Bool × Option String) → List (String × Bool × Option String) → Bool
same_files [] [] = true
same_files ((role, present, sha) ∷ xs) ((role', present', sha') ∷ ys) =
    str_eq role role' && same_bool present present' && same_text sha sha' && same_files xs ys
same_files _ _ = false

unfoldable pub same_signature : Signature → Signature → Bool
unfolding same_files
same_signature (name, xs) (name', ys) = str_eq name name' && same_files xs ys

-- the entries of a checkpoint's `infos` that are read; env_step is its "common_step_counter"
pub record Infos (W : Type 0) : Type 0 where
  pub provenance : Option Provenance
  pub manifest : Option (Fields W)
  pub env_step : Option ℕ
  pub task_state : Option (Json W)

-- what the run has
pub record Active (W : Type 0) : Type 0 where
  pub controller_provenance : Provenance
  pub effective_manifest : Fields W

pub record Hooks (W E : Type 0) : Type 0 where
  pub base_load : E → E × Result (Infos W)
  pub common_step_counter : E → ℕ
  pub compute_curriculum : E → E × Result (Unit {0})
  pub restore_task_state : Option (Json W) → E → E × Result (Unit {0})

module _ {W : Type 0} where
  -- what `save` stamps, with the entry that the library adds of the environment
  unfoldable pub stamp : Active W → ℕ → Option (Json W) → Infos W
  stamp a step task = record {
    provenance = some a.controller_provenance;
    manifest = some a.effective_manifest;
    env_step = some step;
    task_state = task;
  }

  unfoldable pub check_provenance : Active W → Option Provenance → Result (Unit {0})
  unfolding same_signature provenance_signature
  check_provenance a none = ok tt
  check_provenance a (some saved) =
      ensure
        (same_signature (provenance_signature saved) (provenance_signature a.controller_provenance))
        runtime_error

  module _ (host : Host W) (renamed : String → String) where
    unfoldable pub check_manifest : Active W → Bool → Option (Fields W) → Result (Unit {0})
    unfolding validate
    check_manifest a full_resume none = ok tt
    check_manifest a full_resume (some saved) =
        validate host renamed saved a.effective_manifest full_resume

    unfoldable pub check : Active W → Bool → Infos W → Result (Unit {0})
    unfolding check_provenance check_manifest
    check a full_resume i =
        check_provenance a i.provenance >> check_manifest a full_resume i.manifest

    module _ {E : Type 0} (h : Hooks W E) where
      abbrev pub finished : Infos W → E × Result (Unit {0}) → E × Result (Infos W)
      finished i (e, ok u) = (e, ok i)
      finished i (e, err raised) = (e, err raised)

      abbrev pub restored : Infos W → E × Result (Unit {0}) → E × Result (Infos W)
      restored i (e, ok u) = finished i (h.restore_task_state i.task_state e)
      restored i (e, err raised) = (e, err raised)

      -- `synchronize_resumed_curriculum`
      unfoldable pub synchronize : Option ℕ → E → E × Result (Unit {0})
      synchronize none e = (e, ok tt)
      synchronize (some expected) e =
          if h.common_step_counter e == expected
          then h.compute_curriculum e
          else (e, err runtime_error)

      unfoldable pub admitted : Bool → Infos W → E → Result (Unit {0}) → E × Result (Infos W)
      unfolding synchronize
      admitted full_resume i e (err raised) = (e, err raised)
      admitted true i e (ok u) = restored i (synchronize i.env_step e)
      admitted false i e (ok u) = (e, ok i)

      unfoldable pub loaded : Active W → Bool → E × Result (Infos W) → E × Result (Infos W)
      unfolding check admitted
      loaded a full_resume (e, err raised) = (e, err raised)
      loaded a full_resume (e, ok i) = admitted full_resume i e (check a full_resume i)

      -- `load`; without a load_cfg it is a full resume
      unfoldable pub load : Active W → Bool → E → E × Result (Infos W)
      unfolding loaded
      load a full_resume e = loaded a full_resume (h.base_load e)
