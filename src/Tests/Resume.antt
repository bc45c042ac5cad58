-- ===== src/Tests/Resume.antt =====
-- Saving and loading on a concrete run.
use mc_mjlab.Prelude.{
  str_eq, if◌then◌else◌, ℕ, String, true, false, Option, none, some, List, [], ◌∷◌, ◌≡◌, ◌⊎◌, refl,
  pos, ok, err, runtime_error,
}
use mc_mjlab.Float.{Milli}
use mc_mjlab.Json.{Json, int, obj, end, field, json_eq}
use mc_mjlab.Resume.{Provenance, Active, Hooks, collect_controller_provenance, stamp, load}
use mc_mjlab.Resume.Accepted.{SameController, SameContract, load_checks, load-stamp}
use mc_mjlab.Tests.Hosts.{bare}

abbrev current : String → String
current name = name

-- a controller whose user configuration is not there
abbrev read_text : String → Option String
read_text path = if str_eq path "mc_rtc.yaml" then some "Enabled: walking" else none

abbrev controller : Provenance
controller = record {
  controller_name = "walking";
  files =
      record {
        role = "project_mc_rtc";
        source = "mc_rtc.yaml";
        present = true;
        sha256 = some "Enabled: walking";
        content = some "Enabled: walking";
      }
      ∷ record {
        role = "user_mc_rtc";
        source = "~/mc_rtc.yaml";
        present = false;
        sha256 = none;
        content = none;
      }
      ∷ [];
}

collects :
    collect_controller_provenance
      (λ t. t)
      read_text
      (λ n. "")
      "walking"
      "mc_rtc.yaml"
      "~/mc_rtc.yaml"
      none
      []
    ≡ controller
unfolding collect_controller_provenance
collects = refl

abbrev active : Active Milli
active = record {
  controller_provenance = controller;
  effective_manifest =
      field "schema_version" (int (pos 1))
        (field "training_contract" (obj (field "steps" (int (pos 24)) end)) end);
}

-- the runner is its step and what was done to it
abbrev World : Type 0
World = ℕ × List String

abbrev hooks : Hooks Milli World
hooks = record {
  base_load = λ w. ((40, "loaded" ∷ []), ok (stamp active 40 none));
  common_step_counter = λ w. w.0;
  compute_curriculum = λ w. ((w.0, "computed" ∷ w.1), ok tt);
  restore_task_state = λ task w. ((w.0, "restored" ∷ w.1), ok tt);
}

fresh : World
fresh = (0, [])

abbrev contract : Json Milli
contract = obj (field "steps" (int (pos 24)) end)

resumes : (load bare current hooks active true fresh).1 ≡ ok (stamp active 40 none)
unfolding load stamp json_eq mc_mjlab.Manifest.path mc_mjlab.Manifest.drop_paths
    mc_mjlab.Manifest.added_keys mc_mjlab.Manifest.normalize mc_mjlab.Manifest.drop_keys
    mc_mjlab.Manifest.rename_fields
resumes = refl

load-stamp_example :
    load bare current hooks active true fresh
    ≡ ((40, "restored" ∷ "computed" ∷ "loaded" ∷ []), ok (stamp active 40 none))
unfolding json_eq mc_mjlab.Manifest.normalize mc_mjlab.Manifest.drop_keys
    mc_mjlab.Manifest.rename_fields
load-stamp_example =
    load-stamp bare current hooks active fresh (40, "loaded" ∷ []) (40, "computed" ∷ "loaded" ∷ [])
      (40, "restored" ∷ "computed" ∷ "loaded" ∷ []) none contract refl refl refl refl refl refl

load_checks_example :
    (stamp active 40 none ≡ stamp active 40 none)
    × SameController active (some controller)
    × SameContract bare current active (some active.effective_manifest)
    × ((◌≡◌ {A = Option ℕ} (some 40) none) ⊎ (◌≡◌ {A = Option ℕ} (some 40) (some 40)))
unfolding stamp
load_checks_example =
    load_checks bare current hooks active fresh (40, "loaded" ∷ []) (stamp active 40 none)
      (stamp active 40 none) refl resumes

-- another controller
moved : Active Milli
moved = record active { controller_provenance = record controller { controller_name = "standing" } }

-- is refused before the curriculum and the task are touched, and after the networks are loaded
refused : load bare current hooks moved true fresh ≡ ((40, "loaded" ∷ []), err runtime_error)
unfolding load stamp moved
refused = refl
