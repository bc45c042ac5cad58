-- ===== src/Action/Resources.antt =====
-- The native resources of `McRtcResidualActionBase` (actions/mc_rtc_residual_action.py): how
-- `__init__` acquires the shared-memory blocks and the controllers, and how `close`, the finalizer
-- and a failure on the way release them.
pub mod Released
use mc_mjlab.Prelude.{
  Bool, true, false, Option, none, some, List, [], ◌∷◌, ◌++◌, ◌≡◌, refl, sym, ap, ◌∙◌, arith,
  if◌then◌else◌,
}

-- a release that reached the system
pub data Release : Type 0 where
  stopped_manager unlinked_input unlinked_output : Release

-- `finalizer` holds whether it is still alive: it runs once at most. `released` is what has been
-- released, in order.
pub record Resources : Type 0 where
  pub finalizer : Option Bool
  pub manager : Bool
  pub input_memory : Bool
  pub output_memory : Bool
  pub views : Bool
  pub released : List Release

-- the step of `__init__` that raises
pub data Fault : Type 0 where
  creating_input creating_output filling_input starting_manager registering_finalizer
        initializing_controllers finishing :
      Fault

abbrev pub when : Bool → Release → List Release
when true r = r ∷ []
when false r = []

abbrev release : List Release → Resources → Resources
release rs s = record s { released = s.released ++ rs }

-- `_release_controller`
abbrev pub release_controller : List Release
release_controller = Release.stopped_manager ∷ Release.unlinked_input ∷ Release.unlinked_output ∷ []

-- what calling the finalizer releases
abbrev pub finalized : Bool → List Release
finalized true = release_controller
finalized false = []

-- the finalizer, when the object is collected or the interpreter exits
unfoldable pub finalize : Resources → Resources
finalize s = elim s.finalizer [
  | none ↦ s
  | some alive ↦ record s { finalizer = some false; released = s.released ++ finalized alive }
]

stop_manager : Resources → Resources
stop_manager s = elim s.finalizer [
  | some alive ↦ record s {
    finalizer = none;
    input_memory = false;
    output_memory = false;
    released = s.released ++ finalized alive;
  }
  | none ↦ release (when s.manager Release.stopped_manager) s
]

unlink_memory : Resources → Resources
unlink_memory s =
    record (release
      (when s.input_memory Release.unlinked_input ++ when s.output_memory Release.unlinked_output)
      s) { input_memory = false; output_memory = false }

unfoldable pub close : Resources → Resources
unfolding stop_manager unlink_memory
close s = unlink_memory (record (stop_manager s) { manager = false; views = false })

-- the fields before the first resource is acquired
abbrev pub nothing_acquired : Resources
nothing_acquired = record {
  finalizer = none;
  manager = false;
  input_memory = false;
  output_memory = false;
  views = true;
  released = [];
}

-- `_start_controllers` and `_finish_initialization` up to the step that raises, if one does
unfoldable pub acquire : Option Fault → Resources → Resources
acquire (some Fault.creating_input) s = s
acquire (some Fault.creating_output) s = record s { input_memory = true }
acquire (some Fault.filling_input) s = record s { input_memory = true; output_memory = true }
acquire (some Fault.starting_manager) s = record s { input_memory = true; output_memory = true }
acquire (some Fault.registering_finalizer) s = record s {
  input_memory = true;
  output_memory = true;
  manager = true;
}
acquire _ s = record s {
  input_memory = true;
  output_memory = true;
  manager = true;
  finalizer = some true;
}

-- the resources after `__init__`, and whether it raised
unfoldable pub construct : Option Fault → Resources × Bool
unfolding acquire close
construct none = (acquire none nothing_acquired, false)
construct (some fault) = (close (acquire (some fault) nothing_acquired), true)

-- what happens to the term later
pub data Event : Type 0 where
  closes finalizes : Event

unfoldable pub happen : List Event → Resources → Resources
unfolding close finalize
happen [] s = s
happen (Event.closes ∷ es) s = happen es (close s)
happen (Event.finalizes ∷ es) s = happen es (finalize s)
