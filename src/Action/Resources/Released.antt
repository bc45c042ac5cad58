-- ===== src/Action/Resources/Released.antt =====
-- What the term releases, when and in which order.
use mathlib.Core.List.{append_assoc, append-nil}
use mc_mjlab.Prelude.{
  true, Option, none, some, List, [], ◌∷◌, ◌++◌, ◌≡◌, refl, sym, ap, ◌∙◌, arith, Option-cases, inl,
  inr,
}
use mc_mjlab.Action.Resources.{
  Release, Resources, Fault, Event, when, release_controller, finalized, finalize, stop_manager,
  unlink_memory, close, acquire, nothing_acquired, construct, happen,
}

-- what is held, in the order in which it has to be released
abbrev pub held : Resources → List Release
held s = elim s.finalizer [
  | some alive ↦ finalized alive
  | none ↦
      when s.manager Release.stopped_manager
      ++ (when s.input_memory Release.unlinked_input
          ++ when s.output_memory Release.unlinked_output)
]

-- what has been released, followed by what is held
abbrev pub account : Resources → List Release
account s = s.released ++ held s

account-finalize : (s : Resources) → account (finalize s) ≡ account s
unfolding finalize
account-finalize s = elim (Option-cases s.finalizer) [
  | inl e ↦ rw e refl
  | inr (alive, e) ↦ rw e (append-nil (s.released ++ finalized alive))
]

account-close : (s : Resources) → (account (close s) ≡ account s) × (held (close s) ≡ [])
unfolding close stop_manager unlink_memory
account-close s = elim (Option-cases s.finalizer) [
  | inl e ↦
      let stop = when s.manager Release.stopped_manager in
      let memory =
        when s.input_memory Release.unlinked_input
        ++ when s.output_memory Release.unlinked_output in
      rw e (append-nil (s.released ++ stop ++ memory) ∙ append_assoc s.released stop memory, refl)
  | inr (alive, e) ↦ rw e (
    append-nil (s.released ++ finalized alive ++ []) ∙ append-nil (s.released ++ finalized alive),
    refl,
  )
]

account-happen : (es : List Event) (s : Resources) → account (happen es s) ≡ account s
unfolding happen
account-happen [] s = refl
account-happen (Event.closes ∷ es) s = account-happen es (close s) ∙ (account-close s).0
account-happen (Event.finalizes ∷ es) s = account-happen es (finalize s) ∙ account-finalize s

-- what `__init__` acquires before a fault, in the order of its release
abbrev pub acquired : Option Fault → List Release
acquired (some Fault.creating_input) = []
acquired (some Fault.creating_output) = Release.unlinked_input ∷ []
acquired (some Fault.filling_input) = Release.unlinked_input ∷ Release.unlinked_output ∷ []
acquired (some Fault.starting_manager) = Release.unlinked_input ∷ Release.unlinked_output ∷ []
acquired _ = release_controller

account-acquire :
    (fault : Fault) → account (acquire (some fault) nothing_acquired) ≡ acquired (some fault)
unfolding acquire
account-acquire Fault.creating_input = refl
account-acquire Fault.creating_output = refl
account-acquire Fault.filling_input = refl
account-acquire Fault.starting_manager = refl
account-acquire Fault.registering_finalizer = refl
account-acquire Fault.initializing_controllers = refl
account-acquire Fault.finishing = refl

account-construct : (fault : Option Fault) → account (construct fault).0 ≡ acquired fault
unfolding construct acquire
account-construct none = refl
account-construct (some fault) =
    (account-close (acquire (some fault) nothing_acquired)).0 ∙ account-acquire fault

held-finalize : (s : Resources) → held s ≡ [] → held (finalize s) ≡ []
unfolding finalize
held-finalize s h = elim (Option-cases s.finalizer) [
  | inl e ↦ ground (arith, e, h)
  | inr (alive, e) ↦ rw e refl
]

held-happen : (es : List Event) (s : Resources) → held s ≡ [] → held (happen es s) ≡ []
unfolding happen
held-happen [] s h = h
held-happen (Event.closes ∷ es) s h = held-happen es (close s) (account-close s).1
held-happen (Event.finalizes ∷ es) s h = held-happen es (finalize s) (held-finalize s h)

-- nothing is held, so the account is what has been released
settled :
    (fault : Option Fault) (es : List Event) (s : Resources)
    → account s ≡ acquired fault
    → held s ≡ []
    → (happen es s).released ≡ acquired fault
settled fault es s a h =
    sym (append-nil (happen es s).released)
    ∙ ap (λ rs. (happen es s).released ++ rs) (sym (held-happen es s h))
    ∙ account-happen es s
    ∙ a

-- However far `__init__` gets, what it acquired is released exactly once, the manager before the
-- memory: at once if it raises, else by the first close, whatever closes and finalizer runs there
-- are.
pub construct_released :
    (fault : Option Fault) (es later : List Event)
    → ((happen later (close (happen es (construct fault).0))).released ≡ acquired fault)
      × ((construct fault).1 ≡ true → (happen es (construct fault).0).released ≡ acquired fault)
unfolding construct
construct_released none es later =
    let s = happen es (construct none).0 in
    let (kept, empty) = account-close s in
    (
      settled none later (close s) (kept ∙ account-happen es _ ∙ account-construct none) empty,
      λ h. cc h,
    )
construct_released (some fault) es later =
    let s = happen es (construct (some fault)).0 in
    let (kept, empty) = account-close s in
    let made = account-construct (some fault) in
    (
      settled (some fault) later (close s) (kept ∙ account-happen es _ ∙ made) empty,
      λ h. settled (some fault) es _ made (account-close (acquire (some fault) nothing_acquired)).1,
    )
