-- ===== src/Action/Pipeline/Refines.antt =====
-- What the pipeline promises of the ramp and of resets, as a smaller machine that it refines.
use mathlib.Core.List.{map-append}
use mc_mjlab.Prelude.{
  ℕ, ◌+◌, ◌%◌, Bool, true, false, Option, none, some, List, [], ◌∷◌, ◌++◌, ◌==◌, if◌then◌else◌, ◌≡◌,
  refl, ap, ◌∙◌, arith, map, Bool-cases, inl, inr,
}
use mc_mjlab.Action.Pipeline.{
  Status, is_solved, is_worker_failed, Outcome, InputRow, Pipeline, row_of, status_of, stage, latch,
  collect_in_flight, collect, roll, dispatch, advance, apply_actions, reset, reset_elsewhere,
}

-- What an environment's targets depend on: the ramp, the last solve's result if it has one that is
-- not on the ramp yet, and whether the next solve starts from a reset.
pub record Reference (V : Type 0) : Type 0 where
  pub count : ℕ
  pub from : V
  pub to : V
  pub awaited : Option V
  pub reset_due : Bool
  pub flags : List Bool

pub data Step (V D X : Type 0) : Type 0 where
  substep : X → Outcome V D → Step V D X
  reset_here : V → D → Step V D X
  reset_others : Step V D X

module _ {V D : Type 0} where
  -- a row that no worker wrote, and one that is reported as failed, are failures of the worker
  abbrev pub final_status : Outcome V D → Status
  final_status o =
      if o.reported
      then Status.worker_failed
      else elim o.written [ none ↦ Status.worker_failed | some row ↦ row.status ]

  abbrev pub result_of : Outcome V D → Option V
  result_of o =
      if is_solved (final_status o)
      then elim o.written [ none ↦ none | some row ↦ some row.values ]
      else none

  -- The awaited result becomes the end of the ramp, whose old end becomes its start; without one
  -- the ramp stays. The solve that is started is the one awaited next.
  pub start_solve : Outcome V D → Reference V → Reference V
  start_solve o r = record r {
    from = elim r.awaited [ none ↦ r.from | some v ↦ r.to ];
    to = elim r.awaited [ none ↦ r.to | some v ↦ v ];
    awaited = result_of o;
    reset_due = is_worker_failed (final_status o);
    flags = r.flags ++ r.reset_due ∷ [];
  }

module _ {V D X : Type 0} (frameskip : ℕ) where
  -- one step of the reference
  unfoldable pub refer : Step V D X → Reference V → Reference V
  unfolding start_solve
  refer (substep x o) r =
      let counted = record r { count = r.count + 1 } in
      if r.count % frameskip == 0 then start_solve o counted else counted
  refer (reset_here seed zeroed) r = record r {
    from = seed;
    to = seed;
    awaited = none;
    reset_due = true;
  }
  refer reset_others r = r

  unfoldable pub refer_all : List (Step V D X) → Reference V → Reference V
  unfolding refer
  refer_all [] r = r
  refer_all (e ∷ es) r = refer_all es (refer e r)

module _ {V D X F : Type 0} (frameskip : ℕ) where
  -- the same step of the code
  unfoldable pub perform : Step V D X → Pipeline V D X F → Pipeline V D X F
  unfolding apply_actions reset reset_elsewhere
  perform (substep x o) s = apply_actions frameskip x o s
  perform (reset_here seed zeroed) s = reset seed zeroed s
  perform reset_others s = reset_elsewhere s

  unfoldable pub perform_all : List (Step V D X) → Pipeline V D X F → Pipeline V D X F
  unfolding perform
  perform_all [] s = s
  perform_all (e ∷ es) s = perform_all es (perform e s)

module _ {V D X F : Type 0} where
  abbrev pub awaited_of : Pipeline V D X F → Option V
  awaited_of s = elim s.in_flight [
    | some o ↦ result_of o
    | none ↦ if s.has_staged_control then some s.staged_control else none
  ]

  abbrev pub reset_due_of : Pipeline V D X F → Bool
  reset_due_of s = elim s.in_flight [
    | some o ↦ is_worker_failed (final_status o)
    | none ↦ s.pending_reset
  ]

  -- what the pipeline's buffers stand for
  abbrev pub view : Pipeline V D X F → Reference V
  view s = record {
    count = s.substep;
    from = s.previous_control;
    to = s.next_control;
    awaited = awaited_of s;
    reset_due = reset_due_of s;
    flags = map (λ (i : InputRow X F). i.reset_flag) s.sent;
  }

  -- The block's status stands at a worker's failure while a dispatch is out, which sent the pending
  -- reset, and nothing is staged then.
  pub record IsReady (s : Pipeline V D X F) : Type 0 where
    pub guarded : (o : Outcome V D) → s.in_flight ≡ some o → s.output.status ≡ Status.worker_failed
    pub dispatched : (o : Outcome V D) → s.in_flight ≡ some o → s.pending_reset ≡ s.dispatch_reset
    pub unstaged : (o : Outcome V D) → s.in_flight ≡ some o → s.has_staged_control ≡ false

  -- collecting early or late makes no difference to the view
  view-stage :
      (o : Outcome V D) (s : Pipeline V D X F)
      → s.in_flight ≡ some o
      → IsReady s
      → view (stage (row_of o s.output) (status_of o s.output) s) ≡ view s
  unfolding stage latch
  view-stage o s e r = ground (arith, r.guarded o, r.dispatched o, e)

  collected_in :
      (c : Option (Outcome V D)) (s : Pipeline V D X F)
      → s.in_flight ≡ c
      → IsReady s
      → (view (collect_in_flight c s) ≡ view s)
        × ((collect_in_flight c s).in_flight ≡ none)
        × ((collect_in_flight c s).sent ≡ s.sent)
  unfolding collect_in_flight stage latch
  collected_in none s e r = (refl, e, refl)
  collected_in (some o) s e r = (view-stage o s e r, refl, refl)

  view-collect :
      (s : Pipeline V D X F)
      → IsReady s
      → (view (collect s) ≡ view s) × ((collect s).in_flight ≡ none) × ((collect s).sent ≡ s.sent)
  unfolding collect
  view-collect s r = collected_in s.in_flight s refl r

  -- nothing is in flight, so nothing is promised of a dispatch
  pub IsReady-idle : (s : Pipeline V D X F) → s.in_flight ≡ none → IsReady s
  IsReady-idle s e = record {
    guarded = λ o h. cc (e, h);
    dispatched = λ o h. cc (e, h);
    unstaged = λ o h. cc (e, h);
  }

  start_view :
      (x : X) (o : Outcome V D) (s : Pipeline V D X F)
      → s.in_flight ≡ none
      → (view (dispatch x o (roll s)) ≡ start_solve o (view s)) × IsReady (dispatch x o (roll s))
  unfolding dispatch roll start_solve
  start_view x o s e = (
    ground (
      arith,
      map-append (λ (i : InputRow X F). i.reset_flag) s.sent
          (record { sampled = x; feed = s.feed; reset_flag = s.pending_reset } ∷ []),
    ),
    record { guarded = λ p h. refl; dispatched = λ p h. refl; unstaged = λ p h. refl },
  )

  advance-view :
      (x : X) (o : Outcome V D) (s : Pipeline V D X F)
      → IsReady s
      → (view (advance x o s) ≡ start_solve o (view s)) × IsReady (advance x o s)
  unfolding advance
  advance-view x o s r =
      let (seen, idle, _) = view-collect s r in
      let (done, ready) = start_view x o (collect s) idle in (done ∙ ap (start_solve o) seen, ready)

  reset-view :
      (seed : V) (zeroed : D) (s : Pipeline V D X F)
      → IsReady s
      → (view (reset seed zeroed s)
          ≡ record (view s) { from = seed; to = seed; awaited = none; reset_due = true })
        × IsReady (reset seed zeroed s)
  unfolding reset
  reset-view seed zeroed s r =
      let (seen, idle, _) = view-collect s r in
      (
        rw idle (
            ap
              (λ (t : Reference V). record t {
                from = seed;
                to = seed;
                awaited = none;
                reset_due = true;
              })
              seen),
        IsReady-idle _ idle,
      )

  perform-view :
      (frameskip : ℕ) (e : Step V D X) (s : Pipeline V D X F)
      → IsReady s
      → (view (perform frameskip e s) ≡ refer frameskip e (view s))
        × IsReady (perform frameskip e s)
  unfolding perform refer apply_actions reset_elsewhere
  perform-view frameskip (substep x o) s r =
      let counted : Pipeline V D X F = record s { substep = s.substep + 1 } in
      let ready : IsReady counted = record {
        guarded = r.guarded;
        dispatched = r.dispatched;
        unstaged = r.unstaged;
      } in
      elim (Bool-cases (s.substep % frameskip == 0)) [
        | inl first ↦ rw first (advance-view x o counted ready)
        | inr later ↦ rw later (refl, ready)
      ]
  perform-view frameskip (reset_here seed zeroed) s r = reset-view seed zeroed s r
  perform-view frameskip reset_others s r =
      let (seen, idle, _) = view-collect s r in (seen, IsReady-idle _ idle)

  -- The pipeline refines the reference: over any substeps, and resets of this and of other
  -- environments in any order, its ramp, awaited result and reset flags are those of the reference.
  pub perform_all_refines :
      (frameskip : ℕ) (es : List (Step V D X)) (s : Pipeline V D X F)
      → IsReady s
      → (view (perform_all frameskip es s) ≡ refer_all frameskip es (view s))
        × IsReady (perform_all frameskip es s)
  unfolding perform_all refer_all
  perform_all_refines frameskip [] s r = (refl, r)
  perform_all_refines frameskip (e ∷ es) s r =
      let (seen, ready) = perform-view frameskip e s r in
      let (rest, last) = perform_all_refines frameskip es (perform frameskip e s) ready in
      (rest ∙ ap (refer_all frameskip es) seen, last)
