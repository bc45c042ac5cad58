-- ===== src/Curriculum/Bridge/Iteration/Moved.antt =====
-- Setting the stage moves the environment's term to it and leaves the rest of the bridge.
use mc_mjlab.Prelude.{ℕ, ◌+◌, ◌<◌, Option, none, some, ◌≡◌, refl, sym, subst, ok}
use mc_mjlab.Curriculum.Stages.{stage_count}
use mc_mjlab.Curriculum.Rehearsal.{Term, set_stage-shipped, shipped_weights}
use mc_mjlab.Curriculum.Bridge.{Bridge, set_term, set_bridge_stage}

abbrev pub HasShipped : Option Term → Type 0
HasShipped none = Unit
HasShipped (some t) = t.rehearsal_weights ≡ shipped_weights

abbrev pub IsTermAt : ℕ → Option Term → Type 0
IsTermAt k none = Unit
IsTermAt k (some t) = t.current_stage ≡ k

module _ {W : Type 0} where
  -- what the parts of an iteration leave alone
  pub record IsMoved (k : ℕ) (b b' : Bridge W) : Type 0 where
    pub same_state : b'.state ≡ b.state
    pub same_enabled : b'.enabled ≡ b.enabled
    pub same_report : b'.last_report ≡ b.last_report
    pub same_token : b'.last_observed_token ≡ b.last_observed_token
    pub same_dir : b'.run_dir ≡ b.run_dir
    pub still_shipped : HasShipped b'.term
    pub now_at : IsTermAt k b'.term

  set_term-IsMoved :
      (o : Option Term) (k : ℕ) (b : Bridge W)
      → k < stage_count
      → HasShipped o
      → b.term ≡ o
      → (b' : Bridge W) × (set_term o k b ≡ ok b') × IsMoved k b b'
  unfolding set_term
  set_term-IsMoved none k b h s e = (
    b,
    refl,
    record {
      same_state = refl;
      same_enabled = refl;
      same_report = refl;
      same_token = refl;
      same_dir = refl;
      still_shipped = subst HasShipped (sym e) tt;
      now_at = subst (IsTermAt k) (sym e) tt;
    },
  )
  set_term-IsMoved (some t) k b h s e = (
    record b { term = some (record t { current_stage = k }); computes = b.computes + 1 },
    rw (set_stage-shipped k t h s),
    record {
      same_state = refl;
      same_enabled = refl;
      same_report = refl;
      same_token = refl;
      same_dir = refl;
      still_shipped = s;
      now_at = refl;
    },
  )

  pub set_bridge_stage-IsMoved :
      (k : ℕ) (b : Bridge W)
      → k < stage_count
      → HasShipped b.term
      → (b' : Bridge W) × (set_bridge_stage k b ≡ ok b') × IsMoved k b b'
  unfolding set_bridge_stage
  set_bridge_stage-IsMoved k b h s = set_term-IsMoved b.term k b h s refl
