-- ===== src/Ladder/Steps.antt =====
-- The ladder stays on its mixtures and moves one step at a time.
use mc_mjlab.Prelude.{
  ℕ, zero, suc, ◌+◌, ◌-◌, ◌<◌, ◌≤◌, false, Option, none, some, List, [], ◌∷◌, ◌≡◌, ◌⊎◌, inl, inr,
  refl, arith, ltb, length, get_elem?, Result, ok, value_error, >>=-eq-ok, ensure, ok-injective,
  subst, if-rule, ◌&&◌, ensure-eq-ok, ap, ◌∙◌,
}
use mc_mjlab.Float.{Float}
use mc_mjlab.Ladder.{
  Ladder, validated_weights, validated_mixtures, set_band_weights, make_ladder, move_to,
  step_ladder, smooth, smooth_and_step, call, mixture_or_raise,
}

module _ {W : Type 0} ⦃f : Float W⦄ where
  -- The stage has a mixture, every mixture is accepted by the impulse term, and the term draws from
  -- the stage's.
  pub record IsOnLadder (tolerance : W) (l : Ladder W) : Type 0 where
    pub stage_lt : l.stage < length l.mixtures
    pub accepted :
        (k : ℕ) {m : List W}
        → get_elem? l.mixtures k ≡ some m
        → validated_weights tolerance l.bands m ≡ ok m
    pub drawn : get_elem? l.mixtures l.stage ≡ some l.band_weights

  has_mixture :
      (ms : List (List W)) (k : ℕ) → k < length ms → (m : List W) × (get_elem? ms k ≡ some m)
  has_mixture (m ∷ ms) zero h = (m, refl)
  has_mixture (m ∷ ms) (suc k) h = has_mixture ms k (ground arith)
  has_mixture [] k h = absurd (ground arith)

  move_to_lem :
      (tolerance : W) (k : ℕ) (l : Ladder W)
      → IsOnLadder tolerance l
      → k < length l.mixtures
      → (l' : Ladder W) × (move_to tolerance k l ≡ ok l')
        × IsOnLadder tolerance l'
        × (l'.stage ≡ k)
        × (l'.smoothed ≡ f.nan)
  unfolding move_to set_band_weights mixture_or_raise
  move_to_lem tolerance k l v h =
      let (m, found) = has_mixture l.mixtures k h in
      (
        record l { stage = k; band_weights = m; smoothed = f.nan },
        rw (found, v.accepted k found) refl,
        record { stage_lt = h; accepted = v.accepted; drawn = found },
        refl,
        refl,
      )

  -- what a call returns: a ladder on its stage, at most one step away, and fresh if it moved
  record Stepped (tolerance : W) (l : Ladder W) (r : Result (Ladder W)) : Type 0 where
    result : Ladder W
    returned : r ≡ ok result
    on : IsOnLadder tolerance result
    near :
        (result.stage ≡ l.stage)
        ⊎ (((result.stage ≡ l.stage + 1) ⊎ (result.stage + 1 ≡ l.stage))
            × (result.smoothed ≡ f.nan))

  step_ladder-Stepped :
      (tolerance advance regress : W) (l : Ladder W)
      → IsOnLadder tolerance l
      → Stepped tolerance l (step_ladder tolerance advance regress l)
  unfolding step_ladder
  step_ladder-Stepped tolerance advance regress l v =
      if-rule (Stepped tolerance l)
        (f.le advance l.smoothed && ltb (l.stage + 1) (length l.mixtures))
        (λ h.
          let (up, done, on, at, fresh) = move_to_lem tolerance (l.stage + 1) l v (ground arith) in
          record { result = up; returned = done; on = on; near = inr (inl at, fresh) })
        (λ _.
          if-rule (Stepped tolerance l) (f.lt l.smoothed regress && ltb 0 l.stage)
            (λ h.
              let (down, done, on, at, fresh) =
                move_to_lem tolerance (l.stage - 1) l v (ground (arith, v.stage_lt)) in
              record {
                result = down;
                returned = done;
                on = on;
                near = inr (inr (ground (arith, at)), fresh);
              })
            (λ _. record { result = l; returned = refl; on = v; near = inl refl }))

  smooth_and_step-Stepped :
      (tolerance advance regress smoothing : W) (mean : Option W) (longest : W) (l : Ladder W)
      → IsOnLadder tolerance l
      → Stepped tolerance l (smooth_and_step tolerance advance regress smoothing mean longest l)
  unfolding smooth_and_step
  smooth_and_step-Stepped tolerance advance regress smoothing none longest l v = record {
    result = l;
    returned = refl;
    on = v;
    near = inl refl;
  }
  smooth_and_step-Stepped tolerance advance regress smoothing (some mean) longest l v =
      let s =
        step_ladder-Stepped tolerance advance regress
          (record l { smoothed = smooth smoothing l.smoothed (f.div mean longest) })
          (record { stage_lt = v.stage_lt; accepted = v.accepted; drawn = v.drawn }) in
      record { result = s.result; returned = s.returned; on = s.on; near = s.near }

  -- On its stage, with an advance fraction above the regress fraction, the curriculum never raises:
  -- a call returns a ladder on its stage, at the same stage or, with nothing smoothed, one away.
  pub call-IsOnLadder :
      (tolerance advance regress smoothing : W) (mean : Option W) (longest : W) (l : Ladder W)
      → IsOnLadder tolerance l
      → f.le advance regress ≡ false
      → (l' : Ladder W) × (call tolerance advance regress smoothing mean longest l ≡ ok l')
        × IsOnLadder tolerance l'
        × ((l'.stage ≡ l.stage)
            ⊎ (((l'.stage ≡ l.stage + 1) ⊎ (l'.stage + 1 ≡ l.stage)) × (l'.smoothed ≡ f.nan)))
  unfolding call
  call-IsOnLadder tolerance advance regress smoothing mean longest l v h =
      let s = smooth_and_step-Stepped tolerance advance regress smoothing mean longest l v in
      (s.result, rw h s.returned, s.on, s.near)

  -- every mixture of the list is accepted, and stays as it is
  record AllAccepted (tolerance : W) (bands : ℕ) (ms : List (List W)) : Type 0 where
    each :
        (k : ℕ) {m : List W} → get_elem? ms k ≡ some m → validated_weights tolerance bands m ≡ ok m

  validated_weights_same :
      (tolerance : W) (bands : ℕ) (m : List W) {v : List W}
      → validated_weights tolerance bands m ≡ ok v
      → m ≡ v
  unfolding validated_weights
  validated_weights_same tolerance bands m h = ground arith

  accepted_at :
      (tolerance : W) (bands : ℕ) (m v : List W) (ms : List (List W))
      → validated_weights tolerance bands m ≡ ok v
      → AllAccepted tolerance bands ms
      → (k : ℕ) {n : List W} → get_elem? (v ∷ ms) k ≡ some n
      → validated_weights tolerance bands n ≡ ok n
  accepted_at tolerance bands m v ms h all zero e =
      let here : validated_weights tolerance bands v ≡ ok v =
        subst (λ (x : List W). validated_weights tolerance bands x ≡ ok v)
          (validated_weights_same tolerance bands m h) h in
      subst (λ (x : List W). validated_weights tolerance bands x ≡ ok x) (cc e) here
  accepted_at tolerance bands m v ms h all (suc k) e = all.each k e

  AllAccepted-validated_mixtures :
      (tolerance : W) (bands : ℕ) (ms : List (List W)) {checked : List (List W)}
      → validated_mixtures tolerance bands ms ≡ ok checked
      → AllAccepted tolerance bands checked
  unfolding validated_mixtures
  AllAccepted-validated_mixtures tolerance bands [] h =
      subst (AllAccepted tolerance bands) (ok-injective h) (record { each = λ k e. cc e })
  AllAccepted-validated_mixtures tolerance bands (m ∷ ms) h =
      let (v, valid, h1) = >>=-eq-ok (validated_weights tolerance bands m) _ h in
      let (rest, read, made) = >>=-eq-ok (validated_mixtures tolerance bands ms) _ h1 in
      subst (AllAccepted tolerance bands) (ok-injective made) (record {
        each =
            accepted_at tolerance bands m v rest valid
              (AllAccepted-validated_mixtures tolerance bands ms read);
      })

  mixture_at : (o : Option (List W)) {m : List W} → mixture_or_raise o ≡ ok m → o ≡ some m
  unfolding mixture_or_raise
  mixture_at o h = ground arith

  -- A curriculum that is made without raising is on its ladder, at stage 0 of at least two
  -- mixtures.
  pub make_ladder-IsOnLadder :
      (tolerance : W) (bands : ℕ) (given : List W) (mixtures : List (List W)) {l : Ladder W}
      → make_ladder tolerance bands given mixtures ≡ ok l
      → IsOnLadder tolerance l × (l.stage ≡ 0) × (2 ≤ length l.mixtures)
  unfolding make_ladder set_band_weights mixture_or_raise
  make_ladder-IsOnLadder tolerance bands given mixtures h =
      let (checked, valid, h1) = >>=-eq-ok (validated_mixtures tolerance bands mixtures) _ h in
      let (_, enough, h2) = >>=-eq-ok (ensure (ltb 1 (length checked)) value_error) _ h1 in
      let all = AllAccepted-validated_mixtures tolerance bands mixtures valid in
      let (m, found, h3) = >>=-eq-ok (mixture_or_raise (get_elem? checked 0)) _ h2 in
      let (v, accepted, made) = >>=-eq-ok (validated_weights tolerance bands m) _ h3 in
      let at : get_elem? checked 0 ≡ some m = mixture_at (get_elem? checked 0) found in
      let two : 2 ≤ length checked = ground (arith, ensure-eq-ok _ _ enough) in
      subst (λ (t : Ladder W). IsOnLadder tolerance t × (t.stage ≡ 0) × (2 ≤ length t.mixtures))
        (ok-injective made)
        (
          record {
            stage_lt = omega (arith, two);
            accepted = all.each;
            drawn = at ∙ ap some (validated_weights_same tolerance bands m accepted);
          },
          refl,
          two,
        )
