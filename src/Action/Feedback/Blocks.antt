-- ===== src/Action/Feedback/Blocks.antt =====
-- How an action splits into the head and the modalities' blocks.
use mc_mjlab.Prelude.{
  ℕ, zero, suc, ◌-◌, ◌≤◌, String, true, false, some, List, [], ◌∷◌, ◌++◌, ◌≡◌, refl, ap, ◌∙◌, arith,
  length, drop, contains, all, ok, eq_iff,
}
use mc_mjlab.Float.{Float}
use mc_mjlab.Action.Feedback.{
  FeedbackCfg, supported_modalities, are_unique, post_init, feedback_dim, take, modality_slices,
  block,
}

accepted :
    {W : Type 0} ⦃f : Float W⦄ (c : FeedbackCfg W)
    → post_init c ≡ ok tt
    → (are_unique c.feedback_modalities ≡ true)
      × (all (λ (m : String). contains m supported_modalities) c.feedback_modalities ≡ true)
unfolding post_init
accepted c h = ground (arith, h)

module _ {ℓ} {A : Type ℓ} where
  append-take-drop : (n : ℕ) (xs : List A) → take n xs ++ drop n xs ≡ xs
  append-take-drop zero xs = refl
  append-take-drop (suc n) [] = refl
  append-take-drop (suc n) (x ∷ xs) = ap (λ l. x ∷ l) (append-take-drop n xs)

  length-take : (n : ℕ) (xs : List A) → n ≤ length xs → length (take n xs) ≡ n
  length-take zero xs h = refl
  length-take (suc n) [] h = absurd (omega (arith, h))
  length-take (suc n) (x ∷ xs) h = ap suc (length-take n xs (omega (arith, h)))

  length-drop : (n : ℕ) (xs : List A) → length (drop n xs) ≡ length xs - n
  length-drop zero xs = omega arith
  length-drop (suc n) [] = omega arith
  length-drop (suc n) (x ∷ xs) = omega (arith, length-drop n xs)

  -- the blocks, one after another
  pub joined : List (String × List A) → List A
  joined [] = []
  joined ((m, xs) ∷ rest) = xs ++ joined rest

  -- each modality has a block of its width
  pub HasWidths : (String → ℕ) → List String → List (String × List A) → Type ℓ
  HasWidths dim [] blocks = Unit
  HasWidths dim (m ∷ ms) blocks =
      ((xs : List A) × (block m blocks ≡ some xs) × (length xs ≡ dim m)) × HasWidths dim ms blocks

  -- a block in front of another name is not looked at
  HasWidths-cons :
      (dim : String → ℕ) (m : String) (xs : List A) (ms : List String)
      (blocks : List (String × List A))
      → contains m ms ≡ false
      → HasWidths dim ms blocks
      → HasWidths dim ms ((m, xs) ∷ blocks)
  unfolding HasWidths
  HasWidths-cons dim m xs [] blocks e h = tt
  HasWidths-cons dim m xs (n ∷ ms) blocks e (h, hs) =
      let (ys, found, width) = h in
      (
        (ys, ground (arith, found, e), width),
        HasWidths-cons dim m xs ms blocks (ground (arith, e)) hs,
      )

  slices_widths :
      (dim : String → ℕ) (ms : List String) (feedback : List A)
      → are_unique ms ≡ true
      → length feedback ≡ feedback_dim dim ms
      → (joined (modality_slices dim ms feedback) ≡ feedback)
        × HasWidths dim ms (modality_slices dim ms feedback)
  unfolding modality_slices feedback_dim joined HasWidths
  slices_widths dim [] [] u e = (refl, tt)
  slices_widths dim [] (x ∷ xs) u e = absurd (omega (arith, e))
  slices_widths dim (m ∷ ms) feedback u e =
      let (whole, widths) =
        slices_widths dim ms (drop (dim m) feedback) (ground (arith, u))
          (omega (arith, length-drop (dim m) feedback, e)) in
      (
        ap (λ l. take (dim m) feedback ++ l) whole ∙ append-take-drop (dim m) feedback,
        (
          (
            take (dim m) feedback,
            ground (arith, eq_iff m m),
            length-take (dim m) feedback (omega (arith, e)),
          ),
          HasWidths-cons dim m (take (dim m) feedback) ms _ (ground (arith, u)) widths,
        ),
      )

  -- An accepted configuration splits an action into its head and one block of the right width for
  -- each of its modalities, in their order and with nothing left over, if the action is as wide as
  -- they are.
  pub post_init-slices :
      {W : Type 0} ⦃f : Float W⦄ (c : FeedbackCfg W) (dim : String → ℕ) (actions : List A)
      → post_init c ≡ ok tt
      → feedback_dim dim c.feedback_modalities ≤ length actions
      → (let split = length actions - feedback_dim dim c.feedback_modalities in
          let blocks = modality_slices dim c.feedback_modalities (drop split actions) in
          (take split actions ++ joined blocks ≡ actions)
          × HasWidths dim c.feedback_modalities blocks
          × (length (take split actions) ≡ split)
          × (all (λ (m : String). contains m supported_modalities) c.feedback_modalities ≡ true))
  post_init-slices c dim actions h l =
      let split = length actions - feedback_dim dim c.feedback_modalities in
      let (unique, supported) = accepted c h in
      let (whole, widths) =
        slices_widths dim c.feedback_modalities (drop split actions) unique
          (omega (arith, length-drop split actions, l)) in
      (
        ap (λ l. take split actions ++ l) whole ∙ append-take-drop split actions,
        widths,
        length-take split actions (omega arith),
        supported,
      )
