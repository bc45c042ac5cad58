-- ===== src/ActorMask/Complete.antt =====
-- A rollout that is accepted as complete has no stale row.
use mc_mjlab.Prelude.{
  ℕ, ◌+◌, ◌<◌, ◌≤◌, Bool, List, [], ◌∷◌, ◌≡◌, refl, ap, ◌∙◌, arith, length, drop, set, ok,
  >>=-eq-ok, ensure-eq-ok, ok-injective,
}
use mc_mjlab.ActorMask.{Masks, record_actor_update_mask, require_complete, record_all}

abbrev pub given_masks : List (ℕ × List Bool) → List (List Bool)
given_masks [] = []
given_masks ((step, mask) ∷ rest) = mask ∷ given_masks rest

abbrev append : List (List Bool) → List (List Bool) → List (List Bool)
append [] ys = ys
append (x ∷ xs) ys = x ∷ append xs ys

set_at :
    (pre post : List (List Bool)) (x y : List Bool)
    → set (append pre (x ∷ post)) (length pre) y ≡ append (append pre (y ∷ [])) post
set_at [] post x y = refl
set_at (p ∷ pre) post x y = ap (λ (r : List (List Bool)). p ∷ r) (set_at pre post x y)

length-snoc :
    (pre : List (List Bool)) (y : List Bool) → length (append pre (y ∷ [])) ≡ length pre + 1
length-snoc [] y = refl
length-snoc (p ∷ pre) y = ground (arith, length-snoc pre y)

snoc_append :
    (pre post : List (List Bool)) (y : List Bool)
    → append (append pre (y ∷ [])) post ≡ append pre (y ∷ post)
snoc_append [] post y = refl
snoc_append (p ∷ pre) post y = ap (λ (r : List (List Bool)). p ∷ r) (snoc_append pre post y)

length-append_rows :
    (pre post : List (List Bool)) → length (append pre post) ≡ length pre + length post
length-append_rows [] post = ground arith
length-append_rows (p ∷ pre) post = ground (arith, length-append_rows pre post)

record_lem :
    (step : ℕ) (mask : List Bool) (m : Masks) {t : Masks}
    → record_actor_update_mask step mask m ≡ ok t
    → (m.steps < length m.rows)
      × (t.rows ≡ set m.rows m.steps mask)
      × (t.steps ≡ m.steps + 1)
      × (t.num_transitions ≡ m.num_transitions)
unfolding record_actor_update_mask
record_lem step mask m h = ground arith

-- the rows, the cursor and the length that remain
record_all_lem :
    (rs : List (ℕ × List Bool)) (pre post : List (List Bool)) (m : Masks) {t : Masks}
    → m.rows ≡ append pre post
    → m.steps ≡ length pre
    → record_all rs m ≡ ok t
    → (t.rows ≡ append pre (append (given_masks rs) (drop (length rs) post)))
      × (t.steps ≡ length pre + length rs)
      × (length rs ≤ length post)
      × (t.num_transitions ≡ m.num_transitions)
unfolding record_all
record_all_lem [] pre post m r s h =
    rw (← ok-injective h) (r, ground (arith, s), ground arith, refl)
record_all_lem ((step, mask) ∷ rs) pre [] m r s h =
    let (t1, first, h1) = >>=-eq-ok (record_actor_update_mask step mask m) _ h in
    absurd (ground (arith, record_lem step mask m first, ap length r, length-append_rows pre [], s))
record_all_lem ((step, mask) ∷ rs) pre (x ∷ post) m r s h =
    let (t1, first, h1) = >>=-eq-ok (record_actor_update_mask step mask m) _ h in
    let (room, rows1, steps1, same1) = record_lem step mask m first in
    let pre1 = append pre (mask ∷ []) in
    let now : t1.rows ≡ append pre1 post = rows1 ∙ rw (r, s) (set_at pre post x mask) in
    let at : t1.steps ≡ length pre1 = ground (arith, steps1, s, length-snoc pre mask) in
    let (rows2, steps2, fits, same2) = record_all_lem rs pre1 post t1 now at h1 in
    (
      rows2 ∙ snoc_append pre _ mask,
      ground (arith, steps2, length-snoc pre mask),
      ground (arith, fits),
      same2 ∙ same1,
    )

given_masks_append : (xs : List (List Bool)) → append xs [] ≡ xs
given_masks_append [] = refl
given_masks_append (x ∷ xs) = ap (λ (r : List (List Bool)). x ∷ r) (given_masks_append xs)

drop_all : (xs : List (List Bool)) → drop (length xs) xs ≡ []
drop_all [] = refl
drop_all (x ∷ xs) = drop_all xs

-- When a rollout that starts at the first row is recorded without an error and accepted as
-- complete, the rows are exactly its masks, one for each step, and no row of an earlier rollout is
-- left.
pub record_all_complete :
    (rs : List (ℕ × List Bool)) (step : ℕ) (m : Masks) {t : Masks}
    → m.steps ≡ 0
    → length m.rows ≡ m.num_transitions
    → record_all rs m ≡ ok t
    → require_complete step t ≡ ok tt
    → (t.rows ≡ given_masks rs) × (length rs ≡ m.num_transitions)
unfolding require_complete
record_all_complete rs step m {t} s l h c =
    let (rows, steps, fits, same) = record_all_lem rs [] m.rows m refl s h in
    let full : length rs ≡ length m.rows = ground (arith, ensure-eq-ok _ _ c, steps, same, l) in
    (
      rows
          ∙ ap (append (given_masks rs)) (ap (λ (n : ℕ). drop n m.rows) full ∙ drop_all m.rows)
          ∙ given_masks_append (given_masks rs),
      full ∙ l,
    )
