-- ===== src/Curriculum/State/Saved.antt =====
-- Storing the curriculum's state in a checkpoint and restoring it.
use mc_mjlab.Prelude.{◌≡◌, arith, ok}
use mc_mjlab.Curriculum.State.Bounds.{IsValid}
use mc_mjlab.Curriculum.State.{AchievementState, from_dict, to_dict}

-- A valid state comes back from a checkpoint as it was stored.
pub from_dict-to_dict : (s : AchievementState) → IsValid s → from_dict (to_dict s) ≡ ok s
unfolding from_dict to_dict
from_dict-to_dict s v = ground arith
